-- ===== src/Lexer/Progress.antt =====
-- `lexer_next` returns, takes characters, and keeps count of the lines.
use fluxa_lang.Base.{
  ℕ, zero, suc, ◌+◌, ◌≤◌, ◌<◌, ◌≡◌, refl, ◌∙◌, List, [], ◌∷◌, Option, some, Bool, true, false, ◌⊎◌,
  inl, inr, ◌==◌, ◌&&◌, ◌||◌, ◌≢◌, sym, ap, if◌then◌else◌, arith, Bool-cases, length,
}
use fluxa_lang.Lexer.{
  TokenType, tok_eof, keywords, Token, Lexer, peek, after, advance, is_space, is_digit, is_alpha,
  is_word, is_number, not_newline, skip_while, string_chars, end_string, scan_symbol, scan, next_on,
  next, make_tok, operators, pairs, scan_operator, dispatch,
}
use fluxa_lang.Lexer.Kinds.{
  is_eof, no_eof_pairs, both, scan_operator_type, word_type-is_eof, scan_number_type,
}

abbrev pub newlines : List ℕ → ℕ
newlines [] = 0
newlines (c ∷ r) = (if c == 10 then 1 else 0) + newlines r

-- The second lexer is the first one further on: no character is behind it that was not, the line
-- went up by the line ends that were passed, and by nothing else.
pub record Behind (l l' : Lexer) : Type 0 where
  pub shorter : length l'.rest ≤ length l.rest
  pub counted : l'.line + newlines l'.rest ≡ l.line + newlines l.rest
  pub later : l.line ≤ l'.line

Behind-trans : (a b c : Lexer) → Behind a b → Behind b c → Behind a c
Behind-trans a b c h k = record {
  shorter = omega (arith, h.shorter, k.shorter);
  counted = k.counted ∙ h.counted;
  later = omega (arith, h.later, k.later);
}

abbrev at_line : List ℕ → ℕ → Lexer
at_line r n = record { rest = r; line = n }

Behind-refl : (l : Lexer) → Behind l l
Behind-refl l = record { shorter = omega arith; counted = refl; later = omega arith }

Behind-after : (c : ℕ) (r : List ℕ) (n : ℕ) → Behind (at_line (c ∷ r) n) (at_line r (after c n))
Behind-after c r n = record { shorter = omega arith; counted = ground arith; later = ground arith }

skip_while-Behind :
    (test : ℕ → Bool) (r : List ℕ) (n : ℕ) → Behind (at_line r n) (skip_while test r n)
unfolding skip_while
skip_while-Behind test [] n = Behind-refl (at_line [] n)
skip_while-Behind test (c ∷ r) n = elim (Bool-cases (test c)) [
  | inl yes' ↦ rw yes' (
      Behind-trans (at_line (c ∷ r) n) (at_line r (after c n)) (skip_while test r (after c n))
        (Behind-after c r n) (skip_while-Behind test r (after c n)))
  | inr no' ↦ rw no' (Behind-refl (at_line (c ∷ r) n))
]

string_chars-Behind : (r : List ℕ) (n : ℕ) → Behind (at_line r n) (string_chars r n).1
unfolding string_chars
string_chars-Behind [] n = Behind-refl (at_line [] n)
string_chars-Behind (c ∷ []) n = elim (Bool-cases (c == 34)) [
  | inl yes' ↦ rw (yes', string_chars) (Behind-refl (at_line (c ∷ []) n))
  | inr no' ↦ rw (no', string_chars) (Behind-after c [] n)
]
string_chars-Behind (c ∷ e ∷ r) n = elim (Bool-cases (c == 34)) [
  | inl yes' ↦ rw (yes', string_chars) (Behind-refl (at_line (c ∷ e ∷ r) n))
  | inr no' ↦ elim (Bool-cases (c == 92)) [
    | inl esc ↦
        rw (no', string_chars)
          (rw (esc, string_chars)
            (Behind-trans (at_line (c ∷ e ∷ r) n) (at_line (e ∷ r) (after c n)) _
              (Behind-after c (e ∷ r) n)
              (Behind-trans (at_line (e ∷ r) (after c n)) (at_line r (after e (after c n))) _
                (Behind-after e r (after c n)) (string_chars-Behind r (after e (after c n))))))
    | inr plain ↦
        rw (no', string_chars)
          (rw (plain, string_chars)
            (Behind-trans (at_line (c ∷ e ∷ r) n) (at_line (e ∷ r) (after c n)) _
              (Behind-after c (e ∷ r) n) (string_chars-Behind (e ∷ r) (after c n))))
  ]
]

advance-Behind_at : (r : List ℕ) (n : ℕ) → Behind (at_line r n) (advance (at_line r n))
advance-Behind_at [] n = Behind-refl (at_line [] n)
advance-Behind_at (c ∷ r) n = Behind-after c r n

advance-Behind : (l : Lexer) → Behind l (advance l)
advance-Behind l = advance-Behind_at l.rest l.line

-- A token of the line at hand that is not the token of the end, and the lexer behind it.
abbrev Scanned : ℕ → Lexer → Token × Lexer → Type 0
Scanned line l (t, l') = (t.line ≡ line) × Behind l l' × (is_eof t.type ≡ false)

scan_operator-line :
    (os : List (ℕ × TokenType)) (c line : ℕ) → (scan_operator os c line).line ≡ line
unfolding scan_operator
scan_operator-line [] c line = refl
scan_operator-line ((o, t) ∷ os) c line = elim (Bool-cases (c == o)) [
  | inl hit ↦ rw hit refl
  | inr miss ↦ rw miss (scan_operator-line os c line)
]

end_string-Scanned :
    (line : ℕ) (l : Lexer) (o : List ℕ × Lexer) → Behind l o.1 → Scanned line l (end_string line o)
end_string-Scanned line l (s, l') h = elim (Bool-cases (peek l'.rest == 34)) [
  | inl yes' ↦ rw yes' (refl, Behind-trans l l' (advance l') h (advance-Behind l'), refl)
  | inr no' ↦ rw no' (refl, h, refl)
]

if_Scanned :
    (line : ℕ) (l : Lexer) (b : Bool) (x y : Token × Lexer)
    → Scanned line l x
    → Scanned line l y
    → Scanned line l (if b then x else y)
if_Scanned line l true x y h k = h
if_Scanned line l false x y h k = k

scan_symbol-Scanned :
    (ps : List (ℕ × ℕ × TokenType)) (c line : ℕ) (l : Lexer)
    → no_eof_pairs ps ≡ true
    → Scanned line l (scan_symbol ps c line l)
unfolding scan_symbol
scan_symbol-Scanned [] c line l h = elim (Bool-cases (c == 33)) [
  | inl yes' ↦ rw yes' (refl, Behind-refl l, refl)
  | inr no' ↦ rw no' (
    scan_operator-line operators c line,
    Behind-refl l,
    scan_operator_type operators c line (unfold operators in refl),
  )
]
scan_symbol-Scanned ((a, b, t) ∷ ps) c line l h =
    if_Scanned line l (c == a && peek l.rest == b) (make_tok t (a ∷ b ∷ []) line, advance l)
      (scan_symbol ps c line l) (refl, advance-Behind l, (both (is_eof t) (no_eof_pairs ps) h).0)
      (scan_symbol-Scanned ps c line l (both (is_eof t) (no_eof_pairs ps) h).1)

scan-Scanned : (c line : ℕ) (l : Lexer) → Scanned line l (scan c line l)
unfolding scan
scan-Scanned c line l =
    if_Scanned line l (c == 34) _ _
      (end_string-Scanned line l (string_chars l.rest l.line) (string_chars-Behind l.rest l.line))
      (if_Scanned line l (is_digit c) _ _
        (refl, skip_while-Behind is_number l.rest l.line, scan_number_type _)
        (if_Scanned line l (is_alpha c || c == 95) _ _
          (refl, skip_while-Behind is_word l.rest l.line, word_type-is_eof keywords _ refl)
          (scan_symbol-Scanned pairs c line l (unfold pairs in refl))))

-- What a call of `lexer_next` leaves: a token of a line between those of the two lexers, with fewer
-- characters left, or the token of the end with none: no other call gives that token.
pub record Reads (l : Lexer) (t : Token) (l' : Lexer) : Type 0 where
  pub behind : Behind l l'
  pub from_line : l.line ≤ t.line
  pub to_line : t.line ≤ l'.line
  pub progress :
      ((t.type ≢ tok_eof) × (length l'.rest < length l.rest))
      ⊎ ((t.type ≡ tok_eof) × (l'.rest ≡ []) × (t.line ≡ l'.line))

-- Reading from a lexer further on.
Reads-Behind : (a b : Lexer) (t : Token) (c : Lexer) → Behind a b → Reads b t c → Reads a t c
Reads-Behind a b t c h k = record {
  behind = Behind-trans a b c h k.behind;
  from_line = omega (arith, h.later, k.from_line);
  to_line = k.to_line;
  progress = further k.progress;
}
  where
    further :
        ((t.type ≢ tok_eof) × (length c.rest < length b.rest))
          ⊎ ((t.type ≡ tok_eof) × (c.rest ≡ []) × (t.line ≡ c.line))
        → ((t.type ≢ tok_eof) × (length c.rest < length a.rest))
          ⊎ ((t.type ≡ tok_eof) × (c.rest ≡ []) × (t.line ≡ c.line))
    further (inl (n, q)) = inl (n, omega (arith, h.shorter))
    further (inr q) = inr q

scan-Reads :
    (c : ℕ) (r : List ℕ) (n : ℕ) (o : Token × Lexer)
    → Scanned n (at_line r (after c n)) o
    → Reads (at_line (c ∷ r) n) o.0 o.1
scan-Reads c r n (t, l) (e, h, other) = record {
  behind = Behind-trans (at_line (c ∷ r) n) (at_line r (after c n)) l (Behind-after c r n) h;
  from_line = omega (arith, e);
  to_line = omega (arith, e, h.later, (Behind-after c r n).later);
  progress = inl (λ q. cc (sym other ∙ ap is_eof q), omega (arith, h.shorter));
}

abbrev pub ReadsTo : Lexer → Option (Token × Lexer) → Type 0
ReadsTo l o = (t : Token) × (l' : Lexer) × (o ≡ some (t, l')) × Reads l t l'

dispatch-Reads :
    (restart : Lexer → Option (Token × Lexer)) (r : List ℕ) (n : ℕ)
    → ((l : Lexer) → length l.rest < length r → ReadsTo l (restart l))
    → ReadsTo (at_line r n) (dispatch restart (at_line r n))
dispatch-Reads restart [] n again = (
  make_tok tok_eof [] n,
  at_line [] n,
  refl,
  record {
    behind = Behind-refl (at_line [] n);
    from_line = omega arith;
    to_line = omega arith;
    progress = inr (refl, refl, refl);
  },
)
dispatch-Reads restart (c ∷ r) n again = elim (Bool-cases (c == 47 && peek r == 47)) [
  | inl comment ↦
      let h = skip_while-Behind not_newline r (after c n) in
      let (t, l', e, k) = again (skip_while not_newline r (after c n)) (omega (arith, h.shorter)) in
      rw (comment, dispatch)
        (
          t,
          l',
          e,
          Reads-Behind (at_line (c ∷ r) n) (skip_while not_newline r (after c n)) t l'
              (Behind-trans (at_line (c ∷ r) n) (at_line r (after c n)) _ (Behind-after c r n) h) k,
        )
  | inr token ↦
      rw (token, dispatch)
        (
          (scan c n (at_line r (after c n))).0,
          (scan c n (at_line r (after c n))).1,
          refl,
          scan-Reads c r n (scan c n (at_line r (after c n)))
              (scan-Scanned c n (at_line r (after c n))),
        )
]

-- Enough fuel gives a token.
next_on-Reads : (n : ℕ) (l : Lexer) → length l.rest < n → ReadsTo l (next_on n l)
unfolding next_on
next_on-Reads zero l h = absurd (omega arith)
next_on-Reads (suc n) l h =
    let s = skip_while is_space l.rest l.line in
    let k = skip_while-Behind is_space l.rest l.line in
    let (t, l', e, q) =
      dispatch-Reads (next_on n) s.rest s.line
        (λ x m. next_on-Reads n x (omega (arith, k.shorter))) in
    (t, l', e, Reads-Behind l s t l' k q)

-- `lexer_next` returns a token for every lexer. Unless it is the token of the end, which comes only
-- when no character is left, fewer characters are left than before, so a source has an end; and the
-- line counter grows by exactly the line ends that were passed, with the line of the token between
-- the counter before and the counter after.
pub next-Reads : (l : Lexer) → ReadsTo l (next l)
unfolding next
next-Reads l = next_on-Reads (suc (length l.rest)) l (omega arith)
