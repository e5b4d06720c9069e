-- ===== src/Lexer/Kinds.antt =====
-- No token but that of the end has its kind.
use fluxa_lang.Base.{
  ℕ, ◌≡◌, refl, List, [], ◌∷◌, Bool, true, false, inl, inr, ◌==◌, ◌&&◌, not, str_eq, if◌then◌else◌,
  arith, Bool-cases,
}
use fluxa_lang.Lexer.{TokenType, tok_eof, tok_float, tok_int, word_type, scan_operator}

abbrev pub is_eof : TokenType → Bool
is_eof tok_eof = true
is_eof t = false

-- No token of a table is that of the end.
abbrev pub no_eof {ℓ} : {A : Type ℓ} → List (A × TokenType) → Bool
no_eof [] = true
no_eof ((a, t) ∷ ps) = not (is_eof t) && no_eof ps

abbrev pub no_eof_pairs : List (ℕ × ℕ × TokenType) → Bool
no_eof_pairs [] = true
no_eof_pairs ((a, b, t) ∷ ps) = not (is_eof t) && no_eof_pairs ps

pub both : (b c : Bool) → (not b && c) ≡ true → (b ≡ false) × (c ≡ true)
both b c h = (ground (arith, h), ground (arith, h))

pub scan_operator_type :
    (os : List (ℕ × TokenType)) (c line : ℕ)
    → no_eof os ≡ true
    → is_eof (scan_operator os c line).type ≡ false
unfolding scan_operator
scan_operator_type [] c line h = refl
scan_operator_type ((o, t) ∷ os) c line h = elim (Bool-cases (c == o)) [
  | inl hit ↦ rw hit (both (is_eof t) (no_eof os) h).0
  | inr miss ↦ rw miss (scan_operator_type os c line (both (is_eof t) (no_eof os) h).1)
]

pub word_type-is_eof :
    (ks : List (List ℕ × TokenType)) (w : List ℕ)
    → no_eof ks ≡ true
    → is_eof (word_type ks w) ≡ false
unfolding word_type
word_type-is_eof [] w h = refl
word_type-is_eof ((k, t) ∷ ks) w h = elim (Bool-cases (str_eq w k)) [
  | inl hit ↦ rw hit (both (is_eof t) (no_eof ks) h).0
  | inr miss ↦ rw miss (word_type-is_eof ks w (both (is_eof t) (no_eof ks) h).1)
]

pub scan_number_type : (b : Bool) → is_eof (if b then tok_float else tok_int) ≡ false
scan_number_type true = refl
scan_number_type false = refl
