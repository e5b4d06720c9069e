-- ===== src/Lexer/Words.antt =====
-- Names and keywords are read back.
use fluxa_lang.Base.{
  ℕ, ◌≤◌, ◌≡◌, refl, ap, ◌∙◌, List, [], ◌∷◌, ◌++◌, some, Bool, true, false, ◌==◌, ◌||◌,
  if◌then◌else◌, arith, Bool-cases, inl, inr, ◌⊎◌, length, take_all, All,
}
use fluxa_lang.Lexer.{
  peek, after, is_space, is_digit, is_alpha, is_word, is_number, has_point, tok_int, tok_float,
  skip_while, take_while, make_tok, keywords, word_type, scan, next_on, next, dispatch,
}

-- A loop takes what it should and stops where it should.
pub take_while-append :
    (test : ℕ → Bool) (w tail : List ℕ)
    → All (λ c. test c ≡ true) w
    → test (peek tail) ≡ false
    → take_while test (w ++ tail) ≡ w
unfolding take_while
take_while-append test [] [] h e = refl
take_while-append test [] (c ∷ tail) h e = rw e refl
take_while-append test (c ∷ w) tail h e = rw h.0 (ap (◌∷◌ c) (take_while-append test w tail h.1 e))

pub skip_while-append :
    (test : ℕ → Bool) (w tail : List ℕ) (n : ℕ)
    → All (λ c. test c ≡ true) w
    → test (peek tail) ≡ false
    → test 10 ≡ false
    → skip_while test (w ++ tail) n ≡ record { rest = tail; line = n }
unfolding skip_while
skip_while-append test [] [] n h e z = refl
skip_while-append test [] (c ∷ tail) n h e z = rw e refl
skip_while-append test (c ∷ w) tail n h e z = rw h.0 (
    ap (skip_while test (w ++ tail)) (same (Bool-cases (c == 10)))
    ∙ skip_while-append test w tail n h.1 e z)
  where
    same : ((c == 10) ≡ true) ⊎ ((c == 10) ≡ false) → after c n ≡ n
    same (inl newline) = absurd (ground (arith, newline, h.0, z))
    same (inr other) = rw other refl

-- What stands at the head of a name.
module _ (c : ℕ) (h : (is_alpha c || c == 95) ≡ true) where
  no_space : is_space c ≡ false
  no_space = ground (arith, h)

  no_slash : (c == 47) ≡ false
  no_slash = ground (arith, h)

  no_quote : (c == 34) ≡ false
  no_quote = ground (arith, h)

  no_digit : is_digit c ≡ false
  no_digit = ground (arith, h)

  no_newline : (c == 10) ≡ false
  no_newline = ground (arith, h)

-- A name or keyword of at most 255 characters, with no character of a name behind it, is read as one
-- token with that text, and the lexer stands behind it on the same line.
pub next-word :
    (c : ℕ) (w tail : List ℕ) (n : ℕ)
    → (is_alpha c || c == 95) ≡ true
    → All (λ x. is_word x ≡ true) w
    → is_word (peek tail) ≡ false
    → length w ≤ 254
    → next (record { rest = c ∷ (w ++ tail); line = n })
      ≡ some (make_tok (word_type keywords (c ∷ w)) (c ∷ w) n, record { rest = tail; line = n })
unfolding next next_on scan skip_while
next-word c w tail n h a e l = rw (no_space c h) (
    rw (no_slash c h, dispatch)
      (rw (no_quote c h, no_digit c h, h, no_newline c h)
        (rw
          (
            take_while-append is_word w tail a e,
            skip_while-append is_word w tail n a e refl,
            take_all 254 w l,
          )
          refl)))

-- A number of at most 63 characters, digits and points, with none of these behind it, is read as one
-- token with that text: of a float if there is a point in it, else of an integer.
pub next-number :
    (c : ℕ) (w tail : List ℕ) (n : ℕ)
    → is_digit c ≡ true
    → All (λ x. is_number x ≡ true) w
    → is_number (peek tail) ≡ false
    → length w ≤ 62
    → next (record { rest = c ∷ (w ++ tail); line = n })
      ≡ some (
        make_tok (if has_point w then tok_float else tok_int) (c ∷ w) n,
        record { rest = tail; line = n },
      )
unfolding next next_on scan skip_while
next-number c w tail n h a e l =
    let space : is_space c ≡ false = ground (arith, h) in
    let slash : (c == 47) ≡ false = ground (arith, h) in
    let quote : (c == 34) ≡ false = ground (arith, h) in
    let newline : (c == 10) ≡ false = ground (arith, h) in
    rw space (
      rw (slash, dispatch)
        (rw (quote, h, newline)
          (rw
            (
              take_while-append is_number w tail a e,
              skip_while-append is_number w tail n a e refl,
              take_all 62 w l,
            )
            refl)))
