-- ===== src/Lexer/Texts.antt =====
-- String literals are read back.
use fluxa_lang.Base.{
  ℕ, ◌≤◌, ◌<◌, ◌≡◌, refl, sym, ap, ◌∙◌, List, [], ◌∷◌, ◌++◌, some, true, false, ◌==◌, if◌then◌else◌,
  arith, Bool-cases, inl, inr, length, take_all, length-append,
}
use fluxa_lang.Lexer.{
  Lexer, after, string_chars, end_string, make_tok, tok_string, scan, next_on, next, skip_while,
  unescape,
}

-- How a literal writes a character, and a text.
abbrev pub escape : ℕ → List ℕ
escape c =
    if c == 34
    then 92 ∷ 34 ∷ []
    else if c == 92
    then 92 ∷ 92 ∷ []
    else if c == 10
    then 92 ∷ 110 ∷ []
    else if c == 9
    then 92 ∷ 116 ∷ []
    else c ∷ []

abbrev pub escaped : List ℕ → List ℕ
escaped [] = []
escaped (c ∷ s) = escape c ++ escaped s

abbrev read_to : List ℕ → List ℕ → ℕ → List ℕ × Lexer
read_to s tail n = (s, record { rest = 34 ∷ tail; line = n })

string_chars-plain :
    (c : ℕ) (l : List ℕ) (n : ℕ)
    → (c == 34) ≡ false
    → (c == 92) ≡ false
    → (c == 10) ≡ false
    → 0 < length l
    → string_chars (c ∷ l) n ≡ (c ∷ (string_chars l n).0, (string_chars l n).1)
unfolding string_chars
string_chars-plain c [] n q b z h = absurd (omega arith)
string_chars-plain c (e ∷ r) n q b z h = rw (q, string_chars) (rw (b, string_chars) (rw z refl))

string_chars-quote : (tail : List ℕ) (n : ℕ) → string_chars (34 ∷ tail) n ≡ read_to [] tail n
unfolding string_chars
string_chars-quote [] n = refl
string_chars-quote (e ∷ r) n = refl

string_chars-escaped :
    (s tail : List ℕ) (n : ℕ) → string_chars (escaped s ++ 34 ∷ tail) n ≡ read_to s tail n
string_chars-escaped [] tail n = string_chars-quote tail n
string_chars-escaped (c ∷ s) tail n = elim (Bool-cases (c == 34)) [
  | inl quote ↦ rw quote (escapes 34 (==→≡ c 34 quote) refl (string_chars-escaped s tail n))
  | inr q ↦ elim (Bool-cases (c == 92)) [
    | inl slash ↦ rw (q, slash) (escapes 92 (==→≡ c 92 slash) refl (string_chars-escaped s tail n))
    | inr b ↦ elim (Bool-cases (c == 10)) [
      | inl newline ↦
          rw (q, b, newline) (escapes 110 (==→≡ c 10 newline) refl (string_chars-escaped s tail n))
      | inr z ↦ elim (Bool-cases (c == 9)) [
        | inl tab ↦
            rw (q, b, z, tab) (escapes 116 (==→≡ c 9 tab) refl (string_chars-escaped s tail n))
        | inr t ↦
            rw (q, b, z, t)
              (string_chars-plain c (escaped s ++ 34 ∷ tail) n q b z
                  (omega (arith, length-append (escaped s) (34 ∷ tail)))
                ∙ ap (λ (o : List ℕ × Lexer). (c ∷ o.0, o.1)) (string_chars-escaped s tail n))
      ]
    ]
  ]
]
  where
    ==→≡ : (a b : ℕ) → (a == b) ≡ true → a ≡ b
    ==→≡ a b h = ground (arith, h)

    escapes :
        (x : ℕ)
        → c ≡ unescape x
        → after x n ≡ n
        → string_chars (escaped s ++ 34 ∷ tail) n ≡ read_to s tail n
        → string_chars (92 ∷ x ∷ (escaped s ++ 34 ∷ tail)) n ≡ read_to (c ∷ s) tail n
    escapes x e z rest =
        unfold string_chars in
        rw (z) (
          ap (λ (o : List ℕ × Lexer). (unescape x ∷ o.0, o.1)) rest
          ∙ ap (λ y. read_to (y ∷ s) tail n) (sym e))

-- A string literal of at most 4095 characters, written with its quotes, backslashes, line ends and
-- tabs escaped, is read as one string token with the text itself, and the lexer stands behind it on
-- the same line.
pub next-literal :
    (s tail : List ℕ) (n : ℕ)
    → length s ≤ 4095
    → next (record { rest = 34 ∷ (escaped s ++ 34 ∷ tail); line = n })
      ≡ some (make_tok tok_string s n, record { rest = tail; line = n })
unfolding next next_on scan skip_while
next-literal s tail n h =
    ap (λ o. some (end_string n o)) (string_chars-escaped s tail n)
    ∙ ap (λ v. some (make_tok tok_string v n, record { rest = tail; line = n })) (take_all 4095 s h)
