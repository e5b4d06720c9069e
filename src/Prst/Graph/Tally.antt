-- ===== src/Prst/Graph/Tally.antt =====
-- How many entries of a list satisfy a test, and what taking an entry out does to that.
use fluxa_lang.Base.{
  ℕ, zero, suc, ◌+◌, ◌-◌, ◌≤◌, ◌<◌, ◌≡◌, refl, sym, subst, ◌∙◌, List, [], ◌∷◌, ◌++◌, none, some,
  Bool, true, if◌then◌else◌, length, get_elem?, set, arith, inl, inr, length-set, get_elem?-set_ne,
  get_elem?-take, swap_remove, split_last, swap_remove-front, swap_remove-last,
  get_elem?-append_last, length-append, dec_lt, All, All-set, All-take, All-get_elem?, Option-cases,
}

abbrev pub bit : Bool → ℕ
bit b = if b then 1 else 0

module _ {ℓ} {A : Type ℓ} where
  abbrev pub tally : (A → Bool) → List A → ℕ
  tally p [] = 0
  tally p (x ∷ xs) = bit (p x) + tally p xs

  pub tally-append : (p : A → Bool) (xs ys : List A) → tally p (xs ++ ys) ≡ tally p xs + tally p ys
  tally-append p [] ys = omega arith
  tally-append p (x ∷ xs) ys = omega (arith, tally-append p xs ys)

  tally-set :
      (p : A → Bool) (xs : List A) (i : ℕ) (x v : A)
      → get_elem? xs i ≡ some x
      → tally p (set xs i v) + bit (p x) ≡ tally p xs + bit (p v)
  tally-set p [] i x v g = absurd (cc)
  tally-set p (y ∷ xs) zero x v g = ground arith
  tally-set p (y ∷ xs) (suc i) x v g = omega (arith, tally-set p xs i x v g)

  get_elem?-front :
      (front : List A) (last : A) (i : ℕ)
      → i < length front
      → get_elem? (front ++ last ∷ []) i ≡ get_elem? front i
  get_elem?-front [] last i h = absurd (omega arith)
  get_elem?-front (x ∷ front) last zero h = refl
  get_elem?-front (x ∷ front) last (suc i) h = get_elem?-front front last i (omega arith)

  pub get_elem?-lt : (xs : List A) (i : ℕ) (x : A) → get_elem? xs i ≡ some x → i < length xs
  get_elem?-lt [] i x g = absurd (cc)
  get_elem?-lt (y ∷ xs) zero x g = omega arith
  get_elem?-lt (y ∷ xs) (suc i) x g = omega (arith, get_elem?-lt xs i x g)

  pub le-of_get_elem?-none : (xs : List A) (i : ℕ) → get_elem? xs i ≡ none → length xs ≤ i
  le-of_get_elem?-none [] i g = omega arith
  le-of_get_elem?-none (y ∷ xs) zero g = absurd (cc)
  le-of_get_elem?-none (y ∷ xs) (suc i) g = omega (arith, le-of_get_elem?-none xs i g)

  -- What `swap_remove` does to a tally, and to the length.
  abbrev Takes : (A → Bool) → A → List A → List A → Type 0
  Takes p x xs rest = (tally p xs ≡ bit (p x) + tally p rest) × (length xs ≡ suc (length rest))

  swap_remove-Takes_front :
      (p : A → Bool) (front : List A) (last : A) (i : ℕ) (x : A)
      → get_elem? (front ++ last ∷ []) i ≡ some x
      → Takes p x (front ++ last ∷ []) (swap_remove (front ++ last ∷ []) i)
  swap_remove-Takes_front p front last i x g = elim (dec_lt i (length front)) [
    | yes h ↦ rw (swap_remove-front front last i h) (
      omega (
        arith,
        tally-append p front (last ∷ []),
        tally-set p front i x last (sym (get_elem?-front front last i h) ∙ g),
      ),
      omega (arith, length-append front (last ∷ []), length-set front i last),
    )
    | no h ↦ at_end (omega (arith, get_elem?-lt _ i x g, length-append front (last ∷ [])))
  ]
    where
      at_end :
          i ≡ length front → Takes p x (front ++ last ∷ []) (swap_remove (front ++ last ∷ []) i)
      at_end h =
          rw (h, swap_remove-last front last)
            (
              ground
                  (arith, tally-append p front (last ∷ []), g, h, get_elem?-append_last front last),
              omega (arith, length-append front (last ∷ [])),
            )

  pub swap_remove-Takes :
      (p : A → Bool) (xs : List A) (i : ℕ) (x : A)
      → get_elem? xs i ≡ some x
      → Takes p x xs (swap_remove xs i)
  swap_remove-Takes p [] i x g = absurd (cc)
  swap_remove-Takes p (y ∷ xs) i x g =
      let (front, last, e) = split_last y xs in
      subst (λ l. get_elem? l i ≡ some x → Takes p x l (swap_remove l i)) (sym e)
        (swap_remove-Takes_front p front last i x) g

  -- The entries before the index stay where they are.
  pub get_elem?-swap_remove :
      (xs : List A) (i j : ℕ)
      → j < i
      → i < length xs
      → get_elem? (swap_remove xs i) j ≡ get_elem? xs j
  unfolding swap_remove
  get_elem?-swap_remove xs i j h l = elim (Option-cases (get_elem? xs (length xs - 1))) [
    | inl e ↦ rw (e, swap_remove) refl
    | inr (last, e) ↦
        rw (e, swap_remove)
          (get_elem?-take (length xs - 1) j (set xs i last) (omega arith)
            ∙ get_elem?-set_ne xs i j last (λ q. absurd (omega arith)))
  ]

  pub All-swap_remove {κ} :
      (P : A → Type κ) (xs : List A) (i : ℕ) → All P xs → All P (swap_remove xs i)
  unfolding swap_remove
  All-swap_remove P xs i a = elim (Option-cases (get_elem? xs (length xs - 1))) [
    | inl e ↦ rw (e, swap_remove) a
    | inr (last, e) ↦
        rw (e, swap_remove)
          (All-take P (length xs - 1) (set xs i last)
            (All-set P xs i last a (All-get_elem? P xs (length xs - 1) last a e)))
  ]

  -- A stronger test counts no more, and the test that always holds counts the length.
  pub tally_mono :
      (p q : A → Bool) (xs : List A) → ((x : A) → q x ≡ true → p x ≡ true) → tally q xs ≤ tally p xs
  tally_mono p q [] h = omega arith
  tally_mono p q (x ∷ xs) h = ground (arith, h x, tally_mono p q xs h)

  pub tally-length : (xs : List A) → tally (λ x. true) xs ≡ length xs
  tally-length [] = refl
  tally-length (x ∷ xs) = omega (arith, tally-length xs)
