-- ===== src/Prst/Wire/Totality.antt =====
-- Reading never runs out of its fuel, whatever the bytes are.
use fluxa_lang.Base.{
  ℕ, zero, suc, ◌+◌, ◌-◌, ◌^◌, ◌≤◌, ◌<◌, ◌≡◌, refl, List, Option, none, some, ◌||◌, ltb, leb,
  length, drop, arith, Bool-cases, inl, inr, word_at, length-drop,
}
use fluxa_lang.Prst.Value.{Value}
use fluxa_lang.Prst.Wire.{deser_count, deser_head, deser_value, deser_items, deser_entry, arr_limit}
use fluxa_lang.Prst.Wire.Reading.{Parsed, ok, malformed, starved, ◌>>=◌}

-- A read that had its fuel, and left at most `k` bytes.
abbrev pub Leaves {ℓ} : {A : Type ℓ} → ℕ → Parsed (A × List ℕ) → Type 0
Leaves k (ok (a, rest)) = length rest ≤ k
Leaves k malformed = Unit
Leaves k starved = ⊥

abbrev HeadLeaves : ℕ → Parsed (Value × Option ℕ × List ℕ) → Type 0
HeadLeaves k (ok (v, c, rest)) = length rest + 24 ≤ k
HeadLeaves k malformed = Unit
HeadLeaves k starved = ⊥

deser_count-HeadLeaves :
    (v : Value) (r : List ℕ) (k : ℕ) → length r + 24 ≤ k → HeadLeaves k (deser_count v r)
unfolding deser_count
deser_count-HeadLeaves v r k h = elim (Bool-cases (ltb (length r) 4)) [
  | inl short ↦ rw short h
  | inr long ↦ elim (Bool-cases (ltb arr_limit (word_at 4 r))) [
    | inl over ↦ rw (long, over) tt
    | inr fits ↦ rw (long, fits) (omega (arith, length-drop 4 r))
  ]
]

deser_head-HeadLeaves : (dt : ℕ) (r : List ℕ) → HeadLeaves (length r) (deser_head dt r)
unfolding deser_head
deser_head-HeadLeaves dt r = elim (Bool-cases (ltb (length r) 24)) [
  | inl short ↦ rw short tt
  | inr long ↦
      elim (Bool-cases (
        leb (2 ^ 31) (word_at 4 (drop 20 r)) || ltb (length (drop 24 r)) (word_at 4 (drop 20 r)))) [
          | inl over ↦ rw (long, over) tt
          | inr fits ↦
              rw (long, fits)
                (deser_count-HeadLeaves _ _ (length r) (
                  ground (
                    arith,
                    long,
                    length-drop 24 r,
                    length-drop (word_at 4 (drop 20 r)) (drop 24 r),
                  )))
        ]
]

-- To prove something of a read, prove it of what the rest makes of its result.
Leaves-bind {ℓ κ} :
    {A : Type ℓ} {B : Type κ} (k j : ℕ) (m : Parsed (A × List ℕ))
    (f : A × List ℕ → Parsed (B × List ℕ))
    → Leaves j m
    → ((a : A) (rest : List ℕ) → length rest ≤ j → Leaves k (f (a, rest)))
    → Leaves k (m >>= f)
Leaves-bind k j (ok (a, rest)) f h g = g a rest h
Leaves-bind k j malformed f h g = tt
Leaves-bind k j starved f h g = absurd h

value_step :
    (n dt : ℕ) (r : List ℕ) (k : ℕ)
    → HeadLeaves k (deser_head dt r)
    → ((c : ℕ) (rest : List ℕ) → length rest + 24 ≤ k → Leaves k (deser_items n c rest))
    → Leaves k (deser_value (suc n) dt r)
unfolding deser_value
value_step n dt r k h g = go (deser_head dt r) refl h
  where
    go :
        (m : Parsed (Value × Option ℕ × List ℕ))
        → deser_head dt r ≡ m
        → HeadLeaves k m
        → Leaves k (deser_value (suc n) dt r)
    go (ok (v, none, rest)) e l = rw (e, deser_value) (omega arith)
    go (ok (v, some c, rest)) e l =
        rw (e, deser_value) (Leaves-bind k k (deser_items n c rest) _ (g c rest l) (λ vs left m. m))
    go malformed e l = rw (e, deser_value) tt
    go starved e l = absurd l

items_step :
    (n c : ℕ) (r : List ℕ)
    → (4 ≤ length r → Leaves (length r - 4) (deser_value n (word_at 4 r) (drop 4 r)))
    → ((c' : ℕ) (rest : List ℕ)
        → 4 ≤ length r
        → length rest + 4 ≤ length r
        → Leaves (length r) (deser_items n c' rest))
    → Leaves (length r) (deser_items (suc n) c r)
unfolding deser_items deser_value
items_step n zero r h g = omega arith
items_step n (suc c) r h g = elim (Bool-cases (ltb (length r) 4)) [
  | inl short ↦ rw (short, deser_items) tt
  | inr long ↦
      rw (long, deser_items)
        (Leaves-bind (length r) (length r - 4) (deser_value n (word_at 4 r) (drop 4 r)) _
          (h (ground (arith, long)))
          λ v rest m.
            Leaves-bind (length r) (length r) (deser_items n c rest) _
              (g c rest (ground (arith, long)) (ground (arith, long, m))) λ vs left m'. m')
]

Leaves-mono {ℓ} : {A : Type ℓ} (j k : ℕ) (m : Parsed (A × List ℕ)) → Leaves j m → j ≤ k → Leaves k m
Leaves-mono j k (ok (a, rest)) h l = omega arith
Leaves-mono j k malformed h l = tt
Leaves-mono j k starved h l = absurd h

mutual
  value_leaves : (n dt : ℕ) (r : List ℕ) → length r < n → Leaves (length r) (deser_value n dt r)
  value_leaves zero dt r h = absurd (omega arith)
  value_leaves (suc n) dt r h =
      value_step n dt r (length r) (deser_head-HeadLeaves dt r) (λ c rest l.
        Leaves-mono (length rest) (length r) (deser_items n c rest)
          (items_leaves n c rest (omega arith)) (omega arith))

  items_leaves : (n c : ℕ) (r : List ℕ) → length r < n → Leaves (length r) (deser_items n c r)
  items_leaves zero c r h = absurd (omega arith)
  items_leaves (suc n) c r h =
      items_step n c r
        (λ l.
          Leaves-mono (length (drop 4 r)) (length r - 4) (deser_value n (word_at 4 r) (drop 4 r))
            (value_leaves n (word_at 4 r) (drop 4 r) (omega (arith, length-drop 4 r)))
            (omega (arith, length-drop 4 r)))
        (λ c' rest l m.
          Leaves-mono (length rest) (length r) (deser_items n c' rest)
            (items_leaves n c' rest (omega arith)) (omega arith))

-- A read of a value with more fuel than there are bytes ends, and leaves no more bytes than before.
pub deser_value-Leaves :
    (n dt : ℕ) (r : List ℕ) → length r < n → Leaves (length r) (deser_value n dt r)
deser_value-Leaves n dt r h = value_leaves n dt r h

pub deser_entry-Leaves : (r : List ℕ) → Leaves (length r) (deser_entry r)
unfolding deser_entry
deser_entry-Leaves r = elim (Bool-cases (ltb (length r) 264)) [
  | inl short ↦ rw (short, deser_entry) tt
  | inr long ↦
      rw (long, deser_entry)
        (Leaves-bind (length r) (length (drop 264 r)) (deser_value (length r + 1) dt (drop 264 r)) _
          (deser_value-Leaves (length r + 1) dt (drop 264 r) (omega (arith, length-drop 264 r)))
          λ v rest m.
            Leaves-bind (length r) (length rest) (deser_value (length r + 1) dt rest) _
              (deser_value-Leaves (length r + 1) dt rest (omega (arith, m, length-drop 264 r)))
              λ iv left m'. omega (arith, m, m', length-drop 264 r))
]
  where
    dt : ℕ
    dt = word_at 4 (drop 256 r)
