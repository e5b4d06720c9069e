-- ===== src/Prst/Wire/Safety.antt =====
-- `prst_pool_deserialize` on bytes that nobody vouches for.
use fluxa_lang.Base.{
  ℕ, zero, suc, ◌^◌, ◌≡◌, ◌≢◌, refl, List, Option, none, some, ◌||◌, ltb, leb, length, drop, arith,
  Bool-cases, inl, inr, word_at,
}
use fluxa_lang.Prst.Value.{Value, Items, end, item}
use fluxa_lang.Prst.Pool.{PrstPool}
use fluxa_lang.Prst.Pool.Invariant.{IsName, HasType, IsValid}
use fluxa_lang.Prst.Wire.{
  base_value, deser_count, deser_head, with_items, deser_value, deser_items, Outcome, out_of_fuel,
  WireEntry, arr_limit,
}
use fluxa_lang.Prst.Wire.Reading.{Parsed, ok, malformed, starved, ◌>>=◌}

base_value-HasType : (dt a b c : ℕ) (s : List ℕ) → HasType dt (base_value dt a b c s)
unfolding base_value
base_value-HasType dt a b c s = ground arith

with_items-HasType :
    (dt : ℕ) (v : Value) (vs : Items) → HasType dt v → HasType dt (with_items dt v vs)
unfolding with_items
with_items-HasType dt v end h = h
with_items-HasType dt v (item x xs) h = ground arith

-- What a read gave, if it gave anything.
abbrev Gives {ℓ κ} : {A : Type ℓ} → (A → Type κ) → Parsed A → Type κ
Gives P (ok a) = P a
Gives P malformed = Unit
Gives P starved = Unit

Gives-bind {ℓ κ μ ν} :
    {A : Type ℓ} {B : Type κ} (P : A → Type μ) (Q : B → Type ν) (m : Parsed A) (f : A → Parsed B)
    → Gives P m
    → ((a : A) → P a → Gives Q (f a))
    → Gives Q (m >>= f)
Gives-bind P Q (ok a) f h g = g a h
Gives-bind P Q malformed f h g = tt
Gives-bind P Q starved f h g = tt

deser_head-HasType :
    (dt : ℕ) (r : List ℕ)
    → Gives (λ (x : Value × Option ℕ × List ℕ). HasType dt x.0) (deser_head dt r)
unfolding deser_head deser_count
deser_head-HasType dt r = elim (Bool-cases (ltb (length r) 24)) [
  | inl short ↦ rw short tt
  | inr long ↦ elim (Bool-cases (leb (2 ^ 31) sl || ltb (length (drop 24 r)) sl)) [
    | inl over ↦ rw (long, over) tt
    | inr fits ↦ rw (long, fits) (counted (base_value-HasType dt _ _ _ _))
  ]
]
  where
    sl : ℕ
    sl = word_at 4 (drop 20 r)

    counted :
        {v : Value}
        → HasType dt v
        → Gives
            (λ (x : Value × Option ℕ × List ℕ). HasType dt x.0)
            (deser_count v (drop sl (drop 24 r)))
    counted {v} h = elim (Bool-cases (ltb (length (drop sl (drop 24 r))) 4)) [
      | inl short ↦ rw short h
      | inr long ↦ elim (Bool-cases (ltb arr_limit (word_at 4 (drop sl (drop 24 r))))) [
        | inl over ↦ rw (long, over) tt
        | inr fits ↦ rw (long, fits) h
      ]
    ]

-- Whatever the bytes are, a value that is read has the type that was asked for.
pub deser_value-HasType :
    (n dt : ℕ) (r : List ℕ) → Gives (λ (x : Value × List ℕ). HasType dt x.0) (deser_value n dt r)
unfolding deser_value
deser_value-HasType zero dt r = tt
deser_value-HasType (suc n) dt r = go (deser_head dt r) refl (deser_head-HasType dt r)
  where
    anything : (m : Parsed (Items × List ℕ)) → Gives (λ _. Unit {0}) m
    anything (ok x) = tt
    anything malformed = tt
    anything starved = tt

    go :
        (m : Parsed (Value × Option ℕ × List ℕ))
        → deser_head dt r ≡ m
        → Gives (λ (x : Value × Option ℕ × List ℕ). HasType dt x.0) m
        → Gives (λ (x : Value × List ℕ). HasType dt x.0) (deser_value (suc n) dt r)
    go (ok (v, none, rest)) e h = rw (e, deser_value) h
    go (ok (v, some c, rest)) e h =
        rw (e, deser_value)
          (Gives-bind (λ _. Unit {0}) (λ (x : Value × List ℕ). HasType dt x.0)
            (deser_items n c rest) _ (anything (deser_items n c rest))
            λ x _. with_items-HasType dt v x.0 h)
    go malformed e h = rw (e, deser_value) tt
    go starved e h = rw (e, deser_value) tt

-- What is known of an entry that was read.
record IsWireEntry (w : WireEntry) : Type 0 where
  name_ok : IsName w.name
  typed : HasType w.declared_type w.value
  init_typed : HasType w.declared_type w.init_value

-- The state of a read that nothing can spoil.
record IsSound (s : PrstPool × Outcome) : Type 0 where
  valid : IsValid s.0
  ends : s.1 ≢ out_of_fuel
