-- ===== src/Gc/Pins.antt =====
-- Pins are counted for the object that they are for.
use fluxa_lang.Base.{
  ℕ, zero, suc, ◌+◌, ◌-◌, ◌≡◌, refl, sym, ap, subst, ◌∙◌, List, [], ◌∷◌, Option, none, some, true,
  ◌&&◌, ◌==◌, arith, Bool-cases, inl, inr, get_elem?, set, length-set, get_elem?-set-some,
  get_elem?-set_ne, ℕ_discrete,
}
use mathlib.Core.Option.{some-injective}
use fluxa_lang.Gc.{
  GcEntry, GcTable, is_used, is_empty, hash, probe, visit, cap, find_from, find_slot, pin, unpin,
  modify,
}

-- What the search reads of an entry.
abbrev SameKey : GcEntry → GcEntry → Type 0
SameKey e e' = (e'.ptr ≡ e.ptr) × (e'.state ≡ e.state)

visit-SameKey :
    (e e' : GcEntry) (ptr j : ℕ) (later : Option ℕ)
    → SameKey e e'
    → visit (some e') ptr j later ≡ visit (some e) ptr j later
visit-SameKey e e' ptr j later s = rw (s.0, s.1) refl

-- A write that keeps pointer and state is not seen by a visit.
visit-set :
    (slots : List GcEntry) (ptr i j : ℕ) (later : Option ℕ) (e e' : GcEntry)
    → get_elem? slots i ≡ some e
    → SameKey e e'
    → visit (get_elem? (set slots i e') j) ptr j later ≡ visit (get_elem? slots j) ptr j later
visit-set slots ptr i j later e e' g s = elim (ℕ_discrete i j) [
  | yes q ↦
      subst
        (λ x.
          visit (get_elem? (set slots i e') x) ptr x later ≡ visit (get_elem? slots x) ptr x later)
        q
        (ap (λ o. visit o ptr i later) (get_elem?-set-some slots i e e' g)
          ∙ visit-SameKey e e' ptr i later s
          ∙ ap (λ o. visit o ptr i later) (sym g))
  | no q ↦ ap (λ o. visit o ptr j later) (get_elem?-set_ne slots i j e' q)
]

find_from-set :
    (slots : List GcEntry) (ptr h n k i : ℕ) (e e' : GcEntry)
    → get_elem? slots i ≡ some e
    → SameKey e e'
    → find_from (set slots i e') ptr h n k ≡ find_from slots ptr h n k
unfolding find_from
find_from-set slots ptr h zero k i e e' g s = refl
find_from-set slots ptr h (suc n) k i e e' g s = rw (length-set slots i e') (
    visit-set slots ptr i (probe slots h k) (find_from (set slots i e') ptr h n (k + 1)) e e' g s
    ∙ ap (visit (get_elem? slots (probe slots h k)) ptr (probe slots h k))
        (find_from-set slots ptr h n (k + 1) i e e' g s))

-- What the search found is there.
abbrev Holds : List GcEntry → ℕ → ℕ → Type 0
Holds slots ptr i =
    (e : GcEntry) × (get_elem? slots i ≡ some e) × (e.ptr ≡ ptr) × (is_used e.state ≡ true)

visit-Holds :
    (slots : List GcEntry) (ptr j i : ℕ) (o : Option GcEntry) (later : Option ℕ)
    → get_elem? slots j ≡ o
    → visit o ptr j later ≡ some i
    → (later ≡ some i → Holds slots ptr i)
    → Holds slots ptr i
visit-Holds slots ptr j i none later g v k = absurd (cc)
visit-Holds slots ptr j i (some e) later g v k = elim (Bool-cases (is_empty e.state)) [
  | inl gap ↦ absurd (cc (rw gap at v))
  | inr full ↦ elim (Bool-cases (is_used e.state && (e.ptr == ptr))) [
    | inl hit ↦
        let same : j ≡ i = some-injective j i (rw (full, hit) at v) in
        (e, sym (ap (get_elem? slots) same) ∙ g, ground (arith, hit), ground (arith, hit))
    | inr miss ↦ k (rw (full, miss) at v)
  ]
]

find_from-Holds :
    (slots : List GcEntry) (ptr h n k i : ℕ)
    → find_from slots ptr h n k ≡ some i
    → Holds slots ptr i
unfolding find_from
find_from-Holds slots ptr h zero k i f = absurd (cc)
find_from-Holds slots ptr h (suc n) k i f =
    visit-Holds slots ptr (probe slots h k) i (get_elem? slots (probe slots h k))
      (find_from slots ptr h n (k + 1)) refl f (find_from-Holds slots ptr h n (k + 1) i)

set-set : (xs : List GcEntry) (i : ℕ) (u v : GcEntry) → set (set xs i u) i v ≡ set xs i v
set-set [] i u v = refl
set-set (x ∷ xs) zero u v = refl
set-set (x ∷ xs) (suc i) u v = ap (◌∷◌ x) (set-set xs i u v)

set_same : (xs : List GcEntry) (i : ℕ) (v : GcEntry) → get_elem? xs i ≡ some v → set xs i v ≡ xs
set_same [] i v g = refl
set_same (x ∷ xs) zero v g = ap (λ y. y ∷ xs) (sym (some-injective x v g))
set_same (x ∷ xs) (suc i) v g = ap (◌∷◌ x) (set_same xs i v g)

pin_at :
    (g : GcTable) (ptr i : ℕ) (e : GcEntry)
    → find_slot g ptr ≡ some i
    → get_elem? g.slots i ≡ some e
    → pin g ptr ≡ record g { slots = set g.slots i (record e { pin_count = e.pin_count + 1 }) }
unfolding pin
pin_at g ptr i e f k = rw (f, pin) (rw (k, modify) refl)

unpin_at :
    (g : GcTable) (ptr i : ℕ) (e : GcEntry)
    → find_slot g ptr ≡ some i
    → get_elem? g.slots i ≡ some e
    → unpin g ptr ≡ (
      record g { slots = set g.slots i (record e { pin_count = e.pin_count - 1 }) },
      e.pin_count - 1 == 0,
    )
unfolding unpin
unpin_at g ptr i e f k = rw (f, unpin) (rw (k, unpin) refl)

-- A pin and an unpin of a tracked object leave the table as it was, and the unpin says whether the
-- object had no pin before; what is found for a pointer is an entry in use with that pointer.
pub unpin-pin :
    (g : GcTable) (ptr i : ℕ)
    → find_slot g ptr ≡ some i
    → (e : GcEntry) × (get_elem? g.slots i ≡ some e)
      × (e.ptr ≡ ptr)
      × (is_used e.state ≡ true)
      × (unpin (pin g ptr) ptr ≡ (g, e.pin_count == 0))
unpin-pin g ptr i f =
    let (e, k, p, u) = entry in
    (
      e,
      k,
      p,
      u,
      ap (λ x. unpin x ptr) (pin_at g ptr i e f k)
          ∙ unpin_at (pinned e) ptr i (more e) (found e k)
              (get_elem?-set-some g.slots i e (more e) k)
          ∙ ap
              (λ n.
                (record g { slots = set (pinned e).slots i (record e { pin_count = n }) }, n == 0))
              (back e)
          ∙ ap (λ xs. (record g { slots = xs }, e.pin_count == 0))
              (set-set g.slots i (more e) e ∙ set_same g.slots i e k),
    )
  where
    entry : Holds g.slots ptr i
    entry = unfold find_slot in find_from-Holds g.slots ptr (hash ptr (cap g)) (cap g) 0 i f

    more : GcEntry → GcEntry
    more e = record e { pin_count = e.pin_count + 1 }

    pinned : GcEntry → GcTable
    pinned e = record g { slots = set g.slots i (more e) }

    back : (e : GcEntry) → e.pin_count + 1 - 1 ≡ e.pin_count
    back e = omega arith

    found : (e : GcEntry) → get_elem? g.slots i ≡ some e → find_slot (pinned e) ptr ≡ some i
    found e k =
        unfold find_slot in
        rw (length-set g.slots i (more e))
          (find_from-set g.slots ptr (hash ptr (cap g)) (cap g) 0 i e (more e) k (refl, refl) ∙ f)
