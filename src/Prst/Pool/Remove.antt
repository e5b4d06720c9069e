-- ===== src/Prst/Pool/Remove.antt =====
-- `prst_pool_invalidate`: the variable is gone and no other is touched, although the last entry
-- moves into its place.
use fluxa_lang.Base.{
  ℕ, zero, suc, ◌-◌, ◌≤◌, ◌<◌, ◌≡◌, refl, sym, List, [], ◌∷◌, ◌++◌, none, some, true, false,
  if◌then◌else◌, length, get_elem?, set, arith, Bool-cases, inl, inr, ◌⊎◌, Option-cases, str_eq,
  str_eq_refl, eq_of_str_eq, All, All-set, All-take, All-get_elem?, length-set, length-take,
  swap_remove, split_last, swap_remove-front, swap_remove-last,
}
use mathlib.Core.Path.{subst}
use fluxa_lang.Prst.Pool.{PrstEntry, PrstPool, find, find_index, invalidate, pool_get}
use fluxa_lang.Prst.Pool.Lookup.{lookup, Distinct, find_index-Finds, find_index_suc, map-suc_inv}
use fluxa_lang.Prst.Pool.Invariant.{IsValid, IsEntry}
use fluxa_lang.Prst.Pool.Update.{pool_get_lem}
use fluxa_lang.Prst.Pool.Replace.{lookup-front, lookup-replace}

-- Where an index of the whole list falls.
find_index-front :
    (name : List ℕ) (front : List PrstEntry) (last : PrstEntry) (i : ℕ)
    → find_index name (front ++ last ∷ []) ≡ some i
    → ((i < length front) × (find_index name front ≡ some i))
      ⊎ ((i ≡ length front) × (last.name ≡ name))
unfolding find_index
find_index-front name [] last zero f = inr (refl, named (Bool-cases (str_eq last.name name)))
  where
    named : (str_eq last.name name ≡ true) ⊎ (str_eq last.name name ≡ false) → last.name ≡ name
    named (inl hit) = eq_of_str_eq last.name name hit
    named (inr miss) = absurd (cc (rw miss at f))
find_index-front name [] last (suc i) f = absurd (nowhere (Bool-cases (str_eq last.name name)))
  where
    nowhere : (str_eq last.name name ≡ true) ⊎ (str_eq last.name name ≡ false) → ⊥
    nowhere (inl hit) = cc (rw hit at f)
    nowhere (inr miss) = cc (rw miss at f)
find_index-front name (x ∷ front) last zero f = elim (Bool-cases (str_eq x.name name)) [
  | inl hit ↦ inl (omega arith, rw hit)
  | inr miss ↦ absurd (find_index_suc _ (rw miss at f))
]
find_index-front name (x ∷ front) last (suc i) f = elim (Bool-cases (str_eq x.name name)) [
  | inl hit ↦ absurd (cc (rw hit at f))
  | inr miss ↦ elim (find_index-front name front last i (map-suc_inv _ i (rw miss at f))) [
    | inl (h, g) ↦ inl (omega arith, rw (miss, g))
    | inr (h, n) ↦ inr (omega arith, n)
  ]
]

-- Taking an entry out of a list of distinct names.
abbrev Removes : List ℕ → List PrstEntry → List PrstEntry → Type 0
Removes name es rest =
    ((j : List ℕ) → lookup j rest ≡ (if str_eq name j then none else lookup j es)) × Distinct rest

swap_remove-Removes_front :
    (name : List ℕ) (front : List PrstEntry) (last : PrstEntry) (i : ℕ)
    → find_index name (front ++ last ∷ []) ≡ some i
    → Distinct (front ++ last ∷ [])
    → Removes name (front ++ last ∷ []) (swap_remove (front ++ last ∷ []) i)
swap_remove-Removes_front name front last i f d = elim (find_index-front name front last i f) [
  | inl (h, g) ↦ rw (swap_remove-front front last i h) (
    λ j. ground (
      arith,
      (lookup-replace name j front i last g new rest).0,
      (lookup-front j front last d).1,
      apart g,
      eq_of_str_eq last.name j,
      eq_of_str_eq name j,
      str_eq_refl j,
    ),
    (lookup-replace name name front i last g new rest).1,
  )
  | inr (h, n) ↦
      rw (h, swap_remove-last front last)
        (
          λ j.
              ground (
                arith,
                (lookup-front j front last d).1,
                new,
                n,
                eq_of_str_eq name j,
                str_eq_refl j,
              ),
          rest,
        )
]
  where
    new : lookup last.name front ≡ none
    new = (lookup-front name front last d).0

    rest : Distinct front
    rest = (lookup-front name front last d).2

    apart : find_index name front ≡ some i → str_eq last.name name ≡ false
    apart g = elim (find_index-Finds name front) [
      | inl (none', _) ↦ absurd (cc)
      | inr (_, e, _, l, _, _) ↦ ground (arith, new, l, eq_of_str_eq last.name name)
    ]

swap_remove-Removes :
    (name : List ℕ) (es : List PrstEntry) (i : ℕ)
    → find_index name es ≡ some i
    → Distinct es
    → Removes name es (swap_remove es i)
unfolding find_index
swap_remove-Removes name [] i f d = absurd (cc)
swap_remove-Removes name (x ∷ es) i f d =
    let (front, last, e) = split_last x es in
    subst (λ l. find_index name l ≡ some i → Distinct l → Removes name l (swap_remove l i)) (sym e)
      (swap_remove-Removes_front name front last i) f d

-- `prst_pool_invalidate` removes exactly the variable of the name: the
-- others have their values, though the last entry moves. The pool must be valid.
pub get-invalidate :
    (p : PrstPool) (name j : List ℕ)
    → IsValid p
    → (pool_get (invalidate p name) j ≡ (if str_eq name j then none else pool_get p j))
unfolding invalidate find
get-invalidate p name j w = elim (find_index-Finds name p.entries) [
  | inl (f, l) ↦ rw (f, invalidate) (rw (pool_get_lem p j) (ground (arith, l, eq_of_str_eq name j)))
  | inr (i, e, f, _, _, _) ↦
      rw (f, invalidate)
        (rw
          (
            pool_get_lem p j,
            pool_get_lem (record p { entries = swap_remove p.entries i }) j,
            (swap_remove-Removes name p.entries i f w.distinct).0 j,
          )
          (ground arith))
]

-- The entries that are left were entries, and no more of them than before.
swap_remove-All :
    (es : List PrstEntry) (i : ℕ)
    → All IsEntry es
    → All IsEntry (swap_remove es i) × (length (swap_remove es i) ≤ length es)
unfolding swap_remove
swap_remove-All es i a = elim (Option-cases (get_elem? es (length es - 1))) [
  | inl e ↦ rw (e, swap_remove) (a, omega arith)
  | inr (last, e) ↦
      rw (e, swap_remove)
        (
          All-take IsEntry (length es - 1) _
              (All-set IsEntry es i last a (All-get_elem? IsEntry es (length es - 1) last a e)),
          omega (arith, length-take (length es - 1) (set es i last), length-set es i last),
        )
]

-- `prst_pool_invalidate` keeps the invariant.
pub invalidate-IsValid : (p : PrstPool) (name : List ℕ) → IsValid p → IsValid (invalidate p name)
unfolding invalidate find
invalidate-IsValid p name w = elim (find_index-Finds name p.entries) [
  | inl (f, l) ↦ rw (f, invalidate) w
  | inr (i, e, f, _, _, _) ↦
      rw (f, invalidate)
        (record {
          room = omega (arith, (swap_remove-All p.entries i w.all_entries).1, w.room);
          distinct = (swap_remove-Removes name p.entries i f w.distinct).1;
          all_entries = (swap_remove-All p.entries i w.all_entries).0;
        })
]
