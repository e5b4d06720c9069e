-- ===== src/Prst/Pool/Replace.antt =====
-- The last entry of a list in the place of another.
use fluxa_lang.Base.{
  ℕ, zero, suc, ◌≡◌, refl, List, [], ◌∷◌, ◌++◌, none, some, false, if◌then◌else◌, set, arith,
  Bool-cases, inl, inr, str_eq, str_eq_refl, eq_of_str_eq,
}
use fluxa_lang.Prst.Pool.{PrstEntry, find_index}
use fluxa_lang.Prst.Pool.Lookup.{lookup, Distinct, find_index_suc, map-suc_inv}

-- The last name stands nowhere before, and no other name changes.
pub lookup-front :
    (j : List ℕ) (front : List PrstEntry) (last : PrstEntry)
    → Distinct (front ++ last ∷ [])
    → (lookup last.name front ≡ none)
      × (lookup j (front ++ last ∷ []) ≡ (if str_eq last.name j then some last else lookup j front))
      × Distinct front
unfolding lookup
lookup-front j [] last d = (refl, refl, tt)
lookup-front j (x ∷ front) last d =
    let (new, at, rest) = lookup-front j front last d.1 in
    let (_, here, _) = lookup-front x.name front last d.1 in
    (
      ground (arith, new, here, d.0, eq_of_str_eq x.name last.name, str_eq_refl last.name),
      ground (arith, at, here, d.0, eq_of_str_eq x.name j, eq_of_str_eq last.name j, str_eq_refl j),
      (ground (arith, here, d.0), rest),
    )

-- Putting an entry of a new name in the place of another.
pub lookup-replace :
    (name j : List ℕ) (es : List PrstEntry) (i : ℕ) (e' : PrstEntry)
    → find_index name es ≡ some i
    → lookup e'.name es ≡ none
    → Distinct es
    → (lookup j (set es i e')
        ≡ (if str_eq e'.name j then some e' else if str_eq name j then none else lookup j es))
      × Distinct (set es i e')
unfolding lookup find_index
lookup-replace name j [] i e' f l d = absurd (cc)
lookup-replace name j (x ∷ es) zero e' f l d = elim (Bool-cases (str_eq x.name name)) [
  | inl hit ↦ (
    ground (arith, eq_of_str_eq x.name name hit, eq_of_str_eq name j, l, d.0),
    (ground (arith, l), d.1),
  )
  | inr miss ↦ absurd (find_index_suc (find_index name es) (rw miss at f))
]
lookup-replace name j (x ∷ es) (suc i) e' f l d = elim (Bool-cases (str_eq x.name name)) [
  | inl hit ↦ absurd (cc (rw hit at f))
  | inr miss ↦
      later miss (ground (arith, l))
        (lookup-replace name j es i e' (map-suc_inv (find_index name es) i (rw miss at f))
          (ground (arith, l)) d.1)
        (lookup-replace name x.name es i e' (map-suc_inv (find_index name es) i (rw miss at f))
          (ground (arith, l)) d.1).0
]
  where
    later :
        str_eq x.name name ≡ false
        → str_eq x.name e'.name ≡ false
        → (lookup j (set es i e')
            ≡ (if str_eq e'.name j then some e' else if str_eq name j then none else lookup j es))
          × Distinct (set es i e')
        → lookup x.name (set es i e') ≡ (
            if str_eq e'.name x.name
            then some e'
            else if str_eq name x.name
            then none
            else lookup x.name es)
        → (lookup j (x ∷ set es i e') ≡ (
            if str_eq e'.name j
            then some e'
            else if str_eq name j
            then none
            else lookup j (x ∷ es)))
          × Distinct (x ∷ set es i e')
    later miss apart (at, d') here = (
      ground (
        arith,
        at,
        miss,
        apart,
        eq_of_str_eq x.name j,
        eq_of_str_eq e'.name j,
        eq_of_str_eq name j,
        str_eq_refl j,
      ),
      (
        ground (
          arith,
          here,
          miss,
          apart,
          d.0,
          eq_of_str_eq e'.name x.name,
          eq_of_str_eq name x.name,
          str_eq_refl x.name,
        ),
        d',
      ),
    )
