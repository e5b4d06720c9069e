-- ===== src/Prst/Graph/Readers.antt =====
-- What `prst_graph_invalidate` and `prst_graph_record` do to the dependencies.
use fluxa_lang.Base.{
  ℕ, zero, suc, ◌+◌, ◌≤◌, ◌<◌, ◌≡◌, refl, sym, ap, ◌∙◌, List, [], ◌∷◌, some, Bool, false, ◌&&◌, not,
  if◌then◌else◌, length, get_elem?, arith, inl, inr, str_eq, ltb, str_eq_refl, eq_of_str_eq,
  c_string, swap_remove, dec_lt, Option-cases, Bool-cases,
}
use mathlib.Core.Option.{some-injective}
use fluxa_lang.Prst.Graph.{
  PrstDep, PrstGraph, count, any_reader, has_readers, invalidate, invalidate_from,
}
use fluxa_lang.Prst.Graph.Tally.{
  tally, swap_remove-Takes, get_elem?-swap_remove, get_elem?-lt, le-of_get_elem?-none,
}

abbrev ltb_zero : ℕ → Bool
ltb_zero n = ltb 0 n

-- Whether a dependency is on the variable.
abbrev pub reads : List ℕ → PrstDep → Bool
reads name d = str_eq (c_string d.prst_name) name

-- No entry before the index is on the variable.
abbrev Clean : List ℕ → List PrstDep → ℕ → Type 0
Clean name ds i = (j : ℕ) (d : PrstDep) → j < i → get_elem? ds j ≡ some d → reads name d ≡ false

Clean-suc :
    (name : List ℕ) (ds : List PrstDep) (i : ℕ) (d : PrstDep)
    → get_elem? ds i ≡ some d
    → reads name d ≡ false
    → Clean name ds i
    → Clean name ds (i + 1)
Clean-suc name ds i d g r c j e h k = elim (dec_lt j i) [
  | yes l ↦ c j e l k
  | no l ↦ same (omega arith)
]
  where
    same : j ≡ i → reads name e ≡ false
    same q = ap (reads name) (some-injective e d (sym k ∙ ap (get_elem? ds) q ∙ g)) ∙ r

Clean-swap_remove :
    (name : List ℕ) (ds : List PrstDep) (i : ℕ)
    → i < length ds
    → Clean name ds i
    → Clean name (swap_remove ds i) i
Clean-swap_remove name ds i l c j e h k = c j e h (sym (get_elem?-swap_remove ds i j h l) ∙ k)

-- The dependencies that satisfy a test and are on another variable.
abbrev pub kept : List ℕ → (PrstDep → Bool) → PrstDep → Bool
kept name p d = p d && not (reads name d)

tally-Clean :
    (name : List ℕ) (p : PrstDep → Bool) (ds : List PrstDep)
    → Clean name ds (length ds)
    → tally p ds ≡ tally (kept name p) ds
tally-Clean name p [] c = refl
tally-Clean name p (d ∷ ds) c = ground (
  arith,
  c 0 d (omega arith) refl,
  tally-Clean name p ds (λ j e h k. c (suc j) e (omega arith) k),
)

tally-invalidate_from :
    (n : ℕ) (name : List ℕ) (p : PrstDep → Bool) (ds : List PrstDep) (i : ℕ)
    → length ds ≤ n + i
    → Clean name ds i
    → tally p (invalidate_from n name ds i) ≡ tally (kept name p) ds
unfolding invalidate_from
tally-invalidate_from zero name p ds i h c =
    tally-Clean name p ds (λ j e l k. c j e (omega arith) k)
tally-invalidate_from (suc n) name p ds i h c = elim (Option-cases (get_elem? ds i)) [
  | inl e ↦
      rw (e, invalidate_from)
        (tally-Clean name p ds (λ j e' l k. c j e' (omega (arith, le-of_get_elem?-none ds i e)) k))
  | inr (d, g) ↦ elim (Bool-cases (reads name d)) [
    | inl r ↦
        rw (g, invalidate_from)
          (rw (r, invalidate_from)
            (tally-invalidate_from n name p (swap_remove ds i) i
                (omega (arith, (swap_remove-Takes p ds i d g).1))
                (Clean-swap_remove name ds i (get_elem?-lt ds i d g) c)
              ∙ ground (arith, r, (swap_remove-Takes (kept name p) ds i d g).0)))
    | inr r ↦
        rw (g, invalidate_from)
          (rw (r, invalidate_from)
            (tally-invalidate_from n name p ds (i + 1) (omega arith) (Clean-suc name ds i d g r c)))
  ]
]

-- `prst_graph_invalidate` takes out every dependency on the variable and nothing else: of each kind
-- of dependency, described by any test, there are as many as there were of that kind on other
-- variables, although the last entry moves into each gap.
pub tally-invalidate :
    (g : PrstGraph) (name : List ℕ) (p : PrstDep → Bool)
    → tally p (invalidate g name).deps
      ≡ tally (λ d. p d && not (str_eq (c_string d.prst_name) name)) g.deps
unfolding invalidate
tally-invalidate g name p =
    tally-invalidate_from (count g) name p g.deps 0 (omega arith) (λ j e l k. absurd (omega arith))

any_reader-tally :
    (name : List ℕ) (ds : List PrstDep) → any_reader name ds ≡ ltb_zero (tally (reads name) ds)
unfolding any_reader
any_reader-tally name [] = refl
any_reader-tally name (d ∷ ds) = ground (arith, any_reader-tally name ds)

-- The readers of a variable among those on another one.
tally-kept :
    (name other : List ℕ) (ds : List PrstDep)
    → tally (kept name (reads other)) ds ≡ (if str_eq name other then 0 else tally (reads other) ds)
tally-kept name other [] = ground arith
tally-kept name other (d ∷ ds) = ground (
  arith,
  tally-kept name other ds,
  eq_of_str_eq name other,
  eq_of_str_eq (c_string d.prst_name) name,
  eq_of_str_eq (c_string d.prst_name) other,
  str_eq_refl name,
)

-- After `prst_graph_invalidate` no reader of the variable is found, and the readers of every other
-- variable are found as before.
pub has_readers-invalidate :
    (g : PrstGraph) (name other : List ℕ)
    → has_readers (invalidate g name) other
      ≡ (if str_eq name other then false else has_readers g other)
unfolding has_readers
has_readers-invalidate g name other =
    any_reader-tally other (invalidate g name).deps
    ∙ ap ltb_zero (tally-invalidate g name (reads other) ∙ tally-kept name other g.deps)
    ∙ ground (arith, any_reader-tally other g.deps)
