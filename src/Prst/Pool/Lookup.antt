-- ===== src/Prst/Pool/Lookup.antt =====
-- The pool as a finite map: what `prst_pool_find` finds, and how writes change it.
use fluxa_lang.Base.{
  ℕ, zero, suc, ◌≡◌, refl, sym, subst, ◌∙◌, ◌⊎◌, inl, inr, List, [], ◌∷◌, ◌++◌, Option, none, some,
  true, false, if◌then◌else◌, get_elem?, set, str_eq, str_eq_refl, eq_of_str_eq, arith, Bool-cases,
  All,
}
use mathlib.Core.Option
use mathlib.Core.Option.{some-injective}
use fluxa_lang.Prst.Pool.{PrstEntry, find_index}

-- The first entry of a name.
unfoldable pub lookup : List ℕ → List PrstEntry → Option PrstEntry
lookup name [] = none
lookup name (e ∷ es) = if str_eq e.name name then some e else lookup name es

-- No two entries have one name.
abbrev pub Distinct : List PrstEntry → Type 0
Distinct [] = Unit {0}
Distinct (e ∷ es) = (lookup e.name es ≡ none) × Distinct es

-- What the search says of a name: it is nowhere, or it stands at the index.
abbrev pub Finds : List ℕ → List PrstEntry → Type 0
Finds name es =
    ((find_index name es ≡ none) × (lookup name es ≡ none))
    ⊎ ((i : ℕ) × (e : PrstEntry) × (find_index name es ≡ some i)
        × (lookup name es ≡ some e)
        × (get_elem? es i ≡ some e)
        × (e.name ≡ name))

pub find_index-Finds : (name : List ℕ) (es : List PrstEntry) → Finds name es
unfolding find_index lookup
find_index-Finds name [] = inl (refl, refl)
find_index-Finds name (x ∷ es) = elim (Bool-cases (str_eq x.name name)) [
  | inl hit ↦ inr (0, x, rw hit, rw hit, refl, eq_of_str_eq x.name name hit)
  | inr miss ↦ elim (find_index-Finds name es) [
    | inl (f, l) ↦ inl (rw (miss, f), rw (miss, l))
    | inr (i, e, f, l, g, n) ↦ inr (suc i, e, rw (miss, f), rw (miss, l), g, n)
  ]
]

pub find_index_suc : (o : Option ℕ) → Option.map suc o ≡ some 0 → ⊥
find_index_suc none h = cc
find_index_suc (some i) h = ground arith

pub map-suc_inv : (o : Option ℕ) (i : ℕ) → Option.map suc o ≡ some (suc i) → o ≡ some i
map-suc_inv none i h = cc
map-suc_inv (some k) i h = ground arith

-- Equal names compare alike with any third.
str_eq-false : (a b j : List ℕ) → str_eq a b ≡ true → str_eq b j ≡ false → str_eq a j ≡ false
str_eq-false a b j h k = rw (eq_of_str_eq a b h) k

-- Two names that differ are not both `j`.
str_eq_apart : (a b j : List ℕ) → str_eq a b ≡ false → str_eq b j ≡ true → str_eq a j ≡ false
str_eq_apart a b j h k = rw (← eq_of_str_eq b j k) h

-- Writing back an entry of the same name.
pub lookup-set :
    (name j : List ℕ) (es : List PrstEntry) (i : ℕ) (e' : PrstEntry)
    → find_index name es ≡ some i
    → e'.name ≡ name
    → lookup j (set es i e') ≡ (if str_eq name j then some e' else lookup j es)
unfolding find_index lookup
lookup-set name j [] i e' f n = cc
lookup-set name j (x ∷ es) zero e' f n = elim (Bool-cases (str_eq x.name name)) [
  | inl hit ↦ ground (arith, eq_of_str_eq x.name name hit, n)
  | inr miss ↦ absurd (find_index_suc (find_index name es) (rw miss at f))
]
lookup-set name j (x ∷ es) (suc i) e' f n = elim (Bool-cases (str_eq x.name name)) [
  | inl hit ↦ cc (rw hit at f)
  | inr miss ↦ ground (
    arith,
    lookup-set name j es i e' (map-suc_inv (find_index name es) i (rw miss at f)) n,
    eq_of_str_eq name j,
    eq_of_str_eq x.name j,
    str_eq_refl j,
  )
]

-- A new entry behind the others.
pub lookup-append :
    (j : List ℕ) (es : List PrstEntry) (e : PrstEntry)
    → lookup e.name es ≡ none
    → lookup j (es ++ e ∷ []) ≡ (if str_eq e.name j then some e else lookup j es)
unfolding lookup
lookup-append j [] e h = refl
lookup-append j (x ∷ es) e h =
    ground
      (arith, eq_of_str_eq x.name j, eq_of_str_eq e.name j, str_eq_refl j, lookup-append j es e)

pub set-Distinct :
    (name : List ℕ) (es : List PrstEntry) (i : ℕ) (e' : PrstEntry)
    → find_index name es ≡ some i
    → e'.name ≡ name
    → Distinct es
    → Distinct (set es i e')
unfolding find_index
set-Distinct name [] i e' f n d = tt
set-Distinct name (x ∷ es) zero e' f n d = elim (Bool-cases (str_eq x.name name)) [
  | inl hit ↦ (rw (n, ← eq_of_str_eq x.name name hit) d.0, d.1)
  | inr miss ↦ absurd (find_index_suc (find_index name es) (rw miss at f))
]
set-Distinct name (x ∷ es) (suc i) e' f n d = elim (Bool-cases (str_eq x.name name)) [
  | inl hit ↦ cc (rw hit at f)
  | inr miss ↦
      let f' : find_index name es ≡ some i = map-suc_inv (find_index name es) i (rw miss at f) in
      (
        ground (
          arith,
          lookup-set name x.name es i e' f' n,
          eq_of_str_eq name x.name,
          str_eq_refl name,
          d.0,
        ),
        set-Distinct name es i e' f' n d.1,
      )
]

pub lookup-append_ne :
    (j : List ℕ) (es : List PrstEntry) (e : PrstEntry)
    → lookup j es ≡ none
    → str_eq e.name j ≡ false
    → lookup j (es ++ e ∷ []) ≡ none
unfolding lookup
lookup-append_ne j [] e h k = rw k
lookup-append_ne j (x ∷ es) e h k = ground (arith, lookup-append_ne j es e)

pub append-Distinct :
    (es : List PrstEntry) (e : PrstEntry)
    → lookup e.name es ≡ none
    → Distinct es
    → Distinct (es ++ e ∷ [])
unfolding lookup
append-Distinct [] e h d = (refl, tt)
append-Distinct (x ∷ es) e h d = (
  ground (arith, lookup-append_ne x.name es e, eq_of_str_eq e.name x.name, str_eq_refl x.name, d.0),
  append-Distinct es e (ground arith) d.1,
)

pub find_index_of_lookup :
    (name : List ℕ) (es : List PrstEntry) (e : PrstEntry)
    → lookup name es ≡ some e
    → (i : ℕ) × (find_index name es ≡ some i) × (get_elem? es i ≡ some e)
find_index_of_lookup name es e h = elim (find_index-Finds name es) [
  | inl (f, l) ↦ absurd (cc)
  | inr (i, e', f, l, g, n) ↦ (i, f, g ∙ sym l ∙ h)
]

pub find_index_of_none :
    (name : List ℕ) (es : List PrstEntry) → lookup name es ≡ none → find_index name es ≡ none
find_index_of_none name es h = elim (find_index-Finds name es) [
  | inl (f, l) ↦ f
  | inr (i, e, f, l, g, n) ↦ absurd (cc)
]

-- Writing back an entry with the name that stands at the index leaves the names as they were.
set-lookup-none :
    (j : List ℕ) (es : List PrstEntry) (i : ℕ) (e e' : PrstEntry)
    → get_elem? es i ≡ some e
    → e'.name ≡ e.name
    → lookup j es ≡ none
    → lookup j (set es i e') ≡ none
unfolding lookup
set-lookup-none j [] i e e' g n l = absurd (cc)
set-lookup-none j (x ∷ es) zero e e' g n l = ground (arith, g, n)
set-lookup-none j (x ∷ es) (suc i) e e' g n l = ground (arith, set-lookup-none j es i e e' g n)

pub set_same-Distinct :
    (es : List PrstEntry) (i : ℕ) (e e' : PrstEntry)
    → get_elem? es i ≡ some e
    → e'.name ≡ e.name
    → Distinct es
    → Distinct (set es i e')
set_same-Distinct [] i e e' g n d = tt
set_same-Distinct (x ∷ es) zero e e' g n d =
    (rw n (subst (λ y. lookup y.name es ≡ none) (some-injective x e g) d.0), d.1)
set_same-Distinct (x ∷ es) (suc i) e e' g n d =
    (set-lookup-none x.name es i e e' g n d.0, set_same-Distinct es i e e' g n d.1)

-- Names that are apart from each other and from a list stay so when one of them is appended.
pub lookup-append-All :
    (es front : List PrstEntry) (x : PrstEntry)
    → lookup x.name es ≡ none
    → All (λ (e : PrstEntry). lookup e.name front ≡ none) es
    → All (λ (e : PrstEntry). lookup e.name (front ++ x ∷ []) ≡ none) es
unfolding lookup
lookup-append-All [] front x l a = tt
lookup-append-All (e ∷ es) front x l a = (
  lookup-append_ne e.name front x a.0
      (ground (arith, l, eq_of_str_eq x.name e.name, str_eq_refl e.name)),
  lookup-append-All es front x (ground (arith, l)) a.1,
)
