-- ===== src/Warm/Searches.antt =====
-- How a search in the table of profiles ends.
use fluxa_lang.Base.{
  ℕ, zero, suc, ◌+◌, ◌≤◌, ◌<◌, ◌≡◌, ◌≢◌, refl, sym, ap, ◌∙◌, subst, List, some, Bool, true, false,
  ◌==◌, arith, length, get_elem?, get_elem?-some, ℕ_discrete, Bool-cases, inl, inr,
}
use mathlib.Core.Option.{some-injective}
use fluxa_lang.Warm.Table.{WarmEntry, slot_of, search_from}
use fluxa_lang.Warm.Slots.{slot_of-lt, Blocked, IsFree}

pub is_same : (a b : ℕ) → a ≡ b → (a == b) ≡ true
is_same a b h = ground (arith, h)

pub not_same : (a b : ℕ) → a ≢ b → (a == b) ≡ false
not_same a b h = elim (Bool-cases (a == b)) [ inl t ↦ absurd (h (ground (arith, t))) | inr f ↦ f ]

-- One more round that comes to another function's entry.
pub longer :
    (tbl : List WarmEntry) (id j : ℕ) (e : WarmEntry)
    → Blocked tbl id j
    → get_elem? tbl (slot_of (length tbl) id j) ≡ some e
    → e.fn_id ≢ 0
    → e.fn_id ≢ id
    → Blocked tbl id (j + 1)
unfolding Blocked
longer tbl id j e b g nz ne x l = elim (ℕ_discrete x j) [
  | yes q ↦ (e, ap (λ y. get_elem? tbl (slot_of (length tbl) id y)) q ∙ g, nz, ne)
  | no q ↦ b x (omega (arith, l, q))
]

-- One round of a search.
module _ (tbl : List WarmEntry) (id n j : ℕ) (e : WarmEntry)
    (g : get_elem? tbl (slot_of (length tbl) id j) ≡ some e) where
  search_same : e.fn_id ≡ id → search_from tbl id (suc n) j ≡ some (slot_of (length tbl) id j, true)
  unfolding search_from
  search_same h = rw (search_from, g, is_same e.fn_id id h) refl

  search_free :
      e.fn_id ≢ id
      → e.fn_id ≡ 0
      → search_from tbl id (suc n) j ≡ some (slot_of (length tbl) id j, false)
  unfolding search_from
  search_free ne h = rw (search_from, g, not_same e.fn_id id ne, is_same e.fn_id 0 h) refl

  search_next :
      e.fn_id ≢ id → e.fn_id ≢ 0 → search_from tbl id (suc n) j ≡ search_from tbl id n (j + 1)
  unfolding search_from
  search_next ne nz = rw (search_from, g, not_same e.fn_id id ne, not_same e.fn_id 0 nz) refl

-- A search that comes to the function.
pub search-hit :
    (tbl : List WarmEntry) (id i : ℕ) (e : WarmEntry) (n j : ℕ)
    → Blocked tbl id i
    → get_elem? tbl (slot_of (length tbl) id i) ≡ some e
    → e.fn_id ≡ id
    → j ≤ i
    → i < j + n
    → search_from tbl id n j ≡ some (slot_of (length tbl) id i, true)
unfolding search_from Blocked
search-hit tbl id i e zero j b g same l h = absurd (omega (arith, l, h))
search-hit tbl id i e (suc n) j b g same l h = elim (ℕ_discrete j i) [
  | yes q ↦
      subst (λ x. search_from tbl id (suc n) x ≡ some (slot_of (length tbl) id i, true)) (sym q)
        (search_same tbl id n i e g same)
  | no q ↦
      let (x, gx, nz, ne) = b j (omega (arith, l, q)) in
      search_next tbl id n j x gx ne nz
      ∙ search-hit tbl id i e n (j + 1) b g same (omega (arith, l, q)) (omega (arith, h))
]

-- What a search ends with.
abbrev pub Found : List WarmEntry → ℕ → ℕ → Bool → Type 0
Found tbl id k true = (e : WarmEntry) × (get_elem? tbl k ≡ some e) × (e.fn_id ≡ id)
Found tbl id k false = IsFree tbl k

-- A search that an empty slot ends, at the latest.
pub search-ends :
    (tbl : List WarmEntry) (id i : ℕ) (n j : ℕ)
    → IsFree tbl (slot_of (length tbl) id i)
    → 0 < length tbl
    → Blocked tbl id j
    → j ≤ i
    → i < j + n
    → (k : ℕ) × (b : Bool) × (m : ℕ) × (search_from tbl id n j ≡ some (k, b))
      × (m ≤ i)
      × (slot_of (length tbl) id m ≡ k)
      × Blocked tbl id m
      × Found tbl id k b
unfolding search_from
search-ends tbl id i zero j free pos b l h = absurd (omega (arith, l, h))
search-ends tbl id i (suc n) j free pos b l h =
    let (e, g) =
      get_elem?-some tbl (slot_of (length tbl) id j) (slot_of-lt (length tbl) id j pos) in
    elim (ℕ_discrete e.fn_id id) [
      | yes same ↦ (
        slot_of (length tbl) id j,
        true,
        j,
        search_same tbl id n j e g same,
        l,
        refl,
        b,
        (e, g, same),
      )
      | no ne ↦ elim (ℕ_discrete e.fn_id 0) [
        | yes z ↦ (
          slot_of (length tbl) id j,
          false,
          j,
          search_free tbl id n j e g ne z,
          l,
          refl,
          b,
          (e, g, z),
        )
        | no nz ↦
            let (k, c, m, found, le, at, blocked, what) =
              search-ends tbl id i n (j + 1) free pos (longer tbl id j e b g nz ne)
                (omega (arith, l, before e g nz)) (omega (arith, h)) in
            (k, c, m, search_next tbl id n j e g ne nz ∙ found, le, at, blocked, what)
      ]
    ]
  where
    before :
        (e : WarmEntry) → get_elem? tbl (slot_of (length tbl) id j) ≡ some e → e.fn_id ≢ 0 → j ≢ i
    before e g nz q = nz (
        ap (λ (x : WarmEntry). x.fn_id)
          (some-injective _ _
            (sym g ∙ ap (λ x. get_elem? tbl (slot_of (length tbl) id x)) q ∙ free.1))
        ∙ free.2)
