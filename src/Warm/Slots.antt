-- ===== src/Warm/Slots.antt =====
-- The slots of the table of profiles: the rounds of a search, and the invariant that a search relies on.
use native.Mathlib.Nat.{mod-eq_of_lt, mod-lt, add-mod_right}
use fluxa_lang.Base.{
  ℕ, zero, suc, ◌+◌, ◌-◌, ◌%◌, ◌<◌, ◌≡◌, ◌≢◌, refl, sym, ap, ◌∙◌, subst, List, [], ◌∷◌, some, ◌==◌,
  if◌then◌else◌, arith, length, get_elem?, set, length-set, get_elem?-set_ne, get_elem?-set-some,
  dec_lt, ℕ_discrete, Bool-cases, inl, inr,
}
use mathlib.Core.Option.{some-injective}
use fluxa_lang.Warm.{WarmFunc}
use fluxa_lang.Warm.Table.{WarmEntry, fn_hash, slot_of}

pub slot_of-lt : (n id i : ℕ) → 0 < n → slot_of n id i < n
unfolding slot_of
slot_of-lt n id i h = mod-lt (fn_hash id % n + i) h

-- The rounds come to every slot.
pub slot_of-onto : (n id k : ℕ) → k < n → (i : ℕ) × (i < n) × (slot_of n id i ≡ k)
unfolding slot_of
slot_of-onto n id k h =
    let start = fn_hash id % n in
    let low : start < n = mod-lt (fn_hash id) (omega (arith, h)) in
    elim (dec_lt k start) [
      | yes b ↦ (
        k + n - start,
        omega (arith, h, b, low),
        ap (λ x. x % n) (omega (arith, low, h)) ∙ add-mod_right k n ∙ mod-eq_of_lt h,
      )
      | no b ↦ (k - start, omega (arith, h), ap (λ x. x % n) (omega (arith, b)) ∙ mod-eq_of_lt h)
    ]

-- The rounds before `i` come to entries of other functions.
unfoldable pub Blocked : List WarmEntry → ℕ → ℕ → Type 0
Blocked tbl id i =
    (j : ℕ)
    → j < i
    → (e : WarmEntry) × (get_elem? tbl (slot_of (length tbl) id j) ≡ some e)
      × (e.fn_id ≢ 0)
      × (e.fn_id ≢ id)

-- A search comes to every entry.
unfoldable pub IsTable : List WarmEntry → Type 0
IsTable tbl =
    (k : ℕ) (e : WarmEntry)
    → get_elem? tbl k ≡ some e
    → e.fn_id ≢ 0
    → (i : ℕ) × (i < length tbl) × (slot_of (length tbl) e.fn_id i ≡ k) × Blocked tbl e.fn_id i

abbrev pub entry : ℕ → WarmFunc → WarmEntry
entry id f = record { fn_id = id; func = f }

-- The table has the profile `f` for the function `id`.
abbrev pub Has : List WarmEntry → ℕ → WarmFunc → Type 0
Has tbl id f = (k : ℕ) × (get_elem? tbl k ≡ some (entry id f))

-- The number of the entries that are taken.
abbrev weight : ℕ → ℕ
weight id = if id == 0 then 0 else 1

abbrev pub occupied : List WarmEntry → ℕ
occupied [] = 0
occupied (e ∷ es) = weight e.fn_id + occupied es

pub weight_empty : (id : ℕ) → id ≡ 0 → weight id ≡ 0
weight_empty id h = ground arith

pub weight_taken : (id : ℕ) → id ≢ 0 → weight id ≡ 1
weight_taken id h = elim (Bool-cases (id == 0)) [
  | inl z ↦ absurd (h (ground (arith, z)))
  | inr n ↦ rw n refl
]

-- An empty slot.
abbrev pub IsFree : List WarmEntry → ℕ → Type 0
IsFree tbl k = (z : WarmEntry) × (get_elem? tbl k ≡ some z) × (z.fn_id ≡ 0)

pub IsFree-slot :
    (tbl : List WarmEntry) → occupied tbl < length tbl → (k : ℕ) × (k < length tbl) × IsFree tbl k
IsFree-slot [] h = absurd (omega arith)
IsFree-slot (e ∷ es) h = elim (ℕ_discrete e.fn_id 0) [
  | yes z ↦ (0, omega arith, (e, refl, z))
  | no n ↦
      let (k, b, f) = IsFree-slot es (omega (arith, h, weight_taken e.fn_id n)) in
      (suc k, omega (arith, b), f)
]

pub occupied-set :
    (tbl : List WarmEntry) (k : ℕ) (e : WarmEntry)
    → IsFree tbl k
    → e.fn_id ≢ 0
    → occupied (set tbl k e) ≡ occupied tbl + 1
occupied-set [] k e (z, g, h) n = absurd (cc)
occupied-set (x ∷ xs) zero e (z, g, h) n = omega (
  arith,
  weight_taken e.fn_id n,
  weight_empty x.fn_id (ap (λ (y : WarmEntry). y.fn_id) (some-injective x z g) ∙ h),
)
occupied-set (x ∷ xs) (suc k) e free n = omega (arith, occupied-set xs k e free n)

pub Blocked-set :
    (tbl : List WarmEntry) (id i k : ℕ) (e : WarmEntry)
    → IsFree tbl k
    → Blocked tbl id i
    → Blocked (set tbl k e) id i
unfolding Blocked
Blocked-set tbl id i k e (z, g, h) b j l =
    let (x, gx, nz, ne) = b j l in
    rw (length-set tbl k e) (
      x,
      get_elem?-set_ne tbl k (slot_of (length tbl) id j) e (λ q. nz (
            ap (λ (y : WarmEntry). y.fn_id)
              (some-injective _ _ (sym gx ∙ ap (get_elem? tbl) (sym q) ∙ g))
            ∙ h))
          ∙ gx,
      nz,
      ne,
    )

-- An entry that is put where its search ends.
pub set-IsTable :
    (tbl : List WarmEntry) (i k : ℕ) (e : WarmEntry)
    → IsTable tbl
    → IsFree tbl k
    → i < length tbl
    → slot_of (length tbl) e.fn_id i ≡ k
    → Blocked tbl e.fn_id i
    → IsTable (set tbl k e)
unfolding IsTable
set-IsTable tbl i k e t free low at b k' e' g nz = elim (ℕ_discrete k k') [
  | yes q ↦
      let same : e ≡ e' =
        some-injective _ _
          (sym (get_elem?-set-some tbl k free.0 e free.1) ∙ ap (get_elem? (set tbl k e)) q ∙ g) in
      subst
        (λ (x : WarmEntry).
          (i' : ℕ) × (i' < length (set tbl k e))
          × (slot_of (length (set tbl k e)) x.fn_id i' ≡ k')
          × Blocked (set tbl k e) x.fn_id i')
        same
        (
          i,
          omega (arith, low, length-set tbl k e),
          ap (λ n. slot_of n e.fn_id i) (length-set tbl k e) ∙ at ∙ q,
          Blocked-set tbl e.fn_id i k e free b,
        )
  | no q ↦
      let (i', low', at', b') = t k' e' (sym (get_elem?-set_ne tbl k k' e q) ∙ g) nz in
      (
        i',
        omega (arith, low', length-set tbl k e),
        ap (λ n. slot_of n e'.fn_id i') (length-set tbl k e) ∙ at',
        Blocked-set tbl e'.fn_id i' k e free b',
      )
]
