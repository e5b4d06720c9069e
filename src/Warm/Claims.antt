-- ===== src/Warm/Claims.antt =====
-- A search in the table, or a claim of an empty slot, as `warm_profile_get_func` ends.
use fluxa_lang.Base.{
  ℕ, ◌+◌, ◌<◌, ◌≡◌, ◌≢◌, refl, sym, ap, ◌∙◌, subst, List, Option, some, Bool, true, false, arith,
  length, get_elem?, set, length-set, get_elem?-set_ne, get_elem?-set-some, ℕ_discrete,
}
use mathlib.Core.Option.{some-injective}
use fluxa_lang.Warm.{WarmFunc, zero_func}
use fluxa_lang.Warm.Table.{WarmEntry, WarmProfile, slot_of, search_from, find_or_claim}
use fluxa_lang.Warm.Slots.{
  IsTable, Has, entry, occupied, IsFree, IsFree-slot, occupied-set, slot_of-onto, set-IsTable,
  Blocked,
}
use fluxa_lang.Warm.Searches.{Found, search-hit, search-ends}

-- The profile that a request gives out, at the slot `k`: the one that was there, or a new one. The
-- other functions have the profiles that they had.
pub record Gives (old new : List WarmEntry) (id k : ℕ) : Type 0 where
  pub profile : WarmFunc
  pub there : get_elem? new k ≡ some (entry id profile)
  pub known : (f : WarmFunc) → Has old id f → profile ≡ f
  pub unknown : ((f : WarmFunc) → Has old id f → ⊥) → profile ≡ zero_func
  pub kept : (id' : ℕ) (f : WarmFunc) → id' ≢ 0 → Has old id' f → Has new id' f
  pub only : (id' : ℕ) (f : WarmFunc) → id' ≢ 0 → id' ≢ id → Has new id' f → Has old id' f

-- A table in order, with the number of its entries.
pub record IsProfile (wp : WarmProfile) : Type 0 where
  pub is_table : IsTable wp.funcs
  pub counted : occupied wp.funcs ≡ wp.count

pub no_blocks : (tbl : List WarmEntry) (id : ℕ) → Blocked tbl id 0
unfolding Blocked
no_blocks tbl id j h = absurd (omega (arith, h))

-- Where the profile of a function is, the search ends.
pub search-Has :
    (tbl : List WarmEntry) (id : ℕ) (f : WarmFunc) (k : ℕ)
    → IsTable tbl
    → id ≢ 0
    → get_elem? tbl k ≡ some (entry id f)
    → search_from tbl id (length tbl) 0 ≡ some (k, true)
unfolding IsTable
search-Has tbl id f k t nz g =
    let (i, low, at, b) = t k (entry id f) g nz in
    search-hit tbl id i (entry id f) (length tbl) 0 b (ap (get_elem? tbl) at ∙ g) refl (omega arith)
      (omega (arith, low))
    ∙ ap (λ x. some (x, true)) at

pub slot_pair : (x y : ℕ × Bool) → some x ≡ some y → (x.0 ≡ y.0) × (x.1 ≡ y.1)
slot_pair x y h =
    let q = some-injective x y h in (ap (λ (z : ℕ × Bool). z.0) q, ap (λ (z : ℕ × Bool). z.1) q)

-- A claimed slot is not seen by the other functions.
pub Has-set :
    (tbl : List WarmEntry) (k : ℕ) (e : WarmEntry) (id : ℕ) (f : WarmFunc)
    → IsFree tbl k
    → id ≢ 0
    → Has tbl id f
    → Has (set tbl k e) id f
Has-set tbl k e id f (z, g, h) nz (j, gj) = (
  j,
  get_elem?-set_ne tbl k j e (λ q. nz (
        ap (λ (y : WarmEntry). y.fn_id)
          (some-injective _ _ (sym gj ∙ ap (get_elem? tbl) (sym q) ∙ g))
        ∙ h))
      ∙ gj,
)

pub set-Has :
    (tbl : List WarmEntry) (k : ℕ) (e : WarmEntry) (id : ℕ) (f : WarmFunc)
    → IsFree tbl k
    → id ≢ e.fn_id
    → Has (set tbl k e) id f
    → Has tbl id f
set-Has tbl k e id f (z, g, h) ne (j, gj) = elim (ℕ_discrete k j) [
  | yes q ↦ absurd (
      ne (
        ap (λ (y : WarmEntry). y.fn_id)
          (some-injective _ _
            (sym gj ∙ ap (get_elem? (set tbl k e)) (sym q) ∙ get_elem?-set-some tbl k z e g))))
  | no q ↦ (j, sym (get_elem?-set_ne tbl k j e q) ∙ gj)
]

found-Gives :
    (tbl : List WarmEntry) (id k : ℕ) (e : WarmEntry)
    → IsTable tbl
    → id ≢ 0
    → get_elem? tbl k ≡ some e
    → e.fn_id ≡ id
    → Gives tbl tbl id k
found-Gives tbl id k e t nz g same =
    let here : get_elem? tbl k ≡ some (entry id e.func) =
      g ∙ ap (λ n. some (entry n e.func)) same in
    record {
      profile = e.func;
      there = here;
      known = λ f (j, gj).
          let q =
            (slot_pair (k, true) (j, true)
              (sym (search-Has tbl id e.func k t nz here) ∙ search-Has tbl id f j t nz gj)).0 in
          ap (λ (y : WarmEntry). y.func)
            (some-injective _ _ (sym here ∙ ap (get_elem? tbl) q ∙ gj));
      unknown = λ none'. absurd (none' e.func (k, here));
      kept = λ id' f h x. x;
      only = λ id' f h ne x. x;
    }

claimed-Gives :
    (tbl : List WarmEntry) (id k : ℕ)
    → IsTable tbl
    → id ≢ 0
    → IsFree tbl k
    → search_from tbl id (length tbl) 0 ≡ some (k, false)
    → Gives tbl (set tbl k (entry id zero_func)) id k
claimed-Gives tbl id k t nz free s = record {
  profile = zero_func;
  there = get_elem?-set-some tbl k free.0 (entry id zero_func) free.1;
  known = λ f (j, gj).
      absurd (cc ((slot_pair (k, false) (j, true) (sym s ∙ search-Has tbl id f j t nz gj)).1));
  unknown = λ h. refl;
  kept = λ id' f h x. Has-set tbl k (entry id zero_func) id' f free h x;
  only = λ id' f h ne x. set-Has tbl k (entry id zero_func) id' f free ne x;
}

-- The result of a request.
unfoldable pub Served : WarmProfile → List WarmEntry → ℕ → Option (WarmProfile × ℕ) → Type 0
Served wp old id res =
    (wp' : WarmProfile) × (k : ℕ) × (res ≡ some (wp', k))
    × IsProfile wp'
    × (length wp'.funcs ≡ length wp.funcs)
    × Gives old wp'.funcs id k

pub find_or_claim-Served :
    (wp : WarmProfile) (id : ℕ)
    → IsProfile wp
    → wp.count < length wp.funcs
    → id ≢ 0
    → Served wp wp.funcs id (find_or_claim wp id)
unfolding Served find_or_claim
find_or_claim-Served wp id ok room nz =
    let (k0, b0, free0) = IsFree-slot wp.funcs (omega (arith, room, ok.counted)) in
    let (i, low, at) = slot_of-onto (length wp.funcs) id k0 b0 in
    let (k, b, m, s, le, there, blocked, found) =
      search-ends wp.funcs id i (length wp.funcs) 0 (subst (IsFree wp.funcs) (sym at) free0)
        (omega (arith, b0)) (no_blocks wp.funcs id) (omega arith) (omega (arith, low)) in
    served k b m s (omega (arith, le, low)) there blocked found
  where
    served :
        (k : ℕ) (b : Bool) (m : ℕ)
        → search_from wp.funcs id (length wp.funcs) 0 ≡ some (k, b)
        → m < length wp.funcs
        → slot_of (length wp.funcs) id m ≡ k
        → Blocked wp.funcs id m
        → Found wp.funcs id k b
        → Served wp wp.funcs id (find_or_claim wp id)
    served k true m s low at blocked (e, g, same) = (
      wp,
      k,
      rw (find_or_claim, s) refl,
      ok,
      refl,
      found-Gives wp.funcs id k e ok.is_table nz g same,
    )
    served k false m s low at blocked free =
        let tbl = set wp.funcs k (entry id zero_func) in
        (
          record wp { funcs = tbl; count = wp.count + 1 },
          k,
          rw (find_or_claim, s) refl,
          record {
            is_table =
                set-IsTable wp.funcs m k (entry id zero_func) ok.is_table free low at blocked;
            counted =
                omega (arith, occupied-set wp.funcs k (entry id zero_func) free nz, ok.counted);
          },
          length-set wp.funcs k (entry id zero_func),
          claimed-Gives wp.funcs id k ok.is_table nz free s,
        )
