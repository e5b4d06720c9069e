-- ===== src/Warm/Requests.antt =====
-- `warm_profile_get_func` as a whole, with the growth.
use fluxa_lang.Base.{
  ℕ, zero, suc, ◌*◌, ◌≤◌, ◌<◌, ◌≡◌, ◌≢◌, refl, sym, ap, List, [], ◌∷◌, some, true, false, leb, ◌==◌,
  inl, inr, Bool-cases, arith, length, get_elem?, replicate, length-replicate,
}
use mathlib.Core.Option.{some-injective}
use fluxa_lang.Warm.{WarmFunc}
use fluxa_lang.Warm.Table.{
  WarmEntry, WarmProfile, no_entry, put_all, profile_grow, profile_init, get_func,
}
use fluxa_lang.Warm.Slots.{IsTable, Has, entry, occupied}
use fluxa_lang.Warm.Searches.{not_same}
use fluxa_lang.Warm.Claims.{Gives, IsProfile, Served, find_or_claim-Served}
use fluxa_lang.Warm.Growth.{Rehashed, put_all-Rehashed, table-AreDistinct}

-- A table of empty slots only.
replicate-empty :
    (n k : ℕ) (e : WarmEntry) → get_elem? (replicate n no_entry) k ≡ some e → e.fn_id ≡ 0
replicate-empty zero k e g = absurd (cc)
replicate-empty (suc n) zero e g = ap (λ (x : WarmEntry). x.fn_id) (sym (some-injective _ _ g))
replicate-empty (suc n) (suc k) e g = replicate-empty n k e g

occupied-replicate : (n : ℕ) → occupied (replicate n no_entry) ≡ 0
occupied-replicate zero = refl
occupied-replicate (suc n) = omega (arith, occupied-replicate n)

replicate-IsTable : (n : ℕ) → IsTable (replicate n no_entry)
unfolding IsTable
replicate-IsTable n k e g nz = absurd (nz (replicate-empty n k e g))

replicate-Has : (n id : ℕ) (f : WarmFunc) → id ≢ 0 → Has (replicate n no_entry) id f → ⊥
replicate-Has n id f nz (k, g) = nz (replicate-empty n k (entry id f) g)

-- A new profile of the program is in order.
pub profile_init-IsProfile : (initial_cap : ℕ) → IsProfile (profile_init true initial_cap)
unfolding profile_init
profile_init-IsProfile initial_cap = record {
  is_table = replicate-IsTable _;
  counted = occupied-replicate _;
}

occupied-le : (tbl : List WarmEntry) → occupied tbl ≤ length tbl
occupied-le [] = omega arith
occupied-le (e ∷ es) = ground (arith, occupied-le es)

-- The table after the growth.
abbrev grown : WarmProfile → WarmProfile
grown wp = record wp { funcs = put_all wp.funcs (replicate (length wp.funcs * 2) no_entry) }

grow-Rehashed :
    (wp : WarmProfile)
    → IsProfile wp
    → 0 < length wp.funcs
    → Rehashed wp.funcs (replicate (length wp.funcs * 2) no_entry) (grown wp).funcs
grow-Rehashed wp ok pos =
    let n = length wp.funcs * 2 in
    put_all-Rehashed wp.funcs (replicate n no_entry) (replicate-IsTable n)
      (omega (arith, occupied-replicate n, length-replicate n no_entry, pos))
      (table-AreDistinct wp.funcs ok.is_table) (λ a e g nz f has. replicate-Has n e.fn_id f nz has)

-- What is given out after the growth, seen from before it.
before_growth :
    (n : ℕ) (old new res : List WarmEntry) (id k : ℕ)
    → id ≢ 0
    → Rehashed old (replicate n no_entry) new
    → Gives new res id k
    → Gives old res id k
before_growth n old new res id k nz r g = record {
  profile = g.profile;
  there = g.there;
  known = λ f has. g.known f (r.moved id f nz has);
  unknown = λ none'. g.unknown (λ f has. none' f (back id f nz has));
  kept = λ id' f h has. g.kept id' f h (r.moved id' f h has);
  only = λ id' f h ne has. back id' f h (g.only id' f h ne has);
}
  where
    back : (id' : ℕ) (f : WarmFunc) → id' ≢ 0 → Has new id' f → Has old id' f
    back id' f h has = elim (r.only id' f h has) [
      | inl x ↦ absurd (replicate-Has n id' f h x)
      | inr x ↦ x
    ]

-- A request for the profile of a function, when memory is granted, succeeds, whether the table grows
-- or not: it gives the slot of the profile that the function has, or a new profile if it has none; all
-- other functions keep their profiles and no function gains one; and the table stays in order, with
-- its count right. The function's key is not 0, and the table has slots and is in order.
pub get_func-Gives :
    (wp : WarmProfile) (id : ℕ)
    → IsProfile wp
    → 0 < length wp.funcs
    → id ≢ 0
    → (wp' : WarmProfile) × (k : ℕ) × (get_func true wp id ≡ some (wp', k))
      × IsProfile wp'
      × Gives wp.funcs wp'.funcs id k
unfolding Served get_func profile_grow
get_func-Gives wp id ok pos nz = elim (Bool-cases (leb (length wp.funcs * 3) (wp.count * 4))) [
  | inl full ↦
      let r = grow-Rehashed wp ok pos in
      let n = length wp.funcs * 2 in
      let (wp', k, e, ok', same, g) =
        find_or_claim-Served (grown wp) id
          (record {
            is_table = r.is_table;
            counted = omega (arith, r.counted, occupied-replicate n, ok.counted);
          })
          (omega (
            arith,
            occupied-le wp.funcs,
            ok.counted,
            r.same_length,
            length-replicate n no_entry,
            pos,
          ))
          nz in
      (
        wp',
        k,
        rw (get_func, some_slots, full) e,
        ok',
        before_growth n wp.funcs (grown wp).funcs wp'.funcs id k nz r g,
      )
  | inr free ↦
      let (wp', k, e, ok', same, g) = find_or_claim-Served wp id ok (ground (arith, free)) nz in
      (wp', k, rw (get_func, some_slots, free) e, ok', g)
]
  where
    some_slots : (length wp.funcs == 0) ≡ false
    some_slots = not_same (length wp.funcs) 0 (λ q. absurd (omega (arith, q, pos)))
