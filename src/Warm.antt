-- ===== src/Warm.antt =====
-- src/warm_profile.h: the observations of one function, their signature and the promotion. The table
-- that finds a function's profile is in Table.
pub mod History
pub mod Promotion
pub mod Table
pub mod Slots
pub mod Searches
pub mod Claims
pub mod Growth
pub mod Requests
mod Tests
use Prim.Native.Nat.{bit_and, bit_or, bit_xor}
use fluxa_lang.Base.{
  ℕ, zero, suc, ◌+◌, ◌*◌, ◌/◌, ◌%◌, ◌^◌, List, [], ◌∷◌, Option, none, some, Bool, true, false, ltb,
  leb, ◌==◌, not, if◌then◌else◌, get_elem?, set, replicate,
}
use fluxa_lang.ErrStack.{Index, at, negative}

-- `WarmSlot`
pub record WarmSlot : Type 0 where
  pub observed_type : ℕ
  pub qjl_guard : Bool
  pub run_count : ℕ

-- `WarmFunc`, less its key
pub record WarmFunc : Type 0 where
  pub path_sig : ℕ
  pub stable_runs : ℕ
  pub node_count : ℕ
  pub slots : List WarmSlot

abbrev pub slots_max : ℕ
slots_max = 256

abbrev pub zero_slot : WarmSlot
zero_slot = record { observed_type = 0; qjl_guard = false; run_count = 0 }

-- `memset(wf, 0, sizeof(*wf))`
abbrev pub zero_func : WarmFunc
zero_func = record {
  path_sig = 0;
  stable_runs = 0;
  node_count = 0;
  slots = replicate 256 zero_slot;
}

-- `warm_type_from_val_type`
pub type_from_val_type : ℕ → ℕ
type_from_val_type t = if ltb t 7 then t else 7

-- What `warm_record` does to the slot.
unfoldable pub observe : WarmSlot → ℕ → WarmSlot
observe s t =
    if s.run_count == 0
    then record { observed_type = t; qjl_guard = true; run_count = 1 }
    else if s.observed_type == t
    then record s {
      qjl_guard = true;
      run_count = if ltb s.run_count 15 then s.run_count + 1 else s.run_count;
    }
    else record { observed_type = t; qjl_guard = false; run_count = 1 }

-- `wf->slots[idx]`, written back.
unfoldable pub observe_at : List WarmSlot → ℕ → ℕ → List WarmSlot
observe_at slots i t = elim (get_elem? slots i) [
  | none ↦ slots
  | some s ↦ set slots i (observe s t)
]

-- `warm_record`
unfoldable pub warm_record : WarmFunc → Index → ℕ → WarmFunc
warm_record f (negative i) vtype = f
warm_record f (at i) vtype = record f {
  slots = observe_at f.slots (i % slots_max) (type_from_val_type vtype);
  node_count = if leb f.node_count i then (if ltb i 255 then i + 1 else 255) else f.node_count;
}

-- `v ^= (v >> k) & mask`
abbrev pub fold_bits : ℕ → ℕ → ℕ → ℕ
fold_bits k mask v = bit_xor v (bit_and (v / 2 ^ k) mask)

-- `warm_wht_sign`
unfoldable pub wht_sign : ℕ → ℕ
wht_sign v =
    let a = fold_bits 1 0x5555555555555555 v in
    let b = fold_bits 2 0x3333333333333333 a in
    let c = fold_bits 4 0x0F0F0F0F0F0F0F0F b in
    let d = fold_bits 8 0x00FF00FF00FF00FF c in
    let e = fold_bits 16 0x0000FFFF0000FFFF d in bit_xor e (e / 2 ^ 32)

-- The loop of `warm_build_type_vec` over the first `n` slots, from slot `i`.
unfoldable pub type_vec_from : ℕ → ℕ → List WarmSlot → ℕ → ℕ
type_vec_from zero i slots vec = vec
type_vec_from (suc n) i [] vec = vec
type_vec_from (suc n) i (s ∷ slots) vec =
    type_vec_from n (i + 1) slots (bit_or vec (s.observed_type % 8 * 2 ^ (i * 4) % 2 ^ 64))

-- `warm_build_type_vec`
unfoldable pub build_type_vec : List WarmSlot → ℕ → ℕ
build_type_vec slots count = type_vec_from (if ltb count 16 then count else 16) 0 slots 0

-- The signature of the observations at hand.
abbrev pub signature : WarmFunc → ℕ
signature f = wht_sign (build_type_vec f.slots f.node_count)

-- `warm_update_sig`
unfoldable pub update_sig : WarmFunc → WarmFunc
update_sig f =
    if signature f == f.path_sig
    then record f {
      stable_runs = if ltb f.stable_runs 255 then f.stable_runs + 1 else f.stable_runs;
    }
    else record f { path_sig = signature f; stable_runs = 0 }

-- `warm_func_is_promoted`
abbrev pub is_promoted : WarmFunc → Bool
is_promoted f = leb 2 f.stable_runs

-- `warm_func_observing`
abbrev pub is_observing : WarmFunc → Bool
is_observing f = not (is_promoted f)
