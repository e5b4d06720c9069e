-- ===== src/Warm/Table.antt =====
-- src/warm_profile.h: the table that finds a function's profile, `warm_profile_init`,
-- `warm_profile_grow` and `warm_profile_get_func`. A function's key stands beside its profile; a
-- `funcs` that is NULL is the empty list, which goes with a `cap` of 0.
use Prim.Native.Nat.{bit_xor}
use fluxa_lang.Base.{
  ℕ, zero, suc, ◌+◌, ◌*◌, ◌/◌, ◌%◌, ◌^◌, List, [], ◌∷◌, Option, none, some, Bool, true, false, leb,
  ltb, ◌==◌, if◌then◌else◌, length, get_elem?, set, replicate,
}
use fluxa_lang.Warm.{WarmFunc, zero_func}

-- An entry of `funcs`: `fn_id` 0 is an empty slot.
pub record WarmEntry : Type 0 where
  pub fn_id : ℕ
  pub func : WarmFunc

-- `WarmProfile`; `cap` is the number of the slots.
pub record WarmProfile : Type 0 where
  pub funcs : List WarmEntry
  pub count : ℕ
  pub enabled : Bool

abbrev pub no_entry : WarmEntry
no_entry = record { fn_id = 0; func = zero_func }

-- `WARM_FUNC_INIT_CAP`
abbrev pub func_init_cap : ℕ
func_init_cap = 32

-- The loop of `warm_next_pow2` from `p` on. Each round adds one at least to `p`.
unfoldable pub next_pow2_from : ℕ → ℕ → ℕ → ℕ
next_pow2_from zero p n = p
next_pow2_from (suc fuel) p n =
    let rest = next_pow2_from fuel (p * 2) n in if ltb p n then rest else p

-- `warm_next_pow2`, for a number whose next power of two is an `int`.
unfoldable pub warm_next_pow2 : ℕ → ℕ
warm_next_pow2 n = next_pow2_from n func_init_cap n

-- `warm_profile_init`, with 0 for a capacity that is not positive; `granted` is that there is memory.
unfoldable pub profile_init : Bool → ℕ → WarmProfile
profile_init granted initial_cap = record {
  funcs =
      if granted
      then replicate (warm_next_pow2 (if initial_cap == 0 then func_init_cap else initial_cap))
          no_entry
      else [];
  count = 0;
  enabled = false;
}

-- `warm_profile_free` of a table.
abbrev pub profile_free : WarmProfile → WarmProfile
profile_free wp = record wp { funcs = []; count = 0 }

-- The hash, in 32 bits of a product in 64.
unfoldable pub fn_hash : ℕ → ℕ
fn_hash id = bit_xor id (id / 2 ^ 16) * 0x45d9f3b % 2 ^ 64 % 2 ^ 32

-- The slot of round `i`; the capacity is a power of two, so that the mask is a remainder.
unfoldable pub slot_of : ℕ → ℕ → ℕ → ℕ
slot_of cap id i = (fn_hash id % cap + i) % cap

-- The loop that puts an entry into the first empty slot, with `n` rounds to go.
unfoldable pub put_from : List WarmEntry → WarmEntry → ℕ → ℕ → List WarmEntry
put_from new e zero i = new
put_from new e (suc n) i = elim (get_elem? new (slot_of (length new) e.fn_id i)) [
  | none ↦ new
  | some old ↦ elim (old.fn_id == 0) [
    | true ↦ set new (slot_of (length new) e.fn_id i) e
    | false ↦ put_from new e n (i + 1)
  ]
]

-- The rehash of all occupied entries.
unfoldable pub put_all : List WarmEntry → List WarmEntry → List WarmEntry
put_all [] new = new
put_all (e ∷ es) new = put_all es (if e.fn_id == 0 then new else put_from new e (length new) 0)

-- `warm_profile_grow`; `none` is a lack of memory.
unfoldable pub profile_grow : Bool → WarmProfile → Option WarmProfile
profile_grow granted wp =
    if granted
    then some (record wp { funcs = put_all wp.funcs (replicate (length wp.funcs * 2) no_entry) })
    else none

-- The search of `warm_profile_get_func`: the slot, and whether the function was found there; else the
-- slot is empty.
unfoldable pub search_from : List WarmEntry → ℕ → ℕ → ℕ → Option (ℕ × Bool)
search_from funcs id zero i = none
search_from funcs id (suc n) i = elim (get_elem? funcs (slot_of (length funcs) id i)) [
  | none ↦ none
  | some e ↦ elim (e.fn_id == id) [
    | true ↦ some (slot_of (length funcs) id i, true)
    | false ↦ elim (e.fn_id == 0) [
      | true ↦ some (slot_of (length funcs) id i, false)
      | false ↦ search_from funcs id n (i + 1)
    ]
  ]
]

-- The rest of `warm_profile_get_func`, after the growth: the slot of the function.
unfoldable pub find_or_claim : WarmProfile → ℕ → Option (WarmProfile × ℕ)
find_or_claim wp id = elim (search_from wp.funcs id (length wp.funcs) 0) [
  | none ↦ none
  | some (k, true) ↦ some (wp, k)
  | some (k, false) ↦ some (
    record wp {
      funcs = set wp.funcs k (record { fn_id = id; func = zero_func });
      count = wp.count + 1;
    },
    k,
  )
]

-- `warm_profile_get_func`; `none` is its NULL.
unfoldable pub get_func : Bool → WarmProfile → ℕ → Option (WarmProfile × ℕ)
get_func granted wp id =
    if length wp.funcs == 0
    then none
    else if leb (length wp.funcs * 3) (wp.count * 4)
    then elim (profile_grow granted wp) [ none ↦ none | some wp' ↦ find_or_claim wp' id ]
    else find_or_claim wp id
