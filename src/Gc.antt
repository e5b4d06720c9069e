-- ===== src/Gc.antt =====
-- src/gc.h: the table of the dynamic arrays, with their pins. A pointer is its address; a `slots` that
-- is NULL is the empty list, which goes with a `cap` of 0. Numbers that only count are not cut to
-- their width, and one that would fall below 0 stays at 0.
pub mod Sweep
pub mod Pins
pub mod Capacity
mod Tests
use fluxa_lang.Base.{
  ℕ, zero, suc, ◌+◌, ◌-◌, ◌*◌, ◌%◌, ◌^◌, ◌||◌, List, [], ◌∷◌, Option, none, some, Bool, true, false,
  ◌&&◌, not, ltb, leb, ◌==◌, if◌then◌else◌, length, get_elem?, set, replicate, le_bytes, codes,
}
use mathlib.Core.Option
use fluxa_lang.ErrStack
use fluxa_lang.ErrStack.{ErrStack, err_fluxa}
use fluxa_lang.Prst.Checksum.{fnv_offset, fnv_text}

-- `GC_SLOT_EMPTY`, `GC_SLOT_USED` and `GC_SLOT_DEAD`
pub data SlotState : Type 0 where
  empty used dead : SlotState

abbrev pub is_used : SlotState → Bool
is_used used = true
is_used s = false

abbrev pub is_empty : SlotState → Bool
is_empty empty = true
is_empty s = false

-- `GCEntry`
pub record GcEntry : Type 0 where
  pub ptr : ℕ
  pub pin_count : ℕ
  pub size_bytes : ℕ
  pub state : SlotState

-- `GCTable`; `cap` is the number of the slots.
pub record GcTable : Type 0 where
  pub slots : List GcEntry
  pub count : ℕ
  pub total_bytes : ℕ

abbrev pub cap : GcTable → ℕ
cap g = length g.slots

abbrev pub zero_entry : GcEntry
zero_entry = record { ptr = 0; pin_count = 0; size_bytes = 0; state = empty }

-- `p < n` of two `int` in their 32-bit patterns, where `n` is not negative.
abbrev pub int_lt : ℕ → ℕ → Bool
int_lt p n = ltb p n || leb (2 ^ 31) p

-- The loop of `gc_next_pow2` from `p` on, with the bits of an `int`; `none` is that it still runs when
-- the fuel is gone.
unfoldable pub pow2_from : ℕ → ℕ → ℕ → Option ℕ
pow2_from zero p n = none
pow2_from (suc fuel) p n =
    let rest = pow2_from fuel (p * 2 % 2 ^ 32) n in if int_lt p n then rest else some p

-- `gc_next_pow2` of a number that is not negative. After 32 shifts `p` is 0 for good, so that more
-- rounds change nothing.
unfoldable pub next_pow2 : ℕ → Option ℕ
next_pow2 n = pow2_from 33 1 n

-- `GC_TABLE_CAP`
abbrev pub table_cap : ℕ
table_cap = 1024

-- `gc_init` for a capacity that is not negative; `granted` is that there is memory, and `none` that
-- the loop for the capacity does not end.
unfoldable pub init : Bool → ℕ → Option GcTable
init granted c =
    Option.map
      (λ n. record {
        slots = if granted then replicate n zero_entry else [];
        count = 0;
        total_bytes = 0;
      })
      (next_pow2 (if (c == 0) then table_cap else c))

-- `gc_hash`; the capacity is a power of two, so that the mask is a remainder.
abbrev pub hash : ℕ → ℕ → ℕ
hash ptr c = fnv_text fnv_offset (le_bytes 8 ptr) % c

-- The slot of probe `i`.
abbrev pub probe : List GcEntry → ℕ → ℕ → ℕ
probe slots h i = (h + i) % length slots

-- One round of `gc_find_slot` at the slot `j`.
abbrev pub visit : Option GcEntry → ℕ → ℕ → Option ℕ → Option ℕ
visit none ptr j later = none
visit (some e) ptr j later =
    if is_empty e.state then none else if is_used e.state && (e.ptr == ptr) then some j else later

-- The loop of `gc_find_slot` with `n` probes to go: the index of the entry.
unfoldable pub find_from : List GcEntry → ℕ → ℕ → ℕ → ℕ → Option ℕ
find_from slots ptr h zero i = none
find_from slots ptr h (suc n) i =
    visit (get_elem? slots (probe slots h i)) ptr (probe slots h i)
      (find_from slots ptr h n (i + 1))

-- `gc_find_slot`; with no slots there is no probe.
unfoldable pub find_slot : GcTable → ℕ → Option ℕ
find_slot g ptr = find_from g.slots ptr (hash ptr (cap g)) (cap g) 0

-- The loop that puts an entry into the first slot that is not taken.
unfoldable pub place_from :
    (SlotState → Bool) → List GcEntry → GcEntry → ℕ → ℕ → ℕ → Option (List GcEntry)
place_from taken slots e h zero i = none
place_from taken slots e h (suc n) i =
    let later = place_from taken slots e h n (i + 1) in
    elim (get_elem? slots (probe slots h i)) [
      | none ↦ none
      | some old ↦ if taken old.state then later else some (set slots (probe slots h i) e)
    ]

-- The rehash of the slots into a larger array: only an empty slot is free there.
unfoldable pub rehash : List GcEntry → List GcEntry → List GcEntry
rehash [] new = new
rehash (e ∷ es) new =
    if is_used e.state
    then rehash es
        (elim (place_from (λ s. not (is_empty s)) new e (hash e.ptr (length new)) (length new) 0) [
          | none ↦ new
          | some placed ↦ placed
        ])
    else rehash es new

-- The growth at three quarters; `none` is a lack of memory.
unfoldable pub grown : Bool → GcTable → Option GcTable
grown granted g =
    if leb (cap g * 3) (g.count * 4)
    then if granted
      then some (record g { slots = rehash g.slots (replicate (cap g * 2) zero_entry) })
      else none
    else some g

-- The end of `gc_register`: the new entry goes into the first slot that is not in use.
unfoldable pub insert : GcTable → ℕ → ℕ → GcTable
insert g ptr size =
    elim (place_from is_used g.slots
      (record { ptr = ptr; pin_count = 0; size_bytes = size; state = used }) (hash ptr (cap g))
      (cap g) 0) [
        | none ↦ g
        | some slots ↦ record {
          slots = slots;
          count = g.count + 1;
          total_bytes = g.total_bytes + size;
        }
      ]

-- `if (err) errstack_push(err, ERR_FLUXA, ..., "<gc>", 0)`
abbrev pub no_memory : Option ErrStack → Option ErrStack
no_memory none = none
no_memory (some s) = some (
    ErrStack.push s err_fluxa (some (codes "GC: out of memory growing table")) (some (codes "<gc>"))
      0)

-- `gc_register`
pub register : Bool → GcTable → ℕ → ℕ → Option ErrStack → GcTable × Option ErrStack
register granted g ptr size err =
    if (ptr == 0) then (g, err) else if (cap g == 0) then (g, err) else elim (find_slot g ptr) [
      | some i ↦ (g, err)
      | none ↦ elim (grown granted g) [
        | none ↦ (g, no_memory err)
        | some g' ↦ (insert g' ptr size, err)
      ]
    ]

-- Writing one slot.
abbrev pub modify : GcTable → ℕ → (GcEntry → GcEntry) → GcTable
modify g i f = elim (get_elem? g.slots i) [
  | none ↦ g
  | some e ↦ record g { slots = set g.slots i (f e) }
]

-- `gc_pin`
unfoldable pub pin : GcTable → ℕ → GcTable
pin g ptr = elim (find_slot g ptr) [
  | none ↦ g
  | some i ↦ modify g i (λ e. record e { pin_count = e.pin_count + 1 })
]

-- `gc_unpin`, and whether it returns 1.
unfoldable pub unpin : GcTable → ℕ → GcTable × Bool
unpin g ptr = elim (find_slot g ptr) [
  | none ↦ (g, false)
  | some i ↦ elim (get_elem? g.slots i) [
    | none ↦ (g, false)
    | some e ↦ (
      record g { slots = set g.slots i (record e { pin_count = e.pin_count - 1 }) },
      e.pin_count - 1 == 0,
    )
  ]
]

-- `gc_unregister`; its loop is that of `gc_find_slot`.
pub unregister : GcTable → ℕ → GcTable
unregister g ptr = elim (find_slot g ptr) [
  | none ↦ g
  | some i ↦ elim (get_elem? g.slots i) [
    | none ↦ g
    | some e ↦ record {
      slots = set g.slots i (record e { state = dead });
      count = g.count - 1;
      total_bytes = g.total_bytes - e.size_bytes;
    }
  ]
]

-- The condition of `gc_sweep`.
abbrev pub is_garbage : GcEntry → Bool
is_garbage e = is_used e.state && (e.pin_count == 0) && not (e.ptr == 0)

-- What `gc_sweep` leaves: the slots, the two counters, and the pointers that it freed, in order.
pub record Swept : Type 0 where
  pub table : GcTable
  pub freed : List ℕ

abbrev pub keep_slot : GcEntry → Swept → Swept
keep_slot e s = record s { table = record s.table { slots = e ∷ s.table.slots } }

-- The loop of `gc_sweep` over the slots from one on, which ends when no object is tracked.
unfoldable pub sweep_from : List GcEntry → ℕ → ℕ → Swept
sweep_from [] count bytes = record {
  table = record { slots = []; count = count; total_bytes = bytes };
  freed = [];
}
sweep_from (e ∷ es) count bytes = elim (is_garbage e) [
  | false ↦ keep_slot e (sweep_from es count bytes)
  | true ↦ elim (count - 1 == 0) [
    | true ↦ record {
      table = record {
        slots = record e { state = dead } ∷ es;
        count = 0;
        total_bytes = bytes - e.size_bytes;
      };
      freed = e.ptr ∷ [];
    }
    | false ↦
        let s =
          keep_slot (record e { state = dead })
            (sweep_from es (count - 1) (bytes - e.size_bytes)) in
        record s { freed = e.ptr ∷ s.freed }
  ]
]

-- `gc_sweep`
unfoldable pub sweep : GcTable → Swept
sweep g =
    if (g.count == 0)
    then record { table = g; freed = [] }
    else sweep_from g.slots g.count g.total_bytes

-- `gc_collect_all`, and the pointers that it freed.
abbrev pub live_pointers : List GcEntry → List ℕ
live_pointers [] = []
live_pointers (e ∷ es) =
    if is_used e.state && not (e.ptr == 0) then e.ptr ∷ live_pointers es else live_pointers es

pub collect_all : GcTable → Swept
collect_all g = record {
  table = record { slots = []; count = 0; total_bytes = 0 };
  freed = live_pointers g.slots;
}
