-- ===== src/Prst/Graph.antt =====
-- src/prst_graph.h: which contexts read which persistent variable.
-- A name stands in a buffer of 256 bytes as a C string. A `cap` of 0 stands for every `int` that is
-- not positive.
pub mod Tally
pub mod Readers
pub mod Invariant
pub mod Wire
pub mod Tests
use fluxa_lang.Base.{
  ℕ, zero, suc, ◌+◌, ◌-◌, ◌*◌, List, [], ◌∷◌, ◌++◌, Option, none, some, Bool, true, false, ◌&&◌,
  ◌||◌, ltb, ◌==◌, if◌then◌else◌, length, get_elem?, take, drop, replicate, le_bytes, word_at,
  c_string, str_eq, swap_remove,
}
use mathlib.Core.Option
use Prim.Native.Nat.{bit_xor}
use fluxa_lang.ErrStack.{global_context}
use fluxa_lang.Prst.Pool.{Heap}
use fluxa_lang.Prst.Checksum.{fnv_offset, fnv_text}

-- `PrstDep`, by its two buffers.
pub record PrstDep : Type 0 where
  pub prst_name : List ℕ
  pub reader_ctx : List ℕ

-- `PrstGraph`; `count` is the number of the dependencies.
pub record PrstGraph : Type 0 where
  pub deps : List PrstDep
  pub cap : ℕ

abbrev pub count : PrstGraph → ℕ
count g = length g.deps

abbrev pub cap_default : ℕ
cap_default = 256

abbrev pub cap_max : ℕ
cap_max = 65536

-- `if (cap <= 0 || cap > PRST_GRAPH_CAP_MAX) cap = PRST_GRAPH_CAP_DEFAULT`
abbrev pub usable_cap : ℕ → ℕ
usable_cap cap = if cap == 0 || ltb cap_max cap then cap_default else cap

-- `prst_graph_init_cap`
pub init_cap : Heap → ℕ → PrstGraph
init_cap h cap = record { deps = []; cap = if h.grants (usable_cap cap) then usable_cap cap else 0 }

-- `prst_graph_init`
pub init : Heap → PrstGraph
unfolding init_cap
init h = init_cap h cap_default

-- `prst_graph_free`
pub free : PrstGraph → PrstGraph
free g = record { deps = []; cap = 0 }

-- `strcmp` of both names with those of an entry.
abbrev pub is_dep : List ℕ → List ℕ → PrstDep → Bool
is_dep name ctx d = str_eq (c_string d.prst_name) name && str_eq (c_string d.reader_ctx) ctx

-- The loop that looks for a double.
pub recorded : List ℕ → List ℕ → List PrstDep → Bool
recorded name ctx [] = false
recorded name ctx (d ∷ ds) = is_dep name ctx d || recorded name ctx ds

-- `strncpy(buf, s, 255); buf[255] = 0`: the copy is filled up with zeros.
abbrev pub padded : List ℕ → List ℕ
padded s = take 255 s ++ replicate (256 - length (take 255 s)) 0

abbrev pub new_dep : List ℕ → List ℕ → PrstDep
new_dep name ctx = record { prst_name = padded name; reader_ctx = padded ctx }

-- The new capacity, cut at the maximum.
pub next_cap : PrstGraph → ℕ
next_cap g =
    let doubled = if ltb 0 g.cap then g.cap * 2 else cap_default in
    if ltb cap_max doubled then cap_max else doubled

abbrev pub append_dep : PrstGraph → List ℕ → List ℕ → PrstGraph
append_dep g name ctx = record g { deps = g.deps ++ new_dep name ctx ∷ [] }

-- `prst_graph_record` once the context is known and no double is found.
pub record_new : Heap → PrstGraph → List ℕ → List ℕ → PrstGraph
unfolding next_cap
record_new h g name ctx =
    if ltb (count g) g.cap
    then append_dep g name ctx
    else if ltb (count g) (next_cap g)
    then if h.grants (next_cap g) then append_dep (record g { cap = next_cap g }) name ctx else g
    else g

-- `reader_ctx ? reader_ctx : "<global>"`
abbrev pub context_of : Option (List ℕ) → List ℕ
context_of none = global_context
context_of (some ctx) = ctx

-- `prst_graph_record`
pub record_dep : Heap → PrstGraph → List ℕ → Option (List ℕ) → PrstGraph
unfolding recorded record_new
record_dep h g name reader =
    if recorded name (context_of reader) g.deps then g else record_new h g name (context_of reader)

-- The loop of `prst_graph_has_readers`.
pub any_reader : List ℕ → List PrstDep → Bool
any_reader name [] = false
any_reader name (d ∷ ds) = str_eq (c_string d.prst_name) name || any_reader name ds

-- `prst_graph_has_readers`
pub has_readers : PrstGraph → List ℕ → Bool
unfolding any_reader
has_readers g name = any_reader name g.deps

-- `prst_graph_checksum`
pub checksum_from : ℕ → List PrstDep → ℕ
checksum_from h [] = h
checksum_from h (d ∷ ds) =
    checksum_from
      (bit_xor (fnv_text (bit_xor (fnv_text h (c_string d.prst_name)) 0x1f) (c_string d.reader_ctx))
        0x1e)
      ds

pub checksum : PrstGraph → ℕ
unfolding checksum_from
checksum g = checksum_from fnv_offset g.deps

-- The `memcpy` of the array.
pub dep_bytes : List PrstDep → List ℕ
dep_bytes [] = []
dep_bytes (d ∷ ds) = d.prst_name ++ (d.reader_ctx ++ dep_bytes ds)

-- `prst_graph_serialize`; `granted` says whether `malloc` gave the buffer. `none` is a return of 0.
pub serialize : Bool → PrstGraph → Option (List ℕ)
unfolding dep_bytes
serialize granted g = if granted then some (le_bytes 4 (count g) ++ dep_bytes g.deps) else none

-- The `memcpy` back into an array of `n` dependencies.
pub deps_of : ℕ → List ℕ → List PrstDep
deps_of zero r = []
deps_of (suc n) r =
    record { prst_name = take 256 r; reader_ctx = take 256 (drop 256 r) } ∷ deps_of n (drop 512 r)

-- The array of `prst_graph_deserialize`, for a count that was tested.
pub load : PrstGraph → ℕ → List ℕ → PrstGraph × Bool
unfolding deps_of
load g cnt r =
    if g.cap == 0 && ltb 0 cnt then (g, false) else (record g { deps = deps_of cnt r }, true)

-- `prst_graph_deserialize`: the graph, and whether it returns 1. A negative count is a pattern from
-- 2 ^ 31 on.
pub deserialize : Heap → PrstGraph → List ℕ → PrstGraph × Bool
unfolding load
deserialize h g buf =
    if ltb (length buf) 4
    then (g, false)
    else if ltb cap_max (word_at 4 buf)
    then (g, false)
    else if ltb (length buf) (4 + word_at 4 buf * 512)
    then (g, false)
    else load (init_cap h (if ltb cap_default (word_at 4 buf) then word_at 4 buf else cap_default))
        (word_at 4 buf) (drop 4 buf)

-- The loop of `prst_graph_invalidate` from index `i`, on fuel: an entry that goes is replaced by the
-- last one, and the index stays.
pub invalidate_from : ℕ → List ℕ → List PrstDep → ℕ → List PrstDep
invalidate_from zero name ds i = ds
invalidate_from (suc n) name ds i = elim (get_elem? ds i) [
  | none ↦ ds
  | some d ↦ elim (str_eq (c_string d.prst_name) name) [
    | true ↦ invalidate_from n name (swap_remove ds i) i
    | false ↦ invalidate_from n name ds (i + 1)
  ]
]

-- `prst_graph_invalidate`; every round takes an entry out or moves the index on, so a round for each
-- entry is enough.
pub invalidate : PrstGraph → List ℕ → PrstGraph
unfolding invalidate_from
invalidate g name = record g { deps = invalidate_from (count g) name g.deps 0 }
