-- ===== src/Prst/Graph/Wire.antt =====
-- The dependency graph over the wire.
use fluxa_lang.Base.{
  none, inl, inr, ◌⊎◌, bit_xor_bound, c_string, ◌^◌, ℕ, ◌+◌, ◌*◌, ◌≤◌, ◌≡◌, refl, sym, ap, ap₂, ◌∙◌,
  subst, List, [], ◌∷◌, ◌++◌, some, true, if◌then◌else◌, length, take, drop, arith, All,
  take-append, drop-append, drop-drop, le_bytes, word_at, word_at_4, length-append, ltb,
  le→ltb_false, false, Bool, ◌<◌,
}
use mathlib.Core.Option.{some-injective}
use fluxa_lang.Prst.Pool.{Heap}
use fluxa_lang.Prst.Checksum.{fnv_offset, fnv_text, fnv_text_bound}
use Prim.Native.Nat.{bit_xor}
use fluxa_lang.Prst.Graph.{
  PrstDep, PrstGraph, count, dep_bytes, deps_of, load, serialize, deserialize, checksum,
  checksum_from, cap_default, init_cap,
}
use fluxa_lang.Prst.Graph.Invariant.{IsDep, IsValid}

length-dep_bytes : (ds : List PrstDep) → All IsDep ds → length (dep_bytes ds) ≡ length ds * 512
unfolding dep_bytes
length-dep_bytes [] a = refl
length-dep_bytes (d ∷ ds) a = omega (
  arith,
  a.0.0.room,
  a.0.1.room,
  length-append d.prst_name (d.reader_ctx ++ dep_bytes ds),
  length-append d.reader_ctx (dep_bytes ds),
  length-dep_bytes ds a.1,
)

deps_of-dep_bytes : (ds : List PrstDep) → All IsDep ds → deps_of (length ds) (dep_bytes ds) ≡ ds
unfolding deps_of dep_bytes
deps_of-dep_bytes [] a = refl
deps_of-dep_bytes (d ∷ ds) a =
    ap₂ ◌∷◌ (ap₂ (λ n c. record { prst_name = n; reader_ctx = c }) name ctx)
      (ap (deps_of (length ds)) rest ∙ deps_of-dep_bytes ds a.1)
  where
    l : List ℕ
    l = d.prst_name ++ (d.reader_ctx ++ dep_bytes ds)

    behind : drop 256 l ≡ d.reader_ctx ++ dep_bytes ds
    behind = drop-append 256 d.prst_name _ a.0.0.room

    name : take 256 l ≡ d.prst_name
    name = take-append 256 d.prst_name _ a.0.0.room

    ctx : take 256 (drop 256 l) ≡ d.reader_ctx
    ctx = ap (take 256) behind ∙ take-append 256 d.reader_ctx _ a.0.1.room

    rest : drop 512 l ≡ dep_bytes ds
    rest =
        sym (drop-drop 256 256 l)
        ∙ ap (drop 256) behind
        ∙ drop-append 256 d.reader_ctx (dep_bytes ds) a.0.1.room

abbrev room_for : ℕ → ℕ
room_for n = if ltb cap_default n then n else cap_default

-- The tests of `prst_graph_deserialize` passed.
deserialize_loads :
    (h : Heap) (old : PrstGraph) (buf r : List ℕ) (n : ℕ)
    → 4 + n * 512 ≤ length buf
    → word_at 4 buf ≡ n
    → n ≤ 65536
    → drop 4 buf ≡ r
    → deserialize h old buf ≡ load (init_cap h (room_for n)) n r
unfolding deserialize
deserialize_loads h old buf r n l e m d =
    rw (le→ltb_false (length buf) 4 (omega arith)) (
      rw (e, d) (rw (le→ltb_false 65536 n m) (rw (le→ltb_false (length buf) (4 + n * 512) l) refl)))

-- The array that the load needs is there.
load_into :
    (h : Heap) (n : ℕ) (r : List ℕ)
    → n ≤ 65536
    → ((k : ℕ) → h.grants k ≡ true)
    → load (init_cap h (room_for n)) n r ≡ (record { deps = deps_of n r; cap = room_for n }, true)
unfolding load init_cap
load_into h n r m all = ground (arith, all (room_for n))

deserialize_written :
    (h : Heap) (g old : PrstGraph)
    → ((n : ℕ) → h.grants n ≡ true)
    → IsValid g
    → deserialize h old (le_bytes 4 (count g) ++ dep_bytes g.deps)
      ≡ (record { deps = g.deps; cap = room_for (count g) }, true)
deserialize_written h g old all w =
    deserialize_loads h old _ (dep_bytes g.deps) (count g)
      (omega (arith, length-dep_bytes g.deps w.all_deps))
      (word_at_4 (count g) (dep_bytes g.deps) (omega (arith, w.room, w.bounded)))
      (omega (arith, w.room, w.bounded)) refl
    ∙ load_into h (count g) (dep_bytes g.deps) (omega (arith, w.room, w.bounded)) all
    ∙ ap (λ ds. (record { deps = ds; cap = room_for (count g) }, true))
        (deps_of-dep_bytes g.deps w.all_deps)

-- A valid graph that `prst_graph_serialize` wrote is accepted by `prst_graph_deserialize` and gives
-- exactly its dependencies, in their order and with every byte of their buffers, and a valid graph.
-- The heap must grant every array.
pub deserialize-serialize_graph :
    (h : Heap) (g old : PrstGraph) (bytes : List ℕ)
    → ((n : ℕ) → h.grants n ≡ true)
    → IsValid g
    → serialize true g ≡ some bytes
    → ((deserialize h old bytes).0.deps ≡ g.deps)
      × ((deserialize h old bytes).1 ≡ true)
      × IsValid (deserialize h old bytes).0
unfolding serialize
deserialize-serialize_graph h g old bytes all w e = subst Accepted (some-injective _ _ e) (
    rw (deserialize_written h g old all w) (
      refl,
      refl,
      record {
        room = ground arith;
        bounded = ground (arith, w.room, w.bounded);
        all_deps = w.all_deps;
        single = w.single;
      },
    ))
  where
    Accepted : List ℕ → Type 0
    Accepted b =
        ((deserialize h old b).0.deps ≡ g.deps)
        × ((deserialize h old b).1 ≡ true)
        × IsValid (deserialize h old b).0

-- The graph that is read back has the checksum of the graph that was written. The conditions are
-- those of the round trip.
pub checksum-deserialize_graph :
    (h : Heap) (g old : PrstGraph) (bytes : List ℕ)
    → ((n : ℕ) → h.grants n ≡ true)
    → IsValid g
    → serialize true g ≡ some bytes
    → checksum (deserialize h old bytes).0 ≡ checksum g
unfolding checksum
checksum-deserialize_graph h g old bytes all w e =
    ap (checksum_from fnv_offset) (deserialize-serialize_graph h g old bytes all w e).0

-- A checksum is a word of 32 bits.
checksum_from_bound : (h : ℕ) (ds : List PrstDep) → h < 2 ^ 32 → checksum_from h ds < 2 ^ 32
unfolding checksum_from
checksum_from_bound h [] b = b
checksum_from_bound h (d ∷ ds) b =
    checksum_from_bound
      (bit_xor (fnv_text (bit_xor (fnv_text h (c_string d.prst_name)) 0x1f) (c_string d.reader_ctx))
        0x1e)
      ds
      (bit_xor_bound 32 _ 0x1e
        (fnv_text_bound _ (c_string d.reader_ctx)
          (bit_xor_bound 32 _ 0x1f (fnv_text_bound h (c_string d.prst_name) b) (omega arith)))
        (omega arith))

pub checksum_bound : (g : PrstGraph) → checksum g < 2 ^ 32
unfolding checksum
checksum_bound g = checksum_from_bound fnv_offset g.deps (omega arith)

-- The buffer is refused, or what is written does not depend on it and has the length it should.
pub serialize_cases :
    (granted : Bool) (g : PrstGraph)
    → All IsDep g.deps
    → (serialize granted g ≡ none)
      ⊎ ((bytes : List ℕ) × (serialize granted g ≡ some bytes)
          × (serialize true g ≡ some bytes)
          × (length bytes ≡ 4 + count g * 512))
unfolding serialize
serialize_cases true g a = inr (_, refl, refl, omega (arith, length-dep_bytes g.deps a))
serialize_cases false g a = inl refl

-- A granted buffer is written.
pub serialize_granted : (g : PrstGraph) → (bytes : List ℕ) × (serialize true g ≡ some bytes)
unfolding serialize
serialize_granted g = (_, refl)
