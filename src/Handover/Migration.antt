-- ===== src/Handover/Migration.antt =====
-- Step 2 of src/handover.c: the state of Runtime A arrives in Runtime B.
use fluxa_lang.Base.{
  ℕ, ◌+◌, ◌*◌, ◌^◌, ◌≤◌, ◌<◌, ◌≡◌, refl, ◌∙◌, sym, ap, ap₂, List, ◌++◌, map, some, Bool, true,
  false, arith, inl, inr, length, lt→ltb, le→ltb_false, length-append, All, take-append,
  drop-append, take_all, of_le-le_bytes_4,
}
use fluxa_lang.Handover.Loading.{snapshot_of_parts}
use mathlib.Core.Option.{some-injective}
use fluxa_lang.Prst.Pool
use fluxa_lang.Prst.Pool.{PrstPool, Heap}
use fluxa_lang.Prst.Pool.Invariant.{IsValid}
use fluxa_lang.Prst.Checksum.{pool_checksum, pool_checksum_bound}
use fluxa_lang.Prst.Wire
use fluxa_lang.Prst.Wire.{accepted, Outcome, pool_size}
use fluxa_lang.Prst.Wire.Pools
use fluxa_lang.Prst.Wire.Entries.{EntryFits}
use fluxa_lang.Prst.Wire.Pools.{variable, moved}
use fluxa_lang.Prst.Wire.Integrity
use fluxa_lang.Prst.Wire.Sizes.{serialize_cases, length-serialize}
use fluxa_lang.Prst.Graph
use fluxa_lang.Prst.Graph.{PrstGraph}
use fluxa_lang.Prst.Graph.Invariant
use fluxa_lang.Prst.Graph.Wire.{checksum_bound}
use fluxa_lang.Prst.Graph.Wire as GraphWire
use fluxa_lang.Handover.Context.{
  HandoverResult, ok, Runtime, handover_magic, handover_version, check_version, returns,
}
use fluxa_lang.Handover.Snapshot.{
  Grants, taken, Header, header_of, header_bytes, snapshot_of, check_pool, check_graph, load_pool,
  load_graph, load_rest, load_version, load_snapshot,
}

-- A header that is written is read back.
abbrev header_for : Runtime → ℕ → ℕ → Header
header_for a x y = record {
  magic = handover_magic;
  version = handover_version;
  pool_checksum = pool_checksum a.prst_pool;
  graph_checksum = Graph.checksum a.prst_graph;
  pool_size = x;
  graph_size = y;
}

header_of-header_bytes :
    (a : Runtime) (x y : ℕ) (rest : List ℕ)
    → x < 2 ^ 32
    → y < 2 ^ 32
    → header_of (header_bytes a x y ++ rest) ≡ header_for a x y
header_of-header_bytes a x y rest hx hy = λ i. record {
  magic = handover_magic;
  version = handover_version;
  pool_checksum = of_le-le_bytes_4 (pool_checksum a.prst_pool) (pool_checksum_bound a.prst_pool) i;
  graph_checksum = of_le-le_bytes_4 (Graph.checksum a.prst_graph) (checksum_bound a.prst_graph) i;
  pool_size = of_le-le_bytes_4 x hx i;
  graph_size = of_le-le_bytes_4 y hy i;
}

load_snapshot_written :
    (h : Heap) (a b : Runtime) (pb gb : List ℕ)
    → length pb < 2 ^ 32
    → length gb < 2 ^ 32
    → load_snapshot h (header_bytes a (length pb) (length gb) ++ (pb ++ gb)) b
      ≡ load_rest h
          (header_for a (length pb) (length gb))
          (pb ++ gb)
          b
          (load_pool h (header_for a (length pb) (length gb)) (pb ++ gb) b.prst_pool)
unfolding load_snapshot load_version check_version
load_snapshot_written h a b pb gb hp hg =
    ap (λ hdr. load_rest h hdr (pb ++ gb) b (load_pool h hdr (pb ++ gb) b.prst_pool))
      (header_of-header_bytes a (length pb) (length gb) (pb ++ gb) hp hg)

load_pool_written :
    (h : Heap) (a : Runtime) (p : PrstPool) (pb gb : List ℕ)
    → 0 < length pb
    → (Wire.deserialize h p pb).1 ≡ accepted
    → pool_checksum (Wire.deserialize h p pb).0 ≡ pool_checksum a.prst_pool
    → load_pool h (header_for a (length pb) (length gb)) (pb ++ gb) p
      ≡ returns (Wire.deserialize h p pb).0 ok
unfolding load_pool
load_pool_written h a p pb gb z e c =
    rw
      (
        lt→ltb 0 (length pb) z,
        le→ltb_false (length (pb ++ gb)) (length pb) (omega (arith, length-append pb gb)),
        take-append (length pb) pb gb refl,
      )
      (checked (Wire.deserialize h p pb) e c)
  where
    checked :
        (o : PrstPool × Outcome)
        → o.1 ≡ accepted
        → pool_checksum o.0 ≡ pool_checksum a.prst_pool
        → check_pool (header_for a (length pb) (length gb)) o ≡ returns o.0 ok
    checked (q, accepted) e c = unfold check_pool in ground (arith, c)
    checked (q, Outcome.refused) e c = absurd (cc)
    checked (q, Outcome.out_of_fuel) e c = absurd (cc)

load_graph_written :
    (h : Heap) (a : Runtime) (g : PrstGraph) (pb gb : List ℕ)
    → 0 < length gb
    → (Graph.deserialize h g gb).1 ≡ true
    → Graph.checksum (Graph.deserialize h g gb).0 ≡ Graph.checksum a.prst_graph
    → load_graph h (header_for a (length pb) (length gb)) gb g ≡ ((Graph.deserialize h g gb).0, ok)
unfolding load_graph
load_graph_written h a g pb gb z e c =
    rw (lt→ltb 0 (length gb) z, take_all (length gb) gb (omega arith))
      (checked (Graph.deserialize h g gb) e c)
  where
    checked :
        (o : PrstGraph × Bool)
        → o.1 ≡ true
        → Graph.checksum o.0 ≡ Graph.checksum a.prst_graph
        → check_graph (header_for a (length pb) (length gb)) o ≡ (o.0, ok)
    checked (q, true) e c = unfold check_graph in ground (arith, c)
    checked (q, false) e c = absurd (cc)

-- The state of A in B: the variables as the wire carries them, and the dependencies.
pub record Migrated (a b : Runtime) : Type 0 where
  pub variables : map variable b.prst_pool.entries ≡ map moved a.prst_pool.entries
  pub dependencies : b.prst_graph.deps ≡ a.prst_graph.deps

-- A runtime whose state a snapshot can carry.
pub record CanMigrate (a : Runtime) : Type 0 where
  pub pool_valid : IsValid a.prst_pool
  pub values_fit : All EntryFits a.prst_pool.entries
  pub few_variables : Pool.count a.prst_pool ≤ 65536
  pub small : pool_size a.prst_pool < 2 ^ 32
  pub graph_valid : Graph.Invariant.IsValid a.prst_graph

load_rest_written :
    (h : Heap) (a b : Runtime) (pb gb : List ℕ) (q : PrstPool) (g : PrstGraph)
    → load_pool h (header_for a (length pb) (length gb)) (pb ++ gb) b.prst_pool ≡ returns q ok
    → load_graph h (header_for a (length pb) (length gb)) gb b.prst_graph ≡ (g, ok)
    → load_rest h
        (header_for a (length pb) (length gb))
        (pb ++ gb)
        b
        (load_pool h (header_for a (length pb) (length gb)) (pb ++ gb) b.prst_pool)
      ≡ returns (record b { prst_pool = q; prst_graph = g }) ok
unfolding load_rest
load_rest_written h a b pb gb q g e f =
    rw (e, load_rest)
      (rw (drop-append (length pb) pb gb refl, le→ltb_false (length gb) (length gb) (omega arith))
        (ap
          (λ (o : PrstGraph × HandoverResult).
            returns (record b { prst_pool = q; prst_graph = o.0 }) o.1)
          f))

-- What is in a snapshot of Runtime A.
snapshot_of_taken :
    (g : Grants) (a : Runtime) (s : List ℕ)
    → All Graph.Invariant.IsDep a.prst_graph.deps
    → snapshot_of g a ≡ taken s
    → (pb : List ℕ) × (gb : List ℕ) × (Wire.serialize true a.prst_pool ≡ some pb)
      × (Graph.serialize true a.prst_graph ≡ some gb)
      × (0 < length pb)
      × (length gb ≡ 4 + Graph.count a.prst_graph * 512)
      × (header_bytes a (length pb) (length gb) ++ (pb ++ gb) ≡ s)
snapshot_of_taken g a s d e =
    let (pb, gb, ep, eg, parts) = snapshot_of_parts g a s e in
    elim (serialize_cases g.pool_buffer a.prst_pool) [
      | inl no_pool ↦ absurd (cc)
      | inr (x, ex, tx, zx) ↦ elim (GraphWire.serialize_cases g.graph_buffer a.prst_graph d) [
        | inl no_graph ↦ absurd (cc)
        | inr (y, ey, ty, zy) ↦ (
          x,
          y,
          tx,
          ty,
          zx,
          zy,
          ap₂ (λ u v. header_bytes a (length u) (length v) ++ (u ++ v))
                (some-injective x pb (sym ex ∙ ep)) (some-injective y gb (sym ey ∙ eg))
              ∙ parts,
        )
      ]
    ]

-- A snapshot of a runtime whose state it can carry is loaded, with the result OK, and the state
-- arrives: the variables in their order, with values as the wire carries them, and the dependencies.
-- The heap must grant every array of the two tables.
pub load_snapshot-Migrated :
    (h : Heap) (g : Grants) (a b : Runtime) (s : List ℕ)
    → ((n : ℕ) → h.grants n ≡ true)
    → CanMigrate a
    → snapshot_of g a ≡ taken s
    → (b' : Runtime) × (load_snapshot h s b ≡ returns b' ok) × Migrated a b'
load_snapshot-Migrated h g a b s all can e =
    let (pb, gb, tp, tg, zp, zg, parts) = snapshot_of_taken g a s can.graph_valid.all_deps e in
    let small_pb : length pb < 2 ^ 32 =
      omega (arith, length-serialize a.prst_pool pb can.pool_valid tp, can.small) in
    let small_gb : length gb < 2 ^ 32 =
      omega (arith, zg, can.graph_valid.room, can.graph_valid.bounded) in
    let (vars, acc) =
      Pools.deserialize-serialize h a.prst_pool b.prst_pool pb all can.pool_valid can.values_fit
        can.few_variables tp in
    let (deps, took, _) =
      GraphWire.deserialize-serialize_graph h a.prst_graph b.prst_graph gb all can.graph_valid tg in
    (
      record b {
        prst_pool = (Wire.deserialize h b.prst_pool pb).0;
        prst_graph = (Graph.deserialize h b.prst_graph gb).0;
      },
      ap (λ t. load_snapshot h t b) (sym parts)
          ∙ load_snapshot_written h a b pb gb small_pb small_gb
          ∙ load_rest_written h a b pb gb _ _
              (load_pool_written h a b.prst_pool pb gb zp acc (
                Integrity.checksum-deserialize h a.prst_pool b.prst_pool pb all can.pool_valid
                  can.values_fit can.few_variables tp))
              (load_graph_written h a b.prst_graph pb gb (omega (arith, zg)) took (
                GraphWire.checksum-deserialize_graph h a.prst_graph b.prst_graph gb all
                  can.graph_valid tg)),
      record { variables = vars; dependencies = deps },
    )
