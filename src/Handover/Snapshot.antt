-- ===== src/Handover/Snapshot.antt =====
-- `handover_serialize_state` and `handover_deserialize_state` of src/handover.c.
use fluxa_lang.Base.{
  ℕ, List, [], ◌∷◌, ◌++◌, Option, none, some, Bool, true, false, ltb, ◌==◌, if◌then◌else◌, length,
  take, drop, le_bytes, word_at,
}
use fluxa_lang.Prst.Pool.{PrstPool, Heap, pool_init}
use fluxa_lang.Prst.Pool
use fluxa_lang.Prst.Checksum.{pool_checksum}
use fluxa_lang.Prst.Wire
use fluxa_lang.Prst.Wire.{Outcome, accepted, refused}
use fluxa_lang.Prst.Graph
use fluxa_lang.Prst.Graph.{PrstGraph}
use fluxa_lang.Handover.Context.{
  HandoverCtx, HandoverResult, ok, err_alloc, err_serialize, err_deserialize, err_checksum, Runtime,
  handover_magic, handover_version, check_version, Run, returns, faults, out_of_fuel,
}

-- Which allocations of the protocol the heap grants.
pub record Grants : Type 0 where
  pub pool_buffer : Bool
  pub graph_buffer : Bool
  pub snapshot : Bool
  pub runtime : Bool

-- `sizeof(HandoverSnapshotHeader)`
abbrev pub header_size : ℕ
header_size = 40

-- The nine words of `HandoverSnapshotHeader` and its padding.
abbrev pub header_bytes : Runtime → ℕ → ℕ → List ℕ
header_bytes a pool_sz graph_sz =
    le_bytes 4 handover_magic
    ++ (le_bytes 4 handover_version
        ++ (le_bytes 4 (pool_checksum a.prst_pool)
            ++ (le_bytes 4 (Graph.checksum a.prst_graph)
                ++ (le_bytes 4 pool_sz
                    ++ (le_bytes 4 graph_sz
                        ++ (le_bytes 4 (Pool.count a.prst_pool)
                            ++ (le_bytes 4 (Graph.count a.prst_graph)
                                ++ (le_bytes 4 a.cycle_count ++ (0 ∷ 0 ∷ 0 ∷ 0 ∷ [])))))))))

-- The fields of `HandoverSnapshotHeader` that are read back.
pub record Header : Type 0 where
  pub magic : ℕ
  pub version : ℕ
  pub pool_checksum : ℕ
  pub graph_checksum : ℕ
  pub pool_size : ℕ
  pub graph_size : ℕ

abbrev pub header_of : List ℕ → Header
header_of s = record {
  magic = word_at 4 s;
  version = word_at 4 (drop 4 s);
  pool_checksum = word_at 4 (drop 8 s);
  graph_checksum = word_at 4 (drop 12 s);
  pool_size = word_at 4 (drop 16 s);
  graph_size = word_at 4 (drop 20 s);
}

-- The snapshot that `handover_serialize_state` makes of a runtime, or what failed.
pub data Taken : Type 0 where
  taken : List ℕ → Taken
  not_serialized not_allocated : Taken

unfoldable pub snapshot_of : Grants → Runtime → Taken
snapshot_of g a = elim (Wire.serialize g.pool_buffer a.prst_pool) [
  | none ↦ not_serialized
  | some pool_buf ↦ elim (Graph.serialize g.graph_buffer a.prst_graph) [
    | none ↦ not_serialized
    | some graph_buf ↦
        if g.snapshot
        then taken (header_bytes a (length pool_buf) (length graph_buf) ++ (pool_buf ++ graph_buf))
        else not_allocated
  ]
]

-- The tests after the pool is read.
unfoldable pub check_pool : Header → PrstPool × Outcome → Run PrstPool
check_pool hdr (q, accepted) =
    if pool_checksum q == hdr.pool_checksum then returns q ok else returns q err_checksum
check_pool hdr (q, refused) = returns q err_deserialize
check_pool hdr (q, Outcome.out_of_fuel) = out_of_fuel

-- The pool part of `handover_deserialize_state`. The size in the header is not compared with that of
-- the snapshot; a size beyond its end is a fault, since the reader is told that so much is there.
unfoldable pub load_pool : Heap → Header → List ℕ → PrstPool → Run PrstPool
load_pool h hdr payload p =
    if ltb 0 hdr.pool_size
    then if ltb (length payload) hdr.pool_size
      then faults
      else check_pool hdr (Wire.deserialize h p (take hdr.pool_size payload))
    else returns (pool_init h) ok

-- The tests after the graph is read.
unfoldable pub check_graph : Header → PrstGraph × Bool → PrstGraph × HandoverResult
check_graph hdr (q, true) = (q, if Graph.checksum q == hdr.graph_checksum then ok else err_checksum)
check_graph hdr (q, false) = (q, err_deserialize)

-- The graph part.
unfoldable pub load_graph : Heap → Header → List ℕ → PrstGraph → PrstGraph × HandoverResult
load_graph h hdr payload g =
    if ltb 0 hdr.graph_size
    then check_graph hdr (Graph.deserialize h g (take hdr.graph_size payload))
    else (Graph.init h, ok)

-- The graph part, once the pool is loaded, with the same fault.
unfoldable pub load_rest : Heap → Header → List ℕ → Runtime → Run PrstPool → Run Runtime
unfolding load_graph check_graph
load_rest h hdr payload b (returns p ok) =
    let (g, r) = load_graph h hdr (drop hdr.pool_size payload) b.prst_graph in
    if ltb (length (drop hdr.pool_size payload)) hdr.graph_size
    then faults
    else returns (record b { prst_pool = p; prst_graph = g }) r
load_rest h hdr payload b (returns p r) = returns (record b { prst_pool = p }) r
load_rest h hdr payload b faults = faults
load_rest h hdr payload b out_of_fuel = out_of_fuel

-- `if (vr != HANDOVER_OK) return vr;`, and both parts of the snapshot.
unfoldable pub load_version : Heap → List ℕ → Runtime → HandoverResult → Run Runtime
load_version h s b ok =
    load_rest h (header_of s) (drop header_size s) b
      (load_pool h (header_of s) (drop header_size s) b.prst_pool)
load_version h s b r = returns b r

-- A snapshot of full size into a runtime.
unfoldable pub load_snapshot : Heap → List ℕ → Runtime → Run Runtime
load_snapshot h s b =
    if (header_of s).magic == handover_magic
    then load_version h s b (check_version (header_of s).version)
    else returns b err_deserialize

module _ {Program : Type 0} where
  -- The end of `handover_serialize_state`.
  unfoldable pub keep_snapshot : HandoverCtx Program → Taken → HandoverCtx Program × HandoverResult
  keep_snapshot c (taken s) = (record c { snapshot = some s }, ok)
  keep_snapshot c not_serialized = (c, err_serialize)
  keep_snapshot c not_allocated = (c, err_alloc)

  -- `handover_serialize_state`
  unfoldable pub serialize_state :
      Grants → HandoverCtx Program → HandoverCtx Program × HandoverResult
  serialize_state g c = keep_snapshot c (snapshot_of g c.rt_a)

  -- What the load leaves in the context.
  unfoldable pub put_b : HandoverCtx Program → Run Runtime → Run (HandoverCtx Program)
  put_b c (returns b r) = returns (record c { rt_b = some b }) r
  put_b c faults = faults
  put_b c out_of_fuel = out_of_fuel

  -- The load into Runtime B.
  unfoldable pub load_b :
      Heap → HandoverCtx Program → List ℕ → Option Runtime → Run (HandoverCtx Program)
  unfolding load_snapshot put_b
  load_b h c s none = faults
  load_b h c s (some b) = put_b c (load_snapshot h s b)

  -- `handover_deserialize_state`, with the snapshot of the context.
  unfoldable pub deserialize_from :
      Heap → HandoverCtx Program → Option (List ℕ) → Run (HandoverCtx Program)
  deserialize_from h c none = returns c err_deserialize
  deserialize_from h c (some s) =
      if ltb (length s) header_size then returns c err_deserialize else load_b h c s c.rt_b

  -- `handover_deserialize_state`
  unfoldable pub deserialize_state : Heap → HandoverCtx Program → Run (HandoverCtx Program)
  deserialize_state h c = deserialize_from h c c.snapshot
