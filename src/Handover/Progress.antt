-- ===== src/Handover/Progress.antt =====
-- `handover_execute` of src/handover.c gets through when nothing fails.
use fluxa_lang.Base.{
  ℕ, ◌+◌, ◌≤◌, ◌<◌, ◌≡◌, refl, ◌∙◌, sym, ap, subst, List, ◌++◌, Option, some, true, false, codes,
  if◌then◌else◌, length, arith, le→ltb_false, dec_lt,
}
use fluxa_lang.Prst.Wire.Sizes.{serialize_granted}
use fluxa_lang.Prst.Wire
use fluxa_lang.Prst.Graph
use fluxa_lang.Prst.Graph.Wire as GraphWire
use fluxa_lang.Handover.Context.{
  HandoverCtx, HandoverMode, standby, migration, dry_run, ok, Runtime, zero_runtime, ctx_init, Run,
  returns, ◌then◌,
}
use fluxa_lang.Handover.Snapshot.{
  Grants, Taken, taken, header_size, header_bytes, snapshot_of, serialize_state, keep_snapshot,
  deserialize_state, deserialize_from, load_b, put_b, load_snapshot,
}
use fluxa_lang.Handover.Steps.{
  World, Look, Wait, reached, timed_out, waiting, or_fail, given, rehearsal, run_failed,
  is_safe_point, is_past, step1_standby, step2_migrate, step3_dry_run, step4_switchover,
  step5_cleanup, after_run, resolved, rehearse, execute,
}
use fluxa_lang.Handover.Migration.{Migrated, CanMigrate, load_snapshot-Migrated}
use fluxa_lang.Handover.Switchover.{Ticks, Ended, wait_ends}

-- All allocations of the protocol are granted.
pub record AllGranted (g : Grants) : Type 0 where
  pub pool_buffer : g.pool_buffer ≡ true
  pub graph_buffer : g.graph_buffer ≡ true
  pub snapshot : g.snapshot ≡ true
  pub runtime : g.runtime ≡ true

-- Runtime A is seen at a safe point before the clock is seen at the deadline.
pub record GetsSafe (look : ℕ → Look) (ms_now : ℕ → Option ℕ) (deadline : ℕ) : Type 0 where
  pub at : ℕ
  pub safe : is_safe_point (look at) ≡ true
  pub in_time : (i : ℕ) → i < at → is_past (ms_now (i + 1)) deadline ≡ false

reached_wait :
    (look : ℕ → Look) (ms_now : ℕ → Option ℕ) (deadline : ℕ) (r : Wait)
    → GetsSafe look ms_now deadline
    → Ended look ms_now deadline 0 r
    → (l : Look) × (r ≡ reached l)
reached_wait look ms_now deadline (reached l) g e = (l, refl)
reached_wait look ms_now deadline timed_out g (j, m, unsafe, past, h) =
    absurd (elim (dec_lt j g.at) [
      | yes q ↦ cc (sym past ∙ g.in_time j q)
      | no q ↦ elim (dec_lt g.at j) [
        | yes k ↦ cc (sym g.safe ∙ (h g.at (omega arith) k).0)
        | no k ↦ cc (sym g.safe ∙ ap (λ i. is_safe_point (look i)) (same q k) ∙ unsafe)
      ]
    ])
  where
    same : ¬ (j < g.at) → ¬ (g.at < j) → g.at ≡ j
    same q k = omega arith
reached_wait look ms_now deadline waiting g e = absurd e

pub snapshot_taken :
    (g : Grants) (a : Runtime)
    → AllGranted g
    → CanMigrate a
    → (s : List ℕ) × (snapshot_of g a ≡ taken s) × (header_size ≤ length s)
unfolding snapshot_of
snapshot_taken g a all can =
    let (pb, tp) = serialize_granted a.prst_pool in
    let (gb, tg) = GraphWire.serialize_granted a.prst_graph in
    let ep : Wire.serialize g.pool_buffer a.prst_pool ≡ some pb =
      ap (λ x. Wire.serialize x a.prst_pool) all.pool_buffer ∙ tp in
    let eg : Graph.serialize g.graph_buffer a.prst_graph ≡ some gb =
      ap (λ x. Graph.serialize x a.prst_graph) all.graph_buffer ∙ tg in
    (
      header_bytes a (length pb) (length gb) ++ (pb ++ gb),
      rw (ep, snapshot_of) (rw (eg, snapshot_of) (rw all.snapshot refl)),
      omega arith,
    )

module _ {Program : Type 0} where
  -- A call that returned OK.
  abbrev Fine : (HandoverCtx Program → Type 0) → Run (HandoverCtx Program) → Type 0
  Fine P m = (c : HandoverCtx Program) × (m ≡ returns c ok) × P c

  then-Fine :
      (P Q : HandoverCtx Program → Type 0) (m : Run (HandoverCtx Program))
      (f : HandoverCtx Program → Run (HandoverCtx Program))
      → Fine P m
      → ((c : HandoverCtx Program) → P c → Fine Q (f c))
      → Fine Q (m then f)
  then-Fine P Q m f (c, e, k) h = let (c', e', k') = h c k in (c', ap (λ x. x then f) e ∙ e', k')

  -- What step 1 leaves, and then step 2.
  record First (a : Runtime) (p : Program) (c : HandoverCtx Program) : Type 0 where
    same_a : c.rt_a ≡ a
    b : c.rt_b ≡ some zero_runtime
    program : c.program_b ≡ some p
    timeout : c.safe_point_timeout_ms ≡ 5000

  record Second (a : Runtime) (p : Program) (c : HandoverCtx Program) : Type 0 where
    same_a : c.rt_a ≡ a
    b : (b : Runtime) × (c.rt_b ≡ some b) × Migrated a b
    program : c.program_b ≡ some p
    timeout : c.safe_point_timeout_ms ≡ 5000

  record Third (c : HandoverCtx Program) : Type 0 where
    b : (b : Runtime) × (c.rt_b ≡ some b)
    timeout : c.safe_point_timeout_ms ≡ 5000

  module _ (w : World Program) (a : Runtime) (p : Program) where
    step1-Fine :
        (mode : HandoverMode) (source : Program) (slots : ℕ)
        → w.resolver_run a.config.scope_cap source ≡ (some slots, p)
        → w.grants.runtime ≡ true
        → Fine (First a p) (step1_standby w (ctx_init a mode) (some source))
    unfolding step1_standby ctx_init
    step1-Fine mode source slots e g =
        subst (λ r. Fine (First a p) (resolved w (record (ctx_init a mode) { state = standby }) r))
          (sym e)
          (rw g (_, refl, record { same_a = refl; b = refl; program = refl; timeout = refl }))

    step2-Fine :
        (c : HandoverCtx Program) (s : List ℕ) (b : Runtime)
        → snapshot_of w.grants a ≡ taken s
        → header_size ≤ length s
        → load_snapshot w.heap s zero_runtime ≡ returns b ok
        → Migrated a b
        → First a p c
        → Fine (Second a p) (step2_migrate w c)
    unfolding step2_migrate serialize_state keep_snapshot deserialize_state deserialize_from load_b
        put_b
    step2-Fine c s b e long l m k =
        subst (λ x. Fine (Second a p) (run (snapshot_of w.grants x))) (sym k.same_a)
          (subst (λ t. Fine (Second a p) (run t)) (sym e)
            (rw (le→ltb_false (length s) header_size long, k.b)
              (rw l (
                _,
                refl,
                record {
                  same_a = k.same_a;
                  b = (b, refl, m);
                  program = k.program;
                  timeout = k.timeout;
                },
              ))))
      where
        run : Taken → Run (HandoverCtx Program)
        run t =
            or_fail (codes "serialize") (given (keep_snapshot (record c { state = migration }) t))
            then λ c'. or_fail (codes "deserialize") (deserialize_state w.heap c')

    step3-Fine :
        (c : HandoverCtx Program)
        → ((b : Runtime)
            → Migrated a b
            → run_failed (w.runtime_exec_with_rt (rehearsal a.config b) p) ≡ false)
        → Second a p c
        → Fine Third (step3_dry_run w c)
    unfolding step3_dry_run
    step3-Fine c runs k =
        let (b, eb, m) = k.b in
        subst (λ o. Fine Third (rehearse w c' o c.program_b)) (sym eb)
          (subst (λ o. Fine Third (rehearse w c' (some b) o)) (sym k.program)
            (subst
              (λ (x : Runtime).
                Fine Third (after_run c' (w.runtime_exec_with_rt (rehearsal x.config b) p)))
              (sym k.same_a) (ran (w.runtime_exec_with_rt (rehearsal a.config b) p) (runs b m))))
      where
        c' : HandoverCtx Program
        c' = record c { state = dry_run }

        ran : (o : Runtime × ℕ) → run_failed o ≡ false → Fine Third (after_run c' o)
        ran (b, r) fine =
            unfold after_run in rw fine (_, refl, record { b = (_, refl); timeout = k.timeout })

    step4-Fine :
        (c : HandoverCtx Program) (clock : Ticks w.ms_now)
        → GetsSafe w.look w.ms_now (clock.start + 5000)
        → Third c
        → Fine (λ c'. Unit {0}) (step4_switchover w c)
    unfolding step4_switchover
    step4-Fine c clock safe k =
        let (b, eb) = k.b in
        let (l, el) =
          reached_wait w.look w.ms_now (clock.start + 5000) _ safe
            (wait_ends w.look w.ms_now 5000 clock) in
        rw (clock.first) (rw (k.timeout) (rw el (rw eb (_, refl, tt))))

-- A handover of a program that the resolver accepts and that runs without an error, from every
-- runtime that has the state of A, is committed if the allocations are granted and A gets to a safe
-- point in time. The state of A must be one that a snapshot can carry, and the clock must advance.
pub execute_commits :
    {Program : Type 0} (w : World Program) (a : Runtime) (mode : HandoverMode) (source p : Program)
    (slots : ℕ) (clock : Ticks w.ms_now)
    → ((n : ℕ) → w.heap.grants n ≡ true)
    → AllGranted w.grants
    → CanMigrate a
    → w.resolver_run a.config.scope_cap source ≡ (some slots, p)
    → ((b : Runtime)
        → Migrated a b
        → run_failed (w.runtime_exec_with_rt (rehearsal a.config b) p) ≡ false)
    → GetsSafe w.look w.ms_now (clock.start + 5000)
    → (c : HandoverCtx Program) × (execute w (ctx_init a mode) (some source) ≡ returns c ok)
unfolding execute
execute_commits {Program} w a mode source p slots clock all granted can e runs safe =
    let (s, es, long) = snapshot_taken w.grants a granted can in
    let (b, l, m) = load_snapshot-Migrated w.heap w.grants a zero_runtime s all can es in
    let (c, r, _) =
      then-Fine (λ c'. Unit {0}) (λ c'. Unit {0}) _ (λ c'. step5_cleanup c')
        (then-Fine Third (λ c'. Unit {0}) _ (step4_switchover w)
          (then-Fine (Second a p) Third _ (step3_dry_run w)
            (then-Fine (First a p) (Second a p) _ (step2_migrate w)
              (step1-Fine w a p mode source slots e granted.runtime)
              (λ c'. step2-Fine w a p c' s b es long l m))
            (λ c'. step3-Fine w a p c' runs))
          (λ c'. step4-Fine w a p c' clock safe))
        (λ c' k. unfold step5_cleanup in (_, refl, tt)) in
    (c, r)
