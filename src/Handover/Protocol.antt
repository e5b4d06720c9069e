-- ===== src/Handover/Protocol.antt =====
-- What `handover_execute` of src/handover.c promises.
use fluxa_lang.Base.{
  ℕ, ◌≡◌, refl, sym, subst, List, Option, some, true, false, inl, inr, Bool-cases, codes, length,
  ltb,
}
use fluxa_lang.Prst.Pool.{Heap}
use fluxa_lang.Handover.Context.{
  HandoverCtx, HandoverMode, HandoverResult, migration, ok, Runtime, zero_runtime, ctx_init, Run,
  returns, faults, out_of_fuel,
}
use fluxa_lang.Handover.Snapshot.{
  Taken, taken, not_serialized, not_allocated, keep_snapshot, deserialize_from, header_size,
  snapshot_of, serialize_state, deserialize_state, load_b, put_b, load_snapshot,
}
use fluxa_lang.Handover.Steps.{World, or_fail, given, step2_migrate, execute}
use fluxa_lang.Handover.Loading.{Lands}
use fluxa_lang.Handover.Migration.{Migrated, CanMigrate, load_snapshot-Migrated}
use fluxa_lang.Handover.Atomicity.{execute-Good}
use fluxa_lang.Handover.Outcomes.{
  HasClock, RolledBack, Held, Good, then-Good, fail-RolledBack, Standing, Loaded, Committed,
  NewProgram, unfreed,
}

module _ {Program : Type 0} where
  -- A call before its failure is handled.
  abbrev Weak : Runtime → (HandoverCtx Program → Type 0) → Run (HandoverCtx Program) → Type 0
  Weak a P (returns c ok) = P c
  Weak a P (returns c r) = Held a c × (c.blocks_freed ≡ false)
  Weak a P faults = ⊥
  Weak a P out_of_fuel = ⊥

  or_fail-Good :
      (a : Runtime) (P : HandoverCtx Program → Type 0) (detail : List ℕ)
      (m : Run (HandoverCtx Program))
      → Weak a P m
      → Good a P (or_fail detail m)
  or_fail-Good a P detail (returns c ok) k = k
  or_fail-Good a P detail (returns c r) k = fail-RolledBack a c r detail k.0 (unfreed c r k.1)
  or_fail-Good a P detail faults k = k
  or_fail-Good a P detail out_of_fuel k = k

  module _ (w : World Program) (a : Runtime) (IsNew : Program → Type 0)
      (IsLoaded : Runtime → Type 0) where
    -- The context once the snapshot is taken.
    record Snapped (c : HandoverCtx Program) : Type 0 where
      standing : Standing a IsNew 5000 c
      snap : (s : List ℕ) × (c.snapshot ≡ some s) × (snapshot_of w.grants a ≡ taken s)

    serialize-Weak :
        (c : HandoverCtx Program)
        → Standing a IsNew 5000 c
        → Weak a Snapped (given (serialize_state w.grants c))
    unfolding serialize_state
    serialize-Weak c st =
        subst (λ x. Weak a Snapped (given (keep_snapshot c (snapshot_of w.grants x))))
          (sym st.held.same_a) (kept (snapshot_of w.grants a) refl)
      where
        kept : (t : Taken) → snapshot_of w.grants a ≡ t → Weak a Snapped (given (keep_snapshot c t))
        kept (taken s) e =
            unfold keep_snapshot in
            record {
              standing = record {
                held = record { same_a = st.held.same_a; no_pool = st.held.no_pool };
                fresh_b = st.fresh_b;
                no_free = st.no_free;
                has_program = st.has_program;
                same_timeout = st.same_timeout;
              };
              snap = (s, refl, e);
            }
        kept not_serialized e = unfold keep_snapshot in (st.held, st.no_free)
        kept not_allocated e = unfold keep_snapshot in (st.held, st.no_free)

    deserialize-Weak :
        ((s : List ℕ)
          → snapshot_of w.grants a ≡ taken s
          → Lands IsLoaded (load_snapshot w.heap s zero_runtime))
        → (c : HandoverCtx Program) → Snapped c
        → Weak a (Loaded a IsNew 5000 IsLoaded) (deserialize_state w.heap c)
    unfolding deserialize_state put_b
    deserialize-Weak load c sn =
        let (s, es, et) = sn.snap in
        subst (λ o. Weak a (Loaded a IsNew 5000 IsLoaded) (deserialize_from w.heap c o)) (sym es)
          (from s et)
      where
        put :
            (m : Run Runtime) → Lands IsLoaded m → Weak a (Loaded a IsNew 5000 IsLoaded) (put_b c m)
        put (returns b ok) k = record {
          held = record { same_a = sn.standing.held.same_a; no_pool = sn.standing.held.no_pool };
          has_b = (b, refl, k);
          no_free = sn.standing.no_free;
          has_program = sn.standing.has_program;
          same_timeout = sn.standing.same_timeout;
        }
        put (returns b r) k =
            unfold put_b in
            (
              record { same_a = sn.standing.held.same_a; no_pool = sn.standing.held.no_pool },
              sn.standing.no_free,
            )
        put faults k = k
        put out_of_fuel k = k

        from :
            (s : List ℕ)
            → snapshot_of w.grants a ≡ taken s
            → Weak a (Loaded a IsNew 5000 IsLoaded) (deserialize_from w.heap c (some s))
        from s et =
            unfold deserialize_from in
            elim (Bool-cases (ltb (length s) header_size)) [
              | inl short ↦ rw short (sn.standing.held, sn.standing.no_free)
              | inr long ↦
                  rw (long, sn.standing.fresh_b)
                    (unfold load_b in put (load_snapshot w.heap s zero_runtime) (load s et))
            ]

    step2-Good :
        ((s : List ℕ)
          → snapshot_of w.grants a ≡ taken s
          → Lands IsLoaded (load_snapshot w.heap s zero_runtime))
        → (c : HandoverCtx Program) → Standing a IsNew 5000 c
        → Good a (Loaded a IsNew 5000 IsLoaded) (step2_migrate w c)
    unfolding step2_migrate
    step2-Good load c st =
        then-Good a Snapped (Loaded a IsNew 5000 IsLoaded)
          (or_fail (codes "serialize")
            (given (serialize_state w.grants (record c { state = migration }))))
          (λ c'. or_fail (codes "deserialize") (deserialize_state w.heap c'))
          (or_fail-Good a Snapped (codes "serialize")
            (given (serialize_state w.grants (record c { state = migration })))
            (serialize-Weak (record c { state = migration })
              (record {
                held = record { same_a = st.held.same_a; no_pool = st.held.no_pool };
                fresh_b = st.fresh_b;
                no_free = st.no_free;
                has_program = st.has_program;
                same_timeout = st.same_timeout;
              })))
          (λ c' sn.
            or_fail-Good a (Loaded a IsNew 5000 IsLoaded) (codes "deserialize")
              (deserialize_state w.heap c') (deserialize-Weak load c' sn))

  -- How a handover ends.
  abbrev pub Ends :
      World Program
      → Runtime
      → Option Program
      → (Runtime → Type 0)
      → HandoverResult
      → HandoverCtx Program
      → Type 0
  Ends w a source IsLoaded ok c = Committed w a (NewProgram w a source) IsLoaded c
  Ends w a source IsLoaded r c = RolledBack a r c

load_Lands :
    (h : Heap) (a : Runtime) (s : List ℕ)
    → (b' : Runtime) × (load_snapshot h s zero_runtime ≡ returns b' ok) × Migrated a b'
    → Lands (Migrated a) (load_snapshot h s zero_runtime)
load_Lands h a s (b', e, m) = rw e m

-- A handover that is committed hands over the state of Runtime A as the new program leaves it: the
-- pool is that of a run, without an error, of what the resolver made of the given program, from a
-- runtime with A's variables in their order, as the wire carries them, and A's dependencies, and its
-- resources are headstones. The state of A must be one that a snapshot can carry, the heap must grant
-- every array of the two tables, and the clock must be none or advance by the sleeps.
pub execute_migrates :
    {Program : Type 0} (w : World Program) (a : Runtime) (mode : HandoverMode)
    (program : Option Program) (c : HandoverCtx Program)
    → ((n : ℕ) → w.heap.grants n ≡ true)
    → CanMigrate a
    → HasClock w.ms_now
    → execute w (ctx_init a mode) program ≡ returns c ok
    → Committed w a (NewProgram w a program) (Migrated a) c
execute_migrates w a mode program c all can clock e =
    subst (Good a (Committed w a (NewProgram w a program) (Migrated a))) e (
      execute-Good w a program mode (Migrated a) clock (
        step2-Good w a (NewProgram w a program) (Migrated a) (λ s t.
          load_Lands w.heap a s
            (load_snapshot-Migrated w.heap w.grants a zero_runtime s all can t))))
