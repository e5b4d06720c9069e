-- ===== src/Handover/Atomicity.antt =====
-- `handover_execute`: a handover commits as a whole or is rolled back as a whole.
use fluxa_lang.Base.{
  ℕ, ◌+◌, ◌≡◌, refl, ◌∙◌, sym, ap, subst, Option, none, some, false, inl, inr, Bool-cases,
}
use fluxa_lang.Handover.Context.{
  HandoverCtx, HandoverMode, dry_run, switchover, Runtime, ctx_init, err_alloc, err_resolve,
  err_dry_run, err_safe_point, err_null_program,
}
use fluxa_lang.Handover.Steps.{
  World, Look, Wait, reached, timed_out, waiting, rehearsal, run_failed, headstone_resources,
  is_safe_point, step1_standby, step2_migrate, step3_dry_run, after_run, allocate_b, resolved,
  waited, rehearse, step4_switchover, step5_cleanup, execute, wait_from, rounds,
}
use fluxa_lang.Handover.Switchover.{Ended, wait_ends}
use fluxa_lang.Handover.Outcomes.{
  HasClock, NewProgram, Held, Good, then-Good, fail-RolledBack, unfreed, Standing, Loaded,
  Rehearsed, Ready, Switched, Committed,
}

module _ {Program : Type 0} where
  module _ (w : World Program) (a : Runtime) (source : Option Program) where
    abbrev IsNew : Program → Type 0
    IsNew = NewProgram w a source

    step1-Good :
        (mode : HandoverMode) (program : Option Program)
        → source ≡ program
        → Good a (Standing a IsNew 5000) (step1_standby w (ctx_init a mode) program)
    unfolding step1_standby ctx_init
    step1-Good mode none eq =
        fail-RolledBack a _ err_null_program _ (record { same_a = refl; no_pool = refl })
          (λ z. absurd (cc))
    step1-Good mode (some q) eq =
        resolved-Good _ (record { same_a = refl; no_pool = refl }) refl refl
          (w.resolver_run a.config.scope_cap q) (λ slots p e. (q, eq, slots, e))
      where
        allocate_b-Good :
            (c : HandoverCtx Program) (p : Program)
            → Held a c
            → c.safe_point_timeout_ms ≡ 5000
            → c.blocks_freed ≡ false
            → IsNew p
            → Good a (Standing a IsNew 5000) (allocate_b w c p)
        allocate_b-Good c p h t f new = elim (Bool-cases w.grants.runtime) [
          | inl yes' ↦ rw yes' (record {
            held = record { same_a = h.same_a; no_pool = h.no_pool };
            fresh_b = refl;
            no_free = f;
            has_program = (p, refl, new);
            same_timeout = t;
          })
          | inr no' ↦ rw no' (fail-RolledBack a c err_alloc _ h (unfreed c err_alloc f))
        ]

        resolved-Good :
            (c : HandoverCtx Program)
            → Held a c
            → c.safe_point_timeout_ms ≡ 5000
            → c.blocks_freed ≡ false
            → (r : Option ℕ × Program) → ((slots : ℕ) (p : Program) → r ≡ (some slots, p) → IsNew p)
            → Good a (Standing a IsNew 5000) (resolved w c r)
        resolved-Good c h t f (none, p) new =
            fail-RolledBack a c err_resolve _ h (unfreed c err_resolve f)
        resolved-Good c h t f (some slots, p) new = allocate_b-Good c p h t f (new slots p refl)

    step3-Good :
        (timeout : ℕ) (IsLoaded : Runtime → Type 0) (c : HandoverCtx Program)
        → Loaded a IsNew timeout IsLoaded c
        → Good a (Ready w a IsNew timeout IsLoaded) (step3_dry_run w c)
    unfolding step3_dry_run
    step3-Good timeout IsLoaded c l =
        let (b, eb, lb) = l.has_b in
        let (p, ep, new) = l.has_program in
        let ran : Good a (Ready w a IsNew timeout IsLoaded) (rehearse w c' (some b) (some p)) =
          after_run-Good c' (record { same_a = l.held.same_a; no_pool = l.held.no_pool })
            l.same_timeout (w.runtime_exec_with_rt (rehearsal c.rt_a.config b) p)
            λ fine.
              let e : w.runtime_exec_with_rt (rehearsal c.rt_a.config b) p
                  ≡ w.runtime_exec_with_rt (rehearsal a.config b) p =
                ap (λ (x : Runtime). w.runtime_exec_with_rt (rehearsal x.config b) p)
                  l.held.same_a in
              record {
                loaded = b;
                is_loaded = lb;
                program = p;
                is_new = new;
                no_error = sym (ap run_failed e) ∙ fine;
                same_pool = ap (λ (o : Runtime × ℕ). headstone_resources o.0.prst_pool) e;
              } in
        subst (λ o. Good a (Ready w a IsNew timeout IsLoaded) (rehearse w c' o c.program_b))
          (sym eb)
          (subst (λ o. Good a (Ready w a IsNew timeout IsLoaded) (rehearse w c' (some b) o))
            (sym ep) ran)
      where
        c' : HandoverCtx Program
        c' = record c { state = dry_run }

        after_run-Good :
            (c : HandoverCtx Program)
            → Held a c
            → c.safe_point_timeout_ms ≡ timeout
            → (o : Runtime × ℕ)
            → (run_failed o ≡ false
                → Rehearsed w a IsNew IsLoaded (headstone_resources o.0.prst_pool))
            → Good a (Ready w a IsNew timeout IsLoaded) (after_run c o)
        after_run-Good c h t (b, r) k =
            unfold after_run in
            elim (Bool-cases (run_failed (b, r))) [
              | inl bad ↦ rw bad (
                  fail-RolledBack a _ err_dry_run _
                    (record { same_a = h.same_a; no_pool = h.no_pool }) (λ z. inl refl))
              | inr fine ↦ rw fine (record {
                held = record { same_a = h.same_a; no_pool = h.no_pool };
                has_b = (record b { prst_pool = headstone_resources b.prst_pool }, refl, k fine);
                freed = refl;
                same_timeout = t;
              })
            ]

    step4-Good :
        (timeout : ℕ) (IsLoaded : Runtime → Type 0) (c : HandoverCtx Program)
        → HasClock w.ms_now
        → Ready w a IsNew timeout IsLoaded c
        → Good a (Switched w a IsNew IsLoaded) (step4_switchover w c)
    unfolding step4_switchover
    step4-Good timeout IsLoaded c (inl none') l = rw none' (
        fail-RolledBack a _ err_safe_point _
          (record { same_a = l.held.same_a; no_pool = l.held.no_pool }) (λ z. inr refl))
    step4-Good timeout IsLoaded c (inr clock) l =
        let t = c.safe_point_timeout_ms in
        rw (clock.first) (
          waited-Good (wait_from w.look w.ms_now (clock.start + t) (rounds t) 0)
            (wait_ends w.look w.ms_now t clock))
      where
        c' : HandoverCtx Program
        c' = record c { state = switchover }

        waited-Good :
            (r : Wait)
            → Ended w.look w.ms_now (clock.start + c.safe_point_timeout_ms) 0 r
            → Good a (Switched w a IsNew IsLoaded) (waited c' r)
        waited-Good (reached x) (j, m, e, s, h) =
            let (b, eb, k) = l.has_b in
            rw eb (record {
              same_a = l.held.same_a;
              pool = k;
              freed = l.freed;
              at_safe_point = (j, ap is_safe_point e ∙ s, sym (ap (λ (y : Look). y.cycle_count) e));
            })
        waited-Good timed_out e =
            fail-RolledBack a c' err_safe_point _
              (record { same_a = l.held.same_a; no_pool = l.held.no_pool }) (λ z. inr refl)
        waited-Good waiting e = e

    step5-Good :
        (IsLoaded : Runtime → Type 0) (c : HandoverCtx Program)
        → Switched w a IsNew IsLoaded c
        → Good a (Committed w a IsNew IsLoaded) (step5_cleanup c)
    unfolding step5_cleanup
    step5-Good IsLoaded c s = record {
      switched = record {
        same_a = s.same_a;
        pool = s.pool;
        freed = s.freed;
        at_safe_point = s.at_safe_point;
      };
      state_committed = refl;
      result = refl;
      no_b = refl;
      no_snapshot = refl;
      freed = s.freed;
    }

    -- The whole protocol, given what step 2 does.
    pub execute-Good :
        (mode : HandoverMode) (IsLoaded : Runtime → Type 0)
        → HasClock w.ms_now
        → ((c : HandoverCtx Program)
            → Standing a IsNew 5000 c
            → Good a (Loaded a IsNew 5000 IsLoaded) (step2_migrate w c))
        → Good a (Committed w a IsNew IsLoaded) (execute w (ctx_init a mode) source)
    unfolding execute
    execute-Good mode IsLoaded clock two =
        then-Good a (Switched w a IsNew IsLoaded) (Committed w a IsNew IsLoaded) _ _
          (then-Good a (Ready w a IsNew 5000 IsLoaded) (Switched w a IsNew IsLoaded) _ _
            (then-Good a (Loaded a IsNew 5000 IsLoaded) (Ready w a IsNew 5000 IsLoaded) _ _
              (then-Good a (Standing a IsNew 5000) (Loaded a IsNew 5000 IsLoaded) _ _
                (step1-Good mode source refl) two)
              (step3-Good 5000 IsLoaded))
            (λ c. step4-Good 5000 IsLoaded c clock))
          (step5-Good IsLoaded)
