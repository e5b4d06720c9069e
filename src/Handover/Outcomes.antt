-- ===== src/Handover/Outcomes.antt =====
-- What a step of src/handover.c leaves of the context, and how a handover ends.
use fluxa_lang.Base.{
  ℕ, ◌≡◌, refl, ap, List, [], Option, none, some, true, false, ◌⊎◌, if◌then◌else◌,
}
use fluxa_lang.Prst.Pool.{PrstPool}
use fluxa_lang.Handover.Context.{
  HandoverCtx, HandoverResult, ok, failed, committed, Runtime, zero_runtime, failure_message,
  ctx_abort, ctx_fail, push_failure, Run, returns, faults, out_of_fuel, ◌then◌, err_dry_run,
  err_safe_point,
}
use fluxa_lang.Handover.Steps.{World, rehearsal, run_failed, headstone_resources, is_safe_point}
use fluxa_lang.Handover.Switchover.{Ticks}

abbrev pub empty_pool : PrstPool
empty_pool = record { entries = []; cap = 0 }

-- A platform without a clock, or one whose clock advances by the sleeps.
abbrev pub HasClock : (ℕ → Option ℕ) → Type 0
HasClock ms_now = (ms_now 0 ≡ none) ⊎ Ticks ms_now

-- The failures behind the rehearsal.
abbrev pub HasRun : HandoverResult → Type 0
HasRun r = (r ≡ err_dry_run) ⊎ (r ≡ err_safe_point)

module _ {Program : Type 0} where
  -- What the resolver makes of the program that the handover is given.
  abbrev pub NewProgram : World Program → Runtime → Option Program → Program → Type 0
  NewProgram w a source p =
      (q : Program) × (source ≡ some q)
      × (slots : ℕ) × (w.resolver_run a.config.scope_cap q ≡ (some slots, p))

  -- What a failed handover leaves: nothing of Runtime B, and of Runtime A all but its error stack,
  -- which has the failure on top. Its Blocks are gone only if the rehearsal ran.
  pub record RolledBack (a : Runtime) (r : HandoverResult) (c : HandoverCtx Program) : Type 0 where
    pub state_failed : c.state ≡ failed
    pub result : c.last_result ≡ r
    pub same_a : c.rt_a ≡ push_failure a c.error_msg
    pub no_b : c.rt_b ≡ none
    pub no_program : c.program_b ≡ none
    pub no_snapshot : c.snapshot ≡ none
    pub no_pool : c.pool_after ≡ empty_pool
    pub blocks : c.blocks_freed ≡ true → HasRun r

  -- A context of a handover under way.
  pub record Held (a : Runtime) (c : HandoverCtx Program) : Type 0 where
    pub same_a : c.rt_a ≡ a
    pub no_pool : c.pool_after ≡ empty_pool

  -- A call that returned OK with a context that satisfies `P`, or another result, rolled back.
  abbrev pub Good : Runtime → (HandoverCtx Program → Type 0) → Run (HandoverCtx Program) → Type 0
  Good a P (returns c ok) = P c
  Good a P (returns c r) = RolledBack a r c
  Good a P faults = ⊥
  Good a P out_of_fuel = ⊥

  pub then-Good :
      (a : Runtime) (P Q : HandoverCtx Program → Type 0) (m : Run (HandoverCtx Program))
      (f : HandoverCtx Program → Run (HandoverCtx Program))
      → Good a P m
      → ((c : HandoverCtx Program) → P c → Good a Q (f c))
      → Good a Q (m then f)
  then-Good a P Q (returns c ok) f g h = h c g
  then-Good a P Q (returns c r) f g h = g
  then-Good a P Q faults f g h = g
  then-Good a P Q out_of_fuel f g h = g

  pub fail-RolledBack :
      (a : Runtime) (c : HandoverCtx Program) (r : HandoverResult) (detail : List ℕ)
      → Held a c
      → (c.blocks_freed ≡ true → HasRun r)
      → RolledBack a r (ctx_fail c r detail)
  unfolding ctx_fail ctx_abort
  fail-RolledBack a c r detail h k = record {
    state_failed = refl;
    result = refl;
    same_a = ap (λ x. push_failure x (failure_message c.state r detail)) h.same_a;
    no_b = refl;
    no_program = refl;
    no_snapshot = refl;
    no_pool = h.no_pool;
    blocks = k;
  }

  pub unfreed :
      (c : HandoverCtx Program) (r : HandoverResult)
      → c.blocks_freed ≡ false
      → c.blocks_freed ≡ true
      → HasRun r
  unfreed c r e k = absurd (cc)

  -- The contexts between the steps.
  pub record Standing (a : Runtime) (IsNew : Program → Type 0) (timeout : ℕ)
      (c : HandoverCtx Program) : Type 0 where
    pub held : Held a c
    pub fresh_b : c.rt_b ≡ some zero_runtime
    pub no_free : c.blocks_freed ≡ false
    pub has_program : (p : Program) × (c.program_b ≡ some p) × IsNew p
    pub same_timeout : c.safe_point_timeout_ms ≡ timeout

  pub record Loaded (a : Runtime) (IsNew : Program → Type 0) (timeout : ℕ)
      (IsLoaded : Runtime → Type 0) (c : HandoverCtx Program) : Type 0 where
    pub held : Held a c
    pub has_b : (b : Runtime) × (c.rt_b ≡ some b) × IsLoaded b
    pub no_free : c.blocks_freed ≡ false
    pub has_program : (p : Program) × (c.program_b ≡ some p) × IsNew p
    pub same_timeout : c.safe_point_timeout_ms ≡ timeout

  -- A runtime that ran a program of the kind `IsNew` without an error, on what step 2 loaded.
  pub record Rehearsed (w : World Program) (a : Runtime) (IsNew : Program → Type 0)
      (IsLoaded : Runtime → Type 0) (pool : PrstPool) : Type 0 where
    pub loaded : Runtime
    pub is_loaded : IsLoaded loaded
    pub program : Program
    pub is_new : IsNew program
    pub no_error : run_failed (w.runtime_exec_with_rt (rehearsal a.config loaded) program) ≡ false
    pub same_pool :
        pool
        ≡ headstone_resources
            (w.runtime_exec_with_rt (rehearsal a.config loaded) program).0.prst_pool

  pub record Ready (w : World Program) (a : Runtime) (IsNew : Program → Type 0) (timeout : ℕ)
      (IsLoaded : Runtime → Type 0) (c : HandoverCtx Program) : Type 0 where
    pub held : Held a c
    pub has_b : (b : Runtime) × (c.rt_b ≡ some b) × Rehearsed w a IsNew IsLoaded b.prst_pool
    pub freed : c.blocks_freed ≡ true
    pub same_timeout : c.safe_point_timeout_ms ≡ timeout

  -- The pool is handed over, at a safe point of Runtime A.
  pub record Switched (w : World Program) (a : Runtime) (IsNew : Program → Type 0)
      (IsLoaded : Runtime → Type 0) (c : HandoverCtx Program) : Type 0 where
    pub same_a : c.rt_a ≡ a
    pub pool : Rehearsed w a IsNew IsLoaded c.pool_after
    pub freed : c.blocks_freed ≡ true
    pub at_safe_point :
        (k : ℕ) × (is_safe_point (w.look k) ≡ true)
        × (c.rt_a_cycle_at_swap ≡ (w.look k).cycle_count)

  -- What a committed handover leaves: Runtime A as it was, and the pool of the rehearsal.
  pub record Committed (w : World Program) (a : Runtime) (IsNew : Program → Type 0)
      (IsLoaded : Runtime → Type 0) (c : HandoverCtx Program) : Type 0 where
    pub switched : Switched w a IsNew IsLoaded c
    pub state_committed : c.state ≡ committed
    pub result : c.last_result ≡ ok
    pub no_b : c.rt_b ≡ none
    pub no_snapshot : c.snapshot ≡ none
    pub freed : c.blocks_freed ≡ true
