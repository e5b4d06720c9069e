-- ===== src/Handover/Steps.antt =====
-- The five steps of src/handover.c and `handover_execute`, with `runtime_is_safe_point` of
-- src/runtime.h and `runtime_prst_headstone_resources` of src/runtime.c.
use fluxa_lang.Base.{
  ℕ, zero, suc, ◌+◌, ◌*◌, ◌++◌, List, [], ◌∷◌, map, Option, none, some, Bool, true, false, not,
  ◌&&◌, ◌||◌, ltb, leb, ◌==◌, if◌then◌else◌, take, codes,
}
use fluxa_lang.ErrStack
use fluxa_lang.ErrStack.{ErrStack, ErrEntry, at}
use fluxa_lang.Prst.Value.{Value, nil, dyn}
use fluxa_lang.Prst.Pool.{PrstPool, PrstEntry, Heap}
use fluxa_lang.Handover.Context.{
  HandoverCtx, HandoverResult, standby, migration, dry_run, switchover, committed, ok, err_alloc,
  err_resolve, err_dry_run, err_safe_point, err_null_program, Runtime, FluxaConfig, project,
  zero_runtime, ctx_fail, Run, returns, faults, out_of_fuel, ◌then◌,
}
use fluxa_lang.Handover.Snapshot.{Grants, serialize_state, deserialize_state}

-- What the protocol reads of Runtime A while it waits: another thread may run A on.
pub record Look : Type 0 where
  pub call_depth : ℕ
  pub danger_depth : ℕ
  pub cycle_count : ℕ

-- What the steps call that is no part of the protocol: the heap, the resolver (with the capacity
-- that is set for it; `none` is a negative count of slots), the interpreter, the clock in its
-- readings (`none` is -1) and Runtime A at each look.
pub record World (Program : Type 0) : Type 0 where
  pub heap : Heap
  pub grants : Grants
  pub resolver_run : ℕ → Program → Option ℕ × Program
  pub runtime_exec_with_rt : Runtime → Program → Runtime × ℕ
  pub ms_now : ℕ → Option ℕ
  pub look : ℕ → Look

-- `runtime_is_safe_point`
abbrev pub is_safe_point : Look → Bool
is_safe_point l = l.call_depth == 0 && l.danger_depth == 0

-- `runtime_prst_headstone_resources`
abbrev pub headstone_value : Value → Value
headstone_value (dyn d) = nil
headstone_value v = v

abbrev pub headstone_entry : PrstEntry → PrstEntry
headstone_entry e = record e {
  value = headstone_value e.value;
  init_value = headstone_value e.init_value;
}

unfoldable pub headstone_resources : PrstPool → PrstPool
headstone_resources p = record p { entries = map headstone_entry p.entries }

-- Runtime B as step 3 sets it up; the pool and the graph stay.
unfoldable pub rehearsal : FluxaConfig → Runtime → Runtime
rehearsal config b = record b {
  stack_size = 0;
  had_error = false;
  call_depth = 0;
  danger_depth = 0;
  cycle_count = 0;
  is_dry_run = true;
  current_line = 0;
  mode = project;
  config = config;
  err_stack = ErrStack.clear b.err_stack;
}

-- `(result != 0) || rt_b->had_error || (rt_b->err_stack.count > 0)`
abbrev pub run_failed : Runtime × ℕ → Bool
run_failed (b, result) = not (result == 0) || b.had_error || ltb 0 b.err_stack.count

-- The detail of a failed rehearsal, in a buffer of 512 bytes.
pub dry_run_detail : Option ErrEntry → List ℕ
dry_run_detail none = codes "dry run failed"
dry_run_detail (some e) = take 511 (codes "dry run: " ++ e.message)

-- How the wait of step 4 ends.
pub data Wait : Type 0 where
  reached : Look → Wait
  timed_out waiting : Wait

-- `ms_now() >= deadline`
abbrev pub is_past : Option ℕ → ℕ → Bool
is_past none deadline = false
is_past (some now) deadline = leb deadline now

-- The loop of step 4 on fuel, from look `k`; the clock was read once before the first.
unfoldable pub wait_from : (ℕ → Look) → (ℕ → Option ℕ) → ℕ → ℕ → ℕ → Wait
wait_from look ms_now deadline zero k = waiting
wait_from look ms_now deadline (suc n) k =
    let later = wait_from look ms_now deadline n (k + 1) in
    if is_safe_point (look k)
    then reached (look k)
    else if is_past (ms_now (k + 1)) deadline
    then timed_out
    else later

-- The rounds that are enough for a timeout: each round sleeps half a millisecond.
abbrev pub rounds : ℕ → ℕ
rounds timeout = 2 * timeout + 1

abbrev pub no_clock : List ℕ
no_clock =
    codes "no platform clock "
    ++ (0xe2 ∷ 0x80 ∷ 0x94 ∷ []
        ++ codes
            " provide fluxa_platform_ms_now() in the SDK integration, or build with -DFLUXA_HAS_POSIX_CLOCK=1; handover refused, Runtime A keeps serving")

module _ {Program : Type 0} where
  -- `handover_step1_standby`
  abbrev pub allocate_b : World Program → HandoverCtx Program → Program → Run (HandoverCtx Program)
  allocate_b w c program =
      if w.grants.runtime
      then returns (record c { rt_b = some zero_runtime; program_b = some program }) ok
      else returns (ctx_fail c err_alloc (codes "calloc Runtime B failed")) err_alloc

  abbrev pub resolved :
      World Program → HandoverCtx Program → Option ℕ × Program → Run (HandoverCtx Program)
  resolved w c (none, program) =
      returns (ctx_fail c err_resolve (codes "resolver failed on new program")) err_resolve
  resolved w c (some slots, program) = allocate_b w c program

  unfoldable pub step1_standby :
      World Program → HandoverCtx Program → Option Program → Run (HandoverCtx Program)
  step1_standby w c none =
      returns (ctx_fail (record c { state = standby }) err_null_program (codes "program_b is NULL"))
        err_null_program
  step1_standby w c (some program) =
      resolved w (record c { state = standby }) (w.resolver_run c.rt_a.config.scope_cap program)

  -- `if (r != HANDOVER_OK) { ctx_fail(ctx, r, detail); return r; }`
  abbrev pub or_fail : List ℕ → Run (HandoverCtx Program) → Run (HandoverCtx Program)
  or_fail detail (returns c ok) = returns c ok
  or_fail detail (returns c r) = returns (ctx_fail c r detail) r
  or_fail detail faults = faults
  or_fail detail out_of_fuel = out_of_fuel

  -- A result that is always there, as a run.
  abbrev pub given : HandoverCtx Program × HandoverResult → Run (HandoverCtx Program)
  given (c, r) = returns c r

  -- `handover_step2_migrate`
  unfoldable pub step2_migrate : World Program → HandoverCtx Program → Run (HandoverCtx Program)
  step2_migrate w c =
      or_fail (codes "serialize")
        (given (serialize_state w.grants (record c { state = migration })))
      then λ c'. or_fail (codes "deserialize") (deserialize_state w.heap c')

  -- The end of step 3, after the run; the pool and the graph of B survive it, the Blocks of the process
  -- do not.
  unfoldable pub after_run : HandoverCtx Program → Runtime × ℕ → Run (HandoverCtx Program)
  after_run c (b, result) =
      let c' = record c {
        rt_b = some (record b { prst_pool = headstone_resources b.prst_pool });
        blocks_freed = true;
      } in
      if run_failed (b, result)
      then returns (ctx_fail c' err_dry_run (dry_run_detail (ErrStack.get b.err_stack (at 0))))
          err_dry_run
      else returns c' ok

  abbrev pub rehearse :
      World Program
      → HandoverCtx Program
      → Option Runtime
      → Option Program
      → Run (HandoverCtx Program)
  rehearse w c none program = faults
  rehearse w c (some b) none = faults
  rehearse w c (some b) (some program) =
      after_run c (w.runtime_exec_with_rt (rehearsal c.rt_a.config b) program)

  -- `handover_step3_dry_run`
  unfoldable pub step3_dry_run : World Program → HandoverCtx Program → Run (HandoverCtx Program)
  step3_dry_run w c = rehearse w (record c { state = dry_run }) c.rt_b c.program_b

  -- The swap of step 4.
  abbrev pub swap : HandoverCtx Program → Look → Option Runtime → Run (HandoverCtx Program)
  swap c l none = faults
  swap c l (some b) =
      returns
        (record c {
          rt_a_cycle_at_swap = l.cycle_count;
          pool_after = b.prst_pool;
          rt_b = some (record b { prst_pool = record { entries = []; cap = 0 } });
        })
        ok

  abbrev pub waited : HandoverCtx Program → Wait → Run (HandoverCtx Program)
  waited c (reached l) = swap c l c.rt_b
  waited c timed_out =
      returns (ctx_fail c err_safe_point (codes "timeout waiting for safe point in Runtime A"))
        err_safe_point
  waited c waiting = out_of_fuel

  abbrev pub started : World Program → HandoverCtx Program → Option ℕ → Run (HandoverCtx Program)
  started w c none = returns (ctx_fail c err_safe_point no_clock) err_safe_point
  started w c (some start) = waited c (
      wait_from w.look w.ms_now (start + c.safe_point_timeout_ms) (rounds c.safe_point_timeout_ms)
        0)

  -- `handover_step4_switchover`
  unfoldable pub step4_switchover : World Program → HandoverCtx Program → Run (HandoverCtx Program)
  step4_switchover w c = started w (record c { state = switchover }) (w.ms_now 0)

  -- `handover_step5_cleanup`, less its sleep
  unfoldable pub step5_cleanup : HandoverCtx Program → Run (HandoverCtx Program)
  step5_cleanup c =
      returns (record c { snapshot = none; rt_b = none; state = committed; last_result = ok }) ok

  -- `handover_execute`
  unfoldable pub execute :
      World Program → HandoverCtx Program → Option Program → Run (HandoverCtx Program)
  execute w c program =
      step1_standby w c program
      then step2_migrate w
      then step3_dry_run w
      then step4_switchover w
      then step5_cleanup
