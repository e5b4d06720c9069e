-- ===== src/Handover/Context.antt =====
-- The states, results and context of src/handover.h, and `ctx_fail`, `handover_ctx_init` and
-- `handover_ctx_abort` of src/handover.c.
-- Of `Runtime` (src/runtime.h) the record has the fields that the protocol reads or hands on; the
-- scope, the collector's table and the FFI registry, which it creates and destroys for the
-- rehearsal, are not in it. Messages to stderr are left out.
use fluxa_lang.Base.{
  ℕ, ◌/◌, ◌++◌, List, [], ◌∷◌, Option, none, some, Bool, false, not, ltb, ◌==◌, if◌then◌else◌, take,
  codes, replicate,
}
use fluxa_lang.ErrStack
use fluxa_lang.ErrStack.{ErrStack, ErrEntry, err_fluxa, err_handover, err_stack_cap}
use fluxa_lang.Prst.Pool.{PrstPool}
use fluxa_lang.Prst.Graph.{PrstGraph}

-- `HandoverMode`
pub data HandoverMode : Type 0 where
  mode_memory mode_flash : HandoverMode

-- `HandoverState`
pub data HandoverState : Type 0 where
  idle standby migration dry_run switchover cleanup failed committed : HandoverState

-- `HandoverResult`
pub data HandoverResult : Type 0 where
  ok err_alloc err_parse err_resolve err_serialize err_deserialize err_checksum err_dry_run :
      HandoverResult
  err_safe_point err_flash_write err_flash_read err_version err_null_program : HandoverResult

-- `FluxaMode`
pub data FluxaMode : Type 0 where
  script project : FluxaMode

-- The capacities of `FluxaConfig` that the protocol passes on.
pub record FluxaConfig : Type 0 where
  pub scope_cap : ℕ
  pub gc_cap : ℕ

-- `Runtime`
pub record Runtime : Type 0 where
  pub stack_size : ℕ
  pub had_error : Bool
  pub call_depth : ℕ
  pub danger_depth : ℕ
  pub err_stack : ErrStack
  pub mode : FluxaMode
  pub prst_pool : PrstPool
  pub prst_graph : PrstGraph
  pub config : FluxaConfig
  pub cycle_count : ℕ
  pub is_dry_run : Bool
  pub current_line : ℕ

-- An entry of an error stack that `calloc` cleared.
abbrev pub zero_entry : ErrEntry
zero_entry = record { kind = err_fluxa; message = []; context = []; line = 0 }

-- `calloc(1, sizeof(Runtime))`
abbrev pub zero_runtime : Runtime
zero_runtime = record {
  stack_size = 0;
  had_error = false;
  call_depth = 0;
  danger_depth = 0;
  err_stack = record { entries = replicate err_stack_cap zero_entry; base = 0; count = 0 };
  mode = script;
  prst_pool = record { entries = []; cap = 0 };
  prst_graph = record { deps = []; cap = 0 };
  config = record { scope_cap = 0; gc_cap = 0 };
  cycle_count = 0;
  is_dry_run = false;
  current_line = 0;
}

-- `HandoverCtx`; a pointer that may be NULL is an option, and the size of the snapshot is its
-- length. Runtime A is always there. `blocks_freed` is no field of the struct: it records that
-- `block_registry_free` of src/block.c was called. Its registry is one for the process, so that the call
-- frees the Blocks of Runtime A, too.
pub record HandoverCtx (Program : Type 0) : Type 0 where
  pub mode : HandoverMode
  pub state : HandoverState
  pub last_result : HandoverResult
  pub rt_a : Runtime
  pub rt_b : Option Runtime
  pub program_b : Option Program
  pub snapshot : Option (List ℕ)
  pub safe_point_timeout_ms : ℕ
  pub grace_period_ms : ℕ
  pub error_msg : List ℕ
  pub rt_a_cycle_at_swap : ℕ
  pub pool_after : PrstPool
  pub blocks_freed : Bool

abbrev pub handover_version : ℕ
handover_version = 1001

abbrev pub handover_magic : ℕ
handover_magic = 0xF10A8888

-- `handover_state_str`
pub state_str : HandoverState → List ℕ
state_str idle = codes "IDLE"
state_str standby = codes "STANDBY"
state_str migration = codes "MIGRATION"
state_str dry_run = codes "DRY_RUN"
state_str switchover = codes "SWITCHOVER"
state_str cleanup = codes "CLEANUP"
state_str failed = codes "FAILED"
state_str committed = codes "COMMITTED"

-- `handover_result_str`
pub result_str : HandoverResult → List ℕ
result_str ok = codes "OK"
result_str err_alloc = codes "ERR_ALLOC"
result_str err_parse = codes "ERR_PARSE"
result_str err_resolve = codes "ERR_RESOLVE"
result_str err_serialize = codes "ERR_SERIALIZE"
result_str err_deserialize = codes "ERR_DESERIALIZE"
result_str err_checksum = codes "ERR_CHECKSUM"
result_str err_dry_run = codes "ERR_DRY_RUN"
result_str err_safe_point = codes "ERR_SAFE_POINT"
result_str err_flash_write = codes "ERR_FLASH_WRITE"
result_str err_flash_read = codes "ERR_FLASH_READ"
result_str err_version = codes "ERR_VERSION"
result_str err_null_program = codes "ERR_NULL_PROGRAM"

-- `handover_check_version`
unfoldable pub check_version : ℕ → HandoverResult
check_version v =
    if not (v / 1000 == handover_version / 1000)
    then err_version
    else if ltb handover_version v
    then err_version
    else ok

-- `snprintf(ctx->error_msg, 512, "[handover:%s] %s — %s", ...)`
pub failure_message : HandoverState → HandoverResult → List ℕ → List ℕ
failure_message s r detail = take 511 (
    codes "[handover:"
    ++ (state_str s
        ++ (codes "] "
            ++ (result_str r
                ++ (codes " " ++ (0xe2 ∷ 0x80 ∷ 0x94 ∷ [] ++ (codes " " ++ detail)))))))

-- `errstack_push(&rt_a->err_stack, ERR_HANDOVER, message, "<handover>", 0)`
unfoldable pub push_failure : Runtime → List ℕ → Runtime
push_failure rt message = record rt {
  err_stack = ErrStack.push rt.err_stack err_handover (some message) (some (codes "<handover>")) 0;
}

module _ {Program : Type 0} where
  -- `handover_ctx_init`
  unfoldable pub ctx_init : Runtime → HandoverMode → HandoverCtx Program
  ctx_init rt_a mode = record {
    mode = mode;
    state = idle;
    last_result = ok;
    rt_a = rt_a;
    rt_b = none;
    program_b = none;
    snapshot = none;
    safe_point_timeout_ms = 5000;
    grace_period_ms = 100;
    error_msg = [];
    rt_a_cycle_at_swap = 0;
    pool_after = record { entries = []; cap = 0 };
    blocks_freed = false;
  }

  -- `handover_ctx_abort`
  unfoldable pub ctx_abort : HandoverCtx Program → HandoverCtx Program
  ctx_abort c = record c { snapshot = none; rt_b = none; program_b = none; state = failed }

  -- `ctx_fail`
  unfoldable pub ctx_fail : HandoverCtx Program → HandoverResult → List ℕ → HandoverCtx Program
  ctx_fail c r detail =
      let message = failure_message c.state r detail in
      ctx_abort
        (record c { last_result = r; error_msg = message; rt_a = push_failure c.rt_a message })

-- How a call ends: it returns, it dereferences NULL or reads behind a buffer, or it still waits when
-- the fuel is gone.
pub data Run {ℓ} (A : Type ℓ) : Type ℓ where
  returns : A → HandoverResult → Run A
  faults out_of_fuel : Run A

-- `if (r != HANDOVER_OK) return r;`
infixl 5 ◌then◌
abbrev pub ◌then◌ {ℓ} : {A : Type ℓ} → Run A → (A → Run A) → Run A
(returns a ok) then f = f a
(returns a r) then f = returns a r
faults then f = faults
out_of_fuel then f = out_of_fuel
