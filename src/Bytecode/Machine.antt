-- ===== src/Bytecode/Machine.antt =====
-- src/bytecode.c: the machine, `vm_run` and `vm_run_fn`. Its callbacks into the interpreter, which the
-- code takes as arguments, are parameters. They may change the registers, which are the stack of the
-- interpreter. A callback that is NULL is the one that changes nothing and returns nil. A read of a
-- register that is not there gives nil, and a write of one does nothing.
use fluxa_lang.Base.{
  ℕ, zero, suc, ◌+◌, ◌-◌, ◌/◌, ◌%◌, ◌^◌, List, [], Option, none, some, Bool, false, ltb, ◌==◌,
  if◌then◌else◌, ◌&&◌, ◌||◌, not, length, get_elem?, set, replicate,
}
use fluxa_lang.Prst.Value.{Value, nil, bool, string, val_type, type_dyn}
use fluxa_lang.Bytecode.{
  Opcode, loadk, move, arith_op, jump_if_false, jump, return', call_method, call_func, get_field,
  set_field, get_index, prep_index, set_index, return_val, return_nil, loadk_str, move_str,
  drop_str, get_field_v, not_op, truthy_op, Instruction, first_temp,
}
use fluxa_lang.Bytecode.Values.{Doubles, bit, truthy, truthy_not, truthy_logic, vm_binary}

-- `VMIndexCache`
pub record IndexCache : Type 0 where
  pub slot : Option ℕ
  pub prst_index : ℕ
  pub failed : Bool

abbrev pub unresolved : IndexCache
unresolved = record { slot = none; prst_index = 2 ^ 32 - 2; failed = false }

-- `VM_INDEX_GET`, `VM_INDEX_PREP` and `VM_INDEX_SET`
pub data IndexAction : Type 0 where
  index_get index_prep index_set : IndexAction

-- What the machine and the callbacks share: the registers, and the rest of the interpreter.
pub record Env (W : Type 0) : Type 0 where
  pub regs : List Value
  pub world : W

-- What a callback leaves: the registers and the interpreter, the constant that it may have replaced by
-- a pointer, and its result.
pub record Called (W : Type 0) : Type 0 where
  pub env : Env W
  pub owner : Value
  pub result : Value

pub record Indexed (W : Type 0) : Type 0 where
  pub env : Env W
  pub cache : IndexCache
  pub result : Value

-- The callbacks. `cancelled` is `*cancel_flag`, and false where there is none. The arguments of a call
-- are its first register and their number.
pub record Callbacks (W : Type 0) : Type 0 where
  pub call_method : Env W → Value → List ℕ → ℕ → ℕ → Called W
  pub call_func : Env W → List ℕ → ℕ → ℕ → Called W
  pub get_field : Env W → Value → List ℕ → Called W
  pub set_field : Env W → Value → List ℕ → Value → Called W
  pub index : Env W → IndexAction → IndexCache → List ℕ → ℕ → Value → Value → Indexed W
  pub cancelled : Env W → Bool
  pub tick : Env W → Env W
  pub store : Env W → ℕ → ℕ → Env W

-- The state of a run.
pub record Machine (W : Type 0) : Type 0 where
  pub ip : ℕ
  pub env : Env W
  pub consts : List Value
  pub caches : List IndexCache

-- After an instruction: on, at an end with no value (`L_RETURN`, an error of an index, the end of the
-- code), or at a return with its value.
pub data Outcome (W : Type 0) : Type 0 where
  running : Machine W → Outcome W
  stopped : Machine W → Outcome W
  returned : Machine W → Value → Outcome W

abbrev pub or_nil : Option Value → Value
or_nil none = nil
or_nil (some v) = v

abbrev pub or_unresolved : Option IndexCache → IndexCache
or_unresolved none = unresolved
or_unresolved (some c) = c

abbrev pub text_of : Value → List ℕ
text_of (string s) = s
text_of v = []

abbrev pub is_true : Value → Bool
is_true (bool b) = not (b == 0)
is_true v = false

-- A declared int, float or bool; all else becomes nil.
abbrev pub scalar_or_nil : Value → Value
scalar_or_nil v = if ltb 3 (val_type v) then nil else v

abbrev pub is_dyn : Value → Bool
is_dyn v = val_type v == type_dyn

module _ {W : Type 0} where
  abbrev pub reg : Machine W → ℕ → Value
  reg m r = or_nil (get_elem? m.env.regs r)

  abbrev pub constant : Machine W → ℕ → Value
  constant m k = or_nil (get_elem? m.consts k)

  -- `R[r] = v`
  abbrev pub write : Machine W → ℕ → Value → Machine W
  write m r v = record m { env = record m.env { regs = set m.env.regs r v } }

  -- What a call leaves, with its result in `R[r]` and the constant `k` as the callback left it.
  abbrev pub after_call : Machine W → ℕ → ℕ → Called W → Machine W
  after_call m r k res =
      write (record m { env = res.env; consts = set m.consts k res.owner }) r res.result

  abbrev pub goto : Machine W → ℕ → Machine W
  goto m target = record m { ip = target }

  module _ (d : Doubles) (cb : Callbacks W) where
    abbrev pub index_call : Machine W → IndexAction → Instruction → ℕ → Value → Indexed W
    index_call m act i hint incoming =
        cb.index m.env act (or_unresolved (get_elem? m.caches i.b)) (text_of (constant m i.b)) hint
          (reg m i.c) incoming

    abbrev pub after_index : Machine W → Instruction → Indexed W → Machine W
    after_index m i res = record m { env = res.env; caches = set m.caches i.b res.cache }

    -- The callback for a `dyn` in a variable.
    abbrev pub stored : Machine W → Instruction → Machine W
    stored m i =
        if ltb i.a first_temp && (is_dyn (reg m i.a) || is_dyn (reg m i.b))
        then record m { env = cb.store m.env i.a i.b }
        else m

    -- The cases of `vm_run` for an instruction; `m` is already at the next one.
    unfoldable pub dispatch : Opcode → Instruction → Machine W → Outcome W
    dispatch loadk i m = running (write m i.a (constant m i.b))
    dispatch loadk_str i m = running (write m i.a (constant m i.b))
    dispatch move i m = let m' = stored m i in running (write m' i.a (reg m' i.b))
    dispatch move_str i m = running (write m i.a (reg m i.b))
    dispatch drop_str i m = running (write m i.a nil)
    dispatch (arith_op o) i m = running (write m i.a (vm_binary d o (reg m i.b) (reg m i.c)))
    dispatch jump_if_false i m = running (if truthy d (reg m i.a) then m else goto m i.offset)
    dispatch jump i m =
        if cb.cancelled m.env
        then stopped m
        else running (goto (record m { env = cb.tick m.env }) i.offset)
    dispatch call_method i m = running (
        after_call m i.a i.b (
          cb.call_method m.env (constant m i.b) (text_of (constant m i.c))
            (i.offset / 2 ^ 16 % 2 ^ 16) (i.offset % 2 ^ 16)))
    dispatch call_func i m =
        let res = cb.call_func m.env (text_of (constant m i.b)) i.c i.offset in
        running (write (record m { env = res.env }) i.a res.result)
    dispatch not_op i m = running (write m i.a (bool (bit (not (truthy_not d (reg m i.b))))))
    dispatch truthy_op i m = running (write m i.a (bool (truthy_logic (reg m i.b))))
    dispatch get_field_v i m =
        let res = cb.get_field m.env (constant m i.b) (text_of (constant m i.c)) in
        running (after_call m i.a i.b (record res { result = scalar_or_nil res.result }))
    dispatch get_field i m =
        running
          (after_call m i.a i.b (cb.get_field m.env (constant m i.b) (text_of (constant m i.c))))
    dispatch set_field i m =
        let res = cb.set_field m.env (constant m i.b) (text_of (constant m i.c)) (reg m i.a) in
        running (record m { env = res.env; consts = set m.consts i.b res.owner })
    dispatch get_index i m =
        let res = index_call m index_get i i.offset nil in
        let m' = write (after_index m i res) i.a res.result in
        if res.cache.failed then stopped m' else running m'
    dispatch prep_index i m =
        let res = index_call m index_prep i (if i.a == 2 ^ 16 - 1 then 2 ^ 32 - 1 else i.a) nil in
        let m' = after_index m i res in
        if res.cache.failed
        then stopped m'
        else running (if is_true res.result then m' else goto m' i.offset)
    dispatch set_index i m =
        let res = index_call m index_set i i.offset (reg m i.a) in
        let m' = after_index m i res in if res.cache.failed then stopped m' else running m'
    dispatch return_val i m = returned m (reg m i.a)
    dispatch return_nil i m = returned m nil
    dispatch return' i m = stopped m

    -- `NEXT()`: the end of the code is a return.
    unfoldable pub step : List Instruction → Machine W → Outcome W
    unfolding dispatch
    step code m = elim (get_elem? code m.ip) [
      | none ↦ stopped m
      | some i ↦ dispatch i.op i (record m { ip = m.ip + 1 })
    ]

    -- The machine for a number of instructions at most: `none` is that it is still running.
    unfoldable pub run : ℕ → List Instruction → Machine W → Option (Outcome W)
    unfolding step
    run zero code m = none
    run (suc n) code m = elim (step code m) [
      | running m' ↦ run n code m'
      | stopped m' ↦ some (stopped m')
      | returned m' v ↦ some (returned m' v)
    ]

  -- The start of `vm_run`.
  abbrev pub start : List Value → Env W → Machine W
  start consts env = record {
    ip = 0;
    env = env;
    consts = consts;
    caches = replicate (length consts) unresolved;
  }

  -- `vm_run_fn` has no flag to look at and none of the callbacks for ticks and stores.
  abbrev pub for_fn : Callbacks W → Callbacks W
  for_fn cb = record cb { cancelled = λ e. false; tick = λ e. e; store = λ e slot incoming. e }

  abbrev pub retval : Outcome W → Value
  retval (returned m v) = v
  retval (running m) = nil
  retval (stopped m) = nil

  -- `vm_run_fn`, for a number of instructions at most.
  unfoldable pub run_fn :
      Doubles → Callbacks W → ℕ → List Instruction → List Value → Env W → Option Value
  run_fn d cb n code consts env = elim (run d (for_fn cb) n code (start consts env)) [
    | none ↦ none
    | some o ↦ some (retval o)
  ]
