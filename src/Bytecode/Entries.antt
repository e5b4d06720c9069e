-- ===== src/Bytecode/Entries.antt =====
-- The chunks of the two entries, `chunk_compile_fn` and `chunk_compile_loop`, when they run.
use fluxa_lang.Base.{
  ℕ, ◌+◌, ◌≤◌, ◌≡◌, refl, sym, ap, ◌∙◌, subst, List, Option, none, some, Bool, true, false,
  if◌then◌else◌, arith, Bool-cases, inl, inr, length, get_elem?,
}
use mathlib.Core.Option.{some-injective}
use fluxa_lang.Ast.{Node, Nodes, func_decl}
use fluxa_lang.Prst.Value.{Value, nil}
use fluxa_lang.Bytecode.{
  Instruction, instr, return_nil, return', Chunk, chunk_init, count, emit, first_temp,
}
use fluxa_lang.Bytecode.Values.{Doubles}
use fluxa_lang.Bytecode.Machine.{
  Env, Callbacks, Machine, Outcome, stopped, returned, run, run_fn, dispatch, start, for_fn, retval,
}
use fluxa_lang.Bytecode.Compile.{Probes}
use fluxa_lang.Bytecode.Statements.{
  compile_fn, compile_loop, compile_node, compile_nodes, finish_chunk,
}
use fluxa_lang.Bytecode.Extends.{IsGood, emit-Extends, last-emit}
use fluxa_lang.Bytecode.Runs.{step-dispatch, run-Reaches}
use fluxa_lang.Bytecode.Statements.Pieces.{Ends, Locals, Piece}
use fluxa_lang.Bytecode.Statements.Safe.{IsIdle, IsPlainStmt, ArePlain, IsSafe, AreSafe}
use fluxa_lang.Bytecode.Statements.Simple.{run-return_nil}
use fluxa_lang.Bytecode.Statements.Correct.{compile_node-Done, compile_nodes-Piece}
use fluxa_lang.Eval.{Scopes}
use fluxa_lang.Eval.Statements.{AgreeLoops, exec, exec_list}
use fluxa_lang.Eval.{Flow, goes, returns}

-- The chunk with its last instruction.
abbrev closed : Chunk → Instruction → Chunk
closed c last = emit (record c { next_reg = c.peak_reg }) last

finish_chunk-some :
    (c f : Chunk) (last : Instruction)
    → finish_chunk c last ≡ some f
    → (c.ok ≡ true) × (closed c last ≡ f)
unfolding finish_chunk
finish_chunk-some c f last h = elim (Bool-cases c.ok) [
  | inl t ↦ (t, some-injective _ _ (sym (ap (λ b. if b then some (closed c last) else none) t) ∙ h))
  | inr n ↦ absurd (cc (rw n at h))
]

init-IsGood : (b : Bool) → IsGood (chunk_init b)
init-IsGood b = record {
  is_ok = refl;
  past_locals = omega arith;
  below_peak = omega arith;
  within = omega arith;
}

module _ {W : Type 0} (d : Doubles) (s : Scopes) (cb : Callbacks W) where
  -- A whole chunk from the start: it comes to its last instruction, or returns before.
  run_closed :
      (Safe : List Value → Type 0) (does : List Value → Option Flow) (b : Bool) (c : Chunk)
      (last : Instruction) (env : Env W) (r : Flow)
      → Piece d s cb Safe does (chunk_init b) c
      → (closed c last).peak_reg ≤ length env.regs
      → Safe env.regs
      → does env.regs ≡ some r
      → Ends d s cb (closed c last).code (start (closed c last).consts env) (count c) r
  run_closed Safe does b c last env r p room safe h =
      p.runs (closed c last).code (start (closed c last).consts env) env.regs r
        (λ i x y. (emit-Extends (record c { next_reg = c.peak_reg }) last).code_kept i y)
        (record {
          at_start = refl;
          constants = λ k x. unfold emit in refl;
          room = unfold emit in room;
          locals = λ k x. refl;
        })
        safe h

  last_there :
      (c : Chunk) (last : Instruction) → get_elem? (closed c last).code (count c) ≡ some last
  last_there c last = last-emit (record c { next_reg = c.peak_reg }) last

  run-return' :
      (code : List Instruction) (m : Machine W)
      → get_elem? code m.ip ≡ some (instr return' 0 0 0 0)
      → run d cb 1 code m ≡ some (stopped (record m { ip = m.ip + 1 }))
  unfolding run dispatch
  run-return' code m h = rw (step-dispatch d cb code m (instr return' 0 0 0 0) h, run) refl

for_fn-IsIdle : {W : Type 0} (cb : Callbacks W) → IsIdle (for_fn cb)
for_fn-IsIdle cb = record {
  quiet = record { not_cancelled = λ e. refl; no_tick = λ e. refl };
  no_store = λ e slot incoming. refl;
}

-- What a function returns: nil when its body goes to the end.
abbrev pub fn_value : Flow → Value
fn_value (goes stack) = nil
fn_value (returns v) = v

run_fn-run :
    {W : Type 0} (d : Doubles) (cb : Callbacks W) (n : ℕ) (code : List Instruction)
    (consts : List Value) (env : Env W) (o : Outcome W)
    → run d (for_fn cb) n code (start consts env) ≡ some o
    → run_fn d cb n code consts env ≡ some (retval o)
unfolding run_fn
run_fn-run d cb n code consts env o h = rw (h, run_fn) refl

fn-Ends :
    {W : Type 0} (d : Doubles) (s : Scopes) (cb : Callbacks W) (c : Chunk) (env : Env W) (r : Flow)
    → Ends d s
        (for_fn cb)
        (closed c (instr return_nil 0 0 0 0)).code
        (start (closed c (instr return_nil 0 0 0 0)).consts env)
        (count c)
        r
    → (n : ℕ) × (run_fn d cb n
          (closed c (instr return_nil 0 0 0 0)).code
          (closed c (instr return_nil 0 0 0 0)).consts
          env
        ≡ some (fn_value r))
fn-Ends d s cb c env (goes stack) (m, reach, ip, k, l) =
    let f = closed c (instr return_nil 0 0 0 0) in
    let (n, q) = run-Reaches d (for_fn cb) f.code _ reach (
      1,
      run-return_nil d s (for_fn cb) f.code m
          (ap (get_elem? f.code) ip ∙ last_there d s (for_fn cb) c (instr return_nil 0 0 0 0)),
    ) in
    (n, run_fn-run d cb n f.code f.consts env _ q)
fn-Ends d s cb c env (returns v) (m, reach, (m', e)) =
    let f = closed c (instr return_nil 0 0 0 0) in
    let (n, q) = run-Reaches d (for_fn cb) f.code _ reach (1, e) in
    (n, run_fn-run d cb n f.code f.consts env _ q)

-- A function that is compiled to bytecode and run by `vm_run_fn` returns, after finitely many
-- instructions, the value that the evaluator returns for its body, and
-- nil where the body goes to its end. The body consists of assignments, blocks, `if`, `while` and
-- `return` over literals, operators and variables in slots below 128, of which none that is read has
-- the name `nil` or `err`; the evaluator comes to an end of it without an error, within some number of
-- rounds for each loop; wherever it evaluates an expression, the variables have a value, sums,
-- differences and orders of integers by way of `double` are exact, and no condition is a string; where
-- the evaluator has a loop run by the machine itself, that gives what its own loop gives; and the
-- register file has the size that the chunk asks for.
pub run_fn-compile_fn :
    {W : Type 0} (d : Doubles) (s : Scopes) (cb : Callbacks W) (p : Probes) (rounds : ℕ)
    (body : Nodes) (f : Chunk) (env : Env W) (r : Flow)
    → AgreeLoops d s rounds
    → ArePlain body
    → AreSafe d s (for_fn cb) rounds body env.regs
    → compile_fn p (func_decl body) ≡ some f
    → f.peak_reg ≤ length env.regs
    → exec_list d s rounds body env.regs ≡ some r
    → (n : ℕ) × (run_fn d cb n f.code f.consts env ≡ some (fn_value r))
unfolding compile_fn
run_fn-compile_fn d s cb p rounds body f env r agree plain safe made room h =
    let c = compile_nodes p body (chunk_init true) first_temp in
    let last = instr return_nil 0 0 0 0 in
    let (ok, same) = finish_chunk-some c f last made in
    subst (λ (x : Chunk). (n : ℕ) × (run_fn d cb n x.code x.consts env ≡ some (fn_value r))) same
      (fn-Ends d s cb c env r (
        run_closed d s (for_fn cb) (AreSafe d s (for_fn cb) rounds body) (exec_list d s rounds body)
          true c last env r
          (compile_nodes-Piece d s (for_fn cb) (for_fn-IsIdle cb) p rounds agree body
            (chunk_init true) first_temp plain (init-IsGood true) refl ok)
          (subst (λ (x : Chunk). x.peak_reg ≤ length env.regs) (sym same) room) safe h))

-- How a loop leaves the machine: at the end of its chunk with the variables of the evaluator, or with
-- the value of a `return`.
abbrev pub Left : {W : Type 0} → Outcome W → Flow → Type 0
Left (stopped m) (goes stack) = Locals m stack
Left (returned m v) (returns w) = v ≡ w
Left o r = ⊥

loop-Ends :
    {W : Type 0} (d : Doubles) (s : Scopes) (cb : Callbacks W) (c : Chunk) (env : Env W) (r : Flow)
    → Ends d s cb
        (closed c (instr return' 0 0 0 0)).code
        (start (closed c (instr return' 0 0 0 0)).consts env)
        (count c)
        r
    → (n : ℕ) × (o : Outcome W) × (run d cb n
          (closed c (instr return' 0 0 0 0)).code
          (start (closed c (instr return' 0 0 0 0)).consts env)
        ≡ some o)
      × Left o r
loop-Ends d s cb c env (goes stack) (m, reach, ip, k, l) =
    let f = closed c (instr return' 0 0 0 0) in
    let (n, q) = run-Reaches d cb f.code _ reach (
      1,
      run-return' d s cb f.code m
          (ap (get_elem? f.code) ip ∙ last_there d s cb c (instr return' 0 0 0 0)),
    ) in
    (n, stopped (record m { ip = m.ip + 1 }), q, l)
loop-Ends d s cb c env (returns v) (m, reach, (m', e)) =
    let f = closed c (instr return' 0 0 0 0) in
    let (n, q) = run-Reaches d cb f.code _ reach (1, e) in (n, returned m' v, q, refl)

-- A loop that is compiled to bytecode and run by `vm_run` comes to its end, after finitely many
-- instructions, with the variables that the evaluator leaves, or returns the value that this returns. The callbacks do not cancel, tick or track stores; all variables are in slots below
-- 128; and the rest is required as for a function.
pub run-compile_loop :
    {W : Type 0} (d : Doubles) (s : Scopes) (cb : Callbacks W) (p : Probes) (rounds : ℕ) (e : Node)
    (f : Chunk) (env : Env W) (r : Flow)
    → AgreeLoops d s rounds
    → IsIdle cb
    → IsPlainStmt e
    → IsSafe d s cb rounds e env.regs
    → compile_loop p e ≡ some f
    → f.peak_reg ≤ length env.regs
    → exec d s rounds e env.regs ≡ some r
    → (n : ℕ) × (o : Outcome W) × (run d cb n f.code (start f.consts env) ≡ some o) × Left o r
unfolding compile_loop
run-compile_loop {W} d s cb p rounds e f env r agree idle plain safe made room h =
    let c = compile_node p e (chunk_init false) in
    let last = instr return' 0 0 0 0 in
    let (ok, same) = finish_chunk-some c f last made in
    subst
      (λ (x : Chunk).
        (n : ℕ) × (o : Outcome W) × (run d cb n x.code (start x.consts env) ≡ some o) × Left o r)
      same
      (loop-Ends d s cb c env r (
        run_closed d s cb (IsSafe d s cb rounds e) (exec d s rounds e) false c last env r
          (compile_node-Done d s cb idle p rounds agree e (chunk_init false) plain
            (init-IsGood false) ok).piece
          (subst (λ (x : Chunk). x.peak_reg ≤ length env.regs) (sym same) room) safe h))
