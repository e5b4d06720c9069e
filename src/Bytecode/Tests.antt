-- ===== src/Bytecode/Tests.antt =====
-- Small programs, compiled and run.
use fluxa_lang.Base.{
  ℕ, zero, suc, ◌+◌, ◌%◌, ◌^◌, ◌≤◌, ◌≡◌, refl, sym, subst, ◌∙◌, List, [], ◌∷◌, Option, none, some,
  Bool, true, false, codes, str_eq, length, arith,
}
use mathlib.Core.Option.{some-injective}
use fluxa_lang.Ast.{
  Node, int_lit, identifier, binary, binary_op, add, lt, assign, block_stmt, while_stmt, func_decl,
  ret, Nodes, node, end,
}
use fluxa_lang.Prst.Value.{Value, nil, int, bool}
use fluxa_lang.Bytecode.{
  Chunk, chunk_init, alloc_reg, add_const, emit, patch, note_slot, string_drops, drops_from,
  drop_reg,
}
use fluxa_lang.Bytecode.Values.{bit, slt}
use fluxa_lang.Bytecode.Machine.{Env, Outcome, run, run_fn, start, for_fn}
use fluxa_lang.Bytecode.Compile.{
  Probes, compile_expr, load_scalar, compile_identifier, finish_binary,
}
use fluxa_lang.Bytecode.Statements.{
  compile_fn, compile_loop, compile_nodes, compile_node, close_node, finish_chunk, return_code,
  store_variable, drop_condition, while_code,
}
use fluxa_lang.Bytecode.Compiled.{IsPure}
use fluxa_lang.Bytecode.Statements.Plain.{whole, whole-IsExact, idle, empty}
use fluxa_lang.Bytecode.Statements.Safe.{
  IsPlainStmt, ArePlain, IsSafe, AreSafe, IsSafeLoop, IsDecided,
}
use fluxa_lang.Bytecode.Entries.{run_fn-compile_fn, run-compile_loop, Left}
use fluxa_lang.Eval.{eval, apply}
use fluxa_lang.Eval.Statements.{AgreeLoops, exec, exec_list, iterate}
use fluxa_lang.Eval.{goes, returns}

-- A program with no Blocks.
abbrev no_probes : Probes
no_probes = record {
  bare_field = λ n. none;
  field_is_scalar = λ o f. false;
  returns_scalar = λ o f. false;
  indexable = λ fn n off. false;
  is_block = λ n. false;
}

-- while x < 2 { x = x + 1 }
abbrev below_two : Node
below_two = binary (binary_op lt) (identifier (some 0) (codes "x")) (int_lit 2)

abbrev x_plus_one : Node
x_plus_one = binary (binary_op add) (identifier (some 0) (codes "x")) (int_lit 1)

abbrev count_up : Nodes
count_up = node (assign (some 0) (codes "x") x_plus_one) end

abbrev sample_loop : Node
sample_loop = while_stmt below_two (block_stmt count_up)

-- The loop, and return x
abbrev sample_body : Nodes
sample_body = node sample_loop (node (ret (identifier (some 0) (codes "x"))) end)

abbrev blank : ℕ → List Value
blank zero = []
blank (suc n) = nil ∷ blank n

-- A frame of one variable, with room for the temporaries.
abbrev frame : ℕ → List Value
frame k = int k ∷ blank 150

abbrev env : Env (Unit {0})
env = record { regs = frame 1; world = tt }

abbrev or_empty : Option Chunk → Chunk
or_empty none = chunk_init true
or_empty (some f) = f

abbrev is_some : Option Chunk → Bool
is_some none = false
is_some (some f) = true

some_of : (o : Option Chunk) → is_some o ≡ true → o ≡ some (or_empty o)
some_of none h = absurd (cc)
some_of (some f) h = refl

fn_chunk : Chunk
fn_chunk = or_empty (compile_fn no_probes (func_decl sample_body))

loop_chunk : Chunk
loop_chunk = or_empty (compile_loop no_probes sample_loop)

fn_compiles : is_some (compile_fn no_probes (func_decl sample_body)) ≡ true
unfolding compile_fn compile_nodes compile_node close_node finish_chunk string_drops drops_from
    drop_reg return_code store_variable drop_condition while_code compile_expr load_scalar
    compile_identifier finish_binary alloc_reg add_const emit patch note_slot
fn_compiles = refl

loop_compiles : is_some (compile_loop no_probes sample_loop) ≡ true
unfolding compile_loop compile_nodes compile_node close_node finish_chunk string_drops drops_from
    drop_reg store_variable drop_condition while_code compile_expr load_scalar compile_identifier
    finish_binary alloc_reg add_const emit patch note_slot
loop_compiles = refl

fn_made : compile_fn no_probes (func_decl sample_body) ≡ some fn_chunk
unfolding fn_chunk
fn_made = some_of (compile_fn no_probes (func_decl sample_body)) fn_compiles

loop_made : compile_loop no_probes sample_loop ≡ some loop_chunk
unfolding loop_chunk
loop_made = some_of (compile_loop no_probes sample_loop) loop_compiles

fn_room : fn_chunk.peak_reg ≤ length env.regs
unfolding fn_chunk compile_fn compile_nodes compile_node close_node finish_chunk string_drops
    drops_from drop_reg return_code store_variable drop_condition while_code compile_expr
    load_scalar compile_identifier finish_binary alloc_reg add_const emit patch note_slot
fn_room = omega arith

loop_room : loop_chunk.peak_reg ≤ length env.regs
unfolding loop_chunk compile_loop compile_nodes compile_node close_node finish_chunk string_drops
    drops_from drop_reg store_variable drop_condition while_code compile_expr load_scalar
    compile_identifier finish_binary alloc_reg add_const emit patch note_slot
loop_room = omega arith

-- What the expressions and the body do, for every value of x.
below_two-eval : (k : ℕ) → eval whole empty (frame k) below_two ≡ some (bool (bit (slt k 2)))
unfolding eval apply str_eq
below_two-eval k = refl

body-exec :
    (k : ℕ)
    → exec whole empty 5 (block_stmt count_up) (frame k) ≡ some (goes (frame ((k + 1) % 2 ^ 64)))
unfolding exec eval apply str_eq
body-exec k = refl

goes-injective : (a b : List Value) → some (goes a) ≡ some (goes b) → a ≡ b
goes-injective a b h = cc

x-IsPure : (k : ℕ) → IsPure whole empty idle (frame k) (identifier (some 0) (codes "x"))
x-IsPure k = (omega arith, unfold str_eq in refl, unfold str_eq in refl, tt)

below_two-IsPure : (k : ℕ) → IsPure whole empty idle (frame k) below_two
below_two-IsPure k = (x-IsPure k, tt, λ v w a b. whole-IsExact lt v w)

count_up-IsSafe : (k : ℕ) → AreSafe whole empty idle 5 count_up (frame k)
count_up-IsSafe k = ((x-IsPure k, tt, λ v w a b. whole-IsExact add v w), λ st h. tt)

-- Every round is safe, whatever x is.
loop-IsSafe :
    (n k : ℕ)
    → IsSafeLoop whole n
        (λ st. IsPure whole empty idle st below_two)
        (λ st. eval whole empty st below_two)
        (IsSafe whole empty idle 5 (block_stmt count_up))
        (exec whole empty 5 (block_stmt count_up))
        (frame k)
loop-IsSafe zero k = tt
loop-IsSafe (suc n) k = (
  below_two-IsPure k,
  λ v e.
      subst
        (λ x.
          IsDecided whole x
            (IsSafe whole empty idle 5 (block_stmt count_up) (frame k)
              × ((st : List Value)
                  → exec whole empty 5 (block_stmt count_up) (frame k) ≡ some (goes st)
                  → IsSafeLoop whole n (λ st'. IsPure whole empty idle st' below_two)
                      (λ st'. eval whole empty st' below_two)
                      (IsSafe whole empty idle 5 (block_stmt count_up))
                      (exec whole empty 5 (block_stmt count_up)) st))
            (Unit {0}))
        (some-injective _ _ (sym (below_two-eval k) ∙ e))
        (
          refl,
          λ t. (
            count_up-IsSafe k,
            λ st h.
                subst
                  (IsSafeLoop whole n (λ st'. IsPure whole empty idle st' below_two)
                    (λ st'. eval whole empty st' below_two)
                    (IsSafe whole empty idle 5 (block_stmt count_up))
                    (exec whole empty 5 (block_stmt count_up)))
                  (goes-injective _ _ (sym (body-exec k) ∙ h)) (loop-IsSafe n ((k + 1) % 2 ^ 64)),
          ),
          λ t. tt,
        ),
)

sample_loop-exec : exec whole empty 5 sample_loop (frame 1) ≡ some (goes (frame 2))
unfolding exec iterate eval apply str_eq
sample_loop-exec = refl

sample_body-exec : exec_list whole empty 5 sample_body (frame 1) ≡ some (returns (int 2))
unfolding exec iterate eval apply str_eq
sample_body-exec = refl

sample_body-AreSafe : AreSafe whole empty (for_fn idle) 5 sample_body (frame 1)
sample_body-AreSafe = (
  loop-IsSafe 5 1,
  λ st h.
      (subst
        (λ st'. AreSafe whole empty idle 5 (node (ret (identifier (some 0) (codes "x"))) end) st')
        (goes-injective _ _ (sym sample_loop-exec ∙ h)) (x-IsPure 2, λ st' h'. tt)),
)

sample_loop-IsPlain : IsPlainStmt sample_loop
sample_loop-IsPlain = (
  ((omega arith, unfold str_eq in refl, unfold str_eq in refl), tt),
  ((omega arith, ((omega arith, unfold str_eq in refl, unfold str_eq in refl), tt)), tt),
)

sample_body-ArePlain : ArePlain sample_body
sample_body-ArePlain =
    (sample_loop-IsPlain, ((omega arith, unfold str_eq in refl, unfold str_eq in refl), tt))

-- The evaluator with its own loops only.
no_machine : AgreeLoops whole empty 5
no_machine e body machine stack h = absurd (cc)

run_fn-compile_fn_example :
    (n : ℕ) × (run_fn whole idle n fn_chunk.code fn_chunk.consts env ≡ some (int 2))
run_fn-compile_fn_example =
    run_fn-compile_fn whole empty idle no_probes 5 sample_body fn_chunk env (returns (int 2))
      no_machine sample_body-ArePlain sample_body-AreSafe fn_made fn_room sample_body-exec

run-compile_loop_example :
    (n : ℕ) × (o : Outcome (Unit {0})) × (run whole idle n loop_chunk.code
        (start loop_chunk.consts env)
      ≡ some o)
    × Left o (goes (frame 2))
run-compile_loop_example =
    run-compile_loop whole empty idle no_probes 5 sample_loop loop_chunk env (goes (frame 2))
      no_machine
      (record {
        quiet = record { not_cancelled = λ e. refl; no_tick = λ e. refl };
        no_store = λ e a b. refl;
      })
      sample_loop-IsPlain (loop-IsSafe 5 1) loop_made loop_room sample_loop-exec
