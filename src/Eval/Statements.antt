-- ===== src/Eval/Statements.antt =====
-- src/runtime.c: the evaluator on statements of a frame: assignments of slots, blocks, `if`, `while`
-- and `return`. The variables are not persistent and belong to no instance. `none` is that an error
-- was raised. A `while` that chunk_compile_loop accepts is run by the machine, a parameter; else it is
-- run by its own loop, which has no limit of rounds, as with a flag that can cancel it and is not set;
-- the model gives it a number of rounds, and `none` where they are over.
use fluxa_lang.Base.{
  ◌≡◌, refl, inl, inr, Option-cases, ℕ, zero, suc, ◌-◌, List, [], ◌∷◌, ◌++◌, Option, none, some,
  Bool, true, false, ltb, ◌==◌, if◌then◌else◌, ◌||◌, length, get_elem?, set, replicate,
}
use fluxa_lang.Ast.{Node, null, assign, block_stmt, if_stmt, while_stmt, ret, Nodes, end, node}
use fluxa_lang.Prst.Value.{Value, nil, string, val_type, type_nil}
use fluxa_lang.Bytecode.Values.{Doubles, truthy}
use fluxa_lang.Eval.{Scopes, Flow, goes, returns, eval, read_slot}

-- `truthy` of `if` and `while`: here a string counts, too.
abbrev pub cond_true : Doubles → Value → Bool
cond_true d (string []) = false
cond_true d (string (b ∷ bs)) = true
cond_true d v = truthy d v

-- `rt_set` of a variable with a slot; the stack grows up to it.
abbrev pub write_slot : List Value → ℕ → Value → List Value
write_slot stack off v =
    if ltb off (length stack)
    then set stack off v
    else stack ++ (replicate (off - length stack) nil ++ v ∷ [])

-- The check of the type, and the write; `cur` is what `rt_get` finds.
abbrev pub store_checked : Option Value → List Value → ℕ → Value → Option Flow
store_checked none stack off v = none
store_checked (some cur) stack off v =
    if val_type cur == type_nil || val_type cur == val_type v
    then some (goes (write_slot stack off v))
    else none

abbrev pub with_value : Option Value → (Value → Option Flow) → Option Flow
with_value none f = none
with_value (some v) f = f v

-- What follows a statement, unless it returned.
abbrev pub go_on : Option Flow → (List Value → Option Flow) → Option Flow
go_on none rest = none
go_on (some (goes stack)) rest = rest stack
go_on (some (returns v)) rest = some (returns v)

-- The loop of `while`, with how condition and body are evaluated.
unfoldable pub iterate :
    Doubles
    → ℕ
    → (List Value → Option Value)
    → (List Value → Option Flow)
    → List Value
    → Option Flow
iterate d zero cond body stack = none
iterate d (suc n) cond body stack = with_value (cond stack) (λ v. elim (cond_true d v) [
  | true ↦ go_on (body stack) (iterate d n cond body)
  | false ↦ some (goes stack)
])

module _ (d : Doubles) (s : Scopes) (rounds : ℕ) where
  unfoldable mutual
    -- `eval` of these statements. The other kinds are not modelled; here they give `none`.
    pub exec : Node → List Value → Option Flow
    exec null stack = some (goes stack)
    exec (assign (some off) name e) stack =
        with_value (eval d s stack e)
          (λ v. store_checked (read_slot (get_elem? stack off) (s.lookup name)) stack off v)
    exec (block_stmt es) stack = exec_list es stack
    exec (if_stmt e t f) stack =
        with_value (eval d s stack e)
          (λ v. elim (cond_true d v) [ true ↦ exec t stack | false ↦ exec f stack ])
    exec (while_stmt e body) stack = elim (s.loops (while_stmt e body)) [
      | none ↦ iterate d rounds (λ st. eval d s st e) (exec body) stack
      | some machine ↦ machine stack
    ]
    exec (ret null) stack = some (returns nil)
    exec (ret e) stack = with_value (eval d s stack e) (λ v. some (returns v))
    exec e stack = none

    -- The loop over the statements of a block.
    pub exec_list : Nodes → List Value → Option Flow
    exec_list end stack = some (goes stack)
    exec_list (node e es) stack = go_on (exec e stack) (exec_list es)

  -- Where the machine is used for a loop, it does what the loop of the evaluator does.
  abbrev pub AgreeLoops : Type 0
  AgreeLoops =
      (e body : Node) (machine : List Value → Option Flow) (stack : List Value)
      → s.loops (while_stmt e body) ≡ some machine
      → machine stack ≡ iterate d rounds (λ st. eval d s st e) (exec body) stack

  pub exec-while_stmt :
      (e body : Node) (stack : List Value)
      → AgreeLoops
      → exec (while_stmt e body) stack ≡ iterate d rounds (λ st. eval d s st e) (exec body) stack
  unfolding exec
  exec-while_stmt e body stack agree = elim (Option-cases (s.loops (while_stmt e body))) [
    | inl refused ↦ rw (refused, exec) refl
    | inr (machine, taken) ↦ rw (taken, exec) (agree e body machine stack taken)
  ]
