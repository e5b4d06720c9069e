-- ===== src/Eval.antt =====
-- src/runtime.c: the evaluator on literals, on variables of a frame and on operators. `none` is that an
-- error was raised. The stack is a list, and the scopes that a name is looked up in when its slot has
-- no value are a parameter.
pub mod Statements
use fluxa_lang.Base.{
  ℕ, List, Option, none, some, Bool, ◌==◌, if◌then◌else◌, not, get_elem?, str_eq, codes,
}
use fluxa_lang.Ast.{
  Node, int_lit, float_lit, bool_lit, string_lit, identifier, binary, logic_not, logic_and,
  logic_or, binary_op, unknown, BinaryOp, add, sub, mul, div, mod', eq, neq, lt, gt, lte, gte,
}
use fluxa_lang.Prst.Value.{Value, nil, int, float, bool, string}
use fluxa_lang.Bytecode.Values.{
  Doubles, bit, truthy_not, truthy_logic, both_int, number, value_eq, srem,
}

-- `l` and `r` of `eval_binary`: an operand that is no number raises an error.
abbrev pub operand : Doubles → Value → Option ℕ
operand d (int i) = some (d.of_long i)
operand d (float f) = some f
operand d v = none

-- The operators of `eval_binary` on two `double`; `b` is `both_int`.
abbrev pub apply_double : Doubles → Bool → BinaryOp → ℕ → ℕ → Option Value
apply_double d b add l r = some (number d b (d.add l r))
apply_double d b sub l r = some (number d b (d.sub l r))
apply_double d b mul l r = some (number d b (d.mul l r))
apply_double d b div l r = if d.eq r 0 then none else some (number d b (d.div l r))
apply_double d b mod' l r =
    if not b
    then none
    else if d.to_long r == 0
    then none
    else some (int (srem (d.to_long l) (d.to_long r)))
apply_double d b lt l r = some (bool (bit (d.lt l r)))
apply_double d b gt l r = some (bool (bit (d.lt r l)))
apply_double d b lte l r = some (bool (bit (d.le l r)))
apply_double d b gte l r = some (bool (bit (d.le r l)))
apply_double d b op l r = none

-- `eval_binary` once both sides are evaluated.
unfoldable pub apply : Doubles → BinaryOp → Value → Value → Option Value
apply d eq l r = some (bool (bit (value_eq d l r)))
apply d neq l r = some (bool (bit (not (value_eq d l r))))
apply d op l r = elim (operand d l) [
  | none ↦ none
  | some x ↦ elim (operand d r) [ none ↦ none | some y ↦ apply_double d (both_int l r) op x y ]
]

-- `rt_get` of a variable with a slot, for one that is not persistent.
abbrev pub read_slot : Option Value → Option Value → Option Value
read_slot none scopes = scopes
read_slot (some nil) scopes = scopes
read_slot (some v) scopes = some v

abbrev pub and_then : Option Value → (Value → Option Value) → Option Value
and_then none f = none
and_then (some v) f = f v

-- The stack after a statement, or the value of a return.
pub data Flow : Type 0 where
  goes : List Value → Flow
  returns : Value → Flow

-- What the evaluator asks the rest of the interpreter: the scopes behind the stack, the value of `err`,
-- and what the machine makes of a `while` that the bytecode compiler accepts.
pub record Scopes : Type 0 where
  pub lookup : List ℕ → Option Value
  pub err_value : Value
  pub loops : Node → Option (List Value → Option Flow)

module _ (d : Doubles) (s : Scopes) (stack : List Value) where
  -- `eval` of a name: `nil` and `err` are no variables.
  abbrev pub eval_name : Option ℕ → List ℕ → Option Value
  eval_name off name =
      if str_eq name (codes "nil")
      then some nil
      else if str_eq name (codes "err")
      then some s.err_value
      else elim off [
        | none ↦ s.lookup name
        | some k ↦ read_slot (get_elem? stack k) (s.lookup name)
      ]

  -- `eval` of these nodes, with `eval_binary`. The other kinds of nodes are not modelled; here they give
  -- `none` as an operator without a meaning does.
  unfoldable pub eval : Node → Option Value
  unfolding apply
  eval (int_lit i) = some (int i)
  eval (float_lit f) = some (float f)
  eval (bool_lit b) = some (bool b)
  eval (string_lit t) = some (string t)
  eval (identifier off name) = eval_name off name
  eval (binary logic_not l r) = and_then (eval l) (λ v. some (bool (bit (not (truthy_not d v)))))
  eval (binary logic_and l r) =
      let right = eval r in
      and_then (eval l) (λ v.
        if truthy_logic v == 0
        then some (bool 0)
        else and_then right (λ w. some (bool (truthy_logic w))))
  eval (binary logic_or l r) =
      let right = eval r in
      and_then (eval l) (λ v.
        if truthy_logic v == 0
        then and_then right (λ w. some (bool (truthy_logic w)))
        else some (bool 1))
  eval (binary (binary_op o) l r) =
      let right = eval r in and_then (eval l) (λ v. and_then right (λ w. apply d o v w))
  eval (binary unknown l r) = none
  eval e = none
