-- ===== src/Bytecode/Values.antt =====
-- src/bytecode.c: what the machine's instructions compute of values. A `long` is its 64-bit pattern, a
-- `double` the 64 bits of its representation; the arithmetic of `double`, which is the processor's, is
-- a parameter.
use fluxa_lang.Base.{
  ℕ, ◌+◌, ◌-◌, ◌%◌, ◌^◌, Bool, true, false, ltb, ◌==◌, if◌then◌else◌, ◌&&◌, not, str_eq,
}
use fluxa_lang.Ast.{BinaryOp, add, sub, mul, div, mod', eq, neq, lt, gt, lte, gte}
use fluxa_lang.Prst.Value.{Value, nil, int, float, bool, string}

-- The processor's `double`: the casts, the four operations and the comparisons.
pub record Doubles : Type 0 where
  pub of_long : ℕ → ℕ
  pub to_long : ℕ → ℕ
  pub add : ℕ → ℕ → ℕ
  pub sub : ℕ → ℕ → ℕ
  pub mul : ℕ → ℕ → ℕ
  pub div : ℕ → ℕ → ℕ
  pub eq : ℕ → ℕ → Bool
  pub lt : ℕ → ℕ → Bool
  pub le : ℕ → ℕ → Bool

-- An `int` for a test.
abbrev pub bit : Bool → ℕ
bit b = if b then 1 else 0

-- `a < b` for two `long`.
abbrev pub slt : ℕ → ℕ → Bool
slt a b = ltb ((a + 2 ^ 63) % 2 ^ 64) ((b + 2 ^ 63) % 2 ^ 64)

abbrev pub magnitude : ℕ → ℕ
magnitude a = if ltb a (2 ^ 63) then a else 2 ^ 64 - a

-- `a % b` for two `long`: the sign is that of `a`.
abbrev pub srem : ℕ → ℕ → ℕ
srem a b =
    if ltb a (2 ^ 63)
    then magnitude a % magnitude b
    else (2 ^ 64 - magnitude a % magnitude b) % 2 ^ 64

abbrev pub is_number : Value → Bool
is_number (int i) = true
is_number (float f) = true
is_number v = false

module _ (d : Doubles) where
  -- `vm_truthy`
  abbrev pub truthy : Value → Bool
  truthy (bool b) = not (b == 0)
  truthy (int i) = not (i == 0)
  truthy (float f) = not (d.eq f 0)
  truthy v = false

  -- `vm_truthy_not`
  abbrev pub truthy_not : Value → Bool
  truthy_not (bool b) = not (b == 0)
  truthy_not (int i) = not (i == 0)
  truthy_not (float f) = not (d.eq f 0)
  truthy_not nil = false
  truthy_not v = true

  -- The `double` of an operand of `vm_arith`; 0.0 is the pattern 0.
  abbrev pub as_double : Value → ℕ
  as_double (int i) = d.of_long i
  as_double (float f) = f
  as_double v = 0

-- `vm_truthy_logic`, which returns the number that a bool holds.
abbrev pub truthy_logic : Value → ℕ
truthy_logic (bool b) = b
truthy_logic (int i) = bit (not (i == 0))
truthy_logic nil = 0
truthy_logic v = 1

abbrev pub both_int : Value → Value → Bool
both_int (int a) (int b) = true
both_int (int a) r = false
both_int l r = false

-- The result of `vm_arith` from the `double`.
abbrev pub number : Doubles → Bool → ℕ → Value
number d b res = if b then int (d.to_long res) else float res

-- `vm_arith`
unfoldable pub vm_arith : Doubles → BinaryOp → Value → Value → Value
vm_arith d add l r = number d (both_int l r) (d.add (as_double d l) (as_double d r))
vm_arith d sub l r = number d (both_int l r) (d.sub (as_double d l) (as_double d r))
vm_arith d mul l r = number d (both_int l r) (d.mul (as_double d l) (as_double d r))
vm_arith d div l r =
    number d (both_int l r)
      (if d.eq (as_double d r) 0 then 0 else d.div (as_double d l) (as_double d r))
vm_arith d mod' l r =
    if both_int l r && not (d.to_long (as_double d r) == 0)
    then int (srem (d.to_long (as_double d l)) (d.to_long (as_double d r)))
    else int 0
vm_arith d op l r = number d (both_int l r) (0)

-- The comparison of two `long` in `vm_compare`.
abbrev pub compare_long : BinaryOp → ℕ → ℕ → Bool
compare_long eq a b = a == b
compare_long neq a b = not (a == b)
compare_long lt a b = slt a b
compare_long gt a b = slt b a
compare_long lte a b = not (slt b a)
compare_long gte a b = not (slt a b)
compare_long op a b = false

-- The equality of `vm_compare`.
abbrev pub value_eq : Doubles → Value → Value → Bool
value_eq d nil nil = true
value_eq d (int a) (int b) = a == b
value_eq d (float a) (float b) = d.eq a b
value_eq d (bool a) (bool b) = a == b
value_eq d (string s) (string t) = str_eq s t
value_eq d l r = false

-- The order of `vm_compare` on two `double`.
abbrev pub compare_double : Doubles → BinaryOp → ℕ → ℕ → Bool
compare_double d lt a b = d.lt a b
compare_double d gt a b = d.lt b a
compare_double d lte a b = d.le a b
compare_double d gte a b = d.le b a
compare_double d op a b = false

-- The part of `vm_compare` for operands that are not both `long`.
abbrev pub compare_mixed : Doubles → BinaryOp → Value → Value → Bool
compare_mixed d eq l r = value_eq d l r
compare_mixed d neq l r = not (value_eq d l r)
compare_mixed d op l r =
    is_number l && is_number r && compare_double d op (as_double d l) (as_double d r)

-- `vm_compare`
unfoldable pub vm_compare : Doubles → BinaryOp → Value → Value → Value
vm_compare d op (int a) (int b) = bool (bit (compare_long op a b))
vm_compare d op l r = bool (bit (compare_mixed d op l r))

-- The instructions `OP_ADD` to `OP_GTE`: a sum, a difference and an order of two `long` is not
-- computed with `double`.
unfoldable pub vm_binary : Doubles → BinaryOp → Value → Value → Value
unfolding vm_arith vm_compare
vm_binary d add (int a) (int b) = int ((a + b) % 2 ^ 64)
vm_binary d add l r = vm_arith d add l r
vm_binary d sub (int a) (int b) = int ((a + 2 ^ 64 - b) % 2 ^ 64)
vm_binary d sub l r = vm_arith d sub l r
vm_binary d mul l r = vm_arith d mul l r
vm_binary d div l r = vm_arith d div l r
vm_binary d mod' l r = vm_arith d mod' l r
vm_binary d eq l r = vm_compare d eq l r
vm_binary d neq l r = vm_compare d neq l r
vm_binary d lt l r = vm_compare d lt l r
vm_binary d gt l r = vm_compare d gt l r
vm_binary d lte l r = vm_compare d lte l r
vm_binary d gte l r = vm_compare d gte l r
