-- ===== src/Bytecode/Agreement.antt =====
-- The operators of the machine and those of the evaluator.
use fluxa_lang.Base.{
  Bool, ◌≤◌, ◌==◌, ℕ, ◌+◌, ◌-◌, ◌%◌, ◌^◌, ◌≡◌, refl, ap, sym, subst, ◌∙◌, none, some, true, false,
  not, ◌&&◌, arith, Option-cases, Bool-cases, inl, inr,
}
use mathlib.Core.Option.{some-injective}
use fluxa_lang.Ast.{BinaryOp, add, sub, mul, div, mod', eq, neq, lt, gt, lte, gte}
use fluxa_lang.Prst.Value.{Value, int, float, bool}
use fluxa_lang.Bytecode.Values.{
  number, Doubles, bit, slt, as_double, both_int, is_number, value_eq, compare_double, vm_compare,
  vm_binary,
}
use fluxa_lang.Eval.{operand, apply, apply_double}

-- That a sum, a difference or an order of two `long` is the same when it is computed with `double`.
abbrev pub IsExact : Doubles → BinaryOp → Value → Value → Type 0
IsExact d add (int a) (int b) = d.to_long (d.add (d.of_long a) (d.of_long b)) ≡ (a + b) % 2 ^ 64
IsExact d sub (int a) (int b) =
    d.to_long (d.sub (d.of_long a) (d.of_long b)) ≡ (a + 2 ^ 64 - b) % 2 ^ 64
IsExact d lt (int a) (int b) = d.lt (d.of_long a) (d.of_long b) ≡ slt a b
IsExact d gt (int a) (int b) = d.lt (d.of_long b) (d.of_long a) ≡ slt b a
IsExact d lte (int a) (int b) = d.le (d.of_long a) (d.of_long b) ≡ not (slt b a)
IsExact d gte (int a) (int b) = d.le (d.of_long b) (d.of_long a) ≡ not (slt a b)
IsExact d o l r = Unit {0}

-- A number of the evaluator is the number of the machine.
operand_number :
    (d : Doubles) (v : Value) (x : ℕ)
    → operand d v ≡ some x
    → (is_number v ≡ true) × (as_double d v ≡ x)
operand_number d (int i) x h = (refl, some-injective _ _ h)
operand_number d (float f) x h = (refl, some-injective _ _ h)
operand_number d _ x h = absurd (cc)

-- The parts of a result that the evaluator gives for numbers.
Operands : Doubles → BinaryOp → Value → Value → Value → Type 0
Operands d o l r v =
    (is_number l ≡ true)
    × (is_number r ≡ true)
    × (apply_double d (both_int l r) o (as_double d l) (as_double d r) ≡ some v)

numbers_of :
    (d : Doubles) (o : BinaryOp) (l r v : Value)
    → (elim (operand d l) [
      | none ↦ none
      | some x ↦ elim (operand d r) [ none ↦ none | some y ↦ apply_double d (both_int l r) o x y ]
    ])
      ≡ some v
    → Operands d o l r v
unfolding Operands
numbers_of d o l r v h = elim (Option-cases (operand d l)) [
  | inl none_l ↦ absurd (cc (rw none_l at h))
  | inr (x, hx) ↦ elim (Option-cases (operand d r)) [
    | inl none_r ↦ absurd (cc (rw (hx, none_r) at h))
    | inr (y, hy) ↦
        let (nl, xl) = operand_number d l x hx in
        let (nr, yr) = operand_number d r y hy in (nl, nr, rw (xl, yr) (rw (hx, hy) at h))
  ]
]

-- The evaluator's equality is that of the machine.
compare_eq :
    (d : Doubles) (l r : Value)
    → (vm_compare d eq l r ≡ bool (bit (value_eq d l r)))
      × (vm_compare d neq l r ≡ bool (bit (not (value_eq d l r))))
unfolding vm_compare
compare_eq d (int a) (int b) = (refl, refl)
compare_eq d (int a) _ = (refl, refl)
compare_eq d _ r = (refl, refl)

-- An order with a `double` on the left.
order_float :
    (d : Doubles) (o : BinaryOp) (f : ℕ) (r v : Value)
    → Operands d o (float f) r v
    → apply_double d false o f (as_double d r)
      ≡ some (bool (bit (compare_double d o f (as_double d r))))
    → bool (bit (is_number r && compare_double d o f (as_double d r))) ≡ v
unfolding Operands
order_float d o f r v (nl, nr, k) same = rw nr (some-injective _ _ (sym same ∙ k))

-- Where the evaluator gives a value, the machine gives the same, if the operator is exact on the two.
pub vm_binary-apply :
    (d : Doubles) (o : BinaryOp) (l r v : Value)
    → apply d o l r ≡ some v
    → IsExact d o l r
    → vm_binary d o l r ≡ v
unfolding apply vm_binary Operands
vm_binary-apply d add (int a) (int b) v h e = ap int (sym e) ∙ some-injective _ _ h
vm_binary-apply d add (int a) r v h e = some-injective _ _ (numbers_of d add (int a) r v h).2
vm_binary-apply d add l r v h e = some-injective _ _ (numbers_of d add l r v h).2
vm_binary-apply d sub (int a) (int b) v h e = ap int (sym e) ∙ some-injective _ _ h
vm_binary-apply d sub (int a) r v h e = some-injective _ _ (numbers_of d sub (int a) r v h).2
vm_binary-apply d sub l r v h e = some-injective _ _ (numbers_of d sub l r v h).2
vm_binary-apply d mul l r v h e = some-injective _ _ (numbers_of d mul l r v h).2
vm_binary-apply d div l r v h e = elim (Bool-cases (d.eq (as_double d r) 0)) [
  | inl z ↦ absurd (cc (rw z at (numbers_of d div l r v h).2))
  | inr n ↦ rw n (some-injective _ _ (rw n at (numbers_of d div l r v h).2))
]
vm_binary-apply d mod' l r v h e = ground (arith, (numbers_of d mod' l r v h).2)
vm_binary-apply d eq l r v h e = (compare_eq d l r).0 ∙ some-injective _ _ h
vm_binary-apply d neq l r v h e = (compare_eq d l r).1 ∙ some-injective _ _ h
vm_binary-apply d lt (int a) (int b) v h e = ap (λ x. bool (bit x)) (sym e) ∙ some-injective _ _ h
vm_binary-apply d lt (int a) r v h e = cc
vm_binary-apply d lt (float f) r v h e =
    order_float d lt f r v (numbers_of d lt (float f) r v h) refl
vm_binary-apply d lt l r v h e = absurd (cc)
vm_binary-apply d gt (int a) (int b) v h e = ap (λ x. bool (bit x)) (sym e) ∙ some-injective _ _ h
vm_binary-apply d gt (int a) r v h e = cc
vm_binary-apply d gt (float f) r v h e =
    order_float d gt f r v (numbers_of d gt (float f) r v h) refl
vm_binary-apply d gt l r v h e = absurd (cc)
vm_binary-apply d lte (int a) (int b) v h e = ap (λ x. bool (bit x)) (sym e) ∙ some-injective _ _ h
vm_binary-apply d lte (int a) r v h e = cc
vm_binary-apply d lte (float f) r v h e =
    order_float d lte f r v (numbers_of d lte (float f) r v h) refl
vm_binary-apply d lte l r v h e = absurd (cc)
vm_binary-apply d gte (int a) (int b) v h e = ap (λ x. bool (bit x)) (sym e) ∙ some-injective _ _ h
vm_binary-apply d gte (int a) r v h e = cc
vm_binary-apply d gte (float f) r v h e =
    order_float d gte f r v (numbers_of d gte (float f) r v h) refl
vm_binary-apply d gte l r v h e = absurd (cc)

-- A bool is 0 or 1.
abbrev pub IsTidy : Value → Type 0
IsTidy (bool b) = b ≤ 1
IsTidy v = Unit {0}

pub bit_le : (b : Bool) → bit b ≤ 1
bit_le true = omega arith
bit_le false = omega arith

number-IsTidy : (d : Doubles) (b : Bool) (x : ℕ) → IsTidy (number d b x)
number-IsTidy d true x = tt
number-IsTidy d false x = tt

double-IsTidy :
    (d : Doubles) (b : Bool) (o : BinaryOp) (x y : ℕ) (v : Value)
    → apply_double d b o x y ≡ some v
    → IsTidy v
double-IsTidy d b add x y v h = subst IsTidy (some-injective _ _ h) (number-IsTidy d b _)
double-IsTidy d b sub x y v h = subst IsTidy (some-injective _ _ h) (number-IsTidy d b _)
double-IsTidy d b mul x y v h = subst IsTidy (some-injective _ _ h) (number-IsTidy d b _)
double-IsTidy d b div x y v h = elim (Bool-cases (d.eq y 0)) [
  | inl z ↦ absurd (cc (rw z at h))
  | inr n ↦ subst IsTidy (some-injective _ _ (rw n at h)) (number-IsTidy d b _)
]
double-IsTidy d true mod' x y v h = elim (Bool-cases (d.to_long y == 0)) [
  | inl z ↦ absurd (cc (rw z at h))
  | inr n ↦ subst IsTidy (some-injective _ _ (rw n at h)) tt
]
double-IsTidy d false mod' x y v h = absurd (cc)
double-IsTidy d b lt x y v h = subst IsTidy (some-injective _ _ h) (bit_le _)
double-IsTidy d b gt x y v h = subst IsTidy (some-injective _ _ h) (bit_le _)
double-IsTidy d b lte x y v h = subst IsTidy (some-injective _ _ h) (bit_le _)
double-IsTidy d b gte x y v h = subst IsTidy (some-injective _ _ h) (bit_le _)
double-IsTidy d b o x y v h = absurd (cc)

-- An operator gives no other bool than 0 and 1.
pub apply-IsTidy : (d : Doubles) (o : BinaryOp) (l r v : Value) → apply d o l r ≡ some v → IsTidy v
unfolding apply Operands
apply-IsTidy d eq l r v h = subst IsTidy (some-injective _ _ h) (bit_le _)
apply-IsTidy d neq l r v h = subst IsTidy (some-injective _ _ h) (bit_le _)
apply-IsTidy d o l r v h =
    double-IsTidy d (both_int l r) o (as_double d l) (as_double d r) v (numbers_of d o l r v h).2
