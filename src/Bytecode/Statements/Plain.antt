-- ===== src/Bytecode/Statements/Plain.antt =====
-- Expressions whose code needs no callback, and what the compiler leaves of a chunk for them, whatever
-- values their variables have.
use fluxa_lang.Base.{
  ℕ, zero, suc, ◌+◌, ◌-◌, ◌%◌, ◌^◌, ◌≤◌, ◌<◌, ◌≡◌, refl, subst, sym, List, none, some, true, false,
  ◌==◌, not, arith, get_elem?, replicate, str_eq, codes,
}
use fluxa_lang.Ast.{
  Node, int_lit, float_lit, bool_lit, string_lit, identifier, binary, logic_not, logic_and,
  logic_or, binary_op, BinaryOp, add, sub, lt, gt, lte, gte,
}
use fluxa_lang.Prst.Value.{Value, nil, int}
use fluxa_lang.Bytecode.{Chunk}
use fluxa_lang.Bytecode.Values.{Doubles, slt}
use fluxa_lang.Bytecode.Machine.{Callbacks}
use fluxa_lang.Bytecode.Compile.{Probes, compile_expr}
use fluxa_lang.Bytecode.Extends.{Extends, IsGood}
use fluxa_lang.Bytecode.Agreement.{IsExact}
use fluxa_lang.Bytecode.Compiled.{IsPure, HoldsValue}
use fluxa_lang.Bytecode.Correct.{compile_expr-Compiled}
use fluxa_lang.Eval.{Scopes}

-- An expression of literals, of variables that have a slot of the frame, and of operators.
abbrev pub IsPlain : Node → Type 0
IsPlain (int_lit i) = Unit {0}
IsPlain (float_lit f) = Unit {0}
IsPlain (bool_lit b) = b ≤ 1
IsPlain (string_lit t) = Unit {0}
IsPlain (identifier (some off) name) =
    (off < 128) × (str_eq name (codes "nil") ≡ false) × (str_eq name (codes "err") ≡ false)
IsPlain (binary logic_not l r) = IsPlain l
IsPlain (binary logic_and l r) = IsPlain l × IsPlain r
IsPlain (binary logic_or l r) = IsPlain l × IsPlain r
IsPlain (binary (binary_op o) l r) = IsPlain l × IsPlain r
IsPlain e = ⊥

-- A `double` that is a `long`, with which every expression is exact: nothing about a chunk depends on it.
abbrev pub whole : Doubles
whole = record {
  of_long = λ i. i;
  to_long = λ f. f;
  add = λ a b. (a + b) % 2 ^ 64;
  sub = λ a b. (a + 2 ^ 64 - b) % 2 ^ 64;
  mul = λ a b. a;
  div = λ a b. a;
  eq = λ a b. a == b;
  lt = λ a b. slt a b;
  le = λ a b. not (slt b a);
}

pub whole-IsExact : (o : BinaryOp) (v w : Value) → IsExact whole o v w
whole-IsExact add (int a) (int b) = refl
whole-IsExact add (int a) w = tt
whole-IsExact add v w = tt
whole-IsExact sub (int a) (int b) = refl
whole-IsExact sub (int a) w = tt
whole-IsExact sub v w = tt
whole-IsExact lt (int a) (int b) = refl
whole-IsExact lt (int a) w = tt
whole-IsExact lt v w = tt
whole-IsExact gt (int a) (int b) = refl
whole-IsExact gt (int a) w = tt
whole-IsExact gt v w = tt
whole-IsExact lte (int a) (int b) = refl
whole-IsExact lte (int a) w = tt
whole-IsExact lte v w = tt
whole-IsExact gte (int a) (int b) = refl
whole-IsExact gte (int a) w = tt
whole-IsExact gte v w = tt
whole-IsExact o v w = tt

abbrev pub idle : Callbacks (Unit {0})
idle = record {
  call_method = λ e o m a n. record { env = e; owner = o; result = nil };
  call_func = λ e m a n. record { env = e; owner = nil; result = nil };
  get_field = λ e o f. record { env = e; owner = o; result = nil };
  set_field = λ e o f v. record { env = e; owner = o; result = nil };
  index = λ e act c n h i v. record { env = e; cache = c; result = nil };
  cancelled = λ e. false;
  tick = λ e. e;
  store = λ e slot incoming. e;
}

abbrev pub empty : Scopes
empty = record { lookup = λ n. none; err_value = nil; loops = λ x. none }

abbrev zeros : List Value
zeros = replicate 128 (int 0)

get_elem?-replicate {ℓ} :
    {A : Type ℓ} (n k : ℕ) (a : A) → k < n → get_elem? (replicate n a) k ≡ some a
get_elem?-replicate zero k a h = absurd (omega arith)
get_elem?-replicate (suc n) zero a h = refl
get_elem?-replicate (suc n) (suc k) a h = get_elem?-replicate n k a (omega arith)

plain-IsPure : (e : Node) → IsPlain e → IsPure whole empty idle zeros e
plain-IsPure (int_lit i) h = tt
plain-IsPure (float_lit i) h = tt
plain-IsPure (bool_lit i) h = h
plain-IsPure (string_lit i) h = tt
plain-IsPure (identifier (some off) name) (low, n1, n2) =
    (low, n1, n2, subst HoldsValue (sym (get_elem?-replicate 128 off (int 0) low)) tt)
plain-IsPure (binary logic_not l r) h = plain-IsPure l h
plain-IsPure (binary logic_and l r) (a, b) = (plain-IsPure l a, plain-IsPure r b)
plain-IsPure (binary logic_or l r) (a, b) = (plain-IsPure l a, plain-IsPure r b)
plain-IsPure (binary (binary_op o) l r) (a, b) =
    (plain-IsPure l a, plain-IsPure r b, λ v w x y. whole-IsExact o v w)
plain-IsPure e h = absurd h

-- The chunk after an expression.
pub record Grown (c : Chunk) (res : Chunk × ℕ) : Type 0 where
  pub good : IsGood res.0
  pub grows : Extends c res.0

pub compile_expr-Grown :
    (p : Probes) (e : Node) (c : Chunk)
    → IsPlain e
    → IsGood c
    → (compile_expr p e c).0.ok ≡ true
    → Grown c (compile_expr p e c)
compile_expr-Grown p e c h g ok =
    let x =
      compile_expr-Compiled whole empty idle zeros p
        (record { not_cancelled = λ e'. refl; no_tick = λ e'. refl }) e c (plain-IsPure e h) g ok in
    record { good = x.good; grows = x.grows }
