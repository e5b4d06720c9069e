-- ===== src/Bytecode/Correct.antt =====
-- The induction over expressions.
use fluxa_lang.Base.{
  ℕ, ◌≤◌, ◌≡◌, sym, ap, ◌∙◌, subst, List, Option, none, some, true, ◌==◌, arith, Bool-cases, inl,
  inr, get_elem?,
}
use mathlib.Core.Option.{some-injective}
use fluxa_lang.Ast.{
  Node, int_lit, float_lit, bool_lit, string_lit, identifier, binary, logic_not, logic_and,
  logic_or, binary_op,
}
use fluxa_lang.Prst.Value.{Value, nil, int, float, bool}
use fluxa_lang.Bytecode.{Chunk}
use fluxa_lang.Bytecode.Values.{Doubles, truthy_logic}
use fluxa_lang.Bytecode.Machine.{Callbacks}
use fluxa_lang.Bytecode.Compile.{Probes, compile_expr, unless_failed}
use fluxa_lang.Bytecode.Extends.{IsGood}
use fluxa_lang.Bytecode.Compiled.{Compiled, IsPure, IsQuiet, HoldsValue}
use fluxa_lang.Bytecode.Agreement.{IsTidy, bit_le, apply-IsTidy}
use fluxa_lang.Bytecode.Loads.{load_scalar-Compiled, load_string-Compiled, identifier-Compiled}
use fluxa_lang.Bytecode.Operators.{
  unless-ok, and_then-some, finish_not-ok, finish_binary-ok, not-Compiled, binary-Compiled,
}
use fluxa_lang.Bytecode.ShortCircuit.{and-Compiled, or-Compiled}
use fluxa_lang.Eval.{Scopes, eval, read_slot}

module _ {W : Type 0} (d : Doubles) (s : Scopes) (cb : Callbacks W) (stack : List Value)
    (p : Probes) (quiet : IsQuiet cb) where
  read_slot-IsTidy :
      (o scopes : Option Value) (v : Value) → HoldsValue o → read_slot o scopes ≡ some v → IsTidy v
  read_slot-IsTidy none scopes v h e = absurd h
  read_slot-IsTidy (some nil) scopes v h e = absurd h
  read_slot-IsTidy (some (bool b)) scopes v h e = subst IsTidy (some-injective _ _ e) h
  read_slot-IsTidy (some _) scopes v h e = subst IsTidy (some-injective _ _ e) tt

  tidy_bits : (v : Value) → IsTidy v → truthy_logic v ≤ 1
  tidy_bits (bool b) h = h
  tidy_bits (int i) h = ground arith
  tidy_bits _ h = omega arith

  -- The evaluator gives no other bool than 0 and 1.
  eval-IsTidy :
      (e : Node) (v : Value) → IsPure d s cb stack e → eval d s stack e ≡ some v → IsTidy v
  unfolding eval
  eval-IsTidy (int_lit i) v pure h = subst IsTidy (some-injective _ _ h) tt
  eval-IsTidy (float_lit i) v pure h = subst IsTidy (some-injective _ _ h) tt
  eval-IsTidy (bool_lit i) v pure h = subst IsTidy (some-injective _ _ h) pure
  eval-IsTidy (string_lit i) v pure h = subst IsTidy (some-injective _ _ h) tt
  eval-IsTidy (identifier (some off) name) v (low, n1, n2, held) h =
      read_slot-IsTidy (get_elem? stack off) (s.lookup name) v held (rw (n1, n2) at h)
  eval-IsTidy (binary logic_not l r) v pure h =
      let (x, ex, fx) = and_then-some (eval d s stack l) _ v h in
      subst IsTidy (some-injective _ _ fx) (bit_le _)
  eval-IsTidy (binary logic_and l r) v (pl, pr) h =
      let (x, ex, fx) = and_then-some (eval d s stack l) _ v h in
      elim (Bool-cases (truthy_logic x == 0)) [
        | inl z ↦ subst IsTidy (some-injective _ _ (rw z at fx)) (omega arith)
        | inr n ↦
            let (y, ey, fy) = and_then-some (eval d s stack r) _ v (rw n at fx) in
            subst IsTidy (some-injective _ _ fy) (tidy_bits y (eval-IsTidy r y pr ey))
      ]
  eval-IsTidy (binary logic_or l r) v (pl, pr) h =
      let (x, ex, fx) = and_then-some (eval d s stack l) _ v h in
      elim (Bool-cases (truthy_logic x == 0)) [
        | inl z ↦
            let (y, ey, fy) = and_then-some (eval d s stack r) _ v (rw z at fx) in
            subst IsTidy (some-injective _ _ fy) (tidy_bits y (eval-IsTidy r y pr ey))
        | inr n ↦ subst IsTidy (some-injective _ _ (rw n at fx)) (omega arith)
      ]
  eval-IsTidy (binary (binary_op o) l r) v (pl, pr, exact) h =
      let (x, ex, fx) = and_then-some (eval d s stack l) _ v h in
      let (y, ey, fy) = and_then-some (eval d s stack r) _ v fx in apply-IsTidy d o x y v fy
  eval-IsTidy e v pure h = absurd pure

  compile_expr-ok :
      (e : Node) (c : Chunk)
      → IsPure d s cb stack e
      → (compile_expr p e c).0.ok ≡ true
      → c.ok ≡ true
  unfolding compile_expr
  compile_expr-ok (int_lit i) c pure h = (unless-ok c _ h).0
  compile_expr-ok (float_lit i) c pure h = (unless-ok c _ h).0
  compile_expr-ok (bool_lit i) c pure h = (unless-ok c _ h).0
  compile_expr-ok (string_lit i) c pure h = (unless-ok c _ h).0
  compile_expr-ok (identifier (some off) name) c pure h = (unless-ok c _ h).0
  compile_expr-ok (binary logic_not l r) c pure h = (unless-ok c _ h).0
  compile_expr-ok (binary logic_and l r) c pure h = (unless-ok c _ h).0
  compile_expr-ok (binary logic_or l r) c pure h = (unless-ok c _ h).0
  compile_expr-ok (binary (binary_op o) l r) c pure h = (unless-ok c _ h).0
  compile_expr-ok e c pure h = absurd pure

  in_order :
      (e : Node) (c : Chunk) (rest : Chunk × ℕ)
      → IsGood c
      → (rest.0.ok ≡ true → Compiled d s cb stack e c rest)
      → (unless_failed c rest).0.ok ≡ true
      → Compiled d s cb stack e c (unless_failed c rest)
  in_order e c rest g k h =
      let (ok, q) = unless-ok c rest h in
      subst (Compiled d s cb stack e c) (sym q) (k (ap (λ (x : Chunk × ℕ). x.0.ok) (sym q) ∙ h))

  pub compile_expr-Compiled :
      (e : Node) (c : Chunk)
      → IsPure d s cb stack e
      → IsGood c
      → (compile_expr p e c).0.ok ≡ true
      → Compiled d s cb stack e c (compile_expr p e c)
  unfolding compile_expr
  compile_expr-Compiled (int_lit i) c pure g = in_order (int_lit i) c _ g (
      load_scalar-Compiled d s cb stack (int_lit i) (int i) c
        (λ v e. unfold eval in some-injective _ _ e) g)
  compile_expr-Compiled (float_lit i) c pure g = in_order (float_lit i) c _ g (
      load_scalar-Compiled d s cb stack (float_lit i) (float i) c
        (λ v e. unfold eval in some-injective _ _ e) g)
  compile_expr-Compiled (bool_lit i) c pure g = in_order (bool_lit i) c _ g (
      load_scalar-Compiled d s cb stack (bool_lit i) (bool i) c
        (λ v e. unfold eval in some-injective _ _ e) g)
  compile_expr-Compiled (string_lit t) c pure g = in_order (string_lit t) c _ g (
      load_string-Compiled d s cb stack (string_lit t) t c
        (λ v e. unfold eval in some-injective _ _ e) g)
  compile_expr-Compiled (identifier (some off) name) c (low, n1, n2, held) g =
      in_order _ c _ g (λ h. identifier-Compiled d s cb stack p off name c low n1 n2 held g)
  compile_expr-Compiled (binary logic_not l r) c pure g = in_order _ c _ g (λ h.
      not-Compiled d s cb stack l r c (compile_expr p l c) g
        (compile_expr-Compiled l c pure g (finish_not-ok _ _ h)) h)
  compile_expr-Compiled (binary logic_and l r) c (pl, pr) g = in_order _ c _ g (
      and-Compiled d s cb stack l r (compile_expr p l) (compile_expr p r) c g
        (compile_expr-Compiled l c pl g, λ b gb. compile_expr-Compiled r b pr gb))
  compile_expr-Compiled (binary logic_or l r) c (pl, pr) g = in_order _ c _ g (
      or-Compiled d s cb stack l r (compile_expr p l) (compile_expr p r) c g
        (compile_expr-Compiled l c pl g, λ b gb. compile_expr-Compiled r b pr gb) quiet
        (λ x ex. tidy_bits x (eval-IsTidy l x pl ex)))
  compile_expr-Compiled (binary (binary_op o) l r) c (pl, pr, exact) g = in_order _ c _ g (λ h.
      let right_ok = finish_binary-ok o _ _ _ h in
      let left =
        compile_expr-Compiled l c pl g (compile_expr-ok r (compile_expr p l c).0 pr right_ok) in
      binary-Compiled d s cb stack o l r c (compile_expr p l c)
        (compile_expr p r (compile_expr p l c).0) g left
        (compile_expr-Compiled r (compile_expr p l c).0 pr left.good right_ok) exact h)
  compile_expr-Compiled e c pure g = absurd pure
