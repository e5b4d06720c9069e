-- ===== src/Bytecode/Statements/Branching.antt =====
-- The code of `if`, with and without `else`.
use fluxa_lang.Base.{
  ℕ, ◌≡◌, refl, sym, ap, ◌∙◌, subst, List, Option, some, true, false, arith, get_elem?, Bool-cases,
  inl, inr,
}
use mathlib.Core.Option.{some-injective}
use fluxa_lang.Ast.{Node}
use fluxa_lang.Prst.Value.{Value}
use fluxa_lang.Bytecode.{Instruction, instr, jump, Chunk, count, patch}
use fluxa_lang.Bytecode.Values.{Doubles, truthy}
use fluxa_lang.Bytecode.Machine.{Callbacks, Machine, running, step, dispatch}
use fluxa_lang.Bytecode.Extends.{Extends-trans}
use fluxa_lang.Bytecode.Patches.{patch-Extends, patch-IsGood, count-patch, get-patch, get-patch_ne}
use fluxa_lang.Bytecode.Runs.{here, next, Reaches-trans, step-dispatch}
use fluxa_lang.Bytecode.Compiled.{Covers, IsAt, IsPure}
use fluxa_lang.Bytecode.Statements.Pieces.{Ends, Piece, IsAt-patch}
use fluxa_lang.Bytecode.Statements.Safe.{IsDecided, IsIdle}
use fluxa_lang.Bytecode.Statements.Conditions.{Lands}
use fluxa_lang.Bytecode.Statements.Guards.{
  Guarded, with_value-some, longer, test_there, stands, on_true, on_false,
}
use fluxa_lang.Eval.{Scopes, eval}
use fluxa_lang.Eval.Statements.{cond_true, with_value}
use fluxa_lang.Eval.{Flow, goes}

module _ {W : Type 0} (d : Doubles) (s : Scopes) (cb : Callbacks W) where
  step-jump :
      (idle : IsIdle cb) (code : List Instruction) (m : Machine W) (target : ℕ)
      → get_elem? code m.ip ≡ some (instr jump 0 0 0 target)
      → step d cb code m ≡ running (record m { ip = target })
  unfolding dispatch
  step-jump idle code m target h =
      step-dispatch d cb code m (instr jump 0 0 0 target) h
      ∙ rw (idle.quiet.not_cancelled m.env, idle.quiet.no_tick m.env) refl

  -- A jump behind a statement.
  pub jump_on :
      (idle : IsIdle cb) (code : List Instruction) (m : Machine W) (n target : ℕ)
      (stack : List Value)
      → get_elem? code n ≡ some (instr jump 0 0 0 target)
      → Lands d s cb code m n stack
      → Lands d s cb code m target stack
  jump_on idle code m n target stack there (m1, r1, ip1, k1, l1) = (
    record m1 { ip = target },
    Reaches-trans d cb code r1
        (next (step-jump idle code m1 target (ap (get_elem? code) ip1 ∙ there)) here),
    refl,
    record { same_consts = k1.same_consts; same_length = k1.same_length },
    l1,
  )

  module _ (e : Node) (St : List Value → Type 0) (dt : List Value → Option Flow)
      (Sf : List Value → Type 0) (df : List Value → Option Flow) where
    abbrev pub SafeIf : List Value → Type 0
    SafeIf stack =
        IsPure d s cb stack e
        × ((v : Value) → eval d s stack e ≡ some v → IsDecided d v (St stack) (Sf stack))

    abbrev pub does_if : List Value → Option Flow
    does_if stack =
        with_value (eval d s stack e)
          (λ v. elim (cond_true d v) [ true ↦ dt stack | false ↦ df stack ])

    -- The two ways of a condition.
    pub decide :
        (stack : List Value) (f : Flow) (Goal : Type 0)
        → SafeIf stack
        → does_if stack ≡ some f
        → ((v : Value)
            → eval d s stack e ≡ some v
            → truthy d v ≡ true
            → St stack
            → dt stack ≡ some f
            → Goal)
        → ((v : Value)
            → eval d s stack e ≡ some v
            → truthy d v ≡ false
            → Sf stack
            → df stack ≡ some f
            → Goal)
        → Goal
    decide stack f Goal (pure, safe) h yes' no' =
        let (v, ev, q) = with_value-some _ _ f h in
        let (dec, st, sf) = safe v ev in
        elim (Bool-cases (truthy d v)) [
          | inl t ↦ yes' v ev t (st t) (rw (dec ∙ t) at q)
          | inr t ↦ no' v ev t (sf t) (rw (dec ∙ t) at q)
        ]

  module _ (e : Node) (St : List Value → Type 0) (dt : List Value → Option Flow) (c : Chunk)
      (res : Chunk × ℕ) (c2 c3 : Chunk) (gd : Guarded d s cb e St dt c res c2 c3) where
    -- Without `else`: the test goes to the end.
    pub if-Piece :
        Piece d s cb
          (SafeIf e St dt (λ stack. Unit {0}) (λ stack. some (goes stack)))
          (does_if e St dt (λ stack. Unit {0}) (λ stack. some (goes stack)))
          c
          (patch c3 (count res.0) (count c3))
    if-Piece = record {
      good = patch-IsGood c3 _ _ gd.body.good;
      grows =
          patch-Extends c c3 (count res.0) (count c3) gd.grown.grows.code_grows
            (Extends-trans gd.tested.grows gd.body.grows);
      runs = λ code m stack f cov at safe h.
          subst (λ n. Ends d s cb code m n f) (sym (count-patch c3 (count res.0) (count c3)))
            (runs code m stack f cov (IsAt-patch d s cb stack c c3 _ _ m at) safe h);
    }
      where
        runs :
            (code : List Instruction) (m : Machine W) (stack : List Value) (f : Flow)
            → Covers d s cb stack code c (patch c3 (count res.0) (count c3))
            → IsAt d s cb stack c c3 m
            → SafeIf e St dt (λ st. Unit {0}) (λ st. some (goes st)) stack
            → does_if e St dt (λ st. Unit {0}) (λ st. some (goes st)) stack ≡ some f
            → Ends d s cb code m (count c3) f
        runs code m stack f cov at safe h =
            let long = longer d s cb e St dt c res c2 c3 gd in
            let size = count-patch c3 (count res.0) (count c3) in
            let st =
              stands d s cb e St dt c res c2 c3 gd code (count c3)
                (λ i x y n. cov i x (omega (arith, y, size)) ∙ get-patch_ne c3 _ _ i n)
                (cov (count res.0) gd.grown.grows.code_grows (omega (arith, long, size))
                  ∙ get-patch c3 _ _ _ (test_there d s cb e St dt c res c2 c3 gd)) in
            decide e St dt (λ st'. Unit {0}) (λ st'. some (goes st')) stack f
              (Ends d s cb code m (count c3) f) safe h
              (λ v ev t sf q.
                on_true d s cb e St dt c res c2 c3 gd code (count c3) st m stack at safe.0 v ev f t
                  sf q)
              (λ v ev t sf q. subst (Ends d s cb code m (count c3)) (some-injective _ _ q) (
                on_false d s cb e St dt c res c2 c3 gd code (count c3) st m stack at safe.0 v ev t))
