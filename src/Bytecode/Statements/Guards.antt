-- ===== src/Bytecode/Statements/Guards.antt =====
-- A condition with the code that it guards, as `if` and `while` have it.
use fluxa_lang.Base.{
  ℕ, ◌+◌, ◌≤◌, ◌<◌, ◌≡◌, ◌≢◌, refl, sym, ◌∙◌, subst, List, Option, none, some, Bool, true, false,
  if◌then◌else◌, arith, get_elem?,
}
use fluxa_lang.Ast.{Node}
use fluxa_lang.Prst.Value.{Value}
use fluxa_lang.Bytecode.{Instruction, instr, jump_if_false, Chunk, count, emit}
use fluxa_lang.Bytecode.Values.{Doubles, truthy}
use fluxa_lang.Bytecode.Machine.{Callbacks, Machine}
use fluxa_lang.Bytecode.Extends.{
  Extends, Extends-refl, Extends-trans, IsGood, emit-Extends, count-emit, last-emit,
}
use fluxa_lang.Bytecode.Compiled.{Compiled, IsAt, IsPure}
use fluxa_lang.Bytecode.Statements.Plain.{Grown}
use fluxa_lang.Bytecode.Statements.Drops.{Extends-reset}
use fluxa_lang.Bytecode.Statements.Pieces.{Ends, Ends-after, Piece, IsAt-next, IsAt-reset}
use fluxa_lang.Bytecode.Statements.Conditions.{Lands, Tested, test, pass_drops}
use fluxa_lang.Eval.{Scopes, eval}
use fluxa_lang.Eval.Statements.{with_value}
use fluxa_lang.Eval.{Flow}

pub with_value-some :
    (o : Option Value) (f : Value → Option Flow) (r : Flow)
    → with_value o f ≡ some r
    → (v : Value) × (o ≡ some v) × (f v ≡ some r)
with_value-some none f r h = absurd (cc)
with_value-some (some v) f r h = (v, refl, h)

-- The compiled condition `res` in `c`, and the guarded code from `c2` to `c3`.
pub record Guarded {W : Type 0} (d : Doubles) (s : Scopes) (cb : Callbacks W) (e : Node)
    (Safe : List Value → Type 0) (does : List Value → Option Flow) (c : Chunk) (res : Chunk × ℕ)
    (c2 c3 : Chunk) : Type 0 where
  pub start : IsGood c
  pub grown : Grown c res
  pub compiled : (stack : List Value) → IsPure d s cb stack e → Compiled d s cb stack e c res
  pub tested : Tested d cb c res.0 res.1 c2
  pub body : Piece d s cb Safe does c2 c3

-- Its code stands where it should, with the target of the test.
pub record Stands {W : Type 0} (d : Doubles) (s : Scopes) (cb : Callbacks W)
    (code : List Instruction) (c : Chunk) (res : Chunk × ℕ) (c2 c3 : Chunk) (target : ℕ)
    : Type 0 where
  pub cov_cond : (i : ℕ) → count c ≤ i → i < count res.0 → get_elem? code i ≡ get_elem? res.0.code i
  pub there : get_elem? code (count res.0) ≡ some (instr jump_if_false res.1 0 0 target)
  pub cov_drops :
      (i : ℕ)
      → count (emit res.0 (instr jump_if_false res.1 0 0 0)) ≤ i
      → i < count c2
      → get_elem? code i ≡ get_elem? c2.code i
  pub cov_body : (i : ℕ) → count c2 ≤ i → i < count c3 → get_elem? code i ≡ get_elem? c3.code i

module _ {W : Type 0} (d : Doubles) (s : Scopes) (cb : Callbacks W) (e : Node)
    (Safe : List Value → Type 0) (does : List Value → Option Flow) (c : Chunk) (res : Chunk × ℕ)
    (c2 c3 : Chunk) (gd : Guarded d s cb e Safe does c res c2 c3) where
  abbrev jf : Instruction
  jf = instr jump_if_false res.1 0 0 0

  -- A chunk with the registers given back to where the statement starts.
  abbrev back : Chunk → Chunk
  back x = record x { next_reg = c.next_reg }

  test_grows : Extends (back (emit res.0 jf)) c2
  test_grows =
      subst (Extends (back (emit res.0 jf))) (sym gd.tested.is_reset)
        (Extends-reset gd.tested.dropping.grows c.next_reg)

  -- The code of the condition stands before the guarded code.
  pub cond_grows : Extends (back res.0) c3
  cond_grows =
      Extends-trans (Extends-reset (emit-Extends res.0 jf) c.next_reg)
        (Extends-trans test_grows gd.body.grows)

  pub longer : count res.0 + 1 ≤ count c3
  longer = omega (arith, count-emit res.0 jf, test_grows.code_grows, gd.body.grows.code_grows)

  -- The test, whose target is patched later.
  pub test_there : get_elem? c3.code (count res.0) ≡ some jf
  test_there =
      (Extends-trans test_grows gd.body.grows).code_kept (count res.0)
        (omega (arith, count-emit res.0 jf))
      ∙ last-emit res.0 jf

  -- Code that is the compiler's but for the target of the test.
  pub stands :
      (code : List Instruction) (target : ℕ)
      → ((i : ℕ)
          → count c ≤ i
          → i < count c3
          → count res.0 ≢ i
          → get_elem? code i ≡ get_elem? c3.code i)
      → get_elem? code (count res.0) ≡ some (instr jump_if_false res.1 0 0 target)
      → Stands d s cb code c res c2 c3 target
  stands code target apart there = record {
    cov_cond = λ i x y.
        apart i x (omega (arith, y, longer)) (λ (q : count res.0 ≡ i). absurd (omega (arith, q, y)))
        ∙ cond_grows.code_kept i y;
    there = there;
    cov_drops = λ i x y.
        apart i (omega (arith, x, gd.grown.grows.code_grows, count-emit res.0 jf))
          (omega (arith, y, gd.body.grows.code_grows))
          (λ (q : count res.0 ≡ i). absurd (omega (arith, q, x, count-emit res.0 jf)))
        ∙ gd.body.grows.code_kept i y;
    cov_body = λ i x y.
        apart i (omega (arith, x, gd.tested.grows.code_grows)) y (λ (q : count res.0 ≡ i).
          absurd (omega (arith, q, x, count-emit res.0 jf, test_grows.code_grows)));
  }

  module _ (code : List Instruction) (target : ℕ) (st : Stands d s cb code c res c2 c3 target)
      (m : Machine W) (stack : List Value) (at : IsAt d s cb stack c c3 m)
      (pure : IsPure d s cb stack e) (v : Value) (ev : eval d s stack e ≡ some v) where
    tests :
        (b : Bool)
        → truthy d v ≡ b
        → Lands d s cb code m (if b then count res.0 + 1 else target) stack
    tests b t =
        test d s cb code m stack e c res v target b (gd.compiled stack pure) gd.start st.cov_cond
          (IsAt-reset d s cb stack c res.0 c.next_reg m (
            IsAt-next d s cb stack stack c c (back res.0) c3 m m at
              (record { same_consts = refl; same_length = refl }) at.locals at.at_start cond_grows))
          st.there ev t

    -- A condition that is true: the guarded code runs.
    pub on_true :
        (f : Flow)
        → truthy d v ≡ true
        → Safe stack
        → does stack ≡ some f
        → Ends d s cb code m (count c3) f
    on_true f t safe h =
        let (m1, r1, ip1, k1, l1) =
          pass_drops d s cb code m stack c res.0 c2 res.1 gd.tested gd.start st.cov_drops
            (tests true t) in
        Ends-after d s cb code (count c3) f r1 k1 (
          gd.body.runs code m1 stack f st.cov_body
            (IsAt-next d s cb stack stack c c2 c3 c3 m m1 at k1 l1 ip1 (Extends-refl c3)) safe h)

    -- One that is false: a jump to the target.
    pub on_false : truthy d v ≡ false → Lands d s cb code m target stack
    on_false t = tests false t
