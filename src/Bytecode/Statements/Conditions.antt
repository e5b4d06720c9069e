-- ===== src/Bytecode/Statements/Conditions.antt =====
-- The code of a condition, with the drops behind its test.
use fluxa_lang.Base.{
  ℕ, ◌+◌, ◌≡◌, refl, sym, ap, ◌∙◌, List, some, Bool, true, false, if◌then◌else◌, arith, get_elem?,
}
use fluxa_lang.Ast.{Node}
use fluxa_lang.Prst.Value.{Value}
use fluxa_lang.Bytecode.{Instruction, instr, jump_if_false, Chunk, count, emit, string_drops}
use fluxa_lang.Bytecode.Values.{Doubles, truthy}
use fluxa_lang.Bytecode.Machine.{Callbacks, Machine, running, step, dispatch, reg}
use fluxa_lang.Bytecode.Extends.{
  Extends, Extends-trans, IsGood, emit-Extends, emit-IsGood, count-emit,
}
use fluxa_lang.Bytecode.Runs.{Reaches, here, next, Reaches-trans, step-dispatch}
use fluxa_lang.Bytecode.Compiled.{Compiled, Covers, IsAt}
use fluxa_lang.Bytecode.Statements.{drop_condition}
use fluxa_lang.Bytecode.Statements.Plain.{Grown}
use fluxa_lang.Bytecode.Statements.Drops.{
  Dropping, condition_drops, Extends-back, IsGood-back, Dropping-good,
}
use fluxa_lang.Bytecode.Statements.Pieces.{Kept, Kept-trans, Leaves-Kept, Locals, Leaves-Locals}
use fluxa_lang.Eval.{Scopes, eval}

module _ {W : Type 0} (d : Doubles) (s : Scopes) (cb : Callbacks W) where
  -- A place in the code, with the variables as they were.
  abbrev pub Lands : List Instruction → Machine W → ℕ → List Value → Type 0
  Lands code m n stack =
      (m' : Machine W) × Reaches d cb code m m' × (m'.ip ≡ n) × Kept m m' × Locals m' stack

  step-test :
      (code : List Instruction) (m : Machine W) (r target : ℕ) (b : Bool)
      → get_elem? code m.ip ≡ some (instr jump_if_false r 0 0 target)
      → truthy d (reg m r) ≡ b
      → step d cb code m ≡ running (record m { ip = if b then m.ip + 1 else target })
  unfolding dispatch
  step-test code m r target true h t =
      step-dispatch d cb code m (instr jump_if_false r 0 0 target) h ∙ rw t refl
  step-test code m r target false h t =
      step-dispatch d cb code m (instr jump_if_false r 0 0 target) h ∙ rw t refl

  -- The condition and its test.
  pub test :
      (code : List Instruction) (m : Machine W) (stack : List Value) (e : Node) (c : Chunk)
      (res : Chunk × ℕ) (v : Value) (target : ℕ) (b : Bool)
      → Compiled d s cb stack e c res
      → IsGood c
      → Covers d s cb stack code c res.0
      → IsAt d s cb stack c res.0 m
      → get_elem? code (count res.0) ≡ some (instr jump_if_false res.1 0 0 target)
      → eval d s stack e ≡ some v
      → truthy d v ≡ b
      → Lands code m (if b then count res.0 + 1 else target) stack
  test code m stack e c res v target b x g cov at there ev t =
      let (m1, r1, ip1, l1, val) = x.computes code m v cov at ev in
      (
        record m1 { ip = if b then m1.ip + 1 else target },
        Reaches-trans d cb code r1 (
            next
              (step-test code m1 res.1 target b (ap (get_elem? code) ip1 ∙ there)
                (ap (truthy d) val ∙ t))
              here),
        ap (λ n. if b then n + 1 else target) ip1,
        record { same_consts = l1.same_consts; same_length = l1.same_length },
        Leaves-Locals stack g.past_locals l1 at.locals,
      )

-- The chunk behind a test: `dr` has the drops, and the registers are given back.
pub record Tested {W : Type 0} (d : Doubles) (cb : Callbacks W) (c c1 : Chunk) (cr : ℕ) (c2 : Chunk)
    : Type 0 where
  pub good : IsGood c2
  pub grows : Extends c c2
  pub same_next : c2.next_reg ≡ c.next_reg
  pub dr : Chunk
  pub dropping : Dropping d cb c.next_reg (emit c1 (instr jump_if_false cr 0 0 0)) dr
  pub is_reset : c2 ≡ record dr { next_reg = c.next_reg }

module _ {W : Type 0} (d : Doubles) (s : Scopes) (cb : Callbacks W) where
  pub drop_condition-Tested :
      (c : Chunk) (res : Chunk × ℕ)
      → IsGood c
      → Grown c res
      → Tested d cb c res.0 res.1
          (drop_condition (emit res.0 (instr jump_if_false res.1 0 0 0)) res.1 c.next_reg)
  unfolding drop_condition
  drop_condition-Tested c (c1, cr) g x = record {
    good = IsGood-back g (Dropping-good drops (emit-IsGood c1 _ x.good)) all;
    grows = Extends-back all;
    same_next = refl;
    dr = if c2.string_regs cr then c2 else string_drops c2 c.next_reg c2.next_reg;
    dropping = drops;
    is_reset = refl;
  }
    where
      c2 : Chunk
      c2 = emit c1 (instr jump_if_false cr 0 0 0)

      drops :
          Dropping d cb c.next_reg c2
            (if c2.string_regs cr then c2 else string_drops c2 c.next_reg c2.next_reg)
      drops = condition_drops d cb c.next_reg c2 (c2.string_regs cr) c2.next_reg

      all : Extends c (if c2.string_regs cr then c2 else string_drops c2 c.next_reg c2.next_reg)
      all = Extends-trans x.grows (Extends-trans (emit-Extends c1 _) drops.grows)

  -- The drops behind a test that went on.
  pub pass_drops :
      (code : List Instruction) (m : Machine W) (stack : List Value) (c c1 c2 : Chunk) (cr : ℕ)
      → Tested d cb c c1 cr c2
      → IsGood c
      → Covers d s cb stack code (emit c1 (instr jump_if_false cr 0 0 0)) c2
      → Lands d s cb code m (count c1 + 1) stack
      → Lands d s cb code m (count c2) stack
  pass_drops code m stack c c1 c2 cr t g cov (m1, r1, ip1, k1, l1) =
      let same : count c2 ≡ count t.dr = ap count t.is_reset in
      let (m2, r2, ip2, l2) =
        t.dropping.passes code m1
          (λ i x y.
            cov i x (omega (arith, y, same)) ∙ ap (λ (x' : Chunk). get_elem? x'.code i) t.is_reset)
          (ip1 ∙ sym (count-emit c1 (instr jump_if_false cr 0 0 0))) in
      (
        m2,
        Reaches-trans d cb code r1 r2,
        ip2 ∙ sym same,
        Kept-trans k1 (Leaves-Kept l2),
        Leaves-Locals stack g.past_locals l2 l1,
      )
