-- ===== src/Bytecode/Compiled.antt =====
-- What it is for the code of an expression to be right, and the instructions that write one register.
use fluxa_lang.Base.{
  ℕ, ◌+◌, ◌≤◌, ◌<◌, ◌≡◌, sym, ap, ◌∙◌, List, Option, none, some, false, arith, length, get_elem?,
  str_eq, codes,
}
use fluxa_lang.Ast.{
  Node, int_lit, float_lit, bool_lit, string_lit, identifier, binary, logic_not, logic_and,
  logic_or, binary_op,
}
use fluxa_lang.Prst.Value.{Value, nil}
use fluxa_lang.Bytecode.{Instruction, Chunk, count, emit}
use fluxa_lang.Bytecode.Values.{Doubles}
use fluxa_lang.Bytecode.Machine.{Env, Callbacks, Machine, running, step, reg, write, or_nil}
use fluxa_lang.Bytecode.Agreement.{IsExact, IsTidy}
use fluxa_lang.Bytecode.Extends.{Extends, IsGood, count-emit, last-emit}
use fluxa_lang.Bytecode.Runs.{
  Reaches, here, next, Reaches-trans, Leaves, Leaves-trans, write-Leaves, reg-write,
}
use fluxa_lang.Eval.{Scopes, eval}

-- No request to stop, and a tick that does nothing, as where no object is tracked.
pub record IsQuiet {W : Type 0} (cb : Callbacks W) : Type 0 where
  pub not_cancelled : (e : Env W) → cb.cancelled e ≡ false
  pub no_tick : (e : Env W) → cb.tick e ≡ e

-- A slot that has a value.
abbrev pub HoldsValue : Option Value → Type 0
HoldsValue none = ⊥
HoldsValue (some nil) = ⊥
HoldsValue (some v) = IsTidy v

module _ {W : Type 0} (d : Doubles) (s : Scopes) (cb : Callbacks W) (stack : List Value) where
  -- An expression of literals, of variables that have a slot of the frame and a value, and of
  -- operators that compute the same with `double` where the evaluator uses it.
  abbrev pub IsPure : Node → Type 0
  IsPure (int_lit i) = Unit {0}
  IsPure (float_lit f) = Unit {0}
  IsPure (bool_lit b) = b ≤ 1
  IsPure (string_lit t) = Unit {0}
  IsPure (identifier (some off) name) =
      (off < 128)
      × (str_eq name (codes "nil") ≡ false)
      × (str_eq name (codes "err") ≡ false)
      × HoldsValue (get_elem? stack off)
  IsPure (binary logic_not l r) = IsPure l
  IsPure (binary logic_and l r) = IsPure l × IsPure r
  IsPure (binary logic_or l r) = IsPure l × IsPure r
  IsPure (binary (binary_op o) l r) =
      IsPure l
      × IsPure r
      × ((v w : Value) → eval d s stack l ≡ some v → eval d s stack r ≡ some w → IsExact d o v w)
  IsPure e = ⊥

  -- The instructions that a step of the compiler added stand in the code that runs.
  abbrev pub Covers : List Instruction → Chunk → Chunk → Type 0
  Covers code c c' = (i : ℕ) → count c ≤ i → i < count c' → get_elem? code i ≡ get_elem? c'.code i

  -- The machine is at the start of that code, with its constants, its registers and the variables.
  pub record IsAt (c c' : Chunk) (m : Machine W) : Type 0 where
    pub at_start : m.ip ≡ count c
    pub constants : (k : ℕ) → k < length c'.consts → get_elem? m.consts k ≡ get_elem? c'.consts k
    pub room : c'.peak_reg ≤ length m.env.regs
    pub locals : (k : ℕ) → k < 128 → get_elem? m.env.regs k ≡ get_elem? stack k

  -- The machine comes to the instruction `n` with `v` in the register `r`, and the registers below `k`
  -- as they were.
  abbrev pub Gets : List Instruction → Machine W → ℕ → ℕ → ℕ → Value → Type 0
  Gets code m k n r v =
      (m' : Machine W) × Reaches d cb code m m' × (m'.ip ≡ n) × Leaves k m m' × (reg m' r ≡ v)

  abbrev pub Computes : Node → Chunk → Chunk → ℕ → Type 0
  Computes e c c' r =
      (code : List Instruction) (m : Machine W) (v : Value)
      → Covers code c c'
      → IsAt c c' m
      → eval d s stack e ≡ some v
      → Gets code m c.next_reg (count c') r v

  -- The code of an expression.
  pub record Compiled (e : Node) (c : Chunk) (res : Chunk × ℕ) : Type 0 where
    pub good : IsGood res.0
    pub grows : Extends c res.0
    pub place : res.1 < res.0.next_reg
    pub computes : Computes e c res.0 res.1

module _ {W : Type 0} (d : Doubles) (s : Scopes) (cb : Callbacks W) (stack : List Value) where
  -- The instruction behind a chunk that was extended by it.
  pub fetch :
      (code : List Instruction) (c c1 c' : Chunk) (i : Instruction)
      → Covers d s cb stack code c c'
      → count c ≤ count c1
      → Extends (emit c1 i) c'
      → get_elem? code (count c1) ≡ some i
  fetch code c c1 c' i cov h x =
      cov (count c1) h (omega (arith, x.code_grows, count-emit c1 i))
      ∙ x.code_kept (count c1) (omega (arith, count-emit c1 i))
      ∙ last-emit c1 i

  -- A last instruction that writes a fresh register.
  pub finish :
      (code : List Instruction) (c1 : Chunk) (i : Instruction) (m m1 : Machine W) (k r : ℕ)
      (v : Value)
      → Reaches d cb code m m1
      → m1.ip ≡ count c1
      → Leaves k m m1
      → k ≤ r
      → r < length m1.env.regs
      → step d cb code m1 ≡ running (write (record m1 { ip = m1.ip + 1 }) r v)
      → Gets d s cb stack code m k (count (emit c1 i)) r v
  finish code c1 i m m1 k r v reach ip l h b st = (
    write (record m1 { ip = m1.ip + 1 }) r v,
    Reaches-trans d cb code reach (next st here),
    ap (λ n. n + 1) ip ∙ sym (count-emit c1 i),
    Leaves-trans k k (omega arith) l (write-Leaves k r v (m1.ip + 1) m1 h),
    reg-write (record m1 { ip = m1.ip + 1 }) r v b,
  )

  -- A part of the code stands in the code that runs.
  pub Covers-part :
      (code : List Instruction) (c c1 c2 c' : Chunk)
      → Covers d s cb stack code c c'
      → count c ≤ count c1
      → Extends c2 c'
      → Covers d s cb stack code c1 c2
  Covers-part code c c1 c2 c' cov h x i a b =
      cov i (omega (arith, h, a)) (omega (arith, b, x.code_grows)) ∙ x.code_kept i b

  -- The machine at the start of a part.
  pub IsAt-part :
      (c c1 c2 c' : Chunk) (m m1 : Machine W) (k : ℕ)
      → IsAt d s cb stack c c' m
      → Leaves k m m1
      → 128 ≤ k
      → m1.ip ≡ count c1
      → Extends c2 c'
      → IsAt d s cb stack c1 c2 m1
  IsAt-part c c1 c2 c' m m1 k at l h ip x = record {
    at_start = ip;
    constants = λ j b.
        ap (λ ks. get_elem? ks j) l.same_consts
        ∙ at.constants j (omega (arith, b, x.consts_grow))
        ∙ x.consts_kept j b;
    room = omega (arith, at.room, x.peak_grows, l.same_length);
    locals = λ j b. l.kept j (omega (arith, h, b)) ∙ at.locals j b;
  }

  pub reg-Leaves : (k r : ℕ) (m m1 : Machine W) → Leaves k m m1 → r < k → reg m1 r ≡ reg m r
  reg-Leaves k r m m1 l h = ap or_nil (l.kept r h)
