-- ===== src/Bytecode/Runs.antt =====
-- Runs of the machine, instruction by instruction.
use fluxa_lang.Base.{
  ℕ, suc, ◌+◌, ◌≤◌, ◌<◌, ◌≡◌, refl, ◌∙◌, List, some, arith, length, get_elem?, length-set,
  get_elem?-set_self, get_elem?-set_ne,
}
use fluxa_lang.Prst.Value.{Value}
use fluxa_lang.Bytecode.{Instruction, instr, return_val}
use fluxa_lang.Bytecode.Values.{Doubles}
use fluxa_lang.Bytecode.Machine.{
  Callbacks, Machine, Outcome, running, returned, step, dispatch, run, reg, write,
}

module _ {W : Type 0} (d : Doubles) (cb : Callbacks W) (code : List Instruction) where
  -- Any number of instructions.
  pub data Reaches : Machine W → Machine W → Type 0 where
    here : {m : Machine W} → Reaches m m
    next : {m m' m'' : Machine W} → step d cb code m ≡ running m' → Reaches m' m'' → Reaches m m''

  pub Reaches-trans : {m m' m'' : Machine W} → Reaches m m' → Reaches m' m'' → Reaches m m''
  Reaches-trans here s = s
  Reaches-trans (next e r) s = next e (Reaches-trans r s)

  -- An instruction that is fetched is dispatched.
  pub step-dispatch :
      (m : Machine W) (i : Instruction)
      → get_elem? code m.ip ≡ some i
      → step d cb code m ≡ dispatch d cb i.op i (record m { ip = m.ip + 1 })
  unfolding step
  step-dispatch m i h = rw (h, step) refl

  -- A run that reaches a return returns, with enough instructions.
  pub run-Reaches :
      {m m' : Machine W} (o : Outcome W)
      → Reaches m m'
      → ((n : ℕ) × (run d cb n code m' ≡ some o))
      → (n : ℕ) × (run d cb n code m ≡ some o)
  unfolding run
  run-Reaches o here s = s
  run-Reaches o (next e r) s = let (n, p) = run-Reaches o r s in (suc n, rw (e, run) p)

  pub run-return :
      (m : Machine W) (r : ℕ)
      → get_elem? code m.ip ≡ some (instr return_val r 0 0 0)
      → run d cb 1 code m ≡ some (returned (record m { ip = m.ip + 1 }) (reg m r))
  unfolding run dispatch
  run-return m r h = rw (step-dispatch m (instr return_val r 0 0 0) h, run) refl

-- A machine that went on, and changed no register below `k`.
pub record Leaves {W : Type 0} (k : ℕ) (m m' : Machine W) : Type 0 where
  pub same_consts : m'.consts ≡ m.consts
  pub same_length : length m'.env.regs ≡ length m.env.regs
  pub kept : (j : ℕ) → j < k → get_elem? m'.env.regs j ≡ get_elem? m.env.regs j

module _ {W : Type 0} where
  pub Leaves-refl : (k : ℕ) (m : Machine W) → Leaves k m m
  Leaves-refl k m = record { same_consts = refl; same_length = refl; kept = λ j h. refl }

  pub Leaves-trans :
      (k k' : ℕ) {m m' m'' : Machine W} → k ≤ k' → Leaves k m m' → Leaves k' m' m'' → Leaves k m m''
  Leaves-trans k k' h l l' = record {
    same_consts = l'.same_consts ∙ l.same_consts;
    same_length = l'.same_length ∙ l.same_length;
    kept = λ j b. l'.kept j (omega (arith, h, b)) ∙ l.kept j b;
  }

  -- A write into a register from `k` on.
  pub write-Leaves :
      (k r : ℕ) (v : Value) (ip : ℕ) (m : Machine W)
      → k ≤ r
      → Leaves k m (write (record m { ip = ip }) r v)
  write-Leaves k r v ip m h = record {
    same_consts = refl;
    same_length = length-set m.env.regs r v;
    kept = λ j b. get_elem?-set_ne m.env.regs r j v (λ e. absurd (omega (arith, e, h, b)));
  }

  pub reg-write :
      (m : Machine W) (r : ℕ) (v : Value) → r < length m.env.regs → reg (write m r v) r ≡ v
  reg-write m r v h = rw (get_elem?-set_self m.env.regs r v h) refl
