-- ===== src/Bytecode/Statements/Pieces.antt =====
-- What it is for the code of a statement to be right: from the variables before it to those after it.
use fluxa_lang.Base.{ℕ, ◌≤◌, ◌<◌, ◌≡◌, refl, ap, ◌∙◌, List, Option, some, arith, length, get_elem?}
use fluxa_lang.Prst.Value.{Value}
use fluxa_lang.Bytecode.{Instruction, Chunk, count, patch, string_drops}
use fluxa_lang.Bytecode.Values.{Doubles}
use fluxa_lang.Bytecode.Machine.{Callbacks, Machine, returned, run}
use fluxa_lang.Bytecode.Extends.{Extends, Extends-trans, IsGood}
use fluxa_lang.Bytecode.Patches.{count-patch, get-patch_ne}
use fluxa_lang.Bytecode.Runs.{Reaches, Reaches-trans, Leaves}
use fluxa_lang.Bytecode.Compiled.{Covers, IsAt}
use fluxa_lang.Bytecode.Statements.Drops.{
  Dropping, string_drops-Dropping, Extends-back, IsGood-back, Dropping-good,
}
use fluxa_lang.Bytecode.Statements.{close_node}
use fluxa_lang.Eval.{Scopes}
use fluxa_lang.Eval.{Flow, goes, returns}

-- What statements leave of the machine, but for registers.
pub record Kept {W : Type 0} (m m' : Machine W) : Type 0 where
  pub same_consts : m'.consts ≡ m.consts
  pub same_length : length m'.env.regs ≡ length m.env.regs

module _ {W : Type 0} where
  pub Leaves-Kept : {k : ℕ} {m m' : Machine W} → Leaves k m m' → Kept m m'
  Leaves-Kept l = record { same_consts = l.same_consts; same_length = l.same_length }

  pub Kept-trans : {m m' m'' : Machine W} → Kept m m' → Kept m' m'' → Kept m m''
  Kept-trans a b = record {
    same_consts = b.same_consts ∙ a.same_consts;
    same_length = b.same_length ∙ a.same_length;
  }

  -- The registers of the variables hold what the evaluator's stack does.
  abbrev pub Locals : Machine W → List Value → Type 0
  Locals m stack = (k : ℕ) → k < 128 → get_elem? m.env.regs k ≡ get_elem? stack k

  pub Leaves-Locals :
      {k : ℕ} {m m' : Machine W} (stack : List Value)
      → 128 ≤ k
      → Leaves k m m'
      → Locals m stack
      → Locals m' stack
  Leaves-Locals stack h l a j b = l.kept j (omega (arith, h, b)) ∙ a j b

module _ {W : Type 0} (d : Doubles) (s : Scopes) (cb : Callbacks W) where
  -- The end of a statement: behind its code, with the variables; or a return of a value.
  abbrev pub Ends : List Instruction → Machine W → ℕ → Flow → Type 0
  Ends code m n (goes stack) =
      (m' : Machine W) × Reaches d cb code m m' × (m'.ip ≡ n) × Kept m m' × Locals m' stack
  Ends code m n (returns v) =
      (m' : Machine W) × Reaches d cb code m m'
      × ((m'' : Machine W) × (run d cb 1 code m' ≡ some (returned m'' v)))

  -- An end that comes later.
  pub Ends-after :
      (code : List Instruction) {m m1 : Machine W} (n : ℕ) (f : Flow)
      → Reaches d cb code m m1
      → Kept m m1
      → Ends code m1 n f
      → Ends code m n f
  Ends-after code n (goes stack) r k (m', r', ip, k', l) =
      (m', Reaches-trans d cb code r r', ip, Kept-trans k k', l)
  Ends-after code n (returns v) r k (m', r', e) = (m', Reaches-trans d cb code r r', e)

  -- The code does what `does` says, from every stack that is `Safe`.
  abbrev pub Does : (List Value → Type 0) → (List Value → Option Flow) → Chunk → Chunk → Type 0
  Does Safe does c c' =
      (code : List Instruction) (m : Machine W) (stack : List Value) (f : Flow)
      → Covers d s cb stack code c c'
      → IsAt d s cb stack c c' m
      → Safe stack
      → does stack ≡ some f
      → Ends code m (count c') f

  -- The code of a statement.
  pub record Piece (Safe : List Value → Type 0) (does : List Value → Option Flow) (c c' : Chunk)
      : Type 0 where
    pub good : IsGood c'
    pub grows : Extends c c'
    pub runs : Does Safe does c c'

  -- The machine at the start of a part, after what ran before it.
  pub IsAt-next :
      (stack stack' : List Value) (c c1 c2 c' : Chunk) (m m1 : Machine W)
      → IsAt d s cb stack c c' m
      → Kept m m1
      → Locals m1 stack'
      → m1.ip ≡ count c1
      → Extends c2 c'
      → IsAt d s cb stack' c1 c2 m1
  IsAt-next stack stack' c c1 c2 c' m m1 at k l ip x = record {
    at_start = ip;
    constants = λ j b.
        ap (λ ks. get_elem? ks j) k.same_consts
        ∙ at.constants j (omega (arith, b, x.consts_grow))
        ∙ x.consts_kept j b;
    room = omega (arith, at.room, x.peak_grows, k.same_length);
    locals = l;
  }

  pub IsAt-reset :
      (stack : List Value) (c c' : Chunk) (k : ℕ) (m : Machine W)
      → IsAt d s cb stack c (record c' { next_reg = k }) m
      → IsAt d s cb stack c c' m
  IsAt-reset stack c c' k m at = record {
    at_start = at.at_start;
    constants = at.constants;
    room = at.room;
    locals = at.locals;
  }

  -- A patch changes neither constants nor registers.
  pub IsAt-patch :
      (stack : List Value) (c c' : Chunk) (k offset : ℕ) (m : Machine W)
      → IsAt d s cb stack c (patch c' k offset) m
      → IsAt d s cb stack c c' m
  unfolding patch
  IsAt-patch stack c c' k offset m at = record {
    at_start = at.at_start;
    constants = at.constants;
    room = at.room;
    locals = at.locals;
  }

  -- The code behind a patched instruction, and the code before it.
  pub Covers-behind :
      (stack : List Value) (code : List Instruction) (c a c' : Chunk) (k offset : ℕ)
      → Covers d s cb stack code c (patch c' k offset)
      → count c ≤ count a
      → k < count a
      → Covers d s cb stack code a c'
  Covers-behind stack code c a c' k offset cov h b i x y =
      cov i (omega (arith, h, x)) (omega (arith, y, count-patch c' k offset))
      ∙ get-patch_ne c' k offset i (λ (q : k ≡ i). absurd (omega (arith, q, b, x)))

  pub Covers-before :
      (stack : List Value) (code : List Instruction) (c b c' : Chunk) (k offset : ℕ)
      → Covers d s cb stack code c (patch c' k offset)
      → count b ≤ k
      → Extends b c'
      → Covers d s cb stack code c b
  Covers-before stack code c b c' k offset cov h e i x y =
      cov i x (omega (arith, y, e.code_grows, count-patch c' k offset))
      ∙ get-patch_ne c' k offset i (λ (q : k ≡ i). absurd (omega (arith, q, h, y)))
      ∙ e.code_kept i y

  -- A statement with the drops behind it, and with its registers given back.
  pub close-Piece :
      (Safe : List Value → Type 0) (does : List Value → Option Flow) (c r : Chunk)
      → IsGood c
      → Piece Safe does c r
      → Piece Safe does c (close_node c.next_reg r)
  unfolding close_node
  close-Piece Safe does c r g p = record {
    good = IsGood-back g (Dropping-good drops p.good) (Extends-back-from);
    grows = Extends-back (Extends-back-from);
    runs = λ code m stack f cov at safe e. closed code m stack f cov at (
        p.runs code m stack f
          (λ i x y. cov i x (omega (arith, y, drops.grows.code_grows)) ∙ drops.grows.code_kept i y)
          (IsAt-next stack stack c c r (string_drops r c.next_reg r.next_reg) m m
            (record {
              at_start = at.at_start;
              constants = at.constants;
              room = at.room;
              locals = at.locals;
            })
            (record { same_consts = refl; same_length = refl }) at.locals at.at_start drops.grows)
          safe e);
  }
    where
      drops : Dropping d cb c.next_reg r (string_drops r c.next_reg r.next_reg)
      drops = string_drops-Dropping d cb c.next_reg r r.next_reg

      Extends-back-from : Extends c (string_drops r c.next_reg r.next_reg)
      Extends-back-from = Extends-trans p.grows drops.grows

      closed :
          (code : List Instruction) (m : Machine W) (stack : List Value) (f : Flow)
          → Covers d s cb stack code c (string_drops r c.next_reg r.next_reg)
          → IsAt d s cb stack c
              (record (string_drops r c.next_reg r.next_reg) { next_reg = c.next_reg })
              m
          → Ends code m (count r) f
          → Ends code m (count (string_drops r c.next_reg r.next_reg)) f
      closed code m stack (goes stack') cov at (m1, r1, ip1, k1, l1) =
          let (m2, r2, ip2, l2) =
            drops.passes code m1 (λ i x y. cov i (omega (arith, x, p.grows.code_grows)) y) ip1 in
          (
            m2,
            Reaches-trans d cb code r1 r2,
            ip2,
            Kept-trans k1 (Leaves-Kept l2),
            Leaves-Locals stack' g.past_locals l2 l1,
          )
      closed code m stack (returns v) cov at e = e
