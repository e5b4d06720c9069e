-- ===== src/Bytecode/Statements/Safe.antt =====
-- The statements that compile without callbacks, and the runs of them on which the machine and the
-- evaluator have to agree.
use fluxa_lang.Base.{ℕ, zero, suc, ◌<◌, ◌≡◌, List, Option, some, true, false}
use fluxa_lang.Ast.{Node, null, assign, block_stmt, if_stmt, while_stmt, ret, Nodes, end, node}
use fluxa_lang.Prst.Value.{Value}
use fluxa_lang.Bytecode.Values.{Doubles, truthy}
use fluxa_lang.Bytecode.Machine.{Env, Callbacks}
use fluxa_lang.Bytecode.Compiled.{IsPure, IsQuiet}
use fluxa_lang.Bytecode.Statements.Plain.{IsPlain}
use fluxa_lang.Eval.{Scopes, eval}
use fluxa_lang.Eval.Statements.{cond_true, exec}
use fluxa_lang.Eval.{Flow, goes}

-- No request to stop, no ticks, and no objects whose stores are tracked.
pub record IsIdle {W : Type 0} (cb : Callbacks W) : Type 0 where
  pub quiet : IsQuiet cb
  pub no_store : (e : Env W) (slot incoming : ℕ) → cb.store e slot incoming ≡ e

abbrev mutual
  -- Assignments of variables with a slot of the frame, blocks, `if`, `while` and `return`, of plain
  -- expressions.
  pub IsPlainStmt : Node → Type 0
  IsPlainStmt null = Unit {0}
  IsPlainStmt (assign (some off) name e) = (off < 128) × IsPlain e
  IsPlainStmt (block_stmt es) = ArePlain es
  IsPlainStmt (if_stmt e t f) = IsPlain e × IsPlainStmt t × IsPlainStmt f
  IsPlainStmt (while_stmt e body) = IsPlain e × IsPlainStmt body
  IsPlainStmt (ret null) = Unit {0}
  IsPlainStmt (ret e) = IsPlain e
  IsPlainStmt e = ⊥

  pub ArePlain : Nodes → Type 0
  ArePlain end = Unit {0}
  ArePlain (node e es) = IsPlainStmt e × ArePlain es

module _ (d : Doubles) where
  -- A condition that is no string, with what holds of the two branches.
  abbrev pub IsDecided : Value → Type 0 → Type 0 → Type 0
  IsDecided v Yes No =
      (cond_true d v ≡ truthy d v) × (truthy d v ≡ true → Yes) × (truthy d v ≡ false → No)

  -- Every round of a loop is safe.
  abbrev pub IsSafeLoop :
      ℕ
      → (List Value → Type 0)
      → (List Value → Option Value)
      → (List Value → Type 0)
      → (List Value → Option Flow)
      → List Value
      → Type 0
  IsSafeLoop zero SafeCond cond Safe body stack = Unit {0}
  IsSafeLoop (suc n) SafeCond cond Safe body stack =
      SafeCond stack
      × ((v : Value)
          → cond stack ≡ some v
          → IsDecided v
              (Safe stack
                × ((stack' : List Value)
                    → body stack ≡ some (goes stack')
                    → IsSafeLoop n SafeCond cond Safe body stack'))
              (Unit {0}))

module _ {W : Type 0} (d : Doubles) (s : Scopes) (cb : Callbacks W) (rounds : ℕ) where
  abbrev mutual
    -- Each expression that is evaluated is pure where it is, and no condition is a string.
    pub IsSafe : Node → List Value → Type 0
    IsSafe (assign (some off) name e) stack = IsPure d s cb stack e
    IsSafe (block_stmt es) stack = AreSafe es stack
    IsSafe (if_stmt e t f) stack =
        IsPure d s cb stack e
        × ((v : Value)
            → eval d s stack e ≡ some v
            → IsDecided d v (IsSafe t stack) (IsSafe f stack))
    IsSafe (while_stmt e body) stack =
        IsSafeLoop d rounds (λ st. IsPure d s cb st e) (λ st. eval d s st e) (IsSafe body)
          (exec d s rounds body) stack
    IsSafe (ret null) stack = Unit {0}
    IsSafe (ret e) stack = IsPure d s cb stack e
    IsSafe e stack = Unit {0}

    pub AreSafe : Nodes → List Value → Type 0
    AreSafe end stack = Unit {0}
    AreSafe (node e es) stack =
        IsSafe e stack
        × ((stack' : List Value) → exec d s rounds e stack ≡ some (goes stack') → AreSafe es stack')
