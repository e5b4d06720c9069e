-- ===== src/Bytecode/Statements/Alternatives.antt =====
-- The code of `if` with `else`.
use fluxa_lang.Base.{
  ℕ, ◌+◌, ◌≤◌, ◌<◌, ◌≡◌, ◌≢◌, refl, sym, ◌∙◌, subst, List, Option, some, arith, get_elem?,
}
use fluxa_lang.Ast.{Node}
use fluxa_lang.Prst.Value.{Value}
use fluxa_lang.Bytecode.{Instruction, instr, jump_if_false, jump, Chunk, count, emit, patch}
use fluxa_lang.Bytecode.Values.{Doubles}
use fluxa_lang.Bytecode.Machine.{Callbacks, Machine}
use fluxa_lang.Bytecode.Extends.{
  Extends, Extends-refl, Extends-trans, IsGood, emit-Extends, emit-IsGood, count-emit, last-emit,
}
use fluxa_lang.Bytecode.Patches.{patch-Extends, patch-IsGood, count-patch, get-patch, get-patch_ne}
use fluxa_lang.Bytecode.Compiled.{Covers, IsAt}
use fluxa_lang.Bytecode.Statements.Drops.{Extends-back, IsGood-back}
use fluxa_lang.Bytecode.Statements.Pieces.{
  Kept, Ends, Ends-after, Piece, IsAt-next, IsAt-patch, IsAt-reset,
}
use fluxa_lang.Bytecode.Statements.Safe.{IsIdle}
use fluxa_lang.Bytecode.Statements.Guards.{Guarded, longer, test_there, stands, on_true, on_false}
use fluxa_lang.Bytecode.Statements.Branching.{SafeIf, does_if, decide, jump_on}
use fluxa_lang.Eval.{Scopes}
use fluxa_lang.Eval.{Flow, goes, returns}

module _ {W : Type 0} (d : Doubles) (s : Scopes) (cb : Callbacks W) (idle : IsIdle cb) (e : Node)
    (St : List Value → Type 0) (dt : List Value → Option Flow) (Sf : List Value → Type 0)
    (df : List Value → Option Flow) (c : Chunk) (res : Chunk × ℕ) (c2 c3 : Chunk)
    (gd : Guarded d s cb e St dt c res c2 c3) where
  abbrev jumped : Chunk
  jumped = emit c3 (instr jump 0 0 0 0)

  -- Where the code of `else` starts.
  abbrev pub else_start : Chunk
  else_start = record (patch jumped (count res.0) (count jumped)) { next_reg = c.next_reg }

  long : count res.0 + 1 ≤ count c3
  long = longer d s cb e St dt c res c2 c3 gd

  same_jumped : count else_start ≡ count c3 + 1
  same_jumped = count-patch jumped (count res.0) (count jumped) ∙ count-emit c3 (instr jump 0 0 0 0)

  start_grows : Extends c else_start
  start_grows = Extends-back (
      patch-Extends c jumped (count res.0) (count jumped) gd.grown.grows.code_grows
        (Extends-trans gd.tested.grows (Extends-trans gd.body.grows (emit-Extends c3 _))))

  pub else_good : IsGood else_start
  else_good = IsGood-back gd.start (patch-IsGood jumped _ _ (emit-IsGood c3 _ gd.body.good)) (
      patch-Extends c jumped (count res.0) (count jumped) gd.grown.grows.code_grows
        (Extends-trans gd.tested.grows (Extends-trans gd.body.grows (emit-Extends c3 _))))

  module _ (c5 : Chunk) (el : Piece d s cb Sf df else_start c5) where
    abbrev whole : Chunk
    whole = patch c5 (count c3) (count c5)

    at_end : count c3 + 1 ≤ count c5
    at_end = omega (arith, same_jumped, el.grows.code_grows)

    -- The code before `else`, but for the jumps.
    before : (i : ℕ) → i < count c3 → count res.0 ≢ i → get_elem? whole.code i ≡ get_elem? c3.code i
    before i y n =
        get-patch_ne c5 (count c3) (count c5) i (λ (q : count c3 ≡ i). absurd (omega (arith, q, y)))
        ∙ el.grows.code_kept i (omega (arith, y, same_jumped))
        ∙ get-patch_ne jumped (count res.0) (count jumped) i n
        ∙ (emit-Extends c3 (instr jump 0 0 0 0)).code_kept i y

    test_target :
        get_elem? whole.code (count res.0) ≡ some (instr jump_if_false res.1 0 0 (count jumped))
    test_target =
        get-patch_ne c5 (count c3) (count c5) (count res.0)
          (λ (q : count c3 ≡ count res.0). absurd (omega (arith, q, long)))
        ∙ el.grows.code_kept (count res.0) (omega (arith, long, same_jumped))
        ∙ get-patch jumped _ _ _ (
            (emit-Extends c3 (instr jump 0 0 0 0)).code_kept (count res.0) (omega (arith, long))
            ∙ test_there d s cb e St dt c res c2 c3 gd)

    jump_target : get_elem? whole.code (count c3) ≡ some (instr jump 0 0 0 (count c5))
    jump_target = get-patch c5 (count c3) (count c5) (instr jump 0 0 0 0) (
        el.grows.code_kept (count c3) (omega (arith, same_jumped))
        ∙ get-patch_ne jumped (count res.0) (count jumped) (count c3)
            (λ (q : count res.0 ≡ count c3). absurd (omega (arith, q, long)))
        ∙ last-emit c3 (instr jump 0 0 0 0))

    IsAt-body :
        (stack : List Value) (m : Machine W) → IsAt d s cb stack c c5 m → IsAt d s cb stack c c3 m
    IsAt-body stack m at =
        let same : Kept m m = record { same_consts = refl; same_length = refl } in
        IsAt-reset d s cb stack c c3 c.next_reg m (
          IsAt-next d s cb stack stack c c (record c3 { next_reg = c.next_reg }) jumped m m
            (IsAt-patch d s cb stack c jumped (count res.0) (count jumped) m (
              IsAt-reset d s cb stack c (patch jumped (count res.0) (count jumped)) c.next_reg m (
                IsAt-next d s cb stack stack c c else_start c5 m m at same at.locals at.at_start
                  el.grows)))
            same at.locals at.at_start
            (record {
              code_kept = (emit-Extends c3 (instr jump 0 0 0 0)).code_kept;
              code_grows = (emit-Extends c3 (instr jump 0 0 0 0)).code_grows;
              consts_kept = (emit-Extends c3 (instr jump 0 0 0 0)).consts_kept;
              consts_grow = (emit-Extends c3 (instr jump 0 0 0 0)).consts_grow;
              regs_grow = omega (
                arith,
                gd.tested.grows.regs_grow,
                gd.body.grows.regs_grow,
                (emit-Extends c3 (instr jump 0 0 0 0)).regs_grow,
              );
              peak_grows = (emit-Extends c3 (instr jump 0 0 0 0)).peak_grows;
            }))

    -- The end of the first branch: a jump over the second.
    leave :
        (code : List Instruction) (m : Machine W) (f : Flow)
        → get_elem? code (count c3) ≡ some (instr jump 0 0 0 (count c5))
        → Ends d s cb code m (count c3) f
        → Ends d s cb code m (count c5) f
    leave code m (goes stack) there x =
        jump_on d s cb idle code m (count c3) (count c5) stack there x
    leave code m (returns v) there x = x

    runs :
        (code : List Instruction) (m : Machine W) (stack : List Value) (f : Flow)
        → Covers d s cb stack code c whole
        → IsAt d s cb stack c c5 m
        → SafeIf d s cb e St dt Sf df stack
        → does_if d s cb e St dt Sf df stack ≡ some f
        → Ends d s cb code m (count c5) f
    runs code m stack f cov at safe h =
        let size = count-patch c5 (count c3) (count c5) in
        let grown = gd.grown.grows.code_grows in
        let st =
          stands d s cb e St dt c res c2 c3 gd code (count jumped)
            (λ i x y n. cov i x (omega (arith, y, size, at_end)) ∙ before i y n)
            (cov (count res.0) grown (omega (arith, long, size, at_end)) ∙ test_target) in
        decide d s cb e St dt Sf df stack f (Ends d s cb code m (count c5) f) safe h
          (λ v ev t sf q.
            leave code m f
              (cov (count c3) (omega (arith, long, grown)) (omega (arith, size, at_end))
                ∙ jump_target)
              (on_true d s cb e St dt c res c2 c3 gd code (count jumped) st m stack
                (IsAt-body stack m at) safe.0 v ev f t sf q))
          (λ v ev t sf q.
            let (m1, r1, ip1, k1, l1) =
              on_false d s cb e St dt c res c2 c3 gd code (count jumped) st m stack
                (IsAt-body stack m at) safe.0 v ev t in
            Ends-after d s cb code (count c5) f r1 k1 (
              el.runs code m1 stack f
                (λ i x y.
                  cov i (omega (arith, x, same_jumped, long, grown)) (omega (arith, y, size))
                  ∙ get-patch_ne c5 (count c3) (count c5) i
                      (λ (w : count c3 ≡ i). absurd (omega (arith, w, x, same_jumped))))
                (IsAt-next d s cb stack stack c else_start c5 c5 m m1 at k1 l1
                  (ip1 ∙ sym (count-patch jumped (count res.0) (count jumped))) (Extends-refl c5))
                sf q))

    -- With `else`: the first branch jumps over the second.
    pub if_else-Piece :
        Piece d s cb (SafeIf d s cb e St dt Sf df) (does_if d s cb e St dt Sf df) c whole
    if_else-Piece = record {
      good = patch-IsGood c5 _ _ el.good;
      grows =
          patch-Extends c c5 (count c3) (count c5) (omega (arith, long, gd.grown.grows.code_grows))
            (Extends-trans start_grows el.grows);
      runs = λ code m stack f cov at safe h.
          subst (λ n. Ends d s cb code m n f) (sym (count-patch c5 (count c3) (count c5)))
            (runs code m stack f cov (IsAt-patch d s cb stack c c5 _ _ m at) safe h);
    }
