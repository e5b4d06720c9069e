-- ===== src/Bytecode/Branches.antt =====
-- The instructions of `&&` and `||`: where they stand once the jumps are patched.
use fluxa_lang.Base.{
  ℕ, ◌+◌, ◌≤◌, ◌<◌, ◌≡◌, ◌≢◌, refl, sym, ap, ◌∙◌, some, true, false, arith, get_elem?,
}
use fluxa_lang.Bytecode.{
  Instruction, instr, truthy_op, move, jump, jump_if_false, Chunk, count, emit, patch,
}
use fluxa_lang.Bytecode.Compile.{begin_logic}
use fluxa_lang.Bytecode.Extends.{
  Extends, Extends-trans, IsGood, emit-Extends, emit-IsGood, count-emit, last-emit,
}
use fluxa_lang.Bytecode.Patches.{patch-Extends, patch-IsGood, count-patch, get-patch, get-patch_ne}

-- The instructions between the operands: the move, and the test with its target.
pub record Begun (c b : Chunk) (tl dst target : ℕ) : Type 0 where
  pub good : IsGood b
  pub grows : Extends c b
  pub same_regs : b.next_reg ≡ c.next_reg
  pub moves : get_elem? b.code (count c) ≡ some (instr move dst tl 0 0)
  pub tests : get_elem? b.code (count c + 1) ≡ some (instr jump_if_false tl 0 0 target)

module _ (c : Chunk) (tl dst : ℕ) (g : IsGood c) where
  abbrev moved : Chunk
  moved = emit c (instr move dst tl 0 0)

  abbrev branched : Chunk
  branched = emit moved (instr jump_if_false tl 0 0 0)

  abbrev jumped : Chunk
  jumped = emit branched (instr jump 0 0 0 0)

  moved_there : get_elem? branched.code (count c) ≡ some (instr move dst tl 0 0)
  moved_there =
      (emit-Extends moved (instr jump_if_false tl 0 0 0)).code_kept (count c)
        (omega (arith, count-emit c (instr move dst tl 0 0)))
      ∙ last-emit c (instr move dst tl 0 0)

  tested_there : get_elem? branched.code (count c + 1) ≡ some (instr jump_if_false tl 0 0 0)
  tested_there =
      ap (get_elem? branched.code) (sym (count-emit c (instr move dst tl 0 0)))
      ∙ last-emit moved (instr jump_if_false tl 0 0 0)

  branched_grows : Extends c branched
  branched_grows = Extends-trans (emit-Extends c _) (emit-Extends moved _)

  branched_count : count branched ≡ count c + 1 + 1
  branched_count =
      omega (
        arith,
        count-emit c (instr move dst tl 0 0),
        count-emit moved (instr jump_if_false tl 0 0 0),
      )

  pub begin_and :
      Begun c (begin_logic true c tl dst).chunk tl dst 0
      × (count (begin_logic true c tl dst).chunk ≡ count c + 1 + 1)
      × ((begin_logic true c tl dst).false_jump ≡ count c + 1)
      × ((begin_logic true c tl dst).dst ≡ dst)
  unfolding begin_logic
  begin_and = (
    record {
      good = emit-IsGood moved _ (emit-IsGood c _ g);
      grows = branched_grows;
      same_regs = unfold emit in refl;
      moves = moved_there;
      tests = tested_there;
    },
    branched_count,
    count-emit c _,
    refl,
  )

  pub begin_or :
      Begun c (begin_logic false c tl dst).chunk tl dst (count (begin_logic false c tl dst).chunk)
      × (count (begin_logic false c tl dst).chunk ≡ count c + 1 + 1 + 1)
      × ((begin_logic false c tl dst).true_jump ≡ count c + 1 + 1)
      × ((begin_logic false c tl dst).dst ≡ dst)
      × (get_elem? (begin_logic false c tl dst).chunk.code (count c + 1 + 1)
          ≡ some (instr jump 0 0 0 0))
  unfolding begin_logic
  begin_or = (
    record {
      good =
          patch-IsGood jumped _ _
            (emit-IsGood branched _ (emit-IsGood moved _ (emit-IsGood c _ g)));
      grows =
          patch-Extends c jumped (count moved) (count jumped) (omega (arith, at_move))
            (Extends-trans branched_grows (emit-Extends branched _));
      same_regs = unfold emit patch in refl;
      moves =
          get-patch_ne jumped (count moved) (count jumped) (count c)
            (λ (q : count moved ≡ count c). absurd (omega (arith, q, at_move)))
          ∙ keeps (count c) (omega (arith, branched_count))
          ∙ moved_there;
      tests =
          ap (get_elem? closed.code) (sym at_move)
          ∙ get-patch jumped (count moved) (count jumped) (instr jump_if_false tl 0 0 0) (
              keeps (count moved) (omega (arith, branched_count, at_move))
              ∙ ap (get_elem? branched.code) at_move
              ∙ tested_there)
          ∙ ap (λ n. some (instr jump_if_false tl 0 0 n))
              (sym (count-patch jumped (count moved) (count jumped)));
    },
    omega (
      arith,
      count-patch jumped (count moved) (count jumped),
      branched_count,
      count-emit branched (instr jump 0 0 0 0),
    ),
    branched_count,
    refl,
    get-patch_ne jumped (count moved) (count jumped) (count c + 1 + 1)
          (λ (q : count moved ≡ count c + 1 + 1). absurd (omega (arith, q, at_move)))
        ∙ ap (get_elem? jumped.code) (sym branched_count)
        ∙ last-emit branched (instr jump 0 0 0 0),
  )
    where
      closed : Chunk
      closed = patch jumped (count moved) (count jumped)

      at_move : count moved ≡ count c + 1
      at_move = count-emit c (instr move dst tl 0 0)

      keeps : (j : ℕ) → j < count branched → get_elem? jumped.code j ≡ get_elem? branched.code j
      keeps j h = (emit-Extends branched (instr jump 0 0 0 0)).code_kept j h

-- The whole: `f` is the code with the last test, and with the jump at `jx` patched to its end.
pub record Closed (c b c' f : Chunk) (dst rr jx : ℕ) : Type 0 where
  pub good : IsGood f
  pub grows : Extends c f
  pub same_consts : f.consts ≡ c'.consts
  pub same_peak : f.peak_reg ≡ c'.peak_reg
  pub same_next : f.next_reg ≡ c'.next_reg
  pub at_end : count f ≡ count c' + 1
  pub last : get_elem? f.code (count c') ≡ some (instr truthy_op dst rr 0 0)
  pub inner : (j : ℕ) → count b ≤ j → j < count c' → get_elem? f.code j ≡ get_elem? c'.code j
  pub before : (j : ℕ) → j < count b → jx ≢ j → get_elem? f.code j ≡ get_elem? b.code j
  pub patched_to :
      (i : Instruction)
      → get_elem? b.code jx ≡ some i
      → get_elem? f.code jx ≡ some (record i { offset = count f })

pub close :
    (c b c' : Chunk) (dst rr jx : ℕ)
    → Extends c b
    → Extends b c'
    → IsGood c'
    → count c ≤ jx
    → jx < count b
    → Closed c b c'
        (patch
          (emit c' (instr truthy_op dst rr 0 0))
          jx
          (count (emit c' (instr truthy_op dst rr 0 0))))
        dst
        rr
        jx
close c b c' dst rr jx cb bc g low high = record {
  good = patch-IsGood c5 jx (count c5) (emit-IsGood c' _ g);
  grows = patch-Extends c c5 jx (count c5) low (Extends-trans cb (Extends-trans bc ext5));
  same_consts = unfold emit patch in refl;
  same_peak = unfold emit patch in refl;
  same_next = unfold emit patch in refl;
  at_end = count-patch c5 jx (count c5) ∙ count-emit c' (instr truthy_op dst rr 0 0);
  last =
      get-patch_ne c5 jx (count c5) (count c')
        (λ (q : jx ≡ count c'). absurd (omega (arith, q, high, bc.code_grows)))
      ∙ last-emit c' (instr truthy_op dst rr 0 0);
  inner = λ j h k.
      get-patch_ne c5 jx (count c5) j (λ (q : jx ≡ j). absurd (omega (arith, q, h, high)))
      ∙ ext5.code_kept j k;
  before = λ j h n.
      get-patch_ne c5 jx (count c5) j n
      ∙ ext5.code_kept j (omega (arith, h, bc.code_grows))
      ∙ bc.code_kept j h;
  patched_to = λ i h.
      get-patch c5 jx (count c5) i
        (ext5.code_kept jx (omega (arith, high, bc.code_grows)) ∙ bc.code_kept jx high ∙ h)
      ∙ ap (λ n. some (record i { offset = n })) (sym (count-patch c5 jx (count c5)));
}
  where
    c5 : Chunk
    c5 = emit c' (instr truthy_op dst rr 0 0)

    ext5 : Extends c' c5
    ext5 = emit-Extends c' (instr truthy_op dst rr 0 0)
