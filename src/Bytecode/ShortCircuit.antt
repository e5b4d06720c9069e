-- ===== src/Bytecode/ShortCircuit.antt =====
-- The code of `&&` and `||` as a whole, for both values of the left operand.
use fluxa_lang.Base.{
  ℕ, ◌+◌, ◌≤◌, ◌≡◌, refl, sym, ap, ◌∙◌, subst, List, some, Bool, true, false, ◌==◌, arith,
  Bool-cases, inl, inr, get_elem?,
}
use mathlib.Core.Option.{some-injective}
use fluxa_lang.Ast.{Node, binary, logic_and, logic_or}
use fluxa_lang.Prst.Value.{Value, bool}
use fluxa_lang.Bytecode.{Instruction, instr, truthy_op, jump, Chunk, count, emit, alloc_reg}
use fluxa_lang.Bytecode.Values.{Doubles, truthy_logic}
use fluxa_lang.Bytecode.Machine.{Callbacks, Machine, dispatch, reg}
use fluxa_lang.Bytecode.Compile.{logic_code, begin_logic, finish_logic, Branch}
use fluxa_lang.Bytecode.Extends.{IsGood, Taken, alloc_reg-Taken, emit-IsGood}
use fluxa_lang.Bytecode.Branches.{close, begin_and, begin_or}
use fluxa_lang.Bytecode.Runs.{Reaches, here, next, Reaches-trans, Leaves, step-dispatch}
use fluxa_lang.Bytecode.Compiled.{Compiled, Computes, Gets, IsQuiet}
use fluxa_lang.Bytecode.Operators.{unless-ok, unless-step, and_then-some}
use fluxa_lang.Bytecode.Logic.{LogicCode, before_c3, logic_grows, left_tested, right_runs}
use fluxa_lang.Eval.{Scopes, eval}

-- The chunks between the parts of `logic_code`, when it did not fail.
record Parts (is_and : Bool) (left right : Chunk → Chunk × ℕ) (c : Chunk) : Type 0 where
  c2 : Chunk
  tl : ℕ
  c3 : Chunk
  dst : ℕ
  left_ok : (left c).0.ok ≡ true
  took1 : IsGood (left c).0 → Taken (left c).0 (c2, tl)
  took2 :
      IsGood (emit c2 (instr truthy_op tl (left c).1 0 0))
      → Taken (emit c2 (instr truthy_op tl (left c).1 0 0)) (c3, dst)
  right_ok : (right (begin_logic is_and c3 tl dst).chunk).0.ok ≡ true
  whole :
      logic_code is_and left right c
      ≡ finish_logic is_and
          (begin_logic is_and c3 tl dst)
          (right (begin_logic is_and c3 tl dst).chunk).0
          (right (begin_logic is_and c3 tl dst).chunk).1

parts :
    (is_and : Bool) (left right : Chunk → Chunk × ℕ) (c : Chunk)
    → (logic_code is_and left right c).0.ok ≡ true
    → Parts is_and left right c
unfolding logic_code
parts is_and left right c h =
    let x : Chunk × ℕ = logic_code is_and left right c in
    let (ok1, q1) = unless-ok (left c).0 _ h in
    let (ok2, q2) = unless-step x _ _ h q1 in
    let (ok3, q3) = unless-step x _ _ h q2 in
    let (ok4, q4) = unless-step x _ _ h q3 in
    record {
      c2 = (alloc_reg (left c).0).0;
      tl = (alloc_reg (left c).0).1;
      c3 =
          (alloc_reg (
            emit (alloc_reg (left c).0).0
              (instr truthy_op (alloc_reg (left c).0).1 (left c).1 0 0))).0;
      dst =
          (alloc_reg (
            emit (alloc_reg (left c).0).0
              (instr truthy_op (alloc_reg (left c).0).1 (left c).1 0 0))).1;
      left_ok = ok1;
      took1 = λ g. alloc_reg-Taken (left c).0 g ok2;
      took2 = λ g. alloc_reg-Taken _ g ok3;
      right_ok = ok4;
      whole = q4;
    }

module _ {W : Type 0} (d : Doubles) (s : Scopes) (cb : Callbacks W) (stack : List Value) where
  module _ (l r : Node) (left right : Chunk → Chunk × ℕ) (c : Chunk) (g : IsGood c)
      (left_right : ((left c).0.ok ≡ true → Compiled d s cb stack l c (left c))
        × ((b : Chunk)
            → IsGood b
            → (right b).0.ok ≡ true
            → Compiled d s cb stack r b (right b))) where
    good_c1 : (left c).0.ok ≡ true → IsGood (left c).0
    good_c1 ok = (left_right.0 ok).good

    abbrev begun_at : (is_and : Bool) → Parts is_and left right c → Branch
    begun_at is_and p = begin_logic is_and p.c3 p.tl p.dst

    -- The chunk at the end, and the parts of the code.
    abbrev ended : (is_and : Bool) → Parts is_and left right c → Chunk × ℕ
    ended is_and p =
        finish_logic is_and (begun_at is_and p) (right (begun_at is_and p).chunk).0
          (right (begun_at is_and p).chunk).1

    second_taken :
        (is_and : Bool) (p : Parts is_and left right c)
        → Taken (emit p.c2 (instr truthy_op p.tl (left c).1 0 0)) (p.c3, p.dst)
    second_taken is_and p = p.took2 (emit-IsGood p.c2 _ (p.took1 (good_c1 p.left_ok)).good)

    and_Parts :
        (p : Parts true left right c)
        → (q : LogicCode d s cb stack l r c (ended true p).0 p.dst (count (ended true p).0))
          × (count q.c3 + 1 + 1 ≡ count q.b)
    unfolding begin_logic finish_logic
    and_Parts p =
        let taken = second_taken true p in
        let (begun, longer, jx, same_dst) = begin_and p.c3 p.tl p.dst taken.good in
        let b : Chunk = (begun_at true p).chunk in
        let inner = left_right.1 b begun.good p.right_ok in
        let closed =
          close p.c3 b (right b).0 p.dst (right b).1 (begun_at true p).false_jump begun.grows
            inner.grows inner.good (omega (arith, jx)) (omega (arith, jx, longer)) in
        (
          record {
            c1 = (left c).0;
            c2 = p.c2;
            c3 = p.c3;
            b = b;
            c4 = (right b).0;
            lr = (left c).1;
            tl = p.tl;
            rr = (right b).1;
            jx = (begun_at true p).false_jump;
            start = g;
            left = left_right.0 p.left_ok;
            take1 = p.took1 (good_c1 p.left_ok);
            take2 = taken;
            grows_b = begun.grows;
            same_b = begun.same_regs;
            longer = omega (arith, longer);
            right = inner;
            closed = closed;
            moves =
                closed.before (count p.c3) (omega (arith, longer))
                  (λ q. absurd (omega (arith, q, jx)))
                ∙ begun.moves;
            tests =
                ap (get_elem? (ended true p).0.code) (sym jx)
                ∙ closed.patched_to _ (ap (get_elem? b.code) jx ∙ begun.tests);
          },
          sym longer,
        )

    -- The parts of the code of `||`, and its second jump.
    or_Parts :
        (p : Parts false left right c)
        → (q : LogicCode d s cb stack l r c
            (ended false p).0
            p.dst
            (count (begun_at false p).chunk))
          × (count q.b ≡ count (begun_at false p).chunk)
          × (get_elem? (ended false p).0.code (count q.c3 + 1 + 1)
              ≡ some (instr jump 0 0 0 (count (ended false p).0)))
    unfolding begin_logic finish_logic
    or_Parts p =
        let taken = second_taken false p in
        let (begun, longer, jx, same_dst, jumps) = begin_or p.c3 p.tl p.dst taken.good in
        let b : Chunk = (begun_at false p).chunk in
        let inner = left_right.1 b begun.good p.right_ok in
        let closed =
          close p.c3 b (right b).0 p.dst (right b).1 (begun_at false p).true_jump begun.grows
            inner.grows inner.good (omega (arith, jx)) (omega (arith, jx, longer)) in
        (
          record {
            c1 = (left c).0;
            c2 = p.c2;
            c3 = p.c3;
            b = b;
            c4 = (right b).0;
            lr = (left c).1;
            tl = p.tl;
            rr = (right b).1;
            jx = (begun_at false p).true_jump;
            start = g;
            left = left_right.0 p.left_ok;
            take1 = p.took1 (good_c1 p.left_ok);
            take2 = taken;
            grows_b = begun.grows;
            same_b = begun.same_regs;
            longer = omega (arith, longer);
            right = inner;
            closed = closed;
            moves =
                closed.before (count p.c3) (omega (arith, longer))
                  (λ q. absurd (omega (arith, q, jx)))
                ∙ begun.moves;
            tests =
                closed.before (count p.c3 + 1) (omega (arith, longer))
                  (λ q. absurd (omega (arith, q, jx)))
                ∙ begun.tests;
          },
          refl,
          ap (get_elem? (ended false p).0.code) (sym jx)
              ∙ closed.patched_to _ (ap (get_elem? b.code) jx ∙ jumps),
        )

    -- What every such code has, whatever it computes.
    logic_Compiled :
        (e : Node) (f : Chunk) (dst target : ℕ)
        → LogicCode d s cb stack l r c f dst target
        → Computes d s cb stack e c f dst
        → Compiled d s cb stack e c (f, dst)
    logic_Compiled e f dst target p runs = record {
      good = p.closed.good;
      grows = logic_grows d s cb stack l r c f dst target p;
      place = omega (
        arith, p.closed.same_next, p.right.grows.regs_grow, p.same_b, p.take2.next, p.take2.is_next,
      );
      computes = runs;
    }

    pub and-Compiled :
        (logic_code true left right c).0.ok ≡ true
        → Compiled d s cb stack (binary logic_and l r) c (logic_code true left right c)
    unfolding eval
    and-Compiled h =
        let p = parts true left right c h in
        let (q, from_b) = and_Parts p in
        let f : Chunk = (ended true p).0 in
        let same_dst : (ended true p).1 ≡ p.dst = unfold begin_logic finish_logic in refl in
        subst (Compiled d s cb stack (binary logic_and l r) c)
          (ap (λ n. (f, n)) (sym same_dst) ∙ sym p.whole)
          (logic_Compiled (binary logic_and l r) f p.dst (count f) q (λ code m v cov at e.
            let (x, ex, fx) = and_then-some (eval d s stack l) _ v e in
            let (m2, reach, ip, lv, val) =
              left_tested d s cb stack l r c f p.dst (count f) q code m cov at x ex in
            elim (Bool-cases (truthy_logic x == 0)) [
              | inl z ↦ (
                m2,
                reach,
                rw z at ip,
                lv,
                val ∙ ap bool (ground (arith, z)) ∙ some-injective _ _ (rw z at fx),
              )
              | inr nz ↦
                  let (y, ey, fy) = and_then-some (eval d s stack r) _ v (rw nz at fx) in
                  subst (Gets d s cb stack code m c.next_reg (count f) p.dst)
                    (some-injective _ _ fy)
                    (right_runs d s cb stack l r c f p.dst (count f) q code m cov at y m2 ey reach
                      ((rw nz at ip) ∙ from_b) lv)
            ]))

    module _ (quiet : IsQuiet cb)
        (bits : (x : Value) → eval d s stack l ≡ some x → truthy_logic x ≤ 1) where
      -- The second jump, over the right operand.
      jump_over :
          (code : List Instruction) (m m2 : Machine W) (k target r' : ℕ) (v : Value)
          → Reaches d cb code m m2
          → get_elem? code m2.ip ≡ some (instr jump 0 0 0 target)
          → Leaves k m m2
          → reg m2 r' ≡ v
          → Gets d s cb stack code m k target r' v
      unfolding dispatch
      jump_over code m m2 k target r' v reach at lv val = (
        record m2 { ip = target },
        Reaches-trans d cb code reach (
            next
              (step-dispatch d cb code m2 _ at
                ∙ rw (quiet.not_cancelled m2.env, quiet.no_tick m2.env) refl)
              here),
        refl,
        record { same_consts = lv.same_consts; same_length = lv.same_length; kept = lv.kept },
        val,
      )

      pub or-Compiled :
          (logic_code false left right c).0.ok ≡ true
          → Compiled d s cb stack (binary logic_or l r) c (logic_code false left right c)
      unfolding eval
      or-Compiled h =
          let p = parts false left right c h in
          let (q, at_b, jumps) = or_Parts p in
          let f : Chunk = (ended false p).0 in
          let target = count (begun_at false p).chunk in
          let same_dst : (ended false p).1 ≡ p.dst = unfold begin_logic finish_logic in refl in
          subst (Compiled d s cb stack (binary logic_or l r) c)
            (ap (λ n. (f, n)) (sym same_dst) ∙ sym p.whole)
            (logic_Compiled (binary logic_or l r) f p.dst target q (λ code m v cov at e.
              let (x, ex, fx) = and_then-some (eval d s stack l) _ v e in
              let (m2, reach, ip, lv, val) =
                left_tested d s cb stack l r c f p.dst target q code m cov at x ex in
              elim (Bool-cases (truthy_logic x == 0)) [
                | inl z ↦
                    let (y, ey, fy) = and_then-some (eval d s stack r) _ v (rw z at fx) in
                    subst (Gets d s cb stack code m c.next_reg (count f) p.dst)
                      (some-injective _ _ fy)
                      (right_runs d s cb stack l r c f p.dst target q code m cov at y m2 ey reach
                        ((rw z at ip) ∙ sym at_b) lv)
                | inr nz ↦
                    jump_over code m m2 c.next_reg (count f) p.dst v reach
                      (ap (get_elem? code) (rw nz at ip)
                        ∙ cov (count q.c3 + 1 + 1)
                            (omega (arith, before_c3 d s cb stack l r c f p.dst target q))
                            (omega (arith, q.longer, q.right.grows.code_grows, q.closed.at_end))
                        ∙ jumps)
                      lv
                      (val
                        ∙ ap bool (ground (arith, nz, bits x ex))
                        ∙ some-injective _ _ (rw nz at fx))
              ]))
