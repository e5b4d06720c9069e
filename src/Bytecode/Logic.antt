-- ===== src/Bytecode/Logic.antt =====
-- The code of `&&` and `||`, with its jumps.
use fluxa_lang.Base.{
  ℕ, ◌+◌, ◌≤◌, ◌<◌, ◌≡◌, refl, sym, ap, ◌∙◌, subst, List, some, Bool, true, false, ◌==◌,
  if◌then◌else◌, not, arith, length, get_elem?, set, length-set, get_elem?-set_ne, le→ltb_false,
}
use fluxa_lang.Ast.{Node}
use fluxa_lang.Prst.Value.{Value, bool}
use fluxa_lang.Bytecode.{Instruction, instr, truthy_op, move, jump_if_false, Chunk, count, emit}
use fluxa_lang.Bytecode.Values.{Doubles, truthy_logic}
use fluxa_lang.Bytecode.Machine.{Callbacks, Machine, step, dispatch, reg, write, running, or_nil}
use fluxa_lang.Bytecode.Extends.{Extends, Extends-trans, IsGood, Taken, emit-Extends, count-emit}
use fluxa_lang.Bytecode.Branches.{Closed}
use fluxa_lang.Bytecode.Runs.{
  Reaches, here, next, Reaches-trans, Leaves, Leaves-refl, Leaves-trans, reg-write, step-dispatch,
}
use fluxa_lang.Bytecode.Compiled.{
  Compiled, Covers, Gets, IsAt, fetch, finish, Covers-part, IsAt-part,
}
use fluxa_lang.Eval.{Scopes, eval}

module _ {W : Type 0} (d : Doubles) (s : Scopes) (cb : Callbacks W) (stack : List Value) where
  chosen :
      (b : Bool) (m : Machine W) (x y : ℕ)
      → (if not b then record m { ip = x } else record m { ip = y })
        ≡ record m { ip = if b then y else x }
  chosen true m x y = refl
  chosen false m x y = refl

  stored_temp :
      (m : Machine W) (dst tl : ℕ)
      → 128 ≤ dst
      → dispatch d cb move (instr move dst tl 0 0) m ≡ running (write m dst (reg m tl))
  unfolding dispatch
  stored_temp m dst tl h = rw (le→ltb_false dst 128 h) refl

  test_bool :
      (m : Machine W) (tl target n : ℕ)
      → reg m tl ≡ bool n
      → dispatch d cb jump_if_false (instr jump_if_false tl 0 0 target) m
        ≡ running (record m { ip = if n == 0 then target else m.ip })
  unfolding dispatch
  test_bool m tl target n h = rw h (ap running (chosen (n == 0) m m.ip target))

  -- The three instructions behind the left operand, up to the test.
  tested :
      (code : List Instruction) (m1 : Machine W) (k lr tl dst target n : ℕ)
      → get_elem? code m1.ip ≡ some (instr truthy_op tl lr 0 0)
      → get_elem? code (m1.ip + 1) ≡ some (instr move dst tl 0 0)
      → get_elem? code (m1.ip + 1 + 1) ≡ some (instr jump_if_false tl 0 0 target)
      → truthy_logic (reg m1 lr) ≡ n
      → 128 ≤ k
      → k ≤ tl
      → tl < dst
      → dst < length m1.env.regs
      → Gets d s cb stack code m1 k (if n == 0 then target else m1.ip + 1 + 1 + 1) dst (bool n)
  tested code m1 k lr tl dst target n g1 g2 g3 t low le lt room = (
    record a2 { ip = if n == 0 then target else m1.ip + 1 + 1 + 1 },
    next step1 (next step2 (next step3 here)),
    refl,
    record {
      same_consts = refl;
      same_length =
          length-set (set m1.env.regs tl (bool n)) dst (bool n)
          ∙ length-set m1.env.regs tl (bool n);
      kept = λ j b.
          get_elem?-set_ne (set m1.env.regs tl (bool n)) dst j (bool n)
            (λ (q : dst ≡ j). absurd (omega (arith, q, b, le, lt)))
          ∙ get_elem?-set_ne m1.env.regs tl j (bool n)
              (λ (q : tl ≡ j). absurd (omega (arith, q, b, le)));
    },
    reg-write (record a1 { ip = 0 }) dst (bool n) room1,
  )
    where
      a1 : Machine W
      a1 = write (record m1 { ip = m1.ip + 1 }) tl (bool n)

      a2 : Machine W
      a2 = write (record a1 { ip = m1.ip + 1 + 1 }) dst (bool n)

      room1 : dst < length a1.env.regs
      room1 = omega (arith, room, length-set m1.env.regs tl (bool n))

      holds1 : reg a1 tl ≡ bool n
      holds1 = reg-write (record m1 { ip = m1.ip + 1 }) tl (bool n) (omega (arith, lt, room))

      holds2 : reg a2 tl ≡ bool n
      holds2 =
          ap or_nil (
            get_elem?-set_ne a1.env.regs dst tl (bool n)
              (λ (q : dst ≡ tl). absurd (omega (arith, q, lt))))
          ∙ holds1

      step1 : step d cb code m1 ≡ running a1
      step1 =
          unfold dispatch in
          step-dispatch d cb code m1 _ g1
          ∙ ap (λ x. running (write (record m1 { ip = m1.ip + 1 }) tl (bool x))) t

      step2 : step d cb code a1 ≡ running a2
      step2 =
          step-dispatch d cb code a1 _ g2
          ∙ stored_temp (record a1 { ip = m1.ip + 1 + 1 }) dst tl (omega (arith, low, le, lt))
          ∙ ap (λ x. running (write (record a1 { ip = m1.ip + 1 + 1 }) dst x)) holds1

      step3 :
          step d cb code a2
          ≡ running (record a2 { ip = if n == 0 then target else m1.ip + 1 + 1 + 1 })
      step3 =
          step-dispatch d cb code a2 _ g3
          ∙ test_bool (record a2 { ip = m1.ip + 1 + 1 + 1 }) tl target n holds2

-- The parts of the code of `&&` or `||`: the left operand with its test, the right operand, and the
-- whole `f`. `target` is where the test jumps to when the left operand is false.
pub record LogicCode {W : Type 0} (d : Doubles) (s : Scopes) (cb : Callbacks W) (stack : List Value)
    (l r : Node) (c f : Chunk) (dst target : ℕ) : Type 0 where
  pub c1 : Chunk
  pub c2 : Chunk
  pub c3 : Chunk
  pub b : Chunk
  pub c4 : Chunk
  pub lr : ℕ
  pub tl : ℕ
  pub rr : ℕ
  pub jx : ℕ
  pub start : IsGood c
  pub left : Compiled d s cb stack l c (c1, lr)
  pub take1 : Taken c1 (c2, tl)
  pub take2 : Taken (emit c2 (instr truthy_op tl lr 0 0)) (c3, dst)
  pub grows_b : Extends c3 b
  pub same_b : b.next_reg ≡ c3.next_reg
  pub longer : count c3 + 1 + 1 ≤ count b
  pub right : Compiled d s cb stack r b (c4, rr)
  pub closed : Closed c3 b c4 f dst rr jx
  pub moves : get_elem? f.code (count c3) ≡ some (instr move dst tl 0 0)
  pub tests : get_elem? f.code (count c3 + 1) ≡ some (instr jump_if_false tl 0 0 target)

module _ {W : Type 0} (d : Doubles) (s : Scopes) (cb : Callbacks W) (stack : List Value)
    (l r : Node) (c f : Chunk) (dst target : ℕ)
    (p : LogicCode d s cb stack l r c f dst target) where
  abbrev truthy_left : Instruction
  truthy_left = instr truthy_op p.tl p.lr 0 0

  to_f : Extends (emit p.c2 truthy_left) f
  to_f = Extends-trans p.take2.grows p.closed.grows

  left_to_f : Extends p.c1 f
  left_to_f = Extends-trans p.take1.grows (Extends-trans (emit-Extends p.c2 truthy_left) to_f)

  pub logic_grows : Extends c f
  logic_grows = Extends-trans p.left.grows left_to_f

  count_c3 : count p.c3 ≡ count p.c1 + 1
  count_c3 =
      ap length p.take2.same_code
      ∙ count-emit p.c2 truthy_left
      ∙ ap (λ (xs : List Instruction). length xs + 1) p.take1.same_code

  next_c2 : (emit p.c2 truthy_left).next_reg ≡ p.c2.next_reg
  next_c2 = unfold emit in refl

  abbrev last_test : Instruction
  last_test = instr truthy_op dst p.rr 0 0

  pub before_c3 : count c ≤ count p.c3
  before_c3 = omega (arith, p.left.grows.code_grows, count_c3)

  before_b : count c ≤ count p.b
  before_b = omega (arith, p.left.grows.code_grows, count_c3, p.grows_b.code_grows)

  below_dst : c.next_reg ≤ dst
  below_dst = omega (arith, p.left.grows.regs_grow, p.take1.next, p.take2.is_next, next_c2)

  below_b : c.next_reg ≤ p.b.next_reg
  below_b = omega (arith, below_dst, p.take2.next, p.same_b, p.take2.is_next)

  -- The end of the code is behind the test.
  last_place : count p.c3 + 1 < count f
  last_place = omega (arith, p.longer, p.right.grows.code_grows, p.closed.at_end)

  module _ (code : List Instruction) (m : Machine W) (cov : Covers d s cb stack code c f)
      (at : IsAt d s cb stack c f m) where
    covered : (j : ℕ) → count c ≤ j → j < count f → get_elem? code j ≡ get_elem? f.code j
    covered j h k = cov j h k

    dst_fits : dst < length m.env.regs
    dst_fits = omega (
      arith, at.room, p.closed.grows.peak_grows, p.take2.good.below_peak, p.take2.next,
      p.take2.is_next,
    )

    -- Up to the test.
    pub left_tested :
        (x : Value)
        → eval d s stack l ≡ some x
        → Gets d s cb stack code m c.next_reg
            (if truthy_logic x == 0 then target else count p.c3 + 1 + 1)
            dst
            (bool (truthy_logic x))
    left_tested x e =
        let (m1, reach1, ip1, lv1, val1) =
          p.left.computes code m x
            (Covers-part d s cb stack code c c p.c1 f cov (omega arith) left_to_f)
            (IsAt-part d s cb stack c c p.c1 f m m c.next_reg at (Leaves-refl c.next_reg m)
              p.start.past_locals at.at_start left_to_f)
            e in
        let ip2 : m1.ip + 1 ≡ count p.c3 = omega (arith, ip1, count_c3) in
        let same : count p.c1 ≡ count p.c2 = ap length (sym p.take1.same_code) in
        let (m2, reach2, ip3, lv2, val2) =
          tested d s cb stack code m1 p.c1.next_reg p.lr p.tl dst target (truthy_logic x)
            (ap (get_elem? code) (ip1 ∙ same)
              ∙ fetch d s cb stack code c p.c2 f truthy_left cov
                  (omega (arith, same, p.left.grows.code_grows)) to_f)
            (ap (get_elem? code) ip2
              ∙ covered (count p.c3) (omega arith) (omega (arith, last_place))
              ∙ p.moves)
            (ap (λ n. get_elem? code (n + 1)) ip2
              ∙ covered (count p.c3 + 1) (omega arith) (omega (arith, last_place))
              ∙ p.tests)
            (ap truthy_logic val1) p.left.good.past_locals (omega (arith, p.take1.is_next))
            (omega (arith, p.take1.is_next, p.take2.is_next, next_c2, p.take1.next))
            (omega (arith, dst_fits, lv1.same_length)) in
        (
          m2,
          Reaches-trans d cb code reach1 reach2,
          ip3 ∙ ap (λ n. if truthy_logic x == 0 then target else n + 1 + 1) ip2,
          Leaves-trans c.next_reg p.c1.next_reg p.left.grows.regs_grow lv1 lv2,
          val2,
        )

    -- From the right operand to the end.
    pub right_runs :
        (y : Value) (m2 : Machine W)
        → eval d s stack r ≡ some y
        → Reaches d cb code m m2
        → m2.ip ≡ count p.b
        → Leaves c.next_reg m m2
        → Gets d s cb stack code m c.next_reg (count f) dst (bool (truthy_logic y))
    right_runs y m2 e reach ip lv =
        let (m3, reach3, ip3, lv3, val3) =
          p.right.computes code m2 y
            (λ j h k.
              covered j (omega (arith, h, before_b)) (omega (arith, k, p.closed.at_end))
              ∙ p.closed.inner j h k)
            (record {
              at_start = ip;
              constants = λ j h.
                  ap (λ ks. get_elem? ks j) lv.same_consts
                  ∙ at.constants j (omega (arith, h, ap length p.closed.same_consts))
                  ∙ ap (λ ks. get_elem? ks j) p.closed.same_consts;
              room = omega (arith, at.room, p.closed.same_peak, lv.same_length);
              locals = λ j h. lv.kept j (omega (arith, h, p.start.past_locals)) ∙ at.locals j h;
            })
            e in
        let all = Leaves-trans c.next_reg p.b.next_reg below_b lv lv3 in
        subst (λ n. Gets d s cb stack code m c.next_reg n dst (bool (truthy_logic y)))
          (count-emit p.c4 last_test ∙ sym p.closed.at_end)
          (finish d s cb stack code p.c4 last_test m m3 c.next_reg dst (bool (truthy_logic y))
            (Reaches-trans d cb code reach reach3) ip3 all (omega (arith, below_dst))
            (omega (arith, dst_fits, all.same_length))
            (unfold dispatch in
              step-dispatch d cb code m3 last_test (
                ap (get_elem? code) ip3
                ∙ covered (count p.c4) (omega (arith, before_b, p.right.grows.code_grows))
                    (omega (arith, p.closed.at_end))
                ∙ p.closed.last)
              ∙ ap (λ z. running (write (record m3 { ip = m3.ip + 1 }) dst (bool (truthy_logic z))))
                  val3))
