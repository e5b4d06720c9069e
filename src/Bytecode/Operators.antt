-- ===== src/Bytecode/Operators.antt =====
-- The code of `!` and of the operators with two operands that are both evaluated.
use fluxa_lang.Base.{
  ℕ, ◌+◌, ◌≡◌, refl, sym, ap, ap₂, ◌∙◌, subst, List, Option, none, some, true, not, arith,
  Bool-cases, inl, inr, length, get_elem?,
}
use mathlib.Core.Option.{some-injective}
use fluxa_lang.Ast.{Node, binary, logic_not, binary_op, BinaryOp}
use fluxa_lang.Prst.Value.{Value, bool}
use fluxa_lang.Bytecode.{Instruction, instr, not_op, arith_op, Chunk, count, emit, alloc_reg}
use fluxa_lang.Bytecode.Values.{Doubles, bit, truthy_not, vm_binary}
use fluxa_lang.Bytecode.Machine.{Callbacks, Machine, dispatch, write, running}
use fluxa_lang.Bytecode.Compile.{unless_failed, finish_not, finish_binary}
use fluxa_lang.Bytecode.Agreement.{IsExact, vm_binary-apply}
use fluxa_lang.Bytecode.Extends.{
  Extends, Extends-refl, Extends-trans, IsGood, Taken, alloc_reg-Taken, emit-Extends, emit-IsGood,
  emit-ok, alloc_reg-ok,
}
use fluxa_lang.Bytecode.Runs.{
  Reaches, Reaches-trans, Leaves, Leaves-refl, Leaves-trans, step-dispatch,
}
use fluxa_lang.Bytecode.Compiled.{
  Compiled, Covers, Gets, IsAt, fetch, finish, Covers-part, IsAt-part, reg-Leaves,
}
use fluxa_lang.Eval.{Scopes, eval, and_then}

pub unless-ok :
    (c : Chunk) (rest : Chunk × ℕ)
    → (unless_failed c rest).0.ok ≡ true
    → (c.ok ≡ true) × (unless_failed c rest ≡ rest)
unless-ok c rest h = elim (Bool-cases c.ok) [
  | inl t ↦ (t, rw t refl)
  | inr f ↦ absurd (cc (rw f at h))
]

-- The same for a result that is known to be such a step.
pub unless-step :
    (x : Chunk × ℕ) (c : Chunk) (rest : Chunk × ℕ)
    → x.0.ok ≡ true
    → x ≡ unless_failed c rest
    → (c.ok ≡ true) × (x ≡ rest)
unless-step x c rest h e =
    let (ok, q) = unless-ok c rest (ap (λ (y : Chunk × ℕ). y.0.ok) (sym e) ∙ h) in (ok, e ∙ q)

pub and_then-some :
    (o : Option Value) (f : Value → Option Value) (v : Value)
    → and_then o f ≡ some v
    → (x : Value) × (o ≡ some x) × (f x ≡ some v)
and_then-some none f v h = absurd (cc)
and_then-some (some x) f v h = (x, refl, h)

pub finish_not-ok : (c : Chunk) (src : ℕ) → (finish_not c src).0.ok ≡ true → c.ok ≡ true
unfolding finish_not
finish_not-ok c src h = (unless-ok c _ h).0

pub finish_binary-ok :
    (o : BinaryOp) (c : Chunk) (r1 r2 : ℕ) → (finish_binary o c r1 r2).0.ok ≡ true → c.ok ≡ true
unfolding finish_binary
finish_binary-ok o c r1 r2 h = alloc_reg-ok c (emit-ok (alloc_reg c).0 _ h)

module _ {W : Type 0} (d : Doubles) (s : Scopes) (cb : Callbacks W) (stack : List Value) where
  -- The last instruction of an operator: its destination was just taken.
  last_step :
      (code : List Instruction) (c c1 c2 : Chunk) (dst : ℕ) (i : Instruction) (m m1 : Machine W)
      (v : Value)
      → Extends c c1
      → Taken c1 (c2, dst)
      → Covers d s cb stack code c (emit c2 i)
      → IsAt d s cb stack c (emit c2 i) m
      → Reaches d cb code m m1
      → m1.ip ≡ count c1
      → Leaves c.next_reg m m1
      → dispatch d cb i.op i (record m1 { ip = m1.ip + 1 })
        ≡ running (write (record m1 { ip = m1.ip + 1 }) dst v)
      → Gets d s cb stack code m c.next_reg (count (emit c2 i)) dst v
  last_step code c c1 c2 dst i m m1 v x take cov at reach ip l runs =
      finish d s cb stack code c2 i m m1 c.next_reg dst v reach (ip ∙ same) l
        (omega (arith, take.is_next, x.regs_grow))
        (omega (
          arith,
          at.room,
          (emit-Extends c2 i).peak_grows,
          take.good.below_peak,
          take.next,
          take.is_next,
          l.same_length,
        ))
        (step-dispatch d cb code m1 i (
            ap (get_elem? code) (ip ∙ same)
            ∙ fetch d s cb stack code c c2 (emit c2 i) i cov (omega (arith, x.code_grows, same))
                (Extends-refl (emit c2 i)))
          ∙ runs)
    where
      same : count c1 ≡ count c2
      same = ap length (sym take.same_code)

  pub not-Compiled :
      (l r : Node) (c : Chunk) (res : Chunk × ℕ)
      → IsGood c
      → Compiled d s cb stack l c res
      → (finish_not res.0 res.1).0.ok ≡ true
      → Compiled d s cb stack (binary logic_not l r) c (finish_not res.0 res.1)
  unfolding finish_not eval dispatch
  not-Compiled l r c (c1, src) gc left h =
      let (ok1, e1) = unless-ok c1 _ h in
      let h2 : (unless_failed (alloc_reg c1).0
            (emit (alloc_reg c1).0 (instr not_op (alloc_reg c1).1 src 0 0), (alloc_reg c1).1)).0.ok
          ≡ true =
        ap (λ (q : Chunk × ℕ). q.0.ok) (sym e1) ∙ h in
      let (ok2, e2) = unless-ok (alloc_reg c1).0 _ h2 in
      let take = alloc_reg-Taken c1 left.good ok2 in
      let i = instr not_op (alloc_reg c1).1 src 0 0 in
      let c2 : Chunk = (alloc_reg c1).0 in
      let tail : Extends c1 (emit c2 i) = Extends-trans take.grows (emit-Extends c2 i) in
      subst (Compiled d s cb stack (binary logic_not l r) c) (sym (e1 ∙ e2)) (record {
        good = emit-IsGood c2 i take.good;
        grows = Extends-trans left.grows tail;
        place = omega (arith, take.next, take.is_next, (emit-Extends c2 i).regs_grow);
        computes = λ code m v cov at e.
            let (x, ex, fx) = and_then-some (eval d s stack l) _ v e in
            let (m1, reach, ip, lv, val) =
              left.computes code m x
                (Covers-part d s cb stack code c c c1 (emit c2 i) cov (omega arith) tail)
                (IsAt-part d s cb stack c c c1 (emit c2 i) m m c.next_reg at
                  (Leaves-refl c.next_reg m) gc.past_locals at.at_start tail)
                ex in
            last_step code c c1 c2 (alloc_reg c1).1 i m m1 v left.grows take cov at reach ip lv (
              ap
                (λ y. running (
                  write (record m1 { ip = m1.ip + 1 }) (alloc_reg c1).1
                    (bool (bit (not (truthy_not d y))))))
                val
              ∙ ap (λ y. running (write (record m1 { ip = m1.ip + 1 }) (alloc_reg c1).1 y))
                  (some-injective _ _ fx));
      })

  pub binary-Compiled :
      (o : BinaryOp) (l r : Node) (c : Chunk) (res1 res2 : Chunk × ℕ)
      → IsGood c
      → Compiled d s cb stack l c res1
      → Compiled d s cb stack r res1.0 res2
      → ((v w : Value) → eval d s stack l ≡ some v → eval d s stack r ≡ some w → IsExact d o v w)
      → (finish_binary o res2.0 res1.1 res2.1).0.ok ≡ true
      → Compiled d s cb stack (binary (binary_op o) l r) c (finish_binary o res2.0 res1.1 res2.1)
  unfolding finish_binary eval dispatch
  binary-Compiled o l r c (c1, r1) (c2, r2) gc left right exact h =
      let i = instr (arith_op o) (alloc_reg c2).1 r1 r2 0 in
      let c3 : Chunk = (alloc_reg c2).0 in
      let take = alloc_reg-Taken c2 right.good (emit-ok c3 i h) in
      let tail : Extends c2 (emit c3 i) = Extends-trans take.grows (emit-Extends c3 i) in
      let tail1 : Extends c1 (emit c3 i) = Extends-trans right.grows tail in
      record {
        good = emit-IsGood c3 i take.good;
        grows = Extends-trans left.grows tail1;
        place = omega (arith, take.next, take.is_next, (emit-Extends c3 i).regs_grow);
        computes = λ code m v cov at e.
            let (x, ex, fx) = and_then-some (eval d s stack l) _ v e in
            let (y, ey, fy) = and_then-some (eval d s stack r) _ v fx in
            let (m1, reach1, ip1, lv1, val1) =
              left.computes code m x
                (Covers-part d s cb stack code c c c1 (emit c3 i) cov (omega arith) tail1)
                (IsAt-part d s cb stack c c c1 (emit c3 i) m m c.next_reg at
                  (Leaves-refl c.next_reg m) gc.past_locals at.at_start tail1)
                ex in
            let (m2, reach2, ip2, lv2, val2) =
              right.computes code m1 y
                (Covers-part d s cb stack code c c1 c2 (emit c3 i) cov left.grows.code_grows tail)
                (IsAt-part d s cb stack c c1 c2 (emit c3 i) m m1 c.next_reg at lv1 gc.past_locals
                  ip1 tail)
                ey in
            last_step code c c2 c3 (alloc_reg c2).1 i m m2 v (Extends-trans left.grows right.grows)
              take cov at (Reaches-trans d cb code reach1 reach2) ip2
              (Leaves-trans c.next_reg c1.next_reg left.grows.regs_grow lv1 lv2)
              (ap (λ z. running (write (record m2 { ip = m2.ip + 1 }) (alloc_reg c2).1 z))
                (ap₂ (vm_binary d o)
                    (reg-Leaves d s cb stack c1.next_reg r1 m1 m2 lv2 left.place ∙ val1) val2
                  ∙ vm_binary-apply d o x y v fy (exact x y ex ey)));
      }
