-- ===== src/Bytecode/Loads.antt =====
-- The code of literals and of variables.
use fluxa_lang.Base.{
  ℕ, ◌+◌, ◌%◌, ◌^◌, ◌<◌, ◌≡◌, sym, ap, ◌∙◌, List, Option, none, some, true, false, arith, length,
  get_elem?, str_eq, codes,
}
use mathlib.Core.Option.{some-injective}
use fluxa_lang.Ast.{Node, identifier}
use fluxa_lang.Prst.Value.{Value, nil, string}
use fluxa_lang.Bytecode.{Instruction, Chunk, count, emit, add_const, alloc_reg, mark_string_reg}
use fluxa_lang.Bytecode.Values.{Doubles}
use fluxa_lang.Bytecode.Machine.{Callbacks, Machine, dispatch, reg, write, or_nil, running}
use fluxa_lang.Bytecode.Compile.{Probes, load_scalar, load_string, compile_identifier}
use fluxa_lang.Bytecode.Extends.{
  Extends, Extends-refl, Extends-trans, IsGood, Added, add_const-Added, Taken, alloc_reg-Taken,
  emit-Extends, emit-IsGood, emit-ok, alloc_reg-ok, mark-ok, mark-Marked, Marked, note_slot-Marked,
  Marked-refl,
}
use fluxa_lang.Bytecode.Runs.{here, Leaves-refl, step-dispatch}
use fluxa_lang.Bytecode.Compiled.{Compiled, IsAt, HoldsValue, fetch, finish}
use fluxa_lang.Eval.{Scopes, eval, read_slot}

module _ {W : Type 0} (d : Doubles) (s : Scopes) (cb : Callbacks W) (stack : List Value) where
  -- A constant and a register that the next instruction loads it into.
  loaded :
      (e : Node) (w : Value) (c c1 c2 c3 : Chunk) (k dst : ℕ) (i : Instruction)
      → ((v : Value) → eval d s stack e ≡ some v → w ≡ v)
      → IsGood c
      → Added c w (c1, k)
      → Taken c1 (c2, dst)
      → Marked c2 c3
      → ((m : Machine W)
          → dispatch d cb i.op i (record m { ip = m.ip + 1 })
            ≡ running (write (record m { ip = m.ip + 1 }) dst (or_nil (get_elem? m.consts k))))
      → Compiled d s cb stack e c (emit c3 i, dst)
  loaded e w c c1 c2 c3 k dst i means g add take mark runs = record {
    good = emit-IsGood c3 i mark.good;
    grows = Extends-trans all_before (emit-Extends c3 i);
    place = omega (arith, take.next, take.is_next, mark.same_regs, (emit-Extends c3 i).regs_grow);
    computes = λ code m v cov at e'.
        finish d s cb stack code c3 i m m c.next_reg dst v here (at.at_start ∙ sym same_count)
          (Leaves-refl c.next_reg m) (omega (arith, take.is_next, add.same_regs)) (fits m at)
          (step-dispatch d cb code m i (
              ap (get_elem? code) (at.at_start ∙ sym same_count)
              ∙ fetch d s cb stack code c c3 (emit c3 i) i cov (omega (arith, same_count))
                  (Extends-refl (emit c3 i)))
            ∙ runs m
            ∙ ap (λ x. running (write (record m { ip = m.ip + 1 }) dst x))
                (ap or_nil (read m at) ∙ means v e'));
  }
    where
      all_before : Extends c c3
      all_before = Extends-trans add.grows (Extends-trans take.grows mark.grows)

      same_count : count c3 ≡ count c
      same_count = ap length (mark.same_code ∙ take.same_code ∙ add.same_code)

      fits : (m : Machine W) → IsAt d s cb stack c (emit c3 i) m → dst < length m.env.regs
      fits m at = omega (
        arith,
        at.room,
        (emit-Extends c3 i).peak_grows,
        mark.good.below_peak,
        mark.same_regs,
        take.next,
        take.is_next,
      )

      after : Extends c1 (emit c3 i)
      after = Extends-trans take.grows (Extends-trans mark.grows (emit-Extends c3 i))

      read : (m : Machine W) → IsAt d s cb stack c (emit c3 i) m → get_elem? m.consts k ≡ some w
      read m at =
          at.constants k (omega (arith, add.index_bound, after.consts_grow))
          ∙ after.consts_kept k add.index_bound
          ∙ add.stands

  pub load_scalar-Compiled :
      (e : Node) (w : Value) (c : Chunk)
      → ((v : Value) → eval d s stack e ≡ some v → w ≡ v)
      → IsGood c
      → (load_scalar c w).0.ok ≡ true
      → Compiled d s cb stack e c (load_scalar c w)
  unfolding load_scalar dispatch
  load_scalar-Compiled e w c means g h =
      let ok2 = emit-ok (alloc_reg (add_const c w).0).0 _ h in
      let add = add_const-Added c w g (alloc_reg-ok (add_const c w).0 ok2) in
      let take = alloc_reg-Taken (add_const c w).0 add.good ok2 in
      let low : (add_const c w).1 % 2 ^ 16 ≡ (add_const c w).1 = omega (arith, add.small) in
      loaded e w c (add_const c w).0 (alloc_reg (add_const c w).0).0 (alloc_reg (add_const c w).0).0
        (add_const c w).1 (alloc_reg (add_const c w).0).1 _ means g add take
        (Marked-refl _ take.good)
        (λ m.
          ap
            (λ (k : ℕ). running (
              write (record m { ip = m.ip + 1 }) (alloc_reg (add_const c w).0).1
                (or_nil (get_elem? m.consts k))))
            low)

  pub load_string-Compiled :
      (e : Node) (t : List ℕ) (c : Chunk)
      → ((v : Value) → eval d s stack e ≡ some v → string t ≡ v)
      → IsGood c
      → (load_string c t).0.ok ≡ true
      → Compiled d s cb stack e c (load_string c t)
  unfolding load_string dispatch
  load_string-Compiled e t c means g h =
      let w : Value = string t in
      let ok3 =
        emit-ok (mark_string_reg (alloc_reg (add_const c w).0).0 (alloc_reg (add_const c w).0).1) _
          h in
      let ok2 = mark-ok (alloc_reg (add_const c w).0).0 _ ok3 in
      let add = add_const-Added c w g (alloc_reg-ok (add_const c w).0 ok2) in
      let take = alloc_reg-Taken (add_const c w).0 add.good ok2 in
      let low : (add_const c w).1 % 2 ^ 16 ≡ (add_const c w).1 = omega (arith, add.small) in
      loaded e w c (add_const c w).0 (alloc_reg (add_const c w).0).0 _ (add_const c w).1
        (alloc_reg (add_const c w).0).1 _ means g add take (mark-Marked _ _ take.good ok3)
        (λ m.
          ap
            (λ (k : ℕ). running (
              write (record m { ip = m.ip + 1 }) (alloc_reg (add_const c w).0).1
                (or_nil (get_elem? m.consts k))))
            low)

  read_slot_held :
      (o scopes : Option Value) (v : Value)
      → HoldsValue o
      → read_slot o scopes ≡ some v
      → or_nil o ≡ v
  read_slot_held none scopes v h e = absurd h
  read_slot_held (some nil) scopes v h e = absurd h
  read_slot_held (some _) scopes v h e = some-injective _ _ e

  pub identifier-Compiled :
      (p : Probes) (off : ℕ) (name : List ℕ) (c : Chunk)
      → off < 128
      → str_eq name (codes "nil") ≡ false
      → str_eq name (codes "err") ≡ false
      → HoldsValue (get_elem? stack off)
      → IsGood c
      → Compiled d s cb stack
          (identifier (some off) name)
          c
          (compile_identifier p c (some off) name)
  unfolding compile_identifier eval
  identifier-Compiled p off name c h n1 n2 v g =
      let mark = note_slot-Marked c (some off) g in
      let low : off % 2 ^ 16 ≡ off = omega arith in
      record {
        good = mark.good;
        grows = mark.grows;
        place = omega (arith, h, mark.good.past_locals);
        computes = λ code m x cov at e. (
          m,
          here,
          at.at_start ∙ sym (ap length mark.same_code),
          Leaves-refl c.next_reg m,
          ap (λ (k : ℕ). reg m k) low
              ∙ ap or_nil (at.locals off h)
              ∙ read_slot_held (get_elem? stack off) (s.lookup name) x v (rw (n1, n2) at e),
        );
      }
