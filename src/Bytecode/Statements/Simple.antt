-- ===== src/Bytecode/Statements/Simple.antt =====
-- The code of assignments and of `return`.
use fluxa_lang.Base.{
  ℕ, ◌+◌, ◌≤◌, ◌<◌, ◌≡◌, refl, sym, ap, ◌∙◌, subst, List, Option, none, some, Bool, true, false,
  ltb, ◌==◌, ◌&&◌, ◌||◌, if◌then◌else◌, arith, length, get_elem?, set, length-set,
  get_elem?-set_self, get_elem?-set_ne, get_elem?-some, get_elem?-beyond, Bool-cases, inl, inr,
  dec_lt, ℕ_discrete, lt→ltb,
}
use mathlib.Core.Option.{some-injective}
use fluxa_lang.Ast.{Node}
use fluxa_lang.Prst.Value.{Value, nil, val_type, type_nil}
use fluxa_lang.Bytecode.{
  Instruction, instr, move, move_str, return_val, return_nil, Chunk, count, emit, note_slot,
  first_temp,
}
use fluxa_lang.Bytecode.Values.{Doubles}
use fluxa_lang.Bytecode.Machine.{
  Callbacks, Machine, returned, running, run, step, dispatch, reg, write, is_dyn,
}
use fluxa_lang.Bytecode.Extends.{
  Extends, Extends-trans, IsGood, Marked, note_slot-Marked, emit-Extends, emit-IsGood, count-emit,
  last-emit,
}
use fluxa_lang.Bytecode.Runs.{here, next, step-dispatch, run-return}
use fluxa_lang.Bytecode.Compiled.{Compiled, IsPure}
use fluxa_lang.Bytecode.Statements.Plain.{Grown}
use fluxa_lang.Bytecode.Statements.Pieces.{
  Leaves-Kept, Leaves-Locals, Locals, Ends, Ends-after, Piece, IsAt-next,
}
use fluxa_lang.Bytecode.Statements.Safe.{IsIdle}
use fluxa_lang.Bytecode.Statements.Guards.{with_value-some}
use fluxa_lang.Eval.{Scopes, eval, read_slot}
use fluxa_lang.Eval.Statements.{with_value, store_checked, write_slot}
use fluxa_lang.Eval.{Flow, goes, returns}

-- A statement that ends with one instruction behind an expression: `does` is what it makes of the value.
record LastStep {W : Type 0} (d : Doubles) (s : Scopes) (cb : Callbacks W)
    (does : List Value → Value → Option Flow) (r : ℕ) (i : Instruction) : Type 0 where
  steps :
      (code : List Instruction) (m : Machine W) (stack : List Value) (f : Flow)
      → get_elem? code m.ip ≡ some i
      → Locals m stack
      → 128 ≤ length m.env.regs
      → does stack (reg m r) ≡ some f
      → Ends d s cb code m (m.ip + 1) f

module _ {W : Type 0} (d : Doubles) (s : Scopes) (cb : Callbacks W) where
  LastStep-Piece :
      (does : List Value → Value → Option Flow) (e : Node) (c : Chunk) (res : Chunk × ℕ)
      (c2 : Chunk) (i : Instruction)
      → IsGood c
      → Grown c res
      → ((stack : List Value) → IsPure d s cb stack e → Compiled d s cb stack e c res)
      → Marked res.0 c2
      → LastStep d s cb does res.1 i
      → Piece d s cb
          (λ stack. IsPure d s cb stack e)
          (λ stack. with_value (eval d s stack e) (does stack))
          c
          (emit c2 i)
  LastStep-Piece does e c res c2 i g x compiled mark last = record {
    good = emit-IsGood c2 i mark.good;
    grows = Extends-trans x.grows behind;
    runs = λ code m stack f cov at pure h.
        let (v, ev, q) = with_value-some (eval d s stack e) _ f h in
        let (m1, r1, ip1, l1, val) =
          (compiled stack pure).computes code m v
            (λ j a b. cov j a (omega (arith, b, behind.code_grows)) ∙ behind.code_kept j b)
            (IsAt-next d s cb stack stack c c res.0 (emit c2 i) m m at
              (record { same_consts = refl; same_length = refl }) at.locals at.at_start behind)
            ev in
        let ip : m1.ip ≡ count c2 = ip1 ∙ sym same in
        Ends-after d s cb code (count (emit c2 i)) f r1 (Leaves-Kept l1) (
          subst (λ n. Ends d s cb code m1 n f) (ap (λ n. n + 1) ip ∙ sym (count-emit c2 i))
            (last.steps code m1 stack f
              (ap (get_elem? code) ip
                ∙ cov (count c2) (omega (arith, same, x.grows.code_grows))
                    (omega (arith, count-emit c2 i))
                ∙ last-emit c2 i)
              (Leaves-Locals stack g.past_locals l1 at.locals)
              (omega (
                arith, l1.same_length, at.room, g.past_locals, g.below_peak, x.grows.peak_grows,
                behind.peak_grows,
              ))
              (ap (does stack) val ∙ q)));
  }
    where
      behind : Extends res.0 (emit c2 i)
      behind = Extends-trans mark.grows (emit-Extends c2 i)

      same : count c2 ≡ count res.0
      same = ap length mark.same_code

  -- `return` of a value.
  return-Last : (r : ℕ) → LastStep d s cb (λ stack v. some (returns v)) r (instr return_val r 0 0 0)
  return-Last r = record {
    steps = λ code m stack f there l room h.
        subst (Ends d s cb code m (m.ip + 1)) (some-injective _ _ h)
          (m, here, (record m { ip = m.ip + 1 }, run-return d cb code m r there));
  }

  pub return-Piece :
      (e : Node) (c : Chunk) (res : Chunk × ℕ)
      → IsGood c
      → Grown c res
      → ((stack : List Value) → IsPure d s cb stack e → Compiled d s cb stack e c res)
      → Marked res.0 res.0
      → Piece d s cb
          (λ stack. IsPure d s cb stack e)
          (λ stack. with_value (eval d s stack e) (λ v. some (returns v)))
          c
          (emit res.0 (instr return_val res.1 0 0 0))
  return-Piece e c res g x compiled mark =
      LastStep-Piece (λ stack v. some (returns v)) e c res res.0 _ g x compiled mark
        (return-Last res.1)

  -- `return` of none.
  pub run-return_nil :
      (code : List Instruction) (m : Machine W)
      → get_elem? code m.ip ≡ some (instr return_nil 0 0 0 0)
      → run d cb 1 code m ≡ some (returned (record m { ip = m.ip + 1 }) nil)
  unfolding run dispatch
  run-return_nil code m h = rw (step-dispatch d cb code m (instr return_nil 0 0 0 0) h, run) refl

  pub return_nil-Piece :
      (c : Chunk)
      → IsGood c
      → Piece d s cb
          (λ stack. Unit {0})
          (λ stack. some (returns nil))
          c
          (emit c (instr return_nil 0 0 0 0))
  return_nil-Piece c g = record {
    good = emit-IsGood c _ g;
    grows = emit-Extends c _;
    runs = λ code m stack f cov at safe h.
        subst (Ends d s cb code m (count (emit c (instr return_nil 0 0 0 0))))
          (some-injective _ _ h)
          (
            m,
            here,
            (
              record m { ip = m.ip + 1 },
              run-return_nil code m (
                  ap (get_elem? code) at.at_start
                  ∙ cov (count c) (omega arith)
                      (omega (arith, count-emit c (instr return_nil 0 0 0 0)))
                  ∙ last-emit c (instr return_nil 0 0 0 0)),
            ),
          );
  }

  module _ (idle : IsIdle cb) where
    step-move :
        (code : List Instruction) (m : Machine W) (str : Bool) (a b : ℕ)
        → get_elem? code m.ip ≡ some (instr (if str then move_str else move) a b 0 0)
        → step d cb code m ≡ running (write (record m { ip = m.ip + 1 }) a (reg m b))
    unfolding dispatch
    step-move code m true a b h = step-dispatch d cb code m (instr move_str a b 0 0) h
    step-move code m false a b h =
        step-dispatch d cb code m (instr move a b 0 0) h
        ∙ elim (Bool-cases (ltb a first_temp && (is_dyn (reg m a) || is_dyn (reg m b)))) [
          | inl t ↦ rw (t, idle.no_store m.env a b) refl
          | inr t ↦ rw t refl
        ]

    -- A variable of the frame is in the evaluator's stack.
    in_stack :
        (m : Machine W) (stack : List Value) (off : ℕ)
        → Locals m stack
        → off < 128
        → 128 ≤ length m.env.regs
        → off < length stack
    in_stack m stack off l low room = elim (dec_lt off (length stack)) [
      | yes h ↦ h
      | no n ↦
          let (v, e) = get_elem?-some m.env.regs off (omega (arith, low, room)) in
          absurd (cc (e, l off low, get_elem?-beyond off stack (omega (arith, n))))
    ]

    -- A write of a variable, in the machine and in the evaluator.
    write-Locals :
        (m : Machine W) (stack : List Value) (ip off : ℕ) (v : Value)
        → Locals m stack
        → off < 128
        → 128 ≤ length m.env.regs
        → Locals (write (record m { ip = ip }) off v) (write_slot stack off v)
    write-Locals m stack ip off v l low room k h =
        let there = in_stack m stack off l low room in
        let here' : write_slot stack off v ≡ set stack off v =
          rw (lt→ltb off (length stack) there) refl in
        elim (ℕ_discrete off k) [
          | yes e ↦
              subst (λ j. get_elem? (set m.env.regs off v) j ≡ get_elem? (write_slot stack off v) j)
                e
                (get_elem?-set_self m.env.regs off v (omega (arith, low, room))
                  ∙ sym (ap (λ st. get_elem? st off) here' ∙ get_elem?-set_self stack off v there))
          | no n ↦
              get_elem?-set_ne m.env.regs off k v n
              ∙ l k h
              ∙ sym (ap (λ st. get_elem? st k) here' ∙ get_elem?-set_ne stack off k v n)
        ]

    store_checked-some :
        (cur : Option Value) (stack : List Value) (off : ℕ) (v : Value) (f : Flow)
        → store_checked cur stack off v ≡ some f
        → goes (write_slot stack off v) ≡ f
    store_checked-some none stack off v f h = absurd (cc)
    store_checked-some (some cur) stack off v f h =
        elim (Bool-cases (val_type cur == type_nil || val_type cur == val_type v)) [
          | inl t ↦ some-injective _ _ (rw t at h)
          | inr n ↦ absurd (cc (rw n at h))
        ]

    -- The write of an assignment.
    assign-Last :
        (name : List ℕ) (off r : ℕ) (str : Bool)
        → off < 128
        → LastStep d s cb
            (λ stack v. store_checked (read_slot (get_elem? stack off) (s.lookup name)) stack off v)
            r
            (instr (if str then move_str else move) off r 0 0)
    assign-Last name off r str low = record {
      steps = λ code m stack f there l room h.
          subst (Ends d s cb code m (m.ip + 1))
            (store_checked-some (read_slot (get_elem? stack off) (s.lookup name)) stack off
              (reg m r) f h)
            (
              write (record m { ip = m.ip + 1 }) off (reg m r),
              next (step-move code m str off r there) here,
              refl,
              record { same_consts = refl; same_length = length-set m.env.regs off (reg m r) },
              write-Locals m stack (m.ip + 1) off (reg m r) l low room,
            );
    }

    pub assign-Piece :
        (name : List ℕ) (off : ℕ) (str : Bool) (e : Node) (c : Chunk) (res : Chunk × ℕ)
        → off < 128
        → IsGood c
        → IsGood res.0
        → Grown c res
        → ((stack : List Value) → IsPure d s cb stack e → Compiled d s cb stack e c res)
        → Piece d s cb
            (λ stack. IsPure d s cb stack e)
            (λ stack.
              with_value
                (eval d s stack e)
                (λ v. store_checked (read_slot (get_elem? stack off) (s.lookup name)) stack off v))
            c
            (emit
              (note_slot res.0 (some off))
              (instr (if str then move_str else move) off res.1 0 0))
    assign-Piece name off str e c res low g gr x compiled =
        LastStep-Piece _ e c res _ _ g x compiled (note_slot-Marked res.0 (some off) gr)
          (assign-Last name off res.1 str low)
