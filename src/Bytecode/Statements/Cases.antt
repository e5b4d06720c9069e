-- ===== src/Bytecode/Statements/Cases.antt =====
-- The statements that contain others, and sequences, given how their parts are compiled.
use fluxa_lang.Base.{
  ℕ, ◌≡◌, refl, sym, ap, ◌∙◌, subst, List, Option, some, true, arith, Bool-cases, inl, inr, ◌⊎◌,
}
use mathlib.Core.Option.{some-injective}
use fluxa_lang.Ast.{Node, null}
use fluxa_lang.Prst.Value.{Value}
use fluxa_lang.Bytecode.{Instruction, instr, jump_if_false, jump, Chunk, count, emit, patch}
use fluxa_lang.Bytecode.Values.{Doubles}
use fluxa_lang.Bytecode.Machine.{Callbacks, Machine}
use fluxa_lang.Bytecode.Compile.{Probes, compile_expr}
use fluxa_lang.Bytecode.Correct.{compile_expr-Compiled}
use fluxa_lang.Bytecode.Extends.{Extends-refl, Extends-trans, IsGood}
use fluxa_lang.Bytecode.Runs.{here}
use fluxa_lang.Bytecode.Compiled.{IsPure, Covers, IsAt}
use fluxa_lang.Bytecode.Statements.{and_if_ok, close_node, drop_condition, if_code, while_code}
use fluxa_lang.Bytecode.Statements.Plain.{IsPlain, compile_expr-Grown}
use fluxa_lang.Bytecode.Statements.Drops.{string_drops-Dropping}
use fluxa_lang.Bytecode.Statements.Pieces.{Ends, Ends-after, Piece, close-Piece, IsAt-next}
use fluxa_lang.Bytecode.Statements.Safe.{IsIdle, IsSafeLoop}
use fluxa_lang.Bytecode.Statements.Conditions.{drop_condition-Tested}
use fluxa_lang.Bytecode.Statements.Guards.{Guarded}
use fluxa_lang.Bytecode.Statements.Branching.{SafeIf, does_if, if-Piece}
use fluxa_lang.Bytecode.Statements.Alternatives.{else_start, else_good, if_else-Piece}
use fluxa_lang.Bytecode.Statements.Loops.{while-Piece, go_on-some}
use fluxa_lang.Eval.{Scopes, eval}
use fluxa_lang.Eval.Statements.{go_on, iterate}
use fluxa_lang.Eval.{Flow, goes, returns}

pub and-ok :
    (c rest : Chunk) → (and_if_ok c rest).ok ≡ true → (c.ok ≡ true) × (and_if_ok c rest ≡ rest)
and-ok c rest h = elim (Bool-cases c.ok) [
  | inl t ↦ (t, rw t refl)
  | inr f ↦ absurd (cc (rw f at h))
]

pub patch-ok : (c : Chunk) (k offset : ℕ) → (patch c k offset).ok ≡ true → c.ok ≡ true
unfolding patch
patch-ok c k offset h = h

-- A statement's code, behind which the registers are given back.
pub record Done {W : Type 0} (d : Doubles) (s : Scopes) (cb : Callbacks W)
    (Safe : List Value → Type 0) (does : List Value → Option Flow) (c c' : Chunk) : Type 0 where
  pub piece : Piece d s cb Safe does c c'
  pub same_next : c'.next_reg ≡ c.next_reg

abbrev pub IsElse : Node → Type 0
IsElse null = ⊥
IsElse e = Unit {0}

pub null-cases : (e : Node) → (e ≡ null) ⊎ IsElse e
null-cases null = inl refl
null-cases _ = inr tt

module _ {W : Type 0} (d : Doubles) (s : Scopes) (cb : Callbacks W) where
  close_node-ok : (k : ℕ) (r : Chunk) → (close_node k r).ok ≡ true → r.ok ≡ true
  unfolding close_node
  close_node-ok k r h = sym (string_drops-Dropping d cb k r r.next_reg).same_ok ∙ h

  -- The start and the end of each case of `compile_node`.
  pub node-Done :
      (Safe : List Value → Type 0) (does : List Value → Option Flow) (c r : Chunk)
      → IsGood c
      → (r.ok ≡ true → Piece d s cb Safe does c r)
      → (and_if_ok c (close_node c.next_reg r)).ok ≡ true
      → Done d s cb Safe does c (and_if_ok c (close_node c.next_reg r))
  node-Done Safe does c r g piece h =
      let (ok, q) = and-ok c (close_node c.next_reg r) h in
      subst (Done d s cb Safe does c) (sym q) (record {
        piece =
            close-Piece d s cb Safe does c r g
              (piece (close_node-ok c.next_reg r (ap (λ (x : Chunk). x.ok) (sym q) ∙ h)));
        same_next = unfold close_node in refl;
      })

  -- No statement.
  pub nil-Piece :
      (c : Chunk) → IsGood c → Piece d s cb (λ stack. Unit {0}) (λ stack. some (goes stack)) c c
  nil-Piece c g = record {
    good = g;
    grows = Extends-refl c;
    runs = λ code m stack f cov at safe h.
        subst (Ends d s cb code m (count c)) (some-injective _ _ h)
          (m, here, at.at_start, record { same_consts = refl; same_length = refl }, at.locals);
  }

  -- One statement behind another.
  pub seq-Piece :
      (S1 S2 : List Value → Type 0) (d1 d2 : List Value → Option Flow) (c c1 c2 : Chunk)
      → Piece d s cb S1 d1 c c1
      → Piece d s cb S2 d2 c1 c2
      → Piece d s cb
          (λ stack. S1 stack × ((stack' : List Value) → d1 stack ≡ some (goes stack') → S2 stack'))
          (λ stack. go_on (d1 stack) d2)
          c
          c2
  seq-Piece S1 S2 d1 d2 c c1 c2 a b = record {
    good = b.good;
    grows = Extends-trans a.grows b.grows;
    runs = λ code m stack f cov at safe h.
        let (r, er, q) = go_on-some (d1 stack) d2 f h in
        second code m stack f r cov at er (safe.1) q (
          a.runs code m stack r
            (λ i x y. cov i x (omega (arith, y, b.grows.code_grows)) ∙ b.grows.code_kept i y)
            (IsAt-next d s cb stack stack c c c1 c2 m m at
              (record { same_consts = refl; same_length = refl }) at.locals at.at_start b.grows)
            safe.0 er);
  }
    where
      second :
          (code : List Instruction) (m : Machine W) (stack : List Value) (f r : Flow)
          → Covers d s cb stack code c c2
          → IsAt d s cb stack c c2 m
          → d1 stack ≡ some r
          → ((stack' : List Value) → d1 stack ≡ some (goes stack') → S2 stack')
          → go_on (some r) d2 ≡ some f
          → Ends d s cb code m (count c1) r
          → Ends d s cb code m (count c2) f
      second code m stack f (goes stack') cov at er safe q (m1, r1, ip1, k1, l1) =
          Ends-after d s cb code (count c2) f r1 k1 (
            b.runs code m1 stack' f (λ i x y. cov i (omega (arith, x, a.grows.code_grows)) y)
              (IsAt-next d s cb stack stack' c c1 c2 c2 m m1 at k1 l1 ip1 (Extends-refl c2))
              (safe stack' er) q)
      second code m stack f (returns v) cov at er safe q x =
          subst (Ends d s cb code m (count c2)) (some-injective _ _ q) x

  module _ (idle : IsIdle cb) (p : Probes) (e : Node) (plain : IsPlain e) (c : Chunk) (g : IsGood c)
      (St : List Value → Type 0) (dt : List Value → Option Flow) (th : Chunk → Chunk)
      (ih : (b : Chunk) → IsGood b → (th b).ok ≡ true → Done d s cb St dt b (th b)) where
    -- The chunk behind the test of the condition.
    abbrev behind : Chunk
    behind =
        let res = compile_expr p e c in
        drop_condition (emit res.0 (instr jump_if_false res.1 0 0 0)) res.1 c.next_reg

    guarded :
        (compile_expr p e c).0.ok ≡ true
        → (th behind).ok ≡ true
        → Guarded d s cb e St dt c (compile_expr p e c) behind (th behind)
    guarded ok1 ok2 =
        let grown = compile_expr-Grown p e c plain g ok1 in
        let tested = drop_condition-Tested d s cb c (compile_expr p e c) g grown in
        record {
          start = g;
          grown = grown;
          compiled = λ stack pure. compile_expr-Compiled d s cb stack p idle.quiet e c pure g ok1;
          tested = tested;
          body = (ih behind tested.good ok2).piece;
        }

    pub if_null-Piece :
        (el : Chunk → Chunk)
        → (if_code null (compile_expr p e) th el c.next_reg c).ok ≡ true
        → Piece d s cb
            (SafeIf d s cb e St dt (λ stack. Unit {0}) (λ stack. some (goes stack)))
            (does_if d s cb e St dt (λ stack. Unit {0}) (λ stack. some (goes stack)))
            c
            (if_code null (compile_expr p e) th el c.next_reg c)
    unfolding if_code
    if_null-Piece el h =
        let (ok1, q1) = and-ok (compile_expr p e c).0 _ h in
        let h1 = ap (λ (x : Chunk). x.ok) (sym q1) ∙ h in
        let (ok2, q2) = and-ok (th behind) _ h1 in
        subst
          (Piece d s cb (SafeIf d s cb e St dt (λ stack. Unit {0}) (λ stack. some (goes stack)))
            (does_if d s cb e St dt (λ stack. Unit {0}) (λ stack. some (goes stack))) c)
          (sym (q1 ∙ q2))
          (if-Piece d s cb e St dt c (compile_expr p e c) behind (th behind) (guarded ok1 ok2))

    pub while_code-Piece :
        (n : ℕ)
        → (while_code (compile_expr p e) th c.next_reg c).ok ≡ true
        → Piece d s cb
            (IsSafeLoop d n (λ st. IsPure d s cb st e) (λ st. eval d s st e) St dt)
            (iterate d n (λ st. eval d s st e) dt)
            c
            (while_code (compile_expr p e) th c.next_reg c)
    unfolding while_code
    while_code-Piece n h =
        let (ok1, q1) = and-ok (compile_expr p e c).0 _ h in
        let h1 = ap (λ (x : Chunk). x.ok) (sym q1) ∙ h in
        let (ok2, q2) = and-ok (th behind) _ h1 in
        subst
          (Piece d s cb (IsSafeLoop d n (λ st. IsPure d s cb st e) (λ st. eval d s st e) St dt)
            (iterate d n (λ st. eval d s st e) dt) c)
          (sym (q1 ∙ q2))
          (while-Piece d s cb idle e St dt c (compile_expr p e c) behind (th behind)
            (guarded ok1 ok2) n)

    -- `if` with an `else` that is there.
    if_code-else :
        (el : Node) (then' else' : Chunk → Chunk)
        → IsElse el
        → if_code el (compile_expr p e) then' else' c.next_reg c
          ≡ and_if_ok (compile_expr p e c).0 (
              let c3 = then' behind in
              and_if_ok c3 (
                let c4 = emit c3 (instr jump 0 0 0 0) in
                let c5 = else' (record (patch c4 (count (compile_expr p e c).0) (count c4)) {
                  next_reg = c.next_reg;
                }) in
                and_if_ok c5 (patch c5 (count c3) (count c5))))
    unfolding if_code
    if_code-else null then' else' h = absurd h
    if_code-else _ then' else' h = refl

    pub if_else_code-Piece :
        (Sf : List Value → Type 0) (df : List Value → Option Flow) (node : Node)
        (el : Chunk → Chunk)
        → IsElse node
        → ((b : Chunk) → IsGood b → (el b).ok ≡ true → Done d s cb Sf df b (el b))
        → (if_code node (compile_expr p e) th el c.next_reg c).ok ≡ true
        → Piece d s cb
            (SafeIf d s cb e St dt Sf df)
            (does_if d s cb e St dt Sf df)
            c
            (if_code node (compile_expr p e) th el c.next_reg c)
    if_else_code-Piece Sf df node el there ih2 h =
        let q0 = if_code-else node th el there in
        let h0 = ap (λ (x : Chunk). x.ok) (sym q0) ∙ h in
        let (ok1, q1) = and-ok (compile_expr p e c).0 _ h0 in
        let h1 = ap (λ (x : Chunk). x.ok) (sym q1) ∙ h0 in
        let (ok2, q2) = and-ok (th behind) _ h1 in
        let h2 = ap (λ (x : Chunk). x.ok) (sym q2) ∙ h1 in
        let gd = guarded ok1 ok2 in
        let start =
          else_start d s cb idle e St dt Sf df c (compile_expr p e c) behind (th behind) gd in
        let (ok3, q3) = and-ok (el start) _ h2 in
        let other =
          ih2 start
            (else_good d s cb idle e St dt Sf df c (compile_expr p e c) behind (th behind) gd)
            ok3 in
        subst (Piece d s cb (SafeIf d s cb e St dt Sf df) (does_if d s cb e St dt Sf df) c)
          (sym (q0 ∙ q1 ∙ q2 ∙ q3))
          (if_else-Piece d s cb idle e St dt Sf df c (compile_expr p e c) behind (th behind) gd
            (el start) other.piece)
