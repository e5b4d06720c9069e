-- ===== src/Bytecode/Statements/Loops.antt =====
-- The code of `while`.
use fluxa_lang.Base.{
  ℕ, zero, suc, ◌+◌, ◌≤◌, ◌<◌, ◌≡◌, refl, sym, ◌∙◌, subst, List, Option, none, some, arith,
  get_elem?, Bool-cases, inl, inr,
}
use mathlib.Core.Option.{some-injective}
use fluxa_lang.Ast.{Node}
use fluxa_lang.Prst.Value.{Value}
use fluxa_lang.Bytecode.{Instruction, instr, jump, Chunk, count, emit, patch}
use fluxa_lang.Bytecode.Values.{Doubles, truthy}
use fluxa_lang.Bytecode.Machine.{Callbacks, Machine}
use fluxa_lang.Bytecode.Extends.{
  Extends-refl, Extends-trans, emit-Extends, emit-IsGood, count-emit, last-emit,
}
use fluxa_lang.Bytecode.Patches.{patch-Extends, patch-IsGood, count-patch, get-patch, get-patch_ne}
use fluxa_lang.Bytecode.Compiled.{IsAt, IsPure}
use fluxa_lang.Bytecode.Statements.Pieces.{Ends, Ends-after, Piece, IsAt-next, IsAt-patch}
use fluxa_lang.Bytecode.Statements.Safe.{IsIdle, IsSafeLoop}
use fluxa_lang.Bytecode.Statements.Guards.{
  Guarded, Stands, with_value-some, longer, test_there, stands, on_true, on_false,
}
use fluxa_lang.Bytecode.Statements.Branching.{jump_on}
use fluxa_lang.Eval.{Scopes, eval}
use fluxa_lang.Eval.Statements.{go_on, iterate}
use fluxa_lang.Eval.{Flow, goes, returns}

pub go_on-some :
    (o : Option Flow) (rest : List Value → Option Flow) (f : Flow)
    → go_on o rest ≡ some f
    → (r : Flow) × (o ≡ some r) × (go_on (some r) rest ≡ some f)
go_on-some none rest f h = absurd (cc)
go_on-some (some r) rest f h = (r, refl, h)

module _ {W : Type 0} (d : Doubles) (s : Scopes) (cb : Callbacks W) (idle : IsIdle cb) (e : Node)
    (Sb : List Value → Type 0) (db : List Value → Option Flow) (c : Chunk) (res : Chunk × ℕ)
    (c2 c3 : Chunk) (gd : Guarded d s cb e Sb db c res c2 c3) where
  abbrev back_edge : Chunk
  back_edge = emit c3 (instr jump 0 0 0 (count c))

  abbrev pub loop : Chunk
  loop = patch back_edge (count res.0) (count back_edge)

  abbrev pub SafeWhile : ℕ → List Value → Type 0
  SafeWhile n = IsSafeLoop d n (λ st. IsPure d s cb st e) (λ st. eval d s st e) Sb db

  abbrev pub does_while : ℕ → List Value → Option Flow
  does_while n = iterate d n (λ st. eval d s st e) db

  long : count res.0 + 1 ≤ count c3
  long = longer d s cb e Sb db c res c2 c3 gd

  size : count loop ≡ count c3 + 1
  size =
      count-patch back_edge (count res.0) (count back_edge)
      ∙ count-emit c3 (instr jump 0 0 0 (count c))

  module _ (code : List Instruction)
      (cov : (i : ℕ)
        → count c ≤ i
        → i < count loop
        → get_elem? code i ≡ get_elem? loop.code i) where
    placed : Stands d s cb code c res c2 c3 (count back_edge)
    placed =
        stands d s cb e Sb db c res c2 c3 gd code (count back_edge)
          (λ i x y n.
            cov i x (omega (arith, y, size))
            ∙ get-patch_ne back_edge _ _ i n
            ∙ (emit-Extends c3 (instr jump 0 0 0 (count c))).code_kept i y)
          (cov (count res.0) gd.grown.grows.code_grows (omega (arith, long, size))
            ∙ get-patch back_edge _ _ _ (
                (emit-Extends c3 (instr jump 0 0 0 (count c))).code_kept (count res.0)
                  (omega (arith, long))
                ∙ test_there d s cb e Sb db c res c2 c3 gd))

    jumps_back : get_elem? code (count c3) ≡ some (instr jump 0 0 0 (count c))
    jumps_back =
        cov (count c3) (omega (arith, long, gd.grown.grows.code_grows)) (omega (arith, size))
        ∙ get-patch_ne back_edge (count res.0) (count back_edge) (count c3)
            (λ (q : count res.0 ≡ count c3). absurd (omega (arith, q, long)))
        ∙ last-emit c3 (instr jump 0 0 0 (count c))

    -- What follows the body: another round, from the variables that it leaves.
    round :
        (n : ℕ) (r : Flow) (m : Machine W) (stack : List Value) (f : Flow)
        → IsAt d s cb stack c c3 m
        → ((m' : Machine W) (stack' : List Value) (f' : Flow)
            → IsAt d s cb stack' c c3 m'
            → SafeWhile n stack'
            → does_while n stack' ≡ some f'
            → Ends d s cb code m' (count back_edge) f')
        → ((stack' : List Value) → db stack ≡ some (goes stack') → SafeWhile n stack')
        → db stack ≡ some r
        → go_on (some r) (does_while n) ≡ some f
        → Ends d s cb code m (count c3) r
        → Ends d s cb code m (count back_edge) f
    round n (goes stack') m stack f at again safe er q x =
        let (m1, r1, ip1, k1, l1) =
          jump_on d s cb idle code m (count c3) (count c) stack' jumps_back x in
        Ends-after d s cb code (count back_edge) f r1 k1 (
          again m1 stack' f
            (IsAt-next d s cb stack stack' c c c3 c3 m m1 at k1 l1 ip1 (Extends-refl c3))
            (safe stack' er) q)
    round n (returns v) m stack f at again safe er q x =
        subst (Ends d s cb code m (count back_edge)) (some-injective _ _ q) x

    -- Round by round.
    rounds_run :
        (n : ℕ) (m : Machine W) (stack : List Value) (f : Flow)
        → IsAt d s cb stack c c3 m
        → SafeWhile n stack
        → does_while n stack ≡ some f
        → Ends d s cb code m (count back_edge) f
    unfolding iterate
    rounds_run zero m stack f at safe h = absurd (cc)
    rounds_run (suc n) m stack f at (pure, safe) h =
        let (v, ev, q) = with_value-some (eval d s stack e) _ f h in
        let (dec, yes', no') = safe v ev in
        elim (Bool-cases (truthy d v)) [
          | inl t ↦
              let (r, er, q') = go_on-some (db stack) _ f (rw (dec ∙ t) at q) in
              round n r m stack f at (rounds_run n) (yes' t).1 er q' (
                on_true d s cb e Sb db c res c2 c3 gd code (count back_edge) placed m stack at pure
                  v ev r t (yes' t).0 er)
          | inr t ↦
              subst (Ends d s cb code m (count back_edge)) (some-injective _ _ (rw (dec ∙ t) at q))
                (on_false d s cb e Sb db c res c2 c3 gd code (count back_edge) placed m stack at
                  pure v ev t)
        ]

  pub while-Piece : (n : ℕ) → Piece d s cb (SafeWhile n) (does_while n) c loop
  while-Piece n = record {
    good = patch-IsGood back_edge _ _ (emit-IsGood c3 _ gd.body.good);
    grows =
        patch-Extends c back_edge (count res.0) (count back_edge) gd.grown.grows.code_grows
          (Extends-trans gd.tested.grows (Extends-trans gd.body.grows (emit-Extends c3 _)));
    runs = λ code m stack f cov at safe h.
        subst (λ k. Ends d s cb code m k f)
          (sym (count-patch back_edge (count res.0) (count back_edge)))
          (rounds_run code cov n m stack f
            (IsAt-next d s cb stack stack c c c3 back_edge m m
              (IsAt-patch d s cb stack c back_edge _ _ m at)
              (record { same_consts = refl; same_length = refl }) at.locals at.at_start
              (emit-Extends c3 _))
            safe h);
  }
