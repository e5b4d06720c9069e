-- ===== src/Bytecode/Statements/Correct.antt =====
-- The induction over statements.
use fluxa_lang.Base.{
  ℕ, ◌%◌, ◌^◌, ◌<◌, ◌≡◌, refl, sym, ap, ◌∙◌, subst, List, some, true, if◌then◌else◌, arith,
  Bool-cases, inl, inr, get_elem?,
}
use fluxa_lang.Ast.{Node, null, assign, block_stmt, if_stmt, while_stmt, ret, Nodes, end, node}
use fluxa_lang.Bytecode.{instr, move, move_str, return_val, Chunk, emit, note_slot}
use fluxa_lang.Bytecode.Values.{Doubles}
use fluxa_lang.Bytecode.Machine.{Callbacks}
use fluxa_lang.Bytecode.Compile.{Probes, compile_expr, expr_may_string}
use fluxa_lang.Bytecode.Correct.{compile_expr-Compiled}
use fluxa_lang.Bytecode.Extends.{IsGood, Marked-refl}
use fluxa_lang.Bytecode.Compiled.{IsPure}
use fluxa_lang.Bytecode.Statements.{
  and_if_ok, return_code, store_variable, if_code, while_code, compile_node, compile_nodes,
}
use fluxa_lang.Bytecode.Statements.Plain.{IsPlain, compile_expr-Grown}
use fluxa_lang.Bytecode.Statements.Pieces.{Piece}
use fluxa_lang.Bytecode.Statements.Safe.{IsIdle, IsPlainStmt, ArePlain, IsSafe, AreSafe}
use fluxa_lang.Bytecode.Statements.Simple.{assign-Piece, return-Piece, return_nil-Piece}
use fluxa_lang.Bytecode.Statements.Cases.{
  Done, and-ok, node-Done, nil-Piece, seq-Piece, if_null-Piece, if_else_code-Piece,
  while_code-Piece,
}
use fluxa_lang.Eval.{Scopes, eval, read_slot}
use mathlib.Core.Path.{fun_ext}
use fluxa_lang.Eval.Statements.{
  AgreeLoops, exec-while_stmt, with_value, store_checked, exec, exec_list,
}
use fluxa_lang.Eval.{returns}

module _ {W : Type 0} (d : Doubles) (s : Scopes) (cb : Callbacks W) (idle : IsIdle cb) (p : Probes)
    (rounds : ℕ) (agree : AgreeLoops d s rounds) where
  -- `return` of an expression, which is there.
  abbrev returned_code : Node → Chunk → Chunk
  returned_code e c =
      and_if_ok (compile_expr p e c).0
        (emit (compile_expr p e c).0 (instr return_val (compile_expr p e c).1 0 0 0))

  returned-Piece :
      (e : Node) (c : Chunk)
      → IsPlain e
      → IsGood c
      → (returned_code e c).ok ≡ true
      → Piece d s cb
          (λ stack. IsPure d s cb stack e)
          (λ stack. with_value (eval d s stack e) (λ v. some (returns v)))
          c
          (returned_code e c)
  returned-Piece e c plain g h =
      let (ok, q) = and-ok (compile_expr p e c).0 _ h in
      let grown = compile_expr-Grown p e c plain g ok in
      subst
        (Piece d s cb (λ stack. IsPure d s cb stack e)
          (λ stack. with_value (eval d s stack e) (λ v. some (returns v))) c)
        (sym q)
        (return-Piece d s cb e c (compile_expr p e c) g grown
          (λ stack pure. compile_expr-Compiled d s cb stack p idle.quiet e c pure g ok)
          (Marked-refl (compile_expr p e c).0 grown.good))

  return_stmt :
      (e : Node) (c : Chunk)
      → IsPlainStmt (ret e)
      → IsGood c
      → (return_code e (compile_expr p e) c).ok ≡ true
      → Piece d s cb
          (IsSafe d s cb rounds (ret e))
          (exec d s rounds (ret e))
          c
          (return_code e (compile_expr p e) c)
  unfolding return_code exec
  return_stmt null c plain g h = return_nil-Piece d s cb c g
  return_stmt _ c plain g h = returned-Piece _ c plain g h

  assigned :
      (off : ℕ) (name : List ℕ) (e : Node) (c : Chunk)
      → off < 128
      → IsPlain e
      → IsGood c
      → (and_if_ok
          (compile_expr p e c).0
          (store_variable p (compile_expr p e c).0 (some off) name e (compile_expr p e c).1)).ok
        ≡ true
      → Piece d s cb
          (λ stack. IsPure d s cb stack e)
          (λ stack.
            with_value
              (eval d s stack e)
              (λ v. store_checked (read_slot (get_elem? stack off) (s.lookup name)) stack off v))
          c
          (and_if_ok
            (compile_expr p e c).0
            (store_variable p (compile_expr p e c).0 (some off) name e (compile_expr p e c).1))
  unfolding store_variable
  assigned off name e c low plain g h =
      let (ok, q) = and-ok (compile_expr p e c).0 _ h in
      let grown = compile_expr-Grown p e c plain g ok in
      let low' : off % 2 ^ 16 ≡ off = omega (arith, low) in
      let may = expr_may_string e in
      let src = (compile_expr p e c).1 in
      subst
        (Piece d s cb (λ stack. IsPure d s cb stack e)
          (λ stack.
            with_value (eval d s stack e)
              (λ v. store_checked (read_slot (get_elem? stack off) (s.lookup name)) stack off v))
          c)
        (sym (
          q
          ∙ ap
              (λ k.
                emit (note_slot (compile_expr p e c).0 (some off))
                  (instr (if may then move_str else move) k src 0 0))
              low'))
        (assign-Piece d s cb idle name off may e c (compile_expr p e c) low g grown.good grown
          (λ stack pure. compile_expr-Compiled d s cb stack p idle.quiet e c pure g ok))

  abbrev pub IsDone : Node → Chunk → Type 0
  IsDone e c = Done d s cb (IsSafe d s cb rounds e) (exec d s rounds e) c (compile_node p e c)

  -- That the code of a statement is right wherever it is compiled to.
  abbrev Always : Node → Type 0
  Always e = (b : Chunk) → IsGood b → (compile_node p e b).ok ≡ true → IsDone e b

  if_stmt-Piece :
      (e t f : Node) (c : Chunk)
      → IsPlain e
      → IsGood c
      → Always t
      → Always f
      → (if_code f (compile_expr p e) (compile_node p t) (compile_node p f) c.next_reg c).ok ≡ true
      → Piece d s cb
          (IsSafe d s cb rounds (if_stmt e t f))
          (exec d s rounds (if_stmt e t f))
          c
          (if_code f (compile_expr p e) (compile_node p t) (compile_node p f) c.next_reg c)
  unfolding exec
  if_stmt-Piece e t null c plain g iht ihf h =
      if_null-Piece d s cb idle p e plain c g (IsSafe d s cb rounds t) (exec d s rounds t)
        (compile_node p t) iht (compile_node p null) h
  if_stmt-Piece e t _ c plain g iht ihf h =
      if_else_code-Piece d s cb idle p e plain c g (IsSafe d s cb rounds t) (exec d s rounds t)
        (compile_node p t) iht _ _ _ _ tt ihf h

  while_stmt-Piece :
      (e body : Node) (c : Chunk)
      → IsPlain e
      → IsGood c
      → Always body
      → (while_code (compile_expr p e) (compile_node p body) c.next_reg c).ok ≡ true
      → Piece d s cb
          (IsSafe d s cb rounds (while_stmt e body))
          (exec d s rounds (while_stmt e body))
          c
          (while_code (compile_expr p e) (compile_node p body) c.next_reg c)
  unfolding exec
  while_stmt-Piece e body c plain g ih h =
      subst
        (λ f.
          Piece d s cb (IsSafe d s cb rounds (while_stmt e body)) f c
            (while_code (compile_expr p e) (compile_node p body) c.next_reg c))
        (fun_ext λ stack. sym (exec-while_stmt d s rounds e body stack agree))
        (while_code-Piece d s cb idle p e plain c g (IsSafe d s cb rounds body)
          (exec d s rounds body) (compile_node p body) ih rounds h)

  -- A block that did not fail did not stop.
  keeps-ok :
      (c rest : Chunk)
      → (if c.ok then rest else c).ok ≡ true
      → (c.ok ≡ true) × ((if c.ok then rest else c) ≡ rest)
  keeps-ok c rest h = elim (Bool-cases c.ok) [
    | inl t ↦ (t, ap (λ b. if b then rest else c) t)
    | inr f ↦ absurd (cc (f, ap (λ b. (if b then rest else c).ok) f, h))
  ]

  -- The statements of a block, one behind the other.
  cons-Piece :
      (e : Node) (es : Nodes) (c rest : Chunk) (start : ℕ)
      → start ≡ c.next_reg
      → IsDone e c
      → (IsGood (record (compile_node p e c) { next_reg = start })
          → Piece d s cb
              (AreSafe d s cb rounds es)
              (exec_list d s rounds es)
              (record (compile_node p e c) { next_reg = start })
              rest)
      → Piece d s cb (AreSafe d s cb rounds (node e es)) (exec_list d s rounds (node e es)) c rest
  unfolding exec
  cons-Piece e es c rest start q done rec =
      let same : record (compile_node p e c) { next_reg = start } ≡ compile_node p e c =
        ap (λ n. record (compile_node p e c) { next_reg = n }) (q ∙ sym done.same_next) in
      seq-Piece d s cb (IsSafe d s cb rounds e) (AreSafe d s cb rounds es) (exec d s rounds e)
        (exec_list d s rounds es) c (compile_node p e c) rest done.piece
        (subst (λ x. Piece d s cb (AreSafe d s cb rounds es) (exec_list d s rounds es) x rest) same
          (rec (subst IsGood (sym same) done.piece.good)))

  mutual
    unfolding compile_node exec

    pub compile_node-Done :
        (e : Node) (c : Chunk)
        → IsPlainStmt e
        → IsGood c
        → (compile_node p e c).ok ≡ true
        → IsDone e c
    compile_node-Done null c plain g h = record { piece = nil-Piece d s cb c g; same_next = refl }
    compile_node-Done (assign (some off) name e) c (low, plain) g h =
        node-Done d s cb _ _ c _ g (assigned off name e c low plain g) h
    compile_node-Done (block_stmt es) c plain g h =
        node-Done d s cb _ _ c _ g (compile_nodes-Piece es c c.next_reg plain g refl) h
    compile_node-Done (if_stmt e t f) c (plain, pt, pf) g h =
        node-Done d s cb _ _ c _ g
          (if_stmt-Piece e t f c plain g (λ b gb. compile_node-Done t b pt gb)
            (λ b gb. compile_node-Done f b pf gb))
          h
    compile_node-Done (while_stmt e body) c (plain, pb) g h =
        node-Done d s cb _ _ c _ g
          (while_stmt-Piece e body c plain g (λ b gb. compile_node-Done body b pb gb)) h
    compile_node-Done (ret e) c plain g h = node-Done d s cb _ _ c _ g (return_stmt e c plain g) h
    compile_node-Done e c plain g h = absurd plain

    pub compile_nodes-Piece :
        (es : Nodes) (c : Chunk) (start : ℕ)
        → ArePlain es
        → IsGood c
        → start ≡ c.next_reg
        → (compile_nodes p es c start).ok ≡ true
        → Piece d s cb
            (AreSafe d s cb rounds es)
            (exec_list d s rounds es)
            c
            (compile_nodes p es c start)
    compile_nodes-Piece end c start plain g q h = nil-Piece d s cb c g
    compile_nodes-Piece (node e es) c start (pe, ps) g q h =
        let rest = compile_nodes p es (record (compile_node p e c) { next_reg = start }) start in
        let (ok, same) = keeps-ok (compile_node p e c) rest h in
        subst
          (Piece d s cb (AreSafe d s cb rounds (node e es)) (exec_list d s rounds (node e es)) c)
          (sym same)
          (cons-Piece e es c rest start q (compile_node-Done e c pe g ok) (λ gb.
            compile_nodes-Piece es _ start ps gb refl (ap (λ (x : Chunk). x.ok) (sym same) ∙ h)))
