-- ===== src/Bytecode/Statements.antt =====
-- src/bytecode.c: the compiler of statements, `compile_node`, and the two entries.
pub mod Plain
pub mod Drops
pub mod Pieces
pub mod Safe
pub mod Conditions
pub mod Guards
pub mod Branching
pub mod Alternatives
pub mod Loops
pub mod Simple
pub mod Cases
pub mod Correct
use fluxa_lang.Base.{ℕ, ◌-◌, ◌%◌, ◌^◌, List, Option, none, some, true, false, if◌then◌else◌, not}
use fluxa_lang.Ast.{
  Node, null, var_decl, assign, block_stmt, if_stmt, while_stmt, member_call, member_assign,
  arr_assign, func_call, func_decl, ret, Nodes, end, node,
}
use fluxa_lang.Prst.Value.{string}
use fluxa_lang.Bytecode.{
  Instruction, instr, move, move_str, jump, jump_if_false, set_field, prep_index, set_index,
  return_val, return_nil, return', Chunk, chunk_init, count, fail, emit, patch, add_const,
  note_slot, string_drops, first_temp,
}
use fluxa_lang.Bytecode.Compile.{Probes, compile_expr, expr_may_string, int_of}

-- What follows is left out when the chunk has failed.
abbrev pub and_if_ok : Chunk → Chunk → Chunk
and_if_ok c rest = if c.ok then rest else c

-- `emit_string_drops(c, start_reg, c->next_reg); c->next_reg = start_reg;`
unfoldable pub close_node : ℕ → Chunk → Chunk
unfolding string_drops
close_node start c = record (string_drops c start c.next_reg) { next_reg = start }

-- A write of a field: its two names become constants.
unfoldable pub write_field : Chunk → List ℕ → List ℕ → ℕ → Chunk
write_field c owner field src =
    let (c1, owner_k) = add_const c (string owner) in
    let (c2, field_k) = add_const c1 (string field) in
    and_if_ok c2 (emit c2 (instr set_field src (owner_k % 2 ^ 16) (field_k % 2 ^ 16) 0))

-- A declaration or an assignment, once the value is compiled into `src`.
unfoldable pub store_variable : Probes → Chunk → Option ℕ → List ℕ → Node → ℕ → Chunk
store_variable p c (some off) name value src =
    emit (note_slot c (some off))
      (instr (if expr_may_string value then move_str else move) (off % 2 ^ 16) src 0 0)
store_variable p c none name value src =
    if c.for_function then fail c else elim (p.bare_field name) [
      | none ↦ fail c
      | some (owner, scalar) ↦ write_field c owner name src
    ]

-- The drops behind a condition, unless they would drop the condition itself.
unfoldable pub drop_condition : Chunk → ℕ → ℕ → Chunk
drop_condition c cond start =
    record (if c.string_regs cond then c else string_drops c start c.next_reg) { next_reg = start }

-- The case of an array assignment, given how index and value are compiled.
unfoldable pub write_index :
    Probes → Chunk → Option ℕ → List ℕ → (Chunk → Chunk × ℕ) → (Chunk → Chunk × ℕ) → Chunk
write_index p c off name index value =
    if not (p.indexable c.for_function name off)
    then fail c
    else let (c1, index_reg) = index (note_slot c off) in
      and_if_ok c1 (
        let (c2, name_k) = add_const c1 (string name) in
        and_if_ok c2 (
          let slot : ℕ = elim off [ none ↦ 2 ^ 16 - 1 | some k ↦ k % 2 ^ 16 ] in
          let c3 = emit c2 (instr prep_index slot (name_k % 2 ^ 16) index_reg 0) in
          let (c4, value_reg) = value c3 in
          and_if_ok c4 (
            let c5 = emit c4 (instr set_index value_reg (name_k % 2 ^ 16) index_reg (int_of off)) in
            patch c5 (count c2) (count c5))))

-- The case of a field assignment, given how the value is compiled.
unfoldable pub assign_field : List ℕ → List ℕ → (Chunk → Chunk × ℕ) → Chunk → Chunk
assign_field owner field value c =
    let (c1, owner_k) = add_const c (string owner) in
    let (c2, field_k) = add_const c1 (string field) in
    and_if_ok c2 (
      let (c3, src) = value c2 in
      and_if_ok c3 (emit c3 (instr set_field src (owner_k % 2 ^ 16) (field_k % 2 ^ 16) 0)))

-- The case of `return`; a NULL value is no value.
unfoldable pub return_code : Node → (Chunk → Chunk × ℕ) → Chunk → Chunk
return_code null value c = emit c (instr return_nil 0 0 0 0)
return_code e value c = let (c1, r) = value c in and_if_ok c1 (emit c1 (instr return_val r 0 0 0))

-- The case of `if`; a NULL `else` is none.
unfoldable pub if_code :
    Node → (Chunk → Chunk × ℕ) → (Chunk → Chunk) → (Chunk → Chunk) → ℕ → Chunk → Chunk
if_code e cond then' else' start c =
    let (c1, cond_reg) = cond c in
    and_if_ok c1 (
      let c2 = drop_condition (emit c1 (instr jump_if_false cond_reg 0 0 0)) cond_reg start in
      let c3 = then' c2 in
      and_if_ok c3 (elim e [
        | null ↦ patch c3 (count c1) (count c3)
        | _ ↦
            let c4 = emit c3 (instr jump 0 0 0 0) in
            let c5 = else' (record (patch c4 (count c1) (count c4)) { next_reg = start }) in
            and_if_ok c5 (patch c5 (count c3) (count c5))
      ]))

-- The case of `while`.
unfoldable pub while_code : (Chunk → Chunk × ℕ) → (Chunk → Chunk) → ℕ → Chunk → Chunk
while_code cond body start c =
    let (c1, cond_reg) = cond c in
    and_if_ok c1 (
      let c2 = drop_condition (emit c1 (instr jump_if_false cond_reg 0 0 0)) cond_reg start in
      let c3 = body c2 in
      and_if_ok c3
        (let c4 = emit c3 (instr jump 0 0 0 (count c)) in patch c4 (count c1) (count c4)))

-- The end of both entries: the chunk with a last instruction, if it did not fail.
unfoldable pub finish_chunk : Chunk → Instruction → Option Chunk
finish_chunk c last = if c.ok then some (emit (record c { next_reg = c.peak_reg }) last) else none

module _ (p : Probes) where
  unfoldable mutual
    -- `compile_node`. A block, an `if` or a `while` that fails returns at once, and all that follows
    -- leaves a failed chunk as one.
    pub compile_node : Node → Chunk → Chunk
    compile_node null c = c
    compile_node (var_decl off name value) c = and_if_ok c (
        close_node c.next_reg (
          let (c1, src) = compile_expr p value c in
          and_if_ok c1 (store_variable p c1 off name value src)))
    compile_node (assign off name value) c = and_if_ok c (
        close_node c.next_reg (
          let (c1, src) = compile_expr p value c in
          and_if_ok c1 (store_variable p c1 off name value src)))
    compile_node (block_stmt es) c =
        and_if_ok c (close_node c.next_reg (compile_nodes es c c.next_reg))
    compile_node (if_stmt e t f) c = and_if_ok c (
        close_node c.next_reg
          (if_code f (compile_expr p e) (compile_node t) (compile_node f) c.next_reg c))
    compile_node (while_stmt e body) c =
        and_if_ok c
          (close_node c.next_reg (while_code (compile_expr p e) (compile_node body) c.next_reg c))
    compile_node (member_call owner method args) c =
        and_if_ok c (close_node c.next_reg (compile_expr p (member_call owner method args) c).0)
    compile_node (func_call name args) c =
        and_if_ok c (close_node c.next_reg (compile_expr p (func_call name args) c).0)
    compile_node (member_assign owner field value) c =
        and_if_ok c (close_node c.next_reg (assign_field owner field (compile_expr p value) c))
    compile_node (arr_assign off name index value) c = and_if_ok c (
        close_node c.next_reg
          (write_index p c off name (compile_expr p index) (compile_expr p value)))
    compile_node (ret e) c =
        and_if_ok c (close_node c.next_reg (return_code e (compile_expr p e) c))
    compile_node e c = and_if_ok c (close_node c.next_reg (fail c))

    -- The loop over the statements of a block.
    pub compile_nodes : Nodes → Chunk → ℕ → Chunk
    compile_nodes end c start = c
    compile_nodes (node e es) c start =
        let c1 = compile_node e c in
        let rest = compile_nodes es (record c1 { next_reg = start }) start in
        if c1.ok then rest else c1

  -- `chunk_compile_loop`
  unfoldable pub compile_loop : Node → Option Chunk
  unfolding finish_chunk
  compile_loop e = finish_chunk (compile_node e (chunk_init false)) (instr return' 0 0 0 0)

  -- `chunk_compile_fn`
  unfoldable pub compile_fn : Node → Option Chunk
  unfolding finish_chunk
  compile_fn (func_decl body) =
      finish_chunk (compile_nodes body (chunk_init true) first_temp) (instr return_nil 0 0 0 0)
  compile_fn e = none
