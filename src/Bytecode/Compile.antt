-- ===== src/Bytecode/Compile.antt =====
-- src/bytecode.c: the compiler of expressions, `compile_expr`. The probes into the interpreter, which
-- the code takes as callbacks, and the registry of the Blocks are parameters. Each operation returns
-- the chunk that it leaves.
use fluxa_lang.Base.{
  ℕ, ◌+◌, ◌-◌, ◌*◌, ◌%◌, ◌^◌, List, [], ◌∷◌, Option, none, some, Bool, true, false, ltb, leb, ◌==◌,
  if◌then◌else◌, ◌&&◌, ◌||◌, not, length, codes, str_eq,
}
use fluxa_lang.Ast.{
  Node, null, int_lit, float_lit, bool_lit, string_lit, identifier, arr_access, binary,
  member_access, member_call, func_call, Nodes, end, node, arg_count, logic_not, logic_and,
  logic_or, binary_op, unknown, BinaryOp,
}
use fluxa_lang.Prst.Value.{Value, int, float, bool, string}
use fluxa_lang.Bytecode.{
  Opcode, Instruction, instr, loadk, loadk_str, move, move_str, arith_op, jump, jump_if_false,
  call_method, call_func, get_field, get_field_v, get_index, not_op, truthy_op, Chunk, count, fail,
  emit, patch, add_const, alloc_reg, reserve_regs, mark_string_reg, note_slot,
}

-- `probe_cb` and `indexable_cb`, and whether a Block or an instance of that name is registered. A NULL
-- callback knows of nothing.
pub record Probes : Type 0 where
  pub bare_field : List ℕ → Option (List ℕ × Bool)
  pub field_is_scalar : List ℕ → List ℕ → Bool
  pub returns_scalar : Option (List ℕ) → List ℕ → Bool
  pub indexable : Bool → List ℕ → Option ℕ → Bool
  pub is_block : List ℕ → Bool

-- An `int` that is -1 or an offset, in 32 bits.
abbrev pub int_of : Option ℕ → ℕ
int_of none = 2 ^ 32 - 1
int_of (some off) = off

-- `expr_may_string`
abbrev pub expr_may_string : Node → Bool
expr_may_string (string_lit s) = true
expr_may_string (identifier off name) = true
expr_may_string (member_access o f) = true
expr_may_string (member_call o m as') = true
expr_may_string (func_call f as') = true
expr_may_string e = false

-- `block_method_key` of src/block.c, for a buffer of 256 bytes: the first byte gets its high bit.
abbrev pub method_key : List ℕ → Option (List ℕ)
method_key [] = none
method_key (b ∷ bs) =
    if ltb 256 (length (b ∷ bs) + 1)
    then none
    else if leb 0x80 b
    then none
    else some ((b + 0x80) ∷ bs)

-- `chunk_add_method_key`
unfoldable pub add_method_key : Probes → Chunk → List ℕ → List ℕ → Chunk × ℕ
add_method_key p c owner method =
    if not (p.is_block owner)
    then add_const c (string method)
    else elim (method_key method) [ none ↦ (fail c, 0) | some key ↦ add_const c (string key) ]

-- The constant of a literal, with the instruction that loads it.
abbrev pub literal : Node → Option (Opcode × Value)
literal (int_lit i) = some (loadk, int i)
literal (float_lit f) = some (loadk, float f)
literal (bool_lit b) = some (loadk, bool b)
literal (string_lit s) = some (loadk_str, string s)
literal e = none

abbrev pub is_string_lit : Node → Bool
is_string_lit (string_lit s) = true
is_string_lit e = false

-- `compile_literal_into`, and whether it emitted the literal.
unfoldable pub compile_literal_into : Chunk → Node → ℕ → Chunk × Bool
compile_literal_into c e dst = elim (literal e) [
  | none ↦ (c, false)
  | some (op, v) ↦
      let (c1, k) = add_const c v in
      if not c1.ok then (c1, false) else (
        emit (if is_string_lit e then mark_string_reg c1 dst else c1)
            (instr op dst (k % 2 ^ 16) 0 0),
        true,
      )
]

-- `return 0` when the chunk has failed.
abbrev pub unless_failed : Chunk → Chunk × ℕ → Chunk × ℕ
unless_failed c rest = if c.ok then rest else (c, 0)

-- The cases of a number or a bool in `compile_expr`.
unfoldable pub load_scalar : Chunk → Value → Chunk × ℕ
load_scalar c v =
    let (c1, k) = add_const c v in
    let (c2, dst) = alloc_reg c1 in (emit c2 (instr loadk dst (k % 2 ^ 16) 0 0), dst)

-- The case of a string.
unfoldable pub load_string : Chunk → List ℕ → Chunk × ℕ
load_string c s =
    let (c1, k) = add_const c (string s) in
    let (c2, dst) = alloc_reg c1 in
    (emit (mark_string_reg c2 dst) (instr loadk_str dst (k % 2 ^ 16) 0 0), dst)

-- A read of a field: its two names become constants.
unfoldable pub read_field : Chunk → List ℕ → List ℕ → Bool → Chunk × ℕ
read_field c owner field scalar =
    let (c1, owner_k) = add_const c (string owner) in
    let (c2, field_k) = add_const c1 (string field) in
    unless_failed c2 (
      let (c3, dst) = alloc_reg c2 in
      (
        emit (if scalar then c3 else mark_string_reg c3 dst) (
            instr (if scalar then get_field_v else get_field) dst (owner_k % 2 ^ 16)
              (field_k % 2 ^ 16) 0),
        dst,
      ))

-- The case of an identifier.
unfoldable pub compile_identifier : Probes → Chunk → Option ℕ → List ℕ → Chunk × ℕ
compile_identifier p c (some off) name = (note_slot c (some off), off % 2 ^ 16)
compile_identifier p c none name =
    if c.for_function then (fail c, 0) else elim (p.bare_field name) [
      | none ↦ (fail c, 0)
      | some (owner, scalar) ↦ read_field c owner name scalar
    ]

-- The end of an array read, once the index is compiled.
unfoldable pub read_index : Chunk → Option ℕ → List ℕ → ℕ → Chunk × ℕ
read_index c off name index_reg =
    let (c1, name_k) = add_const c (string name) in
    unless_failed c1 (
      let (c2, dst) = alloc_reg c1 in
      (emit c2 (instr get_index dst (name_k % 2 ^ 16) index_reg (int_of off)), dst))

-- The end of `!`, once the operand is compiled.
unfoldable pub finish_not : Chunk → ℕ → Chunk × ℕ
finish_not c src =
    unless_failed c
      (let (c1, dst) = alloc_reg c in unless_failed c1 (emit c1 (instr not_op dst src 0 0), dst))

-- The code of `&&` and `||` between the operands: the chunk, the destination, and the indices of the
-- two jumps, which are patched later.
pub record Branch : Type 0 where
  pub chunk : Chunk
  pub dst : ℕ
  pub false_jump : ℕ
  pub true_jump : ℕ

-- From the move into `dst` on; only `||` has the second jump.
unfoldable pub begin_logic : Bool → Chunk → ℕ → ℕ → Branch
begin_logic is_and c tl dst =
    let c1 = emit c (instr move dst tl 0 0) in
    let c2 = emit c1 (instr jump_if_false tl 0 0 0) in
    let c3 = emit c2 (instr jump 0 0 0 0) in
    record {
      chunk = if is_and then c2 else patch c3 (count c1) (count c3);
      dst = dst;
      false_jump = count c1;
      true_jump = count c2;
    }

-- The end of `&&` and `||`, once the right operand is compiled.
unfoldable pub finish_logic : Bool → Branch → Chunk → ℕ → Chunk × ℕ
finish_logic is_and b c rr =
    let c1 = emit c (instr truthy_op b.dst rr 0 0) in
    (patch c1 (if is_and then b.false_jump else b.true_jump) (count c1), b.dst)

-- The case of `&&` and `||`, given how the operands are compiled.
unfoldable pub logic_code : Bool → (Chunk → Chunk × ℕ) → (Chunk → Chunk × ℕ) → Chunk → Chunk × ℕ
logic_code is_and left right c =
    let (c1, lr) = left c in
    unless_failed c1 (
      let (c2, tl) = alloc_reg c1 in
      unless_failed c2 (
        let (c3, dst) = alloc_reg (emit c2 (instr truthy_op tl lr 0 0)) in
        unless_failed c3 (
          let b = begin_logic is_and c3 tl dst in
          let (c4, rr) = right b.chunk in unless_failed c4 (finish_logic is_and b c4 rr))))

-- The end of the other operators, once both sides are compiled.
unfoldable pub finish_binary : BinaryOp → Chunk → ℕ → ℕ → Chunk × ℕ
finish_binary o c r1 r2 =
    let (c1, dst) = alloc_reg c in (emit c1 (instr (arith_op o) dst r1 r2 0), dst)

-- A call's argument that stands in the register `ar` goes into the window.
unfoldable pub move_argument : Chunk → Node → ℕ → ℕ → Chunk
move_argument c e ar slot =
    if ar == slot
    then c
    else let may = expr_may_string e in
      let c1 = emit c (instr (if may then move_str else move) slot ar 0 0) in
      if may then mark_string_reg c1 slot else c1

-- The end of a call: the register of its result, and the instruction.
unfoldable pub finish_call : Chunk → ℕ → Bool → (ℕ → Instruction) → Chunk × ℕ
finish_call c base scalar call =
    let (c1, dst) = alloc_reg (record c { next_reg = base }) in
    (emit (if scalar then c1 else mark_string_reg c1 dst) (call dst), dst)

-- `(first_arg << 16) | (argc & 0xFFFF)`
abbrev pub packed : ℕ → ℕ → ℕ
packed first argc = first * 2 ^ 16 + argc % 2 ^ 16

module _ (p : Probes) where
  unfoldable mutual
    -- `compile_expr`
    pub compile_expr : Node → Chunk → Chunk × ℕ
    compile_expr null c = (c, 0)
    compile_expr (int_lit i) c = unless_failed c (load_scalar c (int i))
    compile_expr (float_lit f) c = unless_failed c (load_scalar c (float f))
    compile_expr (bool_lit b) c = unless_failed c (load_scalar c (bool b))
    compile_expr (string_lit s) c = unless_failed c (load_string c s)
    compile_expr (identifier off name) c = unless_failed c (compile_identifier p c off name)
    compile_expr (arr_access off name index) c = unless_failed c (
        if str_eq name (codes "err") || not (p.indexable c.for_function name off)
        then (fail c, 0)
        else let (c1, index_reg) = compile_expr index (note_slot c off) in
          unless_failed c1 (read_index c1 off name index_reg))
    compile_expr (binary logic_not l r) c =
        unless_failed c (let (c1, src) = compile_expr l c in finish_not c1 src)
    compile_expr (binary logic_and l r) c =
        unless_failed c (logic_code true (compile_expr l) (compile_expr r) c)
    compile_expr (binary logic_or l r) c =
        unless_failed c (logic_code false (compile_expr l) (compile_expr r) c)
    compile_expr (binary (binary_op o) l r) c = unless_failed c (
        let (c1, r1) = compile_expr l c in
        let (c2, r2) = compile_expr r c1 in finish_binary o c2 r1 r2)
    compile_expr (binary unknown l r) c =
        unless_failed c
          (let (c1, r1) = compile_expr l c in let (c2, r2) = compile_expr r c1 in (fail c2, 0))
    compile_expr (member_access owner field) c =
        unless_failed c (read_field c owner field (p.field_is_scalar owner field))
    compile_expr (member_call owner method args) c = unless_failed c (
        let (c1, owner_k) = add_const c (string owner) in
        let (c2, method_k) = add_method_key p c1 owner method in
        unless_failed c2 (
          let (c3, window) = reserve_regs c2 (arg_count args) in
          elim window [
            | none ↦ (c3, 0)
            | some first ↦
                let (c4, go_on) = compile_args args c3 c3.next_reg first in
                if not go_on
                then (c4, 0)
                else finish_call c4 c3.next_reg (p.returns_scalar (some owner) method) (λ dst.
                  instr call_method dst (owner_k % 2 ^ 16) (method_k % 2 ^ 16)
                    (packed first (arg_count args)))
          ]))
    compile_expr (func_call name args) c = unless_failed c (
        let (c1, fn_k) = add_const c (string name) in
        unless_failed c1 (
          let (c2, window) = reserve_regs c1 (arg_count args) in
          elim window [
            | none ↦ (c2, 0)
            | some first ↦
                let (c3, go_on) = compile_args args c2 c2.next_reg first in
                if not go_on
                then (c3, 0)
                else finish_call c3 c2.next_reg (p.returns_scalar none name)
                    (λ dst. instr call_func dst (fn_k % 2 ^ 16) first (arg_count args))
          ]))
    compile_expr e c = (fail c, 0)

    -- The loop over the arguments of a call, from the slot on, and whether it went to its end.
    pub compile_args : Nodes → Chunk → ℕ → ℕ → Chunk × Bool
    compile_args end c base slot = (c, true)
    compile_args (node e es) c base slot =
        let (c1, done) = compile_literal_into (record c { next_reg = base }) e slot in
        let (c2, ar) = compile_expr e c1 in
        if not done && not c1.ok
        then (c1, false)
        else if not done && not c2.ok
        then (c2, false)
        else compile_args es (if done then c1 else move_argument c2 e ar slot) base (slot + 1)
