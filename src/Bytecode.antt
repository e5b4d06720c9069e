-- ===== src/Bytecode.antt =====
-- src/bytecode.h: instructions, and the chunk that the compiler builds. A register, a constant and a
-- jump are numbers; those that the code casts to 16 bits are cut with `% 2 ^ 16`. The growth of the
-- code array and the release of strings are left out.
pub mod Values
pub mod Machine
pub mod Compile
pub mod Statements
pub mod Agreement
pub mod Extends
pub mod Patches
pub mod Runs
pub mod Compiled
pub mod Loads
pub mod Operators
pub mod Branches
pub mod Logic
pub mod ShortCircuit
pub mod Correct
pub mod Entries
mod Tests
use fluxa_lang.Base.{
  ℕ, zero, suc, ◌+◌, ◌-◌, ◌%◌, ◌^◌, List, [], ◌∷◌, ◌++◌, Option, none, some, Bool, true, false, ltb,
  leb, ◌==◌, if◌then◌else◌, ◌&&◌, not, length, get_elem?, set,
}
use fluxa_lang.Ast.{BinaryOp}
use fluxa_lang.Prst.Value.{Value, int, float, bool, string}

-- `Opcode`; `OP_ADD` to `OP_GTE` are `arith_op` of their operator.
pub data Opcode : Type 0 where
  loadk move : Opcode
  arith_op : BinaryOp → Opcode
  jump_if_false jump return' : Opcode
  call_method call_func get_field set_field : Opcode
  get_index prep_index set_index : Opcode
  return_val return_nil : Opcode
  loadk_str move_str drop_str get_field_v : Opcode
  not_op truthy_op : Opcode

-- `Instruction`
pub record Instruction : Type 0 where
  pub op : Opcode
  pub a : ℕ
  pub b : ℕ
  pub c : ℕ
  pub offset : ℕ

abbrev pub instr : Opcode → ℕ → ℕ → ℕ → ℕ → Instruction
instr o a b c offset = record { op = o; a = a; b = b; c = c; offset = offset }

-- `CHUNK_MAX_CONST`, `CHUNK_MAX_REG`, and the first temporary
abbrev pub max_const : ℕ
max_const = 128

abbrev pub max_reg : ℕ
max_reg = 512

abbrev pub first_temp : ℕ
first_temp = 128

-- `Chunk`, as the compiler uses it; `for_function` is that `owner_fn` is not NULL, and `string_regs`
-- is a set of registers.
pub record Chunk : Type 0 where
  pub code : List Instruction
  pub consts : List Value
  pub ok : Bool
  pub next_reg : ℕ
  pub peak_reg : ℕ
  pub max_slot : ℕ
  pub string_regs : ℕ → Bool
  pub for_function : Bool

abbrev pub count : Chunk → ℕ
count c = length c.code

-- `chunk_init`
abbrev pub chunk_init : Bool → Chunk
chunk_init for_fn = record {
  code = [];
  consts = [];
  ok = true;
  next_reg = first_temp;
  peak_reg = first_temp;
  max_slot = 0;
  string_regs = λ r. false;
  for_function = for_fn;
}

-- `c->ok = 0`
abbrev pub fail : Chunk → Chunk
fail c = record c { ok = false }

-- `chunk_emit`, which returns the `count` from before.
unfoldable pub emit : Chunk → Instruction → Chunk
emit c i = record c { code = c.code ++ i ∷ [] }

-- `chunk_patch`
abbrev pub patched : List Instruction → ℕ → ℕ → List Instruction
patched [] k offset = []
patched (i ∷ is) zero offset = record i { offset = offset } ∷ is
patched (i ∷ is) (suc k) offset = i ∷ patched is k offset

unfoldable pub patch : Chunk → ℕ → ℕ → Chunk
patch c k offset = record c { code = patched c.code k offset }

-- `chunk_add_const_int`, `chunk_add_const_float`, `chunk_add_const_bool` and `chunk_add_const_str`
unfoldable pub add_const : Chunk → Value → Chunk × ℕ
add_const c v =
    if leb max_const (length c.consts)
    then (fail c, 0)
    else (record c { consts = c.consts ++ v ∷ [] }, length c.consts)

-- `mark_string_reg`
unfoldable pub mark_string_reg : Chunk → ℕ → Chunk
mark_string_reg c reg =
    if leb max_reg reg
    then fail c
    else record c { string_regs = λ r. if r == reg then true else c.string_regs r }

-- The body of the loop of `emit_string_drops`.
unfoldable pub drop_reg : Chunk → ℕ → Chunk
drop_reg c reg =
    if c.string_regs reg
    then record (emit c (instr Opcode.drop_str reg 0 0 0)) {
      string_regs = λ r. if r == reg then false else c.string_regs r;
    }
    else c

-- `emit_string_drops` for `n` registers from `reg` on.
unfoldable pub drops_from : ℕ → ℕ → Chunk → Chunk
unfolding drop_reg
drops_from zero reg c = c
drops_from (suc n) reg c = drops_from n (reg + 1) (drop_reg c reg)

abbrev pub at_most_max : ℕ → ℕ
at_most_max e = if ltb max_reg e then max_reg else e

-- `emit_string_drops`
unfoldable pub string_drops : Chunk → ℕ → ℕ → Chunk
unfolding drops_from
string_drops c first end' = drops_from (at_most_max end' - first) first c

-- `note_slot`
unfoldable pub note_slot : Chunk → Option ℕ → Chunk
note_slot c none = c
note_slot c (some off) =
    if ltb c.max_slot (off + 1) then record c { max_slot = (off + 1) % 2 ^ 16 } else c

-- `c->next_reg = n; if (c->next_reg > c->peak_reg) c->peak_reg = c->next_reg;`
abbrev pub take_regs : Chunk → ℕ → Chunk
take_regs c n = record c { next_reg = n; peak_reg = if ltb c.peak_reg n then n else c.peak_reg }

-- `alloc_reg`
unfoldable pub alloc_reg : Chunk → Chunk × ℕ
alloc_reg c =
    if leb max_reg c.next_reg then (fail c, 0) else (take_regs c (c.next_reg + 1), c.next_reg)

-- `reserve_regs`: `none` is its 0.
unfoldable pub reserve_regs : Chunk → ℕ → Chunk × Option ℕ
reserve_regs c n =
    if ltb 255 n
    then (fail c, none)
    else if ltb max_reg (c.next_reg + n)
    then (fail c, none)
    else (take_regs c (c.next_reg + n), some c.next_reg)
