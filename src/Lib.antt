-- ===== src/Lib.antt =====
-- Fluxa: the state that survives a program change.
--
-- Fluxa is an interpreter that can replace a running program by a new version of it without
-- stopping. The variables that a program declares `prst` are kept in a pool (src/prst_pool.h), the
-- contexts that read them in a dependency graph (src/prst_graph.h), and errors in a ring of the most
-- recent ones (src/err.h). The atomic handover (src/handover.h, src/handover.c) takes a snapshot of
-- pool and graph of Runtime A, reads it back into a second Runtime B, runs the new program there in
-- rehearsal, waits for a safe point of A, and hands B's pool over; every failure on the way leaves
-- A serving, though without its Blocks if the rehearsal ran, since their registry is one for the
-- process. This development models these parts, from the representation of a name in its buffer to
-- the protocol as a whole, and parts of the interpreter around them: the scanner of the source
-- (src/lexer.c), the profile that promotes stable functions (src/warm_profile.h), the bytecode
-- that these are compiled to, with the machine that runs it (src/bytecode.c), and the evaluator
-- that it stands in for (src/runtime.c).
--
-- The files and the code:
--   Base          Boolean tests, lists over the native numbers, little-endian words and C strings,
--                 the text of messages, and `a[i] = a[n - 1]; n--`.
--   ErrStack      src/err.h: `push` is errstack_push, `get` errstack_get, `clear` errstack_clear.
--                 ErrStack/History relates the ring to the history of its calls.
--   Prst/Value    src/scope.h: Value and fluxa_arr_detect_type; prst_value_deep_clone.
--   Prst/Pool     src/prst_pool.h: `pool_set` is prst_pool_set, and so on. Lookup is the pool as a
--                 finite map, Update and Placement what a set does to it, Remove and Replace
--                 what an invalidation does, and Invariant the well-formedness that all keep.
--   Prst/Checksum src/prst_pool.h: prst_pool_checksum.
--   Prst/Wire     src/prst_pool.h: prst_ser_value, prst_deser_value, prst_pool_serialize and
--                 prst_pool_deserialize. Heads, Values, Entries and Pools are the round trips, Sizes the
--                 bound of the buffer, Totality and Safety hold for every input, Integrity is the checksum.
--   Prst/Graph    src/prst_graph.h. Tally counts entries, Readers is about queries and invalidation,
--                 Invariant about recording, Wire about the wire format.
--   Handover      src/handover.h and src/handover.c: Context (handover_ctx_init, ctx_fail,
--                 handover_ctx_abort), Snapshot (handover_serialize_state,
--                 handover_deserialize_state), Steps (the five steps and handover_execute, with
--                 runtime_is_safe_point of src/runtime.h and runtime_prst_headstone_resources of
--                 src/runtime.c). Outcomes says what a step leaves; Loading, Migration, Switchover,
--                 Headstones, Atomicity, Protocol and Progress hold the theorems.
--   Arr           src/scope.h: the flag word of an array (fluxa_arr_set_owned, fluxa_arr_cache_type
--                 and so on).
--   Lexer         src/lexer.h and src/lexer.c: `next` is lexer_next. Kinds and Progress are about the
--                 end of a source and its lines, Words and Texts about names, numbers and strings,
--                 Names is token_type_name.
--   Warm          src/warm_profile.h: `warm_record`, `update_sig` (warm_update_sig) and the
--                 promotion. History relates the slots to the observations. Warm/Table is the table of the
--                 functions, with `get_func` (warm_profile_get_func) and its growth; Slots and Searches are
--                 about the rounds of a search, Claims about a table that does not grow, Growth about the rehash and
--                 Requests about the whole. `next_pow2_from` has the number as its fuel, since each
--                 round adds one at least.
--   Gc            src/gc.h: the table of dynamic arrays. `register` is gc_register, and so on. Sweep is about
--                 gc_sweep, Pins about gc_pin and gc_unpin, Capacity about gc_next_pow2. It shifts an
--                 `int` of 32 bits and gets 33 rounds, after which nothing changes.
--   Ast           src/ast.h: the nodes that the bytecode compiler reads.
--   Bytecode      src/bytecode.h: instructions and chunks. Compile is compile_expr of src/bytecode.c,
--                 Statements is compile_node, chunk_compile_loop and chunk_compile_fn, Values is
--                 vm_arith, vm_compare and the rest on values, Machine is vm_run and vm_run_fn. Agreement
--                 to Correct relate the code of an expression to its evaluation: values, chunks
--                 (Extends, Patches), runs (Runs), the notion of correct code (Compiled), then the cases.
--                 The modules below Statements do so for statements: Plain and Safe say which, Drops
--                 is emit_string_drops, Pieces the notion of correct code, and the cases are in Simple,
--                 Guards to Alternatives (`if`) and Loops. Entries has the whole chunks.
--   Eval          src/runtime.c: eval on literals, variables and operators, with eval_binary.
--                 Eval/Statements is eval on assignments, blocks, `if`, `while` and `return`; the machine
--                 that runs a `while` which the compiler of loops accepts is a parameter there (`loops`).
-- The module Tests below a part has its theorems at concrete inputs.
--
-- State is passed explicitly: an operation takes the record of its struct and returns the new one. A
-- pointer that may be NULL is an option, a returned -1 is `none`, a buffer is the list of its bytes,
-- and a read pointer is the list of the bytes that are left. Machine integers are their bit
-- patterns, with `2 ^ 32` and `2 ^ 64` written out. What the C heap does, which requests it grants
-- and what stands in memory that it hands out, is a parameter (`Heap`, `Grants`), as are the
-- resolver, the callbacks of the machine into the interpreter, the processor's `double`, the clock
-- and the looks at the running Runtime A (`World`).
--
-- Fuel: prst_deser_value recurses on nested arrays and gets one unit for every byte that is left and
-- one more; every call reads at least four bytes, and Prst/Wire/Totality shows that the fuel never
-- runs out. prst_graph_invalidate gets a round for each entry. The wait of the handover sleeps half a
-- millisecond in each round and gets two rounds for each millisecond of its timeout and one more,
-- which is enough for a clock that advances by the sleeps. lexer_next restarts behind a comment; each
-- restart takes two characters, and it gets a restart for each character and one more.
-- The evaluator's `while` gets a number of rounds, and the bytecode machine a number of instructions;
-- the theorems on compiled code show that finitely many instructions are enough when the rounds are.
--
-- Not modelled: parser, resolver, the evaluator of the other statements and of calls, IPC, FFI,
-- the command line, the standard libraries and the vendored code; `gc_dyn_free_fn`; of the
-- modelled files the functions that only print, the release of memory, and messages to stderr.
-- Strings are their bytes up to the terminator. Reading behind a buffer that no zero ends is not
-- modelled: the invariants exclude it where the code does. A part of a snapshot that ends behind
-- it by the size in the header is a fault of the model. Of the registry of Blocks only that the
-- rehearsal frees it is modelled.
pub mod Arr
pub mod Ast
pub mod Base
pub mod Bytecode
pub mod ErrStack
pub mod Eval
pub mod Gc
pub mod Handover
pub mod Lexer
pub mod Prst
pub mod Warm
