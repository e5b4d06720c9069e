-- ===== src/ErrStack.antt =====
-- src/err.h: the error stack, a ring of 32 entries that keeps the most recent ones.
-- Text is a list of bytes with no zero byte in it; a `char *` that may be NULL is an option.
pub mod History
mod Tests
use fluxa_lang.Base.{
  ℕ, zero, suc, ◌+◌, ◌-◌, ◌*◌, ◌%◌, List, [], ◌∷◌, Option, none, some, ltb, if◌then◌else◌, length,
  get_elem?, set, take,
}

-- `ErrKind`
pub data ErrKind : Type 0 where
  err_fluxa err_c_ffi err_reload err_handover : ErrKind

-- `ErrEntry`; the two buffers hold C strings of at most 1023 and 127 bytes.
pub record ErrEntry : Type 0 where
  pub kind : ErrKind
  pub message : List ℕ
  pub context : List ℕ
  pub line : ℕ

-- `ErrStack`
pub record ErrStack : Type 0 where
  pub entries : List ErrEntry
  pub base : ℕ
  pub count : ℕ

abbrev pub err_msg_max : ℕ
err_msg_max = 1024

abbrev pub err_stack_cap : ℕ
err_stack_cap = 32

-- The bytes of "<global>".
abbrev pub global_context : List ℕ
global_context = 60 ∷ 103 ∷ 108 ∷ 111 ∷ 98 ∷ 97 ∷ 108 ∷ 62 ∷ []

-- `snprintf(buf, n, "%s", s ? s : other)`: at most `n - 1` bytes are kept.
abbrev pub print_or : ℕ → List ℕ → Option (List ℕ) → List ℕ
print_or n other none = take (n - 1) other
print_or n other (some s) = take (n - 1) s

-- What a push stores.
pub entry_of : ErrKind → Option (List ℕ) → Option (List ℕ) → ℕ → ErrEntry
entry_of kind message context line = record {
  kind = kind;
  message = print_or err_msg_max [] message;
  context = print_or 128 global_context context;
  line = line;
}

-- `errstack_clear`
unfoldable pub clear : ErrStack → ErrStack
clear s = record s { base = 0; count = 0 }

-- `errstack_push` of an entry that is printed already: choose the slot, then write it.
pub push_entry : ErrStack → ErrEntry → ErrStack
push_entry s e =
    if ltb s.count err_stack_cap
    then record s {
      entries = set s.entries ((s.base + s.count) % err_stack_cap) e;
      count = s.count + 1;
    }
    else record s { entries = set s.entries s.base e; base = (s.base + 1) % err_stack_cap }

-- `errstack_push`
pub push : ErrStack → ErrKind → Option (List ℕ) → Option (List ℕ) → ℕ → ErrStack
push s kind message context line = push_entry s (entry_of kind message context line)

-- An `int` index.
pub data Index : Type 0 where
  at : ℕ → Index
  negative : ℕ → Index

-- `errstack_get`: 0 is the most recent entry; `none` is NULL.
pub get : ErrStack → Index → Option ErrEntry
get s (negative i) = none
get s (at i) =
    if ltb i s.count
    then get_elem? s.entries ((s.base + s.count + err_stack_cap * 2 - 1 - i) % err_stack_cap)
    else none
