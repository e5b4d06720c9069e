-- ===== src/Prst/Wire.antt =====
-- The wire format of src/prst_pool.h: `prst_pool_serialize` and `prst_pool_deserialize`.
-- A buffer is the list of its bytes; a read pointer is the bytes from it on.
pub mod Reading
pub mod Heads
pub mod Values
pub mod Sizes
pub mod Totality
pub mod Safety
pub mod Entries
pub mod Pools
pub mod Integrity
pub mod Tests
use fluxa_lang.Base.{
  ℕ, zero, suc, ◌+◌, ◌-◌, ◌*◌, ◌%◌, ◌^◌, List, [], ◌∷◌, ◌++◌, Option, none, some, Bool, true, false,
  ◌||◌, ltb, leb, ◌==◌, if◌then◌else◌, length, get_elem?, set, take, drop, le_bytes, word_at,
  c_string,
}
use fluxa_lang.Prst.Value.{
  Value, nil, int, float, bool, string, arr, Items, end, item, size, detect_type, type_arr,
  val_type,
}
use fluxa_lang.Prst.Pool.{
  PrstEntry, PrstPool, Heap, SetResult, modify, pool_init, pool_set, name_size, count,
}
use Reading.{Parsed, ok, malformed, starved, ◌>>=◌}

-- What a value writes into each fixed field: its own, or 0.
abbrev pub int_field : Value → ℕ
int_field (int i) = i
int_field v = 0

abbrev pub float_field : Value → ℕ
float_field (float f) = f
float_field v = 0

abbrev pub bool_field : Value → ℕ
bool_field (bool b) = b
bool_field v = 0

abbrev pub text : Value → List ℕ
text (string s) = s
text v = []

abbrev pub arr_count : Value → ℕ
arr_count (arr o c vs) = size vs
arr_count v = 0

-- `(int32_t)strlen(s)`, by its 32-bit pattern.
abbrev pub text_len : Value → ℕ
text_len v = length (text v) % 2 ^ 32

-- The text is written if its length is positive as an `int32_t`.
abbrev pub text_bytes : Value → List ℕ
text_bytes v = if ltb (text_len v) (2 ^ 31) then take (text_len v) (text v) else []

-- All of a value but the elements of an array.
abbrev pub head_bytes : Value → List ℕ
head_bytes v =
    le_bytes 8 (int_field v)
    ++ (le_bytes 8 (float_field v)
        ++ (le_bytes 4 (bool_field v)
            ++ (le_bytes 4 (text_len v) ++ (text_bytes v ++ le_bytes 4 (arr_count v)))))

-- `prst_ser_value`, by the bytes that it writes.
unfoldable mutual
  pub ser_value : Value → List ℕ
  ser_value (arr o c vs) = head_bytes (arr o c vs) ++ ser_items vs
  ser_value v = head_bytes v

  pub ser_items : Items → List ℕ
  ser_items end = []
  ser_items (item v vs) = le_bytes 4 (val_type v) ++ (ser_value v ++ ser_items vs)

-- `prst_value_wire_size`
unfoldable mutual
  pub wire_size : Value → ℕ
  wire_size (string s) = 28 + length s
  wire_size (arr o c vs) = 28 + items_size vs
  wire_size v = 28

  pub items_size : Items → ℕ
  items_size end = 0
  items_size (item v vs) = 4 + wire_size v + items_size vs

-- The bytes of one entry: the whole name buffer, the type, the offset and the two values.
pub ser_entry : PrstEntry → List ℕ
ser_entry e =
    (e.name ++ 0 ∷ e.slack)
    ++ (le_bytes 4 e.declared_type
        ++ (le_bytes 4 e.stack_offset ++ (ser_value e.value ++ ser_value e.init_value)))

pub ser_entries : List PrstEntry → List ℕ
ser_entries [] = []
ser_entries (e ∷ es) = ser_entry e ++ ser_entries es

-- The size that `prst_pool_serialize` allocates.
pub entries_size : List PrstEntry → ℕ
entries_size [] = 0
entries_size (e ∷ es) =
    name_size + 4 * 2 + wire_size e.value + wire_size e.init_value + entries_size es

pub pool_size : PrstPool → ℕ
pool_size p = 4 + entries_size p.entries

-- `prst_pool_serialize`; `granted` says whether `malloc` gave the buffer. `none` is a return of 0.
pub serialize : Bool → PrstPool → Option (List ℕ)
serialize granted p = if granted then some (le_bytes 4 (count p) ++ ser_entries p.entries) else none

-- The `switch` of `prst_deser_value`.
pub base_value : ℕ → ℕ → ℕ → ℕ → List ℕ → Value
base_value dt iv fv bv s =
    if dt == 1
    then int iv
    else if dt == 2
    then float fv
    else if dt == 3
    then bool bv
    else if dt == 4
    then string (c_string s)
    else nil

abbrev pub arr_limit : ℕ
arr_limit = 65536

-- `prst_deser_value` up to the elements: the value so far, the element count if the field is there,
-- and the bytes that are left. An `int32_t` that is negative is a pattern from 2 ^ 31 on.
pub deser_count : Value → List ℕ → Parsed (Value × Option ℕ × List ℕ)
deser_count v r =
    if ltb (length r) 4
    then ok (v, none, r)
    else if ltb arr_limit (word_at 4 r)
    then malformed
    else ok (v, some (word_at 4 r), drop 4 r)

pub deser_head : ℕ → List ℕ → Parsed (Value × Option ℕ × List ℕ)
deser_head dt r =
    if ltb (length r) 24
    then malformed
    else let sl = word_at 4 (drop 20 r) in
      let r' = drop 24 r in
      let v =
        base_value dt (word_at 8 r) (word_at 8 (drop 8 r)) (word_at 4 (drop 16 r)) (take sl r') in
      if leb (2 ^ 31) sl || ltb (length r') sl then malformed else deser_count v (drop sl r')

-- The value once its elements are read: they are kept if the type is an array's, else skipped.
pub with_items : ℕ → Value → Items → Value
with_items dt v end = v
with_items dt v (item x xs) =
    if dt == type_arr then arr true (detect_type (item x xs) + 1) (item x xs) else v

-- `prst_deser_value`, on fuel; `malformed` is a return of NULL.
unfoldable mutual
  pub deser_value : ℕ → ℕ → List ℕ → Parsed (Value × List ℕ)
  deser_value zero dt r = starved
  deser_value (suc n) dt r = elim (deser_head dt r) [
    | ok (v, none, rest) ↦ ok (v, rest)
    | ok (v, some c, rest) ↦ deser_items n c rest >>= λ (vs, left). ok (with_items dt v vs, left)
    | malformed ↦ malformed
    | starved ↦ starved
  ]

  -- The loop over the elements.
  pub deser_items : ℕ → ℕ → List ℕ → Parsed (Items × List ℕ)
  deser_items zero c r = starved
  deser_items (suc n) zero r = ok (end, r)
  deser_items (suc n) (suc c) r = elim (ltb (length r) 4) [
    | true ↦ malformed
    | false ↦ deser_value n (word_at 4 r) (drop 4 r) >>= λ (v, rest).
        deser_items n c rest >>= λ (vs, left). ok (item v vs, left)
  ]

-- One entry as it stands on the wire.
pub record WireEntry : Type 0 where
  pub name : List ℕ
  pub declared_type : ℕ
  pub stack_offset : ℕ
  pub value : Value
  pub init_value : Value

-- The reads of one round of `prst_pool_deserialize`.
pub deser_entry : List ℕ → Parsed (WireEntry × List ℕ)
deser_entry r = elim (ltb (length r) (name_size + 4 * 2)) [
  | true ↦ malformed
  | false ↦
      let dt = word_at 4 (drop 256 r) in
      deser_value (length r + 1) dt (drop 264 r) >>= λ (v, rest).
      deser_value (length r + 1) dt rest >>= λ (iv, left). ok (
        record {
          name = c_string (take 255 r);
          declared_type = dt;
          stack_offset = word_at 4 (drop 260 r);
          value = v;
          init_value = iv;
        },
        left,
      )
]

-- What the round does after its call of `prst_pool_set`: a call that failed loses the entry.
pub restore_at : WireEntry → SetResult → PrstPool
restore_at w (q, none, err) = q
restore_at w (q, some i, err) = modify q i λ e. record e {
  declared_type = w.declared_type;
  stack_offset = w.stack_offset;
  init_value = w.init_value;
}

-- The rest of a round of `prst_pool_deserialize`.
pub restore : Heap → PrstPool → WireEntry → PrstPool
unfolding restore_at
restore h p w = restore_at w (pool_set h p w.name w.value none)

-- Whether `prst_pool_deserialize` returns 1 or 0; `out_of_fuel` is no return.
pub data Outcome : Type 0 where
  accepted refused out_of_fuel : Outcome

-- The loop of `prst_pool_deserialize`: the pool keeps what was read before a failure.
pub deser_entries : Heap → PrstPool → ℕ → List ℕ → PrstPool × Outcome
deser_entries h p zero r = (p, accepted)
deser_entries h p (suc n) r = elim (deser_entry r) [
  | ok (w, rest) ↦ deser_entries h (restore h p w) n rest
  | malformed ↦ (p, refused)
  | starved ↦ (p, out_of_fuel)
]

-- `prst_pool_deserialize`
pub deserialize : Heap → PrstPool → List ℕ → PrstPool × Outcome
deserialize h p buf =
    if ltb (length buf) 4
    then (p, refused)
    else if ltb 65536 (word_at 4 buf)
    then (p, refused)
    else deser_entries h (pool_init h) (word_at 4 buf) (drop 4 buf)
