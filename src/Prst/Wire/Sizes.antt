-- ===== src/Prst/Wire/Sizes.antt =====
-- `prst_pool_serialize` writes as many bytes as it allocated.
use fluxa_lang.Base.{
  Bool, false, none, inl, inr, ◌⊎◌, refl, ℕ, ◌+◌, ◌≤◌, ◌<◌, ◌^◌, ◌≡◌, refl, List, [], ◌∷◌, ◌++◌,
  none, some, Bool, true, false, length, arith, le_bytes, length-append, length-take, All,
}
use mathlib.Core.Option.{some-injective}
use mathlib.Core.Path.{subst}
use fluxa_lang.Prst.Value.{Value, string, arr, Items, end, item}
use fluxa_lang.Prst.Pool.{PrstEntry, PrstPool, name_size, count}
use fluxa_lang.Prst.Pool.Invariant.{IsEntry, IsValid}
use fluxa_lang.Prst.Wire.Heads.{Fits, FitsAll}
use fluxa_lang.Prst.Wire.{
  text, text_len, text_bytes, arr_count, head_bytes, ser_value, ser_items, wire_size, items_size,
  ser_entry, ser_entries, entries_size, pool_size, serialize,
}

-- A text at most as long as the field says.
length-text_bytes : (v : Value) → length (text_bytes v) ≤ length (text v)
length-text_bytes v = ground (arith, length-take (text_len v) (text v))

length-text_bytes_fit :
    (v : Value) → length (text v) < 2 ^ 31 → length (text_bytes v) ≡ length (text v)
length-text_bytes_fit v h = ground (arith, length-take (text_len v) (text v))

length-head_bytes : (v : Value) → length (head_bytes v) ≡ 28 + length (text_bytes v)
length-head_bytes v = omega (arith, length-append (text_bytes v) (le_bytes 4 (arr_count v)))

mutual
  unfolding ser_value ser_items wire_size items_size

  ser_value_le : (v : Value) → length (ser_value v) ≤ wire_size v
  ser_value_le (arr o c vs) =
      omega (arith, length-append (head_bytes (arr o c vs)) (ser_items vs), ser_items_le vs)
  ser_value_le (string s) =
      omega (arith, length-head_bytes (string s), length-text_bytes (string s))
  ser_value_le v = omega arith

  ser_items_le : (vs : Items) → length (ser_items vs) ≤ items_size vs
  ser_items_le end = omega arith
  ser_items_le (item v vs) =
      omega (arith, length-append (ser_value v) (ser_items vs), ser_value_le v, ser_items_le vs)

pub length-ser_value-le : (v : Value) → length (ser_value v) ≤ wire_size v
length-ser_value-le v = ser_value_le v

mutual
  unfolding ser_value ser_items wire_size items_size Fits FitsAll

  ser_value_ge : (v : Value) → Fits v → wire_size v ≤ length (ser_value v)
  ser_value_ge (arr o c vs) h =
      omega (arith, length-append (head_bytes (arr o c vs)) (ser_items vs), ser_items_ge vs h.1)
  ser_value_ge (string s) h =
      omega (arith, length-head_bytes (string s), length-text_bytes_fit (string s) h.0)
  ser_value_ge v h = omega arith

  ser_items_ge : (vs : Items) → FitsAll vs → items_size vs ≤ length (ser_items vs)
  ser_items_ge end h = omega arith
  ser_items_ge (item v vs) h =
      omega
        (arith, length-append (ser_value v) (ser_items vs), ser_value_ge v h.0, ser_items_ge vs h.1)

pub wire_size-le-length : (v : Value) → Fits v → wire_size v ≤ length (ser_value v)
wire_size-le-length v h = ser_value_ge v h

length-ser_entry :
    (e : PrstEntry)
    → IsEntry e
    → length (ser_entry e) ≤ name_size + 8 + wire_size e.value + wire_size e.init_value
unfolding ser_entry
length-ser_entry e v = omega (
  arith,
  length-append (e.name ++ 0 ∷ e.slack) (
      le_bytes 4 e.declared_type
      ++ (le_bytes 4 e.stack_offset ++ (ser_value e.value ++ ser_value e.init_value))),
  length-append e.name (0 ∷ e.slack),
  length-append (ser_value e.value) (ser_value e.init_value),
  length-ser_value-le e.value,
  length-ser_value-le e.init_value,
  v.buffer,
)

length-ser_entries :
    (es : List PrstEntry) → All IsEntry es → length (ser_entries es) ≤ entries_size es
unfolding ser_entries entries_size
length-ser_entries [] a = omega arith
length-ser_entries (e ∷ es) a = omega (
  arith,
  length-append (ser_entry e) (ser_entries es),
  length-ser_entry e a.0,
  length-ser_entries es a.1,
)

-- What `prst_pool_serialize` writes stays inside the buffer that it allocated. The pool must be
-- valid.
pub length-serialize :
    (p : PrstPool) (bytes : List ℕ)
    → IsValid p
    → serialize true p ≡ some bytes
    → length bytes ≤ pool_size p
unfolding serialize pool_size
length-serialize p bytes w e =
    subst (λ b. length b ≤ 4 + entries_size p.entries) (some-injective _ _ e)
      (omega (
        arith,
        length-append (le_bytes 4 (count p)) (ser_entries p.entries),
        length-ser_entries p.entries w.all_entries,
      ))

-- The buffer is refused, or what is written does not depend on it and is not empty.
pub serialize_cases :
    (granted : Bool) (p : PrstPool)
    → (serialize granted p ≡ none)
      ⊎ ((bytes : List ℕ) × (serialize granted p ≡ some bytes)
          × (serialize true p ≡ some bytes)
          × (0 < length bytes))
unfolding serialize
serialize_cases true p = inr (_, refl, refl, omega arith)
serialize_cases false p = inl refl

-- A granted buffer is written.
pub serialize_granted : (p : PrstPool) → (bytes : List ℕ) × (serialize true p ≡ some bytes)
unfolding serialize
serialize_granted p = (_, refl)
