-- ===== src/Prst/Checksum.antt =====
-- `prst_pool_checksum` of src/prst_pool.h: FNV-32 over names, types and integers.
use Prim.Native.Nat.{bit_xor}
use fluxa_lang.Base.{bit_xor_bound, ◌<◌, arith, ℕ, ◌*◌, ◌/◌, ◌%◌, ◌^◌, List, [], ◌∷◌}
use fluxa_lang.Prst.Value.{Value, int}
use fluxa_lang.Prst.Pool.{PrstEntry, PrstPool}

abbrev pub fnv_offset : ℕ
fnv_offset = 2166136261

-- `h ^= w; h *= 16777619u` on 32 bits.
unfoldable pub fnv_step : ℕ → ℕ → ℕ
fnv_step h w = bit_xor h w * 16777619 % 2 ^ 32

-- `while (*n) { h ^= (uint8_t)*n++; h *= 16777619u; }`
unfoldable pub fnv_text : ℕ → List ℕ → ℕ
fnv_text h [] = h
fnv_text h (b ∷ bs) = fnv_text (fnv_step h (b % 256)) bs

-- The part of a value that counts: the two halves of an integer.
unfoldable pub value_step : ℕ → Value → ℕ
value_step h (int i) = fnv_step (fnv_step h (i % 2 ^ 32)) (i / 2 ^ 32 % 2 ^ 32)
value_step h v = h

-- One round of the loop.
unfoldable pub entry_step : ℕ → List ℕ → ℕ → Value → ℕ
entry_step h name declared v =
    bit_xor (value_step (fnv_step (bit_xor (fnv_text h name) 0x1f) (declared % 256)) v) 0x1e

unfoldable pub checksum_from : ℕ → List PrstEntry → ℕ
checksum_from h [] = h
checksum_from h (e ∷ es) = checksum_from (entry_step h e.name e.declared_type e.value) es

-- `prst_pool_checksum`
unfoldable pub pool_checksum : PrstPool → ℕ
pool_checksum p = checksum_from fnv_offset p.entries

fnv_step_bound : (h w : ℕ) → fnv_step h w < 2 ^ 32
unfolding fnv_step
fnv_step_bound h w = omega arith

-- A checksum is a word of 32 bits.
checksum_from_bound : (h : ℕ) (es : List PrstEntry) → h < 2 ^ 32 → checksum_from h es < 2 ^ 32
unfolding checksum_from entry_step
checksum_from_bound h [] b = b
checksum_from_bound h (e ∷ es) b =
    checksum_from_bound (entry_step h e.name e.declared_type e.value) es
      (bit_xor_bound 32 _ 0x1e (value_step_bound _ e.value (fnv_step_bound _ _)) (omega arith))
  where
    value_step_bound : (k : ℕ) (v : Value) → k < 2 ^ 32 → value_step k v < 2 ^ 32
    value_step_bound k (int i) l = unfold value_step in fnv_step_bound _ _
    value_step_bound k v l = unfold value_step in l

pub pool_checksum_bound : (p : PrstPool) → pool_checksum p < 2 ^ 32
unfolding pool_checksum
pool_checksum_bound p = checksum_from_bound fnv_offset p.entries (omega arith)

pub fnv_text_bound : (h : ℕ) (s : List ℕ) → h < 2 ^ 32 → fnv_text h s < 2 ^ 32
unfolding fnv_text
fnv_text_bound h [] b = b
fnv_text_bound h (c ∷ s) b = fnv_text_bound (fnv_step h (c % 256)) s (fnv_step_bound h (c % 256))
