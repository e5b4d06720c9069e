-- ===== src/Arr.antt =====
-- src/scope.h: the flag word of an array. Bit 0 says that the array owns its data, and bits 8 to 15
-- hold the type of the elements, plus one, or 0. The parts have no bit in common, so that `|` is `+`;
-- a word is not negative.
mod Tests
use fluxa_lang.Base.{
  ℕ, ◌+◌, ◌-◌, ◌*◌, ◌/◌, ◌%◌, ◌<◌, ◌≡◌, refl, Bool, true, false, ◌==◌, not, if◌then◌else◌, arith,
}

-- `fluxa_arr_is_owned`
pub is_owned : ℕ → Bool
is_owned w = w % 2 == 1

-- `fluxa_arr_set_owned`
pub set_owned : ℕ → Bool → ℕ
set_owned w b = w - w % 2 + (if b then 1 else 0)

-- `fluxa_arr_has_cached_type`
pub has_cached_type : ℕ → Bool
has_cached_type w = not (w / 256 % 256 == 0)

-- `fluxa_arr_cached_type`; 0 is VAL_NIL.
pub cached_type : ℕ → ℕ
cached_type w = if w / 256 % 256 == 0 then 0 else w / 256 % 256 - 1

-- `fluxa_arr_cache_type`
pub cache_type : ℕ → ℕ → ℕ
cache_type w t = w - w / 256 % 256 * 256 + (t + 1) * 256

-- The cached type of an array and the ownership of its data do not disturb each other: a type that is
-- cached is read back and leaves the ownership as it was, and a change of the ownership is read back
-- and leaves the cached type, or that there is none, as it was. The type must be below 255.
pub arr_flags :
    (w t : ℕ) (b : Bool)
    → t < 255
    → (cached_type (cache_type w t) ≡ t)
      × (has_cached_type (cache_type w t) ≡ true)
      × (is_owned (cache_type w t) ≡ is_owned w)
      × (is_owned (set_owned w b) ≡ b)
      × (cached_type (set_owned w b) ≡ cached_type w)
      × (has_cached_type (set_owned w b) ≡ has_cached_type w)
unfolding is_owned set_owned has_cached_type cached_type cache_type
arr_flags w t b h = (
  ground (arith, h),
  ground (arith, h),
  ground (arith, h),
  ground arith,
  ground arith,
  ground arith,
)
