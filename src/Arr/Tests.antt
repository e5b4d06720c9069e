-- ===== src/Arr/Tests.antt =====
-- The flag word of an owned array of integers.
use fluxa_lang.Base.{◌≡◌, true, false, arith}
use fluxa_lang.Arr.{is_owned, set_owned, has_cached_type, cached_type, cache_type, arr_flags}

arr_flags_example :
    (cached_type (cache_type 513 4) ≡ 4)
    × (has_cached_type (cache_type 513 4) ≡ true)
    × (is_owned (cache_type 513 4) ≡ is_owned 513)
    × (is_owned (set_owned 513 false) ≡ false)
    × (cached_type (set_owned 513 false) ≡ cached_type 513)
    × (has_cached_type (set_owned 513 false) ≡ has_cached_type 513)
arr_flags_example = arr_flags 513 4 false (omega arith)
