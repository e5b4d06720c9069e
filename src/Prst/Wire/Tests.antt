-- ===== src/Prst/Wire/Tests.antt =====
-- The wire format on concrete pools and bytes.
use fluxa_lang.Base.{
  ℕ, ◌≡◌, refl, List, [], ◌∷◌, ◌++◌, map, some, true, arith, length, All, ◌≤◌, ◌<◌, ◌^◌, le_bytes,
}
use fluxa_lang.Prst.Value.{Value, int, string, arr, item, end}
use fluxa_lang.Prst.Pool.Tests.{test_heap, two_variables, two_variables-IsValid}
use fluxa_lang.Prst.Checksum.{pool_checksum}
use fluxa_lang.Prst.Wire.{
  serialize, deserialize, ser_entries, wire_size, items_size, entries_size, accepted, pool_size,
}
use fluxa_lang.Prst.Wire.Heads.{Fits}
use fluxa_lang.Prst.Wire.Sizes.{length-serialize}
use fluxa_lang.Prst.Wire.Entries.{EntryFits}
use fluxa_lang.Prst.Wire.Pools.{variable, moved, deserialize-serialize}
use fluxa_lang.Prst.Wire.Integrity.{checksum-deserialize}

abbrev bytes : List ℕ
bytes = le_bytes 4 2 ++ ser_entries two_variables.entries

written : serialize true two_variables ≡ some bytes
unfolding serialize
written = refl

pub two_variables-Fits : All EntryFits two_variables.entries
unfolding Fits
two_variables-Fits = (
  record {
    type_width = omega arith;
    offset_width = omega arith;
    value_fits = omega arith;
    init_fits = omega arith;
  },
  (
    record {
      type_width = omega arith;
      offset_width = omega arith;
      value_fits = (omega arith, (omega arith, tt));
      init_fits = (omega arith, tt);
    },
    tt,
  ),
)

deserialize-serialize_example :
    (map variable (deserialize test_heap two_variables bytes).0.entries
      ≡ map moved two_variables.entries)
    × ((deserialize test_heap two_variables bytes).1 ≡ accepted)
deserialize-serialize_example =
    deserialize-serialize test_heap two_variables two_variables bytes (λ n. refl)
      two_variables-IsValid two_variables-Fits (omega arith) written

checksum-deserialize_example :
    pool_checksum (deserialize test_heap two_variables bytes).0 ≡ pool_checksum two_variables
checksum-deserialize_example =
    checksum-deserialize test_heap two_variables two_variables bytes (λ n. refl)
      two_variables-IsValid two_variables-Fits (omega arith) written

-- A buffer that announces three entries and ends.
abbrev cut_short : List ℕ
cut_short = 3 ∷ 0 ∷ 0 ∷ 0 ∷ 97 ∷ []

length-serialize_example : length bytes ≤ pool_size two_variables
length-serialize_example = length-serialize two_variables bytes two_variables-IsValid written

-- An array of an integer and a text.
abbrev an_array : Value
an_array = arr true 0 (item (int 3) (item (string (98 ∷ [])) end))

pub two_variables_small : pool_size two_variables < 2 ^ 32
unfolding pool_size entries_size wire_size items_size
two_variables_small = omega arith
