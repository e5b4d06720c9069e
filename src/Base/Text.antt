-- ===== src/Base/Text.antt =====
-- Text that the program prints into its messages, as bytes.
use Prim.Native.Nat.{ℕ, zero, suc, ◌+◌, ◌-◌, ◌/◌, ◌%◌, ◌^◌}
use Prim.Native.Char.{code}
use Prim.Native.String.{String}
use mathlib.Core.List.{List, [], ◌∷◌, ◌++◌}
use fluxa_lang.Base.Tests.{ltb, if◌then◌else◌}

-- The bytes of an ASCII text.
abbrev pub codes : String → List ℕ
codes String.[] = []
codes (String.◌∷◌ c s) = code c ∷ codes s

-- The last `k` digits of a number at least, with no leading zeros: ten of them print any 32 bits.
digits_of : ℕ → ℕ → List ℕ
digits_of zero n = []
digits_of (suc k) n =
    let rest = digits_of k (n / 10) in
    if ltb n 10 then (48 + n) ∷ [] else rest ++ (48 + n % 10) ∷ []

-- `%d` of an `int`, given by its 32-bit pattern.
unfoldable pub print_int : ℕ → List ℕ
unfolding digits_of
print_int w = if ltb w (2 ^ 31) then digits_of 10 w else 45 ∷ digits_of 10 (2 ^ 32 - w)
