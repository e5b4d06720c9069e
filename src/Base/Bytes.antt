-- ===== src/Base/Bytes.antt =====
-- Bytes in memory: little-endian words, as `memcpy` moves them on the hosts the program is built
-- for, and C strings, which end before their first zero byte.
use Prim.Native.Nat.{ℕ, zero, suc, ◌+◌, ◌*◌, ◌/◌, ◌%◌, ◌^◌, ◌≤◌, ◌<◌}
use mathlib.Core.Path.{◌≡◌, refl, ap, ◌∙◌}
use mathlib.Core.Logic.{inl, inr}
use mathlib.Core.List.{List, [], ◌∷◌, ◌++◌}
use mathlib.Core.Bool.{Bool, true, false, ◌&&◌}
use native.Mathlib.Omega.{arith}
use fluxa_lang.Base.Lists.{length, take, drop, take-append, drop-append, All}
use fluxa_lang.Base.Tests.{◌==◌, if◌then◌else◌, Bool-cases}

-- The `k` bytes of a word, lowest first.
abbrev pub le_bytes : ℕ → ℕ → List ℕ
le_bytes zero v = []
le_bytes (suc k) v = (v % 256) ∷ le_bytes k (v / 256)

abbrev pub of_le : List ℕ → ℕ
of_le [] = 0
of_le (b ∷ bs) = b + 256 * of_le bs

pub length-le_bytes : (k v : ℕ) → length (le_bytes k v) ≡ k
length-le_bytes zero v = refl
length-le_bytes (suc k) v = ap suc (length-le_bytes k (v / 256))

pub of_le-le_bytes_4 : (v : ℕ) → v < 2 ^ 32 → of_le (le_bytes 4 v) ≡ v
of_le-le_bytes_4 v h = omega arith

pub of_le-le_bytes_8 : (v : ℕ) → v < 2 ^ 64 → of_le (le_bytes 8 v) ≡ v
of_le-le_bytes_8 v h = omega arith

-- `memcpy(&x, r, k); r += k`: the word at the read pointer, and the bytes behind it. The callers
-- test beforehand that `k` bytes are left.
abbrev pub word_at : ℕ → List ℕ → ℕ
word_at k r = of_le (take k r)

pub word_at_4 : (v : ℕ) (rest : List ℕ) → v < 2 ^ 32 → word_at 4 (le_bytes 4 v ++ rest) ≡ v
word_at_4 v rest h =
    ap of_le (take-append 4 (le_bytes 4 v) rest (length-le_bytes 4 v)) ∙ of_le-le_bytes_4 v h

pub word_at_8 : (v : ℕ) (rest : List ℕ) → v < 2 ^ 64 → word_at 8 (le_bytes 8 v ++ rest) ≡ v
word_at_8 v rest h =
    ap of_le (take-append 8 (le_bytes 8 v) rest (length-le_bytes 8 v)) ∙ of_le-le_bytes_8 v h

pub drop-word : (k v : ℕ) (rest : List ℕ) → drop k (le_bytes k v ++ rest) ≡ rest
drop-word k v rest = drop-append k (le_bytes k v) rest (length-le_bytes k v)

-- The C string that starts at a buffer: the bytes before the first zero.
unfoldable pub c_string : List ℕ → List ℕ
c_string [] = []
c_string (b ∷ bs) = if b == 0 then [] else b ∷ c_string bs

-- Bytes that can stand in a C string.
abbrev pub NoZero : List ℕ → Type 0
NoZero = All (λ b. 0 < b)

pub c_string-NoZero : (s : List ℕ) → NoZero s → c_string s ≡ s
unfolding c_string
c_string-NoZero [] h = refl
c_string-NoZero (b ∷ bs) h = ground (arith, c_string-NoZero bs h.1)

-- A terminated string in a larger buffer is read back whole.
pub c_string-append : (s rest : List ℕ) → NoZero s → c_string (s ++ 0 ∷ rest) ≡ s
unfolding c_string
c_string-append [] rest h = refl
c_string-append (b ∷ bs) rest h = ground (arith, c_string-append bs rest h.1)

-- `strcmp(a, b) == 0`.
unfoldable pub str_eq : List ℕ → List ℕ → Bool
str_eq [] [] = true
str_eq [] (b ∷ bs) = false
str_eq (a ∷ as') [] = false
str_eq (a ∷ as') (b ∷ bs) = a == b && str_eq as' bs

pub str_eq_refl : (s : List ℕ) → str_eq s s ≡ true
unfolding str_eq
str_eq_refl [] = refl
str_eq_refl (a ∷ s) = ground (arith, str_eq_refl s)

pub eq_of_str_eq : (s t : List ℕ) → str_eq s t ≡ true → s ≡ t
unfolding str_eq
eq_of_str_eq [] [] h = refl
eq_of_str_eq [] (b ∷ t) h = cc
eq_of_str_eq (a ∷ s) [] h = cc
eq_of_str_eq (a ∷ s) (b ∷ t) h = ground (arith, eq_of_str_eq s t)

pub length-c_string : (s : List ℕ) → length (c_string s) ≤ length s
unfolding c_string
length-c_string [] = omega arith
length-c_string (b ∷ bs) = ground (arith, length-c_string bs)

pub NoZero-c_string : (s : List ℕ) → NoZero (c_string s)
unfolding c_string
NoZero-c_string [] = tt
NoZero-c_string (b ∷ bs) = elim (Bool-cases (b == 0)) [
  | inl e ↦ rw e tt
  | inr e ↦ rw e (ground (arith, e), NoZero-c_string bs)
]

-- So is one whose buffer is cut behind it.
pub c_string-take :
    (n : ℕ) (s rest : List ℕ) → NoZero s → length s ≤ n → c_string (take n (s ++ 0 ∷ rest)) ≡ s
unfolding c_string
c_string-take zero [] rest h l = refl
c_string-take (suc n) [] rest h l = refl
c_string-take zero (b ∷ s) rest h l = absurd (omega arith)
c_string-take (suc n) (b ∷ s) rest h l = ground (arith, c_string-take n s rest h.1)
