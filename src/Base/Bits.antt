-- ===== src/Base/Bits.antt =====
-- The exclusive or of two words is a word.
use Prim.Native.Nat.{ℕ, zero, suc, ◌/◌, ◌%◌, ◌^◌, ◌<◌, digits, differ, bit_xor, bit_xor-bitwise}
use mathlib.Core.Path.{subst, sym}
use native.Mathlib.Omega.{arith}

differ_bits : (x y : ℕ) → x < 2 → y < 2 → differ x y < 2
differ_bits zero y h k = k
differ_bits (suc zero) zero h k = omega arith
differ_bits (suc zero) (suc y) h k = omega arith
differ_bits (suc (suc x)) y h k = absurd (omega arith)

digits_bound : (k n a b : ℕ) → a < 2 ^ k → b < 2 ^ k → digits (λ b. b) differ n a b < 2 ^ k
digits_bound k zero a b h l = l
digits_bound k (suc n) zero b h l = l
digits_bound zero (suc n) (suc a) b h l = absurd (omega arith)
digits_bound (suc k) (suc n) (suc a) b h l = omega (
  arith,
  digits_bound k n (suc a / 2) (b / 2) (omega arith) (omega arith),
  differ_bits (suc a % 2) (b % 2) (omega arith) (omega arith),
)

pub bit_xor_bound : (k a b : ℕ) → a < 2 ^ k → b < 2 ^ k → bit_xor a b < 2 ^ k
bit_xor_bound k a b h l =
    subst (λ x. x < 2 ^ k) (sym (λ i. bit_xor-bitwise a b i)) (digits_bound k a a b h l)
