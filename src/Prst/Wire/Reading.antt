-- ===== src/Prst/Wire/Reading.antt =====
-- The outcome of reading from a buffer: a result, malformed bytes, or fuel that ran out. The last
-- stands for no behaviour of the code; the theorems show that it is not met.
pub data Parsed {ℓ} (A : Type ℓ) : Type ℓ where
  ok : A → Parsed A
  malformed : Parsed A
  starved : Parsed A

infixl 5 ◌>>=◌
abbrev pub ◌>>=◌ {ℓ κ} : {A : Type ℓ} {B : Type κ} → Parsed A → (A → Parsed B) → Parsed B
ok a >>= f = f a
malformed >>= f = malformed
starved >>= f = starved
