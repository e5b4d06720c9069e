-- ===== src/Gc/Capacity.antt =====
-- The capacity of the table, and where its computation fails.
use fluxa_lang.Base.{
  ℕ, zero, suc, ◌*◌, ◌^◌, ◌≤◌, ◌<◌, ◌≡◌, refl, ap, sym, ◌∙◌, arith, Option, none, some, inl, inr,
  Bool-cases, ◌%◌, true, false, lt→ltb, subst,
}
use fluxa_lang.Gc.{next_pow2, pow2_from, int_lt}

pow_suc : (j : ℕ) → 2 ^ suc j ≡ 2 ^ j * 2
pow_suc j = omega arith

shift : (p room : ℕ) → p * 2 ^ suc room ≡ p * 2 * 2 ^ room
shift p room = grind (arith, pow_suc room)

pow_pos : (k : ℕ) → 1 ≤ 2 ^ k
pow_pos zero = omega arith
pow_pos (suc k) = omega (arith, pow_pos k, pow_suc k)

le_mul : (p x : ℕ) → 1 ≤ x → p ≤ p * x
le_mul p x h = grind arith

-- A power of two that is at least the number and less than twice as large.
abbrev pub RoundsUp : ℕ → Option ℕ → Type 0
RoundsUp n none = ⊥
RoundsUp n (some p) = (n ≤ p) × (p < 2 * n) × ((k : ℕ) × (p ≡ 2 ^ k))

-- `room` shifts are left below the sign bit.
pow2_from-RoundsUp :
    (room fuel p n j : ℕ)
    → room < fuel
    → 1 ≤ p
    → n ≤ 2 ^ 30
    → n ≤ p * 2 ^ room
    → p < 2 * n
    → p ≡ 2 ^ j
    → RoundsUp n (pow2_from fuel p n)
unfolding pow2_from
pow2_from-RoundsUp room zero p n j f one small enough below q = absurd (omega arith)
pow2_from-RoundsUp zero (suc fuel) p n j f one small enough below q =
    rw (stops) (omega (arith, enough), below, (j, q))
  where
    stops : int_lt p n ≡ false
    stops = ground arith
pow2_from-RoundsUp (suc room) (suc fuel) p n j f one small enough below q =
    elim (Bool-cases (int_lt p n)) [
      | inl more ↦
          rw (more, pow2_from)
            (rw (kept more) (
              pow2_from-RoundsUp room fuel (p * 2) n (suc j) (omega arith) (omega arith) small
                (room_left) (doubled more) (ap (λ x. x * 2) q ∙ sym (pow_suc j))))
      | inr stop ↦ rw (stop, pow2_from) (ground (arith, stop), below, (j, q))
    ]
  where
    kept : int_lt p n ≡ true → p * 2 % 2 ^ 32 ≡ p * 2
    kept more = omega arith

    room_left : n ≤ p * 2 * 2 ^ room
    room_left = omega (arith, enough, shift p room)

    doubled : int_lt p n ≡ true → p * 2 < 2 * n
    doubled more = ground arith

-- With 0 the loop stays at 0.
pow2_from_zero : (fuel n : ℕ) → 1 ≤ n → pow2_from fuel 0 n ≡ none
unfolding pow2_from
pow2_from_zero zero n h = refl
pow2_from_zero (suc fuel) n h = rw (more) (pow2_from_zero fuel n h)
  where
    more : int_lt 0 n ≡ true
    more = ground arith

-- Above 2^30 the shifts lead over the sign bit to 0.
pow2_from_last : (fuel n : ℕ) → 2 ^ 30 < n → pow2_from fuel (2 ^ 30) n ≡ none
unfolding pow2_from
pow2_from_last zero n large = refl
pow2_from_last (suc zero) n large = rw (lt→ltb (2 ^ 30) n large) refl
pow2_from_last (suc (suc fuel)) n large =
    rw (lt→ltb (2 ^ 30) n large) (rw (negative) (pow2_from_zero fuel n (omega arith)))
  where
    negative : int_lt (2 ^ 31) n ≡ true
    negative = ground arith

pow2_from_large :
    (room fuel p n : ℕ) → 1 ≤ p → 2 ^ 30 < n → p * 2 ^ room ≡ 2 ^ 30 → pow2_from fuel p n ≡ none
unfolding pow2_from
pow2_from_large room zero p n one large e = refl
pow2_from_large zero (suc fuel) p n one large e =
    subst (λ x. pow2_from (suc fuel) x n ≡ none) (sym (same)) (pow2_from_last (suc fuel) n large)
  where
    same : p ≡ 2 ^ 30
    same = omega (arith, e)
pow2_from_large (suc room) (suc fuel) p n one large e =
    rw (more)
      (rw (kept) (pow2_from_large room fuel (p * 2) n (omega arith) large (sym (shift p room) ∙ e)))
  where
    low : p ≤ 2 ^ 30
    low = omega (arith, e, le_mul p (2 ^ suc room) (pow_pos (suc room)))

    more : int_lt p n ≡ true
    more = ground (arith, low)

    kept : p * 2 % 2 ^ 32 ≡ p * 2
    kept = omega (arith, low)

-- `gc_next_pow2` of a positive number up to 2^30 is a power of two that is at least the number and less
-- than twice as large. For a larger `int` the shift overflows, and with wrap-around the loop does
-- not end.
pub next_pow2-Bounds :
    (n : ℕ)
    → 1 ≤ n
    → (n ≤ 2 ^ 30 → RoundsUp n (next_pow2 n))
      × (2 ^ 30 < n → (fuel : ℕ) → pow2_from fuel 1 n ≡ none)
unfolding next_pow2
next_pow2-Bounds n h = (
  λ small.
      pow2_from-RoundsUp 30 33 1 n 0 (omega arith) (omega arith) small (omega (arith, small))
        (omega (arith, h)) refl,
  λ large fuel. pow2_from_large 30 fuel 1 n (omega arith) large refl,
)
