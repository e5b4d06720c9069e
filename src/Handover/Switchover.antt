-- ===== src/Handover/Switchover.antt =====
-- The wait of step 4 of src/handover.c for a safe point of Runtime A.
use fluxa_lang.Base.{
  ℕ, zero, suc, ◌+◌, ◌*◌, ◌/◌, ◌≤◌, ◌<◌, ◌≡◌, refl, ◌∙◌, sym, ap, subst, Option, some, true, false,
  arith, inl, inr, Bool-cases, dec_lt,
}
use fluxa_lang.Handover.Steps.{
  Look, Wait, reached, timed_out, waiting, wait_from, is_safe_point, is_past, rounds,
}

-- A clock that is read before the first look and then once after each, with a sleep of half a
-- millisecond between two looks: `k` sleeps take at least `k / 2` milliseconds.
pub record Ticks (ms_now : ℕ → Option ℕ) : Type 0 where
  pub start : ℕ
  pub first : ms_now 0 ≡ some start
  pub later : (k : ℕ) → (t : ℕ) × (ms_now (suc k) ≡ some t) × (start + k / 2 ≤ t)

module _ (look : ℕ → Look) (ms_now : ℕ → Option ℕ) (deadline : ℕ) where
  -- A look that lets the wait go on: no safe point, and the deadline not past.
  abbrev pub Unfinished : ℕ → Type 0
  Unfinished i = (is_safe_point (look i) ≡ false) × (is_past (ms_now (i + 1)) deadline ≡ false)

  -- What the end of a wait that began at look `k` says of the looks.
  abbrev pub Ended : ℕ → Wait → Type 0
  Ended k (reached l) =
      (j : ℕ) × (k ≤ j)
      × (look j ≡ l)
      × (is_safe_point l ≡ true)
      × ((i : ℕ) → k ≤ i → i < j → Unfinished i)
  Ended k timed_out =
      (j : ℕ) × (k ≤ j)
      × (is_safe_point (look j) ≡ false)
      × (is_past (ms_now (j + 1)) deadline ≡ true)
      × ((i : ℕ) → k ≤ i → i < j → Unfinished i)
  Ended k waiting = ⊥

  before :
      (k j : ℕ)
      → Unfinished k
      → ((i : ℕ) → k + 1 ≤ i → i < j → Unfinished i)
      → (i : ℕ) → k ≤ i
      → i < j
      → Unfinished i
  before k j u h i l m = elim (dec_lt k i) [
    | yes q ↦ h i (omega arith) m
    | no q ↦ subst Unfinished (omega arith) u
  ]

  Ended-earlier : (k : ℕ) (r : Wait) → Unfinished k → Ended (k + 1) r → Ended k r
  Ended-earlier k (reached l) u (j, m, e, s, h) = (j, omega arith, e, s, before k j u h)
  Ended-earlier k timed_out u (j, m, s, p, h) = (j, omega arith, s, p, before k j u h)
  Ended-earlier k waiting u e = e

  wait_from-Ended :
      (n k last : ℕ)
      → is_past (ms_now (last + 1)) deadline ≡ true
      → k ≤ last
      → last < n + k
      → Ended k (wait_from look ms_now deadline n k)
  unfolding wait_from
  wait_from-Ended zero k last p h m = absurd (omega arith)
  wait_from-Ended (suc n) k last p h m = elim (Bool-cases (is_safe_point (look k))) [
    | inl safe ↦ rw safe (k, omega arith, refl, safe, λ i l q. absurd (omega arith))
    | inr unsafe ↦ elim (Bool-cases (is_past (ms_now (k + 1)) deadline)) [
      | inl late ↦ rw (unsafe, late) (k, omega arith, unsafe, late, λ i l q. absurd (omega arith))
      | inr early ↦
          rw (unsafe, early)
            (Ended-earlier k (wait_from look ms_now deadline n (k + 1)) (unsafe, early)
              (wait_from-Ended n (k + 1) last p (further early) (omega arith)))
    ]
  ]
    where
      further : is_past (ms_now (k + 1)) deadline ≡ false → k + 1 ≤ last
      further early = elim (dec_lt k last) [
        | yes q ↦ omega arith
        | no q ↦ absurd (contradiction (omega arith))
      ]
        where
          contradiction : last ≡ k → ⊥
          contradiction e = cc (sym early ∙ ap (λ i. is_past (ms_now (i + 1)) deadline) (sym e) ∙ p)

-- The wait for a safe point of Runtime A ends within the rounds given, and with the first look that
-- decides it: at a safe point if one is seen before the clock is seen at the deadline, and with a
-- timeout otherwise. The clock must advance by the sleeps between the looks.
pub wait_ends :
    (look : ℕ → Look) (ms_now : ℕ → Option ℕ) (timeout : ℕ) (clock : Ticks ms_now)
    → Ended look ms_now
        (clock.start + timeout)
        0
        (wait_from look ms_now (clock.start + timeout) (rounds timeout) 0)
wait_ends look ms_now timeout clock =
    wait_from-Ended look ms_now (clock.start + timeout) (rounds timeout) 0 (2 * timeout) late
      (omega arith) (omega arith)
  where
    late : is_past (ms_now (2 * timeout + 1)) (clock.start + timeout) ≡ true
    late =
        let (t, now, past) = clock.later (2 * timeout) in
        let last : 2 * timeout + 1 ≡ suc (2 * timeout) = omega arith in
        rw (last, now) (ground (arith, past))
