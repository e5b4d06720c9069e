-- ===== src/Warm/History.antt =====
-- The slots of a profile against the history of the observations.
use fluxa_lang.Base.{
  ℕ, zero, suc, ◌+◌, ◌<◌, ◌%◌, ◌≡◌, ◌≢◌, refl, ap, ◌∙◌, List, [], ◌∷◌, some, Bool, true, false,
  arith, ◌==◌, if◌then◌else◌, ltb, Bool-cases, inl, inr, Option-cases, get_elem?, replicate,
  get_elem?-set-some, get_elem?-set_ne,
}
use fluxa_lang.ErrStack.{at}
use fluxa_lang.Warm.{
  WarmSlot, WarmFunc, zero_slot, zero_func, slots_max, type_from_val_type, observe, observe_at,
  warm_record,
}

-- How often the newest type stands at the head of a history, at most 15.
abbrev pub run_of : List ℕ → ℕ
run_of [] = 0
run_of (t ∷ []) = 1
run_of (t ∷ u ∷ ts) =
    if t == u
    then (if ltb (run_of (u ∷ ts)) 15 then run_of (u ∷ ts) + 1 else run_of (u ∷ ts))
    else 1

-- Whether the newest observation is of the type of the one before, or the first.
abbrev pub steady : List ℕ → Bool
steady [] = false
steady (t ∷ []) = true
steady (t ∷ u ∷ ts) = t == u

abbrev pub newest : List ℕ → ℕ
newest [] = 0
newest (t ∷ ts) = t

-- What a slot holds of its history, the newest observation first.
abbrev pub summary : List ℕ → WarmSlot
summary ts = record { observed_type = newest ts; qjl_guard = steady ts; run_count = run_of ts }

run_of_positive : (t : ℕ) (ts : List ℕ) → 0 < run_of (t ∷ ts)
run_of_positive t [] = omega arith
run_of_positive t (u ∷ ts) = ground (arith, run_of_positive u ts)

observe-summary : (ts : List ℕ) (t : ℕ) → observe (summary ts) t ≡ summary (t ∷ ts)
unfolding observe
observe-summary [] t = refl
observe-summary (u ∷ ts) t = ground (arith, run_of_positive u ts)

-- One call of `warm_record` with an index that is not negative.
pub record Observation : Type 0 where
  pub slot : ℕ
  pub vtype : ℕ

-- The profile after the calls of a history, the newest first.
unfoldable pub replay_records : List Observation → WarmFunc
replay_records [] = zero_func
replay_records (o ∷ os) = warm_record (replay_records os) (at o.slot) o.vtype

-- The types that were observed in one slot.
abbrev pub types_at : ℕ → List Observation → List ℕ
types_at k [] = []
types_at k (o ∷ os) =
    if o.slot % slots_max == k then type_from_val_type o.vtype ∷ types_at k os else types_at k os

get_elem?-replicate : (n k : ℕ) (s : WarmSlot) → k < n → get_elem? (replicate n s) k ≡ some s
get_elem?-replicate zero k s h = absurd (omega arith)
get_elem?-replicate (suc n) zero s h = refl
get_elem?-replicate (suc n) (suc k) s h = get_elem?-replicate n k s (omega arith)

observe_at-same :
    (slots : List WarmSlot) (i t : ℕ) (s : WarmSlot)
    → get_elem? slots i ≡ some s
    → get_elem? (observe_at slots i t) i ≡ some (observe s t)
unfolding observe_at
observe_at-same slots i t s e = rw (e, observe_at) (get_elem?-set-some slots i s (observe s t) e)

observe_at-other :
    (slots : List WarmSlot) (i k t : ℕ)
    → i ≢ k
    → get_elem? (observe_at slots i t) k ≡ get_elem? slots k
unfolding observe_at
observe_at-other slots i k t n = elim (Option-cases (get_elem? slots i)) [
  | inl e ↦ rw (e, observe_at) refl
  | inr (s, e) ↦ rw (e, observe_at) (get_elem?-set_ne slots i k (observe s t) n)
]

-- After any calls of `warm_record` on a cleared profile every slot holds the type that was observed
-- in it last, how often in a row, at most 15, and whether the last two observations agree or there
-- was one only; and calls on other slots do not disturb it.
pub get-replay_records :
    (os : List Observation) (k : ℕ)
    → k < slots_max
    → get_elem? (replay_records os).slots k ≡ some (summary (types_at k os))
unfolding replay_records warm_record
get-replay_records [] k h = get_elem?-replicate 256 k zero_slot h
get-replay_records (o ∷ os) k h = elim (Bool-cases (o.slot % slots_max == k)) [
  | inl here ↦ rw here (new (ground (arith, here)) (get-replay_records os k h))
  | inr other ↦ rw other (
      observe_at-other (replay_records os).slots (o.slot % slots_max) k (type_from_val_type o.vtype)
        (λ e. ground (arith, other, e))
      ∙ get-replay_records os k h)
]
  where
    new :
        o.slot % slots_max ≡ k
        → get_elem? (replay_records os).slots k ≡ some (summary (types_at k os))
        → get_elem?
            (observe_at (replay_records os).slots (o.slot % slots_max) (type_from_val_type o.vtype))
            k
          ≡ some (summary (type_from_val_type o.vtype ∷ types_at k os))
    new e ih = rw e (
        observe_at-same (replay_records os).slots k (type_from_val_type o.vtype)
          (summary (types_at k os)) ih
        ∙ ap some (observe-summary (types_at k os) (type_from_val_type o.vtype)))
