-- ===== src/Gc/Sweep.antt =====
-- What a sweep frees and what it keeps.
use fluxa_lang.Base.{
  ℕ, ◌+◌, ◌-◌, ◌≡◌, refl, sym, ap, ◌⊎◌, ◌∙◌, List, [], ◌∷◌, map, Bool, true, false, zero, suc, ◌&&◌,
  not, ◌==◌, if◌then◌else◌, arith, Bool-cases, inl, inr,
}
use fluxa_lang.Prst.Graph.Tally.{tally, bit}
use fluxa_lang.Gc.{
  SlotState, empty, used, GcEntry, GcTable, Swept, is_used, dead, is_garbage, sweep, sweep_from,
}

abbrev pub entry_used : GcEntry → Bool
entry_used e = is_used e.state

-- What a sweep takes, by state, pins and pointer: an object that is tracked and has no pin.
abbrev pub is_taken : SlotState → ℕ → ℕ → Bool
is_taken used zero (suc ptr) = true
is_taken s pins ptr = false

abbrev pub unheld : GcEntry → Bool
unheld e = is_taken e.state e.pin_count e.ptr

is_taken-is_garbage :
    (s : SlotState) (pins ptr : ℕ)
    → (is_used s && (pins == 0) && not (ptr == 0)) ≡ is_taken s pins ptr
is_taken-is_garbage empty zero zero = refl
is_taken-is_garbage empty zero (suc ptr) = refl
is_taken-is_garbage empty (suc pins) ptr = refl
is_taken-is_garbage dead zero zero = refl
is_taken-is_garbage dead zero (suc ptr) = refl
is_taken-is_garbage dead (suc pins) ptr = refl
is_taken-is_garbage used zero zero = refl
is_taken-is_garbage used zero (suc ptr) = ground arith
is_taken-is_garbage used (suc pins) ptr = ground arith

-- The condition of the code says so.
garbage_cases :
    (e : GcEntry)
    → ((is_garbage e ≡ true) × (unheld e ≡ true)) ⊎ ((is_garbage e ≡ false) × (unheld e ≡ false))
garbage_cases e =
    let same = is_taken-is_garbage e.state e.pin_count e.ptr in
    elim (Bool-cases (is_garbage e)) [
      | inl yes' ↦ inl (yes', sym same ∙ yes')
      | inr no' ↦ inr (no', sym same ∙ no')
    ]

-- A slot after the sweep.
abbrev pub swept_slot : GcEntry → GcEntry
swept_slot e = if unheld e then record e { state = dead } else e

-- The pointers of the objects that are tracked and have no pin, in the order of the slots.
abbrev pub unpinned : List GcEntry → List ℕ
unpinned [] = []
unpinned (e ∷ es) = if unheld e then e.ptr ∷ unpinned es else unpinned es

none_used :
    (es : List GcEntry) → tally entry_used es ≡ 0 → (map swept_slot es ≡ es) × (unpinned es ≡ [])
none_used [] h = (refl, refl)
none_used (e ∷ es) h = elim (garbage_cases e) [
  | inl (bad, taken) ↦ absurd (ground (arith, bad, h))
  | inr (fine, kept) ↦ rw kept (let (m, u) = none_used es (ground (arith, h)) in (ap (◌∷◌ e) m, u))
]

-- A sweep of the slots behind `k` that are in use and stay so.
abbrev Sweeps : ℕ → List GcEntry → Swept → Type 0
Sweeps k es s =
    (s.table.slots ≡ map swept_slot es)
    × (s.freed ≡ unpinned es)
    × (s.table.count ≡ k + tally entry_used (map swept_slot es))

sweep_from-Sweeps :
    (es : List GcEntry) (k count bytes : ℕ)
    → count ≡ k + tally entry_used es
    → Sweeps k es (sweep_from es count bytes)
unfolding sweep_from
sweep_from-Sweeps [] k count bytes h = (refl, refl, h)
sweep_from-Sweeps (e ∷ es) k count bytes h = elim (garbage_cases e) [
  | inl (bad, taken) ↦ elim (Bool-cases (count - 1 == 0)) [
    | inl last ↦
        let z : tally entry_used es ≡ 0 = ground (arith, bad, h, last) in
        let k0 : k ≡ 0 = ground (arith, bad, h, last) in
        let (m, u) = none_used es z in
        rw (bad, sweep_from)
          (rw (last, sweep_from)
            (rw taken (
              ap (◌∷◌ (record e { state = dead })) (sym m),
              ap (◌∷◌ e.ptr) (sym u),
              omega (arith, ap (tally entry_used) m, z, k0),
            )))
    | inr more ↦
        let (m, u, c) =
          sweep_from-Sweeps es k (count - 1) (bytes - e.size_bytes) (ground (arith, bad, h)) in
        rw (bad, sweep_from)
          (rw (more, sweep_from)
            (rw taken (ap (◌∷◌ (record e { state = dead })) m, ap (◌∷◌ e.ptr) u, omega (arith, c))))
  ]
  | inr (fine, kept) ↦
      let (m, u, c) =
        sweep_from-Sweeps es (bit (entry_used e) + k) count bytes (omega (arith, h)) in
      rw (fine, sweep_from) (rw kept (ap (◌∷◌ e) m, u, omega (arith, c)))
]

-- `gc_sweep` frees the objects of exactly the slots that are in use with a pointer and have no pin,
-- in the order of the slots; these slots become tombstones, every other slot is as it was, and the count is again
-- that of the tracked objects. The count must be that before the sweep.
pub sweep-unpinned :
    (g : GcTable)
    → g.count ≡ tally entry_used g.slots
    → ((sweep g).table.slots ≡ map swept_slot g.slots)
      × ((sweep g).freed ≡ unpinned g.slots)
      × ((sweep g).table.count ≡ tally entry_used (sweep g).table.slots)
unfolding sweep
sweep-unpinned g h = elim (Bool-cases (g.count == 0)) [
  | inl zero' ↦
      let (m, u) = none_used g.slots (ground (arith, h, zero')) in rw zero' (sym m, sym u, h)
  | inr some' ↦
      let (m, u, c) = sweep_from-Sweeps g.slots 0 g.count g.total_bytes (omega (arith, h)) in
      rw some' (m, u, omega (arith, c, ap (tally entry_used) m))
]
