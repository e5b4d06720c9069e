-- ===== src/Gc/Tests.antt =====
-- A table of two objects, one of them pinned.
use fluxa_lang.Base.{
  ℕ, ◌^◌, ◌≤◌, ◌<◌, arith, none, ◌≡◌, refl, map, [], ◌∷◌, some, true, ◌==◌, get_elem?,
}
use fluxa_lang.Prst.Checksum.{fnv_step, fnv_text}
use fluxa_lang.Prst.Graph.Tally.{tally}
use fluxa_lang.Gc.{
  GcEntry, GcTable, used, zero_entry, next_pow2, pow2_from, sweep, is_used, find_slot, find_from,
  pin, unpin,
}
use fluxa_lang.Gc.Sweep.{entry_used, swept_slot, unpinned, sweep-unpinned}
use fluxa_lang.Gc.Pins.{unpin-pin}
use fluxa_lang.Gc.Capacity.{RoundsUp, next_pow2-Bounds}

abbrev object : ℕ → ℕ → GcEntry
object ptr pins = record { ptr = ptr; pin_count = pins; size_bytes = 24; state = used }

abbrev two_objects : GcTable
two_objects = record {
  slots = object 4096 1 ∷ object 8192 0 ∷ object 12288 0 ∷ zero_entry ∷ [];
  count = 3;
  total_bytes = 72;
}

sweep-unpinned_example :
    ((sweep two_objects).table.slots ≡ map swept_slot two_objects.slots)
    × ((sweep two_objects).freed ≡ unpinned two_objects.slots)
    × ((sweep two_objects).table.count ≡ tally entry_used (sweep two_objects).table.slots)
sweep-unpinned_example = sweep-unpinned two_objects refl

-- A table with one slot, where every hash leads.
abbrev one_slot : GcTable
one_slot = record { slots = object 4096 1 ∷ []; count = 1; total_bytes = 24 }

unpin-pin_example :
    (e : GcEntry) × (get_elem? one_slot.slots 0 ≡ some e)
    × (e.ptr ≡ 4096)
    × (is_used e.state ≡ true)
    × (unpin (pin one_slot 4096) 4096 ≡ (one_slot, e.pin_count == 0))
unpin-pin_example = unpin-pin one_slot 4096 0 found
  where
    found : find_slot one_slot 4096 ≡ some 0
    found = unfold find_slot find_from fnv_text fnv_step in refl

next_pow2-Bounds_example :
    (1000 ≤ 2 ^ 30 → RoundsUp 1000 (next_pow2 1000))
    × (2 ^ 30 < 1000 → (fuel : ℕ) → pow2_from fuel 1 1000 ≡ none)
next_pow2-Bounds_example = next_pow2-Bounds 1000 (omega arith)
