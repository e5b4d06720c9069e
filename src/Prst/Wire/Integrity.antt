-- ===== src/Prst/Wire/Integrity.antt =====
-- The checksum of a pool survives the wire.
use fluxa_lang.Base.{ℕ, ◌≤◌, ◌≡◌, refl, sym, ap, ◌∙◌, List, [], ◌∷◌, map, some, true, All}
use fluxa_lang.Prst.Value.{Value, arr, end, item}
use fluxa_lang.Prst.Pool.{PrstEntry, PrstPool, Heap, count}
use fluxa_lang.Prst.Pool.Invariant.{IsValid}
use fluxa_lang.Prst.Checksum.{fnv_offset, value_step, entry_step, checksum_from, pool_checksum}
use fluxa_lang.Prst.Wire.{serialize, deserialize}
use fluxa_lang.Prst.Wire.Heads.{arrived}
use fluxa_lang.Prst.Wire.Entries.{EntryFits}
use fluxa_lang.Prst.Wire.Pools.{Variable, variable, moved, deserialize-serialize}

-- The checksum reads the variables only.
of_variables : ℕ → List Variable → ℕ
of_variables h [] = h
of_variables h (v ∷ vs) = of_variables (entry_step h v.name v.declared_type v.value) vs

checksum_from_variables :
    (h : ℕ) (es : List PrstEntry) → checksum_from h es ≡ of_variables h (map variable es)
unfolding checksum_from of_variables
checksum_from_variables h [] = refl
checksum_from_variables h (e ∷ es) =
    checksum_from_variables (entry_step h e.name e.declared_type e.value) es

value_step-arrived : (h : ℕ) (v : Value) → value_step h (arrived v) ≡ value_step h v
unfolding value_step arrived
value_step-arrived h (arr o c end) = refl
value_step-arrived h (arr o c (item v vs)) = refl
value_step-arrived h v = refl

entry_step-arrived :
    (h : ℕ) (n : List ℕ) (t : ℕ) (v : Value) → entry_step h n t (arrived v) ≡ entry_step h n t v
unfolding entry_step
entry_step-arrived h n t v = rw (value_step-arrived _ v)

of_variables-moved :
    (h : ℕ) (es : List PrstEntry) → of_variables h (map moved es) ≡ of_variables h (map variable es)
unfolding of_variables
of_variables-moved h [] = refl
of_variables-moved h (e ∷ es) =
    ap (λ k. of_variables k (map moved es)) (entry_step-arrived h e.name e.declared_type e.value)
    ∙ of_variables-moved (entry_step h e.name e.declared_type e.value) es

-- The pool that is read back has the checksum of the pool that was written, so the comparison of
-- the handover accepts it. The conditions are those of the round trip.
pub checksum-deserialize :
    (h : Heap) (p q : PrstPool) (bytes : List ℕ)
    → ((n : ℕ) → h.grants n ≡ true)
    → IsValid p
    → All EntryFits p.entries
    → count p ≤ 65536
    → serialize true p ≡ some bytes
    → pool_checksum (deserialize h q bytes).0 ≡ pool_checksum p
unfolding pool_checksum
checksum-deserialize h p q bytes g v f n e =
    checksum_from_variables fnv_offset (deserialize h q bytes).0.entries
    ∙ ap (of_variables fnv_offset) (deserialize-serialize h p q bytes g v f n e).0
    ∙ of_variables-moved fnv_offset p.entries
    ∙ sym (checksum_from_variables fnv_offset p.entries)
