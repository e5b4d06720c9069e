-- ===== src/Prst/Pool/Placement.antt =====
-- Where `prst_pool_set` puts a value, and what it makes of a new name.
use fluxa_lang.Base.{
  ℕ, ◌≡◌, refl, List, [], ◌∷◌, ◌++◌, Option, none, some, true, ltb, ◌==◌, if◌then◌else◌, get_elem?,
  arith, Bool-cases, take_all, get_elem?-set-some, get_elem?-append_last, inl, inr,
}
use fluxa_lang.ErrStack.{ErrStack}
use fluxa_lang.Prst.Value.{Value, val_type, deep_clone}
use fluxa_lang.Prst.Pool.{
  PrstEntry, PrstPool, Heap, count, find, pool_set, set_existing, set_new, next_cap, new_entry,
  append_entry, SetResult,
}
use fluxa_lang.Prst.Pool.Lookup.{lookup, find_index_of_none}
use fluxa_lang.Prst.Pool.Invariant.{IsName, pool_set_cases}

-- Where `prst_pool_set` says that it put the value, it stands.
abbrev pub Placed : Heap → Value → SetResult → Type 0
Placed h v (q, none, err) = Unit {0}
Placed h v (q, some i, err) =
    (e : PrstEntry) × (get_elem? q.entries i ≡ some e) × (e.value ≡ deep_clone h.grants v)

append_entry-Placed :
    (h : Heap) (p : PrstPool) (name : List ℕ) (v : Value) (err : Option ErrStack)
    → Placed h v (append_entry h p name v err)
unfolding append_entry
append_entry-Placed h p name v err =
    (new_entry h (count p) name v, get_elem?-append_last p.entries _, unfold new_entry in refl)

pub pool_set-Placed :
    (h : Heap) (p : PrstPool) (name : List ℕ) (v : Value) (err : Option ErrStack)
    → Placed h v (pool_set h p name v err)
pool_set-Placed h p name v err =
    pool_set_cases (Placed h v) h p name v err (λ i e _ _ g _. old i e g) (λ _. new)
  where
    old :
        (i : ℕ) (e : PrstEntry)
        → get_elem? p.entries i ≡ some e
        → Placed h v (set_existing h p i e name v err)
    old i e g =
        unfold set_existing in
        elim (Bool-cases (e.declared_type == val_type v)) [
          | inl same ↦ rw same (
            record e { value = deep_clone h.grants v },
            get_elem?-set-some p.entries i e _ g,
            refl,
          )
          | inr other ↦ rw other tt
        ]

    new : Placed h v (set_new h p name v err)
    new =
        unfold set_new in
        elim (Bool-cases (ltb (count p) p.cap)) [
          | inl fits ↦ rw fits (append_entry-Placed h p name v err)
          | inr full ↦ elim (Bool-cases (h.grants (next_cap p))) [
            | inl grown ↦
                rw (full, grown) (append_entry-Placed h (record p { cap = next_cap p }) name v err)
            | inr short ↦ rw (full, short) tt
          ]
        ]

-- The capacity after a new entry went in.
abbrev pub grown_cap : PrstPool → ℕ
grown_cap p = if ltb (count p) p.cap then p.cap else next_cap p

-- A call for a new name on a heap that grants every array.
pub pool_set_new :
    (h : Heap) (p : PrstPool) (name : List ℕ) (v : Value) (err : Option ErrStack)
    → ((n : ℕ) → h.grants n ≡ true)
    → lookup name p.entries ≡ none
    → pool_set h p name v err ≡ (
      record { entries = p.entries ++ new_entry h (count p) name v ∷ []; cap = grown_cap p },
      some (count p),
      err,
    )
unfolding pool_set find
pool_set_new h p name v err g l =
    rw (find_index_of_none name p.entries l, find, pool_set)
      (unfold set_new append_entry in
        elim (Bool-cases (ltb (count p) p.cap)) [
          | inl fits ↦ rw fits
          | inr full ↦ rw (full, g (next_cap p))
        ])

pub new_entry_fields :
    (h : Heap) (i : ℕ) (name : List ℕ) (v : Value)
    → IsName name
    → ((new_entry h i name v).name ≡ name) × ((new_entry h i name v).value ≡ deep_clone h.grants v)
unfolding new_entry
new_entry_fields h i name v n = (take_all 255 name (omega (arith, n.short)), refl)
