-- ===== src/Prst/Wire/Pools.antt =====
-- A pool that was serialised is read back.
use fluxa_lang.Base.{
  Bool, ℕ, ◌+◌, ◌≤◌, ◌≡◌, refl, sym, ap, ap₂, ◌∙◌, subst, List, [], ◌∷◌, ◌++◌, map, append_assoc,
  append-nil, none, some, true, le→ltb_false, length, arith, All, le_bytes, word_at_4,
  get_elem?-append_last, set-append_last,
}
use mathlib.Core.List.{map-append}
use mathlib.Core.Option.{some-injective}
use fluxa_lang.Prst.Value.{
  Value, string, arr, Items, end, item, size, deep_clone, clone_items, detect_type,
}
use fluxa_lang.Prst.Pool.{PrstEntry, PrstPool, Heap, count, modify, pool_init, new_entry}
use fluxa_lang.Prst.Pool.Lookup.{lookup, Distinct, lookup-append-All}
use fluxa_lang.Prst.Pool.Placement.{grown_cap, pool_set_new, new_entry_fields}
use fluxa_lang.Prst.Pool.Invariant.{IsName, IsEntry, IsValid, entries-pool_init}
use fluxa_lang.Prst.Wire.{
  ser_entries, serialize, deser_entries, deserialize, accepted, Outcome, WireEntry, restore,
  restore_at,
}
use fluxa_lang.Prst.Wire.Heads.{arrived, arrived_items}
use fluxa_lang.Prst.Wire.Entries.{EntryFits, sent, deser_entry-ser_entry}

-- `restore` of an entry with a new name, when the heap grants every array.
abbrev overwritten : WireEntry → PrstEntry → PrstEntry
overwritten w e = record e {
  declared_type = w.declared_type;
  stack_offset = w.stack_offset;
  init_value = w.init_value;
}

abbrev restored : Heap → ℕ → WireEntry → PrstEntry
restored h n w = overwritten w (new_entry h n w.name w.value)

restore_at_last :
    (w : WireEntry) (es : List PrstEntry) (e : PrstEntry) (cap : ℕ)
    → restore_at w (record { entries = es ++ e ∷ []; cap = cap }, some (length es), none)
      ≡ record { entries = es ++ overwritten w e ∷ []; cap = cap }
unfolding restore_at
restore_at_last w es e cap =
    rw (get_elem?-append_last es e, modify)
      (ap (λ l. record { entries = l; cap = cap }) (set-append_last es e (overwritten w e)))

restore_new :
    (h : Heap) (p : PrstPool) (w : WireEntry)
    → ((n : ℕ) → h.grants n ≡ true)
    → lookup w.name p.entries ≡ none
    → restore h p w
      ≡ record { entries = p.entries ++ restored h (count p) w ∷ []; cap = grown_cap p }
unfolding restore
restore_new h p w g l =
    ap (restore_at w) (pool_set_new h p w.name w.value none g l)
    ∙ restore_at_last w p.entries _ (grown_cap p)

-- What the program sees of an entry: all but the bytes behind its name.
pub record Variable : Type 0 where
  pub name : List ℕ
  pub value : Value
  pub init_value : Value
  pub declared_type : ℕ
  pub stack_offset : ℕ

abbrev pub variable : PrstEntry → Variable
variable e = record {
  name = e.name;
  value = e.value;
  init_value = e.init_value;
  declared_type = e.declared_type;
  stack_offset = e.stack_offset;
}

-- The variable after the way over the wire.
abbrev pub moved : PrstEntry → Variable
moved e = record (variable e) { value = arrived e.value; init_value = arrived e.init_value }

mutual
  unfolding arrived arrived_items deep_clone clone_items

  clone_arrived :
      (grants : ℕ → Bool) (v : Value)
      → ((n : ℕ) → grants n ≡ true)
      → deep_clone grants (arrived v) ≡ arrived v
  clone_arrived grants (arr o c end) g = refl
  clone_arrived grants (arr o c (item v vs)) g =
      rw (g (size (item (arrived v) (arrived_items vs)))) (
        ap₂ (λ x xs. arr true (detect_type (item (arrived v) (arrived_items vs)) + 1) (item x xs))
          (clone_arrived grants v g) (clone_arrived_items grants vs g))
  clone_arrived grants (string s) g = rw (g (length s + 1)) refl
  clone_arrived grants v g = refl

  clone_arrived_items :
      (grants : ℕ → Bool) (vs : Items)
      → ((n : ℕ) → grants n ≡ true)
      → clone_items grants (arrived_items vs) ≡ arrived_items vs
  clone_arrived_items grants end g = refl
  clone_arrived_items grants (item v vs) g =
      ap₂ item (clone_arrived grants v g) (clone_arrived_items grants vs g)

variable-restored :
    (h : Heap) (n : ℕ) (e : PrstEntry)
    → ((k : ℕ) → h.grants k ≡ true)
    → IsName e.name
    → variable (restored h n (sent e)) ≡ moved e
variable-restored h n e g v =
    let (name, value) = new_entry_fields h n e.name (arrived e.value) v in
    ap₂
      (λ m x. record {
        name = m;
        value = x;
        init_value = arrived e.init_value;
        declared_type = e.declared_type;
        stack_offset = e.stack_offset;
      })
      name (value ∙ clone_arrived h.grants e.value g)

-- What the loop makes of a pool and the entries that were written.
abbrev Receives : PrstPool → List PrstEntry → PrstPool × Outcome → Type 0
Receives p es (q, outcome) =
    (map variable q.entries ≡ map variable p.entries ++ map moved es) × (outcome ≡ accepted)

deser_entries-Receives :
    (h : Heap) (p : PrstPool) (es : List PrstEntry)
    → ((n : ℕ) → h.grants n ≡ true)
    → All IsEntry es
    → All EntryFits es
    → All (λ e. lookup e.name p.entries ≡ none) es
    → Distinct es
    → Receives p es (deser_entries h p (length es) (ser_entries es))
unfolding deser_entries ser_entries
deser_entries-Receives h p [] g v f n d = (sym (append-nil _), refl)
deser_entries-Receives h p (e ∷ es) g v f n d =
    rw (deser_entry-ser_entry e (ser_entries es) v.0 f.0, deser_entries)
      (rw (restore_new h p (sent e) g n.0) (
        next (deser_entries h q (length es) (ser_entries es))
          (deser_entries-Receives h q es g v.1 f.1 fresh d.1)))
  where
    x : PrstEntry
    x = restored h (count p) (sent e)

    q : PrstPool
    q = record { entries = p.entries ++ x ∷ []; cap = grown_cap p }

    named : x.name ≡ e.name
    named = (new_entry_fields h (count p) e.name _ v.0.name_ok).0

    fresh : All (λ (y : PrstEntry). lookup y.name q.entries ≡ none) es
    fresh = lookup-append-All es p.entries x (rw named d.0) n.1

    order : map variable q.entries ++ map moved es ≡ map variable p.entries ++ map moved (e ∷ es)
    order =
        ap (λ l. l ++ map moved es) (map-append variable p.entries (x ∷ []))
        ∙ append_assoc (map variable p.entries) (variable x ∷ []) (map moved es)
        ∙ ap (λ y. map variable p.entries ++ y ∷ map moved es)
            (variable-restored h (count p) e g v.0.name_ok)

    next : (s : PrstPool × Outcome) → Receives q es s → Receives p (e ∷ es) s
    next s r = (r.0 ∙ order, r.1)

All-new : (es : List PrstEntry) → All (λ (e : PrstEntry). lookup e.name [] ≡ none) es
unfolding lookup
All-new [] = tt
All-new (e ∷ es) = (refl, All-new es)

written_back :
    (h : Heap) (p q : PrstPool)
    → ((n : ℕ) → h.grants n ≡ true)
    → IsValid p
    → All EntryFits p.entries
    → count p ≤ 65536
    → Receives
        (pool_init h)
        p.entries
        (deserialize h q (le_bytes 4 (count p) ++ ser_entries p.entries))
unfolding deserialize
written_back h p q g v f n =
    rw (le→ltb_false (length (le_bytes 4 (count p) ++ ser_entries p.entries)) 4 (omega arith)) (
      rw (word_at_4 (count p) (ser_entries p.entries) (omega arith)) (
        rw (le→ltb_false 65536 (count p) n) (
          deser_entries-Receives h (pool_init h) p.entries g v.all_entries f
            (rw (entries-pool_init h) (All-new p.entries)) v.distinct)))

-- A valid pool that `prst_pool_serialize` wrote is accepted by `prst_pool_deserialize`, and gives
-- the same variables in the same order: names, types and offsets as they were, values and
-- initialisers as they arrive. The heap must grant every array, the values must be such that the
-- wire carries them, and there must be at most 65536 variables.
pub deserialize-serialize :
    (h : Heap) (p q : PrstPool) (bytes : List ℕ)
    → ((n : ℕ) → h.grants n ≡ true)
    → IsValid p
    → All EntryFits p.entries
    → count p ≤ 65536
    → serialize true p ≡ some bytes
    → (map variable (deserialize h q bytes).0.entries ≡ map moved p.entries)
      × ((deserialize h q bytes).1 ≡ accepted)
unfolding serialize
deserialize-serialize h p q bytes g v f n e =
    let got = written_back h p q g v f n in
    subst
      (λ b.
        (map variable (deserialize h q b).0.entries ≡ map moved p.entries)
        × ((deserialize h q b).1 ≡ accepted))
      (some-injective _ _ e)
      (got.0 ∙ ap (λ l. map variable l ++ map moved p.entries) (entries-pool_init h), got.1)
