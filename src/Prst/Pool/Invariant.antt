-- ===== src/Prst/Pool/Invariant.antt =====
-- The invariant of the pool, kept by every operation.
use fluxa_lang.Base.{
  ℕ, ◌+◌, ◌≤◌, ◌<◌, ◌≡◌, refl, ◌⊎◌, inl, inr, List, [], ◌∷◌, Option, none, some, ltb, ltb→lt, ◌==◌,
  ◌∙◌, sym, length, get_elem?, arith, Bool-cases, All, All-append, All-set, All-get_elem?, NoZero,
  length-append, length-set, length-drop, take_all,
}
use fluxa_lang.ErrStack.{ErrStack}
use fluxa_lang.Prst.Value.{Value, nil, val_type, deep_clone, type-deep_clone}
use fluxa_lang.Prst.Pool.{
  PrstEntry, PrstPool, Heap, SetResult, count, name_size, find_index, find, pool_init, pool_set,
  set_existing, set_new, next_cap, new_entry, append_entry,
}
use fluxa_lang.Prst.Pool.Lookup.{lookup, Distinct, find_index-Finds, set-Distinct, append-Distinct}

-- A name that fits the buffer of an entry with its terminator.
pub record IsName (name : List ℕ) : Type 0 where
  pub short : length name < name_size
  pub no_zero : NoZero name

-- The buffer behind an entry is full, and its values have the declared type. A value that is no
-- scalar and no string may have been replaced by nil.
abbrev pub HasType : ℕ → Value → Type 0
HasType t v = (val_type v ≡ t) ⊎ ((v ≡ nil) × (4 < t))

pub record IsEntry (e : PrstEntry) : Type 0 where
  pub name_ok : IsName e.name
  pub buffer : length e.name + 1 + length e.slack ≡ name_size
  pub typed : HasType e.declared_type e.value
  pub init_typed : HasType e.declared_type e.init_value

pub record IsValid (p : PrstPool) : Type 0 where
  pub room : count p ≤ p.cap
  pub distinct : Distinct p.entries
  pub all_entries : All IsEntry p.entries

-- Buffers of the heap are as long as the struct says.
abbrev pub IsHeap : Heap → Type 0
IsHeap h = (i : ℕ) → length (h.residue i) ≡ name_size

pub pool_init-IsValid : (h : Heap) → IsValid (pool_init h)
unfolding pool_init
pool_init-IsValid h = record { room = ground arith; distinct = tt; all_entries = tt }

pub entries-pool_init : (h : Heap) → (pool_init h).entries ≡ []
unfolding pool_init
entries-pool_init h = refl

-- To prove something of `prst_pool_set`, prove it where the name is there and where it is new.
pub pool_set_cases {ℓ} :
    (P : SetResult → Type ℓ) (h : Heap) (p : PrstPool) (name : List ℕ) (v : Value)
    (err : Option ErrStack)
    → ((i : ℕ) (e : PrstEntry)
        → find_index name p.entries ≡ some i
        → lookup name p.entries ≡ some e
        → get_elem? p.entries i ≡ some e
        → e.name ≡ name
        → P (set_existing h p i e name v err))
    → (lookup name p.entries ≡ none → P (set_new h p name v err))
    → P (pool_set h p name v err)
unfolding pool_set
pool_set_cases P h p name v err old new = elim (find_index-Finds name p.entries) [
  | inl (f, l) ↦ rw (f, find, pool_set) (new l)
  | inr (i, e, f, l, g, n) ↦ rw (f, find, pool_set) (rw g (old i e f l g n))
]

new_entry-IsEntry :
    (h : Heap) (i : ℕ) (name : List ℕ) (v : Value)
    → IsHeap h
    → IsName name
    → IsEntry (new_entry h i name v)
unfolding new_entry
new_entry-IsEntry h i name v r n = rw (take_all 255 name (omega arith)) (record {
  name_ok = n;
  buffer = omega (arith, length-drop (length name + 1) (h.residue i), r i, n.short);
  typed = inl (type-deep_clone h.grants v);
  init_typed = inl (type-deep_clone h.grants v);
})

set_existing-IsValid :
    (h : Heap) (p : PrstPool) (i : ℕ) (e : PrstEntry) (name : List ℕ) (v : Value)
    (err : Option ErrStack)
    → find_index name p.entries ≡ some i
    → get_elem? p.entries i ≡ some e
    → e.name ≡ name
    → IsValid p
    → IsValid (set_existing h p i e name v err).0
unfolding set_existing
set_existing-IsValid h p i e name v err f g n w =
    elim (Bool-cases (e.declared_type == val_type v)) [
      | inl same ↦ rw same (record {
        room = rw (length-set p.entries i e') w.room;
        distinct = set-Distinct name p.entries i e' f n w.distinct;
        all_entries = All-set IsEntry p.entries i e' w.all_entries (written (ground arith));
      })
      | inr other ↦ rw other w
    ]
  where
    e' : PrstEntry
    e' = record e { value = deep_clone h.grants v }

    old : IsEntry e
    old = All-get_elem? IsEntry p.entries i e w.all_entries g

    written : e.declared_type ≡ val_type v → IsEntry e'
    written t = record {
      name_ok = old.name_ok;
      buffer = old.buffer;
      typed = inl (type-deep_clone h.grants v ∙ sym t);
      init_typed = old.init_typed;
    }

append_entry-IsValid :
    (h : Heap) (p : PrstPool) (name : List ℕ) (v : Value) (err : Option ErrStack)
    → IsHeap h
    → IsName name
    → lookup name p.entries ≡ none
    → count p < p.cap
    → Distinct p.entries
    → All IsEntry p.entries
    → IsValid (append_entry h p name v err).0
unfolding append_entry
append_entry-IsValid h p name v err hh n l r d a = record {
  room = omega (arith, length-append p.entries (e ∷ []));
  distinct = append-Distinct p.entries e (rw named l) d;
  all_entries = All-append IsEntry p.entries (e ∷ []) a (new_entry-IsEntry h _ name v hh n, tt);
}
  where
    e : PrstEntry
    e = new_entry h (count p) name v

    named : e.name ≡ name
    named = unfold new_entry in take_all 255 name (omega (arith, n.short))

set_new-IsValid :
    (h : Heap) (p : PrstPool) (name : List ℕ) (v : Value) (err : Option ErrStack)
    → IsHeap h
    → IsName name
    → lookup name p.entries ≡ none
    → IsValid p
    → IsValid (set_new h p name v err).0
unfolding set_new
set_new-IsValid h p name v err hh n l w = elim (Bool-cases (ltb (count p) p.cap)) [
  | inl fits ↦
      rw fits
        (append_entry-IsValid h p name v err hh n l (ltb→lt _ _ fits) w.distinct w.all_entries)
  | inr full ↦ elim (Bool-cases (h.grants (next_cap p))) [
    | inl yes' ↦
        rw (full, yes')
          (append_entry-IsValid h (record p { cap = next_cap p }) name v err hh n l
            (unfold next_cap in ground (arith, w.room)) w.distinct w.all_entries)
    | inr no' ↦ rw (full, no') w
  ]
]

-- `prst_pool_set` keeps the invariant, whether it succeeds or not: the entries fit the array, no
-- two have one name, every name fits its buffer, and every value has its declared type or, where
-- that is no scalar and no string, is nil. The name must be a C string shorter than the buffer.
pub pool_set-IsValid :
    (h : Heap) (p : PrstPool) (name : List ℕ) (v : Value) (err : Option ErrStack)
    → IsHeap h
    → IsName name
    → IsValid p
    → IsValid (pool_set h p name v err).0
pool_set-IsValid h p name v err hh n w =
    pool_set_cases (λ r. IsValid r.0) h p name v err
      (λ i e f _ g m. set_existing-IsValid h p i e name v err f g m w)
      (λ l. set_new-IsValid h p name v err hh n l w)
