-- ===== src/Prst/Pool/Update.antt =====
-- What `prst_pool_set` does to the variables, on every branch.
use fluxa_lang.Base.{
  ℕ, ◌≤◌, ◌<◌, ◌≡◌, ◌≢◌, refl, ◌∙◌, List, Option, none, some, true, false, ltb, ◌==◌, if◌then◌else◌,
  arith, Bool-cases, str_eq, take_all, inl, inr, ◌⊎◌, codes,
}
use mathlib.Core.Path.{subst}
use fluxa_lang.ErrStack.{ErrStack, err_reload, err_fluxa}
use fluxa_lang.Prst.Value.{Value, val_type, deep_clone, shared, shared-deep_clone}
use fluxa_lang.Prst.Pool.{
  PrstEntry, PrstPool, Heap, count, find, find_index, pool_set, set_existing, set_new, next_cap,
  new_entry, append_entry, pool_get, report, collision_message, SetResult,
}
use fluxa_lang.Prst.Pool.Lookup.{
  lookup, find_index-Finds, find_index_of_lookup, find_index_of_none, lookup-set, lookup-append,
}
use fluxa_lang.Prst.Pool.Invariant.{IsName, pool_set_cases}

-- The current value and the declared initialiser of an entry.
abbrev pub value_of : Option PrstEntry → Option Value
value_of none = none
value_of (some e) = some e.value

abbrev pub init_of : Option PrstEntry → Option Value
init_of none = none
init_of (some e) = some e.init_value

-- `prst_pool_get` reads the value of the entry with the name.
pub pool_get_lem :
    (p : PrstPool) (name : List ℕ) → pool_get p name ≡ value_of (lookup name p.entries)
unfolding pool_get
pool_get_lem p name = elim (find_index-Finds name p.entries) [
  | inl (f, l) ↦ rw (f, find, pool_get, l)
  | inr (i, e, f, l, g, n) ↦ rw (f, find, pool_get, l) (rw g)
]

-- The declared initialiser that a call leaves: that of the entry, or the value of a new one.
abbrev pub initial : Heap → Option PrstEntry → Value → Value
initial h none v = deep_clone h.grants v
initial h (some e) v = e.init_value

-- After a call that returned an index the map has the value under the name, with its declared
-- initialiser, and is otherwise as it was. After one that returned -1 the pool is as it was.
abbrev pub Stores : Heap → PrstPool → List ℕ → Value → SetResult → Type 0
Stores h p name v (q, none, err) = q ≡ p
Stores h p name v (q, some i, err) =
    (e : PrstEntry) × (e.value ≡ deep_clone h.grants v)
    × (e.init_value ≡ initial h (lookup name p.entries) v)
    × ((j : List ℕ) → lookup j q.entries ≡ (if str_eq name j then some e else lookup j p.entries))

set_existing-Stores :
    (h : Heap) (p : PrstPool) (i : ℕ) (e : PrstEntry) (name : List ℕ) (v : Value)
    (err : Option ErrStack)
    → find_index name p.entries ≡ some i
    → lookup name p.entries ≡ some e
    → e.name ≡ name
    → Stores h p name v (set_existing h p i e name v err)
unfolding set_existing
set_existing-Stores h p i e name v err f l m = elim (Bool-cases (e.declared_type == val_type v)) [
  | inl same ↦ rw same (
    record e { value = deep_clone h.grants v },
    refl,
    rw l,
    λ j. lookup-set name j p.entries i (record e { value = deep_clone h.grants v }) f m,
  )
  | inr other ↦ rw other
]

append_entry-Stores :
    (h : Heap) (p : PrstPool) (cap : ℕ) (name : List ℕ) (v : Value) (err : Option ErrStack)
    → IsName name
    → lookup name p.entries ≡ none
    → Stores h p name v (append_entry h (record p { cap = cap }) name v err)
unfolding append_entry
append_entry-Stores h p cap name v err n l =
    (e, value, init, λ j. lookup-append j p.entries e (rw named l) ∙ rw named)
  where
    e : PrstEntry
    e = new_entry h (count p) name v

    named : e.name ≡ name
    named = unfold new_entry in take_all 255 name (omega (arith, n.short))

    value : e.value ≡ deep_clone h.grants v
    value = unfold new_entry in refl

    init : e.init_value ≡ initial h (lookup name p.entries) v
    init = rw l (unfold new_entry in refl)

set_new-Stores :
    (h : Heap) (p : PrstPool) (name : List ℕ) (v : Value) (err : Option ErrStack)
    → IsName name
    → lookup name p.entries ≡ none
    → Stores h p name v (set_new h p name v err)
unfolding set_new
set_new-Stores h p name v err n l = elim (Bool-cases (ltb (count p) p.cap)) [
  | inl fits ↦ rw fits (append_entry-Stores h p p.cap name v err n l)
  | inr full ↦ elim (Bool-cases (h.grants (next_cap p))) [
    | inl grown ↦ rw (full, grown) (append_entry-Stores h p (next_cap p) name v err n l)
    | inr short ↦ rw (full, short)
  ]
]

pool_set-Stores :
    (h : Heap) (p : PrstPool) (name : List ℕ) (v : Value) (err : Option ErrStack)
    → IsName name
    → Stores h p name v (pool_set h p name v err)
pool_set-Stores h p name v err n =
    pool_set_cases (Stores h p name v) h p name v err
      (λ i e f l _ m. set_existing-Stores h p i e name v err f l m)
      (λ l. set_new-Stores h p name v err n l)

-- A call of `prst_pool_set` that returns an index stores the copy of the value that
-- `prst_value_deep_clone` makes under its name, leaves every other variable as it was, and keeps the
-- declared initialiser of a variable that was there; a new variable has the copy as its initialiser,
-- too. If the heap grants every request, the copy differs from the value in nothing but the ownership
-- of arrays. The name must be a C string shorter than the name buffer.
pub get-pool_set :
    (h : Heap) (p q : PrstPool) (name : List ℕ) (v : Value) (err err' : Option ErrStack) (i : ℕ)
    → IsName name
    → pool_set h p name v err ≡ (q, some i, err')
    → ((j : List ℕ)
        → pool_get q j ≡ (if str_eq name j then some (deep_clone h.grants v) else pool_get p j))
      × ((j : List ℕ)
          → init_of (lookup j q.entries) ≡ (
              if str_eq name j
              then some (initial h (lookup name p.entries) v)
              else init_of (lookup j p.entries)))
      × (((n : ℕ) → h.grants n ≡ true) → shared (deep_clone h.grants v) ≡ shared v)
get-pool_set h p q name v err err' i n e =
    finish (subst (Stores h p name v) e (pool_set-Stores h p name v err n))
  where
    finish :
        Stores h p name v (q, some i, err')
        → ((j : List ℕ)
            → pool_get q j ≡ (if str_eq name j then some (deep_clone h.grants v) else pool_get p j))
          × ((j : List ℕ)
              → init_of (lookup j q.entries) ≡ (
                  if str_eq name j
                  then some (initial h (lookup name p.entries) v)
                  else init_of (lookup j p.entries)))
          × (((n : ℕ) → h.grants n ≡ true) → shared (deep_clone h.grants v) ≡ shared v)
    finish (x, xv, xi, at) = (
      λ j. rw (pool_get_lem q j, pool_get_lem p j, at j) (ground (arith, xv)),
      λ j. rw (at j) (ground (arith, xi)),
      shared-deep_clone h.grants v,
    )

-- A call of `prst_pool_set` fails exactly when the variable is there with another type, or when it
-- is new and the array is full and cannot grow; the pool is then as it was, and the error stack of
-- the caller, if there is one, has the report of a collision or of the lack of memory.
pub pool_set_fails :
    (h : Heap) (p : PrstPool) (name : List ℕ) (v : Value) (err : Option ErrStack)
    → ((e : PrstEntry)
        → lookup name p.entries ≡ some e
        → e.declared_type ≢ val_type v
        → pool_set h p name v err
          ≡ (p, none, report err err_reload (collision_message name e.declared_type (val_type v))))
      × ((e : PrstEntry)
          → lookup name p.entries ≡ some e
          → e.declared_type ≡ val_type v
          → (i : ℕ) × ((pool_set h p name v err).1 ≡ some i))
      × (lookup name p.entries ≡ none
          → p.cap ≤ count p
          → h.grants (next_cap p) ≡ false
          → pool_set h p name v err
            ≡ (p, none, report err err_fluxa (codes "out of memory growing prst pool")))
      × (lookup name p.entries ≡ none
          → (count p < p.cap) ⊎ (h.grants (next_cap p) ≡ true)
          → (pool_set h p name v err).1 ≡ some (count p))
unfolding pool_set find report
pool_set_fails h p name v err = (
  λ e l t.
      let (i, f, g) = find_index_of_lookup name p.entries e l in
      rw (f, find, pool_set) (rw g (unfold set_existing in ground arith)),
  λ e l t.
      let (i, f, g) = find_index_of_lookup name p.entries e l in
      (i, rw (f, find, pool_set) (rw g (unfold set_existing in ground arith))),
  λ l full no'.
      rw (find_index_of_none name p.entries l, find, pool_set) (unfold set_new in ground arith),
  λ l room.
      rw (find_index_of_none name p.entries l, find, pool_set)
        (unfold set_new append_entry in ground arith),
)
