-- ===== src/Prst/Pool.antt =====
-- src/prst_pool.h: the pool of persistent variables.
pub mod Lookup
pub mod Invariant
pub mod Update
pub mod Replace
pub mod Placement
pub mod Remove
pub mod Tests
use fluxa_lang.Base.{
  ℕ, zero, suc, ◌+◌, ◌-◌, ◌*◌, ◌^◌, ◌≡◌, refl, List, [], ◌∷◌, ◌++◌, Option, none, some, Bool, true,
  false, ltb, ◌==◌, if◌then◌else◌, length, get_elem?, set, take, drop, str_eq, codes, print_int,
  swap_remove,
}
use mathlib.Core.Option
use fluxa_lang.ErrStack
use fluxa_lang.ErrStack.{ErrStack, err_reload, err_fluxa}
use fluxa_lang.Prst.Value.{Value, val_type, deep_clone}

-- `PrstEntry`. The 256 bytes of its name buffer are the name, a zero, and the bytes that stand
-- behind it.
pub record PrstEntry : Type 0 where
  pub name : List ℕ
  pub slack : List ℕ
  pub value : Value
  pub init_value : Value
  pub declared_type : ℕ
  pub stack_offset : ℕ

-- `PrstPool`; `count` is the number of the entries.
pub record PrstPool : Type 0 where
  pub entries : List PrstEntry
  pub cap : ℕ

abbrev pub count : PrstPool → ℕ
count p = length p.entries

abbrev pub init_cap : ℕ
init_cap = 64

abbrev pub name_size : ℕ
name_size = 256

-- The `int` -1.
abbrev pub minus_one : ℕ
minus_one = 2 ^ 32 - 1

-- What the C library's heap does, which the program cannot know: whether it grants a request for so
-- many entries, values or characters, and which bytes stand in the name buffer of an entry that is not written yet.
pub record Heap : Type 0 where
  pub grants : ℕ → Bool
  pub residue : ℕ → List ℕ

-- `prst_pool_init`
pub pool_init : Heap → PrstPool
pool_init h = record { entries = []; cap = if h.grants init_cap then init_cap else 0 }

-- `prst_pool_free`
pub pool_free : PrstPool → PrstPool
pool_free p = record { entries = []; cap = 0 }

-- The loop of `prst_pool_find`.
pub find_index : List ℕ → List PrstEntry → Option ℕ
find_index name [] = none
find_index name (e ∷ es) =
    if str_eq e.name name then some 0 else Option.map suc (find_index name es)

-- `prst_pool_find`; `none` is -1.
pub find : PrstPool → List ℕ → Option ℕ
unfolding find_index
find p name = find_index name p.entries

-- The text of a type collision, cut to a buffer of 280 bytes.
pub collision_message : List ℕ → ℕ → ℕ → List ℕ
collision_message name was now = take 279 (
    codes "prst collision: '"
    ++ (name
        ++ (codes "' was type "
            ++ (print_int was
                ++ (codes ", reload attempts type "
                    ++ (print_int now
                        ++ (codes " "
                            ++ (0xe2 ∷ 0x80 ∷ 0x94 ∷ [] ++ codes " state preserved"))))))))

-- `if (err) errstack_push(err, kind, message, "<prst>", 0)`
pub report : Option ErrStack → ErrStack.ErrKind → List ℕ → Option ErrStack
report none kind message = none
report (some s) kind message = some (ErrStack.push s kind (some message) (some (codes "<prst>")) 0)

-- What `prst_pool_set` leaves: the pool, the index (`none` is -1) and the caller's error stack.
abbrev pub SetResult : Type 0
SetResult = PrstPool × Option ℕ × Option ErrStack

-- The branch of `prst_pool_set` for a name that is there, at its entry.
pub set_existing : Heap → PrstPool → ℕ → PrstEntry → List ℕ → Value → Option ErrStack → SetResult
set_existing h p i e name v err =
    if e.declared_type == val_type v
    then (
      record p { entries = set p.entries i (record e { value = deep_clone h.grants v }) },
      some i,
      err,
    )
    else (p, none, report err err_reload (collision_message name e.declared_type (val_type v)))

-- Entry `n`. The name buffer after the copy: at most 255 bytes of the name, a zero, and what stood there.
pub new_entry : Heap → ℕ → List ℕ → Value → PrstEntry
new_entry h n name v = record {
  name = take (name_size - 1) name;
  slack = drop (length (take (name_size - 1) name) + 1) (h.residue n);
  value = deep_clone h.grants v;
  init_value = deep_clone h.grants v;
  declared_type = val_type v;
  stack_offset = minus_one;
}

-- The end of `prst_pool_set`: the new entry goes behind the others.
pub append_entry : Heap → PrstPool → List ℕ → Value → Option ErrStack → SetResult
append_entry h p name v err =
    (record p { entries = p.entries ++ new_entry h (count p) name v ∷ [] }, some (count p), err)

-- `p->cap > 0 ? p->cap * 2 : PRST_POOL_INIT_CAP`
pub next_cap : PrstPool → ℕ
next_cap p = if ltb 0 p.cap then p.cap * 2 else init_cap

-- The branch of `prst_pool_set` for a new name, with the growth of the array.
pub set_new : Heap → PrstPool → List ℕ → Value → Option ErrStack → SetResult
set_new h p name v err =
    if ltb (count p) p.cap
    then append_entry h p name v err
    else if h.grants (next_cap p)
    then append_entry h (record p { cap = next_cap p }) name v err
    else (p, none, report err err_fluxa (codes "out of memory growing prst pool"))

-- `prst_pool_set`. The entry at the index that `find` gives is there; the other case is not met.
pub pool_set : Heap → PrstPool → List ℕ → Value → Option ErrStack → SetResult
unfolding find
pool_set h p name v err = elim (find p name) [
  | none ↦ set_new h p name v err
  | some i ↦ elim (get_elem? p.entries i) [
    | none ↦ (p, none, err)
    | some e ↦ set_existing h p i e name v err
  ]
]

-- Writing one entry back.
abbrev pub modify : PrstPool → ℕ → (PrstEntry → PrstEntry) → PrstPool
modify p i f = elim (get_elem? p.entries i) [
  | none ↦ p
  | some e ↦ record p { entries = set p.entries i (f e) }
]

-- `prst_pool_set_offset`
pub set_offset : PrstPool → List ℕ → ℕ → PrstPool
unfolding find
set_offset p name offset = elim (find p name) [
  | none ↦ p
  | some i ↦ modify p i (λ e. record e { stack_offset = offset })
]

-- `prst_pool_get`
pub pool_get : PrstPool → List ℕ → Option Value
unfolding find
pool_get p name = elim (find p name) [
  | none ↦ none
  | some i ↦ Option.map (λ (e : PrstEntry). e.value) (get_elem? p.entries i)
]

-- `prst_pool_has`
pub has : PrstPool → List ℕ → Bool
unfolding find
has p name = elim (find p name) [ none ↦ false | some i ↦ true ]

-- `prst_pool_invalidate`
pub invalidate : PrstPool → List ℕ → PrstPool
unfolding find
invalidate p name = elim (find p name) [
  | none ↦ p
  | some i ↦ record p { entries = swap_remove p.entries i }
]
