-- ===== src/Prst/Pool/Tests.antt =====
-- The pool on concrete variables.
use fluxa_lang.Base.{
  ℕ, ◌≡◌, ◌≢◌, refl, List, [], ◌∷◌, none, some, true, false, replicate, arith, inl, str_eq,
  if◌then◌else◌, ◌⊎◌, ◌≤◌, ◌<◌, codes,
}
use fluxa_lang.ErrStack.{err_reload, err_fluxa}
use fluxa_lang.Prst.Value.{int, float, string, deep_clone, shared}
use fluxa_lang.Prst.Pool.{
  Heap, PrstEntry, PrstPool, pool_set, set_existing, find, find_index, pool_get, invalidate,
  minus_one, count, next_cap, report, collision_message,
}
use fluxa_lang.Prst.Pool.Lookup.{lookup}
use fluxa_lang.Prst.Pool.Invariant.{IsName, IsValid, IsHeap, pool_set-IsValid}
use fluxa_lang.Prst.Pool.Update.{get-pool_set, pool_set_fails, init_of, initial}
use fluxa_lang.Prst.Pool.Remove.{get-invalidate, invalidate-IsValid}

abbrev pub test_heap : Heap
test_heap = record { grants = λ n. true; residue = λ n. replicate 256 0 }

pub test_heap-IsHeap : IsHeap test_heap
test_heap-IsHeap i = refl

-- The names "a" and "b".
abbrev pub name_a : List ℕ
name_a = 97 ∷ []

abbrev pub name_b : List ℕ
name_b = 98 ∷ []

pub name_a-IsName : IsName name_a
name_a-IsName = record { short = omega arith; no_zero = (omega arith, tt) }

pub name_b-IsName : IsName name_b
name_b-IsName = record { short = omega arith; no_zero = (omega arith, tt) }

-- `a` holds 7 and was declared as 5; `b` holds a text of one byte.
abbrev pub entry_a : PrstEntry
entry_a = record {
  name = name_a;
  slack = replicate 254 0;
  value = int 7;
  init_value = int 5;
  declared_type = 1;
  stack_offset = minus_one;
}

abbrev pub entry_b : PrstEntry
entry_b = record {
  name = name_b;
  slack = replicate 254 0;
  value = string (98 ∷ []);
  init_value = string [];
  declared_type = 4;
  stack_offset = 3;
}

abbrev pub two_variables : PrstPool
two_variables = record { entries = entry_a ∷ entry_b ∷ []; cap = 64 }

pub two_variables-IsValid : IsValid two_variables
unfolding lookup str_eq
two_variables-IsValid = record {
  room = omega arith;
  distinct = (refl, (refl, tt));
  all_entries = (
    record { name_ok = name_a-IsName; buffer = refl; typed = inl refl; init_typed = inl refl },
    (
      record { name_ok = name_b-IsName; buffer = refl; typed = inl refl; init_typed = inl refl },
      tt,
    ),
  );
}

abbrev a_is_9 : PrstPool
a_is_9 = record { entries = record entry_a { value = int 9 } ∷ entry_b ∷ []; cap = 64 }

set_a : pool_set test_heap two_variables name_a (int 9) none ≡ (a_is_9, some 0, none)
unfolding pool_set set_existing find find_index str_eq deep_clone
set_a = refl

get-pool_set_example :
    ((j : List ℕ)
      → pool_get a_is_9 j ≡ (
          if str_eq name_a j
          then some (deep_clone test_heap.grants (int 9))
          else pool_get two_variables j))
    × ((j : List ℕ)
        → init_of (lookup j a_is_9.entries) ≡ (
            if str_eq name_a j
            then some (initial test_heap (lookup name_a two_variables.entries) (int 9))
            else init_of (lookup j two_variables.entries)))
    × (((n : ℕ) → test_heap.grants n ≡ true)
        → shared (deep_clone test_heap.grants (int 9)) ≡ shared (int 9))
get-pool_set_example =
    get-pool_set test_heap two_variables a_is_9 name_a (int 9) none none 0 name_a-IsName set_a

pool_set_fails_example :
    ((e : PrstEntry)
      → lookup name_a two_variables.entries ≡ some e
      → e.declared_type ≢ 2
      → pool_set test_heap two_variables name_a (float 0) none ≡ (
        two_variables,
        none,
        report none err_reload (collision_message name_a e.declared_type 2),
      ))
    × ((e : PrstEntry)
        → lookup name_a two_variables.entries ≡ some e
        → e.declared_type ≡ 2
        → (i : ℕ) × ((pool_set test_heap two_variables name_a (float 0) none).1 ≡ some i))
    × (lookup name_a two_variables.entries ≡ none
        → two_variables.cap ≤ count two_variables
        → test_heap.grants (next_cap two_variables) ≡ false
        → pool_set test_heap two_variables name_a (float 0) none
          ≡ (two_variables, none, report none err_fluxa (codes "out of memory growing prst pool")))
    × (lookup name_a two_variables.entries ≡ none
        → (count two_variables < two_variables.cap)
          ⊎ (test_heap.grants (next_cap two_variables) ≡ true)
        → (pool_set test_heap two_variables name_a (float 0) none).1 ≡ some (count two_variables))
pool_set_fails_example = pool_set_fails test_heap two_variables name_a (float 0) none

pool_set-IsValid_example : IsValid (pool_set test_heap two_variables name_a (int 9) none).0
pool_set-IsValid_example =
    pool_set-IsValid test_heap two_variables name_a (int 9) none test_heap-IsHeap name_a-IsName
      two_variables-IsValid

get-invalidate_example :
    pool_get (invalidate two_variables name_a) name_b
    ≡ (if str_eq name_a name_b then none else pool_get two_variables name_b)
get-invalidate_example = get-invalidate two_variables name_a name_b two_variables-IsValid

invalidate-IsValid_example : IsValid (invalidate two_variables name_a)
invalidate-IsValid_example = invalidate-IsValid two_variables name_a two_variables-IsValid
