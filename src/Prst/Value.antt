-- ===== src/Prst/Value.antt =====
-- `Value` of src/scope.h, as far as the pool of persistent variables copies and stores it.
-- A `long` is its 64-bit pattern, a `double` the 64 bits of its representation, an `int` its 32-bit
-- pattern, and a pointer that is only passed on is its address. A string is its bytes up to the
-- terminator; a NULL string, or NULL array data, is read as an empty one, since every function
-- modelled here treats the two alike.
use fluxa_lang.Base.{
  ℕ, suc, ◌+◌, ◌≡◌, refl, List, [], Bool, true, false, ◌==◌, if◌then◌else◌, length, Bool-cases, inl,
  inr,
}

mutual
  pub data Value : Type 0 where
    nil : Value
    int float bool : ℕ → Value
    string : List ℕ → Value
    func block_inst err_stack dyn ptr : ℕ → Value
    arr : Bool → ℕ → Items → Value

  -- The elements of a `FluxaArr`. Its `owned` word is the flag of bit 0 and the cached element type
  -- of the bits above.
  pub data Items : Type 0 where
    end : Items
    item : Value → Items → Items

-- `ValType`, by the enumeration's numbers.
abbrev pub type_nil : ℕ
type_nil = 0

abbrev pub type_dyn : ℕ
type_dyn = 9

abbrev pub type_arr : ℕ
type_arr = 7

abbrev pub val_type : Value → ℕ
val_type nil = 0
val_type (int i) = 1
val_type (float f) = 2
val_type (bool b) = 3
val_type (string s) = 4
val_type (func f) = 5
val_type (block_inst b) = 6
val_type (arr o c vs) = 7
val_type (err_stack e) = 8
val_type (dyn d) = 9
val_type (ptr p) = 10

-- `size` of an array.
abbrev pub size : Items → ℕ
size end = 0
size (item v vs) = suc (size vs)

-- The loop of `fluxa_arr_detect_type`, from the type found so far.
detect_from : ℕ → Items → ℕ
detect_from found end = found
detect_from found (item v vs) =
    let t = val_type v in
    let same = detect_from found vs in
    let first = detect_from t vs in
    if t == type_nil
    then same
    else if found == type_nil
    then first
    else if found == t
    then same
    else type_dyn

-- `fluxa_arr_detect_type`
pub detect_type : Items → ℕ
unfolding detect_from
detect_type vs = detect_from type_nil vs

-- `prst_value_deep_clone`: a copy that shares nothing with the source. `grants` says which requests
-- the heap grants, by the number of elements or of bytes: an array that gets no memory is copied as an
-- empty one, and a string as NULL. Of a copy that is made only the ownership flags differ.
unfoldable mutual
  pub deep_clone : (ℕ → Bool) → Value → Value
  deep_clone grants (string s) = string (if grants (length s + 1) then s else [])
  deep_clone grants (arr o c end) = arr o c end
  deep_clone grants (arr o c (item v vs)) =
      let copy = item (deep_clone grants v) (clone_items grants vs) in
      elim (grants (size (item v vs))) [ true ↦ arr true c copy | false ↦ arr o c end ]
  deep_clone grants v = v

  pub clone_items : (ℕ → Bool) → Items → Items
  clone_items grants end = end
  clone_items grants (item v vs) = item (deep_clone grants v) (clone_items grants vs)

pub type-deep_clone : (grants : ℕ → Bool) (v : Value) → val_type (deep_clone grants v) ≡ val_type v
unfolding deep_clone
type-deep_clone grants (arr o c end) = refl
type-deep_clone grants (arr o c (item v vs)) = elim (Bool-cases (grants (size (item v vs)))) [
  | inl granted ↦ rw (granted, deep_clone) refl
  | inr denied ↦ rw (denied, deep_clone) refl
]
type-deep_clone grants v = refl

-- A value with every ownership flag clear.
abbrev mutual
  pub shared : Value → Value
  shared (arr o c vs) = arr false c (shared_items vs)
  shared v = v

  pub shared_items : Items → Items
  shared_items end = end
  shared_items (item v vs) = item (shared v) (shared_items vs)

mutual
  unfolding deep_clone clone_items

  -- A copy with enough memory differs in nothing but the ownership.
  shared_clone :
      (grants : ℕ → Bool) (v : Value)
      → ((n : ℕ) → grants n ≡ true)
      → shared (deep_clone grants v) ≡ shared v
  shared_clone grants (string s) g = rw (g (length s + 1)) refl
  shared_clone grants (arr o c end) g = refl
  shared_clone grants (arr o c (item v vs)) g =
      rw (g (size (item v vs)), deep_clone)
        (λ i. arr false c (item (shared_clone grants v g i) (shared_clone_items grants vs g i)))
  shared_clone grants v g = refl

  shared_clone_items :
      (grants : ℕ → Bool) (vs : Items)
      → ((n : ℕ) → grants n ≡ true)
      → shared_items (clone_items grants vs) ≡ shared_items vs
  shared_clone_items grants end g = refl
  shared_clone_items grants (item v vs) g =
      λ i. item (shared_clone grants v g i) (shared_clone_items grants vs g i)

pub shared-deep_clone :
    (grants : ℕ → Bool) (v : Value)
    → ((n : ℕ) → grants n ≡ true)
    → shared (deep_clone grants v) ≡ shared v
shared-deep_clone grants v g = shared_clone grants v g
