-- ===== src/Prst/Wire/Values.antt =====
-- A value that was serialised is read back.
use fluxa_lang.Base.{
  ℕ, zero, suc, ◌-◌, ◌^◌, ◌≤◌, ◌<◌, ◌≡◌, refl, sym, ap, subst, ◌∙◌, List, [], ◌++◌, Bool, false,
  ltb, length, arith, inl, inr, append_assoc, le_bytes, word_at_4, c_string-NoZero,
}
use fluxa_lang.Prst.Value.{Value, nil, string, arr, Items, end, item, size, type_arr, val_type}
use fluxa_lang.Prst.Wire.{
  int_field, float_field, bool_field, text, arr_count, head_bytes, ser_value, ser_items, wire_size,
  items_size, base_value, with_items, deser_value, deser_items,
}
use fluxa_lang.Prst.Pool.Invariant.{HasType}
use fluxa_lang.Prst.Wire.Reading.{ok}
use fluxa_lang.Prst.Wire.Heads.{Fits, FitsAll, arrived, arrived_items, deser_head-head_bytes}

-- One step of `prst_deser_value` for a value with no elements.
deser_value_scalar :
    (n dt : ℕ) (v : Value) (r : List ℕ)
    → Fits v
    → arr_count v ≡ 0
    → deser_value (suc (suc n)) dt (head_bytes v ++ r)
      ≡ ok (base_value dt (int_field v) (float_field v) (bool_field v) (text v), r)
unfolding deser_value deser_items with_items
deser_value_scalar n dt v r h e = rw (deser_head-head_bytes dt v r h, deser_value) (rw e)

-- The `switch` gives a scalar or a string back, and nil for all else.
base_value-arrived :
    (v : Value)
    → Fits v
    → arr_count v ≡ 0
    → base_value (val_type v) (int_field v) (float_field v) (bool_field v) (text v) ≡ arrived v
unfolding base_value arrived Fits
base_value-arrived (string s) h e = ap string (c_string-NoZero s h.1)
base_value-arrived (arr o c end) h e = refl
base_value-arrived (arr o c (item v vs)) h e = absurd (omega arith)
base_value-arrived v h e = refl

scalar_back :
    (v : Value) (n : ℕ) (r : List ℕ)
    → Fits v
    → 28 ≤ n
    → arr_count v ≡ 0
    → deser_value n (val_type v) (head_bytes v ++ r) ≡ ok (arrived v, r)
scalar_back v zero r h w k = absurd (omega arith)
scalar_back v (suc zero) r h w k = absurd (omega arith)
scalar_back v (suc (suc n)) r h w k =
    deser_value_scalar n (val_type v) v r h k ∙ ap (λ x. ok (x, r)) (base_value-arrived v h k)

with_items-arrived :
    (o : Bool) (c : ℕ) (vs : Items)
    → with_items type_arr nil (arrived_items vs) ≡ arrived (arr o c vs)
unfolding with_items arrived
with_items-arrived o c end = refl
with_items-arrived o c (item v vs) = refl

-- One step of `prst_deser_value` for an array, over the elements read back.
arr_back :
    (o : Bool) (c : ℕ) (vs : Items) (n : ℕ) (r : List ℕ)
    → Fits (arr o c vs)
    → deser_items n (size vs) (ser_items vs ++ r) ≡ ok (arrived_items vs, r)
    → deser_value (suc n) type_arr ((head_bytes (arr o c vs) ++ ser_items vs) ++ r)
      ≡ ok (arrived (arr o c vs), r)
unfolding deser_value base_value
arr_back o c vs n r h e =
    rw (deser_head-head_bytes type_arr (arr o c vs) (ser_items vs ++ r) h, deser_value)
      (rw e (ap (λ x. ok (x, r)) (with_items-arrived o c vs)))

-- The tag of a value is small.
type_small : (v : Value) → val_type v ≤ 10
type_small nil = omega arith
type_small v = omega arith

not_short : (t : ℕ) (r : List ℕ) → ltb (length (le_bytes 4 t ++ r)) 4 ≡ false
not_short t r = ground arith

-- One round of the element loop, over its parts read back.
deser_items_step :
    (t : ℕ) (x : Value) (xs : Items) (c n : ℕ) (r rest left : List ℕ)
    → t < 2 ^ 32
    → deser_value n t r ≡ ok (x, rest)
    → deser_items n c rest ≡ ok (xs, left)
    → deser_items (suc n) (suc c) (le_bytes 4 t ++ r) ≡ ok (item x xs, left)
unfolding deser_value deser_items
deser_items_step t x xs c n r rest left h e f =
    rw (not_short t r, deser_items) (rw (word_at_4 t r h, e) (rw f))

item_back :
    (v x : Value) (vs xs : Items) (n : ℕ) (r : List ℕ)
    → deser_value n (val_type v) (ser_value v ++ (ser_items vs ++ r)) ≡ ok (x, ser_items vs ++ r)
    → deser_items n (size vs) (ser_items vs ++ r) ≡ ok (xs, r)
    → deser_items
        (suc n)
        (suc (size vs))
        ((le_bytes 4 (val_type v) ++ (ser_value v ++ ser_items vs)) ++ r)
      ≡ ok (item x xs, r)
item_back v x vs xs n r e f =
    ap (λ t. deser_items (suc n) (suc (size vs)) (le_bytes 4 (val_type v) ++ t))
      (append_assoc (ser_value v) (ser_items vs) r)
    ∙ deser_items_step (val_type v) x xs (size vs) n _ _ r (omega (arith, type_small v)) e f

deser_items_end : (n : ℕ) (r : List ℕ) → deser_items (suc n) 0 r ≡ ok (end, r)
unfolding deser_items
deser_items_end n r = refl

-- A number that is not 0 is a successor.
from_pred : (n : ℕ) (P : ℕ → Type 0) → 0 < n → P (suc (n - 1)) → P n
from_pred n P h p = subst P (omega arith) p

mutual
  unfolding ser_value ser_items wire_size items_size Fits FitsAll arrived arrived_items

  value_back :
      (v : Value) (n : ℕ) (r : List ℕ)
      → Fits v
      → wire_size v ≤ n
      → deser_value n (val_type v) (ser_value v ++ r) ≡ ok (arrived v, r)
  value_back (arr o c vs) n r h w =
      from_pred n
        (λ m.
          deser_value m type_arr ((head_bytes (arr o c vs) ++ ser_items vs) ++ r)
          ≡ ok (arrived (arr o c vs), r))
        (omega arith) (arr_back o c vs (n - 1) r h (items_back vs (n - 1) r h.1 (omega arith)))
  value_back (string s) n r h w = scalar_back (string s) n r h (omega arith) refl
  value_back v n r h w = scalar_back v n r h w refl

  items_back :
      (vs : Items) (n : ℕ) (r : List ℕ)
      → FitsAll vs
      → items_size vs < n
      → deser_items n (size vs) (ser_items vs ++ r) ≡ ok (arrived_items vs, r)
  items_back end n r h w =
      from_pred n (λ m. deser_items m 0 r ≡ ok (end, r)) w (deser_items_end (n - 1) r)
  items_back (item v vs) n r h w =
      from_pred n
        (λ m.
          deser_items m (suc (size vs))
            ((le_bytes 4 (val_type v) ++ (ser_value v ++ ser_items vs)) ++ r)
          ≡ ok (item (arrived v) (arrived_items vs), r))
        (omega arith)
        (item_back v (arrived v) vs (arrived_items vs) (n - 1) r
          (value_back v (n - 1) (ser_items vs ++ r) h.0 (omega arith))
          (items_back vs (n - 1) r h.1 (omega arith)))

base_value-nil : (t : ℕ) → 4 < t → base_value t 0 0 0 [] ≡ nil
unfolding base_value
base_value-nil t h = ground arith

nil_back :
    (t n : ℕ) (r : List ℕ)
    → 4 < t
    → 28 ≤ n
    → deser_value n t (ser_value nil ++ r) ≡ ok (arrived nil, r)
unfolding ser_value arrived Fits
nil_back t zero r h w = absurd (omega arith)
nil_back t (suc zero) r h w = absurd (omega arith)
nil_back t (suc (suc n)) r h w =
    deser_value_scalar n t nil r tt refl ∙ ap (λ x. ok (x, r)) (base_value-nil t h)

pub deser_value-ser_value :
    (t : ℕ) (v : Value) (n : ℕ) (r : List ℕ)
    → HasType t v
    → Fits v
    → wire_size v ≤ n
    → deser_value n t (ser_value v ++ r) ≡ ok (arrived v, r)
deser_value-ser_value t v n r (inl e) h w =
    subst (λ u. deser_value n u (ser_value v ++ r) ≡ ok (arrived v, r)) e (value_back v n r h w)
deser_value-ser_value t v n r (inr (e, k)) h w =
    subst (λ u. wire_size u ≤ n → deser_value n t (ser_value u ++ r) ≡ ok (arrived u, r)) (sym e)
      (λ w'. nil_back t n r k (unfold wire_size in w')) w
