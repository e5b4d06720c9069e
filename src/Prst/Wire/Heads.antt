-- ===== src/Prst/Wire/Heads.antt =====
-- The head of a value on the wire, read back, and the values that the wire carries.
use fluxa_lang.Base.{
  ℕ, ◌+◌, ◌^◌, ◌≤◌, ◌<◌, ◌≡◌, refl, ap, ap₂, ◌∙◌, List, [], ◌++◌, some, true, length, take, drop,
  arith, append_assoc, le_bytes, word_at_4, word_at_8, take-append, drop-append, take_all, NoZero,
  length-append,
}
use fluxa_lang.Prst.Value.{
  Value, nil, int, float, bool, string, arr, Items, end, item, size, detect_type,
}
use fluxa_lang.Prst.Wire.{
  int_field, float_field, bool_field, text, text_len, text_bytes, arr_count, arr_limit, head_bytes,
  base_value, deser_count, deser_head,
}
use fluxa_lang.Prst.Wire.Reading.{ok}

deser_head_at :
    (dt a b c d : ℕ) (r : List ℕ)
    → a < 2 ^ 64
    → b < 2 ^ 64
    → c < 2 ^ 32
    → d < 2 ^ 31
    → d ≤ length r
    → deser_head dt (le_bytes 8 a ++ (le_bytes 8 b ++ (le_bytes 4 c ++ (le_bytes 4 d ++ r))))
      ≡ deser_count (base_value dt a b c (take d r)) (drop d r)
unfolding deser_head
deser_head_at dt a b c d r ha hb hc hd h =
    rw
      (
        word_at_8 a (le_bytes 8 b ++ (le_bytes 4 c ++ (le_bytes 4 d ++ r))) ha,
        word_at_8 b (le_bytes 4 c ++ (le_bytes 4 d ++ r)) hb,
        word_at_4 c (le_bytes 4 d ++ r) hc,
        word_at_4 d r (omega arith),
      )
      (ground arith)

deser_count_at :
    (v : Value) (k : ℕ) (r : List ℕ)
    → k ≤ arr_limit
    → deser_count v (le_bytes 4 k ++ r) ≡ ok (v, some k, r)
unfolding deser_count
deser_count_at v k r h = rw (word_at_4 k r (omega arith)) (ground arith)

deser_head_fields :
    (dt a b c : ℕ) (s : List ℕ) (k : ℕ) (r : List ℕ)
    → a < 2 ^ 64
    → b < 2 ^ 64
    → c < 2 ^ 32
    → length s < 2 ^ 31
    → k ≤ arr_limit
    → deser_head dt (
        le_bytes 8 a
        ++ (le_bytes 8 b
            ++ (le_bytes 4 c ++ (le_bytes 4 (length s) ++ (s ++ (le_bytes 4 k ++ r))))))
      ≡ ok (base_value dt a b c s, some k, r)
deser_head_fields dt a b c s k r ha hb hc hs hk =
    deser_head_at dt a b c (length s) (s ++ (le_bytes 4 k ++ r)) ha hb hc hs
      (omega (arith, length-append s (le_bytes 4 k ++ r)))
    ∙ rw (take-append (length s) s (le_bytes 4 k ++ r) refl)
        (rw (drop-append (length s) s (le_bytes 4 k ++ r) refl) (deser_count_at _ k r hk))

-- Values that the wire format carries: numbers of their width, C strings, and arrays of at most
-- 65536 such elements. Of the other types only the tag is sent.
unfoldable mutual
  pub Fits : Value → Type 0
  Fits (int i) = i < 2 ^ 64
  Fits (float f) = f < 2 ^ 64
  Fits (bool b) = b < 2 ^ 32
  Fits (string s) = (length s < 2 ^ 31) × NoZero s
  Fits (arr o c vs) = (size vs ≤ arr_limit) × FitsAll vs
  Fits v = Unit {0}

  pub FitsAll : Items → Type 0
  FitsAll end = Unit {0}
  FitsAll (item v vs) = Fits v × FitsAll vs

-- What arrives of a value: a number or a string is the same, an array has its elements, owns them
-- and knows their type, and an empty array or anything else is nil.
unfoldable mutual
  pub arrived : Value → Value
  arrived (int i) = int i
  arrived (float f) = float f
  arrived (bool b) = bool b
  arrived (string s) = string s
  arrived (arr o c end) = nil
  arrived (arr o c (item v vs)) =
      let vs' = item (arrived v) (arrived_items vs) in arr true (detect_type vs' + 1) vs'
  arrived v = nil

  pub arrived_items : Items → Items
  arrived_items end = end
  arrived_items (item v vs) = item (arrived v) (arrived_items vs)

text_len_lem : (v : Value) → length (text v) < 2 ^ 31 → text_len v ≡ length (text v)
text_len_lem v h = omega arith

-- The head of a value is read back, whatever bytes follow.
pub deser_head-head_bytes :
    (dt : ℕ) (v : Value) (r : List ℕ)
    → Fits v
    → deser_head dt (head_bytes v ++ r)
      ≡ ok (
        base_value dt (int_field v) (float_field v) (bool_field v) (text v),
        some (arr_count v),
        r,
      )
unfolding Fits
deser_head-head_bytes dt (string s) r h =
    ap (λ t. deser_head dt (le_bytes 8 0 ++ (le_bytes 8 0 ++ (le_bytes 4 0 ++ t))))
      (ap₂ (λ k t. le_bytes 4 k ++ t) (text_len_lem (string s) h.0)
        (ap (λ t. (t ++ le_bytes 4 0) ++ r) (whole h.0) ∙ append_assoc s (le_bytes 4 0) r))
    ∙ deser_head_fields dt 0 0 0 s 0 r (omega arith) (omega arith) (omega arith) h.0 (omega arith)
  where
    whole : length s < 2 ^ 31 → text_bytes (string s) ≡ s
    whole hs = rw (text_len_lem (string s) hs) (ground (arith, take_all (length s) s))
deser_head-head_bytes dt (int i) r h =
    deser_head_fields dt i 0 0 [] 0 r h (omega arith) (omega arith) (omega arith) (omega arith)
deser_head-head_bytes dt (float f) r h =
    deser_head_fields dt 0 f 0 [] 0 r (omega arith) h (omega arith) (omega arith) (omega arith)
deser_head-head_bytes dt (bool b) r h =
    deser_head_fields dt 0 0 b [] 0 r (omega arith) (omega arith) h (omega arith) (omega arith)
deser_head-head_bytes dt (arr o c vs) r h =
    deser_head_fields dt 0 0 0 [] (size vs) r (omega arith) (omega arith) (omega arith)
      (omega arith) h.0
deser_head-head_bytes dt v r h =
    deser_head_fields dt 0 0 0 [] 0 r (omega arith) (omega arith) (omega arith) (omega arith)
      (omega arith)
