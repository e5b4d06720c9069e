-- ===== src/Base/SwapRemove.antt =====
-- Taking an element out by moving the last one into its place: `a[i] = a[n - 1]; n--`.
use Prim.Native.Nat.{ℕ, zero, suc, ◌-◌, ◌<◌}
use mathlib.Core.Path.{◌≡◌, refl, ap}
use mathlib.Core.List.{List, [], ◌∷◌, ◌++◌}
use mathlib.Core.Option.{none, some}
use native.Mathlib.Omega.{arith}
use fluxa_lang.Base.Lists.{
  length, get_elem?, set, take, length-append, length-set, take-append, get_elem?-append_last,
  set-append_last,
}

module _ {ℓ} {A : Type ℓ} where
  unfoldable pub swap_remove : List A → ℕ → List A
  swap_remove xs i = elim (get_elem? xs (length xs - 1)) [
    | none ↦ xs
    | some last ↦ take (length xs - 1) (set xs i last)
  ]

  -- A list with an entry is a front and a last entry.
  pub split_last :
      (x : A) (es : List A) → (front : List A) × (last : A) × (x ∷ es ≡ front ++ last ∷ [])
  split_last x [] = ([], x, refl)
  split_last x (y ∷ es) = let (front, last, e) = split_last y es in (x ∷ front, last, ap (◌∷◌ x) e)

  set-front :
      (front : List A) (last e : A) (i : ℕ)
      → i < length front
      → set (front ++ last ∷ []) i e ≡ set front i e ++ last ∷ []
  set-front [] last e i h = absurd (omega arith)
  set-front (x ∷ front) last e zero h = refl
  set-front (x ∷ front) last e (suc i) h = ap (◌∷◌ x) (set-front front last e i (omega arith))

  length-front : (front : List A) (last : A) → length (front ++ last ∷ []) - 1 ≡ length front
  length-front front last = omega (arith, length-append front (last ∷ []))

  -- What `swap_remove` makes of a front and a last entry.
  pub swap_remove-front :
      (front : List A) (last : A) (i : ℕ)
      → i < length front
      → swap_remove (front ++ last ∷ []) i ≡ set front i last
  unfolding swap_remove
  swap_remove-front front last i h =
      rw (length-front front last, swap_remove)
        (rw (get_elem?-append_last front last) (
          rw (length-front front last, set-front front last last i h)
            (take-append (length front) (set front i last) (last ∷ []) (length-set front i last))))

  pub swap_remove-last :
      (front : List A) (last : A) → swap_remove (front ++ last ∷ []) (length front) ≡ front
  unfolding swap_remove
  swap_remove-last front last =
      rw (length-front front last, swap_remove)
        (rw (get_elem?-append_last front last) (
          rw (length-front front last, set-append_last front last last)
            (take-append (length front) front (last ∷ []) refl)))
