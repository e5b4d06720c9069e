-- ===== src/Warm/Promotion.antt =====
-- When a function is promoted.
use fluxa_lang.Base.{
  ◌+◌, ◌≤◌, ◌≡◌, ◌≢◌, refl, true, false, arith, ◌==◌, if◌then◌else◌, ltb, Bool-cases, inl, inr,
}
use fluxa_lang.Warm.{WarmFunc, signature, update_sig, is_promoted}

-- An update leaves the signature of the observations and counts the updates that found it so.
update_sig-counts :
    (f : WarmFunc)
    → ((update_sig f).path_sig ≡ signature f)
      × (signature (update_sig f) ≡ signature f)
      × ((update_sig f).stable_runs ≡ (
          if signature f == f.path_sig
          then (if ltb f.stable_runs 255 then f.stable_runs + 1 else f.stable_runs)
          else 0))
update_sig-counts f = elim (Bool-cases (signature f == f.path_sig)) [
  | inl same ↦ unfold update_sig in rw same (ground (arith, same), refl, refl)
  | inr other ↦ unfold update_sig in rw other (refl, refl, refl)
]

-- A function is promoted after three updates with the same observations, whatever its profile was;
-- and an update that finds another signature takes the promotion back.
pub promoted-update_sig :
    (f : WarmFunc)
    → (is_promoted (update_sig (update_sig (update_sig f))) ≡ true)
      × (signature f ≢ f.path_sig → is_promoted (update_sig f) ≡ false)
promoted-update_sig f =
    let f1 = update_sig f in
    let f2 = update_sig f1 in
    let (p, g, r) = update_sig-counts f in
    let (p1, g1, r1) = update_sig-counts f1 in
    let (p2, g2, r2) = update_sig-counts f2 in
    let once : 1 ≤ f2.stable_runs = ground (arith, p, g, r1) in
    let twice : 2 ≤ (update_sig f2).stable_runs = ground (arith, p1, g1, r2, once) in
    (ground (arith, twice), λ other. ground (arith, r, other))
