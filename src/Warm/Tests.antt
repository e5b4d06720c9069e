-- ===== src/Warm/Tests.antt =====
-- A profile of three observations, and a table of profiles.
use fluxa_lang.Base.{ℕ, ◌<◌, length, ◌≡◌, ◌≢◌, List, [], ◌∷◌, some, true, false, arith, get_elem?}
use fluxa_lang.Warm.{update_sig, is_promoted, signature}
use fluxa_lang.Warm.History.{Observation, replay_records, summary, types_at, get-replay_records}
use fluxa_lang.Warm.Promotion.{promoted-update_sig}
use fluxa_lang.Warm.Table.{WarmProfile, profile_init, warm_next_pow2, next_pow2_from, get_func}
use fluxa_lang.Warm.Claims.{IsProfile, Gives}
use fluxa_lang.Warm.Requests.{profile_init-IsProfile, get_func-Gives}

abbrev three_observations : List Observation
three_observations =
    record { slot = 259; vtype = 2 }
    ∷ record { slot = 4; vtype = 1 }
    ∷ record { slot = 3; vtype = 1 }
    ∷ []

get-replay_records_example :
    get_elem? (replay_records three_observations).slots 3
    ≡ some (summary (types_at 3 three_observations))
get-replay_records_example = get-replay_records three_observations 3 (omega arith)

promoted-update_sig_example :
    (is_promoted (update_sig (update_sig (update_sig (replay_records three_observations)))) ≡ true)
    × (signature (replay_records three_observations) ≢ (replay_records three_observations).path_sig
        → is_promoted (update_sig (replay_records three_observations)) ≡ false)
promoted-update_sig_example = promoted-update_sig (replay_records three_observations)

abbrev new_profile : WarmProfile
new_profile = profile_init true 0

new_profile-slots : 0 < length new_profile.funcs
unfolding profile_init warm_next_pow2 next_pow2_from
new_profile-slots = omega arith

get_func-Gives_example :
    (wp : WarmProfile) × (k : ℕ) × (get_func true new_profile 4096 ≡ some (wp, k))
    × IsProfile wp
    × Gives new_profile.funcs wp.funcs 4096 k
get_func-Gives_example =
    get_func-Gives new_profile 4096 (profile_init-IsProfile 0) new_profile-slots
      (λ q. absurd (omega (arith, q)))
