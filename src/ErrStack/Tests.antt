-- ===== src/ErrStack/Tests.antt =====
-- The error stack on a concrete history.
use fluxa_lang.Base.{◌≡◌, refl, List, [], ◌∷◌, none, some, map, replicate, get_elem?, take}
use fluxa_lang.ErrStack.{ErrStack, err_fluxa, err_handover, at, clear, get, err_stack_cap}
use fluxa_lang.ErrStack.History.{Report, printed, replay, get-replay}

abbrev full_stack : ErrStack
full_stack = record {
  entries = replicate 32 (record { kind = err_fluxa; message = []; context = []; line = 0 });
  base = 5;
  count = 32;
}

abbrev two_reports : List Report
two_reports =
    record { kind = err_handover; message = some (97 ∷ []); context = none; line = 2 }
    ∷ record { kind = err_fluxa; message = none; context = some (98 ∷ []); line = 1 }
    ∷ []

get-replay_example :
    get (replay (clear full_stack) two_reports) (at 1)
    ≡ get_elem? (take err_stack_cap (map printed two_reports)) 1
get-replay_example = get-replay full_stack two_reports 1 refl
