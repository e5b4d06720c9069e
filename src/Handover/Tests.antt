-- ===== src/Handover/Tests.antt =====
-- A handover of concrete runtimes: the new program sets `a` to 9 while Runtime A is busy at first.
use fluxa_lang.Base.{
  ℕ, suc, ◌+◌, ◌-◌, ◌≡◌, All, refl, List, [], ◌∷◌, none, some, true, false, arith, inr,
}
use fluxa_lang.ErrStack.{clear}
use fluxa_lang.Prst.Value.{int, dyn}
use fluxa_lang.Prst.Pool.{PrstPool, pool_get, pool_set}
use fluxa_lang.Prst.Pool.Invariant.{IsValid}
use fluxa_lang.Prst.Pool.Tests.{
  test_heap, two_variables, two_variables-IsValid, name_a, entry_a, entry_b,
}
use fluxa_lang.Prst.Pool.Lookup.{lookup}
use fluxa_lang.Prst.Pool.Update.{init_of}
use fluxa_lang.Prst.Wire.Tests.{two_variables-Fits, two_variables_small}
use fluxa_lang.Prst.Graph.Tests.{three_deps, three_deps-IsValid}
use fluxa_lang.Handover.Context.{
  HandoverCtx, mode_memory, ok, project, Runtime, returns, ctx_init, zero_runtime,
}
use fluxa_lang.Handover.Snapshot.{taken, snapshot_of, load_snapshot}
use fluxa_lang.Handover.Steps.{
  World, execute, rehearsal, run_failed, headstone_resources, wait_from,
}
use fluxa_lang.Handover.Switchover.{Ticks, Ended, wait_ends}
use fluxa_lang.Handover.Migration.{Migrated, CanMigrate, load_snapshot-Migrated}
use fluxa_lang.Handover.Headstones.{
  Reads, HasNoHandle, declared, headstones-IsValid, get-headstones,
}
use fluxa_lang.Handover.Outcomes.{Committed, NewProgram}
use fluxa_lang.Handover.Protocol.{execute_migrates}
use fluxa_lang.Handover.Progress.{AllGranted, GetsSafe, snapshot_taken, execute_commits}

abbrev runtime_a : Runtime
runtime_a = record zero_runtime {
  mode = project;
  prst_pool = two_variables;
  prst_graph = three_deps;
  cycle_count = 12;
}

runtime_a-CanMigrate : CanMigrate runtime_a
runtime_a-CanMigrate = record {
  pool_valid = two_variables-IsValid;
  values_fit = two_variables-Fits;
  few_variables = omega arith;
  small = two_variables_small;
  graph_valid = three_deps-IsValid;
}

abbrev test_world : World ℕ
test_world = record {
  heap = test_heap;
  grants = record { pool_buffer = true; graph_buffer = true; snapshot = true; runtime = true };
  resolver_run = λ cap program. (some 0, program);
  runtime_exec_with_rt = λ b program. (
    record b {
      prst_pool = (pool_set test_heap b.prst_pool name_a (int program) none).0;
      cycle_count = 1;
    },
    0,
  );
  ms_now = λ k. some (1000 + k);
  look = λ k. record { call_depth = 1 - k; danger_depth = 0; cycle_count = 12 + k };
}

abbrev test_clock : Ticks test_world.ms_now
test_clock = record { start = 1000; first = refl; later = λ k. (1000 + suc k, refl, omega arith) }

abbrev all_granted : AllGranted test_world.grants
all_granted = record { pool_buffer = refl; graph_buffer = refl; snapshot = refl; runtime = refl }

safe_in_time : GetsSafe test_world.look test_world.ms_now 6000
safe_in_time = record { at = 1; safe = refl; in_time = λ i h. ground arith }

runs_well :
    (b : Runtime)
    → Migrated runtime_a b
    → run_failed (test_world.runtime_exec_with_rt (rehearsal runtime_a.config b) 9) ≡ false
unfolding rehearsal clear
runs_well b m = refl

done :
    (c : HandoverCtx ℕ) × (execute test_world (ctx_init runtime_a mode_memory) (some 9)
      ≡ returns c ok)
done =
    execute_commits test_world runtime_a mode_memory 9 9 0 test_clock (λ n. refl) all_granted
      runtime_a-CanMigrate refl runs_well safe_in_time

execute_commits_example :
    (c : HandoverCtx ℕ) × (execute test_world (ctx_init runtime_a mode_memory) (some 9)
      ≡ returns c ok)
execute_commits_example =
    execute_commits test_world runtime_a mode_memory 9 9 0 test_clock (λ n. refl) all_granted
      runtime_a-CanMigrate refl runs_well safe_in_time

execute_migrates_example :
    Committed test_world runtime_a
      (NewProgram test_world runtime_a (some 9))
      (Migrated runtime_a)
      done.0
execute_migrates_example =
    execute_migrates test_world runtime_a mode_memory (some 9) done.0 (λ n. refl)
      runtime_a-CanMigrate (inr test_clock) done.1

the_snapshot : (s : List ℕ) × (snapshot_of test_world.grants runtime_a ≡ taken s)
the_snapshot =
    let (s, e, _) = snapshot_taken test_world.grants runtime_a all_granted runtime_a-CanMigrate in
    (s, e)

load_snapshot-Migrated_example :
    (b : Runtime) × (load_snapshot test_heap the_snapshot.0 zero_runtime ≡ returns b ok)
    × Migrated runtime_a b
load_snapshot-Migrated_example =
    load_snapshot-Migrated test_heap test_world.grants runtime_a zero_runtime the_snapshot.0
      (λ n. refl) runtime_a-CanMigrate the_snapshot.1

wait_ends_example :
    Ended test_world.look test_world.ms_now 1005 0
      (wait_from test_world.look test_world.ms_now 1005 11 0)
wait_ends_example = wait_ends test_world.look test_world.ms_now 5 test_clock

headstones-IsValid_example :
    IsValid (headstone_resources two_variables)
    × All HasNoHandle (headstone_resources two_variables).entries
    × ((name : List ℕ)
        → declared (lookup name (headstone_resources two_variables).entries)
          ≡ declared (lookup name two_variables.entries))
headstones-IsValid_example = headstones-IsValid two_variables two_variables-IsValid

-- `a` holds a handle.
abbrev with_handle : PrstPool
with_handle = record {
  entries = record entry_a { value = dyn 4096; declared_type = 9 } ∷ entry_b ∷ [];
  cap = 64;
}

get-headstones_example :
    Reads (pool_get with_handle name_a) (pool_get (headstone_resources with_handle) name_a)
    × Reads
        (init_of (lookup name_a with_handle.entries))
        (init_of (lookup name_a (headstone_resources with_handle).entries))
get-headstones_example = get-headstones with_handle name_a
