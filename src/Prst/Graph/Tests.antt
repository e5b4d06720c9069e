-- ===== src/Prst/Graph/Tests.antt =====
-- The dependency graph on concrete dependencies.
use fluxa_lang.Base.{
  ℕ, ◌≡◌, refl, subst, List, [], ◌∷◌, ◌++◌, none, some, true, false, ◌&&◌, ◌||◌, not, arith, str_eq,
  if◌then◌else◌, le_bytes, ltb, c_string,
}
use fluxa_lang.ErrStack.{global_context}
use fluxa_lang.Prst.Pool.Invariant.{IsName}
use fluxa_lang.Prst.Pool.Tests.{test_heap, name_a, name_b, name_a-IsName, name_b-IsName}
use fluxa_lang.Prst.Graph.{
  PrstGraph, new_dep, invalidate, has_readers, record_dep, recorded, count, cap_max, serialize,
  deserialize, dep_bytes,
}
use fluxa_lang.Prst.Graph.Tally.{tally}
use fluxa_lang.Prst.Graph.Readers.{tally-invalidate, has_readers-invalidate}
use fluxa_lang.Prst.Graph.Invariant.{
  IsValid, record_dep-IsValid, invalidate_graph-IsValid, recorded-record_dep,
}
use fluxa_lang.Prst.Graph.Wire.{deserialize-serialize_graph}

-- `a` is read by `b` and by the program itself, `b` by `a`.
abbrev pub three_deps : PrstGraph
three_deps = record {
  deps = new_dep name_a name_b ∷ new_dep name_b name_a ∷ new_dep name_a global_context ∷ [];
  cap = 256;
}

empty_graph-IsValid : IsValid (record { deps = []; cap = 256 })
empty_graph-IsValid = record {
  room = omega arith;
  bounded = omega arith;
  all_deps = tt;
  single = λ n c. omega arith;
}

global-IsName : IsName global_context
global-IsName = record {
  short = omega arith;
  no_zero = (
    omega arith,
    (
      omega arith,
      (omega arith, (omega arith, (omega arith, (omega arith, (omega arith, (omega arith, tt)))))),
    ),
  );
}

-- It is what three calls make of an empty graph.
abbrev recorded_deps : PrstGraph
recorded_deps =
    record_dep test_heap
      (record_dep test_heap
        (record_dep test_heap (record { deps = []; cap = 256 }) name_a (some name_b)) name_b
        (some name_a))
      name_a none

same_deps : recorded_deps ≡ three_deps
unfolding record_dep str_eq c_string
same_deps = refl

recorded_deps-IsValid : IsValid recorded_deps
recorded_deps-IsValid = record_dep-IsValid test_heap _ name_a none name_a-IsName global-IsName (
    record_dep-IsValid test_heap _ name_b (some name_a) name_b-IsName name_a-IsName (
      record_dep-IsValid test_heap _ name_a (some name_b) name_a-IsName name_b-IsName
        empty_graph-IsValid))

pub three_deps-IsValid : IsValid three_deps
three_deps-IsValid = subst IsValid same_deps recorded_deps-IsValid

tally-invalidate_example :
    tally (λ d. true) (invalidate three_deps name_a).deps
    ≡ tally (λ d. true && not (str_eq (c_string d.prst_name) name_a)) three_deps.deps
tally-invalidate_example = tally-invalidate three_deps name_a (λ d. true)

has_readers-invalidate_example :
    has_readers (invalidate three_deps name_a) name_b
    ≡ (if str_eq name_a name_b then false else has_readers three_deps name_b)
has_readers-invalidate_example = has_readers-invalidate three_deps name_a name_b

record_dep-IsValid_example : IsValid (record_dep test_heap three_deps name_b none)
record_dep-IsValid_example =
    record_dep-IsValid test_heap three_deps name_b none name_b-IsName global-IsName
      three_deps-IsValid

invalidate_graph-IsValid_example : IsValid (invalidate three_deps name_a)
invalidate_graph-IsValid_example = invalidate_graph-IsValid three_deps name_a three_deps-IsValid

recorded-record_dep_example :
    recorded name_b name_b (record_dep test_heap three_deps name_b (some name_b)).deps ≡ (
      (ltb (count three_deps) cap_max && (str_eq name_b name_b && str_eq name_b name_b))
      || recorded name_b name_b three_deps.deps)
recorded-record_dep_example =
    recorded-record_dep test_heap three_deps name_b name_b name_b (some name_b) name_b-IsName
      name_b-IsName three_deps-IsValid (λ n. refl)

abbrev bytes : List ℕ
bytes = le_bytes 4 3 ++ dep_bytes three_deps.deps

written : serialize true three_deps ≡ some bytes
unfolding serialize
written = refl

deserialize-serialize_graph_example :
    ((deserialize test_heap three_deps bytes).0.deps ≡ three_deps.deps)
    × ((deserialize test_heap three_deps bytes).1 ≡ true)
    × IsValid (deserialize test_heap three_deps bytes).0
deserialize-serialize_graph_example =
    deserialize-serialize_graph test_heap three_deps three_deps bytes (λ n. refl) three_deps-IsValid
      written
