-- ===== src/Prst/Graph/Invariant.antt =====
-- The invariant of the dependency graph, which every operation keeps.
use fluxa_lang.Base.{
  ℕ, zero, suc, ◌+◌, ◌-◌, ◌≤◌, ◌<◌, ◌≡◌, refl, ap, ◌∙◌, List, [], ◌∷◌, ◌++◌, Option, Bool, true,
  false, ◌&&◌, ◌||◌, if◌then◌else◌, length, get_elem?, replicate, arith, inl, inr, ◌⊎◌, str_eq,
  eq_of_str_eq, c_string, c_string-append, swap_remove, Option-cases, Bool-cases, All, All-append,
  length-append, length-replicate, take_all, ltb, ltb→lt,
}
use fluxa_lang.Prst.Pool.{Heap}
use fluxa_lang.Prst.Pool.Invariant.{IsName}
use fluxa_lang.Prst.Graph.{
  PrstDep, PrstGraph, count, is_dep, recorded, new_dep, append_dep, next_cap, record_dep,
  record_new, context_of, invalidate, invalidate_from, padded, cap_max, init_cap,
}
use fluxa_lang.Prst.Graph.Tally.{tally, tally-append, All-swap_remove, tally_mono, tally-length}
use fluxa_lang.Prst.Graph.Readers.{tally-invalidate, kept}

-- A buffer of 256 bytes with a C string in it.
pub record IsBuffer (b : List ℕ) : Type 0 where
  pub room : length b ≡ 256
  pub ended : length (c_string b) < 256

abbrev pub IsDep : PrstDep → Type 0
IsDep d = IsBuffer d.prst_name × IsBuffer d.reader_ctx

-- The dependencies fit the array, the array is within the compiled maximum, every buffer is
-- terminated, and no dependency stands twice.
pub record IsValid (g : PrstGraph) : Type 0 where
  pub room : count g ≤ g.cap
  pub bounded : g.cap ≤ cap_max
  pub all_deps : All IsDep g.deps
  pub single : (name ctx : List ℕ) → tally (is_dep name ctx) g.deps ≤ 1

padded_short : (s : List ℕ) → IsName s → padded s ≡ s ++ replicate (256 - length s) 0
padded_short s n = rw (take_all 255 s (omega (arith, n.short)))

pub c_string-padded : (s : List ℕ) → IsName s → c_string (padded s) ≡ s
c_string-padded s n =
    ap c_string (padded_short s n)
    ∙ ap (λ k. c_string (s ++ replicate k 0)) spare
    ∙ c_string-append s (replicate (255 - length s) 0) n.no_zero
  where
    spare : 256 - length s ≡ suc (255 - length s)
    spare = omega (arith, n.short)

padded-IsBuffer : (s : List ℕ) → IsName s → IsBuffer (padded s)
padded-IsBuffer s n = record {
  room = rw (padded_short s n) (
      omega (
        arith,
        n.short,
        length-append s (replicate (256 - length s) 0),
        length-replicate {A = ℕ} (256 - length s) 0,
      ));
  ended = rw (c_string-padded s n) (omega (arith, n.short));
}

-- The search for a double finds what the tally counts.
recorded-tally :
    (name ctx : List ℕ) (ds : List PrstDep)
    → recorded name ctx ds ≡ ltb 0 (tally (is_dep name ctx) ds)
unfolding recorded
recorded-tally name ctx [] = refl
recorded-tally name ctx (d ∷ ds) = ground (arith, recorded-tally name ctx ds)

-- The new dependency is the one that was asked for.
is_dep-new_dep :
    (name ctx m c : List ℕ)
    → IsName name
    → IsName ctx
    → is_dep m c (new_dep name ctx) ≡ (str_eq name m && str_eq ctx c)
is_dep-new_dep name ctx m c n k = rw (c_string-padded name n, c_string-padded ctx k)

-- What `record_new` may leave.
record_new_cases {κ} :
    (P : PrstGraph → Type κ) (h : Heap) (g : PrstGraph) (name ctx : List ℕ)
    → ((cap : ℕ)
        → count g < cap
        → (cap ≡ g.cap) ⊎ (cap ≡ next_cap g)
        → P (append_dep (record g { cap = cap }) name ctx))
    → P g
    → P (record_new h g name ctx)
unfolding record_new
record_new_cases P h g name ctx a s = elim (Bool-cases (ltb (count g) g.cap)) [
  | inl fits ↦ rw fits (a g.cap (ltb→lt _ _ fits) (inl refl))
  | inr full ↦ elim (Bool-cases (ltb (count g) (next_cap g))) [
    | inl more ↦ elim (Bool-cases (h.grants (next_cap g))) [
      | inl yes' ↦ rw (full, more, yes') (a (next_cap g) (ltb→lt _ _ more) (inr refl))
      | inr no' ↦ rw (full, more, no') s
    ]
    | inr top ↦ rw (full, top) s
  ]
]

append_dep-IsValid :
    (g : PrstGraph) (cap : ℕ) (name ctx : List ℕ)
    → count g < cap
    → cap ≤ cap_max
    → IsName name
    → IsName ctx
    → recorded name ctx g.deps ≡ false
    → IsValid g
    → IsValid (append_dep (record g { cap = cap }) name ctx)
append_dep-IsValid g cap name ctx r m n k new w = record {
  room = omega (arith, length-append g.deps (new_dep name ctx ∷ []));
  bounded = m;
  all_deps =
      All-append IsDep g.deps (new_dep name ctx ∷ []) w.all_deps
        ((padded-IsBuffer name n, padded-IsBuffer ctx k), tt);
  single = λ a b. ground (
    arith,
    tally-append (is_dep a b) g.deps (new_dep name ctx ∷ []),
    w.single a b,
    is_dep-new_dep name ctx a b n k,
    eq_of_str_eq name a,
    eq_of_str_eq ctx b,
    recorded-tally name ctx g.deps,
    new,
  );
}

-- `prst_graph_record` keeps the invariant of the dependency graph: the dependencies fit an array of
-- at most 65536, every buffer is terminated, and no dependency stands twice. The names must be C
-- strings that fit their buffers.
pub record_dep-IsValid :
    (h : Heap) (g : PrstGraph) (name : List ℕ) (reader : Option (List ℕ))
    → IsName name
    → IsName (context_of reader)
    → IsValid g
    → IsValid (record_dep h g name reader)
unfolding record_dep
record_dep-IsValid h g name reader n k w =
    elim (Bool-cases (recorded name (context_of reader) g.deps)) [
      | inl old ↦ rw old w
      | inr new ↦ rw new (
          record_new_cases IsValid h g name (context_of reader)
            (λ cap r c. append_dep-IsValid g cap name (context_of reader) r (bound cap c) n k new w)
            w)
    ]
  where
    bound : (cap : ℕ) → (cap ≡ g.cap) ⊎ (cap ≡ next_cap g) → cap ≤ cap_max
    bound cap (inl e) = omega (arith, e, w.bounded)
    bound cap (inr e) = unfold next_cap in ground (arith, e, w.bounded)

IsDep-invalidate_from :
    (n : ℕ) (name : List ℕ) (ds : List PrstDep) (i : ℕ)
    → All IsDep ds
    → All IsDep (invalidate_from n name ds i)
unfolding invalidate_from
IsDep-invalidate_from zero name ds i a = a
IsDep-invalidate_from (suc n) name ds i a = elim (Option-cases (get_elem? ds i)) [
  | inl e ↦ rw (e, invalidate_from) a
  | inr (d, e) ↦ elim (Bool-cases (str_eq (c_string d.prst_name) name)) [
    | inl r ↦
        rw (e, invalidate_from)
          (rw (r, invalidate_from)
            (IsDep-invalidate_from n name (swap_remove ds i) i (All-swap_remove IsDep ds i a)))
    | inr r ↦
        rw (e, invalidate_from)
          (rw (r, invalidate_from) (IsDep-invalidate_from n name ds (i + 1) a))
  ]
]

tally-invalidate_le :
    (g : PrstGraph) (name : List ℕ) (p : PrstDep → Bool)
    → tally p (invalidate g name).deps ≤ tally p g.deps
tally-invalidate_le g name p =
    omega (
      arith,
      tally-invalidate g name p,
      tally_mono p (kept name p) g.deps (λ d e. ground (arith, e)),
    )

invalidate_fields :
    (g : PrstGraph) (name : List ℕ)
    → ((invalidate g name).cap ≡ g.cap)
      × ((invalidate g name).deps ≡ invalidate_from (count g) name g.deps 0)
unfolding invalidate
invalidate_fields g name = (refl, refl)

-- `prst_graph_invalidate` keeps the invariant of the dependency graph.
pub invalidate_graph-IsValid :
    (g : PrstGraph) (name : List ℕ) → IsValid g → IsValid (invalidate g name)
invalidate_graph-IsValid g name w = record {
  room = omega (
    arith,
    tally-invalidate_le g name (λ d. true),
    tally-length (invalidate g name).deps,
    tally-length g.deps,
    w.room,
    (invalidate_fields g name).0,
  );
  bounded = omega (arith, w.bounded, (invalidate_fields g name).0);
  all_deps =
      rw ((invalidate_fields g name).1) (IsDep-invalidate_from (count g) name g.deps 0 w.all_deps);
  single = λ a b. omega (arith, tally-invalidate_le g name (is_dep a b), w.single a b);
}

init_cap-IsValid : (h : Heap) (cap : ℕ) → IsValid (init_cap h cap)
unfolding init_cap
init_cap-IsValid h cap = record {
  room = omega arith;
  bounded = ground arith;
  all_deps = tt;
  single = λ a b. omega arith;
}

recorded-append :
    (m c : List ℕ) (ds : List PrstDep) (d : PrstDep)
    → recorded m c (ds ++ d ∷ []) ≡ (recorded m c ds || is_dep m c d)
unfolding recorded
recorded-append m c [] d = ground arith
recorded-append m c (x ∷ ds) d = ground (arith, recorded-append m c ds d)

-- With a heap that grants every array only the maximum stops a new dependency.
deps-record_new :
    (h : Heap) (g : PrstGraph) (name ctx : List ℕ)
    → g.cap ≤ cap_max
    → count g ≤ g.cap
    → ((n : ℕ) → h.grants n ≡ true)
    → (record_new h g name ctx).deps
      ≡ (if ltb (count g) cap_max then g.deps ++ new_dep name ctx ∷ [] else g.deps)
unfolding record_new next_cap
deps-record_new h g name ctx b r all = ground (arith, all (next_cap g))

-- `prst_graph_record` adds the one dependency and no other, whether it was there already or not;
-- with 65536 dependencies it adds nothing. The graph must be valid, the names C strings that fit
-- their buffers, and the heap must grant every array.
pub recorded-record_dep :
    (h : Heap) (g : PrstGraph) (name m c : List ℕ) (reader : Option (List ℕ))
    → IsName name
    → IsName (context_of reader)
    → IsValid g
    → ((n : ℕ) → h.grants n ≡ true)
    → recorded m c (record_dep h g name reader).deps ≡ (
        (ltb (count g) cap_max && (str_eq name m && str_eq (context_of reader) c))
        || recorded m c g.deps)
unfolding record_dep
recorded-record_dep h g name m c reader n k w all =
    elim (Bool-cases (recorded name (context_of reader) g.deps)) [
      | inl old ↦
          rw old (ground (arith, old, eq_of_str_eq name m, eq_of_str_eq (context_of reader) c))
      | inr new ↦
          rw (new, deps-record_new h g name (context_of reader) w.bounded w.room all)
            (ground (
              arith,
              recorded-append m c g.deps (new_dep name (context_of reader)),
              is_dep-new_dep name (context_of reader) m c n k,
            ))
    ]
