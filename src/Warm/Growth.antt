-- ===== src/Warm/Growth.antt =====
-- The rehash of the table, `warm_profile_grow`.
use fluxa_lang.Base.{
  ℕ, zero, suc, ◌+◌, ◌≤◌, ◌<◌, ◌≡◌, ◌≢◌, refl, sym, ap, ◌∙◌, subst, List, [], ◌∷◌, some, true,
  if◌then◌else◌, ◌⊎◌, inl, inr, arith, length, get_elem?, set, length-set, get_elem?-set-some,
  get_elem?-set_ne, get_elem?-some, ℕ_discrete,
}
use mathlib.Core.Option.{some-injective}
use fluxa_lang.Warm.{WarmFunc}
use fluxa_lang.Warm.Table.{WarmEntry, slot_of, put_from, put_all}
use fluxa_lang.Warm.Slots.{
  IsTable, Has, entry, occupied, weight_taken, weight_empty, IsFree, IsFree-slot, occupied-set,
  slot_of-lt, slot_of-onto, set-IsTable, Blocked,
}
use fluxa_lang.Warm.Searches.{longer, is_same, not_same}
use fluxa_lang.Warm.Claims.{search-Has, slot_pair, no_blocks, Has-set, set-Has}

-- Where an entry of a new function is put.
Put : List WarmEntry → WarmEntry → List WarmEntry → Type 0
Put new e res =
    (k : ℕ) × (i : ℕ) × (res ≡ set new k e)
    × IsFree new k
    × (i < length new)
    × (slot_of (length new) e.fn_id i ≡ k)
    × Blocked new e.fn_id i

module _ (new : List WarmEntry) (e : WarmEntry) where
  put-free :
      (n j : ℕ) (old : WarmEntry)
      → get_elem? new (slot_of (length new) e.fn_id j) ≡ some old
      → old.fn_id ≡ 0
      → put_from new e (suc n) j ≡ set new (slot_of (length new) e.fn_id j) e
  unfolding put_from
  put-free n j old g h = rw (put_from, g, is_same old.fn_id 0 h) refl

  put-next :
      (n j : ℕ) (old : WarmEntry)
      → get_elem? new (slot_of (length new) e.fn_id j) ≡ some old
      → old.fn_id ≢ 0
      → put_from new e (suc n) j ≡ put_from new e n (j + 1)
  unfolding put_from
  put-next n j old g h = rw (put_from, g, not_same old.fn_id 0 h) refl

  -- An empty slot ends the search for one.
  put_from-Put :
      (i n j : ℕ)
      → ((f : WarmFunc) → Has new e.fn_id f → ⊥)
      → IsFree new (slot_of (length new) e.fn_id i)
      → i < length new
      → Blocked new e.fn_id j
      → j ≤ i
      → i < j + n
      → Put new e (put_from new e n j)
  unfolding Put
  put_from-Put i zero j fresh free low b l h = absurd (omega (arith, l, h))
  put_from-Put i (suc n) j fresh free low b l h =
      let at = slot_of (length new) e.fn_id j in
      let (old, g) =
        get_elem?-some new at (slot_of-lt (length new) e.fn_id j (omega (arith, low))) in
      elim (ℕ_discrete old.fn_id 0) [
        | yes z ↦ (at, j, put-free n j old g z, (old, g, z), omega (arith, l, low), refl, b)
        | no nz ↦
            let ne : old.fn_id ≢ e.fn_id =
              λ q. fresh old.func (at, g ∙ ap (λ x. some (entry x old.func)) q) in
            let (k, m, same, rest1, rest2, rest3, rest4) =
              put_from-Put i n (j + 1) fresh free low (longer new e.fn_id j old b g nz ne)
                (omega (arith, l, λ (q : j ≡ i). before j old g nz q)) (omega (arith, h)) in
            (k, m, put-next n j old g nz ∙ same, rest1, rest2, rest3, rest4)
      ]
    where
      before :
          (j' : ℕ) (old : WarmEntry)
          → get_elem? new (slot_of (length new) e.fn_id j') ≡ some old
          → old.fn_id ≢ 0
          → j' ≢ i
      before j' old g nz q = nz (
          ap (λ (x : WarmEntry). x.fn_id)
            (some-injective _ _
              (sym g ∙ ap (λ x. get_elem? new (slot_of (length new) e.fn_id x)) q ∙ free.1))
          ∙ free.2)

Put-IsTable :
    (new : List WarmEntry) (e : WarmEntry) (res : List WarmEntry)
    → IsTable new
    → Put new e res
    → IsTable res
unfolding Put
Put-IsTable new e res t (k, i, is_set, free, low, at, b) =
    subst IsTable (sym is_set) (set-IsTable new i k e t free low at b)

Put-counts :
    (new : List WarmEntry) (e : WarmEntry) (res : List WarmEntry)
    → e.fn_id ≢ 0
    → Put new e res
    → (occupied res ≡ occupied new + 1) × (length res ≡ length new)
unfolding Put
Put-counts new e res nz (k, i, is_set, free, low, at, b) =
    (ap occupied is_set ∙ occupied-set new k e free nz, ap length is_set ∙ length-set new k e)

Put-Has :
    (new : List WarmEntry) (e : WarmEntry) (res : List WarmEntry) (id : ℕ) (f : WarmFunc)
    → Put new e res
    → Has res id f
    → Has new id f ⊎ (id ≡ e.fn_id)
unfolding Put
Put-Has new e res id f (k, i, is_set, free, low, at, b) has = elim (ℕ_discrete id e.fn_id) [
  | yes q ↦ inr q
  | no q ↦ inl (set-Has new k e id f free q (subst (λ t. Has t id f) is_set has))
]

-- The entries of different functions, none of which is in the new table.
abbrev IsFresh : List WarmEntry → List WarmEntry → Type 0
IsFresh es new =
    (a : ℕ) (e : WarmEntry)
    → get_elem? es a ≡ some e
    → e.fn_id ≢ 0
    → (f : WarmFunc) → Has new e.fn_id f
    → ⊥

abbrev AreDistinct : List WarmEntry → Type 0
AreDistinct es =
    (a b : ℕ) (e e' : WarmEntry)
    → get_elem? es a ≡ some e
    → get_elem? es b ≡ some e'
    → e.fn_id ≢ 0
    → e.fn_id ≡ e'.fn_id
    → a ≡ b

pub table-AreDistinct : (tbl : List WarmEntry) → IsTable tbl → AreDistinct tbl
table-AreDistinct tbl t a b e e' ga gb nz same =
    (slot_pair (a, true) (b, true)
      (sym (search-Has tbl e.fn_id e.func a t nz ga)
        ∙ search-Has tbl e.fn_id e'.func b t nz
            (gb ∙ ap (λ x. some (entry x e'.func)) (sym same)))).0

-- What the rehash of `es` into `new` gives.
pub record Rehashed (es new res : List WarmEntry) : Type 0 where
  pub is_table : IsTable res
  pub same_length : length res ≡ length new
  pub counted : occupied res ≡ occupied new + occupied es
  pub kept : (id : ℕ) (f : WarmFunc) → id ≢ 0 → Has new id f → Has res id f
  pub moved : (id : ℕ) (f : WarmFunc) → id ≢ 0 → Has es id f → Has res id f
  pub only : (id : ℕ) (f : WarmFunc) → id ≢ 0 → Has res id f → Has new id f ⊎ Has es id f

-- An empty slot of the old table is left out.
skip-Rehashed :
    (e : WarmEntry) (es new res : List WarmEntry)
    → e.fn_id ≡ 0
    → Rehashed es new res
    → Rehashed (e ∷ es) new res
skip-Rehashed e es new res z r = record {
  is_table = r.is_table;
  same_length = r.same_length;
  counted = omega (arith, r.counted, weight_empty e.fn_id z);
  kept = r.kept;
  moved = λ id f nz x. tail id f nz x;
  only = λ id f nz x. elim (r.only id f nz x) [ inl y ↦ inl y | inr (k, g) ↦ inr (suc k, g) ];
}
  where
    tail : (id : ℕ) (f : WarmFunc) → id ≢ 0 → Has (e ∷ es) id f → Has res id f
    tail id f nz (zero, g) =
        absurd (nz (sym (ap (λ (x : WarmEntry). x.fn_id) (some-injective e (entry id f) g)) ∙ z))
    tail id f nz (suc k, g) = r.moved id f nz (k, g)

-- An entry is put into the new one.
Put-Rehashed :
    (e : WarmEntry) (es new new' res : List WarmEntry)
    → e.fn_id ≢ 0
    → Put new e new'
    → Rehashed es new' res
    → Rehashed (e ∷ es) new res
unfolding Put
Put-Rehashed e es new new' res nz (k, i, is_set, free, low, at, b) r = record {
  is_table = r.is_table;
  same_length = r.same_length ∙ ap length is_set ∙ length-set new k e;
  counted =
      omega (
        arith,
        r.counted,
        ap occupied is_set,
        occupied-set new k e free nz,
        weight_taken e.fn_id nz,
      );
  kept = λ id f h x.
      r.kept id f h (subst (λ t. Has t id f) (sym is_set) (Has-set new k e id f free h x));
  moved = λ id f h x. all_of id f h x;
  only = λ id f h x. elim (r.only id f h x) [
    | inl y ↦ was id f (subst (λ t. Has t id f) is_set y)
    | inr (j, g) ↦ inr (suc j, g)
  ];
}
  where
    all_of : (id : ℕ) (f : WarmFunc) → id ≢ 0 → Has (e ∷ es) id f → Has res id f
    all_of id f h (zero, g) =
        r.kept id f h
          (subst (λ t. Has t id f) (sym is_set) (k, get_elem?-set-some new k free.0 e free.1 ∙ g))
    all_of id f h (suc j, g) = r.moved id f h (j, g)

    was : (id : ℕ) (f : WarmFunc) → Has (set new k e) id f → Has new id f ⊎ Has (e ∷ es) id f
    was id f (j, g) = elim (ℕ_discrete k j) [
      | yes q ↦
          inr
            (0, sym (get_elem?-set-some new k free.0 e free.1) ∙ ap (get_elem? (set new k e)) q ∙ g)
      | no q ↦ inl (j, sym (get_elem?-set_ne new k j e q) ∙ g)
    ]

pub put_all-Rehashed :
    (es new : List WarmEntry)
    → IsTable new
    → occupied new + length es < length new
    → AreDistinct es
    → IsFresh es new
    → Rehashed es new (put_all es new)
unfolding put_all
put_all-Rehashed [] new t room dis fresh = record {
  is_table = t;
  same_length = refl;
  counted = omega arith;
  kept = λ id f h x. x;
  moved = λ id f h (k, g). absurd (cc);
  only = λ id f h x. inl x;
}
put_all-Rehashed (e ∷ es) new t room dis fresh = elim (ℕ_discrete e.fn_id 0) [
  | yes z ↦
      subst (λ x. Rehashed (e ∷ es) new (put_all es x))
        (sym (ap (λ c. if c then new else put_from new e (length new) 0) (is_same e.fn_id 0 z)))
        (skip-Rehashed e es new _ z
          (put_all-Rehashed es new t (omega (arith, room)) (rest dis) (λ a x g. fresh (suc a) x g)))
  | no nz ↦
      let put = first nz in
      subst (λ x. Rehashed (e ∷ es) new (put_all es x))
        (sym (ap (λ c. if c then new else put_from new e (length new) 0) (not_same e.fn_id 0 nz)))
        (Put-Rehashed e es new _ _ nz put (
          put_all-Rehashed es (put_from new e (length new) 0) (Put-IsTable new e _ t put)
            (omega (arith, room, (Put-counts new e _ nz put).0, (Put-counts new e _ nz put).1))
            (rest dis) (λ a x g h f has. still a x g h f (Put-Has new e _ x.fn_id f put has))))
]
  where
    rest : AreDistinct (e ∷ es) → AreDistinct es
    rest h a b x y ga gb nz q = omega (arith, h (suc a) (suc b) x y ga gb nz q)

    first : e.fn_id ≢ 0 → Put new e (put_from new e (length new) 0)
    first nz =
        let (k, low, free) = IsFree-slot new (omega (arith, room)) in
        let (i, less, at) = slot_of-onto (length new) e.fn_id k low in
        put_from-Put new e i (length new) 0 (λ f has. fresh 0 e refl nz f has)
          (subst (IsFree new) (sym at) free) less (no_blocks new e.fn_id) (omega arith)
          (omega (arith, less))

    still :
        (a : ℕ) (x : WarmEntry)
        → get_elem? es a ≡ some x
        → x.fn_id ≢ 0
        → (f : WarmFunc) → Has new x.fn_id f ⊎ (x.fn_id ≡ e.fn_id)
        → ⊥
    still a x g h f (inl has) = fresh (suc a) x g h f has
    still a x g h f (inr q) = absurd (omega (arith, dis (suc a) 0 x e g refl h q))
