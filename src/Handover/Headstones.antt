-- ===== src/Handover/Headstones.antt =====
-- `runtime_prst_headstone_resources`: no live handle leaves the rehearsal.
use fluxa_lang.Base.{
  ℕ, ◌≡◌, refl, sym, ap, subst, ◌∙◌, List, [], ◌∷◌, map, All, inl, inr, arith, length, Option, none,
  some, str_eq, Bool-cases, ◌≢◌,
}
use fluxa_lang.Prst.Value.{Value, nil, dyn, val_type, type_dyn}
use fluxa_lang.Prst.Pool.{PrstPool, PrstEntry, pool_get}
use fluxa_lang.Prst.Pool.Lookup.{lookup, Distinct}
use fluxa_lang.Prst.Pool.Invariant.{IsEntry, IsValid, HasType}
use fluxa_lang.Prst.Pool.Update.{pool_get_lem, value_of, init_of}
use fluxa_lang.Handover.Steps.{headstone_value, headstone_entry, headstone_resources}
use mathlib.Core.Option

lookup-headstones :
    (name : List ℕ) (es : List PrstEntry)
    → lookup name (map headstone_entry es) ≡ Option.map headstone_entry (lookup name es)
unfolding lookup
lookup-headstones name [] = refl
lookup-headstones name (e ∷ es) = elim (Bool-cases (str_eq e.name name)) [
  | inl hit ↦ rw hit refl
  | inr miss ↦ rw miss (lookup-headstones name es)
]

Distinct-headstones : (es : List PrstEntry) → Distinct es → Distinct (map headstone_entry es)
Distinct-headstones [] d = tt
Distinct-headstones (e ∷ es) d =
    (lookup-headstones e.name es ∙ ap (Option.map headstone_entry) d.0, Distinct-headstones es d.1)

HasType-headstone : (t : ℕ) (v : Value) → HasType t v → HasType t (headstone_value v)
HasType-headstone t (dyn d) (inl e) = inr (refl, omega arith)
HasType-headstone t (dyn d) (inr (e, h)) = inr (refl, h)
HasType-headstone t v h = h

IsEntry-headstones : (es : List PrstEntry) → All IsEntry es → All IsEntry (map headstone_entry es)
IsEntry-headstones [] a = tt
IsEntry-headstones (e ∷ es) a = (
  record {
    name_ok = a.0.name_ok;
    buffer = a.0.buffer;
    typed = HasType-headstone e.declared_type e.value a.0.typed;
    init_typed = HasType-headstone e.declared_type e.init_value a.0.init_typed;
  },
  IsEntry-headstones es a.1,
)

length-headstones : (es : List PrstEntry) → length (map headstone_entry es) ≡ length es
length-headstones [] = refl
length-headstones (e ∷ es) = omega (arith, length-headstones es)

headstone_value-not_dyn : (v : Value) → val_type (headstone_value v) ≢ type_dyn
headstone_value-not_dyn (dyn d) e = absurd (omega arith)
headstone_value-not_dyn v e = absurd (omega arith)

-- What is declared of a variable.
abbrev pub declared : Option PrstEntry → Option (ℕ × ℕ)
declared none = none
declared (some e) = some (e.declared_type, e.stack_offset)

declared-map : (o : Option PrstEntry) → declared (Option.map headstone_entry o) ≡ declared o
declared-map none = refl
declared-map (some e) = refl

-- An entry without a handle of the collector.
abbrev pub HasNoHandle : PrstEntry → Type 0
HasNoHandle e = (val_type e.value ≢ type_dyn) × (val_type e.init_value ≢ type_dyn)

HasNoHandle-headstones : (es : List PrstEntry) → All HasNoHandle (map headstone_entry es)
HasNoHandle-headstones [] = tt
HasNoHandle-headstones (e ∷ es) = (
  (headstone_value-not_dyn e.value, headstone_value-not_dyn e.init_value),
  HasNoHandle-headstones es,
)

-- A valid pool is valid after its resources are headstones, no entry of it holds a handle of the
-- collector as its value or initialiser, and every variable keeps its declared type and offset.
pub headstones-IsValid :
    (p : PrstPool)
    → IsValid p
    → IsValid (headstone_resources p)
      × All HasNoHandle (headstone_resources p).entries
      × ((name : List ℕ)
          → declared (lookup name (headstone_resources p).entries)
            ≡ declared (lookup name p.entries))
unfolding headstone_resources
headstones-IsValid p w = (
  record {
    room = omega (arith, length-headstones p.entries, w.room);
    distinct = Distinct-headstones p.entries w.distinct;
    all_entries = IsEntry-headstones p.entries w.all_entries;
  },
  HasNoHandle-headstones p.entries,
  λ name. ap declared (lookup-headstones name p.entries) ∙ declared-map (lookup name p.entries),
)

-- What becomes of a value that is read.
abbrev pub Reads : Option Value → Option Value → Type 0
Reads none o = o ≡ none
Reads (some v) o = (val_type v ≡ type_dyn → o ≡ some nil) × (val_type v ≢ type_dyn → o ≡ some v)

headstone_value-Reads : (v : Value) → Reads (some v) (some (headstone_value v))
headstone_value-Reads (dyn d) = (λ e. refl, λ n. absurd (n refl))
headstone_value-Reads v = (λ e. absurd (omega arith), λ n. refl)

map-Reads : (o : Option Value) → Reads o (Option.map headstone_value o)
map-Reads none = refl
map-Reads (some v) = headstone_value-Reads v

value_of-map :
    (o : Option PrstEntry)
    → value_of (Option.map headstone_entry o) ≡ Option.map headstone_value (value_of o)
value_of-map none = refl
value_of-map (some e) = refl

init_of-map :
    (o : Option PrstEntry)
    → init_of (Option.map headstone_entry o) ≡ Option.map headstone_value (init_of o)
init_of-map none = refl
init_of-map (some e) = refl

-- After the resources of a pool became headstones a variable that held a handle of the collector
-- reads as nil, every other variable reads as before, and no variable is new; and the same holds of
-- the declared initialisers.
pub get-headstones :
    (p : PrstPool) (name : List ℕ)
    → Reads (pool_get p name) (pool_get (headstone_resources p) name)
      × Reads
          (init_of (lookup name p.entries))
          (init_of (lookup name (headstone_resources p).entries))
unfolding headstone_resources
get-headstones p name = (
  subst (Reads (pool_get p name)) (sym reads) (map-Reads (pool_get p name)),
  subst (Reads (init_of (lookup name p.entries))) (sym starts)
      (map-Reads (init_of (lookup name p.entries))),
)
  where
    reads : pool_get (headstone_resources p) name ≡ Option.map headstone_value (pool_get p name)
    reads =
        pool_get_lem (headstone_resources p) name
        ∙ ap value_of (lookup-headstones name p.entries)
        ∙ value_of-map (lookup name p.entries)
        ∙ ap (Option.map headstone_value) (sym (pool_get_lem p name))

    starts :
        init_of (lookup name (headstone_resources p).entries)
        ≡ Option.map headstone_value (init_of (lookup name p.entries))
    starts = ap init_of (lookup-headstones name p.entries) ∙ init_of-map (lookup name p.entries)
