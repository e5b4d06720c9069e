-- ===== src/ErrStack/History.antt =====
-- The error stack against the history of its pushes.
use fluxa_lang.Base.{
  ℕ, zero, suc, ◌+◌, ◌≤◌, ◌<◌, ◌≡◌, refl, List, [], ◌∷◌, none, arith, length, get_elem?, take,
  length-set, get_elem?-set_self, get_elem?-set_ne, get_elem?-take, get_elem?-beyond, length-take,
  ◌%◌, ◌-◌, ◌*◌, some, Option, map, sym, dec_lt, ◌∙◌,
}
use fluxa_lang.ErrStack.{
  ErrStack, ErrEntry, ErrKind, at, clear, push_entry, push, entry_of, get, err_stack_cap,
}

-- The representation invariant of `ErrStack`: every index stays inside the array.
pub record IsValid (s : ErrStack) : Type 0 where
  pub room : length s.entries ≡ err_stack_cap
  pub base_in : s.base < err_stack_cap
  pub count_in : s.count ≤ err_stack_cap

pub push_entry-IsValid : (s : ErrStack) (e : ErrEntry) → IsValid s → IsValid (push_entry s e)
unfolding push_entry
push_entry-IsValid s e v = ground (
  arith,
  length-set s.entries ((s.base + s.count) % err_stack_cap) e,
  length-set s.entries s.base e,
)

-- The array index of logical index `i`.
abbrev slot : ℕ → ℕ → ℕ → ℕ
slot base count i = (base + count + err_stack_cap * 2 - 1 - i) % err_stack_cap

get-push_entry-zero :
    (s : ErrStack) (e : ErrEntry) → IsValid s → get (push_entry s e) (at 0) ≡ some e
unfolding push_entry get
get-push_entry-zero s e v = ground (
  arith,
  get_elem?-set_self s.entries ((s.base + s.count) % err_stack_cap) e,
  get_elem?-set_self s.entries s.base e,
)

get-push_entry-suc :
    (s : ErrStack) (e : ErrEntry) (i : ℕ)
    → IsValid s
    → suc i < err_stack_cap
    → get (push_entry s e) (at (suc i)) ≡ get s (at i)
unfolding push_entry get
get-push_entry-suc s e i v h = ground (
  arith,
  get_elem?-set_ne s.entries ((s.base + s.count) % err_stack_cap) (slot s.base s.count i) e,
  get_elem?-set_ne s.entries s.base (slot s.base s.count i) e,
)

get_beyond : (s : ErrStack) (i : ℕ) → IsValid s → err_stack_cap ≤ i → get s (at i) ≡ none
unfolding get
get_beyond s i v h = ground arith

-- The arguments of one call of `errstack_push`.
pub record Report : Type 0 where
  pub kind : ErrKind
  pub message : Option (List ℕ)
  pub context : Option (List ℕ)
  pub line : ℕ

abbrev pub printed : Report → ErrEntry
printed r = entry_of r.kind r.message r.context r.line

-- The stack after the calls of a history, the newest call first.
unfoldable pub replay : ErrStack → List Report → ErrStack
replay s [] = s
replay s (r ∷ rs) = push (replay s rs) r.kind r.message r.context r.line

pub replay-IsValid : (s : ErrStack) (rs : List Report) → IsValid s → IsValid (replay s rs)
unfolding replay push
replay-IsValid s [] v = v
replay-IsValid s (r ∷ rs) v = push_entry-IsValid _ (printed r) (replay-IsValid s rs v)

clear-IsValid : (s : ErrStack) → length s.entries ≡ err_stack_cap → IsValid (clear s)
unfolding clear
clear-IsValid s h = omega arith

get-replay_valid :
    (s : ErrStack) (rs : List Report) (i : ℕ)
    → IsValid s
    → s.count ≡ 0
    → get (replay s rs) (at i) ≡ get_elem? (take err_stack_cap (map printed rs)) i
unfolding replay push
get-replay_valid s [] i v e = get_empty
  where
    get_empty : get s (at i) ≡ none
    get_empty = unfold get in ground arith
get-replay_valid s (r ∷ rs) zero v e =
    get-push_entry-zero (replay s rs) (printed r) (replay-IsValid s rs v)
get-replay_valid s (r ∷ rs) (suc i) v e = elim (dec_lt (suc i) err_stack_cap) [
  | yes h ↦
      get-push_entry-suc (replay s rs) (printed r) i (replay-IsValid s rs v) h
      ∙ get-replay_valid s rs i v e
      ∙ get_elem?-take 32 i (map printed rs) (omega arith)
      ∙ sym (get_elem?-take 31 i (map printed rs) (omega arith))
  | no h ↦
      get_beyond (replay s (r ∷ rs)) (suc i) (replay-IsValid s (r ∷ rs) v) (omega arith)
      ∙ sym (
          get_elem?-beyond i (take 31 (map printed rs))
            (omega (arith, length-take 31 (map printed rs))))
]

-- After a clear and any calls of push, index `i` of the error stack is the `i`-th newest of the 32
-- most recent reports, and NULL beyond those: the ring keeps the newest entries and drops the
-- oldest. The array must have its 32 entries, and `i` be no negative number.
pub get-replay :
    (s : ErrStack) (rs : List Report) (i : ℕ)
    → length s.entries ≡ err_stack_cap
    → get (replay (clear s) rs) (at i) ≡ get_elem? (take err_stack_cap (map printed rs)) i
unfolding clear
get-replay s rs i h = get-replay_valid (clear s) rs i (clear-IsValid s h) refl
