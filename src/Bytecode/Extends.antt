-- ===== src/Bytecode/Extends.antt =====
-- What an operation of the compiler leaves of a chunk: the instructions and the constants that are
-- there, and the registers that are taken.
use fluxa_lang.Base.{
  ℕ, zero, suc, ◌+◌, ◌≤◌, ◌<◌, ◌≡◌, refl, ◌∙◌, List, [], ◌∷◌, ◌++◌, Option, none, some, true, ltb,
  leb, arith, Bool-cases, inl, inr, length, length-append, get_elem?, get_elem?-append_last,
}
use fluxa_lang.Prst.Value.{Value}
use fluxa_lang.Bytecode.{
  Instruction, Chunk, count, emit, add_const, alloc_reg, mark_string_reg, note_slot, max_const,
  max_reg,
}

get_elem?-append_front {ℓ} :
    {A : Type ℓ} (xs ys : List A) (i : ℕ) → i < length xs → get_elem? (xs ++ ys) i ≡ get_elem? xs i
get_elem?-append_front [] ys i h = absurd (omega arith)
get_elem?-append_front (x ∷ xs) ys zero h = refl
get_elem?-append_front (x ∷ xs) ys (suc i) h = get_elem?-append_front xs ys i (omega arith)

-- `c'` has the instructions and the constants of `c`, where they are, and no fewer registers in use.
pub record Extends (c c' : Chunk) : Type 0 where
  pub code_kept : (i : ℕ) → i < count c → get_elem? c'.code i ≡ get_elem? c.code i
  pub code_grows : count c ≤ count c'
  pub consts_kept : (k : ℕ) → k < length c.consts → get_elem? c'.consts k ≡ get_elem? c.consts k
  pub consts_grow : length c.consts ≤ length c'.consts
  pub regs_grow : c.next_reg ≤ c'.next_reg
  pub peak_grows : c.peak_reg ≤ c'.peak_reg

pub Extends-refl : (c : Chunk) → Extends c c
Extends-refl c = record {
  code_kept = λ i h. refl;
  code_grows = omega arith;
  consts_kept = λ k h. refl;
  consts_grow = omega arith;
  regs_grow = omega arith;
  peak_grows = omega arith;
}

pub Extends-trans : {c c' c'' : Chunk} → Extends c c' → Extends c' c'' → Extends c c''
Extends-trans e f = record {
  code_kept = λ i h. f.code_kept i (omega (arith, e.code_grows)) ∙ e.code_kept i h;
  code_grows = omega (arith, e.code_grows, f.code_grows);
  consts_kept = λ k h. f.consts_kept k (omega (arith, e.consts_grow)) ∙ e.consts_kept k h;
  consts_grow = omega (arith, e.consts_grow, f.consts_grow);
  regs_grow = omega (arith, e.regs_grow, f.regs_grow);
  peak_grows = omega (arith, e.peak_grows, f.peak_grows);
}

pub emit-Extends : (c : Chunk) (i : Instruction) → Extends c (emit c i)
unfolding emit
emit-Extends c i = record {
  code_kept = λ j h. get_elem?-append_front c.code (i ∷ []) j h;
  code_grows = omega (arith, length-append c.code (i ∷ []));
  consts_kept = λ k h. refl;
  consts_grow = omega arith;
  regs_grow = omega arith;
  peak_grows = omega arith;
}

pub count-emit : (c : Chunk) (i : Instruction) → count (emit c i) ≡ count c + 1
unfolding emit
count-emit c i = omega (arith, length-append c.code (i ∷ []))

pub last-emit : (c : Chunk) (i : Instruction) → get_elem? (emit c i).code (count c) ≡ some i
unfolding emit
last-emit c i = get_elem?-append_last c.code i

-- A chunk that is compiled so far, with its registers in order.
pub record IsGood (c : Chunk) : Type 0 where
  pub is_ok : c.ok ≡ true
  pub past_locals : 128 ≤ c.next_reg
  pub below_peak : c.next_reg ≤ c.peak_reg
  pub within : c.peak_reg ≤ 512

-- A constant that was added.
pub record Added (c : Chunk) (v : Value) (res : Chunk × ℕ) : Type 0 where
  pub good : IsGood res.0
  pub grows : Extends c res.0
  pub stands : get_elem? res.0.consts res.1 ≡ some v
  pub index_bound : res.1 < length res.0.consts
  pub small : res.1 < 128
  pub same_code : res.0.code ≡ c.code
  pub same_regs : res.0.next_reg ≡ c.next_reg

pub add_const-Added :
    (c : Chunk) (v : Value) → IsGood c → (add_const c v).0.ok ≡ true → Added c v (add_const c v)
unfolding add_const
add_const-Added c v g h = elim (Bool-cases (leb max_const (length c.consts))) [
  | inl full ↦ absurd (cc (rw full at h))
  | inr free ↦ rw free (record {
    good = record {
      is_ok = g.is_ok;
      past_locals = g.past_locals;
      below_peak = g.below_peak;
      within = g.within;
    };
    grows = record {
      code_kept = λ j k. refl;
      code_grows = omega arith;
      consts_kept = λ j k. get_elem?-append_front c.consts (v ∷ []) j k;
      consts_grow = omega (arith, length-append c.consts (v ∷ []));
      regs_grow = omega arith;
      peak_grows = omega arith;
    };
    stands = get_elem?-append_last c.consts v;
    index_bound = omega (arith, length-append c.consts (v ∷ []));
    small = ground (arith, free);
    same_code = refl;
    same_regs = refl;
  })
]

-- A register that was taken.
pub record Taken (c : Chunk) (res : Chunk × ℕ) : Type 0 where
  pub good : IsGood res.0
  pub grows : Extends c res.0
  pub is_next : res.1 ≡ c.next_reg
  pub next : res.0.next_reg ≡ c.next_reg + 1
  pub same_code : res.0.code ≡ c.code
  pub same_consts : res.0.consts ≡ c.consts

pub alloc_reg-Taken : (c : Chunk) → IsGood c → (alloc_reg c).0.ok ≡ true → Taken c (alloc_reg c)
unfolding alloc_reg
alloc_reg-Taken c g h = elim (Bool-cases (leb max_reg c.next_reg)) [
  | inl full ↦ absurd (cc (rw full at h))
  | inr free ↦ rw free (record {
    good = record {
      is_ok = g.is_ok;
      past_locals = omega (arith, g.past_locals);
      below_peak = ground (arith, g.below_peak);
      within = ground (arith, free, g.within);
    };
    grows = record {
      code_kept = λ j k. refl;
      code_grows = omega arith;
      consts_kept = λ j k. refl;
      consts_grow = omega arith;
      regs_grow = omega arith;
      peak_grows = ground arith;
    };
    is_next = refl;
    next = refl;
    same_code = refl;
    same_consts = refl;
  })
]

pub emit-IsGood : (c : Chunk) (i : Instruction) → IsGood c → IsGood (emit c i)
unfolding emit
emit-IsGood c i g = record {
  is_ok = g.is_ok;
  past_locals = g.past_locals;
  below_peak = g.below_peak;
  within = g.within;
}

pub emit-ok : (c : Chunk) (i : Instruction) → (emit c i).ok ≡ true → c.ok ≡ true
unfolding emit
emit-ok c i h = h

pub alloc_reg-ok : (c : Chunk) → (alloc_reg c).0.ok ≡ true → c.ok ≡ true
unfolding alloc_reg
alloc_reg-ok c h = elim (Bool-cases (leb max_reg c.next_reg)) [
  | inl full ↦ absurd (cc (rw full at h))
  | inr free ↦ rw free at h
]

-- A register that was marked: nothing else is another.
pub record Marked (c c' : Chunk) : Type 0 where
  pub good : IsGood c'
  pub grows : Extends c c'
  pub same_code : c'.code ≡ c.code
  pub same_consts : c'.consts ≡ c.consts
  pub same_regs : c'.next_reg ≡ c.next_reg

pub mark-Marked :
    (c : Chunk) (r : ℕ)
    → IsGood c
    → (mark_string_reg c r).ok ≡ true
    → Marked c (mark_string_reg c r)
unfolding mark_string_reg
mark-Marked c r g h = elim (Bool-cases (leb max_reg r)) [
  | inl full ↦ absurd (cc (rw full at h))
  | inr free ↦ rw free (record {
    good = record {
      is_ok = g.is_ok;
      past_locals = g.past_locals;
      below_peak = g.below_peak;
      within = g.within;
    };
    grows = record {
      code_kept = λ j k. refl;
      code_grows = omega arith;
      consts_kept = λ j k. refl;
      consts_grow = omega arith;
      regs_grow = omega arith;
      peak_grows = omega arith;
    };
    same_code = refl;
    same_consts = refl;
    same_regs = refl;
  })
]

pub mark-ok : (c : Chunk) (r : ℕ) → (mark_string_reg c r).ok ≡ true → c.ok ≡ true
unfolding mark_string_reg
mark-ok c r h = elim (Bool-cases (leb max_reg r)) [
  | inl full ↦ absurd (cc (rw full at h))
  | inr free ↦ rw free at h
]

pub Marked-refl : (c : Chunk) → IsGood c → Marked c c
Marked-refl c g = record {
  good = g;
  grows = Extends-refl c;
  same_code = refl;
  same_consts = refl;
  same_regs = refl;
}

pub note_slot-Marked : (c : Chunk) (off : Option ℕ) → IsGood c → Marked c (note_slot c off)
unfolding note_slot
note_slot-Marked c none g = Marked-refl c g
note_slot-Marked c (some off) g = elim (Bool-cases (ltb c.max_slot (off + 1))) [
  | inl t ↦ rw t (record {
    good = record {
      is_ok = g.is_ok;
      past_locals = g.past_locals;
      below_peak = g.below_peak;
      within = g.within;
    };
    grows = record {
      code_kept = λ j k. refl;
      code_grows = omega arith;
      consts_kept = λ j k. refl;
      consts_grow = omega arith;
      regs_grow = omega arith;
      peak_grows = omega arith;
    };
    same_code = refl;
    same_consts = refl;
    same_regs = refl;
  })
  | inr f ↦ rw f (Marked-refl c g)
]
