-- ===== src/Bytecode/Statements/Drops.antt =====
-- The drops of strings behind a statement, and the registers that are given back.
use fluxa_lang.Base.{
  ℕ, zero, suc, ◌+◌, ◌-◌, ◌≤◌, ◌<◌, ◌≡◌, refl, sym, ap, ◌∙◌, List, some, Bool, true, false,
  if◌then◌else◌, arith, Bool-cases, inl, inr, get_elem?,
}
use fluxa_lang.Prst.Value.{nil}
use fluxa_lang.Bytecode.{
  Instruction, instr, drop_str, Chunk, count, emit, drop_reg, drops_from, string_drops, at_most_max,
}
use fluxa_lang.Bytecode.Values.{Doubles}
use fluxa_lang.Bytecode.Machine.{Callbacks, Machine, running, step, dispatch, write}
use fluxa_lang.Bytecode.Extends.{
  Extends, Extends-refl, Extends-trans, IsGood, emit-Extends, count-emit, last-emit,
}
use fluxa_lang.Bytecode.Runs.{
  Reaches, here, next, Reaches-trans, Leaves, Leaves-refl, Leaves-trans, write-Leaves,
  step-dispatch,
}

-- A piece of code that the machine goes through, with the registers below `k` as they were.
abbrev pub Passes : {W : Type 0} → Doubles → Callbacks W → ℕ → Chunk → Chunk → Type 0
Passes {W} d cb k c c' =
    (code : List Instruction) (m : Machine W)
    → ((i : ℕ) → count c ≤ i → i < count c' → get_elem? code i ≡ get_elem? c'.code i)
    → m.ip ≡ count c
    → (m' : Machine W) × Reaches d cb code m m' × (m'.ip ≡ count c') × Leaves k m m'

-- The chunk after drops.
pub record Dropping {W : Type 0} (d : Doubles) (cb : Callbacks W) (k : ℕ) (c c' : Chunk)
    : Type 0 where
  pub same_ok : c'.ok ≡ c.ok
  pub grows : Extends c c'
  pub same_regs : c'.next_reg ≡ c.next_reg
  pub same_peak : c'.peak_reg ≡ c.peak_reg
  pub passes : Passes d cb k c c'

module _ {W : Type 0} (d : Doubles) (cb : Callbacks W) where
  Dropping-refl : (k : ℕ) (c : Chunk) → Dropping d cb k c c
  Dropping-refl k c = record {
    same_ok = refl;
    grows = Extends-refl c;
    same_regs = refl;
    same_peak = refl;
    passes = λ code m cov at. (m, here, at, Leaves-refl k m);
  }

  -- Drops behind drops; the first registers are the lower ones.
  Dropping-trans :
      (k : ℕ) {c c1 c2 : Chunk}
      → Dropping d cb k c c1
      → Dropping d cb k c1 c2
      → Dropping d cb k c c2
  Dropping-trans k a b = record {
    same_ok = b.same_ok ∙ a.same_ok;
    grows = Extends-trans a.grows b.grows;
    same_regs = b.same_regs ∙ a.same_regs;
    same_peak = b.same_peak ∙ a.same_peak;
    passes = λ code m cov at.
        let (m1, r1, ip1, l1) =
          a.passes code m
            (λ i x y. cov i x (omega (arith, y, b.grows.code_grows)) ∙ b.grows.code_kept i y) at in
        let (m2, r2, ip2, l2) =
          b.passes code m1 (λ i x y. cov i (omega (arith, x, a.grows.code_grows)) y) ip1 in
        (m2, Reaches-trans d cb code r1 r2, ip2, Leaves-trans k k (omega arith) l1 l2);
  }

  step-drop :
      (code : List Instruction) (m : Machine W) (r : ℕ)
      → get_elem? code m.ip ≡ some (instr drop_str r 0 0 0)
      → step d cb code m ≡ running (write (record m { ip = m.ip + 1 }) r nil)
  unfolding dispatch
  step-drop code m r h = step-dispatch d cb code m (instr drop_str r 0 0 0) h

  drop_reg-Dropping : (k r : ℕ) (c : Chunk) → k ≤ r → Dropping d cb k c (drop_reg c r)
  unfolding drop_reg
  drop_reg-Dropping k r c h = elim (Bool-cases (c.string_regs r)) [
    | inl t ↦ rw t (record {
      same_ok = unfold emit in refl;
      grows = record {
        code_kept = (emit-Extends c _).code_kept;
        code_grows = (emit-Extends c _).code_grows;
        consts_kept = (emit-Extends c _).consts_kept;
        consts_grow = (emit-Extends c _).consts_grow;
        regs_grow = (emit-Extends c _).regs_grow;
        peak_grows = (emit-Extends c _).peak_grows;
      };
      same_regs = unfold emit in refl;
      same_peak = unfold emit in refl;
      passes = λ code m cov at. (
        write (record m { ip = m.ip + 1 }) r nil,
        next
            (step-drop code m r (
              ap (get_elem? code) at
              ∙ cov (count c) (omega arith) (omega (arith, count-emit c (instr drop_str r 0 0 0)))
              ∙ last-emit c (instr drop_str r 0 0 0)))
            here,
        ap (λ n. n + 1) at ∙ sym (count-emit c (instr drop_str r 0 0 0)),
        write-Leaves k r nil (m.ip + 1) m h,
      );
    })
    | inr f ↦ rw f (Dropping-refl k c)
  ]

  drops_from-Dropping : (k n r : ℕ) (c : Chunk) → k ≤ r → Dropping d cb k c (drops_from n r c)
  unfolding drops_from
  drops_from-Dropping k zero r c h = Dropping-refl k c
  drops_from-Dropping k (suc n) r c h =
      Dropping-trans k (drop_reg-Dropping k r c h)
        (drops_from-Dropping k n (r + 1) (drop_reg c r) (omega (arith, h)))

  pub string_drops-Dropping :
      (k : ℕ) (c : Chunk) (end' : ℕ) → Dropping d cb k c (string_drops c k end')
  unfolding string_drops
  string_drops-Dropping k c end' = drops_from-Dropping k (at_most_max end' - k) k c (omega arith)

  -- The drops of a test, which are left out where they would drop the tested register.
  pub condition_drops :
      (k : ℕ) (c : Chunk) (b : Bool) (end' : ℕ)
      → Dropping d cb k c (if b then c else string_drops c k end')
  condition_drops k c true end' = Dropping-refl k c
  condition_drops k c false end' = string_drops-Dropping k c end'

-- With the registers given back down to `k`.
pub Extends-reset :
    {c c' : Chunk}
    → Extends c c'
    → (k : ℕ) → Extends (record c { next_reg = k }) (record c' { next_reg = k })
Extends-reset x k = record {
  code_kept = x.code_kept;
  code_grows = x.code_grows;
  consts_kept = x.consts_kept;
  consts_grow = x.consts_grow;
  regs_grow = omega arith;
  peak_grows = x.peak_grows;
}

pub Extends-back : {c c' : Chunk} → Extends c c' → Extends c (record c' { next_reg = c.next_reg })
Extends-back x = record {
  code_kept = x.code_kept;
  code_grows = x.code_grows;
  consts_kept = x.consts_kept;
  consts_grow = x.consts_grow;
  regs_grow = omega arith;
  peak_grows = x.peak_grows;
}

pub IsGood-back :
    {c c' : Chunk}
    → IsGood c
    → IsGood c'
    → Extends c c'
    → IsGood (record c' { next_reg = c.next_reg })
IsGood-back g g' x = record {
  is_ok = g'.is_ok;
  past_locals = g.past_locals;
  below_peak = omega (arith, g.below_peak, x.peak_grows);
  within = g'.within;
}

pub Dropping-good :
    {W : Type 0} {d : Doubles} {cb : Callbacks W} {k : ℕ} {c c' : Chunk}
    → Dropping d cb k c c'
    → IsGood c
    → IsGood c'
Dropping-good x g = record {
  is_ok = x.same_ok ∙ g.is_ok;
  past_locals = omega (arith, g.past_locals, x.same_regs);
  below_peak = omega (arith, g.below_peak, x.same_regs, x.same_peak);
  within = omega (arith, g.within, x.same_peak);
}
