-- ===== src/Bytecode/Patches.antt =====
-- What a patch leaves of a chunk, and where it is found.
use fluxa_lang.Base.{
  ℕ, zero, suc, ◌≤◌, ◌≡◌, ◌≢◌, refl, ap, ◌∙◌, List, [], ◌∷◌, some, arith, length, get_elem?,
}
use fluxa_lang.Bytecode.{Instruction, Chunk, count, patch, patched}
use fluxa_lang.Bytecode.Extends.{Extends, IsGood}

length-patched : (is : List Instruction) (k offset : ℕ) → length (patched is k offset) ≡ length is
length-patched [] k offset = refl
length-patched (i ∷ is) zero offset = refl
length-patched (i ∷ is) (suc k) offset = ap suc (length-patched is k offset)

get_elem?-patched_ne :
    (is : List Instruction) (k offset j : ℕ)
    → k ≢ j
    → get_elem? (patched is k offset) j ≡ get_elem? is j
get_elem?-patched_ne [] k offset j h = refl
get_elem?-patched_ne (i ∷ is) zero offset zero h = absurd (h refl)
get_elem?-patched_ne (i ∷ is) zero offset (suc j) h = refl
get_elem?-patched_ne (i ∷ is) (suc k) offset zero h = refl
get_elem?-patched_ne (i ∷ is) (suc k) offset (suc j) h =
    get_elem?-patched_ne is k offset j (λ e. h (ap suc e))

get_elem?-patched :
    (is : List Instruction) (k offset : ℕ) (i : Instruction)
    → get_elem? is k ≡ some i
    → get_elem? (patched is k offset) k ≡ some (record i { offset = offset })
get_elem?-patched [] k offset i h = absurd (cc)
get_elem?-patched (j ∷ is) zero offset i h = cc
get_elem?-patched (j ∷ is) (suc k) offset i h = get_elem?-patched is k offset i h

pub patch-IsGood : (c : Chunk) (k offset : ℕ) → IsGood c → IsGood (patch c k offset)
unfolding patch
patch-IsGood c k offset g = record {
  is_ok = g.is_ok;
  past_locals = g.past_locals;
  below_peak = g.below_peak;
  within = g.within;
}

-- A patch behind the instructions of `c`.
pub patch-Extends :
    (c c' : Chunk) (k offset : ℕ) → count c ≤ k → Extends c c' → Extends c (patch c' k offset)
unfolding patch
patch-Extends c c' k offset h e = record {
  code_kept = λ j b.
      get_elem?-patched_ne c'.code k offset j (λ (q : k ≡ j). absurd (omega (arith, q, h, b)))
      ∙ e.code_kept j b;
  code_grows = omega (arith, e.code_grows, length-patched c'.code k offset);
  consts_kept = e.consts_kept;
  consts_grow = e.consts_grow;
  regs_grow = e.regs_grow;
  peak_grows = e.peak_grows;
}

pub count-patch : (c : Chunk) (k offset : ℕ) → count (patch c k offset) ≡ count c
unfolding patch
count-patch c k offset = length-patched c.code k offset

pub get-patch_ne :
    (c : Chunk) (k offset j : ℕ) → k ≢ j → get_elem? (patch c k offset).code j ≡ get_elem? c.code j
unfolding patch
get-patch_ne c k offset j h = get_elem?-patched_ne c.code k offset j h

pub get-patch :
    (c : Chunk) (k offset : ℕ) (i : Instruction)
    → get_elem? c.code k ≡ some i
    → get_elem? (patch c k offset).code k ≡ some (record i { offset = offset })
unfolding patch
get-patch c k offset i h = get_elem?-patched c.code k offset i h
