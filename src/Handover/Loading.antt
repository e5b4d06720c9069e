-- ===== src/Handover/Loading.antt =====
-- Reading a snapshot, whatever stands in it.
use fluxa_lang.Base.{
  ℕ, ◌≤◌, ◌<◌, ◌≡◌, ◌≢◌, refl, List, arith, inl, inr, Bool-cases, ◌++◌, some, Option-cases, sym,
  ◌∙◌, of_le, le_bytes, length-append, subst, length, ◌+◌,
}
use fluxa_lang.Prst.Pool.{PrstPool}
use fluxa_lang.Prst.Pool.Invariant.{IsValid}
use fluxa_lang.Prst.Checksum.{pool_checksum}
use fluxa_lang.Prst.Wire
use fluxa_lang.Prst.Graph
use fluxa_lang.Handover.Context.{ok, Runtime, handover_magic, Run, returns, faults, out_of_fuel}
use fluxa_lang.Handover.Snapshot.{
  Grants, Taken, taken, not_serialized, not_allocated, snapshot_of, header_bytes, Header, header_of,
  header_size,
}

-- A run that ends, and satisfies `P` if it returns OK.
abbrev pub Lands {ℓ} : {A : Type ℓ} → (A → Type 0) → Run A → Type 0
Lands P (returns a ok) = P a
Lands P (returns a r) = Unit {0}
Lands P faults = ⊥
Lands P out_of_fuel = ⊥

pub Lands-map {ℓ} :
    {A : Type ℓ} (P Q : A → Type 0) (m : Run A) → ((a : A) → P a → Q a) → Lands P m → Lands Q m
Lands-map P Q (returns a ok) f k = f a k
Lands-map P Q (returns a r) f k = tt
Lands-map P Q faults f k = k
Lands-map P Q out_of_fuel f k = k

-- A pool part that is accepted is valid and has its checksum.
abbrev pub PoolChecks : Header → PrstPool → Type 0
PoolChecks hdr p = IsValid p × (0 < hdr.pool_size → pool_checksum p ≡ hdr.pool_checksum)

-- A snapshot that is accepted: its magic and version are those of the protocol, the pool of the
-- runtime is valid, and pool and graph have the checksums that the snapshot says.
pub record Accepted (s : List ℕ) (b : Runtime) : Type 0 where
  pub magic : (header_of s).magic ≡ handover_magic
  pub version : (1000 ≤ (header_of s).version) × ((header_of s).version ≤ 1001)
  pub pool : PoolChecks (header_of s) b.prst_pool
  pub graph :
      0 < (header_of s).graph_size → Graph.checksum b.prst_graph ≡ (header_of s).graph_checksum

-- The two parts end within the snapshot, by the sizes in its header.
abbrev pub IsWhole : List ℕ → Type 0
IsWhole s = header_size + (header_of s).pool_size + (header_of s).graph_size ≤ length s

-- What is in a snapshot that was taken.
pub snapshot_of_parts :
    (g : Grants) (a : Runtime) (s : List ℕ)
    → snapshot_of g a ≡ taken s
    → (pb : List ℕ) × (gb : List ℕ) × (Wire.serialize g.pool_buffer a.prst_pool ≡ some pb)
      × (Graph.serialize g.graph_buffer a.prst_graph ≡ some gb)
      × (header_bytes a (length pb) (length gb) ++ (pb ++ gb) ≡ s)
unfolding snapshot_of
snapshot_of_parts g a s e = elim (Option-cases (Wire.serialize g.pool_buffer a.prst_pool)) [
  | inl no_pool ↦ absurd (never not_serialized (λ f. cc) (rw (no_pool, snapshot_of) refl))
  | inr (pb, ep) ↦ elim (Option-cases (Graph.serialize g.graph_buffer a.prst_graph)) [
    | inl no_graph ↦
        absurd
          (never not_serialized (λ f. cc) (rw (ep, snapshot_of) (rw (no_graph, snapshot_of) refl)))
    | inr (gb, eg) ↦ elim (Bool-cases g.snapshot) [
      | inl yes' ↦ (
        pb,
        gb,
        ep,
        eg,
        same (header_bytes a (length pb) (length gb) ++ (pb ++ gb))
            (rw (ep, snapshot_of) (rw (eg, snapshot_of) (rw yes' refl))),
      )
      | inr no' ↦ absurd (
          never not_allocated (λ f. cc) (rw (ep, snapshot_of) (rw (eg, snapshot_of) (rw no' refl))))
    ]
  ]
]
  where
    never : (t : Taken) → t ≢ taken s → snapshot_of g a ≡ t → ⊥
    never t n f = n (sym f ∙ e)

    same : (t : List ℕ) → snapshot_of g a ≡ taken t → t ≡ s
    same t f = cc

-- A size that is written is not more than the size, though it is cut to its 32 bits.
word_le : (v : ℕ) → of_le (le_bytes 4 v) ≤ v
word_le v = omega arith

pub snapshot_of-IsWhole :
    (g : Grants) (a : Runtime) (s : List ℕ) → snapshot_of g a ≡ taken s → IsWhole s
snapshot_of-IsWhole g a s e =
    let (pb, gb, _, _, parts) = snapshot_of_parts g a s e in
    subst IsWhole parts
      (omega (arith, word_le (length pb), word_le (length gb), length-append pb gb))
