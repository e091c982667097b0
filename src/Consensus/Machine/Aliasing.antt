-- ===== src/Consensus/Machine/Aliasing.antt =====
-- updateEvidence in consensus/state.go: the quorum that the commits of the reached blocks point at.
use obrs.Prelude.{
  ℕ, ◌<◌, ◌≡◌, refl, sym, ap, subst, ◌∙◌, true, some, List, [], ◌∷◌, arith, Bool-cases,
  Option-cases, inl, inr, ◌==◌, ==_iff, holds,
}
use obrs.Types.External.{External}
use obrs.Types.Vote.{Quorum, zero_quorum}
use obrs.Types.Block.{Block, hash_block}
use obrs.Types.Memory.{Memory, set_quorum, alloc_quorum}
use obrs.Types.Commit.{set_witness, set_local_quorum}
use obrs.Types.BlockSet.{BlockSet}
use obrs.State.{World, hash_shared}
use obrs.State.Executor.{ensure_commit}
use obrs.Consensus.Machine.Evidence.{mark_evidences, update_evidence, evidence_block, set_evidence}

-- Every commit that a block points at has been made.
pub record IsAllocated (m : Memory) : Type 0 where
  pub made : (b c : ℕ) → (m.block_at b).commit ≡ some c → c < m.next_commit

-- The block's commit points at the quorum of an address.
abbrev pub PointsAt : ℕ → Memory → ℕ → Type 0
PointsAt q m b =
    (c : ℕ) × ((m.block_at b).commit ≡ some c) × ((m.commit_at c).local_quorum ≡ some q)

-- The last of the evidences, or what the quorum held before.
abbrev pub last_evidence : Quorum → List Quorum → Quorum
last_evidence d [] = d
last_evidence d (e ∷ es) = last_evidence e es

commit-hash_block : (ext : External) (b : Block) → (hash_block ext b).commit ≡ b.commit
unfolding hash_block
commit-hash_block ext b = ground arith

module _ (ext : External) (q witness : ℕ) where
  commit-hash_shared :
      (p b : ℕ) (m : Memory) → ((hash_shared ext p m).block_at b).commit ≡ (m.block_at b).commit
  unfolding hash_shared
  commit-hash_shared p b m = ground (arith, commit-hash_block ext (m.block_at p))

  -- The round for a block that is found, without the calls of `Hash` after it.
  abbrev noted : ℕ → Memory → Memory
  noted b m = set_evidence b q witness (ensure_commit b m)

  ensured : (b : ℕ) (m : Memory) → (c : ℕ) × (((ensure_commit b m).block_at b).commit ≡ some c)
  unfolding ensure_commit
  ensured b m = elim (Option-cases (m.block_at b).commit) [
    | inl missing ↦ (m.next_commit, ground arith)
    | inr (c, e) ↦ (c, ground arith)
  ]

  ensure-PointsAt :
      (b b₀ : ℕ) (m : Memory) → IsAllocated m → PointsAt q m b₀ → PointsAt q (ensure_commit b m) b₀
  unfolding ensure_commit
  ensure-PointsAt b b₀ m a (c, e, l) = let old = a.made b₀ c e in (c, ground arith, ground arith)

  commit-set_evidence :
      (b p : ℕ) (m : Memory)
      → ((set_evidence b q witness m).block_at p).commit ≡ (m.block_at p).commit
  unfolding set_evidence
  commit-set_evidence b p m = ground arith

  set_evidence-PointsAt :
      (b c : ℕ) (m : Memory)
      → (m.block_at b).commit ≡ some c
      → PointsAt q (set_evidence b q witness m) b
  unfolding set_evidence set_witness set_local_quorum
  set_evidence-PointsAt b c m e =
      (c, commit-set_evidence b b m ∙ e, rw (e, set_evidence) (rw ((==_iff c c).1 refl) refl))

  set_evidence-keeps :
      (b b₀ : ℕ) (m : Memory) → PointsAt q m b₀ → PointsAt q (set_evidence b q witness m) b₀
  unfolding set_evidence set_witness set_local_quorum
  set_evidence-keeps b b₀ m (c, e, l) = (
    c,
    commit-set_evidence b b₀ m ∙ e,
    elim (Option-cases (m.block_at b).commit) [
      | inl missing ↦ rw (missing, set_evidence) l
      | inr (x, held) ↦ elim (Bool-cases (c == x)) [
        | inl same ↦ rw (held, set_evidence) (rw same refl)
        | inr other ↦ rw (held, set_evidence) (rw other l)
      ]
    ],
  )

  -- The memory after the round for a block that is found.
  abbrev rounded : ℕ → Memory → Memory
  rounded b m = hash_shared ext witness (hash_shared ext b (noted b m))

  PointsAt-hash_shared :
      (p b : ℕ) (m : Memory) → PointsAt q m b → PointsAt q (hash_shared ext p m) b
  unfolding hash_shared
  PointsAt-hash_shared p b m (c, e, l) = (c, commit-hash_shared p b m ∙ e, l)

  IsAllocated-hash_shared : (p : ℕ) (m : Memory) → IsAllocated m → IsAllocated (hash_shared ext p m)
  unfolding hash_shared
  IsAllocated-hash_shared p m a = record {
    made = λ b c e. a.made b c (sym (commit-hash_shared p b m) ∙ e);
  }

  noted-IsAllocated : (b : ℕ) (m : Memory) → IsAllocated m → IsAllocated (noted b m)
  unfolding set_evidence ensure_commit
  noted-IsAllocated b m a = record { made = λ p c e. ground (arith, a.made p c) }

  quorum_at-noted : (b : ℕ) (m : Memory) → (noted b m).quorum_at ≡ m.quorum_at
  unfolding set_evidence ensure_commit
  quorum_at-noted b m = ground arith

  rounded-PointsAt : (b : ℕ) (m : Memory) → PointsAt q (rounded b m) b
  rounded-PointsAt b m =
      let (c, e) = ensured b m in
      PointsAt-hash_shared witness b _
        (PointsAt-hash_shared b b _ (set_evidence-PointsAt b c (ensure_commit b m) e))

  rounded-keeps :
      (b b₀ : ℕ) (m : Memory) → IsAllocated m → PointsAt q m b₀ → PointsAt q (rounded b m) b₀
  rounded-keeps b b₀ m a p = PointsAt-hash_shared witness b₀ _ (
      PointsAt-hash_shared b b₀ _
        (set_evidence-keeps b b₀ (ensure_commit b m) (ensure-PointsAt b b₀ m a p)))

  rounded-IsAllocated : (b : ℕ) (m : Memory) → IsAllocated m → IsAllocated (rounded b m)
  rounded-IsAllocated b m a =
      IsAllocated-hash_shared witness _ (IsAllocated-hash_shared b _ (noted-IsAllocated b m a))

  quorum_at-rounded : (b : ℕ) (m : Memory) → (rounded b m).quorum_at ≡ m.quorum_at
  unfolding hash_shared
  quorum_at-rounded b m = quorum_at-noted b m

  -- What the loop leaves for the blocks that it gives and for those that pointed at the quorum before.
  abbrev Marked : Memory → List Quorum → List ℕ × Memory → Type 0
  Marked m es r =
      ((b : ℕ) → holds r.0 b ≡ true → PointsAt q r.1 b)
      × ((b : ℕ) → PointsAt q m b → PointsAt q r.1 b)
      × (r.1.quorum_at q ≡ last_evidence (m.quorum_at q) es)

  mark_evidences-Marked :
      (bs : BlockSet) (es : List Quorum) (m : Memory)
      → IsAllocated m
      → Marked m es (mark_evidences ext bs q witness es m)
  unfolding mark_evidences
  mark_evidences-Marked bs [] m a = (λ b h. cc, λ b p. p, refl)
  mark_evidences-Marked bs (e ∷ es) m a =
      let m' = set_quorum q e m in
      let a' : IsAllocated m' = record { made = a.made } in
      elim (Option-cases (evidence_block m' bs e)) [
        | inl x ↦
            let (fresh, old, cell) = mark_evidences-Marked bs es m' a' in
            rw (x, mark_evidences)
              (fresh, old, cell ∙ ap (λ d. last_evidence d es) (rw ((==_iff q q).1 refl) refl))
        | inr (b, x) ↦
            let (fresh, old, cell) =
              mark_evidences-Marked bs es (rounded b m') (rounded-IsAllocated b m' a') in
            rw (x, mark_evidences)
              (
                λ b₀ h. elim (Bool-cases (b₀ == b)) [
                  | inl same ↦
                      subst (PointsAt q (mark_evidences ext bs q witness es (rounded b m')).1)
                        (sym ((==_iff b₀ b).0 same)) (old b (rounded-PointsAt b m'))
                  | inr other ↦ fresh b₀ (ground arith)
                ],
                λ b₀ p. old b₀ (rounded-keeps b b₀ m' a' p),
                cell
                    ∙ ap (λ (f : ℕ → Quorum). last_evidence (f q) es) (quorum_at-rounded b m')
                    ∙ ap (λ d. last_evidence d es) (rw ((==_iff q q).1 refl) refl),
              )
      ]

-- After updateEvidence, the commit of each block that it gives points at one quorum, which holds the
-- last of the witness's evidences, whichever evidence the block was reached by.
pub update_evidence-last :
    (ext : External) (w : World) (witness b : ℕ)
    → IsAllocated w.memory
    → holds (update_evidence ext w witness).0 b ≡ true
    → (c : ℕ) × (((update_evidence ext w witness).1.memory.block_at b).commit ≡ some c)
      × ((q : ℕ) × (((update_evidence ext w witness).1.memory.commit_at c).local_quorum ≡ some q)
          × ((update_evidence ext w witness).1.memory.quorum_at q
              ≡ last_evidence zero_quorum (w.memory.block_at witness).evidences))
unfolding update_evidence
update_evidence-last ext w witness b a h =
    let m = alloc_quorum zero_quorum w.memory in
    let (fresh, _, cell) =
      mark_evidences-Marked ext w.memory.next_quorum witness w.uncommit_blocks
        (w.memory.block_at witness).evidences m (record { made = a.made }) in
    let (c, e, l) = fresh b h in
    (
      c,
      e,
      (
        w.memory.next_quorum,
        l,
        cell
            ∙ ap (λ d. last_evidence d (w.memory.block_at witness).evidences)
                (rw ((==_iff w.memory.next_quorum w.memory.next_quorum).1 refl) refl),
      ),
    )
