-- ===== src/Consensus/Machine/Endless.antt =====
-- updateEvidences of consensus/state.go, on a block that carries a support quorum for itself.
use obrs.Prelude.{ℕ, zero, suc, ◌≡◌, ◌≢◌, refl, sym, ◌∙◌, some, List, [], ◌∷◌, arith}
use obrs.Prelude.Bytes.{Bytes, bytes_equal_refl}
use obrs.Prelude.Outcome.{panic}
use obrs.Types.External.{External}
use obrs.Types.Vote.{Quorum, zero_quorum, support_quorum}
use obrs.Types.Block.{Block, committed_block, hash_block}
use obrs.Types.Memory.{Memory, set_quorum, alloc_quorum}
use obrs.Types.BlockSet.{query_in_set, has_hash}
use obrs.State.{World, hash_shared}
use obrs.State.Executor.{ensure_commit}
use obrs.Consensus.Machine.Evidence.{
  mark_evidences, update_evidence, update_evidences, evidence_block, set_evidence,
}

-- The first of the uncommitted blocks is not committed and has one evidence, a support quorum for its
-- own hash.
pub record IsSelfEvident (w : World) (b : ℕ) (rest : List ℕ) (e : Quorum) : Type 0 where
  pub waiting : w.uncommit_blocks ≡ b ∷ rest
  pub hash : (w.memory.block_at b).block_hash ≡ some e.block_hash
  pub evidence : (w.memory.block_at b).evidences ≡ e ∷ []
  pub support : e.quorum_type ≡ support_quorum
  pub open_block : (w.memory.block_at b).block_state ≢ committed_block

-- What the loop reads of a block stays.
abbrev Reads : Block → Block → Type 0
Reads b b' =
    (b'.evidences ≡ b.evidences)
    × (b'.block_state ≡ b.block_state)
    × ((h : Bytes) → b.block_hash ≡ some h → b'.block_hash ≡ some h)

hash_block-Reads : (ext : External) (b : Block) → Reads b (hash_block ext b)
unfolding hash_block
hash_block-Reads ext b = (ground arith, ground arith, λ h e. ground arith)

module _ (ext : External) (b : ℕ) (rest : List ℕ) (e : Quorum) where
  prepared-Reads :
      (q : ℕ) (m : Memory)
      → Reads (m.block_at b) ((set_evidence b q b (ensure_commit b m)).block_at b)
  unfolding set_evidence ensure_commit
  prepared-Reads q m = (ground arith, ground arith, λ h x. ground arith)

  found :
      (q : ℕ) (m : Memory)
      → (m.block_at b).block_hash ≡ some e.block_hash
      → e.quorum_type ≡ support_quorum
      → (m.block_at b).block_state ≢ committed_block
      → evidence_block (set_quorum q e m) (b ∷ rest) e ≡ some b
  unfolding evidence_block query_in_set has_hash
  found q m h k o = ground (arith, bytes_equal_refl e.block_hash)

  hash_shared-Reads : (m : Memory) → Reads (m.block_at b) ((hash_shared ext b m).block_at b)
  unfolding hash_shared
  hash_shared-Reads m = ground (arith, hash_block-Reads ext (m.block_at b))

  -- The memory after the only round of updateEvidence.
  abbrev after_round : ℕ → Memory → Memory
  after_round q m =
      hash_shared ext b
        (hash_shared ext b (set_evidence b q b (ensure_commit b (set_quorum q e m))))

  mark_evidences_self :
      (q : ℕ) (m : Memory)
      → (m.block_at b).block_hash ≡ some e.block_hash
      → e.quorum_type ≡ support_quorum
      → (m.block_at b).block_state ≢ committed_block
      → mark_evidences ext (b ∷ rest) q b (e ∷ []) m ≡ (b ∷ [], after_round q m)
  unfolding mark_evidences
  mark_evidences_self q m h k o = rw (found q m h k o, mark_evidences)

  after_round-Reads : (q : ℕ) (m : Memory) → Reads (m.block_at b) ((after_round q m).block_at b)
  after_round-Reads q m =
      let m₁ = set_evidence b q b (ensure_commit b (set_quorum q e m)) in
      let r₁ = prepared-Reads q (set_quorum q e m) in
      let r₂ = hash_shared-Reads m₁ in
      let r₃ = hash_shared-Reads (hash_shared ext b m₁) in
      (r₃.0 ∙ r₂.0 ∙ r₁.0, r₃.1 ∙ r₂.1 ∙ r₁.1, λ h x. r₃.2 h (r₂.2 h (r₁.2 h x)))

  update_evidence_self :
      (w : World)
      → IsSelfEvident w b rest e
      → ((update_evidence ext w b).0 ≡ b ∷ []) × IsSelfEvident (update_evidence ext w b).1 b rest e
  unfolding update_evidence
  update_evidence_self w s =
      let m = alloc_quorum zero_quorum w.memory in
      let once = mark_evidences_self w.memory.next_quorum m s.hash s.support s.open_block in
      let kept = after_round-Reads w.memory.next_quorum m in
      rw (s.evidence, s.waiting, once)
        (
          refl,
          record {
            waiting = refl;
            hash = kept.2 e.block_hash s.hash;
            evidence = kept.0 ∙ s.evidence;
            support = s.support;
            open_block = λ x. s.open_block (sym kept.1 ∙ x);
          },
        )

  -- A block that is the first of the uncommitted ones, is not committed and carries exactly one
  -- evidence, a support quorum for its own hash, keeps updateEvidences running: whatever number of
  -- rounds the loop is given, it has not come to its end.
  pub update_evidences-endless :
      (fuel : ℕ) (w : World)
      → IsSelfEvident w b rest e
      → update_evidences fuel ext (b ∷ []) w ≡ panic
  unfolding update_evidences
  update_evidences-endless zero w s = refl
  update_evidences-endless (suc fuel) w s =
      let (again, s') = update_evidence_self w s in
      rw (again, update_evidences) (update_evidences-endless fuel (update_evidence ext w b).1 s')
