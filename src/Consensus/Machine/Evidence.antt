-- ===== src/Consensus/Machine/Evidence.antt =====
-- updateEvidences: the support quorums that a proposal carries reach the uncommitted blocks that they
-- are for, and from those on.
use obrs.Prelude.{
  ℕ, zero, suc, Option, none, some, List, [], ◌∷◌, ◌++◌, reverse, ◌==◌, if◌then◌else◌,
}
use obrs.Prelude.Outcome.{Outcome, ok, panic}
use obrs.Types.External.{External}
use obrs.Types.Vote.{Quorum, zero_quorum, support_quorum}
use obrs.Types.Block.{committed_block}
use obrs.Types.Memory.{Memory, set_quorum, set_commit, alloc_quorum}
use obrs.Types.Commit.{set_local_quorum, set_witness}
use obrs.Types.BlockSet.{BlockSet, query_in_set}
use obrs.State.{World, hash_shared}
use obrs.State.Executor.{ensure_commit}

-- `block.Commit.SetQuorum` and `SetWitness`
unfoldable pub set_evidence : ℕ → ℕ → ℕ → Memory → Memory
set_evidence b q witness m = elim (m.block_at b).commit [
  | none ↦ m
  | some c ↦ set_commit c (set_witness witness (set_local_quorum q (m.commit_at c))) m
]

-- The block that an evidence is used for: uncommitted, and known by its hash.
unfoldable pub evidence_block : Memory → BlockSet → Quorum → Option ℕ
evidence_block m bs e =
    if e.quorum_type == support_quorum
    then elim (query_in_set m bs e.block_hash) [
      | none ↦ none
      | some b ↦ if (m.block_at b).block_state == committed_block then none else some b
    ]
    else none

-- The loop of updateEvidence. Its variable is one object, at address `q`, which every commit that the
-- loop reaches points at and which each round overwrites. The last line is the log's call of `Hash`.
unfoldable pub mark_evidences : External → BlockSet → ℕ → ℕ → List Quorum → Memory → List ℕ × Memory
unfolding set_evidence evidence_block
mark_evidences ext bs q witness [] m = ([], m)
mark_evidences ext bs q witness (e ∷ es) m =
    let m' = set_quorum q e m in
    elim (evidence_block m' bs e) [
      | none ↦ mark_evidences ext bs q witness es m'
      | some b ↦
          let (blocks, m'') = mark_evidences ext bs q witness es (
            hash_shared ext witness
              (hash_shared ext b (set_evidence b q witness (ensure_commit b m')))) in
          (b ∷ blocks, m'')
    ]

-- updateEvidence: the blocks that got evidence, in order.
unfoldable pub update_evidence : External → World → ℕ → List ℕ × World
update_evidence ext w witness =
    let (blocks, m) =
      mark_evidences ext w.uncommit_blocks w.memory.next_quorum witness
        (w.memory.block_at witness).evidences (alloc_quorum zero_quorum w.memory) in
    (blocks, record w { memory = m })

-- The loop of updateEvidences over its stack, whose top is the head of the list. Nothing in the code
-- bounds it, so the rounds are an argument.
unfoldable pub update_evidences : ℕ → External → List ℕ → World → Outcome World
update_evidences fuel ext [] w = ok w
update_evidences zero ext (b ∷ stack) w = panic
update_evidences (suc fuel) ext (b ∷ stack) w =
    let (blocks, w') = update_evidence ext w b in
    update_evidences fuel ext (reverse blocks ++ stack) w'
