-- ===== src/State/Executor/Evidences.antt =====
-- UpdateState of state/executor.go: what the evidences of a proposal do to blocks.
use obrs.Prelude.{
  ℕ, ◌≡◌, ◌≢◌, refl, ◌∙◌, Bool, true, false, Option, none, some, List, [], ◌∷◌, arith, ◌==◌, inl,
  inr, ◌⊎◌, if◌then◌else◌, holds, find, Option-cases,
}
use obrs.Prelude.Int.{ℤ}
use obrs.Prelude.Bytes.{Bytes}
use obrs.Types.Vote.{Quorum, support_quorum, against_quorum}
use obrs.Types.Block.{Block, BlockState, committed_block, error_block, precommit_block}
use obrs.Types.Memory.{Memory}
use obrs.Types.BlockSet.{BlockSet, query_in_set, has_hash}
use obrs.State.{State, World}
use obrs.State.Executor.{ensure_commit, follow_quorum, use_evidence, use_evidences, update_state}

-- The state of a block after an evidence of a kind.
abbrev pub judged_state : Quorum → BlockState → BlockState
judged_state e s =
    if e.quorum_type == support_quorum
    then precommit_block
    else if e.quorum_type == against_quorum
    then error_block
    else s

block_state-follow_quorum :
    (now : ℤ) (e : Quorum) (b : Block)
    → (follow_quorum now e b).block_state ≡ judged_state e b.block_state
unfolding follow_quorum
block_state-follow_quorum now e b = ground arith

vote_quorum-follow_quorum :
    (now : ℤ) (e : Quorum) (b : Block) → (follow_quorum now e b).vote_quorum ≡ e
unfolding follow_quorum
vote_quorum-follow_quorum now e b = ground arith

-- A block that is not committed takes on the evidence and the state that it stands for; a committed
-- block keeps everything.
pub use_evidence_at :
    (now : ℤ) (e : Quorum) (m : Memory) (b : ℕ)
    → (((m.block_at b).block_state ≡ committed_block) × (use_evidence now e (some b) m ≡ m))
      ⊎ (((m.block_at b).block_state ≢ committed_block)
          × (((use_evidence now e (some b) m).block_at b).vote_quorum ≡ e)
          × (((use_evidence now e (some b) m).block_at b).block_state
              ≡ judged_state e (m.block_at b).block_state))
unfolding use_evidence
use_evidence_at now e m b =
    let b' = record (m.block_at b) { commit = ((ensure_commit b m).block_at b).commit } in
    ground (arith, block_state-follow_quorum now e b', vote_quorum-follow_quorum now e b')

find-holds : (bs : BlockSet) (p : ℕ → Bool) (b : ℕ) → find p bs ≡ some b → holds bs b ≡ true
find-holds [] p b e = ground arith
find-holds (x ∷ xs) p b e = ground (arith, find-holds xs p b)

pub query-holds :
    (m : Memory) (bs : BlockSet) (hash : Bytes) (b : ℕ)
    → query_in_set m bs hash ≡ some b
    → holds bs b ≡ true
unfolding query_in_set
query-holds m bs hash b e = find-holds bs (has_hash m hash) b e

-- One evidence leaves every committed block, and every block outside the set, as it was.
use_evidence-keeps :
    (now : ℤ) (e : Quorum) (m : Memory) (o : Option ℕ) (c : ℕ)
    → (o ≢ some c) ⊎ ((m.block_at c).block_state ≡ committed_block)
    → (use_evidence now e o m).block_at c ≡ m.block_at c
unfolding use_evidence ensure_commit
use_evidence-keeps now e m none c h = refl
use_evidence-keeps now e m (some b) c h = ground arith

-- The evidences of a proposal change no committed block and no block outside the set of the
-- uncommitted ones, and never the set or the tree.
pub use_evidences-keeps :
    (now : ℤ) (w : World) (es : List Quorum) (c : ℕ)
    → (holds w.uncommit_blocks c ≡ false) ⊎ ((w.memory.block_at c).block_state ≡ committed_block)
    → ((use_evidences now w es).memory.block_at c ≡ w.memory.block_at c)
      × ((use_evidences now w es).uncommit_blocks ≡ w.uncommit_blocks)
      × ((use_evidences now w es).block_tree ≡ w.block_tree)
unfolding use_evidences
use_evidences-keeps now w [] c h = (refl, refl, refl)
use_evidences-keeps now w (e ∷ es) c h =
    let found = query_in_set w.memory w.uncommit_blocks e.block_hash in
    let one = use_evidence-keeps now e w.memory found c (aimed found refl h) in
    let w' = record w { memory = use_evidence now e found w.memory } in
    let (same, set, tree) = use_evidences-keeps now w' es c (ground arith) in
    (same ∙ one, set, tree)
  where
    aimed :
        (o : Option ℕ)
        → query_in_set w.memory w.uncommit_blocks e.block_hash ≡ o
        → (holds w.uncommit_blocks c ≡ false)
          ⊎ ((w.memory.block_at c).block_state ≡ committed_block)
        → (o ≢ some c) ⊎ ((w.memory.block_at c).block_state ≡ committed_block)
    aimed o x (inr done) = inr done
    aimed o x (inl outside) =
        inl
          (λ is_c. ground (arith, query-holds w.memory w.uncommit_blocks e.block_hash c (x ∙ is_c)))

block_tree-use_evidences :
    (now : ℤ) (es : List Quorum) (w : World) → (use_evidences now w es).block_tree ≡ w.block_tree
unfolding use_evidences
block_tree-use_evidences now [] w = refl
block_tree-use_evidences now (e ∷ es) w = block_tree-use_evidences now es (record w {
  memory = use_evidence now e (query_in_set w.memory w.uncommit_blocks e.block_hash) w.memory;
})

-- UpdateState adds no block to the tree.
pub block_tree-update_state :
    (now : ℤ) (s : State) (w : World) (p : ℕ) → (update_state now s w p).0.block_tree ≡ w.block_tree
unfolding update_state
block_tree-update_state now s w p = elim (Option-cases s.pub_val) [
  | inl e ↦ ground arith
  | inr (val, e) ↦ ground (arith, block_tree-use_evidences now (w.memory.block_at p).evidences w)
]
