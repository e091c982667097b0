-- ===== src/Types/Commit.antt =====
-- types/commit.go: the evidence that a block may be committed.
use obrs.Prelude.{ℕ, Bool, true, false, ◌&&◌, ◌||◌, Option, none, some, ◌==◌, if◌then◌else◌}
use obrs.Prelude.Outcome.{Outcome, ok, deref, ◌>>=◌}
use obrs.Types.Vote.{support_quorum}
use obrs.Types.Block.{precommit_block, committed_block}
use obrs.Types.Memory.{Memory, Commit}

unfoldable pub set_parent_commit : ℕ → Commit → Commit
set_parent_commit pc c = record c { parent_commit = some pc }

unfoldable pub set_local_quorum : ℕ → Commit → Commit
set_local_quorum q c = record c { local_quorum = some q }

unfoldable pub set_witness : ℕ → Commit → Commit
set_witness w c = record c { witness = some w }

abbrev is_none : Option ℕ → Bool
is_none none = true
is_none (some _) = false

-- The commit that is asked: the parent's, if there is one.
root_of : Memory → Commit → Commit
root_of m c = elim c.parent_commit [ none ↦ c | some p ↦ m.commit_at p ]

witness_ready : Memory → Commit → Outcome Bool
witness_ready m root = do
  w ← deref root.witness
  let state = (m.block_at w).block_state
  ok (state == precommit_block || state == committed_block)

ready_root : Memory → Commit → Outcome Bool
unfolding witness_ready
ready_root m root = if is_none root.local_quorum && is_none root.witness then ok false else do
  q ← deref root.local_quorum
  if (m.quorum_at q).quorum_type == support_quorum then witness_ready m root else ok false

-- Commit.IsReady; a nil pointer that it follows panics.
unfoldable pub is_ready : Memory → Commit → Outcome Bool
unfolding root_of ready_root
is_ready m c = ready_root m (root_of m c)
