-- ===== src/State/Executor.antt =====
-- state/executor.go: applying a block, committing what it lets commit, and making a proposal. The
-- store that executes a block is a parameter. The current time is an argument, one reading for a call.
-- A call that returns an error keeps what it changed before, so the world is returned beside it.
pub mod Commit
pub mod Evidences
pub mod Growth
pub mod Links
pub mod Linked
use obrs.Prelude.{
  ℕ, Bool, true, false, not, Option, none, some, List, [], ◌∷◌, ◌++◌, map, ◌==◌, if◌then◌else◌,
}
use obrs.Prelude.Int.{ℤ, pos}
use obrs.Prelude.Bytes.{Bytes, bytes_equal, bytes_of}
use obrs.Prelude.Outcome.{
  Error, Outcome, ok, err, panic, ◌>>=◌, ◌>>◌, fail_if, deref, different_validators,
  nil_pub_validator,
}
use obrs.Types.Ltime.{LTime}
use obrs.Types.External.{External}
use obrs.Types.Vote.{Quorum, support_quorum, against_quorum}
use obrs.Types.Tx.{Tx}
use obrs.Types.Block.{
  Block, BlockState, TimeLabel, mark_time, calculate_time, validate_basic, fill, make_block,
  hash_block, proposal_block, error_block, precommit_block, committed_block,
}
use obrs.Types.Memory.{Memory, set_block, alloc_block, alloc_commit, zero_commit}
use obrs.Types.Validators.{validators_hash_of}
use obrs.Types.BlockSet.{query_in_set, add_block}
use obrs.Types.BlockTree.{BlockTree, add_to_tree}
use obrs.State.{State, World, copy, commit_block, decide_commit_blocks, new_branch, hash_shared}

-- The time marks of a block that enters a state.
abbrev marked : ℤ → BlockState → Block → Block
marked now state b =
    if state == precommit_block
    then record b { header = mark_time TimeLabel.block_precommit_time now b.header }
    else if state == committed_block
    then record b { header = calculate_time (mark_time TimeLabel.block_commit_time now b.header) }
    else b

abbrev with_state : BlockState → Block → Block
with_state state b = record b { header = record b.header { block_state = state } }

-- UpdateBlockState on a block's value.
unfoldable pub enter_state : ℤ → BlockState → Block → Block
enter_state now state b =
    if b.block_state == state then b else with_state state (marked now state b)

-- blockExecutor.UpdateBlockState, which never fails.
unfoldable pub update_block_state : ℤ → ℕ → BlockState → Memory → Memory
update_block_state now b state m = set_block b (enter_state now state (m.block_at b)) m

-- `if block.Commit == nil { block.Commit = &Commit{} }`
unfoldable pub ensure_commit : ℕ → Memory → Memory
ensure_commit b m = elim (m.block_at b).commit [
  | none ↦
      set_block b (record (m.block_at b) { commit = some m.next_commit })
        (alloc_commit zero_commit m)
  | some _ ↦ m
]

-- What the quorum of an evidence does to its block.
unfoldable pub follow_quorum : ℤ → Quorum → Block → Block
unfolding enter_state
follow_quorum now evidence block =
    let b = record block { vote_quorum = evidence } in
    if evidence.quorum_type == support_quorum
    then (if b.block_state == precommit_block
        then b
        else enter_state now precommit_block
            (record b { header = mark_time TimeLabel.block_precommit_time now b.header }))
    else if evidence.quorum_type == against_quorum
    then enter_state now error_block b
    else b

-- The round of UpdateState for one evidence and the block that the set holds for it.
unfoldable pub use_evidence : ℤ → Quorum → Option ℕ → Memory → Memory
unfolding ensure_commit
use_evidence now evidence none m = m
use_evidence now evidence (some b) m =
    if (m.block_at b).block_state == committed_block
    then m
    else let m' = ensure_commit b m in set_block b (follow_quorum now evidence (m'.block_at b)) m'

unfoldable pub use_evidences : ℤ → World → List Quorum → World
unfolding use_evidence
use_evidences now w [] = w
use_evidences now w (e ∷ es) =
    use_evidences now
      (record w {
        memory = use_evidence now e (query_in_set w.memory w.uncommit_blocks e.block_hash) w.memory;
      })
      es

-- blockExecutor.UpdateState
unfoldable pub update_state : ℤ → State → World → ℕ → World × Option Error
update_state now s w proposal = elim s.pub_val [
  | none ↦ (w, some nil_pub_validator)
  | some _ ↦ (use_evidences now w (w.memory.block_at proposal).evidences, none)
]

unfoldable pub validate_block : External → State → Block → Outcome (Unit {0})
validate_block ext s block = do
  validate_basic block
  fail_if (not (bytes_equal (validators_hash_of ext s.validators) block.validators_hash))
      different_validators
  ok tt

-- The error of AddBlocks is dropped.
abbrev added : World → Outcome BlockTree → Outcome World
added w (ok t) = ok (record w { block_tree = t })
added w (err e) = ok w
added w panic = panic

module _ {Db : Type 0} (exec_block : Db → Block → Db × Option Bytes) where
  -- The state after a block has been committed with a result.
  unfoldable pub committed_state : State → Block → ℕ → Bytes → State
  unfolding copy
  committed_state s block b result = record (copy s) {
    last_results_hash = result;
    last_block_slot = block.slot;
    last_block_hash = bytes_of block.block_hash;
    last_block_time = block.proposal_time;
    last_commited_block = some b;
  }

  -- One round of Commit, on the result of the store: a failed execution is skipped.
  -- The log of a failure calls the block's `Hash`.
  unfoldable pub commit_one :
      External → ℤ → ℕ → Db × Option Bytes → State × World → State × World × Db
  unfolding committed_state
  commit_one ext now b (db, none) (s, w) = (s, record w { memory = hash_shared ext b w.memory }, db)
  commit_one ext now b (db, some result) (s, w) =
      let m = update_block_state now b committed_block w.memory in
      (committed_state s (m.block_at b) b result, commit_block b (record w { memory = m }), db)

  -- blockExecutor.Commit
  unfoldable pub commit_all : External → ℤ → List ℕ → State × World × Db → State × World × Db
  unfolding commit_one
  commit_all ext now [] swd = swd
  commit_all ext now (b ∷ bs) (s, w, db) =
      commit_all ext now bs (commit_one ext now b (exec_block db (w.memory.block_at b)) (s, w))

  pub record Applied : Type 0 where
    pub state : State
    pub world : World
    pub db : Db
    pub error : Option Error

  -- The part of ApplyBlock after the validation of the block.
  commit_ready : External → ℤ → State → World → Db → Outcome Applied
  unfolding commit_all
  commit_ready ext now s w db = do
    blocks ← decide_commit_blocks w
    let (s', w', db') = commit_all ext now blocks (s, w, db)
    ok (record { state = s'; world = w'; db = db'; error = none })

  apply_valid : External → ℤ → State → World → Db → ℕ → Outcome (Unit {0}) → Outcome Applied
  unfolding commit_ready
  apply_valid ext now s w db proposal (ok _) =
      commit_ready ext now s (record w { uncommit_blocks = add_block w.uncommit_blocks proposal })
        db
  apply_valid ext now s w db proposal (err e) =
      ok (record { state = s; world = w; db = db; error = some e })
  apply_valid ext now s w db proposal panic = panic

  -- blockExecutor.ApplyBlock: the block enters the tree, whatever AddBlocks says and before it is
  -- validated.
  unfoldable pub apply_block : External → ℤ → State → World → Db → ℕ → Outcome Applied
  unfolding apply_valid
  apply_block ext now s w db proposal = do
    w' ←
        added w
          (add_to_tree w.memory w.block_tree (w.memory.block_at proposal).last_block_hash proposal)
    apply_valid ext now s w' db proposal (validate_block ext s (w.memory.block_at proposal))

abbrev copied_quorum : Memory → ℕ → Quorum
copied_quorum m b = (m.block_at b).vote_quorum

-- The block that CreateProposal makes out of a parent, the precommit blocks and the transactions.
unfoldable pub proposal_of :
    External → ℤ → State → Bytes → LTime → Memory → ℕ → List ℕ → List Tx → Block
proposal_of ext now s address cur_slot m parent precommits txs =
    let empty = make_block now txs in
    let filled = record empty {
      header =
          fill s.chain_id cur_slot proposal_block (bytes_of (m.block_at parent).block_hash) address
            (validators_hash_of ext s.validators) now empty.header;
    } in
    record (hash_block ext filled) { evidences = map (copied_quorum m) precommits }

-- blockExecutor.CreateProposal, on the transactions that the mempool gives: the new block's address.
unfoldable pub create_proposal :
    External → ℤ → State → World → LTime → List Tx → Outcome (ℕ × World)
unfolding proposal_of
create_proposal ext now s w cur_slot txs = do
  (parent, precommits, m) ← new_branch ext w
  val ← deref s.validator
  let block = proposal_of ext now s val.address cur_slot m parent precommits txs
  ok (m.next_block, record w { memory = alloc_block block m })
