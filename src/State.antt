-- ===== src/State.antt =====
-- state/state.go: the state after the last committed block. All copies of a state share one set of
-- uncommitted blocks and one block tree by pointer; these and the blocks themselves are the `World`.
pub mod Commits
pub mod Executor
pub mod Links
use obrs.Prelude.{
  ℕ, zero, suc, ◌+◌, Bool, true, false, Option, none, some, List, [], ◌∷◌, reverse, ◌==◌,
  if◌then◌else◌,
}
use obrs.Prelude.Int.{ℤ, pos}
use obrs.Prelude.Bytes.{Bytes, bytes_equal, bytes_of}
use obrs.Prelude.Outcome.{Outcome, ok, err, panic, ◌>>=◌}
use obrs.Types.Ltime.{LTime, ltime_zero}
use obrs.Types.External.{External}
use obrs.Types.Block.{Block, precommit_block, committed_block, hash_block, block_hash_value}
use obrs.Types.Memory.{Memory, set_block}
use obrs.Types.Commit.{is_ready}
use obrs.Types.Validators.{Validator, ValidatorSet}
use obrs.Types.BlockSet.{BlockSet, new_block_set, remove_blocks}
use obrs.Types.BlockTree.{
  BlockTree, new_block_tree, query_block_by_hash, get_latest_block, get_block_by_filter, get_root,
}

pub record State : Type 0 where
  pub chain_id : Bytes
  pub initial_slot : LTime
  pub pub_val : Option Validator
  pub validator : Option Validator
  pub validators : ValidatorSet
  pub last_block_slot : LTime
  pub last_commited_block : Option ℕ
  pub last_block_hash : Bytes
  pub last_block_time : ℤ
  pub last_results_hash : Bytes

-- What every state of a node points at.
pub record World : Type 0 where
  pub memory : Memory
  pub uncommit_blocks : BlockSet
  pub block_tree : BlockTree

unfoldable pub new_state :
    Bytes → LTime → Option Validator → Option Validator → ValidatorSet → State
new_state chain_id initial_slot val pub_val vals = record {
  chain_id = chain_id;
  initial_slot = initial_slot;
  pub_val = pub_val;
  validator = val;
  validators = vals;
  last_block_slot = ltime_zero;
  last_commited_block = none;
  last_block_hash = [];
  last_block_time = pos 0;
  last_results_hash = [];
}

-- MakeGenesisState, whose tree holds the genesis block only.
unfoldable pub make_genesis_world : Memory → ℕ → World
make_genesis_world m genesis_block = record {
  memory = m;
  uncommit_blocks = new_block_set;
  block_tree = new_block_tree genesis_block;
}

-- State.Copy, which does not copy the last committed block.
unfoldable pub copy : State → State
copy s = record s { last_commited_block = none }

-- The call `b.Hash()` on a shared block.
unfoldable pub hash_shared : External → ℕ → Memory → Memory
hash_shared ext b m = set_block b (hash_block ext (m.block_at b)) m

abbrev pub is_precommit : Block → Bool
is_precommit block = block.block_state == precommit_block

-- State.NewBranch: the block to follow, the precommit blocks on its path, and the memory in which the
-- block's hash has been filled in.
unfoldable pub new_branch : External → World → Outcome (ℕ × List ℕ × Memory)
new_branch ext w = do
  b ← get_latest_block w.memory w.block_tree
  let m = hash_shared ext b w.memory
  blocks ← get_block_by_filter m w.block_tree (bytes_of (m.block_at b).block_hash) is_precommit
  ok (b, blocks, m)

-- State.IsMatch, and the memory after the latest block's hash has been filled in.
unfoldable pub is_match : External → World → ℕ → Outcome (Bool × Memory)
is_match ext w proposal = do
  b ← get_latest_block w.memory w.block_tree
  let m = hash_shared ext b w.memory
  ok (bytes_equal (bytes_of (m.block_at b).block_hash) (m.block_at proposal).last_block_hash, m)

-- State.CommitBlock
unfoldable pub commit_block : ℕ → World → World
commit_block block w = record w { uncommit_blocks = remove_blocks w.uncommit_blocks (block ∷ []) }

-- State.CommitBlocks
unfoldable pub commit_blocks : List ℕ → World → World
commit_blocks blocks w = record w { uncommit_blocks = remove_blocks w.uncommit_blocks blocks }

-- Whether a block has evidence that it may be committed.
unfoldable pub ready : Memory → ℕ → Outcome Bool
ready m b = elim (m.block_at b).commit [ none ↦ ok false | some c ↦ is_ready m (m.commit_at c) ]

-- The first ready block of a list: decideCommitBlocks searches from the end of the set.
unfoldable pub first_ready : Memory → List ℕ → Outcome (Option ℕ)
unfolding ready
first_ready m [] = ok none
first_ready m (b ∷ bs) =
    let rest = first_ready m bs in ready m b >>= λ yes'. if yes' then ok (some b) else rest

unfoldable pub go_on : Memory → ℕ → Outcome (List ℕ) → Outcome (List ℕ)
go_on m pre rest =
    if (m.block_at pre).block_state == committed_block
    then ok []
    else (rest >>= λ blocks. ok (pre ∷ blocks))

-- The uncommitted ancestors of a block, from the nearest on. A walk that were to run out of rounds
-- would give a panic.
unfoldable pub uncommitted_above : ℕ → Memory → BlockTree → ℕ → Outcome (List ℕ)
unfolding go_on
uncommitted_above zero m tree b = panic
uncommitted_above (suc fuel) m tree b =
    elim (query_block_by_hash m tree (m.block_at b).last_block_hash) [
      | ok pre ↦ go_on m pre (uncommitted_above fuel m tree pre)
      | err e ↦ ok []
      | panic ↦ panic
    ]

unfoldable pub chain_to : World → Option ℕ → Outcome (List ℕ)
chain_to w none = ok []
chain_to w (some b) = do
  above ← uncommitted_above (w.block_tree.size + 1) w.memory w.block_tree b
  ok (reverse (b ∷ above))

-- State.decideCommitBlocks: the latest ready block with its uncommitted ancestors, oldest first.
unfoldable pub decide_commit_blocks : World → Outcome (List ℕ)
unfolding chain_to
decide_commit_blocks w = first_ready w.memory (reverse w.uncommit_blocks) >>= chain_to w

unfoldable pub genesis_block_of : World → ℕ
genesis_block_of w = get_root w.block_tree
