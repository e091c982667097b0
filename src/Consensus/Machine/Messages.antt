-- ===== src/Consensus/Machine/Messages.antt =====
-- handleMsg and the queries of consensus/state.go. A message of a peer holds its proposal or its vote;
-- the block of a proposal is a new object of the node.
use obrs.Prelude.{ℕ, Bool, Option, none, some, List, [], ◌∷◌, ◌++◌, keep, ◌==◌}
use obrs.Prelude.Int.{ℤ}
use obrs.Prelude.Bytes.{Bytes}
use obrs.Prelude.Outcome.{Outcome, ok, panic, ◌>>=◌}
use obrs.Types.Vote.{Vote}
use obrs.Types.Block.{Block, committed_block}
use obrs.Types.Memory.{alloc_block}
use obrs.Types.BlockTree.{for_each}
use obrs.Consensus.Machine.{Env, ConsensusState}
use obrs.Consensus.Machine.Proposing.{with_memory}
use obrs.Consensus.Machine.Handlers.{handle_proposal, handle_vote}

-- ProposalMessage and VoteMessage; a proposal whose block is nil is none.
pub data Message : Type 0 where
  proposal_message : Option Block → Message
  vote_message : Vote → Message

-- msgInfo
pub record MsgInfo : Type 0 where
  pub msg : Message
  pub peer_id : Bytes

module _ (env : Env) where
  -- handleMsg; a proposal without a block panics in its check.
  unfoldable pub handle_msg : ℤ → Message → ConsensusState env → Outcome (ConsensusState env)
  handle_msg now (proposal_message none) cs = panic
  handle_msg now (proposal_message (some b)) cs =
      let p = cs.world.memory.next_block in
      handle_proposal env now p (with_memory env (alloc_block b cs.world.memory) cs)
  handle_msg now (vote_message vote) cs = handle_vote env vote cs

  -- receiveRoutine on the messages of its queue, in order and each at its time
  unfoldable pub receive_all :
      List (ℤ × MsgInfo) → ConsensusState env → Outcome (ConsensusState env)
  receive_all [] cs = ok cs
  receive_all ((now, mi) ∷ queue) cs = handle_msg now mi.msg cs >>= receive_all queue

  abbrev pub is_committed : ConsensusState env → ℕ → Bool
  is_committed cs b = (cs.world.memory.block_at b).block_state == committed_block

  unfoldable pub get_committed_blocks : ConsensusState env → Outcome (List ℕ)
  get_committed_blocks cs = do
    blocks ← for_each cs.world.block_tree
    ok (keep (is_committed cs) blocks)

  unfoldable pub get_uncommitted_blocks : ConsensusState env → List ℕ
  get_uncommitted_blocks cs = cs.world.uncommit_blocks

  unfoldable pub get_all_blocks : ConsensusState env → Outcome (List ℕ)
  get_all_blocks cs = do
    committed ← get_committed_blocks cs
    ok (committed ++ get_uncommitted_blocks cs)
