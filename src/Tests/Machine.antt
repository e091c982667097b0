-- ===== src/Tests/Machine.antt =====
-- A node in its second slot: votes, a stray vote, events, a proposal, and evidences.
use obrs.Prelude.{ℕ, ◌≡◌, refl, ◌⊎◌, false, none, some, [], ◌∷◌, arith}
use obrs.Prelude.Int.{pos, negsuc, wrap32, rem_ℤ}
use obrs.Prelude.Bytes.{bytes_equal}
use obrs.Prelude.Text.{codes}
use obrs.Prelude.Outcome.{ok, panic}
use obrs.Types.Ltime.{mod_len}
use obrs.Types.Vote.{Vote, Quorum, zero_quorum, support_quorum}
use obrs.Types.Block.{validate_basic, fill, hash_block}
use obrs.Types.Memory.{set_block}
use obrs.Types.Validators.{
  validators_hash_of, get_by_address, by_address_from, get_proposer, has_address,
}
use obrs.Consensus.VoteSet.{SlotVoteSet, make_slot_vote_set, get_votes_by_slot, add_slot_vote}
use obrs.Types.BlockSet.{add_block}
use obrs.Types.BlockTree.{
  new_block_tree, attach, add_to_tree, query_node_by_hash, query_from, get_latest_block,
  latest_from, is_ancestor, ancestor_from,
}
use obrs.State.Executor.{
  validate_block, commit_all, apply_block, use_evidences, update_state, update_block_state,
  enter_state,
}
use obrs.State.{copy, decide_commit_blocks, first_ready, World, new_state, is_match, hash_shared}
use obrs.Consensus.Machine.{
  ConsensusState, RoundEvent, round_event_apply, fire_new_vote, emit, decide_proposer, is_proposer,
  with_proposer, has_proposal,
}
use obrs.Consensus.Machine.Evidence.{update_evidences, update_evidence, mark_evidences}
use obrs.Consensus.Machine.Endless.{IsSelfEvident, update_evidences-endless}
use obrs.Consensus.Machine.Proposing.{
  try_add_vote, admit, default_set_proposal, check_leader, check_txs, check_signature, accept,
  accept_updated, vote_on, all_valid, sign_vote, send_vote, triggle_future_proposal,
}
use obrs.Consensus.Machine.Handlers.{
  handle_vote, handle_event, enter_apply, finish_apply, apply_current, apply_proposal, judge,
}
use obrs.Consensus.Machine.Votes.{Authentic, handle_vote_cases, handle_vote_unknown}
use obrs.Consensus.Machine.Slots.{Turn, handle_event-Turn}
use obrs.Consensus.Machine.Acceptance.{IsAccepted, default_set_proposal-IsAccepted}
use obrs.Prelude.{zero, suc, ◌<◌}
use obrs.Consensus.Machine.Trees.Along.{Run-IsTree}
use obrs.Types.BlockTree.Shape.{IsTree}
use obrs.Tests.BlockTree.{two_nodes-IsTree}
use obrs.Consensus.Machine.Runs.{start, then_step, on_event, Moves, Step-Moves}
use obrs.Tests.VoteSet.{made}
use obrs.Consensus.Machine.Aliasing.{IsAllocated, update_evidence-last}
use obrs.Consensus.Machine.Evidence.{evidence_block}
use obrs.Types.BlockSet.{query_in_set, has_hash}
use obrs.Tests.Samples.{memory, open_ext, world, node_env, machine, value_or, vote_of, validator_of}

abbrev Cs : Type 0
Cs = ConsensusState node_env

abbrev after_vote : Cs
after_vote = value_or machine (handle_vote node_env (vote_of 1 0) machine)

voted : handle_vote node_env (vote_of 1 0) machine ≡ ok after_vote
unfolding handle_vote try_add_vote admit get_by_address by_address_from bytes_equal wrap32
    add_slot_vote
voted = refl

handle_vote_cases_example :
    (after_vote ≡ machine)
    ⊎ (Authentic node_env machine (vote_of 1 0)
        × ((svs : SlotVoteSet) × (add_slot_vote make_slot_vote_set (vote_of 1 0) ≡ ok svs)
            × (after_vote
                ≡ emit node_env (fire_new_vote (vote_of 1 0)) (record machine { vote_set = svs }))))
handle_vote_cases_example = handle_vote_cases node_env (vote_of 1 0) machine after_vote voted

-- A vote by an address that is no validator's, with the index -1.
abbrev stray : Vote
stray = record (vote_of 1 7) { validator_index = negsuc 0 }

stray-unknown : has_address machine.validators (7 ∷ []) ≡ false
unfolding has_address bytes_equal
stray-unknown = refl

handle_vote_unknown_example : handle_vote node_env stray machine ≡ panic
handle_vote_unknown_example = handle_vote_unknown node_env stray machine stray-unknown refl

abbrev pub event_of : ℕ → RoundEvent
event_of kind = record { event_type = kind; slot = pos 2 }

-- The node with the second block as its proposal.
abbrev pub busy : Cs
busy = record machine {
  proposer = some (validator_of 2);
  proposal = some 2;
  world = record world { uncommit_blocks = 1 ∷ [] };
}

abbrev pub after_apply : Cs
after_apply = value_or busy (handle_event node_env 9 (pos 5) [] (event_of round_event_apply) busy)

pub applied : handle_event node_env 9 (pos 5) [] (event_of round_event_apply) busy ≡ ok after_apply
unfolding handle_event enter_apply finish_apply apply_current triggle_future_proposal has_proposal
    apply_proposal get_votes_by_slot update_block_state enter_state update_evidences update_evidence
    mark_evidences apply_block add_to_tree query_node_by_hash query_from new_block_tree attach
    bytes_equal validate_block validate_basic validators_hash_of decide_commit_blocks first_ready
    commit_all add_block new_state copy fill judge
applied = refl

handle_event-Turn_example : Turn node_env (event_of round_event_apply) busy after_apply
handle_event-Turn_example =
    handle_event-Turn node_env 9 (pos 5) [] (event_of round_event_apply) busy after_apply applied

abbrev after_proposal : Cs
after_proposal = (value_or (machine, none) (default_set_proposal node_env (pos 5) 2 machine)).0

proposed : default_set_proposal node_env (pos 5) 2 machine ≡ ok (after_proposal, none)
unfolding default_set_proposal check_leader check_txs check_signature accept accept_updated vote_on
    all_valid get_by_address by_address_from bytes_equal wrap32 is_proposer with_proposer
    decide_proposer get_proposer mod_len hash_shared hash_block update_state use_evidences is_match
    get_latest_block new_state sign_vote send_vote new_block_tree attach rem_ℤ latest_from
    is_ancestor ancestor_from
proposed = refl

default_set_proposal-IsAccepted_example : IsAccepted node_env 2 machine after_proposal
default_set_proposal-IsAccepted_example =
    default_set_proposal-IsAccepted node_env (pos 5) 2 machine after_proposal proposed

-- The second block with a support quorum for its own hash.
abbrev own_evidence : Quorum
own_evidence = record zero_quorum { quorum_type = support_quorum; block_hash = codes "b" }

abbrev self_world : World
self_world = record world {
  memory = set_block 2 (record (memory.block_at 2) { evidences = own_evidence ∷ [] }) memory;
  uncommit_blocks = 2 ∷ 1 ∷ [];
}

self_evident : IsSelfEvident self_world 2 (1 ∷ []) own_evidence
self_evident = record {
  waiting = refl;
  hash = refl;
  evidence = refl;
  support = refl;
  open_block = λ e. ground arith;
}

update_evidences-endless_example : update_evidences 50 open_ext (2 ∷ []) self_world ≡ panic
update_evidences-endless_example =
    update_evidences-endless open_ext 2 (1 ∷ []) own_evidence 50 self_world self_evident

Step-Moves_example : Moves node_env busy after_apply
Step-Moves_example =
    Step-Moves node_env busy after_apply
      (on_event 9 (pos 5) [] (event_of round_event_apply) applied)

-- Two more votes.
abbrev after_second : Cs
after_second = value_or machine (handle_vote node_env (vote_of 1 1) after_vote)

abbrev after_third : Cs
after_third = value_or machine (handle_vote node_env (vote_of 1 2) after_second)

-- A block with two evidences, of which only the first is for a waiting block.
abbrev last_one : Quorum
last_one = record zero_quorum { block_hash = codes "z" }

abbrev first_one : Quorum
first_one = record zero_quorum { quorum_type = support_quorum; block_hash = codes "a" }

abbrev two_evidences : World
two_evidences = record world {
  memory =
      set_block 2 (record (memory.block_at 2) { evidences = first_one ∷ last_one ∷ [] }) memory;
}

none_made : IsAllocated two_evidences.memory
none_made = record { made = missing }
  where
    missing :
        (b c : ℕ)
        → (two_evidences.memory.block_at b).commit ≡ some c
        → c < two_evidences.memory.next_commit
    missing zero c e = ground arith
    missing (suc zero) c e = ground arith
    missing (suc (suc b)) c e = ground arith

update_evidence-last_example :
    (c : ℕ) × (((update_evidence open_ext two_evidences 2).1.memory.block_at 1).commit ≡ some c)
    × ((q : ℕ) × (((update_evidence open_ext two_evidences 2).1.memory.commit_at c).local_quorum
          ≡ some q)
        × ((update_evidence open_ext two_evidences 2).1.memory.quorum_at q ≡ last_one))
unfolding update_evidence mark_evidences evidence_block query_in_set has_hash bytes_equal
update_evidence-last_example = update_evidence-last open_ext two_evidences 2 1 none_made refl

Run-IsTree_example : IsTree after_apply.world.block_tree
Run-IsTree_example =
    Run-IsTree node_env busy after_apply
      (then_step start (on_event 9 (pos 5) [] (event_of round_event_apply) applied))
      two_nodes-IsTree
