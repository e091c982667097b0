-- ===== src/Tests/Nodes.antt =====
-- A node that starts from a document of one validator, its clock, and a slot in which it is not the leader.
use obrs.Prelude.{◌≤◌, ◌≡◌, refl, true, false, none, some, [], ◌∷◌, ◌++◌, arith, length}
use obrs.Prelude.Int.{pos, wrap64, rem_ℤ, ◌+ℤ◌}
use obrs.Prelude.Bytes.{bytes_equal}
use obrs.Prelude.Text.{codes}
use obrs.Prelude.Outcome.{ok}
use obrs.Types.Ltime.{update, mod_len}
use obrs.Types.Vote.{zero_quorum}
use obrs.Types.Validators.{Validator, get_proposer, get_by_index}
use obrs.Types.Genesis.{GenesisDoc, GenesisFiles, validate_and_complete, genesis_doc_from_file}
use obrs.Types.Genesis.Loaded.{genesis_doc_from_file-IsCompleted}
use obrs.Types.Genesis.Completion.{IsCompleted}
use obrs.Crypto.Bls
use obrs.Privval.KeyFile.{load_file_pv}
use obrs.Consensus.Machine.{ConsensusState, has_proposal}
use obrs.Consensus.Machine.Progress.{Passes, Follows, slot_Passes}
use obrs.Consensus.SlotClock.{TimeoutInfo, new_slot_clock, expire, forward, tick, deliver}
use obrs.Consensus.SlotClock.Order.{
  Watched, Run, start, then_step, expires, forwards, ticks, delivers, watched, slot_after,
  slots_after, slots_of, Run-slots,
}
use obrs.Node.{Node, Config, new_node}
use obrs.Node.Start.{IsNode, new_node-IsNode}
use obrs.Tests.Keys.{suite, files, own_pv}
use obrs.Tests.Samples.{node_env, machine, memory}

-- A document whose validator has no address yet.
abbrev no_address : GenesisDoc
no_address = record {
  genesis_time = none;
  chain_id = codes "chain";
  initial_slot = pos 0;
  validators = (record { address = []; pub_key = some (0 ∷ []); name = [] }) ∷ [];
  pub_validator = record { address = []; pub_key = some (7 ∷ []); name = [] };
  support_quorum = zero_quorum;
  app_hash = [];
}

abbrev completed : GenesisDoc
completed = record no_address {
  genesis_time = some (pos 9);
  validators = (record { address = 0 ∷ []; pub_key = some (0 ∷ []); name = [] }) ∷ [];
}

is_completed : validate_and_complete (Bls.address suite) (pos 9) no_address ≡ (completed, ok tt)
unfolding validate_and_complete Bls.address
is_completed = refl

-- Every text is that document, and every file is there.
abbrev genesis_files : GenesisFiles
genesis_files = record {
  Disk = Unit {0};
  marshal_doc = λ _. some [];
  unmarshal_doc = λ _. some no_address;
  file_exists = λ _ _. true;
  read = λ _ _. some [];
  write = λ _ _ _. some tt;
}

is_read :
    genesis_doc_from_file (Bls.address suite) genesis_files (pos 9) tt (codes "genesis.json")
    ≡ ok completed
unfolding genesis_doc_from_file validate_and_complete Bls.address
is_read = refl

genesis_doc_from_file-IsCompleted_example :
    (before : GenesisDoc) × IsCompleted (Bls.address suite) before completed
genesis_doc_from_file-IsCompleted_example =
    genesis_doc_from_file-IsCompleted (Bls.address suite) genesis_files (pos 9) tt
      (codes "genesis.json") completed is_read

abbrev config : Config
config = record { priv_validator_key_file = codes "key.json"; genesis_file = codes "genesis.json" }

is_loaded : load_file_pv suite files (some (0 ∷ [])) (codes "key.json") ≡ ok own_pv
unfolding load_file_pv Bls.pub_key Bls.address
is_loaded = refl

new_node-IsNode_example :
    (node : Node suite files genesis_files node_env) × (new_node suite files genesis_files node_env
        config true
        (pos 9)
        (some (0 ∷ []))
        tt
        memory
        0
      ≡ ok node)
    × IsNode suite files genesis_files node_env (0 ∷ []) completed node.con_s
new_node-IsNode_example =
    new_node-IsNode suite files genesis_files node_env config true (pos 9) (some (0 ∷ [])) tt memory
      0 (0 ∷ []) (7 ∷ []) own_pv completed refl is_loaded refl is_read refl

-- A slot that ends, and a time-out that is read.
abbrev w0 : Watched
w0 = watched (pos 0) (pos 9)

abbrev w1 : Watched
w1 = record w0 { clock = expire (pos 10) w0.clock }

abbrev w2 : Watched
w2 = record w1 { clock = forward (pos 10) w1.clock }

abbrev w3 : Watched
w3 = record w2 { clock = tick (pos 10) [] w2.clock; ended = 1 }

abbrev time_out : TimeoutInfo
time_out = record { duration = pos 100_000_000_000; slot = pos 1; step = 1 }

abbrev w4 : Watched
w4 = record w3 { clock = deliver [] w3.clock; in_hand = true; out = pos 1 ∷ [] }

one_slot : Run w0 w4
unfolding new_slot_clock expire forward tick deliver update ◌+ℤ◌ wrap64
one_slot =
    then_step
      (then_step
        (then_step (then_step start (expires (pos 10) (pos 100_000_000_000) refl))
          (forwards (pos 10) refl))
        (ticks (pos 10) [] [] refl))
      (delivers time_out [] [] refl refl)

Run-slots_example :
    (w4.clock.curslot ≡ slot_after (pos 0) 1)
    × (slots_of w4.clock.tock_chan ++ w4.out ≡ slots_after (pos 0) 1)
    × (length w4.clock.tock_chan ≤ 1)
Run-slots_example = Run-slots (pos 0) (pos 9) w4 one_slot

-- In slot 3 the leader is the first validator; the node is the second one.
abbrev follower : ConsensusState node_env
follower = record machine { val_index = pos 1; clock_slot = pos 3 }

other_key :
    (leader : Validator)
    → get_proposer follower.validators follower.clock_slot ≡ ok (some leader)
    → Follows node_env leader (get_by_index follower.validators follower.val_index)
unfolding get_proposer mod_len rem_ℤ get_by_index bytes_equal
other_key leader e = (0 ∷ [], ground arith, refl)

slot_Passes_example : Passes node_env 5 (pos 20) [] follower
slot_Passes_example =
    slot_Passes node_env 5 (pos 20) [] 3 follower (omega arith) refl bare other_key
  where
    bare : has_proposal node_env follower ≡ false
    bare = unfold has_proposal in refl
