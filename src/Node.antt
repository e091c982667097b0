-- ===== src/Node.antt =====
-- node/node.go: a node put together from its key file and its genesis file. The database, the transport,
-- the switch, the servers and the loggers are left out, and whether the node's info is valid is a
-- parameter.
pub mod Addresses
pub mod Start
use obrs.Prelude.{ℕ, ◌≡◌, Bool, true, false, not, Option, none, some, List, [], ◌∷◌, if◌then◌else◌}
use obrs.Prelude.Int.{ℤ, pos}
use obrs.Prelude.Bytes.{Bytes, is_empty}
use obrs.Prelude.Outcome.{
  Outcome, ok, err, panic, deref, fail_if, ◌>>=◌, ◌>>◌, no_key_path, bad_node_info,
}
use obrs.Types.Block.{Block, make_genesis_block}
use obrs.Types.Memory.{Memory, alloc_block}
use obrs.Types.Genesis.{
  GenesisDoc, GenesisFiles, genesis_doc_from_file, new_validator, validator_set_of,
  public_validator,
}
use obrs.State.{State, World, new_state, make_genesis_world}
use obrs.Crypto.Bls
use obrs.Crypto.Bls.{Suite}
use obrs.Privval.KeyFile.{FilePv, Files, load_file_pv, get_pub_key}
use obrs.Consensus.Machine.{Env, ConsensusState}
use obrs.Consensus.Machine.Startup.{new_default_consensus_state}
use obrs.Mempool.{new_list_mempool}
use obrs.Mempool.Reactor
use obrs.Mempool.Reactor.{new_reactor}

abbrev time_value : Option ℤ → ℤ
time_value none = pos 0
time_value (some t) = t

module _ (key_address : Bytes → Bytes) (g : GenesisFiles) where
  -- loadStateFromFile: the state without the node's own validator, and what it points at
  unfoldable pub load_state_from_file : ℤ → g.Disk → Bytes → Memory → Outcome (State × World)
  load_state_from_file now disk file m = do
    doc ← genesis_doc_from_file key_address g now disk file
    pub_val ← public_validator key_address doc
    vals ← validator_set_of key_address doc.validators
    let genblock = make_genesis_block doc.chain_id (time_value doc.genesis_time)
    ok (
      new_state doc.chain_id doc.initial_slot none (some pub_val) vals,
      make_genesis_world (alloc_block genblock m) m.next_block,
    )

-- The parts of cfg.Config that are read here
pub record Config : Type 0 where
  pub priv_validator_key_file : Bytes
  pub genesis_file : Bytes

module _ {Scalar : Type 0} (s : Suite Scalar) (f : Files) (g : GenesisFiles) (env : Env) where
  pub record Node : Type 0 where
    pub con_s : ConsensusState env
    pub mempool_reactor : Reactor.Reactor

  -- NewNode, from the two disks, an empty memory's addresses and a database
  unfoldable pub new_node : Config → Bool → ℤ → f.Disk → g.Disk → Memory → env.Db → Outcome Node
  new_node config info_is_valid now keys disk m db = do
    fail_if (is_empty config.priv_validator_key_file) no_key_path
    pv ← load_file_pv s f keys config.priv_validator_key_file
    pub_key ← get_pub_key pv
    validator ← new_validator (Bls.address s) pub_key
    (state, world) ← load_state_from_file (Bls.address s) g now disk config.genesis_file m
    con_s ←
        new_default_consensus_state env (Bls.address s) state.initial_slot (get_pub_key pv)
          state.validators (record state { validator = some validator }) world db []
    fail_if (not info_is_valid) bad_node_info
    ok (record { con_s = con_s; mempool_reactor = new_reactor new_list_mempool })
