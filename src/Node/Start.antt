-- ===== src/Node/Start.antt =====
-- NewNode of node/node.go on a key file and a genesis file that can be read.
use obrs.Prelude.{Bool, if◌then◌else◌, ℕ, ◌≡◌, ap, ◌∙◌, true, false, none, some, [], map, arith}
use obrs.Prelude.Int.{ℤ}
use obrs.Prelude.Bytes.{Bytes, is_empty}
use obrs.Prelude.Outcome.{ok, err, bad_node_info}
use obrs.Types.Ltime.{LTime}
use obrs.Types.Block.{make_genesis_block, committed_block}
use obrs.Types.Memory.{Memory, alloc_block}
use obrs.Types.Validators.{Validator, get_by_address}
use obrs.Types.Genesis.{
  GenesisDoc, GenesisFiles, genesis_doc_from_file, new_validator, public_validator,
}
use obrs.Types.Genesis.Completion.{as_validator, validator_set_of_complete}
use obrs.Types.Genesis.Loaded.{genesis_doc_from_file-IsCompleted}
use obrs.Types.BlockTree.{new_block_tree}
use obrs.Crypto.Bls
use obrs.Crypto.Bls.{Suite}
use obrs.Privval.KeyFile.{FilePv, Files, load_file_pv, get_pub_key}
use obrs.State.{State, World, new_state, make_genesis_world}
use obrs.Consensus.Machine.{Env, ConsensusState, round_step_wait}
use obrs.Mempool.{new_list_mempool}
use obrs.Mempool.Reactor.{new_reactor}
use obrs.Consensus.Machine.Startup.{
  IsFresh, new_default_consensus_state, new_default_consensus_state-IsFresh,
}
use obrs.Node.{Config, Node, load_state_from_file, new_node, time_value}

-- The first state of a document and its public validator.
abbrev pub state_of : GenesisDoc → Validator → State
state_of doc pub_val =
    new_state doc.chain_id doc.initial_slot none (some pub_val) (map as_validator doc.validators)

module _ (key_address : Bytes → Bytes) (g : GenesisFiles) where
  load_state_from_file_lem :
      (now : ℤ) (disk : g.Disk) (file key : Bytes) (m : Memory) (doc : GenesisDoc)
      → genesis_doc_from_file key_address g now disk file ≡ ok doc
      → doc.pub_validator.pub_key ≡ some key
      → load_state_from_file key_address g now disk file m
        ≡ ok (
          state_of doc (record { address = key_address key; pub_key = some key }),
          make_genesis_world
              (alloc_block (make_genesis_block doc.chain_id (time_value doc.genesis_time)) m)
              m.next_block,
        )
  unfolding load_state_from_file public_validator new_validator
  load_state_from_file_lem now disk file key m doc read has_key =
      let (before, c) = genesis_doc_from_file-IsCompleted key_address g now disk file doc read in
      let vals = validator_set_of_complete key_address doc.validators c.complete in
      ground (arith, vals)

module _ {Scalar : Type 0} (s : Suite Scalar) (f : Files) (g : GenesisFiles) (env : Env) where
  -- The state and the objects that a node starts with.
  abbrev first_state : GenesisDoc → Bytes → Bytes → State
  first_state doc key own =
      record (state_of doc (record { address = Bls.address s key; pub_key = some key })) {
        validator = some (record { address = Bls.address s own; pub_key = some own });
      }

  abbrev first_world : GenesisDoc → Memory → World
  first_world doc m =
      make_genesis_world
        (alloc_block (make_genesis_block doc.chain_id (time_value doc.genesis_time)) m) m.next_block

  -- A node of a key and a document: it is fresh, in the document's slot and with its validators, its own
  -- key's address, and a tree of the genesis block alone, which is committed.
  pub record IsNode (own : Bytes) (doc : GenesisDoc) (cs : ConsensusState env) : Type 0 where
    pub slot : cs.cur_slot ≡ doc.initial_slot
    pub waiting : cs.step ≡ round_step_wait
    pub of_set : cs.validators ≡ map as_validator doc.validators
    pub index :
        cs.val_index ≡ (get_by_address (map as_validator doc.validators) (Bls.address s own)).0
    pub no_votes : (slot : LTime) → cs.vote_set slot ≡ none
    pub chain : cs.state.chain_id ≡ doc.chain_id
    pub validator :
        cs.state.validator ≡ some (record { address = Bls.address s own; pub_key = some own })
    pub root : ℕ
    pub tree_is : cs.world.block_tree ≡ new_block_tree root
    pub committed : (cs.world.memory.block_at root).block_state ≡ committed_block
    pub uncommitted : cs.world.uncommit_blocks ≡ []

  fresh-IsNode :
      (own key : Bytes) (doc : GenesisDoc) (m : Memory) (cs : ConsensusState env)
      → IsFresh env doc.initial_slot
          (map as_validator doc.validators)
          (Bls.address s own)
          (first_state doc key own)
          (first_world doc m)
          cs
      → IsNode own doc cs
  unfolding make_genesis_world make_genesis_block new_state
  fresh-IsNode own key doc m cs fresh = record {
    slot = fresh.slot;
    waiting = fresh.waiting;
    of_set = fresh.of_set;
    index = fresh.index;
    no_votes = fresh.no_votes;
    chain = ap (λ (x : State). x.chain_id) fresh.held_state;
    validator = ap (λ (x : State). x.validator) fresh.held_state;
    root = m.next_block;
    tree_is = ap (λ (x : World). x.block_tree) fresh.held_world;
    committed =
        ap (λ (x : World). (x.memory.block_at m.next_block).block_state) fresh.held_world
        ∙ ground arith;
    uncommitted = ap (λ (x : World). x.uncommit_blocks) fresh.held_world;
  }

  new_node-starts :
      (config : Config) (now : ℤ) (keys : f.Disk) (disk : g.Disk) (m : Memory) (db : env.Db)
      (own : Bytes) (pv : FilePv) (state : State) (world : World) (cs : ConsensusState env)
      → is_empty config.priv_validator_key_file ≡ false
      → load_file_pv s f keys config.priv_validator_key_file ≡ ok pv
      → pv.key.pub_key ≡ some own
      → load_state_from_file (Bls.address s) g now disk config.genesis_file m ≡ ok (state, world)
      → new_default_consensus_state env
          (Bls.address s)
          state.initial_slot
          (ok (some own))
          state.validators
          (record state {
            validator = some (record { address = Bls.address s own; pub_key = some own });
          })
          world
          db
          []
        ≡ ok cs
      → (info : Bool)
      → new_node s f g env config info now keys disk m db ≡ (
          if info
          then ok (record { con_s = cs; mempool_reactor = new_reactor new_list_mempool })
          else err bad_node_info)
  unfolding new_node get_pub_key new_validator
  new_node-starts config now keys disk m db own pv state world cs path loaded has_own read made
        true =
      ground arith
  new_node-starts config now keys disk m db own pv state world cs path loaded has_own read made
        false =
      ground arith

  -- Where the path of the key file is not empty, the key file has a key, and the genesis file is read as
  -- a document with a public validator, NewNode gives the error about the node's info if that is not
  -- valid; if it is, it gives a node without an error, which is the node of that key and that document.
  pub new_node-IsNode :
      (config : Config) (info_is_valid : Bool) (now : ℤ) (keys : f.Disk) (disk : g.Disk)
      (m : Memory) (db : env.Db) (own key : Bytes) (pv : FilePv) (doc : GenesisDoc)
      → is_empty config.priv_validator_key_file ≡ false
      → load_file_pv s f keys config.priv_validator_key_file ≡ ok pv
      → pv.key.pub_key ≡ some own
      → genesis_doc_from_file (Bls.address s) g now disk config.genesis_file ≡ ok doc
      → doc.pub_validator.pub_key ≡ some key
      → (node : Node s f g env) × (new_node s f g env config info_is_valid now keys disk m db
          ≡ (if info_is_valid then ok node else err bad_node_info))
        × IsNode own doc node.con_s
  unfolding new_state
  new_node-IsNode config info now keys disk m db own key pv doc path loaded has_own read has_key =
      let (cs, e, fresh) =
        new_default_consensus_state-IsFresh env (Bls.address s) doc.initial_slot own
          (map as_validator doc.validators) (first_state doc key own) (first_world doc m) db in
      let start =
        load_state_from_file_lem (Bls.address s) g now disk config.genesis_file key m doc read
          has_key in
      (
        record { con_s = cs; mempool_reactor = new_reactor new_list_mempool },
        new_node-starts config now keys disk m db own pv (state_of doc _) (first_world doc m) cs
            path loaded has_own start e info,
        fresh-IsNode own key doc m cs fresh,
      )
