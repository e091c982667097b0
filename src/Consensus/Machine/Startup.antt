-- ===== src/Consensus/Machine/Startup.antt =====
-- The constructors and options of consensus/state.go: the state machine before its first slot. The
-- interface of a key gives its address as a parameter; the routines that OnStart starts call the
-- handlers.
use obrs.Prelude.{◌≡◌, refl, Option, none, some, List, [], ◌∷◌}
use obrs.Prelude.Int.{pos}
use obrs.Prelude.Bytes.{Bytes}
use obrs.Prelude.Outcome.{Outcome, ok, err, panic, deref, ◌>>=◌}
use obrs.Types.Ltime.{LTime, ltime_zero}
use obrs.Types.Validators.{ValidatorSet, get_by_address}
use obrs.Consensus.VoteSet.{make_slot_vote_set}
use obrs.State.{State, World, new_state}
use obrs.Consensus.Machine.{Env, ConsensusState, round_step_wait}

module _ (env : Env) where
  -- A nil option of the source does not occur.
  abbrev pub ConsensusOption : Type 0
  ConsensusOption = ConsensusState env → Outcome (ConsensusState env)

  -- The zero value of a state
  abbrev no_state : State
  no_state = new_state [] (pos 0) none none []

  -- The machine before its options.
  unfoldable pub initial_consensus : LTime → State → World → env.Db → ConsensusState env
  initial_consensus init_slot state world db = record {
    cur_slot = init_slot;
    last_slot = init_slot;
    step = round_step_wait;
    val_index = pos 0;
    validators = [];
    proposer = none;
    proposal = none;
    vote_set = make_slot_vote_set;
    state = state;
    last_state = no_state;
    world = world;
    db = db;
    future_proposal = λ _. none;
    cur_slot_start_time = pos 0;
    clock_slot = ltime_zero;
    effects = [];
  }

  unfoldable pub apply_options :
      List ConsensusOption → ConsensusState env → Outcome (ConsensusState env)
  apply_options [] cs = ok cs
  apply_options (opt ∷ opts) cs = opt cs >>= apply_options opts

  unfoldable pub new_consensus_state :
      LTime → State → World → env.Db → List ConsensusOption → Outcome (ConsensusState env)
  unfolding initial_consensus apply_options
  new_consensus_state init_slot state world db options =
      apply_options options (initial_consensus init_slot state world db)

  -- SetValidtorSet
  unfoldable pub set_validtor_set : ValidatorSet → ConsensusOption
  set_validtor_set vals cs = ok (record cs { validators = vals })

  -- SetValidtor, on what GetPubKey gives: the index of the node's own key.
  unfoldable pub set_validtor : (Bytes → Bytes) → Outcome (Option Bytes) → ConsensusOption
  set_validtor key_address (ok key) cs = do
    k ← deref key
    ok (record cs { val_index = (get_by_address cs.validators (key_address k)).0 })
  set_validtor key_address (err _) cs = ok cs
  set_validtor key_address panic cs = panic

  unfoldable pub new_default_consensus_state :
      (Bytes → Bytes)
      → LTime
      → Outcome (Option Bytes)
      → ValidatorSet
      → State
      → World
      → env.Db
      → List ConsensusOption
      → Outcome (ConsensusState env)
  unfolding new_consensus_state set_validtor_set set_validtor
  new_default_consensus_state key_address init_slot priv_val vals state world db options =
      new_consensus_state init_slot state world db
        (set_validtor_set vals ∷ set_validtor key_address priv_val ∷ options)

  -- A node whose key is known starts, with no further options, without votes, in the initial slot and
  -- waiting; its index is that of its address in the given validators, and its clock stands at slot 0
  -- whatever the initial slot is.
  pub record IsFresh (init_slot : LTime) (vals : ValidatorSet) (own : Bytes) (state : State)
      (world : World) (cs : ConsensusState env) : Type 0 where
    pub slot : cs.cur_slot ≡ init_slot
    pub waiting : cs.step ≡ round_step_wait
    pub of_set : cs.validators ≡ vals
    pub index : cs.val_index ≡ (get_by_address vals own).0
    pub clock : cs.clock_slot ≡ ltime_zero
    pub no_votes : (s : LTime) → cs.vote_set s ≡ none
    pub no_proposal : cs.proposal ≡ none
    pub held_state : cs.state ≡ state
    pub held_world : cs.world ≡ world

  pub new_default_consensus_state-IsFresh :
      (key_address : Bytes → Bytes) (init_slot : LTime) (key : Bytes) (vals : ValidatorSet)
      (state : State) (world : World) (db : env.Db)
      → (cs : ConsensusState env) × (new_default_consensus_state key_address init_slot
            (ok (some key))
            vals
            state
            world
            db
            []
          ≡ ok cs)
        × IsFresh init_slot vals (key_address key) state world cs
  unfolding new_default_consensus_state
  new_default_consensus_state-IsFresh key_address init_slot key vals state world db = (
    record (initial_consensus init_slot state world db) {
      validators = vals;
      val_index = (get_by_address vals (key_address key)).0;
    },
    refl,
    record {
      slot = refl;
      waiting = refl;
      of_set = refl;
      index = refl;
      clock = refl;
      no_votes = λ s. refl;
      no_proposal = refl;
      held_state = refl;
      held_world = refl;
    },
  )
