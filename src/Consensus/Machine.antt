-- ===== src/Consensus/Machine.antt =====
-- consensus/state.go, with the enumerations of consensus/types/round_state.go: the state machine of a
-- node. A handler takes the state and the current time and gives the state after it; what it sends to
-- a channel, fires as an event or sets a timer to is appended to `effects`. A handler whose loop would
-- run out of rounds gives a panic.
pub mod Evidence
pub mod Proposing
pub mod Handlers
pub mod Votes
pub mod Endless
pub mod Slots
pub mod Acceptance
pub mod Frame
pub mod Steps
pub mod Runs
pub mod Aliasing
pub mod Messages
pub mod Progress
pub mod Trees
pub mod Links
pub mod Startup
use obrs.Prelude.{
  ℕ, Bool, true, false, Option, none, some, List, [], ◌∷◌, ◌++◌, ◌==◌, if◌then◌else◌,
}
use obrs.Prelude.Int.{ℤ, pos, ◌+ℤ◌}
use obrs.Prelude.Bytes.{Bytes, bytes_equal}
use obrs.Prelude.Text.{codes}
use obrs.Prelude.Outcome.{Outcome, ok, panic, deref, ◌>>=◌}
use obrs.Types.Ltime.{LTime}
use obrs.Types.External.{External}
use obrs.Types.Vote.{Vote}
use obrs.Types.Block.{Block, default_block}
use obrs.Types.Validators.{Validator, ValidatorSet, get_proposer}
use obrs.Crypto.Threshold.{Curve}
use obrs.Consensus.VoteSet.{SlotVoteSet}
use obrs.State.{State, World}

-- RoundStepType
abbrev pub round_step_slot : ℕ
round_step_slot = 1

abbrev pub round_step_apply : ℕ
round_step_apply = 2

abbrev pub round_step_propose : ℕ
round_step_propose = 3

abbrev pub round_step_wait : ℕ
round_step_wait = 4

-- RoundEventType
abbrev pub round_event_new_slot : ℕ
round_event_new_slot = 1

abbrev pub round_event_apply : ℕ
round_event_apply = 2

abbrev pub round_event_propose : ℕ
round_event_propose = 3

pub record RoundEvent : Type 0 where
  pub event_type : ℕ
  pub slot : LTime

abbrev pub threshold : ℕ
threshold = 3

-- Two seconds, in nanoseconds.
abbrev pub slot_time_out : ℤ
slot_time_out = pos 2_000_000_000

abbrev pub default_block_parent : Bytes
default_block_parent = codes "single unused block"

-- What the node does not implement itself: third-party functions, the store, the key that signs.
pub record Env : Type 1 where
  pub ext : External
  pub curve : Curve
  pub Db : Type 0
  pub exec_block : Db → Block → Db × Option Bytes
  pub sign : Bytes → Option Bytes

-- What a handler does beside changing the state. A proposal is the address of its block.
pub data Effect : Type 0 where
  internal_proposal : ℕ → Effect
  internal_vote : Vote → Effect
  event : RoundEvent → Effect
  fire_new_vote : Vote → Effect
  fire_new_proposal : ℕ → Effect
  reset_clock : ℤ → Effect

module _ (env : Env) where
  pub record ConsensusState : Type 0 where
    pub cur_slot : LTime
    pub last_slot : LTime
    pub step : ℕ
    pub val_index : ℤ
    pub validators : ValidatorSet
    pub proposer : Option Validator
    pub proposal : Option ℕ
    pub vote_set : SlotVoteSet
    pub state : State
    pub last_state : State
    pub world : World
    pub db : env.Db
    pub future_proposal : LTime → Option ℕ
    pub cur_slot_start_time : ℤ
    pub clock_slot : LTime
    pub effects : List Effect

  abbrev pub emit : Effect → ConsensusState → ConsensusState
  emit e cs = record cs { effects = cs.effects ++ e ∷ [] }

  abbrev pub update_step : ℕ → ConsensusState → ConsensusState
  update_step s cs = record cs { step = s }

  -- The block of the current proposal has a state other than the default one.
  unfoldable pub has_proposal : ConsensusState → Bool
  has_proposal cs = elim cs.proposal [
    | none ↦ false
    | some b ↦ if (cs.world.memory.block_at b).block_state == default_block then false else true
  ]

  -- decideProposer; the log line after it reads the proposer's address.
  unfoldable pub decide_proposer : ConsensusState → Outcome ConsensusState
  decide_proposer cs = do
    chosen ← get_proposer cs.validators cs.cur_slot
    val ← deref chosen
    ok (record cs { proposer = some val })

  unfoldable pub with_proposer : ConsensusState → Option Validator → Outcome ConsensusState
  unfolding decide_proposer
  with_proposer cs none = decide_proposer cs
  with_proposer cs (some _) = ok cs

  abbrev pub same_key : Bytes → Option Bytes → Bool
  same_key key none = false
  same_key key (some other) = bytes_equal key other

  -- isProposer, with the state in which a proposer has been decided on.
  unfoldable pub is_proposer : ConsensusState → Option Validator → Outcome (ConsensusState × Bool)
  unfolding with_proposer
  is_proposer cs none = ok (cs, false)
  is_proposer cs (some val) = do
    cs' ← with_proposer cs cs.proposer
    leader ← deref cs'.proposer
    key ← deref leader.pub_key
    ok (cs', same_key key val.pub_key)
