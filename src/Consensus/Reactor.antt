-- ===== src/Consensus/Reactor.antt =====
-- consensus/reactor.go: messages of the network. JSON is a parameter, and the switch's broadcast an
-- effect. The fields that the source marks for debugging are left out of messages.
pub mod Gossip
pub mod StartTime
use obrs.Prelude.{ℕ, ◌≡◌, Bool, Option, none, some, List, [], ◌∷◌, ◌++◌, ◌==◌, if◌then◌else◌, any}
use obrs.Prelude.Int.{ℤ}
use obrs.Prelude.Bytes.{Bytes, bytes_of, bytes_equal}
use obrs.Types.Vote.{Vote}
use obrs.Types.Block.{Block}
use obrs.Consensus.Machine.{Env, ConsensusState, Effect, fire_new_vote, fire_new_proposal}
use obrs.Consensus.Machine.Messages.{Message, proposal_message, vote_message, MsgInfo}

abbrev pub proposal_channel : ℕ
proposal_channel = 0x21

abbrev pub vote_channel : ℕ
vote_channel = 0x22

-- json of the two messages; a proposal's text may have no block.
pub record Wire : Type 0 where
  pub marshal_vote : Vote → Option Bytes
  pub unmarshal_vote : Bytes → Option Vote
  pub marshal_proposal : Block → Option Bytes
  pub unmarshal_proposal : Bytes → Option (Option Block)

-- A vote that comes out of its text as it went in.
abbrev pub Travels : Wire → Vote → Type 0
Travels w v = (b : Bytes) × (w.marshal_vote v ≡ some b) × (w.unmarshal_vote b ≡ some v)

-- What goes to all peers, on a channel.
pub record Packet : Type 0 where
  pub channel : ℕ
  pub bytes : Bytes

module _ (w : Wire) where
  -- The peers and the messages that wait in peerMsgQueue
  pub record Reactor : Type 0 where
    pub peers : List Bytes
    pub peer_msg_queue : List MsgInfo

  unfoldable pub new_reactor : Reactor
  new_reactor = record { peers = []; peer_msg_queue = [] }

  -- AddPeer, which sets the peer's key of a map; RemovePeer does nothing.
  unfoldable pub add_peer : Bytes → Reactor → Reactor
  add_peer peer r =
      if any (bytes_equal peer) r.peers then r else record r { peers = peer ∷ r.peers }

  unfoldable pub remove_peer : Bytes → Reactor → Reactor
  remove_peer peer r = r

  abbrev pub enqueue : Bytes → Message → Reactor → Reactor
  enqueue src m r = record r {
    peer_msg_queue = r.peer_msg_queue ++ record { msg = m; peer_id = src } ∷ [];
  }

  -- Receive: a text that is not JSON, and an unknown channel, are logged.
  unfoldable pub receive : ℕ → Bytes → Bytes → Reactor → Reactor
  receive ch src msg r =
      if ch == vote_channel
      then elim (w.unmarshal_vote msg) [ none ↦ r | some v ↦ enqueue src (vote_message v) r ]
      else if ch == proposal_channel
      then elim (w.unmarshal_proposal msg) [
        | none ↦ r
        | some p ↦ enqueue src (proposal_message p) r
      ]
      else r

  -- What cannot be marshalled is sent as no bytes.
  unfoldable pub broadcast_vote : Vote → Packet
  broadcast_vote v = record { channel = vote_channel; bytes = bytes_of (w.marshal_vote v) }

  unfoldable pub broadcast_proposal : Block → Packet
  broadcast_proposal b = record {
    channel = proposal_channel;
    bytes = bytes_of (w.marshal_proposal b);
  }

  -- The listeners of subscribeToBroadcastEvents, on an effect of the state machine.
  unfoldable pub on_effect : (env : Env) → ConsensusState env → Effect → List Packet
  unfolding broadcast_vote broadcast_proposal
  on_effect env cs (fire_new_vote v) = broadcast_vote v ∷ []
  on_effect env cs (fire_new_proposal p) = broadcast_proposal (cs.world.memory.block_at p) ∷ []
  on_effect env cs other = []
