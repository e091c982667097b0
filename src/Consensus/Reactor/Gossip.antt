-- ===== src/Consensus/Reactor/Gossip.antt =====
-- Messages between two nodes, over consensus/reactor.go and handleMsg of consensus/state.go.
use obrs.Prelude.{◌≡◌, refl, ap, none, some, [], ◌∷◌, ◌++◌, arith}
use obrs.Prelude.Int.{ℤ}
use obrs.Prelude.Bytes.{Bytes}
use obrs.Prelude.Outcome.{Outcome, ok, panic, ◌>>=◌}
use obrs.Types.Vote.{Vote}
use obrs.Types.Validators.{Validator, get_by_address}
use obrs.Crypto.Bls.{Suite, BlsLaws, verify_signature}
use obrs.Privval.KeyFile.{FilePv, new_file_pv, sign_vote}
use obrs.Privval.KeyFile.Signed.{handle_vote-sign_vote}
use obrs.Consensus.VoteSet.{SlotVoteSet, add_slot_vote}
use obrs.Consensus.Machine.{Env, ConsensusState, emit, fire_new_vote}
use obrs.Consensus.Machine.Messages.{
  proposal_message, vote_message, MsgInfo, handle_msg, receive_all,
}
use obrs.Consensus.Reactor.{
  Wire, Travels, Reactor, receive, enqueue, broadcast_vote, on_effect, proposal_channel,
}

module _ (w : Wire) where
  -- A vote that one node sends is the message that another one puts into its queue.
  pub receive-broadcast_vote :
      (v : Vote) (src : Bytes) (r : Reactor w)
      → Travels w v
      → receive w (broadcast_vote w v).channel src (broadcast_vote w v).bytes r
        ≡ enqueue w src (vote_message v) r
  unfolding receive broadcast_vote
  receive-broadcast_vote v src r (b, marshalled, back) = ground arith

  -- A proposal whose text has no block is put into the queue and stops the node that handles it.
  pub receive_no_block :
      (env : Env) (src msg : Bytes) (now : ℤ) (r : Reactor w) (cs : ConsensusState env)
      → w.unmarshal_proposal msg ≡ some none
      → (mi : MsgInfo) × ((receive w proposal_channel src msg r).peer_msg_queue
          ≡ r.peer_msg_queue ++ mi ∷ [])
        × (receive_all env ((now, mi) ∷ []) cs ≡ panic)
  unfolding receive receive_all handle_msg
  receive_no_block env src msg now r cs h =
      (record { msg = proposal_message none; peer_id = src }, ground arith, refl)

module _ {Scalar : Type 0} (s : Suite Scalar) (laws : BlsLaws s) (w : Wire) where
  -- A vote that a validator signs, that its node sends and another node receives into an empty queue, is
  -- admitted there, where the pairing library keeps its laws, the vote survives its text, and the other
  -- node checks signatures as the key's package does, has the validator's key at the address and index
  -- that the vote names, and no other vote of it in the slot. It fires the vote, so that it is sent on as
  -- it came.
  pub gossip_vote :
      (env : Env) (priv path src : Bytes) (pv : FilePv) (vote signed : Vote) (now : ℤ)
      (cs : ConsensusState env) (val : Validator) (svs : SlotVoteSet)
      → ((key msg sig : Bytes)
          → env.ext.verify_signature key msg sig ≡ verify_signature s key msg sig)
      → new_file_pv s priv path ≡ ok pv
      → get_by_address cs.validators vote.validator_address ≡ (vote.validator_index, some val)
      → val.pub_key ≡ pv.key.pub_key
      → sign_vote s env.ext pv cs.state.chain_id vote ≡ ok signed
      → add_slot_vote cs.vote_set signed ≡ ok svs
      → Travels w signed
      → (mi : MsgInfo) × ((receive w
            (broadcast_vote w signed).channel
            src
            (broadcast_vote w signed).bytes
            (record { peers = []; peer_msg_queue = [] })).peer_msg_queue
          ≡ mi ∷ [])
        × (receive_all env ((now, mi) ∷ []) cs
            ≡ ok (emit env (fire_new_vote signed) (record cs { vote_set = svs })))
        × (on_effect w env cs (fire_new_vote signed) ≡ broadcast_vote w signed ∷ [])
  unfolding receive_all handle_msg on_effect
  gossip_vote env priv path src pv vote signed now cs val svs check made found key signs added
        travels =
      (
        record { msg = vote_message signed; peer_id = src },
        ap (λ (r : Reactor w). r.peer_msg_queue) (receive-broadcast_vote w signed src _ travels),
        ap (λ (o : Outcome (ConsensusState env)). o >>= receive_all env [])
            (handle_vote-sign_vote s laws env priv path pv vote signed cs val svs check made found
              key signs added),
        refl,
      )
