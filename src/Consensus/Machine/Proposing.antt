-- ===== src/Consensus/Machine/Proposing.antt =====
-- Proposals and votes in consensus/state.go: making them, and taking them in.
use obrs.Prelude.{ℕ, Bool, true, false, Option, none, some, List, [], ◌∷◌, if◌then◌else◌}
use obrs.Prelude.Int.{ℤ, eqb_ℤ}
use obrs.Prelude.Bytes.{bytes_of}
use obrs.Prelude.Text.{codes}
use obrs.Prelude.Outcome.{
  Error, Outcome, ok, err, panic, deref, ◌>>=◌, future_exists, future_proposal, slot_mismatch,
  not_leader, invalid_tx, proposal_signature, wrong_index, vote_signature,
}
use obrs.Types.Ltime.{LTime, equal, greater}
use obrs.Types.Vote.{Vote, support_vote, against_vote, vote_sign_bytes}
use obrs.Types.Tx.{Tx, tx_valid}
use obrs.Types.Memory.{Memory, set_block}
use obrs.Types.Validators.{Validator, get_by_address}
use obrs.Consensus.VoteSet.{add_slot_vote}
use obrs.State.{World, hash_shared, is_match}
use obrs.State.Executor.{update_state, create_proposal}
use obrs.Consensus.Machine.{
  Env, ConsensusState, internal_proposal, internal_vote, fire_new_proposal, emit, update_step,
  is_proposer, round_step_propose,
}

module _ (env : Env) where
  open env use {ext, sign}

  abbrev pub State' : Type 0
  State' = ConsensusState env

  abbrev pub with_memory : Memory → State' → State'
  with_memory m cs = record cs { world = record cs.world { memory = m } }

  -- The signed vote leaves through the internal channel; one that cannot be signed is dropped.
  unfoldable pub send_vote : Vote → State' → State'
  send_vote vote cs = elim (sign (vote_sign_bytes ext cs.state.chain_id vote)) [
    | none ↦ cs
    | some sig ↦ emit env (internal_vote (record vote { signature = sig })) cs
  ]

  -- signVote
  unfoldable pub sign_vote : ℤ → ℕ → Bool → State' → Outcome State'
  unfolding send_vote
  sign_vote now proposal approved cs = do
    let m = hash_shared ext proposal cs.world.memory
    val ← deref cs.state.validator
    ok (
        send_vote
          (record {
            slot = cs.cur_slot;
            block_hash = bytes_of (m.block_at proposal).block_hash;
            vote_type = if approved then support_vote else against_vote;
            timestamp = now;
            validator_address = val.address;
            validator_index = cs.val_index;
            signature = codes "signature";
          })
          (with_memory m cs))

  -- TryAddFutureProposal
  unfoldable pub try_add_future_proposal : LTime → ℕ → State' → Outcome State'
  try_add_future_proposal slot proposal cs = elim (cs.future_proposal slot) [
    | some _ ↦ err future_exists
    | none ↦ ok (record cs {
      future_proposal = λ s. if eqb_ℤ s slot then some proposal else cs.future_proposal s;
    })
  ]

  -- A proposal of another slot is refused; one of a later slot is kept first.
  unfoldable pub refuse_slot : LTime → ℕ → State' → State' × Option Error
  unfolding try_add_future_proposal
  refuse_slot slot proposal cs =
      if greater slot cs.cur_slot
      then elim (try_add_future_proposal slot proposal cs) [
        | ok cs' ↦ (cs', some future_proposal)
        | err e ↦ (cs, some e)
        | panic ↦ (cs, none)
      ]
      else (cs, some slot_mismatch)

  unfoldable pub all_valid : List Tx → Outcome Bool
  all_valid [] = ok true
  all_valid (tx ∷ txs) =
      let rest = all_valid txs in tx_valid ext tx >>= λ valid. if valid then rest else ok false

  abbrev pub SetResult : Type 0
  SetResult = State' × Option Error

  -- The deferred vote: in support exactly of a proposal that extends the latest block.
  unfoldable pub vote_on : ℤ → ℕ → State' → Outcome State'
  unfolding sign_vote
  vote_on now proposal cs = do
    (fits, m) ← is_match ext cs.world proposal
    sign_vote now proposal fits (with_memory m cs)

  -- The last part of defaultSetProposal: the evidences, then the proposal itself and the vote.
  unfoldable pub accept_updated : ℤ → ℕ → State' → Option Error → Outcome SetResult
  unfolding vote_on
  accept_updated now proposal cs (some e) = ok (cs, some e)
  accept_updated now proposal cs none = do
    cs' ←
        vote_on now proposal
          (emit env (fire_new_proposal proposal) (record cs { proposal = some proposal }))
    ok (cs', none)

  unfoldable pub accept : ℤ → ℕ → State' → Outcome SetResult
  unfolding accept_updated
  accept now proposal cs =
      let (w, failed) = update_state now cs.state cs.world proposal in
      accept_updated now proposal (record cs { world = w }) failed

  -- The check of the proposer's signature; `Hash` fills in a hash that is missing.
  unfoldable pub check_signature : ℤ → ℕ → Option Validator → State' → Outcome SetResult
  unfolding accept
  check_signature now proposal val cs = do
    v ← deref val
    key ← deref v.pub_key
    let m = hash_shared ext proposal cs.world.memory
    let b = m.block_at proposal
    if ext.verify_signature key (bytes_of b.block_hash) b.signature
        then accept now proposal (with_memory m cs)
        else ok (with_memory m cs, some proposal_signature)

  unfoldable pub check_txs : ℤ → ℕ → Option Validator → State' → Outcome SetResult
  unfolding all_valid check_signature
  check_txs now proposal val cs = do
    valid ← all_valid (cs.world.memory.block_at proposal).txs
    if valid then check_signature now proposal val cs else ok (cs, some invalid_tx)

  unfoldable pub check_leader : ℤ → ℕ → State' → Outcome SetResult
  unfolding check_txs
  check_leader now proposal cs = do
    let val = (get_by_address cs.validators (cs.world.memory.block_at proposal).validator_addr).1
    (cs', leads) ← is_proposer env cs val
    if leads then check_txs now proposal val cs' else ok (cs', some not_leader)

  -- defaultSetProposal
  unfoldable pub default_set_proposal : ℤ → ℕ → State' → Outcome SetResult
  unfolding check_leader refuse_slot
  default_set_proposal now proposal cs =
      let slot = (cs.world.memory.block_at proposal).slot in
      if equal slot cs.cur_slot
      then check_leader now proposal cs
      else ok (refuse_slot slot proposal cs)

  -- triggleFutureProposal
  unfoldable pub triggle_future_proposal : ℤ → LTime → State' → Outcome State'
  triggle_future_proposal now slot cs = elim (cs.future_proposal slot) [
    | none ↦ ok cs
    | some proposal ↦ default_set_proposal now proposal cs >>= λ r. ok r.0
  ]

  -- The proposal with its signature goes to the internal channel; without one it is dropped.
  unfoldable pub send_proposal : ℕ → State' → State'
  send_proposal proposal cs =
      let b = cs.world.memory.block_at proposal in
      elim (sign (bytes_of b.block_hash)) [
        | none ↦ cs
        | some sig ↦ emit env (internal_proposal proposal) (
            with_memory
              (set_block proposal (record b { header = record b.header { signature = sig } })
                cs.world.memory)
              cs)
      ]

  -- The state with the new proposal, which starts when the slot did.
  abbrev pub drafted : ℕ → World → State' → State'
  drafted proposal w cs =
      let b = w.memory.block_at proposal in
      let m =
        set_block proposal
          (record b { header = record b.header { slot_start_time = cs.cur_slot_start_time } })
          w.memory in
      update_step env round_step_propose (record cs { world = record w { memory = m } })

  -- defaultProposal, on the transactions that the mempool gives
  unfoldable pub default_proposal : ℤ → List Tx → State' → Outcome State'
  unfolding send_proposal
  default_proposal now txs cs = do
    (proposal, w) ← create_proposal ext now cs.state cs.world cs.cur_slot txs
    ok (send_proposal proposal (drafted proposal w cs))

  -- The check of a vote's signature under its validator's key, and its admission.
  unfoldable pub admit : Vote → Validator → State' → Outcome State'
  admit vote val cs = do
    key ← deref val.pub_key
    if ext.verify_signature key (vote_sign_bytes ext cs.state.chain_id vote) vote.signature
        then (add_slot_vote cs.vote_set vote >>= λ svs. ok (record cs { vote_set = svs }))
        else err vote_signature

  -- TryAddVote; an error leaves the state as it was.
  unfoldable pub try_add_vote : Vote → State' → Outcome State'
  unfolding admit
  try_add_vote vote cs =
      let (index, found) = get_by_address cs.validators vote.validator_address in
      if eqb_ℤ index vote.validator_index
      then (deref found >>= λ val. admit vote val cs)
      else err wrong_index
