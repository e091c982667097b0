-- ===== src/Consensus/Machine/Handlers.antt =====
-- The handlers of consensus/state.go: messages, events, time-outs, and the three steps of a slot.
use obrs.Prelude.{
  ℕ, zero, suc, Bool, true, false, ◌&&◌, not, Option, none, some, List, [], ◌∷◌, ◌==◌,
  if◌then◌else◌,
}
use obrs.Prelude.Int.{ℤ, pos, negsuc, ◌+ℤ◌, ◌-ℤ◌, leb_ℤ, ltb_ℤ}
use obrs.Prelude.Outcome.{Outcome, ok, err, panic, deref, ◌>>=◌}
use obrs.Types.Ltime.{LTime, equal, sub}
use obrs.Types.Vote.{Vote, support_quorum, against_quorum}
use obrs.Types.Tx.{Tx}
use obrs.Types.Block.{
  Block, default_block, suspect_block, error_block, precommit_block, validate_basic, fill,
  make_empty_proposal,
}
use obrs.Types.Memory.{Memory, set_block, alloc_block}
use obrs.Types.Validators.{Validator, get_by_index, validators_hash_of}
use obrs.Consensus.VoteSet.{VoteSet, get_votes_by_slot, try_gen_quorum}
use obrs.State.{copy, hash_shared}
use obrs.State.Executor.{Applied, apply_block, update_block_state}
use obrs.Consensus.Machine.{
  Env, ConsensusState, RoundEvent, event, fire_new_vote, reset_clock, emit, update_step,
  has_proposal, decide_proposer, is_proposer, threshold, slot_time_out, default_block_parent,
  round_step_slot, round_step_apply, round_step_wait, round_event_new_slot, round_event_apply,
  round_event_propose,
}
use obrs.Consensus.Machine.Evidence.{update_evidences}
use obrs.Consensus.Machine.Proposing.{
  with_memory, default_set_proposal, triggle_future_proposal, default_proposal, try_add_vote,
}

module _ (env : Env) where
  open env use {ext, curve}

  abbrev Cs : Type 0
  Cs = ConsensusState env

  -- The start time after a number of slots, as the loop of reviseSlotTime adds them.
  add_slots : ℕ → ℤ → ℤ
  add_slots zero t = t
  add_slots (suc n) t = add_slots n (t +ℤ slot_time_out)

  abbrev natural : ℤ → ℕ
  natural (pos n) = n
  natural (negsuc n) = 0

  -- The clock set so that the slot ends where the last committed block says, if that is to come.
  unfoldable pub revise_from : ℤ → Block → Cs → Cs
  unfolding add_slots
  revise_from now last cs =
      let diff = sub cs.cur_slot last.slot in
      let start = add_slots (natural diff) last.slot_start_time in
      let end = start +ℤ slot_time_out in
      if leb_ℤ diff (pos 0)
      then cs
      else if ltb_ℤ end now
      then cs
      else emit env (reset_clock (end -ℤ now)) (record cs { cur_slot_start_time = start })

  unfoldable pub revise_slot_time : ℤ → Cs → Cs
  unfolding revise_from
  revise_slot_time now cs = elim cs.state.last_commited_block [
    | none ↦ cs
    | some b ↦ revise_from now (cs.world.memory.block_at b) cs
  ]

  -- enterNewSlot; the slot is the clock's, whatever the event's is.
  unfoldable pub enter_new_slot : ℤ → Cs → Outcome Cs
  enter_new_slot now cs = do
    cs' ←
        decide_proposer env (record cs {
          last_slot = cs.cur_slot;
          cur_slot = cs.clock_slot;
          cur_slot_start_time = now;
        })
    let revised = revise_slot_time now (emit env (reset_clock slot_time_out) cs')
    ok (
        update_step env round_step_slot (
          emit env (event (record { event_type = round_event_apply; slot = revised.cur_slot }))
            revised))

  -- The state that a quorum puts the proposal's block in.
  unfoldable pub state_after : ℕ → ℕ
  state_after kind =
      if kind == support_quorum
      then precommit_block
      else if kind == against_quorum
      then error_block
      else suspect_block

  -- The proposal's block after the votes of the last slot.
  unfoldable pub judge : ℤ → ℕ → Option VoteSet → Memory → Outcome Memory
  unfolding state_after
  judge now b none m = ok (update_block_state now b suspect_block m)
  judge now b (some vs) m = do
    q ← try_gen_quorum curve threshold vs
    let block = m.block_at b
    let quorum = record q { slot = block.slot }
    ok (
        update_block_state now b (state_after quorum.quorum_type)
          (set_block b (record block { vote_quorum = quorum }) m))

  -- What ApplyBlock leaves: a new state only where it gives no error.
  unfoldable pub take_applied : Cs → Applied env.exec_block → Cs
  take_applied cs a = elim a.error [
    | none ↦ record cs { last_state = cs.state; state = a.state; world = a.world; db = a.db }
    | some _ ↦ record cs { world = a.world; db = a.db }
  ]

  -- The part of enterApply that applies the current proposal's block.
  unfoldable pub apply_proposal : ℕ → ℤ → ℕ → Cs → Outcome Cs
  unfolding judge take_applied
  apply_proposal fuel now b cs = do
    m ← judge now b (get_votes_by_slot cs.vote_set cs.last_slot) cs.world.memory
    w ← update_evidences fuel ext (b ∷ []) (record cs.world { memory = m })
    a ← apply_block env.exec_block ext now (copy cs.state) w cs.db b
    ok (take_applied cs a)

  -- The empty proposal of the new slot, which follows no block.
  empty_for : Cs → Validator → Block
  empty_for cs leader = record make_empty_proposal {
    header =
        fill cs.state.chain_id cs.cur_slot default_block default_block_parent leader.address
          (validators_hash_of ext cs.state.validators) cs.cur_slot_start_time
          make_empty_proposal.header;
  }

  -- The slot open for a proposal of its leader.
  unfoldable pub opened : Cs → Validator → Cs
  unfolding empty_for
  opened cs leader =
      let m = cs.world.memory in
      emit env (event (record { event_type = round_event_propose; slot = cs.cur_slot })) (
        update_step env round_step_apply
          (record (with_memory env (alloc_block (empty_for cs leader) m) cs) {
            proposal = some m.next_block;
          }))

  -- The deferred end of enterApply.
  unfoldable pub finish_apply : Cs → Outcome Cs
  unfolding opened
  finish_apply cs = do leader ← deref cs.proposer; ok (opened cs leader)

  -- The middle of enterApply, for a node that has a proposal. Taking in a proposal that came early
  -- may replace the current one.
  unfoldable pub apply_current : ℕ → ℤ → Cs → Outcome Cs
  unfolding apply_proposal
  apply_current fuel now cs = do
    cs' ← triggle_future_proposal env now cs.cur_slot cs
    b ← deref cs'.proposal
    apply_proposal fuel now b cs'

  -- enterApply, with the rounds that updateEvidences may take
  unfoldable pub enter_apply : ℕ → ℤ → Cs → Outcome Cs
  unfolding apply_current finish_apply
  enter_apply fuel now cs =
      if not (cs.step == round_step_slot)
      then panic
      else if has_proposal env cs
      then (apply_current fuel now cs >>= finish_apply)
      else finish_apply cs

  unfoldable pub propose_if : ℤ → List Tx → Cs × Bool → Outcome Cs
  propose_if now txs (cs, true) = default_proposal env now txs cs
  propose_if now txs (cs, false) = ok cs

  -- enterPropose: the leader of the slot makes a proposal; all then wait.
  unfoldable pub enter_propose : ℤ → List Tx → Cs → Outcome Cs
  unfolding propose_if
  enter_propose now txs cs =
      if not (cs.step == round_step_apply)
      then panic
      else ((is_proposer env cs (get_by_index cs.validators cs.val_index) >>= propose_if now txs)
          >>= λ cs'. ok (update_step env round_step_wait cs'))

  -- handleEvent: an event of another slot is dropped, unless it begins a slot.
  unfoldable pub handle_event : ℕ → ℤ → List Tx → RoundEvent → Cs → Outcome Cs
  handle_event fuel now txs e cs =
      if not (equal cs.cur_slot e.slot) && not (e.event_type == round_event_new_slot)
      then ok cs
      else if e.event_type == round_event_new_slot
      then enter_new_slot now cs
      else if e.event_type == round_event_apply
      then enter_apply fuel now cs
      else if e.event_type == round_event_propose
      then enter_propose now txs cs
      else ok cs

  -- handleTimeOut
  unfoldable pub handle_time_out : ℕ → LTime → Cs → Cs
  handle_time_out step slot cs =
      if step == round_step_slot
      then emit env (event (record { event_type = round_event_new_slot; slot = slot })) cs
      else cs

  unfoldable pub set_if_valid : ℤ → ℕ → Outcome (Unit {0}) → Cs → Outcome Cs
  set_if_valid now proposal (ok _) cs =
      if not (has_proposal env cs)
      then (default_set_proposal env now proposal cs >>= λ r. ok r.0)
      else ok cs
  set_if_valid now proposal (err _) cs =
      ok (with_memory env (hash_shared ext proposal cs.world.memory) cs)
  set_if_valid now proposal panic cs = panic

  -- handleMsg on a proposal
  unfoldable pub handle_proposal : ℤ → ℕ → Cs → Outcome Cs
  unfolding set_if_valid
  handle_proposal now proposal cs =
      set_if_valid now proposal (validate_basic (cs.world.memory.block_at proposal)) cs

  -- handleMsg on a vote: one that is admitted is fired as an event, to be sent on.
  unfoldable pub handle_vote : Vote → Cs → Outcome Cs
  handle_vote vote cs = elim (try_add_vote env vote cs) [
    | ok cs' ↦ ok (emit env (fire_new_vote vote) cs')
    | err _ ↦ ok cs
    | panic ↦ panic
  ]
