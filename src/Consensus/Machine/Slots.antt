-- ===== src/Consensus/Machine/Slots.antt =====
-- The steps of a slot in consensus/state.go: an event of the machine is dropped, or moves it along
-- slot, apply, wait, or begins a slot.
use obrs.Prelude.{
  ℕ, ◌≡◌, ◌≢◌, ap, Option-cases, Bool-cases, ==_iff, ◌∙◌, true, false, some, List, arith, ◌⊎◌, inl,
  inr, ◌==◌,
}
use obrs.Prelude.Int.{ℤ}
use obrs.Prelude.Outcome.{Outcome, ok, panic, deref, ◌>>=◌, >>=-eq-ok}
use obrs.Types.Ltime.{equal}
use obrs.Types.Tx.{Tx}
use obrs.Types.Block.{fill}
use obrs.Types.Validators.{Validator, get_proposer, get_by_index}
use obrs.Consensus.Machine.{
  Env, ConsensusState, emit, update_step, reset_clock, slot_time_out, RoundEvent, has_proposal,
  decide_proposer, is_proposer, round_step_slot, round_step_apply, round_step_wait,
  round_event_new_slot, round_event_apply, round_event_propose,
}
use obrs.Consensus.Machine.Handlers.{
  enter_new_slot, enter_apply, enter_propose, handle_event, finish_apply, apply_current, propose_if,
  revise_slot_time,
}

module _ (env : Env) where
  abbrev Cs : Type 0
  Cs = ConsensusState env

  -- A slot begins: the clock's slot is current, the one before it is kept for its votes, and the slot
  -- has a proposer from the validator set.
  pub record BeginsSlot (cs cs' : Cs) : Type 0 where
    pub step : cs'.step ≡ round_step_slot
    pub last_slot : cs'.last_slot ≡ cs.cur_slot
    pub cur_slot : cs'.cur_slot ≡ cs.clock_slot
    pub leader : Validator
    pub chosen : get_proposer cs.validators cs.clock_slot ≡ ok (some leader)
    pub proposer : cs'.proposer ≡ some leader

  -- The proposal of the last slot is judged; the new slot has none yet.
  pub record Applies (cs cs' : Cs) : Type 0 where
    pub before : cs.step ≡ round_step_slot
    pub after : cs'.step ≡ round_step_apply
    pub open_slot : has_proposal env cs' ≡ false

  pub record Proposes (cs cs' : Cs) : Type 0 where
    pub before : cs.step ≡ round_step_apply
    pub after : cs'.step ≡ round_step_wait

  revise_slot_time-keeps :
      (now : ℤ) (cs : Cs)
      → ((revise_slot_time env now cs).last_slot ≡ cs.last_slot)
        × ((revise_slot_time env now cs).cur_slot ≡ cs.cur_slot)
        × ((revise_slot_time env now cs).proposer ≡ cs.proposer)
  unfolding revise_slot_time
  revise_slot_time-keeps now cs = (ground arith, ground arith, ground arith)

  -- The state that a new slot starts from.
  abbrev started : ℤ → Cs → Cs
  started now cs = record cs {
    last_slot = cs.cur_slot;
    cur_slot = cs.clock_slot;
    cur_slot_start_time = now;
  }

  decide_proposer-eq-ok :
      (cs cs' : Cs)
      → decide_proposer env cs ≡ ok cs'
      → (leader : Validator) × (get_proposer cs.validators cs.cur_slot ≡ ok (some leader))
        × (cs' ≡ record cs { proposer = some leader })
  unfolding decide_proposer
  decide_proposer-eq-ok cs cs' h =
      let (chosen, e, x) = >>=-eq-ok (get_proposer cs.validators cs.cur_slot) _ h in
      elim (Option-cases chosen) [
        | inl missing ↦ ground arith
        | inr (leader, held) ↦ (leader, e ∙ ap ok held, ground arith)
      ]

  pub enter_new_slot-BeginsSlot :
      (now : ℤ) (cs cs' : Cs) → enter_new_slot env now cs ≡ ok cs' → BeginsSlot cs cs'
  unfolding enter_new_slot
  enter_new_slot-BeginsSlot now cs cs' h =
      let (mid, e, x) = >>=-eq-ok (decide_proposer env (started now cs)) _ h in
      let (leader, chosen, same) = decide_proposer-eq-ok (started now cs) mid e in
      let kept = revise_slot_time-keeps now (emit env (reset_clock slot_time_out) mid) in
      record {
        step = ground arith;
        last_slot = ground (arith, kept);
        cur_slot = ground (arith, kept);
        leader = leader;
        chosen = chosen;
        proposer = ground (arith, kept);
      }

  finish_apply-opens :
      (cs cs' : Cs)
      → finish_apply env cs ≡ ok cs'
      → (cs'.step ≡ round_step_apply) × (has_proposal env cs' ≡ false)
  unfolding finish_apply has_proposal fill
  finish_apply-opens cs cs' h =
      let (leader, e, x) = >>=-eq-ok (deref cs.proposer) _ h in (ground arith, ground arith)

  pub enter_apply-Applies :
      (fuel : ℕ) (now : ℤ) (cs cs' : Cs) → enter_apply env fuel now cs ≡ ok cs' → Applies cs cs'
  unfolding enter_apply
  enter_apply-Applies fuel now cs cs' h = elim (Bool-cases (cs.step == round_step_slot)) [
    | inr other ↦ ground arith
    | inl here ↦
        let before : cs.step ≡ round_step_slot = (==_iff cs.step round_step_slot).0 here in
        let applied : (mid : Cs) × (finish_apply env mid ≡ ok cs') =
          elim (Bool-cases (has_proposal env cs)) [
            | inl proposed ↦
                let bound : (apply_current env fuel now cs >>= finish_apply env) ≡ ok cs' =
                  ground arith in
                let (mid, _, x) =
                  >>=-eq-ok (apply_current env fuel now cs) (finish_apply env) bound in
                (mid, x)
            | inr bare ↦ (cs, ground arith)
          ] in
        let (mid, x) = applied in
        let (after, opened) = finish_apply-opens mid cs' x in
        record { before = before; after = after; open_slot = opened }
  ]

  pub enter_propose-Proposes :
      (now : ℤ) (txs : List Tx) (cs cs' : Cs)
      → enter_propose env now txs cs ≡ ok cs'
      → Proposes cs cs'
  unfolding enter_propose
  enter_propose-Proposes now txs cs cs' h = elim (Bool-cases (cs.step == round_step_apply)) [
    | inr other ↦ ground arith
    | inl here ↦
        let before : cs.step ≡ round_step_apply = (==_iff cs.step round_step_apply).0 here in
        let asked =
          is_proposer env cs (get_by_index cs.validators cs.val_index) >>= propose_if env now txs in
        let wait : Cs → Outcome Cs = λ c. ok (update_step env round_step_wait c) in
        let bound : (asked >>= wait) ≡ ok cs' = ground arith in
        let (mid, _, x) = >>=-eq-ok asked wait bound in
        record { before = before; after = ground arith }
  ]

  -- The handler that an event reaches.
  pub data Handled (fuel : ℕ) (now : ℤ) (txs : List Tx) (e : RoundEvent) (cs cs' : Cs)
      : Type 0 where
    not_handled : cs' ≡ cs → Handled fuel now txs e cs cs'
    new_slot :
        e.event_type ≡ round_event_new_slot
        → enter_new_slot env now cs ≡ ok cs'
        → Handled fuel now txs e cs cs'
    apply :
        e.event_type ≡ round_event_apply
        → equal cs.cur_slot e.slot ≡ true
        → enter_apply env fuel now cs ≡ ok cs'
        → Handled fuel now txs e cs cs'
    propose :
        e.event_type ≡ round_event_propose
        → equal cs.cur_slot e.slot ≡ true
        → enter_propose env now txs cs ≡ ok cs'
        → Handled fuel now txs e cs cs'

  pub handle_event-Handled :
      (fuel : ℕ) (now : ℤ) (txs : List Tx) (e : RoundEvent) (cs cs' : Cs)
      → handle_event env fuel now txs e cs ≡ ok cs'
      → Handled fuel now txs e cs cs'
  unfolding handle_event
  handle_event-Handled fuel now txs e cs cs' h =
      elim (Bool-cases (e.event_type == round_event_new_slot)) [
        | inl is_new ↦ new_slot ((==_iff _ _).0 is_new) (ground arith)
        | inr not_new ↦ elim (Bool-cases (equal cs.cur_slot e.slot)) [
          | inr other ↦ not_handled (ground arith)
          | inl same ↦ elim (Bool-cases (e.event_type == round_event_apply)) [
            | inl is_apply ↦ apply ((==_iff _ _).0 is_apply) same (ground arith)
            | inr not_apply ↦ elim (Bool-cases (e.event_type == round_event_propose)) [
              | inl is_propose ↦ propose ((==_iff _ _).0 is_propose) same (ground arith)
              | inr neither ↦ not_handled (ground arith)
            ]
          ]
        ]
      ]

  -- What an event of the machine does: nothing, or one of the three steps, which an event of another
  -- slot does not take.
  pub data Turn (e : RoundEvent) (cs cs' : Cs) : Type 0 where
    dropped : cs' ≡ cs → Turn e cs cs'
    began : e.event_type ≡ round_event_new_slot → BeginsSlot cs cs' → Turn e cs cs'
    applied :
        e.event_type ≡ round_event_apply
        → equal cs.cur_slot e.slot ≡ true
        → Applies cs cs'
        → Turn e cs cs'
    proposed :
        e.event_type ≡ round_event_propose
        → equal cs.cur_slot e.slot ≡ true
        → Proposes cs cs'
        → Turn e cs cs'

  handled-Turn :
      (fuel : ℕ) (now : ℤ) (txs : List Tx) (e : RoundEvent) (cs cs' : Cs)
      → Handled fuel now txs e cs cs'
      → Turn e cs cs'
  handled-Turn fuel now txs e cs cs' (not_handled same) = dropped same
  handled-Turn fuel now txs e cs cs' (new_slot k h) =
      began k (enter_new_slot-BeginsSlot now cs cs' h)
  handled-Turn fuel now txs e cs cs' (apply k s h) =
      applied k s (enter_apply-Applies fuel now cs cs' h)
  handled-Turn fuel now txs e cs cs' (propose k s h) =
      proposed k s (enter_propose-Proposes now txs cs cs' h)

  -- An event that the machine handles without a panic is dropped, begins the clock's slot, or is of the
  -- current slot and moves the machine from slot to apply, where the new slot has no proposal yet, or
  -- from apply to wait.
  pub handle_event-Turn :
      (fuel : ℕ) (now : ℤ) (txs : List Tx) (e : RoundEvent) (cs cs' : Cs)
      → handle_event env fuel now txs e cs ≡ ok cs'
      → Turn e cs cs'
  handle_event-Turn fuel now txs e cs cs' h =
      handled-Turn fuel now txs e cs cs' (handle_event-Handled fuel now txs e cs cs' h)

  -- An event of the current slot in the wrong step stops the node: apply outside the step slot, and
  -- propose outside the step apply.
  pub handle_event_wrong_step :
      (fuel : ℕ) (now : ℤ) (txs : List Tx) (e : RoundEvent) (cs : Cs)
      → equal cs.cur_slot e.slot ≡ true
      → ((e.event_type ≡ round_event_apply) × (cs.step ≢ round_step_slot))
        ⊎ ((e.event_type ≡ round_event_propose) × (cs.step ≢ round_step_apply))
      → handle_event env fuel now txs e cs ≡ panic
  unfolding handle_event enter_apply enter_propose
  handle_event_wrong_step fuel now txs e cs same (inl w) = ground arith
  handle_event_wrong_step fuel now txs e cs same (inr w) = ground arith
