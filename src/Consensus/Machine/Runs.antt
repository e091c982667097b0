-- ===== src/Consensus/Machine/Runs.antt =====
-- Runs of a node of consensus/state.go: any sequence of events, time-outs, messages and clock ticks.
use obrs.Prelude.{ℕ, ◌≡◌, refl, ap, ◌∙◌, List, inl, inr, arith}
use obrs.Prelude.Int.{ℤ}
use obrs.Prelude.Outcome.{ok}
use obrs.Types.Ltime.{LTime}
use obrs.Types.Tx.{Tx}
use obrs.Types.Vote.{Vote}
use obrs.Types.Block.{Block}
use obrs.Types.Memory.{alloc_block}
use obrs.Consensus.VoteSet.{VoteSet}
use obrs.Consensus.Machine.{
  Env, ConsensusState, RoundEvent, round_step_slot, round_step_apply, round_step_wait,
}
use obrs.Consensus.Machine.Proposing.{with_memory}
use obrs.Consensus.Machine.Handlers.{handle_event, handle_time_out, handle_proposal, handle_vote}
use obrs.Consensus.Machine.Votes.{handle_vote_cases}
use obrs.Consensus.Machine.Slots.{
  BeginsSlot, Handled, handle_event-Handled, not_handled, new_slot, apply, propose,
  enter_new_slot-BeginsSlot, enter_apply-Applies, enter_propose-Proposes,
}
use obrs.Consensus.Machine.Steps.{enter_apply-Keeps, enter_propose-Keeps, handle_proposal-Keeps}

module _ (env : Env) where
  abbrev Cs : Type 0
  Cs = ConsensusState env

  -- One thing that happens to a node: a handler runs, a block arrives in memory, or the clock ticks.
  pub data Step (cs cs' : Cs) : Type 0 where
    on_event :
        (fuel : ℕ) (now : ℤ) (txs : List Tx) (e : RoundEvent)
        → handle_event env fuel now txs e cs ≡ ok cs'
        → Step cs cs'
    on_time_out : (step : ℕ) (slot : LTime) → cs' ≡ handle_time_out env step slot cs → Step cs cs'
    on_proposal : (now : ℤ) (p : ℕ) → handle_proposal env now p cs ≡ ok cs' → Step cs cs'
    on_vote : (vote : Vote) → handle_vote env vote cs ≡ ok cs' → Step cs cs'
    on_block : (b : Block) → cs' ≡ with_memory env (alloc_block b cs.world.memory) cs → Step cs cs'
    on_clock : (slot : LTime) → cs' ≡ record cs { clock_slot = slot } → Step cs cs'

  pub data Run (cs : Cs) : Cs → Type 0 where
    start : Run cs cs
    then_step : {mid cs' : Cs} → Run cs mid → Step mid cs' → Run cs cs'

  -- The slots of a node, by one step: they and the machine's step stay, a slot begins, or the machine goes
  -- on within the slot.
  pub record InSlot (before after : ℕ) (cs cs' : Cs) : Type 0 where
    pub from : cs.step ≡ before
    pub to : cs'.step ≡ after
    pub cur_slot : cs'.cur_slot ≡ cs.cur_slot
    pub last_slot : cs'.last_slot ≡ cs.last_slot

  pub data Moves (cs cs' : Cs) : Type 0 where
    stays : InSlot cs.step cs.step cs cs' → Moves cs cs'
    begins : BeginsSlot env cs cs' → Moves cs cs'
    applies : InSlot round_step_slot round_step_apply cs cs' → Moves cs cs'
    proposes : InSlot round_step_apply round_step_wait cs cs' → Moves cs cs'

  abbrev place : Cs → LTime × LTime × ℕ
  place cs = (cs.cur_slot, cs.last_slot, cs.step)

  same_place : (cs cs' : Cs) → place cs' ≡ place cs → Moves cs cs'
  same_place cs cs' e = stays (record {
    from = refl;
    to = ap (λ p. p.2) e;
    cur_slot = ap (λ p. p.0) e;
    last_slot = ap (λ p. p.1) e;
  })

  Handled-Moves :
      (fuel : ℕ) (now : ℤ) (txs : List Tx) (e : RoundEvent) (cs cs' : Cs)
      → Handled env fuel now txs e cs cs'
      → Moves cs cs'
  Handled-Moves fuel now txs e cs cs' (not_handled same) = same_place cs cs' (ap place same)
  Handled-Moves fuel now txs e cs cs' (new_slot k h) =
      begins (enter_new_slot-BeginsSlot env now cs cs' h)
  Handled-Moves fuel now txs e cs cs' (apply k s h) =
      let a = enter_apply-Applies env fuel now cs cs' h in
      let f = enter_apply-Keeps env fuel now cs cs' h in
      applies (record {
        from = a.before;
        to = a.after;
        cur_slot = ap (λ x. x.2) f;
        last_slot = ap (λ x. x.3) f;
      })
  Handled-Moves fuel now txs e cs cs' (propose k s h) =
      let p = enter_propose-Proposes env now txs cs cs' h in
      let f = enter_propose-Keeps env now txs cs cs' h in
      proposes (record {
        from = p.before;
        to = p.after;
        cur_slot = ap (λ x. x.2) f;
        last_slot = ap (λ x. x.3) f;
      })

  place-time_out :
      (step : ℕ) (slot : LTime) (cs : Cs) → place (handle_time_out env step slot cs) ≡ place cs
  unfolding handle_time_out
  place-time_out step slot cs = ground arith

  -- Any step of a node leaves its slots and its place in them, begins the clock's slot, or goes within the
  -- slot from the step slot to apply or from apply to wait.
  pub Step-Moves : (cs cs' : Cs) → Step cs cs' → Moves cs cs'
  Step-Moves cs cs' (on_event fuel now txs e h) =
      Handled-Moves fuel now txs e cs cs' (handle_event-Handled env fuel now txs e cs cs' h)
  Step-Moves cs cs' (on_proposal now p h) =
      same_place cs cs' (ap (λ f. (f.2, f.3, f.4)) (handle_proposal-Keeps env now p cs cs' h))
  Step-Moves cs cs' (on_vote vote h) = elim (handle_vote_cases env vote cs cs' h) [
    | inl same ↦ same_place cs cs' (ap place same)
    | inr (_, (svs, _, final)) ↦ same_place cs cs' (ap place final)
  ]
  Step-Moves cs cs' (on_time_out step slot h) =
      same_place cs cs' (ap place h ∙ place-time_out step slot cs)
  Step-Moves cs cs' (on_block b h) = same_place cs cs' (ap place h)
  Step-Moves cs cs' (on_clock slot h) = same_place cs cs' (ap place h)
