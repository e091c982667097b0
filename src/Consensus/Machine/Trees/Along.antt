-- ===== src/Consensus/Machine/Trees/Along.antt =====
-- The block tree along the runs of a node of consensus/state.go, step by step.
use obrs.Prelude.{ℕ, ◌≡◌, refl, sym, ap, subst, ◌∙◌, List, arith, inl, inr}
use obrs.Prelude.Int.{ℤ}
use obrs.Prelude.Outcome.{Outcome, ok, err, panic}
use obrs.Types.Ltime.{LTime}
use obrs.Types.Tx.{Tx}
use obrs.Types.Vote.{Vote}
use obrs.Types.Block.{validate_basic}
use obrs.Types.BlockTree.Shape.{IsTree}
use obrs.Consensus.Machine.{
  Env, ConsensusState, RoundEvent, decide_proposer, emit, reset_clock, slot_time_out,
}
use obrs.Consensus.Machine.Handlers.{
  set_if_valid, handle_proposal, handle_vote, handle_event, handle_time_out, enter_new_slot,
  revise_slot_time,
}
use obrs.Consensus.Machine.Votes.{handle_vote_cases}
use obrs.Consensus.Machine.Frame.{decide_proposer-KeepsWhole}
use obrs.Consensus.Machine.Runs.{
  Step, Run, on_event, on_time_out, on_proposal, on_vote, on_block, on_clock, start, then_step,
}
use obrs.Consensus.Machine.Trees.{
  Trees, stays_same, stays_ok, stays_then, stays_if, stays_panic, set_proposal-Trees,
  enter_apply-Trees, enter_propose-Trees,
}

module _ (env : Env) where
  abbrev Cs : Type 0
  Cs = ConsensusState env

  enter_new_slot-Trees : (now : ℤ) (cs : Cs) → Trees env cs (enter_new_slot env now cs)
  unfolding enter_new_slot
  enter_new_slot-Trees now cs =
      let moved = record cs {
        last_slot = cs.cur_slot;
        cur_slot = cs.clock_slot;
        cur_slot_start_time = now;
      } in
      stays_then env (λ c. c) (λ c. c) cs (decide_proposer env moved) _
        (stays_same env (λ c. c) moved _ (decide_proposer-KeepsWhole env moved))
        (λ mid. stays_ok env (λ c. c) mid _ (revised (emit env (reset_clock slot_time_out) mid)))
    where
      revised : (k : Cs) → (revise_slot_time env now k).world.block_tree ≡ k.world.block_tree
      revised k = unfold revise_slot_time in ground arith

  handle_event-Trees :
      (fuel : ℕ) (now : ℤ) (txs : List Tx) (e : RoundEvent) (cs : Cs)
      → Trees env cs (handle_event env fuel now txs e cs)
  unfolding handle_event
  handle_event-Trees fuel now txs e cs = stays_if env cs _ (stays_ok env (λ c. c) cs cs refl) (
      stays_if env cs _ (enter_new_slot-Trees now cs) (
        stays_if env cs _ (enter_apply-Trees env fuel now cs) (
          stays_if env cs _ (enter_propose-Trees env now txs cs)
            (stays_ok env (λ c. c) cs cs refl))))

  handle_proposal-Trees : (now : ℤ) (p : ℕ) (cs : Cs) → Trees env cs (handle_proposal env now p cs)
  unfolding handle_proposal
  handle_proposal-Trees now p cs = go (validate_basic (cs.world.memory.block_at p))
    where
      go : (o : Outcome (Unit {0})) → Trees env cs (set_if_valid env now p o cs)
      go (ok _) =
          unfold set_if_valid in
          stays_if env cs _ (set_proposal-Trees env now p cs) (stays_ok env (λ c. c) cs cs refl)
      go (err e) = unfold set_if_valid in stays_ok env (λ c. c) cs _ refl
      go panic = unfold set_if_valid in stays_panic env cs

  block_tree-handle_vote :
      (vote : Vote) (cs cs' : Cs)
      → handle_vote env vote cs ≡ ok cs'
      → cs'.world.block_tree ≡ cs.world.block_tree
  block_tree-handle_vote vote cs cs' h = elim (handle_vote_cases env vote cs cs' h) [
    | inl same ↦ ap (λ (k : Cs). k.world.block_tree) same
    | inr (_, (svs, _, same)) ↦ ap (λ (k : Cs). k.world.block_tree) same
  ]

  block_tree-handle_time_out :
      (step : ℕ) (slot : LTime) (cs : Cs)
      → (handle_time_out env step slot cs).world.block_tree ≡ cs.world.block_tree
  unfolding handle_time_out
  block_tree-handle_time_out step slot cs = ground arith

  Step-IsTree :
      (cs cs' : Cs) → Step env cs cs' → IsTree cs.world.block_tree → IsTree cs'.world.block_tree
  Step-IsTree cs cs' (on_event fuel now txs e h) t = handle_event-Trees fuel now txs e cs cs' h t
  Step-IsTree cs cs' (on_proposal now p h) t = handle_proposal-Trees now p cs cs' h t
  Step-IsTree cs cs' (on_vote vote h) t =
      subst IsTree (sym (block_tree-handle_vote vote cs cs' h)) t
  Step-IsTree cs cs' (on_time_out step slot h) t =
      subst IsTree
        (sym (ap (λ (k : Cs). k.world.block_tree) h ∙ block_tree-handle_time_out step slot cs)) t
  Step-IsTree cs cs' (on_block b h) t = subst IsTree (sym (ap (λ (k : Cs). k.world.block_tree) h)) t
  Step-IsTree cs cs' (on_clock slot h) t =
      subst IsTree (sym (ap (λ (k : Cs). k.world.block_tree) h)) t

  -- Whatever events, messages and ticks a node runs through, its block tree stays a tree: every node but
  -- the root hangs under one older node, which lists it once and lists nothing else.
  pub Run-IsTree :
      (cs cs' : Cs) → Run env cs cs' → IsTree cs.world.block_tree → IsTree cs'.world.block_tree
  Run-IsTree cs cs' start t = t
  Run-IsTree cs cs' (then_step {mid = mid} run step) t =
      Step-IsTree mid cs' step (Run-IsTree cs mid run t)
