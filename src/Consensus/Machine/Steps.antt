-- ===== src/Consensus/Machine/Steps.antt =====
-- What each handler of consensus/state.go leaves alone.
use obrs.Prelude.{ℕ, ◌≡◌, refl, sym, ap, ◌∙◌, Bool, true, false, Option, none, some, List, arith}
use obrs.Prelude.Int.{ℤ}
use obrs.Prelude.Outcome.{Outcome, ok, err, panic, deref, ◌>>=◌, >>=-eq-ok, ok-inj}
use obrs.Types.Ltime.{LTime}
use obrs.Types.Tx.{Tx}
use obrs.Types.Block.{validate_basic}
use obrs.Types.Validators.{get_by_index}
use obrs.Consensus.VoteSet.{get_votes_by_slot}
use obrs.State.Executor.{create_proposal, Applied, apply_block}
use obrs.Consensus.Machine.{
  Env, ConsensusState, is_proposer, has_proposal, update_step, round_step_apply, round_step_propose,
  round_step_wait,
}
use obrs.Consensus.Machine.Evidence.{update_evidences}
use obrs.Consensus.Machine.Proposing.{
  default_set_proposal, triggle_future_proposal, drafted, send_proposal, default_proposal,
}
use obrs.Consensus.Machine.Handlers.{
  judge, take_applied, apply_proposal, apply_current, finish_apply, enter_apply, propose_if,
  enter_propose, set_if_valid, handle_proposal,
}
use obrs.Consensus.Machine.Frame.{
  frame, Keeps, keeps_ok, keeps_if, keeps_then, keeps_after, default_set_proposal-Keeps,
  is_proposer-Keeps,
}

module _ (env : Env) where
  abbrev Cs : Type 0
  Cs = ConsensusState env

  panic-Keeps : (cs : Cs) → Keeps env (frame env) cs panic
  panic-Keeps cs c h = cc

  triggle_future_proposal-Keeps :
      (now : ℤ) (slot : LTime) (cs : Cs)
      → Keeps env (frame env) cs (triggle_future_proposal env now slot cs)
  unfolding triggle_future_proposal
  triggle_future_proposal-Keeps now slot cs = go (cs.future_proposal slot)
    where
      go :
          (o : Option ℕ)
          → Keeps env
              (frame env)
              cs
              (elim o [ none ↦ ok cs | some p ↦ default_set_proposal env now p cs >>= λ r. ok r.0 ])
      go none = keeps_ok env (frame env) (λ c. c) cs cs refl
      go (some p) =
          keeps_then env (frame env) (λ r. r.0) (λ c. c) cs _ _
            (default_set_proposal-Keeps env now p cs)
            (λ r. keeps_ok env (frame env) (λ c. c) r.0 _ refl)

  frame-take_applied :
      (cs : Cs) (a : Applied env.exec_block) → frame env (take_applied env cs a) ≡ frame env cs
  unfolding take_applied
  frame-take_applied cs a = ground arith

  apply_proposal-Keeps :
      (fuel : ℕ) (now : ℤ) (b : ℕ) (cs : Cs)
      → Keeps env (frame env) cs (apply_proposal env fuel now b cs)
  unfolding apply_proposal
  apply_proposal-Keeps fuel now b cs =
      keeps_after env (frame env) (λ c. c) cs
        (judge env now b (get_votes_by_slot cs.vote_set cs.last_slot) _) _
        (λ m.
          keeps_after env (frame env) (λ c. c) cs (update_evidences fuel env.ext _ _) _
            (λ w.
              keeps_after env (frame env) (λ c. c) cs
                (apply_block env.exec_block env.ext now _ w cs.db b) _
                (λ a. keeps_ok env (frame env) (λ c. c) cs _ (frame-take_applied cs a))))

  apply_current-Keeps :
      (fuel : ℕ) (now : ℤ) (cs : Cs) → Keeps env (frame env) cs (apply_current env fuel now cs)
  unfolding apply_current
  apply_current-Keeps fuel now cs =
      keeps_then env (frame env) (λ c. c) (λ c. c) cs
        (triggle_future_proposal env now cs.cur_slot cs) _
        (triggle_future_proposal-Keeps now cs.cur_slot cs)
        (λ mid.
          keeps_after env (frame env) (λ c. c) mid (deref mid.proposal) _
            (λ b. apply_proposal-Keeps fuel now b mid))

  -- The frame after a step has been set.
  abbrev pub at_step : ℕ → Cs → Cs
  at_step s cs = update_step env s cs

  frame-at_step :
      (s : ℕ) (cs cs' : Cs)
      → frame env cs' ≡ frame env cs
      → frame env (at_step s cs') ≡ frame env (at_step s cs)
  frame-at_step s cs cs' e = ap (λ f. (f.0, f.1, f.2, f.3, s)) e

  finish_apply-Keeps :
      (cs : Cs) → Keeps env (frame env) (at_step round_step_apply cs) (finish_apply env cs)
  unfolding finish_apply
  finish_apply-Keeps cs c h =
      let (leader, _, x) = >>=-eq-ok (deref cs.proposer) _ h in ap (frame env) (sym (ok-inj x))

  pub enter_apply-Keeps :
      (fuel : ℕ) (now : ℤ) (cs : Cs)
      → Keeps env (frame env) (at_step round_step_apply cs) (enter_apply env fuel now cs)
  unfolding enter_apply
  enter_apply-Keeps fuel now cs =
      keeps_if env (frame env) (λ c. c) (at_step round_step_apply cs) _
        (panic-Keeps (at_step round_step_apply cs))
        (keeps_if env (frame env) (λ c. c) (at_step round_step_apply cs) (has_proposal env cs) bound
          (finish_apply-Keeps cs))
    where
      bound :
          Keeps env
            (frame env)
            (at_step round_step_apply cs)
            (apply_current env fuel now cs >>= finish_apply env)
      bound c h =
          let (mid, e, x) = >>=-eq-ok (apply_current env fuel now cs) (finish_apply env) h in
          finish_apply-Keeps mid c x
          ∙ frame-at_step round_step_apply cs mid (apply_current-Keeps fuel now cs mid e)

  frame-send_proposal : (p : ℕ) (cs : Cs) → frame env (send_proposal env p cs) ≡ frame env cs
  unfolding send_proposal
  frame-send_proposal p cs = ground arith

  default_proposal-Keeps :
      (now : ℤ) (txs : List Tx) (cs : Cs)
      → Keeps env (frame env) (at_step round_step_propose cs) (default_proposal env now txs cs)
  unfolding default_proposal
  default_proposal-Keeps now txs cs c h =
      let (r, _, x) =
        >>=-eq-ok (create_proposal env.ext now cs.state cs.world cs.cur_slot txs) _ h in
      ap (frame env) (sym (ok-inj x)) ∙ frame-send_proposal r.0 (drafted env r.0 r.1 cs)

  pub enter_propose-Keeps :
      (now : ℤ) (txs : List Tx) (cs : Cs)
      → Keeps env (frame env) (at_step round_step_wait cs) (enter_propose env now txs cs)
  unfolding enter_propose
  enter_propose-Keeps now txs cs =
      keeps_if env (frame env) (λ c. c) (at_step round_step_wait cs) _
        (panic-Keeps (at_step round_step_wait cs)) bound
    where
      asked : Outcome Cs
      asked =
          is_proposer env cs (get_by_index cs.validators cs.val_index) >>= propose_if env now txs

      proposed :
          (r : Cs × Bool) (c : Cs)
          → propose_if env now txs r ≡ ok c
          → frame env (at_step round_step_wait c) ≡ frame env (at_step round_step_wait r.0)
      proposed (c₀, true) c h =
          ap (λ f. (f.0, f.1, f.2, f.3, round_step_wait)) (default_proposal-Keeps now txs c₀ c h)
      proposed (c₀, false) c h =
          frame-at_step round_step_wait c₀ c (ap (frame env) (sym (ok-inj h)))

      bound :
          Keeps env
            (frame env)
            (at_step round_step_wait cs)
            (asked >>= λ c. ok (update_step env round_step_wait c))
      bound c h =
          let (mid, e, x) = >>=-eq-ok asked _ h in
          let (r, a, y) =
            >>=-eq-ok (is_proposer env cs (get_by_index cs.validators cs.val_index)) _ e in
          ap (frame env) (sym (ok-inj x))
          ∙ proposed r mid y
          ∙ frame-at_step round_step_wait cs r.0 (is_proposer-Keeps env cs _ r a)

  -- A proposal from a peer moves no slot, no step, no vote.
  pub handle_proposal-Keeps :
      (now : ℤ) (p : ℕ) (cs : Cs) → Keeps env (frame env) cs (handle_proposal env now p cs)
  unfolding handle_proposal
  handle_proposal-Keeps now p cs = go (validate_basic (cs.world.memory.block_at p))
    where
      go : (o : Outcome (Unit {0})) → Keeps env (frame env) cs (set_if_valid env now p o cs)
      go (ok _) =
          keeps_if env (frame env) (λ c. c) cs _
            (keeps_then env (frame env) (λ r. r.0) (λ c. c) cs _ _
              (default_set_proposal-Keeps env now p cs)
              (λ r. keeps_ok env (frame env) (λ c. c) r.0 _ refl))
            (keeps_ok env (frame env) (λ c. c) cs cs refl)
      go (err e) = keeps_ok env (frame env) (λ c. c) cs _ refl
      go panic = panic-Keeps cs
