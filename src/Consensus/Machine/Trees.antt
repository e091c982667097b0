-- ===== src/Consensus/Machine/Trees.antt =====
-- The block tree along the runs of a node of consensus/state.go.
pub mod Along
use obrs.Prelude.{
  ℕ, zero, suc, ◌≡◌, refl, sym, ap, subst, ◌∙◌, Bool, true, false, Option, none, some, List, [],
  ◌∷◌, ◌++◌, reverse, arith, inl, inr, if◌then◌else◌,
}
use obrs.Prelude.Int.{ℤ}
use obrs.Prelude.Outcome.{Outcome, ok, err, panic, deref, ◌>>=◌, >>=-eq-ok, ok-inj}
use obrs.Types.Ltime.{LTime}
use obrs.Types.External.{External}
use obrs.Types.Tx.{Tx}
use obrs.Types.Vote.{Vote}
use obrs.Types.Block.{validate_basic}
use obrs.Types.BlockTree.Shape.{IsTree}
use obrs.Types.Validators.{get_by_index}
use obrs.Consensus.VoteSet.{get_votes_by_slot}
use obrs.State.{World, new_branch, copy}
use obrs.State.Executor.{create_proposal, Applied, apply_block}
use obrs.State.Executor.Growth.{apply_block-IsTree}
use obrs.Consensus.Machine.{
  Env, ConsensusState, RoundEvent, is_proposer, has_proposal, decide_proposer, emit, reset_clock,
  slot_time_out,
}
use obrs.Consensus.Machine.Evidence.{update_evidences, update_evidence}
use obrs.Consensus.Machine.Proposing.{
  default_set_proposal, triggle_future_proposal, drafted, send_proposal, default_proposal,
}
use obrs.Consensus.Machine.Handlers.{
  judge, take_applied, apply_proposal, apply_current, finish_apply, enter_apply, propose_if,
  enter_propose, set_if_valid, handle_proposal, handle_vote, handle_event, handle_time_out,
  enter_new_slot, revise_slot_time, opened,
}
use obrs.Consensus.Machine.Votes.{handle_vote_cases}
use obrs.Consensus.Machine.Frame.{
  Whole, whole, KeepsIn, decide_proposer-KeepsWhole, is_proposer-KeepsWhole,
  default_set_proposal-KeepsWhole,
}
use obrs.Consensus.Machine.Runs.{
  Step, Run, on_event, on_time_out, on_proposal, on_vote, on_block, on_clock, start, then_step,
}

block_tree-update_evidences :
    (fuel : ℕ) (ext : External) (stack : List ℕ) (w w' : World)
    → update_evidences fuel ext stack w ≡ ok w'
    → w'.block_tree ≡ w.block_tree
unfolding update_evidences
block_tree-update_evidences fuel ext [] w w' h = ap (λ (v : World). v.block_tree) (sym (ok-inj h))
block_tree-update_evidences zero ext (b ∷ stack) w w' h = cc
block_tree-update_evidences (suc fuel) ext (b ∷ stack) w w' h =
    let (blocks, mid) = update_evidence ext w b in
    block_tree-update_evidences fuel ext (reverse blocks ++ stack) mid w' h
    ∙ unfold update_evidence in refl

module _ (env : Env) where
  abbrev Cs : Type 0
  Cs = ConsensusState env

  -- The states in the results of a call have a tree where the state before has one.
  abbrev pub TreesIn : {A : Type 0} → (A → Cs) → Cs → Outcome A → Type 0
  TreesIn {A = A} state cs o =
      (a : A) → o ≡ ok a → IsTree cs.world.block_tree → IsTree (state a).world.block_tree

  abbrev pub Trees : Cs → Outcome Cs → Type 0
  Trees cs o = TreesIn (λ c. c) cs o

  pub stays_same :
      {A : Type 0} (state : A → Cs) (cs : Cs) (o : Outcome A)
      → KeepsIn env (whole env) state cs o
      → TreesIn state cs o
  stays_same state cs o k a h t = subst IsTree (sym (ap (λ (w : Whole env). w.1) (k a h))) t

  -- A result with the tree of the state before.
  pub stays_ok :
      {A : Type 0} (state : A → Cs) (cs : Cs) (a : A)
      → (state a).world.block_tree ≡ cs.world.block_tree
      → TreesIn state cs (ok a)
  stays_ok state cs a e b h t =
      subst IsTree (sym (ap (λ x. (state x).world.block_tree) (sym (ok-inj h)) ∙ e)) t

  pub stays_then :
      {A B : Type 0} (mid : A → Cs) (state : B → Cs) (cs : Cs) (o : Outcome A) (f : A → Outcome B)
      → TreesIn mid cs o
      → ((a : A) → TreesIn state (mid a) (f a))
      → TreesIn state cs (o >>= f)
  stays_then mid state cs o f k l b h t = let (a, e, x) = >>=-eq-ok o f h in l a b x (k a e t)

  stays_after :
      {A B : Type 0} (state : B → Cs) (cs : Cs) (o : Outcome A) (f : A → Outcome B)
      → ((a : A) → o ≡ ok a → TreesIn state cs (f a))
      → TreesIn state cs (o >>= f)
  stays_after state cs o f l b h t = let (a, e, x) = >>=-eq-ok o f h in l a e b x t

  pub stays_if :
      (cs : Cs) (b : Bool) {x y : Outcome Cs}
      → Trees cs x
      → Trees cs y
      → Trees cs (if b then x else y)
  stays_if cs true k l = k
  stays_if cs false k l = l

  pub stays_panic : (cs : Cs) → Trees cs panic
  stays_panic cs c h t = cc

  pub set_proposal-Trees :
      (now : ℤ) (p : ℕ) (cs : Cs) → Trees cs (default_set_proposal env now p cs >>= λ r. ok r.0)
  set_proposal-Trees now p cs =
      stays_then (λ r. r.0) (λ c. c) cs (default_set_proposal env now p cs) _
        (stays_same (λ r. r.0) cs _ (default_set_proposal-KeepsWhole env now p cs))
        (λ r. stays_ok (λ c. c) r.0 r.0 refl)

  triggle_future_proposal-Trees :
      (now : ℤ) (slot : LTime) (cs : Cs) → Trees cs (triggle_future_proposal env now slot cs)
  unfolding triggle_future_proposal
  triggle_future_proposal-Trees now slot cs = go (cs.future_proposal slot)
    where
      go :
          (o : Option ℕ)
          → Trees cs
              (elim o [ none ↦ ok cs | some p ↦ default_set_proposal env now p cs >>= λ r. ok r.0 ])
      go none = stays_ok (λ c. c) cs cs refl
      go (some p) = set_proposal-Trees now p cs

  block_tree-take_applied :
      (cs : Cs) (a : Applied env.exec_block)
      → (take_applied env cs a).world.block_tree ≡ a.world.block_tree
  unfolding take_applied
  block_tree-take_applied cs a = ground arith

  apply_proposal-Trees :
      (fuel : ℕ) (now : ℤ) (b : ℕ) (cs : Cs) → Trees cs (apply_proposal env fuel now b cs)
  unfolding apply_proposal
  apply_proposal-Trees fuel now b cs c h t =
      let (m, _, x) =
        >>=-eq-ok (judge env now b (get_votes_by_slot cs.vote_set cs.last_slot) cs.world.memory) _
          h in
      let judged = record cs.world { memory = m } in
      let (w, e, y) = >>=-eq-ok (update_evidences fuel env.ext (b ∷ []) judged) _ x in
      let (a, z, same) =
        >>=-eq-ok (apply_block env.exec_block env.ext now (copy cs.state) w cs.db b) _ y in
      let before =
        subst IsTree (sym (block_tree-update_evidences fuel env.ext (b ∷ []) judged w e)) t in
      subst IsTree
        (sym (block_tree-take_applied cs a) ∙ ap (λ (k : Cs). k.world.block_tree) (ok-inj same))
        (apply_block-IsTree env.exec_block env.ext now (copy cs.state) w cs.db b a before z)

  apply_current-Trees : (fuel : ℕ) (now : ℤ) (cs : Cs) → Trees cs (apply_current env fuel now cs)
  unfolding apply_current
  apply_current-Trees fuel now cs =
      stays_then (λ c. c) (λ c. c) cs (triggle_future_proposal env now cs.cur_slot cs) _
        (triggle_future_proposal-Trees now cs.cur_slot cs)
        (λ mid.
          stays_after (λ c. c) mid (deref mid.proposal) _
            (λ b _. apply_proposal-Trees fuel now b mid))

  finish_apply-Trees : (cs : Cs) → Trees cs (finish_apply env cs)
  unfolding finish_apply opened
  finish_apply-Trees cs =
      stays_after (λ c. c) cs (deref cs.proposer) _ (λ leader _. stays_ok (λ c. c) cs _ refl)

  pub enter_apply-Trees : (fuel : ℕ) (now : ℤ) (cs : Cs) → Trees cs (enter_apply env fuel now cs)
  unfolding enter_apply
  enter_apply-Trees fuel now cs = stays_if cs _ (stays_panic cs) (
      stays_if cs (has_proposal env cs)
        (stays_then (λ c. c) (λ c. c) cs (apply_current env fuel now cs) _
          (apply_current-Trees fuel now cs) finish_apply-Trees)
        (finish_apply-Trees cs))

  default_proposal-Trees :
      (now : ℤ) (txs : List Tx) (cs : Cs) → Trees cs (default_proposal env now txs cs)
  unfolding default_proposal create_proposal
  default_proposal-Trees now txs cs c h t =
      let (r, e, x) =
        >>=-eq-ok (create_proposal env.ext now cs.state cs.world cs.cur_slot txs) _ h in
      let ((b, bs, m), _, y) = >>=-eq-ok (new_branch env.ext cs.world) _ e in
      let (val, _, z) = >>=-eq-ok (deref cs.state.validator) _ y in
      subst IsTree
        (sym (
          ap (λ (k : Cs). k.world.block_tree) (sym (ok-inj x))
          ∙ block_tree-send_proposal r.0 (drafted env r.0 r.1 cs)
          ∙ ap (λ (k : ℕ × World). k.1.block_tree) (sym (ok-inj z))))
        t
    where
      block_tree-send_proposal :
          (p : ℕ) (k : Cs) → (send_proposal env p k).world.block_tree ≡ k.world.block_tree
      block_tree-send_proposal p k = unfold send_proposal in ground arith

  pub enter_propose-Trees :
      (now : ℤ) (txs : List Tx) (cs : Cs) → Trees cs (enter_propose env now txs cs)
  unfolding enter_propose
  enter_propose-Trees now txs cs = stays_if cs _ (stays_panic cs) (
      stays_then (λ c. c) (λ c. c) cs
        (is_proposer env cs (get_by_index cs.validators cs.val_index) >>= propose_if env now txs) _
        (stays_then (λ r. r.0) (λ c. c) cs
          (is_proposer env cs (get_by_index cs.validators cs.val_index)) (propose_if env now txs)
          (stays_same (λ r. r.0) cs _ (is_proposer-KeepsWhole env cs _)) proposed)
        (λ mid. stays_ok (λ c. c) mid _ refl))
    where
      proposed : (r : Cs × Bool) → Trees r.0 (propose_if env now txs r)
      proposed (k, true) = unfold propose_if in default_proposal-Trees now txs k
      proposed (k, false) = unfold propose_if in stays_ok (λ c. c) k k refl
