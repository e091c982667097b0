-- ===== src/Consensus/Machine/Frame.antt =====
-- What proposals and the steps of consensus/state.go leave alone: the votes, the validators, the tree
-- and the slots.
use obrs.Prelude.{
  ℕ, ◌≡◌, refl, sym, ap, ◌∙◌, Bool, true, false, Option, none, some, arith, if◌then◌else◌,
}
use obrs.Prelude.Int.{ℤ}
use obrs.Prelude.Outcome.{Error, Outcome, ok, deref, ◌>>=◌, >>=-eq-ok, ok-inj}
use obrs.Types.Ltime.{LTime}
use obrs.Types.Vote.{Vote}
use obrs.Types.BlockTree.{BlockTree}
use obrs.Types.Validators.{Validator, ValidatorSet, get_proposer}
use obrs.Consensus.VoteSet.{SlotVoteSet}
use obrs.State.{is_match}
use obrs.State.Executor.{update_state}
use obrs.State.Executor.Evidences.{block_tree-update_state}
use obrs.Consensus.Machine.{Env, ConsensusState, is_proposer, with_proposer, decide_proposer}
use obrs.Consensus.Machine.Proposing.{
  with_memory, SetResult, send_vote, sign_vote, refuse_slot, try_add_future_proposal, vote_on,
  accept_updated, accept, check_signature, check_txs, check_leader, all_valid, default_set_proposal,
}

module _ (env : Env) where
  abbrev Cs : Type 0
  Cs = ConsensusState env

  -- The votes, the validators, the current slot, the last one, and the step.
  abbrev pub frame : Cs → SlotVoteSet × ValidatorSet × LTime × LTime × ℕ
  frame cs = (cs.vote_set, cs.validators, cs.cur_slot, cs.last_slot, cs.step)

  -- These, and the block tree.
  abbrev pub Whole : Type 0
  Whole = (SlotVoteSet × ValidatorSet × LTime × LTime × ℕ) × BlockTree

  abbrev pub whole : Cs → Whole
  whole cs = (frame cs, cs.world.block_tree)

  module _ {X : Type 0} (view : Cs → X) where
    -- The states in the results of a call have the view of the state before.
    abbrev pub KeepsIn : {A : Type 0} → (A → Cs) → Cs → Outcome A → Type 0
    KeepsIn {A = A} state cs o = (a : A) → o ≡ ok a → view (state a) ≡ view cs

    abbrev pub Keeps : Cs → Outcome Cs → Type 0
    Keeps cs o = KeepsIn (λ c. c) cs o

    abbrev pub KeepsSet : Cs → Outcome (SetResult env) → Type 0
    KeepsSet cs o = KeepsIn (λ r. r.0) cs o

    pub keeps_ok :
        {A : Type 0} (state : A → Cs) (cs : Cs) (a : A)
        → view (state a) ≡ view cs
        → KeepsIn state cs (ok a)
    keeps_ok state cs a e b h = ap (λ x. view (state x)) (sym (ok-inj h)) ∙ e

    pub keeps_if :
        {A : Type 0} (state : A → Cs) (cs : Cs) (b : Bool) {x y : Outcome A}
        → KeepsIn state cs x
        → KeepsIn state cs y
        → KeepsIn state cs (if b then x else y)
    keeps_if state cs true k l = k
    keeps_if state cs false k l = l

    -- A call after another one keeps the view if both do.
    pub keeps_then :
        {A B : Type 0} (mid : A → Cs) (state : B → Cs) (cs : Cs) (o : Outcome A) (f : A → Outcome B)
        → KeepsIn mid cs o
        → ((a : A) → KeepsIn state (mid a) (f a))
        → KeepsIn state cs (o >>= f)
    keeps_then mid state cs o f k l b h = let (a, e, x) = >>=-eq-ok o f h in l a b x ∙ k a e

    -- A call that gives no state, before one that keeps the view.
    pub keeps_after :
        {A B : Type 0} (state : B → Cs) (cs : Cs) (o : Outcome A) (f : A → Outcome B)
        → ((a : A) → KeepsIn state cs (f a))
        → KeepsIn state cs (o >>= f)
    keeps_after state cs o f l b h = let (a, e, x) = >>=-eq-ok o f h in l a b x

  whole-send_vote : (vote : Vote) (cs : Cs) → whole (send_vote env vote cs) ≡ whole cs
  unfolding send_vote
  whole-send_vote vote cs = ground arith

  sign_vote-KeepsWhole :
      (now : ℤ) (p : ℕ) (b : Bool) (cs : Cs) → Keeps whole cs (sign_vote env now p b cs)
  unfolding sign_vote
  sign_vote-KeepsWhole now p b cs =
      keeps_after whole (λ c. c) cs (deref cs.state.validator) _
        (λ val. keeps_ok whole (λ c. c) cs _ (whole-send_vote _ _))

  vote_on-KeepsWhole : (now : ℤ) (p : ℕ) (cs : Cs) → Keeps whole cs (vote_on env now p cs)
  unfolding vote_on
  vote_on-KeepsWhole now p cs =
      keeps_after whole (λ c. c) cs (is_match env.ext cs.world p) _
        (λ fm. sign_vote-KeepsWhole now p fm.0 (with_memory env fm.1 cs))

  accept_updated-KeepsWhole :
      (now : ℤ) (p : ℕ) (cs : Cs) (e : Option Error)
      → KeepsSet whole cs (accept_updated env now p cs e)
  unfolding accept_updated
  accept_updated-KeepsWhole now p cs (some e) = keeps_ok whole (λ r. r.0) cs _ refl
  accept_updated-KeepsWhole now p cs none =
      keeps_then whole (λ c. c) (λ r. r.0) cs (vote_on env now p _) _ (vote_on-KeepsWhole now p _)
        (λ c. keeps_ok whole (λ r. r.0) c _ refl)

  accept-KeepsWhole : (now : ℤ) (p : ℕ) (cs : Cs) → KeepsSet whole cs (accept env now p cs)
  unfolding accept
  accept-KeepsWhole now p cs r h =
      let (w, failed) = update_state now cs.state cs.world p in
      accept_updated-KeepsWhole now p (record cs { world = w }) failed r h
      ∙ ap (λ t. (frame cs, t)) (block_tree-update_state now cs.state cs.world p)

  check_signature-KeepsWhole :
      (now : ℤ) (p : ℕ) (val : Option Validator) (cs : Cs)
      → KeepsSet whole cs (check_signature env now p val cs)
  unfolding check_signature
  check_signature-KeepsWhole now p val cs =
      keeps_after whole (λ r. r.0) cs (deref val) _
        (λ v.
          keeps_after whole (λ r. r.0) cs (deref v.pub_key) _
            (λ key.
              keeps_if whole (λ r. r.0) cs _ (accept-KeepsWhole now p _)
                (keeps_ok whole (λ r. r.0) cs _ refl)))

  check_txs-KeepsWhole :
      (now : ℤ) (p : ℕ) (val : Option Validator) (cs : Cs)
      → KeepsSet whole cs (check_txs env now p val cs)
  unfolding check_txs
  check_txs-KeepsWhole now p val cs =
      keeps_after whole (λ r. r.0) cs (all_valid env (cs.world.memory.block_at p).txs) _
        (λ valid.
          keeps_if whole (λ r. r.0) cs valid (check_signature-KeepsWhole now p val cs)
            (keeps_ok whole (λ r. r.0) cs _ refl))

  pub decide_proposer-KeepsWhole : (cs : Cs) → Keeps whole cs (decide_proposer env cs)
  unfolding decide_proposer
  decide_proposer-KeepsWhole cs =
      keeps_after whole (λ c. c) cs (get_proposer cs.validators cs.cur_slot) _
        (λ chosen.
          keeps_after whole (λ c. c) cs (deref chosen) _ (λ val. keeps_ok whole (λ c. c) cs _ refl))

  with_proposer-KeepsWhole :
      (cs : Cs) (p : Option Validator) → Keeps whole cs (with_proposer env cs p)
  unfolding with_proposer
  with_proposer-KeepsWhole cs none = decide_proposer-KeepsWhole cs
  with_proposer-KeepsWhole cs (some v) = keeps_ok whole (λ c. c) cs cs refl

  pub is_proposer-KeepsWhole :
      (cs : Cs) (val : Option Validator) → KeepsIn whole (λ r. r.0) cs (is_proposer env cs val)
  unfolding is_proposer
  is_proposer-KeepsWhole cs none = keeps_ok whole (λ r. r.0) cs _ refl
  is_proposer-KeepsWhole cs (some val) =
      keeps_then whole (λ c. c) (λ r. r.0) cs (with_proposer env cs cs.proposer) _
        (with_proposer-KeepsWhole cs cs.proposer)
        (λ mid.
          keeps_after whole (λ r. r.0) mid (deref mid.proposer) _
            (λ leader.
              keeps_after whole (λ r. r.0) mid (deref leader.pub_key) _
                (λ key. keeps_ok whole (λ r. r.0) mid _ refl)))

  check_leader-KeepsWhole :
      (now : ℤ) (p : ℕ) (cs : Cs) → KeepsSet whole cs (check_leader env now p cs)
  unfolding check_leader
  check_leader-KeepsWhole now p cs =
      keeps_then whole (λ r. r.0) (λ r. r.0) cs (is_proposer env cs _) _
        (is_proposer-KeepsWhole cs _)
        (λ r.
          keeps_if whole (λ x. x.0) r.0 r.1 (check_txs-KeepsWhole now p _ r.0)
            (keeps_ok whole (λ x. x.0) r.0 _ refl))

  whole-refuse_slot :
      (slot : LTime) (p : ℕ) (cs : Cs) → whole (refuse_slot env slot p cs).0 ≡ whole cs
  unfolding refuse_slot try_add_future_proposal
  whole-refuse_slot slot p cs = ground arith

  pub default_set_proposal-KeepsWhole :
      (now : ℤ) (p : ℕ) (cs : Cs) → KeepsSet whole cs (default_set_proposal env now p cs)
  unfolding default_set_proposal
  default_set_proposal-KeepsWhole now p cs =
      keeps_if whole (λ r. r.0) cs _ (check_leader-KeepsWhole now p cs)
        (keeps_ok whole (λ r. r.0) cs _ (whole-refuse_slot _ p cs))

  -- What keeps the whole keeps the frame.
  keeps_frame :
      {A : Type 0} (state : A → Cs) (cs : Cs) (o : Outcome A)
      → KeepsIn whole state cs o
      → KeepsIn frame state cs o
  keeps_frame state cs o k a h = ap (λ (w : Whole). w.0) (k a h)

  pub decide_proposer-Keeps : (cs : Cs) → Keeps frame cs (decide_proposer env cs)
  decide_proposer-Keeps cs = keeps_frame (λ c. c) cs _ (decide_proposer-KeepsWhole cs)

  pub is_proposer-Keeps :
      (cs : Cs) (val : Option Validator) → KeepsIn frame (λ r. r.0) cs (is_proposer env cs val)
  is_proposer-Keeps cs val = keeps_frame (λ r. r.0) cs _ (is_proposer-KeepsWhole cs val)

  pub default_set_proposal-Keeps :
      (now : ℤ) (p : ℕ) (cs : Cs) → KeepsSet frame cs (default_set_proposal env now p cs)
  default_set_proposal-Keeps now p cs =
      keeps_frame (λ r. r.0) cs _ (default_set_proposal-KeepsWhole now p cs)
