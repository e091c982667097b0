-- ===== src/Consensus/Machine/Links/Making.antt =====
-- enterPropose of consensus/state.go, on a tree whose blocks are linked by their hashes.
use obrs.Prelude.{
  ℕ, ◌≡◌, refl, sym, ap, subst, Bool, true, false, List, Option-cases, inl, inr, if◌then◌else◌,
}
use obrs.Prelude.Int.{ℤ}
use obrs.Prelude.Outcome.{Outcome, ok, panic, deref, ◌>>=◌, >>=-eq-ok, ok-inj}
use obrs.Prelude.Bytes.{bytes_of}
use obrs.Types.Tx.{Tx}
use obrs.Types.Block.{Block}
use obrs.Types.BlockTree.{get_latest_block, get_block_by_filter}
use obrs.Types.Memory.{Memory, alloc_block}
use obrs.Types.Validators.{get_by_index}
use obrs.State.{World, new_branch, hash_shared}
use obrs.State.Links.{alloc_block-Mild, alloc_block-Settles}
use obrs.State.Executor.{create_proposal}
use obrs.State.Executor.Links.{root_of, Steady, Steady-trans, hash_shared-Steady, set_block-Steady}
use obrs.Consensus.Machine.{Env, ConsensusState, is_proposer, update_step, round_step_wait}
use obrs.Consensus.Machine.Proposing.{drafted, send_proposal, default_proposal}
use obrs.Consensus.Machine.Handlers.{enter_propose, propose_if}
use obrs.Consensus.Machine.Links.Fits.{Fits, IsFit, moved, is_proposer-KeepsParts}
use obrs.Consensus.Machine.Links.Applying.{settled}

pub alloc_block-Steady :
    (w : World) (x : Block) → Steady w (record w { memory = alloc_block x w.memory })
alloc_block-Steady w x =
    (refl, alloc_block-Mild (root_of w) w.memory x, alloc_block-Settles w.memory x)

module _ (env : Env) (root : ℕ) where
  abbrev Cs : Type 0
  Cs = ConsensusState env

  abbrev pub IsSettledState : Cs → Type 0
  IsSettledState cs = IsFit env root settled cs

  -- A call that gives states which fit, from a state that fits.
  abbrev pub KeepsFit : Cs → Outcome Cs → Type 0
  KeepsFit cs o = (c : Cs) → o ≡ ok c → IsSettledState cs → IsSettledState c

  pub stays_ok : (cs c : Cs) → (IsSettledState cs → IsSettledState c) → KeepsFit cs (ok c)
  stays_ok cs c k a h f = subst IsSettledState (ok-inj h) (k f)

  pub stays_panic : (cs : Cs) → KeepsFit cs panic
  stays_panic cs c h f = cc

  pub stays_if :
      (cs : Cs) (b : Bool) {x y : Outcome Cs}
      → KeepsFit cs x
      → KeepsFit cs y
      → KeepsFit cs (if b then x else y)
  stays_if cs true k l = k
  stays_if cs false k l = l

  create_proposal-Steady :
      (now : ℤ) (txs : List Tx) (cs : Cs) (p : ℕ) (w : World)
      → create_proposal env.ext now cs.state cs.world cs.cur_slot txs ≡ ok (p, w)
      → Steady cs.world w
  unfolding create_proposal new_branch
  create_proposal-Steady now txs cs p w h =
      let ((b, bs, m), e, y) = >>=-eq-ok (new_branch env.ext cs.world) _ h in
      let (val, _, z) = >>=-eq-ok (deref cs.state.validator) _ y in
      let (latest, _, x) = >>=-eq-ok (get_latest_block cs.world.memory cs.world.block_tree) _ e in
      let (path, _, same) = >>=-eq-ok (get_block_by_filter _ cs.world.block_tree _ _) _ x in
      let hashed : hash_shared env.ext latest cs.world.memory ≡ m =
        ap (λ (r : ℕ × List ℕ × Memory). r.2) (ok-inj same) in
      let v : World = record cs.world { memory = m } in
      subst (Steady cs.world) (ap (λ (r : ℕ × World). r.1) (ok-inj z)) (
        Steady-trans cs.world v (record v { memory = alloc_block _ m })
          (subst (λ k. Steady cs.world (record cs.world { memory = k })) hashed
            (hash_shared-Steady env.ext latest cs.world))
          (alloc_block-Steady v _))

  send_proposal-Fits :
      (p : ℕ) (cs : Cs) → IsSettledState cs → IsSettledState (send_proposal env p cs)
  unfolding send_proposal
  send_proposal-Fits p cs f =
      elim (Option-cases (env.sign (bytes_of (cs.world.memory.block_at p).block_hash))) [
        | inl missing ↦ rw (missing, send_proposal) f
        | inr (x, e) ↦
            rw (e, send_proposal)
              (moved env root settled cs _ f
                (set_block-Steady cs.world p _ (λ h. (refl, refl)) (λ y. y) (λ s. s)))
      ]

  default_proposal-KeepsFit :
      (now : ℤ) (txs : List Tx) (cs : Cs) → KeepsFit cs (default_proposal env now txs cs)
  unfolding default_proposal
  default_proposal-KeepsFit now txs cs c h f =
      let ((p, w), e, x) =
        >>=-eq-ok (create_proposal env.ext now cs.state cs.world cs.cur_slot txs) _ h in
      let g = moved env root settled cs w f (create_proposal-Steady now txs cs p w e) in
      subst IsSettledState (ok-inj x) (
        send_proposal-Fits p (drafted env p w cs) (
          moved env root settled (record cs { world = w }) _ g
            (set_block-Steady w p _ (λ y. (refl, refl)) (λ y. y) (λ s. s))))

  pub enter_propose-KeepsFit :
      (now : ℤ) (txs : List Tx) (cs : Cs) → KeepsFit cs (enter_propose env now txs cs)
  unfolding enter_propose
  enter_propose-KeepsFit now txs cs = stays_if cs _ (stays_panic cs) proposes
    where
      proposes_if : (r : Cs × Bool) → KeepsFit r.0 (propose_if env now txs r)
      proposes_if (k, true) = unfold propose_if in default_proposal-KeepsFit now txs k
      proposes_if (k, false) = unfold propose_if in stays_ok k k (λ f. f)

      proposes : KeepsFit cs (
          (is_proposer env cs (get_by_index cs.validators cs.val_index) >>= propose_if env now txs)
          >>= λ cs'. ok (update_step env round_step_wait cs'))
      proposes c h f =
          let (mid, e, x) = >>=-eq-ok (is_proposer env cs _ >>= propose_if env now txs) _ h in
          let (r, e', y) = >>=-eq-ok (is_proposer env cs _) (propose_if env now txs) e in
          let same = sym (is_proposer-KeepsParts env cs _ r e') in
          subst IsSettledState (ok-inj x)
            (proposes_if r mid y (subst (λ v. Fits root settled v.0 v.1 v.2) same f))
