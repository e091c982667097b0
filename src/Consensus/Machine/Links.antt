-- ===== src/Consensus/Machine/Links.antt =====
-- What taking in a proposal and its evidences in consensus/state.go leaves of the hashes that link the
-- blocks of the tree.
pub mod Fits
pub mod Proposals
pub mod Applying
pub mod Making
pub mod Along
use obrs.Prelude.{
  ℕ, zero, suc, ◌+◌, ◌<◌, ◌≡◌, ◌≢◌, refl, sym, ap, subst, ◌∙◌, Bool, true, false, Option, none,
  some, List, [], ◌∷◌, ◌++◌, reverse, arith, Bool-cases, Option-cases, inl, inr,
}
use obrs.Prelude.Int.{ℤ, eqb_ℤ}
use obrs.Prelude.Outcome.{Error, Outcome, ok, err, panic, deref, ◌>>=◌, >>=-eq-ok, ok-inj}
use obrs.Types.Ltime.{LTime, greater}
use obrs.Types.External.{External}
use obrs.Types.Vote.{Vote, Quorum, zero_quorum}
use obrs.Types.Block.{Block}
use obrs.Types.Memory.{Memory, set_quorum, alloc_quorum}
use obrs.Types.BlockSet.{BlockSet}
use obrs.Types.Validators.{Validator}
use obrs.State.{World, hash_shared, is_match}
use obrs.State.Links.{IsHashed, still_hashed}
use obrs.State.Executor.{update_state, ensure_commit}
use obrs.State.Executor.Links.{
  root_of, IsSound, Steady, Steady-Evolves, Steady-refl, Steady-trans, hash_block-IsHashed,
  hash_shared-Steady, same_blocks-Steady, ensure_commit-Steady, update_state-Steady,
}
use obrs.Consensus.Machine.{Env, ConsensusState, is_proposer, with_proposer, decide_proposer}
use obrs.Consensus.Machine.Evidence.{
  set_evidence, evidence_block, mark_evidences, update_evidence, update_evidences,
}
use obrs.Consensus.Machine.Proposing.{
  with_memory, SetResult, send_vote, sign_vote, refuse_slot, try_add_future_proposal, vote_on,
  accept_updated, accept, check_signature, check_txs, check_leader, all_valid, default_set_proposal,
  triggle_future_proposal,
}

abbrev with_blocks : Memory → World → World
with_blocks m w = record w { memory = m }

set_evidence-Steady :
    (b q witness : ℕ) (w : World) → Steady w (with_blocks (set_evidence b q witness w.memory) w)
unfolding set_evidence
set_evidence-Steady b q witness w = elim (Option-cases (w.memory.block_at b).commit) [
  | inl missing ↦ rw (missing, set_evidence) (Steady-refl w)
  | inr (c, e) ↦ rw (e, set_evidence) (same_blocks-Steady w _ refl refl)
]

mark_evidences-Steady :
    (ext : External) (bs : BlockSet) (q witness : ℕ) (es : List Quorum) (w : World)
    → Steady w (with_blocks (mark_evidences ext bs q witness es w.memory).1 w)
unfolding mark_evidences
mark_evidences-Steady ext bs q witness [] w = Steady-refl w
mark_evidences-Steady ext bs q witness (e ∷ es) w =
    let v = with_blocks (set_quorum q e w.memory) w in
    let first = same_blocks-Steady w v.memory refl refl in
    elim (Option-cases (evidence_block v.memory bs e)) [
      | inl missing ↦
          rw (missing, mark_evidences)
            (Steady-trans w v (with_blocks (mark_evidences ext bs q witness es v.memory).1 v) first
              (mark_evidences-Steady ext bs q witness es v))
      | inr (b, found) ↦
          rw (found, mark_evidences)
            (let v1 = with_blocks (ensure_commit b v.memory) v in
              let v2 = with_blocks (set_evidence b q witness v1.memory) v1 in
              let v3 = with_blocks (hash_shared ext b v2.memory) v2 in
              let v4 = with_blocks (hash_shared ext witness v3.memory) v3 in
              let v5 = with_blocks (mark_evidences ext bs q witness es v4.memory).1 v4 in
              Steady-trans w v v5 first (
                Steady-trans v v1 v5 (ensure_commit-Steady b v) (
                  Steady-trans v1 v2 v5 (set_evidence-Steady b q witness v1) (
                    Steady-trans v2 v3 v5 (hash_shared-Steady ext b v2) (
                      Steady-trans v3 v4 v5 (hash_shared-Steady ext witness v3)
                        (mark_evidences-Steady ext bs q witness es v4))))))
    ]

update_evidence-Steady :
    (ext : External) (w : World) (witness : ℕ) → Steady w (update_evidence ext w witness).1
unfolding update_evidence
update_evidence-Steady ext w witness =
    let v = with_blocks (alloc_quorum zero_quorum w.memory) w in
    Steady-trans w v _ (same_blocks-Steady w v.memory refl refl) (
      mark_evidences-Steady ext w.uncommit_blocks w.memory.next_quorum witness
        (w.memory.block_at witness).evidences v)

pub update_evidences-Steady :
    (fuel : ℕ) (ext : External) (stack : List ℕ) (w w' : World)
    → update_evidences fuel ext stack w ≡ ok w'
    → Steady w w'
unfolding update_evidences
update_evidences-Steady fuel ext [] w w' h = subst (Steady w) (ok-inj h) (Steady-refl w)
update_evidences-Steady zero ext (b ∷ stack) w w' h = cc
update_evidences-Steady (suc fuel) ext (b ∷ stack) w w' h =
    let (blocks, mid) = update_evidence ext w b in
    Steady-trans w mid w' (update_evidence-Steady ext w b)
      (update_evidences-Steady fuel ext (reverse blocks ++ stack) mid w' h)
