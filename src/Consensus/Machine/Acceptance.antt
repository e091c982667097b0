-- ===== src/Consensus/Machine/Acceptance.antt =====
-- defaultSetProposal in consensus/state.go: which proposals are taken in.
use obrs.Prelude.{
  ℕ, ◌≡◌, ◌≢◌, refl, sym, ap, subst, ◌∙◌, Bool, true, Option, none, some, Bool-cases, arith, inl,
  inr, ◌⊎◌,
}
use obrs.Prelude.Int.{ℤ}
use obrs.Prelude.Bytes.{Bytes, bytes_of, bytes_equal_iff}
use obrs.Prelude.Outcome.{Error, ok, deref, >>=-eq-ok, ok-inj, deref-eq-ok}
use obrs.Types.Ltime.{LTime, equal}
use obrs.Types.Validators.{Validator, get_proposer, get_by_address}
use obrs.Types.Vote.{Vote}
use obrs.State.{World, hash_shared, is_match}
use obrs.State.Executor.{update_state}
use obrs.Consensus.Machine.{
  Env, ConsensusState, is_proposer, with_proposer, decide_proposer, same_key,
}
use obrs.Consensus.Machine.Proposing.{
  with_memory, send_vote, sign_vote, refuse_slot, try_add_future_proposal, vote_on, accept_updated,
  accept, check_signature, check_txs, check_leader, all_valid, default_set_proposal,
}

module _ (env : Env) where
  abbrev Cs : Type 0
  Cs = ConsensusState env

  proposal-send_vote : (vote : Vote) (cs : Cs) → (send_vote env vote cs).proposal ≡ cs.proposal
  unfolding send_vote
  proposal-send_vote vote cs = ground arith

  proposal-sign_vote :
      (now : ℤ) (p : ℕ) (b : Bool) (cs cs' : Cs)
      → sign_vote env now p b cs ≡ ok cs'
      → cs'.proposal ≡ cs.proposal
  unfolding sign_vote
  proposal-sign_vote now p b cs cs' h =
      let (val, _, x) = >>=-eq-ok (deref cs.state.validator) _ h in
      ap (λ (c : Cs). c.proposal) (sym (ok-inj x)) ∙ proposal-send_vote _ _

  proposal-vote_on :
      (now : ℤ) (p : ℕ) (cs cs' : Cs) → vote_on env now p cs ≡ ok cs' → cs'.proposal ≡ cs.proposal
  unfolding vote_on
  proposal-vote_on now p cs cs' h =
      let ((fits, m), _, x) = >>=-eq-ok (is_match env.ext cs.world p) _ h in
      proposal-sign_vote now p fits (with_memory env m cs) cs' x

  accept-proposal :
      (now : ℤ) (p : ℕ) (cs cs' : Cs) → accept env now p cs ≡ ok (cs', none) → cs'.proposal ≡ some p
  unfolding accept accept_updated
  accept-proposal now p cs cs' h = go (update_state now cs.state cs.world p).1 h
    where
      w : World
      w = (update_state now cs.state cs.world p).0

      go :
          (failed : Option Error)
          → accept_updated env now p (record cs { world = w }) failed ≡ ok (cs', none)
          → cs'.proposal ≡ some p
      go none x =
          let (mid, e, y) = >>=-eq-ok (vote_on env now p _) _ x in
          ground (arith, proposal-vote_on now p _ mid e)
      go (some _) x = ground arith

  same_key-eq-true : (key : Bytes) (k : Option Bytes) → same_key env key k ≡ true → k ≡ some key
  same_key-eq-true key none h = ground arith
  same_key-eq-true key (some other) h = ap some (sym ((bytes_equal_iff key other).0 h))

  with_proposer-keeps :
      (cs cs' : Cs) (p : Option Validator)
      → cs.proposer ≡ p
      → with_proposer env cs p ≡ ok cs'
      → cs' ≡ record cs { proposer = cs'.proposer }
  unfolding with_proposer decide_proposer
  with_proposer-keeps cs cs' none e h =
      let (chosen, _, x) = >>=-eq-ok (get_proposer cs.validators cs.cur_slot) _ h in
      let (val, _, y) = >>=-eq-ok (deref chosen) _ x in ground arith
  with_proposer-keeps cs cs' (some v) e h = ground arith

  -- The leader is the node's proposer, or where it has none yet the one of its slot.
  abbrev pub Leads : Cs → Validator → Type 0
  Leads cs leader =
      (cs.proposer ≡ some leader)
      ⊎ ((cs.proposer ≡ none) × (get_proposer cs.validators cs.cur_slot ≡ ok (some leader)))

  -- The validator of the block's address is the leader that the node has decided on: their keys agree.
  pub record IsLeader (cs : Cs) (val : Option Validator) : Type 0 where
    pub claimed : Validator
    pub leader : Validator
    pub key : Bytes
    pub of_set : val ≡ some claimed
    pub decided : Leads cs leader
    pub leader_key : leader.pub_key ≡ some key
    pub claimed_key : claimed.pub_key ≡ some key

  with_proposer-Leads :
      (cs cs' : Cs) (p : Option Validator) (leader : Validator)
      → cs.proposer ≡ p
      → with_proposer env cs p ≡ ok cs'
      → cs'.proposer ≡ some leader
      → Leads cs leader
  unfolding with_proposer decide_proposer
  with_proposer-Leads cs cs' none leader e h l =
      let (chosen, c, x) = >>=-eq-ok (get_proposer cs.validators cs.cur_slot) _ h in
      let (val, held, y) = >>=-eq-ok (deref chosen) _ x in
      let is_val : val ≡ leader = ground arith in
      inr (e, c ∙ ap ok (deref-eq-ok chosen held ∙ ap some is_val))
  with_proposer-Leads cs cs' (some v) leader e h l =
      inl (ap (λ (c : Cs). c.proposer) (ok-inj h) ∙ l)

  is_proposer-IsLeader :
      (cs cs' : Cs) (val : Option Validator)
      → is_proposer env cs val ≡ ok (cs', true)
      → IsLeader cs val × (cs' ≡ record cs { proposer = cs'.proposer })
  unfolding is_proposer
  is_proposer-IsLeader cs cs' none h = ground arith
  is_proposer-IsLeader cs cs' (some val) h =
      let (mid, e, x) = >>=-eq-ok (with_proposer env cs cs.proposer) _ h in
      let (leader, decided, y) = >>=-eq-ok (deref mid.proposer) _ x in
      let (key, has_key, z) = >>=-eq-ok (deref leader.pub_key) _ y in
      let same : mid ≡ cs' = ap (λ (r : Cs × Bool). r.0) (ok-inj z) in
      let leads : same_key env key val.pub_key ≡ true = ap (λ (r : Cs × Bool). r.1) (ok-inj z) in
      (
        record {
          claimed = val;
          leader = leader;
          key = key;
          of_set = refl;
          decided =
              with_proposer-Leads cs mid cs.proposer leader refl e
                (deref-eq-ok mid.proposer decided);
          leader_key = deref-eq-ok leader.pub_key has_key;
          claimed_key = same_key-eq-true key val.pub_key leads;
        },
        subst (λ (c : Cs). c ≡ record cs { proposer = c.proposer }) same
            (with_proposer-keeps cs mid cs.proposer refl e),
      )

  -- A proposal that was taken in: it is of the current slot, by the slot's leader, with valid
  -- transactions and a signature of its hash that verifies under the leader's key; and it is held now.
  pub record IsAccepted (p : ℕ) (cs cs' : Cs) : Type 0 where
    pub slot : equal (cs.world.memory.block_at p).slot cs.cur_slot ≡ true
    pub leader :
        IsLeader cs (get_by_address cs.validators (cs.world.memory.block_at p).validator_addr).1
    pub valid : all_valid env (cs.world.memory.block_at p).txs ≡ ok true
    pub signed :
        env.ext.verify_signature leader.key
          (bytes_of ((hash_shared env.ext p cs.world.memory).block_at p).block_hash)
          ((hash_shared env.ext p cs.world.memory).block_at p).signature
        ≡ true
    pub held : cs'.proposal ≡ some p

  -- The signature is checked under the key of the proposal's validator.
  check_signature-eq-ok :
      (now : ℤ) (p : ℕ) (val : Option Validator) (claimed : Validator) (key : Bytes) (cs cs' : Cs)
      → val ≡ some claimed
      → claimed.pub_key ≡ some key
      → check_signature env now p val cs ≡ ok (cs', none)
      → (env.ext.verify_signature key
            (bytes_of ((hash_shared env.ext p cs.world.memory).block_at p).block_hash)
            ((hash_shared env.ext p cs.world.memory).block_at p).signature
          ≡ true)
        × (cs'.proposal ≡ some p)
  unfolding check_signature
  check_signature-eq-ok now p none claimed key cs cs' e k h = ground arith
  check_signature-eq-ok now p (some v) claimed key cs cs' e k h =
      let (key', has_key, x) = >>=-eq-ok (deref v.pub_key) _ h in
      let same : key' ≡ key = ground arith in
      let m = hash_shared env.ext p cs.world.memory in
      let b = m.block_at p in
      elim (Bool-cases (env.ext.verify_signature key' (bytes_of b.block_hash) b.signature)) [
        | inr bad ↦ ground arith
        | inl good ↦ (
          subst
              (λ (k' : Bytes).
                env.ext.verify_signature k' (bytes_of b.block_hash) b.signature ≡ true)
              same good,
          accept-proposal now p (with_memory env m cs) cs' (ground arith),
        )
      ]

  refused : (slot : LTime) (p : ℕ) (cs cs' : Cs) → refuse_slot env slot p cs ≢ (cs', none)
  unfolding refuse_slot try_add_future_proposal
  refused slot p cs cs' h = ground arith

  check_txs-eq-ok :
      (now : ℤ) (p : ℕ) (val : Option Validator) (cs cs' : Cs)
      → check_txs env now p val cs ≡ ok (cs', none)
      → (all_valid env (cs.world.memory.block_at p).txs ≡ ok true)
        × (check_signature env now p val cs ≡ ok (cs', none))
  unfolding check_txs
  check_txs-eq-ok now p val cs cs' h =
      let (valid, e, x) = >>=-eq-ok (all_valid env (cs.world.memory.block_at p).txs) _ h in
      elim (Bool-cases valid) [ inr bad ↦ ground arith | inl good ↦ (e ∙ ap ok good, ground arith) ]

  check_leader-IsAccepted :
      (now : ℤ) (p : ℕ) (cs cs' : Cs)
      → equal (cs.world.memory.block_at p).slot cs.cur_slot ≡ true
      → check_leader env now p cs ≡ ok (cs', none)
      → IsAccepted p cs cs'
  unfolding check_leader
  check_leader-IsAccepted now p cs cs' same h =
      let val = (get_by_address cs.validators (cs.world.memory.block_at p).validator_addr).1 in
      let ((mid, leads), e, x) = >>=-eq-ok (is_proposer env cs val) _ h in
      elim (Bool-cases leads) [
        | inr bad ↦ ground arith
        | inl good ↦
            let (leader, kept) =
              is_proposer-IsLeader cs mid val (e ∙ ap (λ (l : Bool). ok (mid, l)) good) in
            let worlds : mid.world ≡ cs.world = ap (λ (c : Cs). c.world) kept in
            let (valid, y) = check_txs-eq-ok now p val mid cs' (ground arith) in
            let (signed, held) =
              check_signature-eq-ok now p val leader.claimed leader.key mid cs' leader.of_set
                leader.claimed_key y in
            record {
              slot = same;
              leader = leader;
              valid =
                  subst (λ (w : World). all_valid env (w.memory.block_at p).txs ≡ ok true) worlds
                    valid;
              signed =
                  subst
                    (λ (w : World).
                      env.ext.verify_signature leader.key
                        (bytes_of ((hash_shared env.ext p w.memory).block_at p).block_hash)
                        ((hash_shared env.ext p w.memory).block_at p).signature
                      ≡ true)
                    worlds signed;
              held = held;
            }
      ]

  -- A proposal that is taken in without an error is of the current slot and by the slot's leader, its
  -- transactions are valid, its signature verifies under the leader's key, and it is the node's
  -- proposal then.
  pub default_set_proposal-IsAccepted :
      (now : ℤ) (p : ℕ) (cs cs' : Cs)
      → default_set_proposal env now p cs ≡ ok (cs', none)
      → IsAccepted p cs cs'
  unfolding default_set_proposal
  default_set_proposal-IsAccepted now p cs cs' h =
      elim (Bool-cases (equal (cs.world.memory.block_at p).slot cs.cur_slot)) [
        | inr other ↦
            absurd (refused (cs.world.memory.block_at p).slot p cs cs' (ok-inj (ground arith)))
        | inl same ↦ check_leader-IsAccepted now p cs cs' same (ground arith)
      ]
