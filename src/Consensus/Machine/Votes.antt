-- ===== src/Consensus/Machine/Votes.antt =====
-- Votes from peers in consensus/state.go, and the checks that they pass.
use obrs.Prelude.{
  ℕ, ◌+◌, ◌≡◌, refl, sym, ap, subst, ◌∙◌, true, false, Option, none, some, [], ◌∷◌, arith,
  Option-cases, inl, inr, ◌⊎◌, if◌then◌else◌, any,
}
use obrs.Prelude.Int.{ℤ, negsuc, eqb_ℤ}
use obrs.Prelude.Bytes.{Bytes, bytes_equal}
use obrs.Prelude.Outcome.{Outcome, ok, err, panic, deref, ◌>>=◌, wrong_index}
use obrs.Types.Vote.{Vote, vote_sign_bytes}
use obrs.Types.Validators.{Validator, ValidatorSet, by_address_from, get_by_address, has_address}
use obrs.Consensus.VoteSet.{SlotVoteSet, add_slot_vote}
use obrs.Consensus.VoteSet.Admission.{AllFiled, add_slot_vote-AllFiled}
use obrs.Consensus.Machine.{Env, ConsensusState, emit, fire_new_vote}
use obrs.Consensus.Machine.Proposing.{try_add_vote, admit}
use obrs.Consensus.Machine.Handlers.{handle_vote}

by_address_from-missing :
    (i : ℕ) (vals : ValidatorSet) (a : Bytes)
    → any (λ v. bytes_equal v.address a) vals ≡ false
    → by_address_from i vals a ≡ (negsuc 0, none)
unfolding by_address_from
by_address_from-missing i [] a h = refl
by_address_from-missing i (v ∷ vals) a h = ground (arith, by_address_from-missing (i + 1) vals a)

get_by_address-missing :
    (vals : ValidatorSet) (a : Bytes)
    → has_address vals a ≡ false
    → get_by_address vals a ≡ (negsuc 0, none)
unfolding get_by_address has_address
get_by_address-missing vals a h = by_address_from-missing 0 vals a h

module _ (env : Env) where
  -- The vote is by a validator of the set, whose index it names, and its signature verifies under that
  -- validator's key.
  abbrev pub Authentic : ConsensusState env → Vote → Type 0
  Authentic cs vote =
      (val : Validator) × (key : Bytes) × (get_by_address cs.validators vote.validator_address
        ≡ (vote.validator_index, some val))
      × (val.pub_key ≡ some key)
      × (env.ext.verify_signature key (vote_sign_bytes env.ext cs.state.chain_id vote)
            vote.signature
          ≡ true)

  -- An admitted vote, from the admission back to the checks.
  abbrev Admitted : ConsensusState env → ConsensusState env → Vote → Type 0
  Admitted cs cs' vote =
      (add_slot_vote cs.vote_set vote ≡ ok cs'.vote_set)
      × (cs' ≡ record cs { vote_set = cs'.vote_set })

  admit-eq-ok :
      (vote : Vote) (val : Validator) (cs cs' : ConsensusState env)
      → admit env vote val cs ≡ ok cs'
      → ((key : Bytes) × (val.pub_key ≡ some key)
          × (env.ext.verify_signature key
                (vote_sign_bytes env.ext cs.state.chain_id vote)
                vote.signature
              ≡ true))
        × Admitted cs cs' vote
  unfolding admit
  admit-eq-ok vote val cs cs' h = elim (Option-cases val.pub_key) [
    | inl missing ↦ ground arith
    | inr (key, e) ↦ ((key, e, ground arith), (ground arith, ground arith))
  ]

  try_add_vote-eq-ok :
      (vote : Vote) (cs cs' : ConsensusState env)
      → try_add_vote env vote cs ≡ ok cs'
      → Authentic cs vote × Admitted cs cs' vote
  unfolding try_add_vote
  try_add_vote-eq-ok vote cs cs' h = go (get_by_address cs.validators vote.validator_address) refl h
    where
      go :
          (r : ℤ × Option Validator)
          → get_by_address cs.validators vote.validator_address ≡ r
          → (if eqb_ℤ r.0 vote.validator_index
              then (deref r.1 >>= λ val. admit env vote val cs)
              else err wrong_index)
            ≡ ok cs'
          → Authentic cs vote × Admitted cs cs' vote
      go (i, none) e x = ground arith
      go (i, some val) e x =
          let admitted : admit env vote val cs ≡ ok cs' = ground arith in
          let ((key, has_key, verified), a) = admit-eq-ok vote val cs cs' admitted in
          let same : i ≡ vote.validator_index = ground arith in
          ((val, key, e ∙ ap (λ (k : ℤ). (k, some val)) same, has_key, verified), a)

  -- A vote from a peer changes the state only when its voter and signature check out and the vote set
  -- admits it; then it is added to the vote set and fired as an event, and nothing else changes.
  pub handle_vote_cases :
      (vote : Vote) (cs cs' : ConsensusState env)
      → handle_vote env vote cs ≡ ok cs'
      → (cs' ≡ cs)
        ⊎ (Authentic cs vote
            × ((svs : SlotVoteSet) × (add_slot_vote cs.vote_set vote ≡ ok svs)
                × (cs' ≡ emit env (fire_new_vote vote) (record cs { vote_set = svs }))))
  unfolding handle_vote
  handle_vote_cases vote cs cs' h = go (try_add_vote env vote cs) refl
    where
      go :
          (r : Outcome (ConsensusState env))
          → try_add_vote env vote cs ≡ r
          → (cs' ≡ cs)
            ⊎ (Authentic cs vote
                × ((svs : SlotVoteSet) × (add_slot_vote cs.vote_set vote ≡ ok svs)
                    × (cs' ≡ emit env (fire_new_vote vote) (record cs { vote_set = svs }))))
      go (ok mid) e =
          let (authentic, (added, same)) = try_add_vote-eq-ok vote cs mid e in
          let final : cs' ≡ emit env (fire_new_vote vote) mid = ground arith in
          inr (authentic, (mid.vote_set, added, final ∙ ap (emit env (fire_new_vote vote)) same))
      go (err x) e = inl (ground arith)
      go panic e = ground arith

  -- Every vote from a peer keeps one vote for each voter and slot, filed under its slot.
  pub handle_vote-AllFiled :
      (vote : Vote) (cs cs' : ConsensusState env)
      → AllFiled cs.vote_set
      → handle_vote env vote cs ≡ ok cs'
      → AllFiled cs'.vote_set
  handle_vote-AllFiled vote cs cs' filed h = elim (handle_vote_cases vote cs cs' h) [
    | inl same ↦ subst (λ (c : ConsensusState env). AllFiled c.vote_set) (sym same) filed
    | inr (_, (svs, added, final)) ↦
        subst (λ (c : ConsensusState env). AllFiled c.vote_set) (sym final)
          (add_slot_vote-AllFiled cs.vote_set svs vote filed added)
  ]

  -- A vote by an address outside the validator set that names the index -1 stops the node: the check
  -- of the index passes, and the missing validator's key is read.
  pub handle_vote_unknown :
      (vote : Vote) (cs : ConsensusState env)
      → has_address cs.validators vote.validator_address ≡ false
      → vote.validator_index ≡ negsuc 0
      → handle_vote env vote cs ≡ panic
  unfolding handle_vote try_add_vote
  handle_vote_unknown vote cs h i =
      ground (arith, get_by_address-missing cs.validators vote.validator_address h)
