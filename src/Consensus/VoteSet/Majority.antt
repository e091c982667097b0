-- ===== src/Consensus/VoteSet/Majority.antt =====
-- When votes make a quorum, and whose votes stand behind it.
use obrs.Prelude.{
  ℕ, ◌≤◌, ◌<◌, ◌≡◌, ◌≢◌, Bool, true, false, some, List, [], ◌∷◌, arith, All, length, keep, keep-All,
  All-keep, inl, inr, Bool-cases, ◌⊎◌, ◌==◌,
}
use obrs.Prelude.Bytes.{bytes_equal_iff}
use obrs.Prelude.Outcome.{ok}
use obrs.Types.Vote.{
  Vote, Quorum, same_vote, support_vote, empty_quorum, support_quorum, against_quorum,
}
use obrs.Types.Ltime.{LTime}
use obrs.Prelude.Int.{eqb_ℤ_iff}
use obrs.Crypto.Threshold.{Curve, signature_recovery}
use obrs.Consensus.VoteSet.{
  VoteSet, SlotVoteSet, majority, support_votes, against_votes, signs_of, ids_of, seal,
  try_gen_quorum,
}
use obrs.Consensus.VoteSet.Admission.{OneEach, AllFiled}

-- What a quorum that is not empty certifies: enough votes of its kind, whose shares its signature was
-- recovered from.
abbrev pub Backed : Curve → ℕ → VoteSet → List Vote → Quorum → Type 0
Backed c threshold vs votes q =
    (threshold ≤ length votes)
    × (signature_recovery c threshold (signs_of votes) (ids_of votes) ≡ ok q.signature)

-- What the kind of a quorum says about the votes that it was made from.
abbrev pub Judged : Curve → ℕ → VoteSet → Quorum → Type 0
Judged c threshold vs q =
    (q.block_hash ≡ vs.block_hash)
    × (((q.quorum_type ≡ support_quorum) × Backed c threshold vs (support_votes vs.votes) q)
        ⊎ ((q.quorum_type ≡ against_quorum)
            × (length (support_votes vs.votes) < threshold)
            × Backed c threshold vs (against_votes vs.votes) q)
        ⊎ ((q.quorum_type ≡ empty_quorum) × (q.signature ≡ [])))

module _ (c : Curve) (threshold : ℕ) (vs : VoteSet) where
  -- The quorum that a vote set makes is for the set's block; it is a support quorum only on enough
  -- support votes, an against quorum only on enough against votes and too few support votes, and its
  -- signature is recovered from exactly those votes; otherwise it is empty and has no signature.
  pub try_gen_quorum-Judged :
      (q : Quorum) → try_gen_quorum c threshold vs ≡ ok q → Judged c threshold vs q
  unfolding try_gen_quorum majority seal
  try_gen_quorum-Judged q h = ground arith

-- The addresses of a list of votes, none of them twice.
abbrev pub DistinctVoters : List Vote → Type 0
DistinctVoters [] = Unit
DistinctVoters (v ∷ vs) =
    All (λ w. v.validator_address ≢ w.validator_address) vs × DistinctVoters vs

distinct_one :
    (slot : LTime) (v : Vote) (vs : List Vote)
    → v.slot ≡ slot
    → All (λ w. w.slot ≡ slot) vs
    → All (λ w. same_vote v w ≡ false) vs
    → All (λ w. v.validator_address ≢ w.validator_address) vs
unfolding same_vote
distinct_one slot v [] e s h = tt
distinct_one slot v (w ∷ vs) e s h = (differ, distinct_one slot v vs e s.1 h.1)
  where
    differ : v.validator_address ≢ w.validator_address
    differ a = ground (
      arith,
      h.0,
      eqb_ℤ_iff v.slot w.slot,
      bytes_equal_iff v.validator_address w.validator_address,
    )

OneEach-DistinctVoters :
    (slot : LTime) (vs : List Vote) → All (λ w. w.slot ≡ slot) vs → OneEach vs → DistinctVoters vs
OneEach-DistinctVoters slot [] s h = tt
OneEach-DistinctVoters slot (v ∷ vs) s h =
    (distinct_one slot v vs s.0 s.1 h.0, OneEach-DistinctVoters slot vs s.1 h.1)

keep-DistinctVoters :
    (p : Vote → Bool) (vs : List Vote) → DistinctVoters vs → DistinctVoters (keep p vs)
keep-DistinctVoters p [] h = tt
keep-DistinctVoters p (v ∷ vs) h = elim (Bool-cases (p v)) [
  | inl kept ↦ rw kept (
    All-keep (λ w. v.validator_address ≢ w.validator_address) p vs h.0,
    keep-DistinctVoters p vs h.1,
  )
  | inr dropped ↦ rw dropped (keep-DistinctVoters p vs h.1)
]

module _ (c : Curve) (threshold : ℕ) where
  -- A support quorum of a slot rests on at least a threshold of votes, all of that slot, all in
  -- support and no two by one validator, when the vote set was filled by admission only.
  pub support_quorum-DistinctVoters :
      (svs : SlotVoteSet) (slot : LTime) (vs : VoteSet) (q : Quorum)
      → AllFiled svs
      → svs slot ≡ some vs
      → try_gen_quorum c threshold vs ≡ ok q
      → q.quorum_type ≡ support_quorum
      → (threshold ≤ length (support_votes vs.votes))
        × All (λ v. v.slot ≡ slot) (support_votes vs.votes)
        × All (λ v. (v.vote_type == support_vote) ≡ true) (support_votes vs.votes)
        × DistinctVoters (support_votes vs.votes)
  unfolding support_votes
  support_quorum-DistinctVoters svs slot vs q filed at made kind = (
    enough,
    All-keep (λ v. v.slot ≡ slot) _ vs.votes slots,
    keep-All _ vs.votes,
    keep-DistinctVoters _ vs.votes
        (OneEach-DistinctVoters slot vs.votes slots (filed slot vs at).1),
  )
    where
      slots : All (λ v. v.slot ≡ slot) vs.votes
      slots = (filed slot vs at).0

      enough : threshold ≤ length (support_votes vs.votes)
      enough = ground (arith, try_gen_quorum-Judged c threshold vs q made)
