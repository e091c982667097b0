-- ===== src/Consensus/VoteSet.antt =====
-- consensus/types/slot_vote_set.go: the votes of each slot, and the quorum that they make.
pub mod Admission
pub mod Majority
pub mod Refines
use obrs.Prelude.{
  ℕ, ◌+◌, Bool, true, false, Option, none, some, List, [], ◌∷◌, ◌++◌, map, leb, ◌==◌, if◌then◌else◌,
  length, keep, any,
}
use obrs.Prelude.Int.{ℤ, pos, ◌+ℤ◌, eqb_ℤ, wrap32}
use obrs.Prelude.Bytes.{Bytes}
use obrs.Prelude.Outcome.{Outcome, ok, err, panic, duplicate_vote}
use obrs.Types.Ltime.{LTime, ltime_zero}
use obrs.Types.Vote.{
  Vote, same_vote, Quorum, support_vote, against_vote, empty_quorum, support_quorum, against_quorum,
}
use obrs.Crypto.Threshold.{Curve, signature_recovery}

pub record VoteSet : Type 0 where
  pub block_hash : Bytes
  pub votes : List Vote

abbrev pub new_vote_set : Bytes → VoteSet
new_vote_set hash = record { block_hash = hash; votes = [] }

-- voteSet.AddVote
unfoldable pub add_vote : VoteSet → Vote → Outcome VoteSet
add_vote vs vote =
    if any (λ v. same_vote v vote) vs.votes
    then err duplicate_vote
    else ok (record vs { votes = vs.votes ++ vote ∷ [] })

-- The map from slots to their sets.
abbrev pub SlotVoteSet : Type 0
SlotVoteSet = LTime → Option VoteSet

abbrev pub make_slot_vote_set : SlotVoteSet
make_slot_vote_set slot = none

abbrev pub put_slot : SlotVoteSet → LTime → VoteSet → SlotVoteSet
put_slot svs slot vs s = if eqb_ℤ s slot then some vs else svs s

-- The set of a slot, made from the vote's block hash where there is none.
abbrev pub set_for : SlotVoteSet → Vote → VoteSet
set_for svs vote = elim (svs vote.slot) [ none ↦ new_vote_set vote.block_hash | some vs ↦ vs ]

-- SlotVoteSet.AddVote. A new set is stored before the vote is added; its first vote is never refused.
unfoldable pub add_slot_vote : SlotVoteSet → Vote → Outcome SlotVoteSet
unfolding add_vote
add_slot_vote svs vote = elim (add_vote (set_for svs vote) vote) [
  | ok vs ↦ ok (put_slot svs vote.slot vs)
  | err e ↦ err e
  | panic ↦ panic
]

unfoldable pub get_votes_by_slot : SlotVoteSet → LTime → Option VoteSet
get_votes_by_slot svs slot = svs slot

-- SlotVoteSet.Size
unfoldable pub votes_in_slot : SlotVoteSet → LTime → ℕ
votes_in_slot svs slot = elim (svs slot) [ none ↦ 0 | some vs ↦ length vs.votes ]

unfoldable pub support_votes : List Vote → List Vote
support_votes votes = keep (λ v. v.vote_type == support_vote) votes

unfoldable pub against_votes : List Vote → List Vote
against_votes votes = keep (λ v. v.vote_type == against_vote) votes

-- getSignsAndIdsFromVotes: the id is the index plus one, as an int32.
unfoldable pub signs_of : List Vote → List Bytes
signs_of votes = map (λ v. v.signature) votes

unfoldable pub ids_of : List Vote → List ℤ
ids_of votes = map (λ v. wrap32 (v.validator_index +ℤ pos 1)) votes

-- The votes that reach the threshold, and the kind of quorum that they make.
unfoldable pub majority : ℕ → List Vote → Option (List Vote × ℕ)
unfolding support_votes against_votes
majority threshold votes =
    if leb threshold (length (support_votes votes))
    then some (support_votes votes, support_quorum)
    else if leb threshold (length (against_votes votes))
    then some (against_votes votes, against_quorum)
    else none

abbrev pub quorum_with : VoteSet → ℕ → Bytes → Quorum
quorum_with vs kind signature = record {
  slot = ltime_zero;
  block_hash = vs.block_hash;
  quorum_type = kind;
  signature = signature;
}

-- The quorum of a majority: a recovery that fails leaves it empty.
seal : VoteSet → ℕ → Outcome Bytes → Outcome Quorum
seal vs kind (ok signature) = ok (quorum_with vs kind signature)
seal vs kind (err e) = ok (quorum_with vs empty_quorum [])
seal vs kind panic = panic

-- voteSet.TryGenQuorum
unfoldable pub try_gen_quorum : Curve → ℕ → VoteSet → Outcome Quorum
unfolding majority signs_of ids_of seal
try_gen_quorum c threshold vs = elim (majority threshold vs.votes) [
  | none ↦ ok (quorum_with vs empty_quorum [])
  | some (votes, kind) ↦
      seal vs kind (signature_recovery c threshold (signs_of votes) (ids_of votes))
]
