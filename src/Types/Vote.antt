-- ===== src/Types/Vote.antt =====
-- types/vote.go and types/quorum.go. The fields that the source marks "for DEBUG" are left out; a
-- uint8 enumeration is its number, since a message from a peer may hold any.
use obrs.Prelude.{ℕ, Bool, ◌&&◌, [], ◌∷◌, ◌==◌, if◌then◌else◌}
use obrs.Prelude.Int.{ℤ, pos}
use obrs.Prelude.Bytes.{Bytes, bytes_equal}
use obrs.Types.Ltime.{LTime, equal, hash}
use obrs.Types.External.{External}
use obrs.Prelude.Text.{codes}

abbrev pub support_vote : ℕ
support_vote = 1

abbrev pub against_vote : ℕ
against_vote = 2

abbrev pub vote_type_string : ℕ → Bytes
vote_type_string t =
    if t == support_vote
    then codes "SupportVote"
    else if t == against_vote
    then codes "AgainstVote"
    else codes "UnkownVote"

pub record Vote : Type 0 where
  pub slot : LTime
  pub block_hash : Bytes
  pub vote_type : ℕ
  pub timestamp : ℤ
  pub validator_address : Bytes
  pub validator_index : ℤ
  pub signature : Bytes

-- Vote.Equal: the same voter in the same slot.
unfoldable pub same_vote : Vote → Vote → Bool
same_vote v other =
    equal v.slot other.slot && bytes_equal v.validator_address other.validator_address

unfoldable pub vote_sign_bytes : External → Bytes → Vote → Bytes
vote_sign_bytes ext chain_id vote = ext.merkle_root (
    chain_id
    ∷ hash vote.slot
    ∷ vote_type_string vote.vote_type
    ∷ vote.validator_address
    ∷ vote.block_hash
    ∷ [])

abbrev pub empty_quorum : ℕ
empty_quorum = 0

abbrev pub support_quorum : ℕ
support_quorum = 1

abbrev pub against_quorum : ℕ
against_quorum = 2

pub record Quorum : Type 0 where
  pub slot : LTime
  pub block_hash : Bytes
  pub quorum_type : ℕ
  pub signature : Bytes

-- The zero value `Quorum{}`.
abbrev pub zero_quorum : Quorum
zero_quorum = record { slot = pos 0; block_hash = []; quorum_type = empty_quorum; signature = [] }
