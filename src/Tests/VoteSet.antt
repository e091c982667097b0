-- ===== src/Tests/VoteSet.antt =====
-- Votes of three validators for one slot.
use obrs.Prelude.{◌≤◌, ◌≡◌, refl, [], ◌∷◌, arith, length}
use obrs.Prelude.Int.{pos, wrap32, ◌+ℤ◌}
use obrs.Prelude.Outcome.{ok}
use obrs.Prelude.Text.{codes}
use obrs.Types.Vote.{support_quorum}
use obrs.Crypto.Threshold.{signature_recovery}
use obrs.Consensus.VoteSet.{VoteSet, try_gen_quorum, quorum_with}
use obrs.Consensus.VoteSet.Majority.{Judged, try_gen_quorum-Judged}
use obrs.Prelude.{ℕ, ◌<◌, get_elem?, List, some}
use obrs.Prelude.Int.{ℤ}
use obrs.Crypto.Threshold.Distinctness.{signature_recovery_ids}
use obrs.Tests.Samples.{vote_of, unit_curve}

abbrev pub three : VoteSet
three = record { block_hash = codes "a"; votes = vote_of 1 0 ∷ vote_of 1 1 ∷ vote_of 1 2 ∷ [] }

pub made : try_gen_quorum unit_curve 3 three ≡ ok (quorum_with three support_quorum (21 ∷ []))
unfolding try_gen_quorum signature_recovery wrap32 ◌+ℤ◌
made = refl

try_gen_quorum-Judged_example :
    Judged unit_curve 3 three (quorum_with three support_quorum (21 ∷ []))
try_gen_quorum-Judged_example =
    try_gen_quorum-Judged unit_curve 3 three (quorum_with three support_quorum (21 ∷ [])) made

abbrev two_ids : List ℤ
two_ids = pos 1 ∷ pos 2 ∷ []

recovered : signature_recovery unit_curve 2 ((1 ∷ []) ∷ (2 ∷ []) ∷ []) two_ids ≡ ok (14 ∷ [])
unfolding signature_recovery
recovered = refl

signature_recovery_ids_example :
    (length two_ids ≡ 2)
    × (2 ≤ 2)
    × ((k n : ℕ) (x : ℤ)
        → k < 2
        → get_elem? two_ids k ≡ some x
        → get_elem? two_ids n ≡ some x
        → n ≡ k)
signature_recovery_ids_example =
    signature_recovery_ids unit_curve 2 ((1 ∷ []) ∷ (2 ∷ []) ∷ []) two_ids (14 ∷ []) (omega arith)
      recovered
