-- ===== src/Tests/Peers.antt =====
-- The numbers of two peers, what they send and what they are sent.
use obrs.Prelude.{
  ℕ, ◌<◌, ◌≡◌, refl, true, false, none, List, [], ◌∷◌, arith, length, All, holds, if◌then◌else◌,
  ltb, zero, suc,
}
use obrs.Prelude.Int.{pos}
use obrs.Prelude.Bytes.{Bytes, bytes_equal}
use obrs.Prelude.Text.{codes}
use obrs.Prelude.Outcome.{ok}
use obrs.Types.Tx.{Tx}
use obrs.Types.Vote.{Vote}
use obrs.Mempool.{MempoolTx}
use obrs.Mempool.Ids.{MempoolIds, new_mempool_ids, reserve_for_peer, get_for_peer, reclaim}
use obrs.Mempool.Ids.Unique.{
  IsValid, given, new_mempool_ids-IsValid, reserve_for_peer-IsValid, given-IsValid, IsReleased,
  reclaim-IsReleased,
}
use obrs.Mempool.Reactor.{broadcast}
use obrs.Mempool.Reactor.Sending.{take, broadcast_lem}
use obrs.Mempool.Generator.{Source, reap_generated}
use obrs.Mempool.Generator.Made.{SourceLaws, IsMade, reap_generated-IsMade}
use obrs.Consensus.VoteSet.{make_slot_vote_set}
use obrs.Consensus.VoteSet.Refines.{held, take_all, replay, held-take_all}
use obrs.Tests.Samples.{open_ext, vote_of}

abbrev ann : Bytes
ann = codes "ann"

reserve_for_peer-IsValid_example :
    (cur : ℕ) × (holds new_mempool_ids.active_ids cur ≡ false)
    × (reserve_for_peer ann new_mempool_ids
        ≡ ok (given new_mempool_ids new_mempool_ids-IsValid ann cur))
    × IsValid (given new_mempool_ids new_mempool_ids-IsValid ann cur)
reserve_for_peer-IsValid_example =
    reserve_for_peer-IsValid new_mempool_ids new_mempool_ids-IsValid ann one_used
  where
    one_used : length new_mempool_ids.active_ids < 65535
    one_used = unfold new_mempool_ids in omega arith

-- A peer that has come, got the number 1, and leaves.
abbrev with_ann : MempoolIds
with_ann = given new_mempool_ids new_mempool_ids-IsValid ann 1

with_ann-IsValid : IsValid with_ann
unfolding new_mempool_ids
with_ann-IsValid = given-IsValid new_mempool_ids new_mempool_ids-IsValid ann 1 (omega arith) refl

ann_has_one : get_for_peer ann with_ann ≡ 1
unfolding get_for_peer bytes_equal
ann_has_one = refl

reclaim-IsReleased_example : IsReleased with_ann with_ann-IsValid ann (reclaim ann with_ann)
reclaim-IsReleased_example = reclaim-IsReleased with_ann with_ann-IsValid ann

abbrev empty_tx : Tx
empty_tx = record {
  tx_type = [];
  args = [];
  tx_send_timestamp = pos 0;
  signature = [];
  public_key = none;
}

abbrev element_from : ℕ → ℕ → MempoolTx
element_from e sender = record { element = e; slot = pos 0; tx = empty_tx; sender = sender }

broadcast_lem_example :
    broadcast
      (λ _. true)
      1
      (false ∷ true ∷ true ∷ [])
      (element_from 0 2 ∷ element_from 1 1 ∷ element_from 2 3 ∷ [])
    ≡ take 2 (empty_tx ∷ empty_tx ∷ [])
broadcast_lem_example =
    broadcast_lem (λ _. true) 1 (false ∷ true ∷ true ∷ [])
      (element_from 0 2 ∷ element_from 1 1 ∷ element_from 2 3 ∷ []) (λ tx. refl)

abbrev zeros : ℕ → Bytes
zeros zero = []
zeros (suc n) = 0 ∷ zeros n

-- Every draw is 2 where it may be: amalgamations only.
abbrev twos : Source
twos = record {
  intn = λ k n. if ltb 2 n then 2 else 0;
  public_key = λ i. zeros 32;
  sign = λ i msg. msg;
  now = λ i. pos 0;
}

twos_laws : SourceLaws open_ext twos
twos_laws = record { below = λ k n. ground arith; key_size = λ i. refl; verifies = λ i msg. refl }

reap_generated-IsMade_example :
    (length (reap_generated open_ext twos (pos 3)) ≡ 3)
    × All (IsMade open_ext) (reap_generated open_ext twos (pos 3))
reap_generated-IsMade_example = reap_generated-IsMade open_ext twos twos_laws 3

-- Two votes of one voter and one of another: the second one is refused.
abbrev three_votes : List Vote
three_votes = vote_of 1 0 ∷ vote_of 2 0 ∷ vote_of 1 1 ∷ []

held-take_all_example :
    held (take_all three_votes make_slot_vote_set) ≡ replay three_votes (held make_slot_vote_set)
held-take_all_example = held-take_all three_votes make_slot_vote_set (λ slot vs e. cc)
