-- ===== src/Mempool/Ids/Unique.antt =====
-- The numbers of the peers in mempool/reactor.go are different, and are given as long as there are any.
use obrs.Prelude.{
  ℕ, ◌+◌, ◌%◌, ◌≤◌, ◌<◌, ◌≡◌, ◌≢◌, refl, sym, ap, subst, true, false, not, none, some, ◌∷◌, length,
  holds, ◌==◌, arith, Bool-cases, Option-cases, inl, inr, ◌⊎◌, ◌∙◌, length-keep-le,
}
use obrs.Prelude.Bytes.{Bytes, bytes_equal, bytes_equal_iff, bytes_equal_refl}
use obrs.Prelude.Outcome.{ok, panic}
use obrs.Mempool.{put}
use obrs.Mempool.Ids.{
  MempoolIds, new_mempool_ids, free_from, next_peer_id, delete_key, reserve_for_peer, reclaim,
  get_for_peer, max_active_ids, id_values,
}
use obrs.Mempool.Ids.Search.{
  free_from-total, free_from-some, holds-delete_key, holds-delete_key_same, holds-delete_key_other,
}

-- A peer's number is in use and is not 0, no two peers have the same one, 0 stays in use, and there are
-- never more in use than the limit.
pub record IsValid (ids : MempoolIds) : Type 0 where
  pub used : (p : Bytes) (i : ℕ) → ids.peer_map p ≡ some i → holds ids.active_ids i ≡ true
  pub nonzero : (p : Bytes) (i : ℕ) → ids.peer_map p ≡ some i → i ≢ 0
  pub unique : (p q : Bytes) (i : ℕ) → ids.peer_map p ≡ some i → ids.peer_map q ≡ some i → p ≡ q
  pub zero_used : holds ids.active_ids 0 ≡ true
  pub next_small : ids.next_id < id_values
  pub bounded : length ids.active_ids ≤ max_active_ids

pub new_mempool_ids-IsValid : IsValid new_mempool_ids
unfolding new_mempool_ids
new_mempool_ids-IsValid = record {
  used = λ p i h. cc;
  nonzero = λ p i h. cc;
  unique = λ p q i h. cc;
  zero_used = refl;
  next_small = omega arith;
  bounded = omega arith;
}

module _ (ids : MempoolIds) (v : IsValid ids) (peer : Bytes) where
  reserve_for_peer-found :
      (cur : ℕ)
      → length ids.active_ids < max_active_ids
      → free_from id_values id_values ids.active_ids ids.next_id ≡ some cur
      → holds ids.active_ids cur ≡ false
      → reserve_for_peer peer ids
        ≡ ok (record {
          peer_map = put ids.peer_map peer (some cur);
          next_id = (cur + 1) % id_values;
          active_ids = cur ∷ ids.active_ids;
        })
  unfolding reserve_for_peer next_peer_id
  reserve_for_peer-found cur few found free = ground arith

  -- The ids after a peer has got a number.
  abbrev pub given : ℕ → MempoolIds
  given cur = record {
    peer_map = put ids.peer_map peer (some cur);
    next_id = (cur + 1) % id_values;
    active_ids = cur ∷ ids.active_ids;
  }

  put-some :
      (p : Bytes) (cur i : ℕ)
      → put ids.peer_map peer (some cur) p ≡ some i
      → ((p ≡ peer) × (i ≡ cur)) ⊎ (ids.peer_map p ≡ some i)
  put-some p cur i h = elim (Bool-cases (bytes_equal p peer)) [
    | inl same ↦ inl ((bytes_equal_iff p peer).0 same, ground arith)
    | inr other ↦ inr (ground arith)
  ]

  pub given-IsValid :
      (cur : ℕ)
      → length ids.active_ids < max_active_ids
      → holds ids.active_ids cur ≡ false
      → IsValid (given cur)
  given-IsValid cur few free = record {
    used = λ p i h. elim (put-some p cur i h) [
      | inl (_, e) ↦ ground arith
      | inr old ↦ ground (arith, v.used p i old)
    ];
    nonzero = λ p i h. elim (put-some p cur i h) [
      | inl (_, e) ↦ λ z. ground (arith, v.zero_used)
      | inr old ↦ v.nonzero p i old
    ];
    unique = λ p q i h k. elim (put-some p cur i h) [
      | inl (here, e) ↦ elim (put-some q cur i k) [
        | inl (there, _) ↦ here ∙ sym there
        | inr old ↦ ground (arith, v.used q i old)
      ]
      | inr old ↦ elim (put-some q cur i k) [
        | inl (there, e) ↦ ground (arith, v.used p i old)
        | inr old' ↦ v.unique p q i old old'
      ]
    ];
    zero_used = ground (arith, v.zero_used);
    next_small = omega arith;
    bounded = omega (arith, few);
  }

  -- Where no two peers have one number, and below the limit, a peer gets a number, without a panic: one
  -- that was free, and no peer has the number of another then.
  pub reserve_for_peer-IsValid :
      length ids.active_ids < max_active_ids
      → (cur : ℕ) × (holds ids.active_ids cur ≡ false)
        × (reserve_for_peer peer ids ≡ ok (given cur))
        × IsValid (given cur)
  reserve_for_peer-IsValid few =
      let (cur, found) =
        free_from-total id_values ids.active_ids ids.next_id v.next_small (omega (arith, few)) in
      let (free, _) =
        free_from-some id_values id_values ids.active_ids ids.next_id (omega arith) v.next_small
          found in
      (cur, free, reserve_for_peer-found cur few found free, given-IsValid cur few free)

  -- At the limit there is a panic.
  pub reserve_for_peer_full :
      length ids.active_ids ≡ max_active_ids → reserve_for_peer peer ids ≡ panic
  unfolding reserve_for_peer next_peer_id
  reserve_for_peer_full full = ground arith

  removed-IsValid :
      (removed : ℕ)
      → ids.peer_map peer ≡ some removed
      → IsValid (record ids {
        peer_map = put ids.peer_map peer none;
        active_ids = delete_key removed ids.active_ids;
      })
  removed-IsValid removed at = record {
    used = λ p i h. holds-delete_key removed i ids.active_ids (v.used p i (kept p i h)) (λ same.
        ground (
          arith,
          v.unique p peer i (kept p i h) (at ∙ ap some (sym same)),
          bytes_equal_iff p peer,
        ));
    nonzero = λ p i h. v.nonzero p i (kept p i h);
    unique = λ p q i h k. v.unique p q i (kept p i h) (kept q i k);
    zero_used =
        holds-delete_key removed 0 ids.active_ids v.zero_used
          (λ e. v.nonzero peer removed at (sym e));
    next_small = v.next_small;
    bounded = omega (arith, v.bounded, length-keep-le (λ j. not (j == removed)) ids.active_ids);
  }
    where
      kept : (p : Bytes) (i : ℕ) → put ids.peer_map peer none p ≡ some i → ids.peer_map p ≡ some i
      kept p i h = ground arith

  reclaim-none : ids.peer_map peer ≡ none → reclaim peer ids ≡ ids
  unfolding reclaim
  reclaim-none unknown = ground arith

  reclaim-some :
      (removed : ℕ)
      → ids.peer_map peer ≡ some removed
      → reclaim peer ids ≡ record ids {
        peer_map = put ids.peer_map peer none;
        active_ids = delete_key removed ids.active_ids;
      }
  unfolding reclaim
  reclaim-some removed at = ground arith

  -- What a peer that leaves changes: its own number, which is free again, and nothing else.
  pub record IsReleased (after : MempoolIds) : Type 0 where
    pub valid : IsValid after
    pub has_none : get_for_peer peer after ≡ 0
    pub freed : (i : ℕ) → ids.peer_map peer ≡ some i → holds after.active_ids i ≡ false
    pub in_use :
        (j : ℕ) → ids.peer_map peer ≢ some j → holds after.active_ids j ≡ holds ids.active_ids j
    pub others : (q : Bytes) → q ≢ peer → after.peer_map q ≡ ids.peer_map q
    pub same_next : after.next_id ≡ ids.next_id

  removed-IsReleased :
      (removed : ℕ)
      → ids.peer_map peer ≡ some removed
      → IsReleased (record ids {
        peer_map = put ids.peer_map peer none;
        active_ids = delete_key removed ids.active_ids;
      })
  unfolding get_for_peer
  removed-IsReleased removed at = record {
    valid = removed-IsValid removed at;
    has_none = ground (arith, bytes_equal_refl peer);
    freed = λ i e. ground (arith, holds-delete_key_same removed ids.active_ids);
    in_use = λ j d. holds-delete_key_other removed j ids.active_ids (λ e. d (at ∙ ap some (sym e)));
    others = λ q d. ground (arith, bytes_equal_iff q peer);
    same_next = refl;
  }

  -- Where no two peers have one number, a peer that leaves, known or not, has none then. If it had one,
  -- that number is free again; every other number that was in use or free stays so, the other peers keep
  -- their numbers, and no two peers have one number then.
  pub reclaim-IsReleased : IsReleased (reclaim peer ids)
  unfolding get_for_peer
  reclaim-IsReleased = elim (Option-cases (ids.peer_map peer)) [
    | inl unknown ↦ subst IsReleased (sym (reclaim-none unknown)) (record {
      valid = v;
      has_none = ground arith;
      freed = λ i e. ground arith;
      in_use = λ j d. refl;
      others = λ q d. refl;
      same_next = refl;
    })
    | inr (removed, at) ↦
        subst IsReleased (sym (reclaim-some removed at)) (removed-IsReleased removed at)
  ]
