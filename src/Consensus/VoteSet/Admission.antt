-- ===== src/Consensus/VoteSet/Admission.antt =====
-- What the admission of votes keeps: one vote for each voter and slot, filed under its own slot.
use obrs.Prelude.{
  ◌≡◌, refl, sym, subst, ap, ◌+◌, Bool, true, false, Option, none, some, List, [], ◌∷◌, ◌++◌, arith,
  any, All, All-append, length, length-append, inl, inr, Bool-cases, if◌then◌else◌, ◌⊎◌,
}
use obrs.Prelude.Int.{eqb_ℤ, eqb_ℤ_iff}
use obrs.Prelude.Outcome.{Outcome, ok, err, panic, duplicate_vote}
use obrs.Types.Vote.{Vote, same_vote}
use obrs.Types.Ltime.{LTime}
use obrs.Consensus.VoteSet.{
  VoteSet, SlotVoteSet, add_vote, add_slot_vote, set_for, votes_in_slot, put_slot,
}

-- No vote of the list is by the voter of another in the same slot.
abbrev pub OneEach : List Vote → Type 0
OneEach [] = Unit
OneEach (v ∷ vs) = All (λ w. same_vote v w ≡ false) vs × OneEach vs

none_same :
    (vs : List Vote) (w : Vote)
    → any (λ v. same_vote v w) vs ≡ false
    → All (λ v. same_vote v w ≡ false) vs
none_same [] w h = tt
none_same (v ∷ vs) w h = ground (arith, none_same vs w)

OneEach-snoc :
    (vs : List Vote) (w : Vote)
    → OneEach vs
    → All (λ v. same_vote v w ≡ false) vs
    → OneEach (vs ++ w ∷ [])
OneEach-snoc [] w h a = (tt, tt)
OneEach-snoc (v ∷ vs) w h a =
    (All-append (λ u. same_vote v u ≡ false) vs (w ∷ []) h.0 (a.0, tt), OneEach-snoc vs w h.1 a.1)

-- Every slot's set holds votes of that slot only, one for each voter.
abbrev pub IsFiled : LTime → VoteSet → Type 0
IsFiled slot vs = All (λ v. v.slot ≡ slot) vs.votes × OneEach vs.votes

abbrev pub AllFiled : SlotVoteSet → Type 0
AllFiled svs = (slot : LTime) (vs : VoteSet) → svs slot ≡ some vs → IsFiled slot vs

pub set_for-IsFiled :
    (svs : SlotVoteSet) (vote : Vote) → AllFiled svs → IsFiled vote.slot (set_for svs vote)
set_for-IsFiled svs vote h = go (svs vote.slot) refl
  where
    go : (o : Option VoteSet) → svs vote.slot ≡ o → IsFiled vote.slot (set_for svs vote)
    go none e = rw (e, set_for) (tt, tt)
    go (some vs) e = rw (e, set_for) (h vote.slot vs e)

add_vote-eq-ok :
    (vs vs' : VoteSet) (vote : Vote)
    → add_vote vs vote ≡ ok vs'
    → (any (λ v. same_vote v vote) vs.votes ≡ false) × (vs'.votes ≡ vs.votes ++ vote ∷ [])
unfolding add_vote
add_vote-eq-ok vs vs' vote a = ground arith

add_vote-IsFiled :
    (slot : LTime) (vs vs' : VoteSet) (vote : Vote)
    → IsFiled slot vs
    → vote.slot ≡ slot
    → add_vote vs vote ≡ ok vs'
    → IsFiled slot vs'
add_vote-IsFiled slot vs vs' vote h e a =
    let (fresh, grown) = add_vote-eq-ok vs vs' vote a in
    subst (λ l. All (λ v. v.slot ≡ slot) l × OneEach l) (sym grown)
      (
        All-append (λ v. v.slot ≡ slot) vs.votes (vote ∷ []) h.0 (e, tt),
        OneEach-snoc vs.votes vote h.1 (none_same vs.votes vote fresh),
      )

add_slot_vote-eq-ok :
    (svs svs' : SlotVoteSet) (vote : Vote)
    → add_slot_vote svs vote ≡ ok svs'
    → (vs : VoteSet) × (add_vote (set_for svs vote) vote ≡ ok vs)
      × (svs' ≡ put_slot svs vote.slot vs)
unfolding add_slot_vote
add_slot_vote-eq-ok svs svs' vote h = go (add_vote (set_for svs vote) vote) refl
  where
    go :
        (o : Outcome VoteSet)
        → add_vote (set_for svs vote) vote ≡ o
        → (vs : VoteSet) × (add_vote (set_for svs vote) vote ≡ ok vs)
          × (svs' ≡ put_slot svs vote.slot vs)
    go (ok vs) e = (vs, e, ground arith)
    go (err x) e = ground arith
    go panic e = ground arith

pub put_slot-AllFiled :
    (svs : SlotVoteSet) (slot : LTime) (vs : VoteSet)
    → AllFiled svs
    → IsFiled slot vs
    → AllFiled (put_slot svs slot vs)
put_slot-AllFiled svs slot vs h f s ws e = elim (Bool-cases (eqb_ℤ s slot)) [
  | inl here ↦
      subst (λ x. IsFiled x ws) (sym ((eqb_ℤ_iff s slot).0 here))
        (subst (λ w. IsFiled slot w) (same_set here) f)
  | inr there ↦ h s ws (ground arith)
]
  where
    same_set : eqb_ℤ s slot ≡ true → vs ≡ ws
    same_set here = ground arith

-- A vote set that files each vote under its slot, one for each voter, does so after every vote that is
-- taken in.
pub add_slot_vote-AllFiled :
    (svs svs' : SlotVoteSet) (vote : Vote)
    → AllFiled svs
    → add_slot_vote svs vote ≡ ok svs'
    → AllFiled svs'
add_slot_vote-AllFiled svs svs' vote h e =
    let (vs, a, grown) = add_slot_vote-eq-ok svs svs' vote e in
    subst AllFiled (sym grown) (
      put_slot-AllFiled svs vote.slot vs h
        (add_vote-IsFiled vote.slot (set_for svs vote) vs vote (set_for-IsFiled svs vote h) refl a))

-- Whether the voter has a vote in the slot.
abbrev pub already : SlotVoteSet → Vote → Bool
already svs vote = any (λ v. same_vote v vote) (set_for svs vote).votes

-- A vote is refused exactly when its voter has one in that slot, and it never panics.
pub add_slot_vote_cases :
    (svs : SlotVoteSet) (vote : Vote)
    → ((already svs vote ≡ true) × (add_slot_vote svs vote ≡ err duplicate_vote))
      ⊎ ((already svs vote ≡ false)
          × (add_slot_vote svs vote
              ≡ ok (
                  put_slot svs vote.slot (record {
                    block_hash = (set_for svs vote).block_hash;
                    votes = (set_for svs vote).votes ++ vote ∷ [];
                  }))))
unfolding add_slot_vote add_vote
add_slot_vote_cases svs vote = ground arith

length-set_for :
    (svs : SlotVoteSet) (vote : Vote)
    → length (set_for svs vote).votes ≡ votes_in_slot svs vote.slot
unfolding votes_in_slot
length-set_for svs vote = ground arith

votes_in_slot-put_slot :
    (svs : SlotVoteSet) (slot s : LTime) (vs : VoteSet)
    → votes_in_slot (put_slot svs slot vs) s
      ≡ (if eqb_ℤ s slot then length vs.votes else votes_in_slot svs s)
unfolding votes_in_slot
votes_in_slot-put_slot svs slot s vs = elim (Bool-cases (eqb_ℤ s slot)) [
  | inl here ↦ rw (here, votes_in_slot, put_slot)
  | inr there ↦ rw (there, votes_in_slot, put_slot)
]

-- An admitted vote adds one to its slot's count and to no other's.
pub votes_in_slot-add_slot_vote :
    (svs svs' : SlotVoteSet) (vote : Vote) (s : LTime)
    → add_slot_vote svs vote ≡ ok svs'
    → votes_in_slot svs' s
      ≡ (if eqb_ℤ s vote.slot then votes_in_slot svs s + 1 else votes_in_slot svs s)
votes_in_slot-add_slot_vote svs svs' vote s h =
    let (vs, a, grown) = add_slot_vote-eq-ok svs svs' vote h in
    let (_, longer) = add_vote-eq-ok (set_for svs vote) vs vote a in
    rw (grown, votes_in_slot-put_slot svs vote.slot s vs)
      (elim (Bool-cases (eqb_ℤ s vote.slot)) [
        | inl here ↦
            rw (here, (eqb_ℤ_iff s vote.slot).0 here)
              (omega (
                arith,
                ap length longer,
                length-append (set_for svs vote).votes (vote ∷ []),
                length-set_for svs vote,
              ))
        | inr there ↦ rw there
      ])
