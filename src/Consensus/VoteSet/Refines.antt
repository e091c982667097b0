-- ===== src/Consensus/VoteSet/Refines.antt =====
-- The votes of consensus/types/slot_vote_set.go as a function from slot and voter to the vote held.
use obrs.Prelude.{
  ◌≡◌, refl, sym, ap, subst, ◌∙◌, fun_ext, true, false, ◌&&◌, Option, none, some, List, [], ◌∷◌,
  ◌++◌, arith, any, find, All, inl, inr, Bool-cases, if◌then◌else◌,
}
use obrs.Prelude.Int.{eqb_ℤ, eqb_ℤ_iff}
use obrs.Prelude.Bytes.{Bytes, bytes_equal, bytes_equal_iff}
use obrs.Prelude.Outcome.{ok, err, panic}
use obrs.Types.Vote.{Vote, same_vote}
use obrs.Types.Ltime.{LTime}
use obrs.Consensus.VoteSet.{VoteSet, SlotVoteSet, add_slot_vote, set_for, put_slot}
use obrs.Consensus.VoteSet.Admission.{
  AllFiled, already, add_slot_vote_cases, add_slot_vote-AllFiled,
}

-- The abstract votes: at most one for a slot and a voter.
abbrev pub Held : Type 0
Held = LTime → Bytes → Option Vote

abbrev pub by_voter : Bytes → List Vote → Option Vote
by_voter voter votes = find (λ v. bytes_equal v.validator_address voter) votes

-- The votes that the sets hold.
unfoldable pub held : SlotVoteSet → Held
held svs slot voter = elim (svs slot) [ none ↦ none | some vs ↦ by_voter voter vs.votes ]

abbrev or_else : Option Vote → Vote → Option Vote
or_else none v = some v
or_else (some old) v = some old

-- The first vote of a voter in a slot counts.
unfoldable pub first_counts : Vote → Held → Held
first_counts v f slot voter =
    if eqb_ℤ slot v.slot && bytes_equal v.validator_address voter
    then or_else (f slot voter) v
    else f slot voter

-- Votes that arrive one after another: one that is refused changes nothing.
unfoldable pub take_in : SlotVoteSet → Vote → SlotVoteSet
take_in svs v = elim (add_slot_vote svs v) [ ok svs' ↦ svs' | err _ ↦ svs | panic ↦ svs ]

unfoldable pub take_all : List Vote → SlotVoteSet → SlotVoteSet
take_all [] svs = svs
take_all (v ∷ vs) svs = take_all vs (take_in svs v)

unfoldable pub replay : List Vote → Held → Held
replay [] f = f
replay (v ∷ vs) f = replay vs (first_counts v f)

-- In a list of votes of one slot, a voter has a vote exactly when there is the same vote.
by_voter-any :
    (vote : Vote) (votes : List Vote)
    → All (λ v. v.slot ≡ vote.slot) votes
    → (any (λ v. same_vote v vote) votes ≡ false)
    → by_voter vote.validator_address votes ≡ none
unfolding same_vote
by_voter-any vote [] h e = refl
by_voter-any vote (v ∷ votes) h e =
    ground (arith, by_voter-any vote votes h.1, (eqb_ℤ_iff v.slot vote.slot).1 h.0)

any-by_voter :
    (vote : Vote) (votes : List Vote)
    → any (λ v. same_vote v vote) votes ≡ true
    → (old : Vote) × (by_voter vote.validator_address votes ≡ some old)
unfolding same_vote
any-by_voter vote [] e = cc
any-by_voter vote (v ∷ votes) e =
    elim (Bool-cases (bytes_equal v.validator_address vote.validator_address)) [
      | inl here ↦ (v, ground arith)
      | inr there ↦ let (old, f) = any-by_voter vote votes (ground arith) in (old, ground arith)
    ]

by_voter-append :
    (voter : Bytes) (votes : List Vote) (v : Vote)
    → by_voter voter (votes ++ v ∷ []) ≡ (
        if bytes_equal v.validator_address voter
        then or_else (by_voter voter votes) v
        else by_voter voter votes)
by_voter-append voter [] v = ground arith
by_voter-append voter (w ∷ votes) v = ground (arith, by_voter-append voter votes v)

held-set_for :
    (svs : SlotVoteSet) (vote : Vote) (voter : Bytes)
    → held svs vote.slot voter ≡ by_voter voter (set_for svs vote).votes
unfolding held
held-set_for svs vote voter = ground arith

held-put_slot :
    (svs : SlotVoteSet) (slot s : LTime) (voter : Bytes) (vs : VoteSet)
    → held (put_slot svs slot vs) s voter
      ≡ (if eqb_ℤ s slot then by_voter voter vs.votes else held svs s voter)
unfolding held
held-put_slot svs slot s voter vs = elim (Bool-cases (eqb_ℤ s slot)) [
  | inl here ↦ rw (here, held, put_slot)
  | inr there ↦ rw (there, held, put_slot)
]

module _ (svs : SlotVoteSet) (v : Vote) (filed : AllFiled svs) where
  refused :
      already svs v ≡ true
      → (slot : LTime) (voter : Bytes) → held svs slot voter ≡ first_counts v (held svs) slot voter
  unfolding first_counts
  refused dup slot voter =
      elim (Bool-cases (eqb_ℤ slot v.slot && bytes_equal v.validator_address voter)) [
        | inr other ↦ ground arith
        | inl here ↦
            let (old, e) = any-by_voter v (set_for svs v).votes dup in
            let same_slot : slot ≡ v.slot = (eqb_ℤ_iff slot v.slot).0 (ground arith) in
            let same_voter : v.validator_address ≡ voter =
              (bytes_equal_iff v.validator_address voter).0 (ground arith) in
            let there : held svs slot voter ≡ some old =
              subst (λ (a : Bytes). held svs slot a ≡ some old) same_voter
                (subst (λ (t : LTime). held svs t v.validator_address ≡ some old) (sym same_slot)
                  (held-set_for svs v v.validator_address ∙ e)) in
            ground arith
      ]

  -- The sets after the vote has been added.
  abbrev added : SlotVoteSet
  added =
      put_slot svs v.slot (record {
        block_hash = (set_for svs v).block_hash;
        votes = (set_for svs v).votes ++ v ∷ [];
      })

  taken :
      (slot : LTime) (voter : Bytes) → held added slot voter ≡ first_counts v (held svs) slot voter
  unfolding first_counts
  taken slot voter =
      let put = held-put_slot svs v.slot slot voter (record {
        block_hash = (set_for svs v).block_hash;
        votes = (set_for svs v).votes ++ v ∷ [];
      }) in
      elim (Bool-cases (eqb_ℤ slot v.slot)) [
        | inr other ↦ ground (arith, put)
        | inl here ↦
            let same_slot : slot ≡ v.slot = (eqb_ℤ_iff slot v.slot).0 here in
            let now : held svs slot voter ≡ by_voter voter (set_for svs v).votes =
              ap (λ (t : LTime). held svs t voter) same_slot ∙ held-set_for svs v voter in
            ground (arith, put, by_voter-append voter (set_for svs v).votes v)
      ]

  -- One vote, taken in.
  held-take_in : held (take_in svs v) ≡ first_counts v (held svs)
  unfolding take_in
  held-take_in = elim (add_slot_vote_cases svs v) [
    | inl (dup, e) ↦ rw (e, take_in) (fun_ext λ slot. fun_ext λ voter. refused dup slot voter)
    | inr (fresh, e) ↦ rw (e, take_in) (fun_ext λ slot. fun_ext λ voter. taken slot voter)
  ]

  take_in-AllFiled : AllFiled (take_in svs v)
  unfolding take_in
  take_in-AllFiled = elim (add_slot_vote_cases svs v) [
    | inl (dup, e) ↦ rw (e, take_in) filed
    | inr (fresh, e) ↦ rw (e, take_in) (add_slot_vote-AllFiled svs added v filed e)
  ]

-- Votes that arrive one after another, refused ones among them, leave for each slot and voter the vote
-- that came first: the sets refine a map that keeps the first value of a key.
pub held-take_all :
    (votes : List Vote) (svs : SlotVoteSet)
    → AllFiled svs
    → held (take_all votes svs) ≡ replay votes (held svs)
unfolding take_all replay
held-take_all [] svs filed = refl
held-take_all (v ∷ votes) svs filed =
    held-take_all votes (take_in svs v) (take_in-AllFiled svs v filed)
    ∙ ap (replay votes) (held-take_in svs v filed)
