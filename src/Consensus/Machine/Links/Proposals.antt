-- ===== src/Consensus/Machine/Links/Proposals.antt =====
-- defaultSetProposal of consensus/state.go, on a tree whose blocks are linked by their hashes.
use obrs.Prelude.{
  ℕ, ◌≡◌, refl, sym, ap, subst, Bool, true, false, Option, none, some, arith, Bool-cases,
  Option-cases, inl, inr, if◌then◌else◌,
}
use obrs.Prelude.Int.{ℤ, eqb_ℤ}
use obrs.Prelude.Outcome.{Error, Outcome, ok, deref, ◌>>=◌, >>=-eq-ok, ok-inj}
use obrs.Types.Ltime.{LTime, greater}
use obrs.Types.Vote.{Vote, vote_sign_bytes}
use obrs.Types.BlockTree.{get_latest_block}
use obrs.Types.Validators.{Validator}
use obrs.State.{hash_shared, is_match}
use obrs.State.Links.{IsHashed, still_hashed}
use obrs.State.Executor.{update_state}
use obrs.State.Executor.Links.{root_of, hash_shared-Steady, update_state-Steady}
use obrs.Consensus.Machine.{Env, ConsensusState, is_proposer}
use obrs.Consensus.Machine.Proposing.{
  with_memory, SetResult, send_vote, sign_vote, refuse_slot, try_add_future_proposal, vote_on,
  accept_updated, accept, check_signature, check_txs, check_leader, all_valid, default_set_proposal,
  triggle_future_proposal,
}
use obrs.Consensus.Machine.Links.Fits.{
  hash_shared-IsHashed, IsApart, Demand, Fits, is_proposer-KeepsParts, IsFit, moved,
}

module _ (env : Env) (root : ℕ) (d : Demand) where
  abbrev Cs : Type 0
  Cs = ConsensusState env

  abbrev Fit : Cs → Type 0
  Fit cs = IsFit env root d cs

  abbrev HasHash : Cs → ℕ → Type 0
  HasHash cs p = IsHashed (cs.world.memory.block_at p)

  abbrev SetsFit : ℕ → Cs → Outcome (SetResult env) → Type 0
  SetsFit p cs o = (r : SetResult env) → o ≡ ok r → Fit cs → IsApart root cs.world p → Fit r.0

  sets_ok : (p : ℕ) (cs : Cs) (r : SetResult env) → (Fit cs → Fit r.0) → SetsFit p cs (ok r)
  sets_ok p cs r k b h f l = subst (λ (x : SetResult env). Fit x.0) (ok-inj h) (k f)

  sets_if :
      (p : ℕ) (cs : Cs) (b : Bool) {x y : Outcome (SetResult env)}
      → SetsFit p cs x
      → SetsFit p cs y
      → SetsFit p cs (if b then x else y)
  sets_if p cs true k l = k
  sets_if p cs false k l = l

  sets_after :
      {A : Type 0} (p : ℕ) (cs : Cs) (o : Outcome A) (g : A → Outcome (SetResult env))
      → ((a : A) → SetsFit p cs (g a))
      → SetsFit p cs (o >>= g)
  sets_after p cs o g l b h = let (a, e, x) = >>=-eq-ok o g h in l a b x

  send_vote-IsFit : (vote : Vote) (cs : Cs) → Fit cs → Fit (send_vote env vote cs)
  unfolding send_vote
  send_vote-IsFit vote cs f =
      elim (Option-cases (env.sign (vote_sign_bytes env.ext cs.state.chain_id vote))) [
        | inl missing ↦ rw (missing, send_vote) f
        | inr (x, e) ↦ rw (e, send_vote) f
      ]

  sign_vote-IsFit :
      (now : ℤ) (p : ℕ) (b : Bool) (cs cs' : Cs)
      → sign_vote env now p b cs ≡ ok cs'
      → Fit cs
      → Fit cs'
  unfolding sign_vote
  sign_vote-IsFit now p b cs cs' h f =
      let (val, _, x) = >>=-eq-ok (deref cs.state.validator) _ h in
      subst Fit (ok-inj x) (
        send_vote-IsFit _ (with_memory env (hash_shared env.ext p cs.world.memory) cs)
          (moved env root d cs _ f (hash_shared-Steady env.ext p cs.world)))

  vote_on-IsFit : (now : ℤ) (p : ℕ) (cs cs' : Cs) → vote_on env now p cs ≡ ok cs' → Fit cs → Fit cs'
  unfolding vote_on is_match
  vote_on-IsFit now p cs cs' h f =
      let ((fits, m), e, x) = >>=-eq-ok (is_match env.ext cs.world p) _ h in
      let (b, _, y) = >>=-eq-ok (get_latest_block cs.world.memory cs.world.block_tree) _ e in
      let same : hash_shared env.ext b cs.world.memory ≡ m = ap (λ r. r.1) (ok-inj y) in
      sign_vote-IsFit now p fits (with_memory env m cs) cs' x (
        subst (λ k. Fit (with_memory env k cs)) same
          (moved env root d cs _ f (hash_shared-Steady env.ext b cs.world)))

  accept_updated-IsFit :
      (now : ℤ) (p : ℕ) (cs : Cs) (e : Option Error)
      → HasHash cs p
      → SetsFit p cs (accept_updated env now p cs e)
  unfolding accept_updated
  accept_updated-IsFit now p cs (some e) hp r h f l = sets_ok p cs _ (λ g. g) r h f l
  accept_updated-IsFit now p cs none hp r h f l =
      let (cs', v, x) = >>=-eq-ok (vote_on env now p _) _ h in
      subst (λ (y : SetResult env). Fit y.0) (ok-inj x)
        (vote_on-IsFit now p _ cs' v (record {
          sound = f.sound;
          same_root = f.same_root;
          current = λ b e.
              let same : p ≡ b = ground arith in
              subst (λ c. IsApart root cs.world c × d.Meets (cs.world.memory.block_at c)) same
                (l, d.of_hash (cs.world.memory.block_at p) hp);
          later = f.later;
        }))

  accept-IsFit : (now : ℤ) (p : ℕ) (cs : Cs) → HasHash cs p → SetsFit p cs (accept env now p cs)
  unfolding accept
  accept-IsFit now p cs hp r h f (x, l) =
      let (w, failed) = update_state now cs.state cs.world p in
      let k = update_state-Steady now cs.state cs.world p f.sound in
      accept_updated-IsFit now p (record cs { world = w }) failed
        (still_hashed (root_of cs.world) cs.world.memory w.memory p k.1 l hp) r h
        (moved env root d cs w f k) (x, omega (arith, l, k.1.more))

  check_signature-IsFit :
      (now : ℤ) (p : ℕ) (val : Option Validator) (cs : Cs)
      → SetsFit p cs (check_signature env now p val cs)
  unfolding check_signature
  check_signature-IsFit now p val cs = sets_after p cs (deref val) _ (λ v.
      sets_after p cs (deref v.pub_key) _ (λ key.
        let m = hash_shared env.ext p cs.world.memory in
        let k = hash_shared-Steady env.ext p cs.world in
        sets_if p cs _
          (λ r h f (x, l).
            accept-IsFit now p (with_memory env m cs)
              (hash_shared-IsHashed env.ext p cs.world.memory) r h (moved env root d cs _ f k)
              (x, omega (arith, l, k.1.more)))
          (sets_ok p cs _ (λ f. moved env root d cs _ f k))))

  check_txs-IsFit :
      (now : ℤ) (p : ℕ) (val : Option Validator) (cs : Cs)
      → SetsFit p cs (check_txs env now p val cs)
  unfolding check_txs
  check_txs-IsFit now p val cs =
      sets_after p cs (all_valid env (cs.world.memory.block_at p).txs) _
        (λ valid. sets_if p cs valid (check_signature-IsFit now p val cs) (sets_ok p cs _ (λ f. f)))

  check_leader-IsFit : (now : ℤ) (p : ℕ) (cs : Cs) → SetsFit p cs (check_leader env now p cs)
  unfolding check_leader
  check_leader-IsFit now p cs r h f l =
      let ((mid, leads), e, x) = >>=-eq-ok (is_proposer env cs _) _ h in
      let same = sym (is_proposer-KeepsParts env cs _ (mid, leads) e) in
      sets_if p mid leads (check_txs-IsFit now p _ mid) (sets_ok p mid _ (λ g. g)) r x
        (subst (λ v. Fits root d v.0 v.1 v.2) same f) (subst (λ v. IsApart root v.0 p) same l)

  refuse_slot-IsFit :
      (slot : LTime) (p : ℕ) (cs : Cs)
      → Fit cs
      → IsApart root cs.world p
      → Fit (refuse_slot env slot p cs).0
  unfolding refuse_slot try_add_future_proposal
  refuse_slot-IsFit slot p cs f l = elim (Bool-cases (greater slot cs.cur_slot)) [
    | inr past ↦ rw past f
    | inl coming ↦ elim (Option-cases (cs.future_proposal slot)) [
      | inr (q, e) ↦ rw (coming, e) f
      | inl missing ↦
          rw (coming, missing)
            (record {
              sound = f.sound;
              same_root = f.same_root;
              current = f.current;
              later = λ t b e. elim (Bool-cases (eqb_ℤ t slot)) [
                | inl here ↦ let same : p ≡ b = ground arith in subst (IsApart root cs.world) same l
                | inr there ↦ f.later t b (ground arith)
              ];
            })
    ]
  ]

  pub default_set_proposal-IsFit :
      (now : ℤ) (p : ℕ) (cs : Cs) (r : SetResult env)
      → default_set_proposal env now p cs ≡ ok r
      → Fit cs
      → IsApart root cs.world p
      → Fit r.0
  unfolding default_set_proposal
  default_set_proposal-IsFit now p cs r h f l =
      sets_if p cs _ (check_leader-IsFit now p cs)
        (sets_ok p cs _ (λ g. refuse_slot-IsFit _ p cs g l)) r h f l

  pub triggle_future_proposal-IsFit :
      (now : ℤ) (slot : LTime) (cs cs' : Cs)
      → triggle_future_proposal env now slot cs ≡ ok cs'
      → Fit cs
      → Fit cs'
  unfolding triggle_future_proposal
  triggle_future_proposal-IsFit now slot cs cs' h f = go (cs.future_proposal slot) refl h
    where
      go :
          (o : Option ℕ)
          → cs.future_proposal slot ≡ o
          → (elim o [ none ↦ ok cs | some p ↦ default_set_proposal env now p cs >>= λ r. ok r.0 ])
            ≡ ok cs'
          → Fit cs'
      go none e x = subst Fit (ok-inj x) f
      go (some p) e x =
          let (r, y, z) = >>=-eq-ok (default_set_proposal env now p cs) _ x in
          subst Fit (ok-inj z) (default_set_proposal-IsFit now p cs r y f (f.later slot p e))
