-- ===== src/Consensus/Machine/Links/Applying.antt =====
-- enterApply of consensus/state.go, on a tree whose blocks are linked by their hashes.
use obrs.Prelude.{
  ℕ, ◌≡◌, ◌≢◌, refl, sym, subst, ◌∙◌, true, Option, none, some, [], ◌∷◌, arith, ◌==◌, Bool-cases,
  Option-cases, inl, inr,
}
use obrs.Prelude.Int.{ℤ}
use obrs.Prelude.Outcome.{ok, deref, deref-eq-ok, >>=-eq-ok, ok-inj}
use obrs.Types.Ltime.{LTime}
use obrs.Types.Block.{Block, default_block, suspect_block, fill}
use obrs.Types.Memory.{Memory, set_block, alloc_block}
use obrs.Consensus.VoteSet.{VoteSet, get_votes_by_slot, try_gen_quorum}
use obrs.State.{World, copy}
use obrs.State.Links.{
  IsHashed, IsSettled, Mild, Mild-trans, set_block-Mild, alloc_block-Mild, alloc_block-Settles,
  still_hashed,
}
use obrs.State.Executor.{Applied, apply_block, update_block_state}
use obrs.State.Executor.Links.{
  root_of, Evolves, Steady-Evolves, changed-IsSound, enter_state-SameHashes,
}
use obrs.State.Executor.Linked.{apply_block-Evolves}
use obrs.Consensus.Machine.{Env, ConsensusState, has_proposal, threshold, round_step_slot}
use obrs.Consensus.Machine.Evidence.{update_evidences}
use obrs.Consensus.Machine.Proposing.{triggle_future_proposal}
use obrs.Consensus.Machine.Handlers.{
  state_after, judge, take_applied, apply_proposal, apply_current, opened, finish_apply,
  enter_apply,
}
use obrs.Consensus.Machine.Links.{update_evidences-Steady}
use obrs.Consensus.Machine.Links.Fits.{IsApart, Demand, Fits, IsFit, moved}
use obrs.Consensus.Machine.Links.Proposals.{triggle_future_proposal-IsFit}

abbrev pub settled : Demand
settled = record { Meets = IsSettled; of_hash = λ b h. inl h; steady = λ w w' c k l s. k.2 c l s }

abbrev hashed : Demand
hashed = record {
  Meets = IsHashed;
  of_hash = λ b h. h;
  steady = λ w w' c k l h. still_hashed (root_of w) w.memory w'.memory c k.1 l h;
}

Evolves-trans : (w w' w'' : World) → Evolves w w' → Evolves w' w'' → Evolves w w''
Evolves-trans w w' w'' (k, r, _) (k', r', s) = (
  Mild-trans (root_of w) w.memory w'.memory w''.memory k
      (subst (λ q. Mild q w'.memory w''.memory) r k'),
  r' ∙ r,
  s,
)

module _ (env : Env) (root : ℕ) where
  abbrev Cs : Type 0
  Cs = ConsensusState env

  -- The votes put the block of a proposal, which is not the root, in another state.
  judge-Mild :
      (now : ℤ) (b : ℕ) (o : Option VoteSet) (m m' : Memory)
      → b ≢ root
      → judge env now b o m ≡ ok m'
      → Mild root m m'
  unfolding judge update_block_state
  judge-Mild now b none m m' apart h = subst (Mild root m) (ok-inj h) (
      set_block-Mild root m b _ (enter_state-SameHashes now suspect_block (m.block_at b))
        (λ same. absurd (apart same)))
  judge-Mild now b (some vs) m m' apart h =
      let (q, _, x) = >>=-eq-ok (try_gen_quorum env.curve threshold vs) _ h in
      let block = m.block_at b in
      let marked : Block = record block { vote_quorum = record q { slot = block.slot } } in
      let m1 = set_block b marked m in
      subst (Mild root m) (ok-inj x) (
        Mild-trans root m m1 (update_block_state now b (state_after env q.quorum_type) m1)
          (set_block-Mild root m b marked (λ y. (refl, refl)) (λ same. absurd (apart same)))
          (set_block-Mild root m1 b _
            (enter_state-SameHashes now (state_after env q.quorum_type) (m1.block_at b))
            (λ same. absurd (apart same))))

  evolved :
      (w w' : World) (p : Option ℕ) (f : LTime → Option ℕ)
      → Fits root hashed w p f
      → Evolves w w'
      → Fits root hashed w' p f
  evolved w w' p f h (k, r, s) = record {
    sound = s;
    same_root = r ∙ h.same_root;
    current = λ b e.
        let ((x, l), y) = h.current b e in
        ((x, omega (arith, l, k.more)), still_hashed (root_of w) w.memory w'.memory b k l y);
    later = λ t b e. let (x, l) = h.later t b e in (x, omega (arith, l, k.more));
  }

  taken :
      (cs : Cs) (a : Applied env.exec_block)
      → Fits root hashed a.world cs.proposal cs.future_proposal
      → IsFit env root hashed (take_applied env cs a)
  unfolding take_applied
  taken cs a g = elim (Option-cases a.error) [
    | inl fine ↦ rw (fine, take_applied) g
    | inr (x, e) ↦ rw (e, take_applied) g
  ]

  apply_proposal-IsFit :
      (fuel : ℕ) (now : ℤ) (b : ℕ) (cs cs' : Cs)
      → cs.proposal ≡ some b
      → apply_proposal env fuel now b cs ≡ ok cs'
      → IsFit env root hashed cs
      → IsFit env root hashed cs'
  unfolding apply_proposal
  apply_proposal-IsFit fuel now b cs cs' p h f =
      let ((apart, l), hb) = f.current b p in
      let (m, e, x) =
        >>=-eq-ok (judge env now b (get_votes_by_slot cs.vote_set cs.last_slot) cs.world.memory) _
          h in
      let judged : World = record cs.world { memory = m } in
      let k =
        subst (λ r. Mild r cs.world.memory m) (sym f.same_root)
          (judge-Mild now b (get_votes_by_slot cs.vote_set cs.last_slot) cs.world.memory m apart
            e) in
      let first : Evolves cs.world judged =
        (k, refl, changed-IsSound cs.world judged f.sound k refl (λ c y. y)) in
      let (w, e', y) = >>=-eq-ok (update_evidences fuel env.ext (b ∷ []) judged) _ x in
      let second = Evolves-trans cs.world judged w first (
        Steady-Evolves judged w first.2
          (update_evidences-Steady fuel env.ext (b ∷ []) judged w e')) in
      let (a, z, same) =
        >>=-eq-ok (apply_block env.exec_block env.ext now (copy cs.state) w cs.db b) _ y in
      let third =
        apply_block-Evolves env.exec_block env.ext now (copy cs.state) w cs.db b a second.2
          (
            omega (arith, l, second.0.more),
            still_hashed (root_of cs.world) cs.world.memory w.memory b second.0 l hb,
          )
          z in
      subst (IsFit env root hashed) (ok-inj same) (
        taken cs a (
          evolved cs.world a.world cs.proposal cs.future_proposal f
            (Evolves-trans cs.world w a.world second third)))

  -- A proposal that is there has a hash.
  there :
      (cs : Cs) → has_proposal env cs ≡ true → IsFit env root settled cs → IsFit env root hashed cs
  unfolding has_proposal
  there cs h f = record {
    sound = f.sound;
    same_root = f.same_root;
    current = λ b e.
        let (a, s) = f.current b e in
        (a, elim s [ inl x ↦ x | inr x ↦ absurd (ground (arith, e, x, h)) ]);
    later = f.later;
  }

  weaker : (cs : Cs) → IsFit env root hashed cs → IsFit env root settled cs
  weaker cs f = record {
    sound = f.sound;
    same_root = f.same_root;
    current = λ b e. let (a, h) = f.current b e in (a, inl h);
    later = f.later;
  }

  apply_current-IsFit :
      (fuel : ℕ) (now : ℤ) (cs cs' : Cs)
      → apply_current env fuel now cs ≡ ok cs'
      → IsFit env root hashed cs
      → IsFit env root hashed cs'
  unfolding apply_current
  apply_current-IsFit fuel now cs cs' h f =
      let (mid, e, x) = >>=-eq-ok (triggle_future_proposal env now cs.cur_slot cs) _ h in
      let (b, e', y) = >>=-eq-ok (deref mid.proposal) _ x in
      apply_proposal-IsFit fuel now b mid cs' (deref-eq-ok mid.proposal e') y
        (triggle_future_proposal-IsFit env root hashed now cs.cur_slot cs mid e f)

  -- A new block in the default state is proposed.
  proposed :
      (cs : Cs) (x : Block)
      → x.block_state ≡ default_block
      → IsFit env root settled cs
      → Fits root settled
          (record cs.world { memory = alloc_block x cs.world.memory })
          (some cs.world.memory.next_block)
          cs.future_proposal
  proposed cs x e f =
      let m = alloc_block x cs.world.memory in
      let w : World = record cs.world { memory = m } in
      let g = moved env root settled cs w f (
        refl,
        alloc_block-Mild (root_of cs.world) cs.world.memory x,
        alloc_block-Settles cs.world.memory x,
      ) in
      let used = f.sound.tree.held 0 f.sound.tree.linked.shape.some_node in
      let new : IsApart root w cs.world.memory.next_block =
        (λ same. omega (arith, used, same, f.same_root), omega arith) in
      let default : (m.block_at cs.world.memory.next_block).block_state ≡ default_block =
        ground (arith, e) in
      record {
        sound = g.sound;
        same_root = g.same_root;
        current = λ b h.
            let same : cs.world.memory.next_block ≡ b = ground arith in
            subst (λ c. IsApart root w c × IsSettled (m.block_at c)) same (new, inr default);
        later = g.later;
      }

  -- The empty proposal of the new slot is a new block in the default state.
  finish_apply-IsFit :
      (cs cs' : Cs)
      → finish_apply env cs ≡ ok cs'
      → IsFit env root settled cs
      → IsFit env root settled cs'
  unfolding finish_apply opened fill
  finish_apply-IsFit cs cs' h f =
      let (leader, _, x) = >>=-eq-ok (deref cs.proposer) _ h in
      subst (IsFit env root settled) (ok-inj x) (proposed cs _ refl f)

  pub enter_apply-IsFit :
      (fuel : ℕ) (now : ℤ) (cs cs' : Cs)
      → enter_apply env fuel now cs ≡ ok cs'
      → IsFit env root settled cs
      → IsFit env root settled cs'
  unfolding enter_apply
  enter_apply-IsFit fuel now cs cs' h f = elim (Bool-cases (cs.step == round_step_slot)) [
    | inr other ↦ absurd (ground arith)
    | inl here ↦ elim (Bool-cases (has_proposal env cs)) [
      | inr none_yet ↦ finish_apply-IsFit cs cs' (ground arith) f
      | inl some_yet ↦
          let (mid, e, x) =
            >>=-eq-ok (apply_current env fuel now cs) (finish_apply env) (ground arith) in
          finish_apply-IsFit mid cs' x
            (weaker mid (apply_current-IsFit fuel now cs mid e (there cs some_yet f)))
    ]
  ]
