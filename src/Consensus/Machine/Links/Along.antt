-- ===== src/Consensus/Machine/Links/Along.antt =====
-- The hashes that link the blocks of the tree, along the runs of a node of consensus/state.go.
use obrs.Prelude.{ℕ, ◌+◌, ◌<◌, ◌≡◌, refl, sym, subst, none, List, arith, inl, inr}
use obrs.Prelude.Int.{ℤ}
use obrs.Prelude.Outcome.{Outcome, ok, err, panic, ◌>>=◌, >>=-eq-ok, ok-inj}
use obrs.Types.Ltime.{LTime}
use obrs.Types.Tx.{Tx}
use obrs.Types.Block.{committed_block, validate_basic}
use obrs.Types.BlockTree.{new_block_tree}
use obrs.Types.Memory.{Memory}
use obrs.State.{make_genesis_world, uncommitted_above}
use obrs.State.Commits.{IsLinked, Climbs, uncommitted_above-Climbs}
use obrs.State.Links.{IsHashed, new_block_tree-AllLinked}
use obrs.State.Executor.Links.{hash_shared-Steady}
use obrs.Consensus.Machine.{
  Env, ConsensusState, RoundEvent, decide_proposer, emit, reset_clock, slot_time_out,
}
use obrs.Consensus.Machine.Proposing.{default_set_proposal}
use obrs.Consensus.Machine.Handlers.{
  enter_new_slot, set_if_valid, handle_proposal, handle_event, handle_time_out, revise_slot_time,
}
use obrs.Consensus.Machine.Votes.{handle_vote_cases}
use obrs.Consensus.Machine.Runs.{
  Step, Run, on_event, on_time_out, on_proposal, on_vote, on_block, on_clock, start, then_step,
}
use obrs.Consensus.Machine.Links.Fits.{IsApart, Fits, moved, parts, decide_proposer-KeepsParts}
use obrs.Consensus.Machine.Links.Proposals.{default_set_proposal-IsFit}
use obrs.Consensus.Machine.Links.Applying.{settled, enter_apply-IsFit}
use obrs.Consensus.Machine.Links.Making.{
  alloc_block-Steady, IsSettledState, KeepsFit, stays_ok, stays_if, stays_panic,
  enter_propose-KeepsFit,
}

-- A node that starts on a genesis block whose hash has been filled in, without a proposal.
new_node-IsSettledState :
    (env : Env) (m : Memory) (b : ℕ) (cs : ConsensusState env)
    → b < m.next_block
    → IsHashed (m.block_at b)
    → (m.block_at b).block_state ≡ committed_block
    → cs.world ≡ make_genesis_world m b
    → cs.proposal ≡ none
    → ((s : LTime) → cs.future_proposal s ≡ none)
    → IsSettledState env b cs
unfolding make_genesis_world
new_node-IsSettledState env m b cs l h c w p later =
    subst (λ v. Fits b settled v cs.proposal cs.future_proposal) (sym w)
      (record {
        sound = record { tree = new_block_tree-AllLinked m b l h c; set = λ x e. cc };
        same_root = unfold new_block_tree in refl;
        current = λ x e. ground (arith, p);
        later = λ s x e. ground (arith, later s);
      })

module _ (env : Env) (root : ℕ) where
  abbrev Cs : Type 0
  Cs = ConsensusState env

  enter_new_slot-KeepsFit : (now : ℤ) (cs : Cs) → KeepsFit env root cs (enter_new_slot env now cs)
  unfolding enter_new_slot
  enter_new_slot-KeepsFit now cs c h f =
      let moved' : Cs = record cs {
        last_slot = cs.cur_slot;
        cur_slot = cs.clock_slot;
        cur_slot_start_time = now;
      } in
      let (mid, e, x) = >>=-eq-ok (decide_proposer env moved') _ h in
      let same = sym (decide_proposer-KeepsParts env moved' mid e) in
      subst (IsSettledState env root) (ok-inj x) (
        revised (emit env (reset_clock slot_time_out) mid)
          (subst (λ v. Fits root settled v.0 v.1 v.2) same f))
    where
      revised :
          (k : Cs)
          → IsSettledState env root k
          → IsSettledState env root (revise_slot_time env now k)
      revised k g =
          let same : parts env (revise_slot_time env now k) ≡ parts env k =
            unfold revise_slot_time in ground arith in
          subst (λ v. Fits root settled v.0 v.1 v.2) (sym same) g

  handle_event-KeepsFit :
      (fuel : ℕ) (now : ℤ) (txs : List Tx) (e : RoundEvent) (cs : Cs)
      → KeepsFit env root cs (handle_event env fuel now txs e cs)
  unfolding handle_event
  handle_event-KeepsFit fuel now txs e cs =
      stays_if env root cs _ (stays_ok env root cs cs (λ f. f)) (
        stays_if env root cs _ (enter_new_slot-KeepsFit now cs) (
          stays_if env root cs _ (λ c h f. enter_apply-IsFit env root fuel now cs c h f)
            (stays_if env root cs _ (enter_propose-KeepsFit env root now txs cs)
              (stays_ok env root cs cs (λ f. f)))))

  handle_proposal-KeepsFit :
      (now : ℤ) (p : ℕ) (cs : Cs)
      → IsApart root cs.world p
      → KeepsFit env root cs (handle_proposal env now p cs)
  unfolding handle_proposal
  handle_proposal-KeepsFit now p cs apart = go (validate_basic (cs.world.memory.block_at p))
    where
      accepted : KeepsFit env root cs (default_set_proposal env now p cs >>= λ r. ok r.0)
      accepted c h f =
          let (r, e, x) = >>=-eq-ok (default_set_proposal env now p cs) _ h in
          subst (IsSettledState env root) (ok-inj x)
            (default_set_proposal-IsFit env root settled now p cs r e f apart)

      go : (o : Outcome (Unit {0})) → KeepsFit env root cs (set_if_valid env now p o cs)
      go (ok _) =
          unfold set_if_valid in stays_if env root cs _ accepted (stays_ok env root cs cs (λ f. f))
      go (err e) =
          unfold set_if_valid in
          stays_ok env root cs _
            (λ f. moved env root settled cs _ f (hash_shared-Steady env.ext p cs.world))
      go panic = unfold set_if_valid in stays_panic env root cs

  -- The proposal that a step takes in, if any, is a block of the memory other than the root.
  abbrev IsApartIn : (cs cs' : Cs) → Step env cs cs' → Type 0
  IsApartIn cs cs' (on_event fuel now txs e h) = Unit {0}
  IsApartIn cs cs' (on_proposal now p h) = IsApart root cs.world p
  IsApartIn cs cs' (on_vote vote h) = Unit {0}
  IsApartIn cs cs' (on_time_out step slot h) = Unit {0}
  IsApartIn cs cs' (on_block b h) = Unit {0}
  IsApartIn cs cs' (on_clock slot h) = Unit {0}

  abbrev pub AllApart : (cs cs' : Cs) → Run env cs cs' → Type 0
  AllApart cs cs' start = Unit {0}
  AllApart cs cs' (then_step {mid = mid} run step) = AllApart cs mid run × IsApartIn mid cs' step

  Step-IsSettledState :
      (cs cs' : Cs) (s : Step env cs cs')
      → IsApartIn cs cs' s
      → IsSettledState env root cs
      → IsSettledState env root cs'
  Step-IsSettledState cs cs' (on_event fuel now txs e h) a f =
      handle_event-KeepsFit fuel now txs e cs cs' h f
  Step-IsSettledState cs cs' (on_proposal now p h) a f = handle_proposal-KeepsFit now p cs a cs' h f
  Step-IsSettledState cs cs' (on_vote vote h) a f = elim (handle_vote_cases env vote cs cs' h) [
    | inl same ↦ subst (IsSettledState env root) (sym same) f
    | inr (_, (svs, _, same)) ↦ subst (IsSettledState env root) (sym same) f
  ]
  Step-IsSettledState cs cs' (on_time_out step slot h) a f =
      let same : parts env (handle_time_out env step slot cs) ≡ parts env cs =
        unfold handle_time_out in ground arith in
      subst (IsSettledState env root) (sym h)
        (subst (λ v. Fits root settled v.0 v.1 v.2) (sym same) f)
  Step-IsSettledState cs cs' (on_block b h) a f =
      subst (IsSettledState env root) (sym h)
        (moved env root settled cs _ f (alloc_block-Steady cs.world b))
  Step-IsSettledState cs cs' (on_clock slot h) a f = subst (IsSettledState env root) (sym h) f

  Run-IsSettledState :
      (cs cs' : Cs) (run : Run env cs cs')
      → AllApart cs cs' run
      → IsSettledState env root cs
      → IsSettledState env root cs'
  Run-IsSettledState cs cs' start a f = f
  Run-IsSettledState cs cs' (then_step {mid = mid} run step) a f =
      Step-IsSettledState mid cs' step a.1 (Run-IsSettledState cs mid run a.0 f)

  -- From a state whose block tree is a tree in which no two blocks have one hash, each names its
  -- parent there by hash and the root is committed, where the blocks of the tree and of the set of
  -- uncommitted ones have their hashes filled in, the current proposal has a hash or the default
  -- state, and neither it nor one kept for a later slot is the root, all at addresses in use:
  -- whatever events, messages and ticks a node runs through, where each proposal that it takes in
  -- is a block of its memory other than the root, the tree stays like this. So the walk up from any
  -- block ends then, and gives the uncommitted blocks on the way by which each names its parent, up
  -- to a committed block or one that is not in the tree.
  pub Run-uncommitted_above :
      (cs cs' : Cs) (run : Run env cs cs')
      → AllApart cs cs' run
      → IsSettledState env root cs
      → IsLinked cs'.world.memory cs'.world.block_tree
        × ((b : ℕ)
            → (ps : List ℕ) × (uncommitted_above
                  (cs'.world.block_tree.size + 1)
                  cs'.world.memory
                  cs'.world.block_tree
                  b
                ≡ ok ps)
              × Climbs cs'.world.memory cs'.world.block_tree b ps)
  Run-uncommitted_above cs cs' run a f =
      let l = (Run-IsSettledState cs cs' run a f).sound.tree.linked in
      (l, uncommitted_above-Climbs cs'.world.memory cs'.world.block_tree l)
