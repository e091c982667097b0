-- ===== src/Tests/Links.antt =====
-- A run of a node of consensus/state.go on a small chain whose blocks are linked by their hashes.
use obrs.Prelude.{ℕ, zero, suc, ◌+◌, ◌<◌, ◌≡◌, refl, subst, inl, true, [], ◌∷◌, arith, holds, List}
use obrs.Prelude.Int.{pos}
use obrs.Prelude.Text.{codes}
use obrs.Prelude.Outcome.{ok}
use obrs.Types.BlockTree.{attach, new_block_tree}
use obrs.State.{uncommitted_above}
use obrs.State.Commits.{IsLinked, Climbs}
use obrs.State.Links.{IsHashed, IsSettled}
use obrs.State.Executor.Links.{IsSound}
use obrs.Consensus.Machine.{round_event_apply}
use obrs.Consensus.Machine.Runs.{Run, start, then_step, on_event}
use obrs.Consensus.Machine.Links.Fits.{IsApart}
use obrs.Consensus.Machine.Links.Making.{IsSettledState}
use obrs.Consensus.Machine.Links.Along.{Run-uncommitted_above}
use obrs.Tests.Samples.{memory, two_nodes, world, node_env}
use obrs.Tests.State.{linked}
use obrs.Tests.Machine.{busy, after_apply, applied, event_of}

busy-IsSound : IsSound busy.world
unfolding new_block_tree attach
busy-IsSound = record {
  tree = record { linked = linked; hashed = hashes; held = below };
  set = waiting;
}
  where
    hashes :
        (n : ℕ) → n < two_nodes.next_node → IsHashed (memory.block_at (two_nodes.node_at n).block)
    hashes zero l = (codes "g", refl)
    hashes (suc zero) l = (codes "a", refl)
    hashes (suc (suc n)) l = absurd (omega arith)

    below : (n : ℕ) → n < two_nodes.next_node → (two_nodes.node_at n).block < memory.next_block
    below zero l = omega arith
    below (suc zero) l = omega arith
    below (suc (suc n)) l = absurd (omega arith)

    waiting :
        (c : ℕ) → holds (1 ∷ []) c ≡ true → (c < memory.next_block) × IsHashed (memory.block_at c)
    waiting zero e = ground arith
    waiting (suc zero) e = (omega arith, (codes "a", refl))
    waiting (suc (suc c)) e = ground arith

busy-IsSettledState : IsSettledState node_env 0 busy
unfolding new_block_tree attach
busy-IsSettledState = record {
  sound = busy-IsSound;
  same_root = refl;
  current = λ b e.
      let same : 2 ≡ b = ground arith in
      subst (λ c. IsApart 0 world c × IsSettled (memory.block_at c)) same
        ((λ x. ground arith, omega arith), inl (codes "b", refl));
  later = λ s b e. ground arith;
}

abbrev one_step : Run node_env busy after_apply
one_step = then_step start (on_event 9 (pos 5) [] (event_of round_event_apply) applied)

Run-uncommitted_above_example :
    IsLinked after_apply.world.memory after_apply.world.block_tree
    × ((b : ℕ)
        → (ps : List ℕ) × (uncommitted_above
              (after_apply.world.block_tree.size + 1)
              after_apply.world.memory
              after_apply.world.block_tree
              b
            ≡ ok ps)
          × Climbs after_apply.world.memory after_apply.world.block_tree b ps)
Run-uncommitted_above_example =
    Run-uncommitted_above node_env 0 busy after_apply one_step (tt, tt) busy-IsSettledState
