-- ===== src/Tests/State.antt =====
-- The small chain with a node's state on it.
use obrs.Prelude.{ℕ, zero, suc, ◌<◌, ◌≡◌, refl, ◌⊎◌, true, none, some, List, [], ◌∷◌, arith, holds}
use obrs.Prelude.Int.{pos}
use obrs.Prelude.Bytes.{bytes_equal}
use obrs.Prelude.Text.{codes}
use obrs.Prelude.Outcome.{ok}
use obrs.Types.Vote.{Quorum, zero_quorum, support_quorum}
use obrs.Types.Block.{validate_basic}
use obrs.Types.BlockTree.{
  hash_at, new_block_tree, attach, add_to_tree, query_node_by_hash, query_from,
}
use obrs.Types.BlockSet.{add_block}
use obrs.Types.Validators.{validators_hash_of}
use obrs.State.{World, new_state, decide_commit_blocks, first_ready, uncommitted_above, copy}
use obrs.State.Commits.{IsLinked, Climbs}
use obrs.State.Executor.{validate_block, commit_all, apply_block, Applied}
use obrs.State.Executor.Commit.{
  IsKept, IsDone, commit_all-IsKept, commit_all-IsDone, apply_block-forgets,
}
use obrs.Prelude.{reverse, All}
use obrs.Types.Block.{Block, precommit_block}
use obrs.Types.Memory.{Memory}
use obrs.Types.Commit.{is_ready}
use obrs.Types.BlockTree.{query_block_by_hash}
use obrs.Types.BlockTree.Search.{UniqueHashes}
use obrs.State.{ready, chain_to, go_on}
use obrs.State.Commits.{NotReady, IsFirst, decide_commit_blocks_cases}
use obrs.Tests.Samples.{genesis, first, second}
use obrs.Tests.Samples.{memory, two_nodes, open_ext, world, node_state, run_block}
use obrs.Tests.BlockTree.{two_nodes-IsTree, two_nodes-UniqueHashes}

pub linked : IsLinked memory two_nodes
unfolding new_block_tree attach
linked = record {
  shape = two_nodes-IsTree;
  unique = two_nodes-UniqueHashes;
  parent_hash = links;
  root_committed = refl;
}
  where
    links :
        (n p : ℕ)
        → n < two_nodes.next_node
        → (two_nodes.node_at n).parent ≡ some p
        → (memory.block_at (two_nodes.node_at n).block).last_block_hash ≡ hash_at memory two_nodes p
    links zero p lt e = ground arith
    links (suc zero) p lt e = ground arith
    links (suc (suc n)) p lt e = absurd (omega arith)

commit_all-IsKept_example :
    IsKept world (commit_all run_block open_ext (pos 5) (1 ∷ []) (node_state, world, 0)).1 2
commit_all-IsKept_example =
    commit_all-IsKept run_block open_ext (pos 5) (1 ∷ []) 2 node_state world 0 refl

commit_all-IsDone_example :
    ((c : ℕ)
      → holds (1 ∷ []) c ≡ true
      → IsDone (commit_all run_block open_ext (pos 5) (1 ∷ []) (node_state, world, 0)).1 c)
    × ((commit_all run_block open_ext (pos 5) (1 ∷ []) (node_state, world, 0)).0.last_commited_block
        ≡ some 1)
commit_all-IsDone_example =
    commit_all-IsDone run_block open_ext (pos 5) (1 ∷ []) node_state world 0
      (λ db b. (codes "done", refl))

abbrev evidence : Quorum
evidence = record zero_quorum { quorum_type = support_quorum; block_hash = codes "b" }

-- The world before the second block arrives, and after it has been applied.
abbrev before : World
before = record world { uncommit_blocks = 1 ∷ [] }

abbrev applied : Applied run_block
applied = record {
  state = copy node_state;
  world = record world { block_tree = attach two_nodes 1 2 };
  db = 0;
  error = none;
}

ran : apply_block run_block open_ext (pos 5) (copy node_state) before 0 2 ≡ ok applied
unfolding apply_block add_to_tree query_node_by_hash query_from new_block_tree attach bytes_equal
    validate_block validate_basic validators_hash_of decide_commit_blocks first_ready commit_all
    add_block new_state copy
ran = refl

apply_block-forgets_example : applied.state.last_commited_block ≡ none
apply_block-forgets_example =
    apply_block-forgets run_block open_ext (pos 5) node_state before 0 2 applied (refl, tt) refl ran

-- The chain where the first block has evidence, by the second one, which is precommit.
abbrev ready_blocks : ℕ → Block
ready_blocks zero = genesis
ready_blocks (suc zero) = record first { commit = some 0 }
ready_blocks (suc (suc n)) = record second {
  header = record second.header { block_state = precommit_block };
}

abbrev ready_memory : Memory
ready_memory = record memory {
  block_at = ready_blocks;
  quorum_at = λ _. evidence;
  next_quorum = 1;
  commit_at = λ _. record { parent_commit = none; local_quorum = some 0; witness = some 2 };
  next_commit = 1;
}

abbrev ready_world : World
ready_world = record world { memory = ready_memory }

ready-IsLinked : IsLinked ready_memory two_nodes
unfolding new_block_tree attach
ready-IsLinked = record {
  shape = two_nodes-IsTree;
  unique = apart;
  parent_hash = links;
  root_committed = refl;
}
  where
    apart : UniqueHashes ready_memory two_nodes
    apart zero zero li lj e = refl
    apart zero (suc zero) li lj e = ground arith
    apart (suc zero) zero li lj e = ground arith
    apart (suc zero) (suc zero) li lj e = refl
    apart (suc (suc i)) j li lj e = absurd (omega arith)
    apart i (suc (suc j)) li lj e = absurd (omega arith)

    links :
        (n p : ℕ)
        → n < two_nodes.next_node
        → (two_nodes.node_at n).parent ≡ some p
        → (ready_memory.block_at (two_nodes.node_at n).block).last_block_hash
          ≡ hash_at ready_memory two_nodes p
    links zero p lt e = ground arith
    links (suc zero) p lt e = ground arith
    links (suc (suc n)) p lt e = absurd (omega arith)

abbrev one_block : List ℕ
one_block = 1 ∷ []

to_commit : decide_commit_blocks ready_world ≡ ok one_block
unfolding decide_commit_blocks first_ready ready is_ready chain_to uncommitted_above
    query_block_by_hash query_node_by_hash query_from bytes_equal new_block_tree attach go_on
to_commit = refl

decide_commit_blocks_cases_example :
    ((one_block ≡ []) × All (NotReady ready_memory) (2 ∷ 1 ∷ []))
    ⊎ ((b : ℕ) × IsFirst ready_memory (2 ∷ 1 ∷ []) (some b)
        × ((ps : List ℕ) × Climbs ready_memory two_nodes b ps × (one_block ≡ reverse (b ∷ ps))))
decide_commit_blocks_cases_example =
    decide_commit_blocks_cases ready_world one_block ready-IsLinked to_commit
