-- ===== src/Tests/BlockTree.antt =====
-- The tree of the small chain, block by block.
use obrs.Prelude.{ℕ, ◌<◌, ◌≡◌, refl, true, arith, List, map, All, Distinct, holds}
use obrs.Prelude.Bytes.{bytes_equal}
use obrs.Prelude.Text.{codes}
use obrs.Prelude.Outcome.{ok}
use obrs.Types.BlockTree.{
  BlockTree, new_block_tree, add_to_tree, query_from, query_node_by_hash, for_each,
  get_latest_block,
}
use obrs.Types.BlockTree.Shape.{IsTree, new_block_tree-IsTree, attach-IsTree}
use obrs.Types.BlockTree.Search.{
  UniqueHashes, Answers, Inserts, query_node_by_hash-Answers, add_to_tree-Inserts,
}
use obrs.Types.BlockTree.Frontier.{unseen}
use obrs.Types.BlockTree.Traversal.{for_each-Rest}
use obrs.Types.BlockTree.Newest.{Chosen, get_latest_block-Chosen}
use obrs.Types.BlockTree.Insertion.{add_to_tree-IsTree}
use obrs.Tests.Samples.{memory, two_nodes}

abbrev pub root_only : BlockTree
root_only = new_block_tree 0

root_only-IsTree : IsTree root_only
root_only-IsTree = new_block_tree-IsTree 0

root_only-UniqueHashes : UniqueHashes memory root_only
unfolding new_block_tree
root_only-UniqueHashes i j li lj e = omega arith

added : add_to_tree memory root_only (codes "g") 1 ≡ ok two_nodes
unfolding add_to_tree query_node_by_hash new_block_tree bytes_equal query_from
added = refl

pub two_nodes-UniqueHashes : UniqueHashes memory two_nodes
two_nodes-UniqueHashes =
    (add_to_tree-IsTree memory root_only two_nodes (codes "g") 1 root_only-IsTree
      root_only-UniqueHashes added).1

pub two_nodes-IsTree : IsTree two_nodes
unfolding new_block_tree
two_nodes-IsTree = attach-IsTree root_only 0 1 root_only-IsTree (omega arith)

query_node_by_hash-Answers_example :
    Answers memory two_nodes (codes "a") unseen (query_node_by_hash memory two_nodes (codes "a"))
query_node_by_hash-Answers_example =
    query_node_by_hash-Answers memory two_nodes (codes "a") two_nodes-IsTree

add_to_tree-Inserts_example :
    Inserts memory two_nodes (codes "a") 2 (add_to_tree memory two_nodes (codes "a") 2)
add_to_tree-Inserts_example = add_to_tree-Inserts memory two_nodes (codes "a") 2 two_nodes-IsTree

for_each-Rest_example :
    (ns : List ℕ) × (for_each two_nodes ≡ ok (map (λ n. (two_nodes.node_at n).block) ns))
    × Distinct ns
    × All (λ n. n < two_nodes.next_node) ns
    × ((n : ℕ) → n < two_nodes.next_node → holds ns n ≡ true)
for_each-Rest_example = for_each-Rest two_nodes two_nodes-IsTree

get_latest_block-Chosen_example :
    (p n : ℕ) × (get_latest_block memory two_nodes ≡ ok (two_nodes.node_at n).block)
    × Chosen memory two_nodes p n
get_latest_block-Chosen_example = get_latest_block-Chosen memory two_nodes two_nodes-IsTree
