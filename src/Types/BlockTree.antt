-- ===== src/Types/BlockTree.antt =====
-- types/block_tree.go: the tree of the received blocks, its nodes linked by pointers both ways. A node
-- is an address below `next_node`. The loops over a queue take a round for each node and one more, and
-- the walks to the root a round for each node at most; a loop that were to run out of rounds would
-- give a panic. Each method runs whole, under the tree's lock.
pub mod Shape
pub mod Frontier
pub mod Search
pub mod Insertion
pub mod Traversal
pub mod Ancestors
pub mod Newest
pub mod Paths
use obrs.Prelude.{
  ℕ, zero, suc, ◌+◌, Bool, true, false, ◌&&◌, not, Option, none, some, List, [], ◌∷◌, ◌++◌, ◌==◌,
  if◌then◌else◌,
}
use obrs.Prelude.Bytes.{Bytes, bytes_equal, bytes_of}
use obrs.Prelude.Outcome.{Outcome, ok, err, panic, ◌>>=◌, duplicated_block, no_query_block}
use obrs.Types.Ltime.{greater}
use obrs.Types.Block.{Block, precommit_block, committed_block}
use obrs.Types.Memory.{Memory, write}

pub record TreeNode : Type 0 where
  pub parent : Option ℕ
  pub children : List ℕ
  pub block : ℕ

pub record BlockTree : Type 0 where
  pub node_at : ℕ → TreeNode
  pub next_node : ℕ
  pub root : ℕ
  pub last_node : ℕ
  pub size : ℕ

unfoldable pub new_block_tree : ℕ → BlockTree
new_block_tree gen_block = record {
  node_at = λ _. record { parent = none; children = []; block = gen_block };
  next_node = 1;
  root = 0;
  last_node = 0;
  size = 1;
}

-- The block that a node holds.
abbrev pub block_of : Memory → BlockTree → ℕ → Block
block_of m tree n = m.block_at (tree.node_at n).block

abbrev pub hash_at : Memory → BlockTree → ℕ → Bytes
hash_at m tree n = bytes_of (block_of m tree n).block_hash

-- queryNodeByHash from a queue of nodes on: breadth first.
unfoldable pub query_from : ℕ → Memory → BlockTree → Bytes → List ℕ → Outcome ℕ
query_from zero m tree hash queue = panic
query_from (suc fuel) m tree hash [] = err no_query_block
query_from (suc fuel) m tree hash (cur ∷ queue) =
    let rest = query_from fuel m tree hash (queue ++ (tree.node_at cur).children) in
    if bytes_equal hash (hash_at m tree cur) then ok cur else rest

unfoldable pub query_node_by_hash : Memory → BlockTree → Bytes → Outcome ℕ
query_node_by_hash m tree hash = query_from (tree.size + 1) m tree hash (tree.root ∷ [])

-- BlockTree.QueryBlockByHash
unfoldable pub query_block_by_hash : Memory → BlockTree → Bytes → Outcome ℕ
query_block_by_hash m tree hash = do n ← query_node_by_hash m tree hash; ok (tree.node_at n).block

-- A new leaf under a node. The last node is the new one whatever its slot.
unfoldable pub attach : BlockTree → ℕ → ℕ → BlockTree
attach tree parent block = record tree {
  node_at =
      write
        (write tree.node_at tree.next_node
          (record { parent = some parent; children = []; block = block }))
        parent
        (record (tree.node_at parent) {
          children = (tree.node_at parent).children ++ tree.next_node ∷ [];
        });
  next_node = tree.next_node + 1;
  last_node = tree.next_node;
  size = tree.size + 1;
}

attach_new : BlockTree → ℕ → ℕ → Outcome ℕ → Outcome BlockTree
attach_new tree parent block (ok n) = err duplicated_block
attach_new tree parent block (err e) = ok (attach tree parent block)
attach_new tree parent block panic = panic

attach_under : Memory → BlockTree → ℕ → Outcome ℕ → Outcome BlockTree
unfolding attach_new
attach_under m tree block (ok parent) =
    attach_new tree parent block
      (query_node_by_hash m tree (bytes_of (m.block_at block).block_hash))
attach_under m tree block (err e) = err no_query_block
attach_under m tree block panic = panic

-- BlockTree.AddBlocks
unfoldable pub add_to_tree : Memory → BlockTree → Bytes → ℕ → Outcome BlockTree
unfolding attach_under
add_to_tree m tree parent_hash block =
    attach_under m tree block (query_node_by_hash m tree parent_hash)

-- The walk of GetBlockByFilter from a node up to the first committed block.
unfoldable pub path_from : ℕ → Memory → BlockTree → (Block → Bool) → Option ℕ → Outcome (List ℕ)
path_from fuel m tree filter none = ok []
path_from zero m tree filter (some cur) = panic
path_from (suc fuel) m tree filter (some cur) =
    let rest = path_from fuel m tree filter (tree.node_at cur).parent in
    if (block_of m tree cur).block_state == committed_block
    then ok []
    else if filter (block_of m tree cur)
    then (rest >>= λ blocks. ok ((tree.node_at cur).block ∷ blocks))
    else rest

unfoldable pub filtered_path : Memory → BlockTree → (Block → Bool) → Outcome ℕ → Outcome (List ℕ)
filtered_path m tree filter (ok n) = path_from tree.size m tree filter (some n)
filtered_path m tree filter (err e) = ok []
filtered_path m tree filter panic = panic

-- BlockTree.GetBlockByFilter
unfoldable pub get_block_by_filter : Memory → BlockTree → Bytes → (Block → Bool) → Outcome (List ℕ)
unfolding filtered_path
get_block_by_filter m tree hash filter =
    filtered_path m tree filter (query_node_by_hash m tree hash)

-- treeNode.isAncestor, from the parent of the other node on.
unfoldable pub ancestor_from : ℕ → BlockTree → ℕ → Option ℕ → Outcome Bool
ancestor_from fuel tree node none = ok false
ancestor_from zero tree node (some cur) = panic
ancestor_from (suc fuel) tree node (some cur) =
    let rest = ancestor_from fuel tree node (tree.node_at cur).parent in
    if cur == node then ok true else rest

unfoldable pub is_ancestor : BlockTree → ℕ → ℕ → Outcome Bool
is_ancestor tree node other = ancestor_from tree.size tree node (tree.node_at other).parent

-- The node of the last precommit block so far, and the latest block so far.
pub record Latest : Type 0 where
  pub last_precommit : ℕ
  pub last_slot_block : ℕ

abbrev is_newer_precommit : Memory → BlockTree → Latest → ℕ → Bool
is_newer_precommit m tree l cur =
    (block_of m tree cur).block_state == precommit_block
    && greater (block_of m tree cur).slot (block_of m tree l.last_precommit).slot

abbrev consider : BlockTree → ℕ → Latest → Bool → Latest
consider tree cur l below =
    if below then record l { last_slot_block = (tree.node_at cur).block } else l

-- One round of GetLatestBlock.
unfoldable pub visit : Memory → BlockTree → ℕ → Latest → Outcome Latest
visit m tree cur l =
    if is_newer_precommit m tree l cur
    then ok (record { last_precommit = cur; last_slot_block = (tree.node_at cur).block })
    else if greater (block_of m tree cur).slot (m.block_at l.last_slot_block).slot
    then (is_ancestor tree l.last_precommit cur >>= λ below. ok (consider tree cur l below))
    else ok l

unfoldable pub latest_from : ℕ → Memory → BlockTree → List ℕ → Latest → Outcome ℕ
unfolding visit
latest_from zero m tree queue l = panic
latest_from (suc fuel) m tree [] l = ok l.last_slot_block
latest_from (suc fuel) m tree (cur ∷ queue) l =
    visit m tree cur l >>= latest_from fuel m tree (queue ++ (tree.node_at cur).children)

unfoldable pub get_latest_block : Memory → BlockTree → Outcome ℕ
get_latest_block m tree =
    latest_from (tree.size + 1) m tree (tree.root ∷ [])
      (record { last_precommit = tree.root; last_slot_block = (tree.node_at tree.root).block })

unfoldable pub get_root : BlockTree → ℕ
get_root tree = (tree.node_at tree.root).block

-- The blocks in the order in which ForEach hands them to its function.
unfoldable pub each_from : ℕ → BlockTree → List ℕ → Outcome (List ℕ)
each_from zero tree queue = panic
each_from (suc fuel) tree [] = ok []
each_from (suc fuel) tree (cur ∷ queue) = do
  blocks ← each_from fuel tree (queue ++ (tree.node_at cur).children)
  ok ((tree.node_at cur).block ∷ blocks)

unfoldable pub for_each : BlockTree → Outcome (List ℕ)
for_each tree = each_from (tree.size + 1) tree (tree.root ∷ [])
