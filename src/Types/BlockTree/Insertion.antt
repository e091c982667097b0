-- ===== src/Types/BlockTree/Insertion.antt =====
-- What an insertion keeps: the shape of the tree, and one node for each hash.
use obrs.Prelude.{ℕ, ◌+◌, ◌<◌, ◌≡◌, ◌≢◌, refl, subst, arith, inl, inr}
use obrs.Prelude.Bytes.{Bytes, bytes_of}
use obrs.Prelude.Outcome.{ok}
use obrs.Types.Memory.{Memory}
use obrs.Types.BlockTree.{BlockTree, hash_at, attach, add_to_tree}
use obrs.Types.BlockTree.Shape.{IsTree, attach-IsTree}
use obrs.Types.BlockTree.Search.{UniqueHashes, Inserts, add_to_tree-Inserts}

module _ (m : Memory) (t : BlockTree) (p b : ℕ) (old : p < t.next_node) where
  -- The old nodes keep their blocks, and the new one has its own.
  pub hash_at-attach_old : (n : ℕ) → n < t.next_node → hash_at m (attach t p b) n ≡ hash_at m t n
  unfolding attach
  hash_at-attach_old n l = ground arith

  pub hash_at-attach_new : hash_at m (attach t p b) t.next_node ≡ bytes_of (m.block_at b).block_hash
  unfolding attach
  hash_at-attach_new = ground arith

  next_node-attach : (attach t p b).next_node ≡ t.next_node + 1
  unfolding attach
  next_node-attach = refl

  pub attach-UniqueHashes :
      UniqueHashes m t
      → ((n : ℕ) → n < t.next_node → hash_at m t n ≢ bytes_of (m.block_at b).block_hash)
      → UniqueHashes m (attach t p b)
  attach-UniqueHashes u fresh i j li lj e = ground (
    arith,
    next_node-attach,
    hash_at-attach_new,
    hash_at-attach_old i,
    hash_at-attach_old j,
    u i j,
    fresh i,
    fresh j,
  )

-- A successful insertion keeps the tree's shape and keeps the hashes of its nodes apart, and the tree
-- has one node more.
pub add_to_tree-IsTree :
    (m : Memory) (t t' : BlockTree) (parent_hash : Bytes) (b : ℕ)
    → IsTree t
    → UniqueHashes m t
    → add_to_tree m t parent_hash b ≡ ok t'
    → IsTree t' × UniqueHashes m t' × (t'.size ≡ t.size + 1)
add_to_tree-IsTree m t t' parent_hash b h u e = go (add_to_tree-Inserts m t parent_hash b h)
  where
    grown : (p : ℕ) → add_to_tree m t parent_hash b ≡ ok (attach t p b) → attach t p b ≡ t'
    grown p x = ground arith

    one_more : (p : ℕ) → (attach t p b).size ≡ t.size + 1
    one_more p = unfold attach in refl

    go :
        Inserts m t parent_hash b (add_to_tree m t parent_hash b)
        → IsTree t' × UniqueHashes m t' × (t'.size ≡ t.size + 1)
    go (inl (x, _)) = ground arith
    go (inr (inl (x, _))) = ground arith
    go (inr (inr (p, x, old, _, fresh))) =
        subst (λ s. IsTree s × UniqueHashes m s × (s.size ≡ t.size + 1)) (grown p x)
          (attach-IsTree t p b h old, attach-UniqueHashes m t p b old u fresh, one_more p)
