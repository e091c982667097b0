-- ===== src/Types/BlockTree/Search.antt =====
-- The query by hash of types/block_tree.go, and the insertion.
use obrs.Prelude.{
  ℕ, zero, suc, ◌+◌, ◌<◌, ◌≡◌, ◌≢◌, refl, sym, subst, Bool, true, false, ◌⊎◌, List, [], ◌∷◌, ◌++◌,
  arith, ◌==◌, ==_iff, Bool-cases, inl, inr,
}
use obrs.Prelude.Bytes.{Bytes, bytes_equal, bytes_equal_iff, bytes_of}
use obrs.Prelude.Outcome.{Outcome, ok, err, no_query_block, duplicated_block}
use obrs.Types.Memory.{Memory, write}
use obrs.Types.BlockTree.{
  BlockTree, hash_at, query_from, query_node_by_hash, attach, add_to_tree, attach_new, attach_under,
}
use obrs.Types.BlockTree.Shape.{IsTree}
use obrs.Types.BlockTree.Frontier.{
  Frontier, unseen, start-Frontier, next-Frontier, unseen_below, unseen_below-unseen,
  unseen_below-write, empty-Frontier, children_of,
}

module _ (m : Memory) (t : BlockTree) (hash : Bytes) where
  -- A node of the tree with the hash.
  abbrev pub Holder : ℕ → Type 0
  Holder n = (n < t.next_node) × (hash_at m t n ≡ hash)

  -- A query either gives a holder of the hash, or fails where no node among the given ones holds it.
  abbrev pub Answers : (ℕ → Bool) → Outcome ℕ → Type 0
  Answers seen r =
      ((n : ℕ) × (r ≡ ok n) × Holder n)
      ⊎ ((r ≡ err no_query_block)
          × ((n : ℕ) → n < t.next_node → seen n ≡ false → hash_at m t n ≢ hash))

  widen :
      (cur : ℕ) (seen : ℕ → Bool) (r : Outcome ℕ)
      → hash_at m t cur ≢ hash
      → Answers (write seen cur true) r
      → Answers seen r
  widen cur seen r differs (inl found) = inl found
  widen cur seen r differs (inr (e, g)) = inr (e, none_else)
    where
      none_else : (n : ℕ) → n < t.next_node → seen n ≡ false → hash_at m t n ≢ hash
      none_else n b new = elim (Bool-cases (n == cur)) [
        | inl same ↦ subst (λ x. hash_at m t x ≢ hash) (sym ((==_iff n cur).0 same)) differs
        | inr other ↦ g n b (ground arith)
      ]

  query_from-Answers :
      (fuel : ℕ) (seen : ℕ → Bool) (queue : List ℕ)
      → IsTree t
      → Frontier t seen queue
      → unseen_below seen t.next_node < fuel
      → Answers seen (query_from fuel m t hash queue)
  unfolding query_from
  query_from-Answers zero seen queue h f l = elim l [ ]
  query_from-Answers (suc fuel) seen [] h f l = inr (refl, λ n b new. absurd (seen_all n b new))
    where
      seen_all : (n : ℕ) → n < t.next_node → seen n ≡ false → ⊥
      seen_all n b new = ground (arith, empty-Frontier t seen h f (suc n) n (omega arith) b)
  query_from-Answers (suc fuel) seen (cur ∷ queue) h f l =
      elim (Bool-cases (bytes_equal hash (hash_at m t cur))) [
        | inl here ↦ rw here (inl (cur, refl, (f.bounded.0, sym ((bytes_equal_iff hash _).0 here))))
        | inr there ↦ rw there (
            widen cur seen _ (λ e. ground (arith, e, bytes_equal_iff hash (hash_at m t cur)))
              (query_from-Answers fuel (write seen cur true) (queue ++ children_of t cur) h
                (next-Frontier t h seen cur queue f)
                (omega (arith, unseen_below-write seen cur t.next_node f.bounded.0 f.fresh.0))))
      ]

  -- The query by hash ends; it gives a node with that hash, or fails and there is none in the tree.
  pub query_node_by_hash-Answers : IsTree t → Answers unseen (query_node_by_hash m t hash)
  unfolding query_node_by_hash
  query_node_by_hash-Answers h =
      query_from-Answers (t.size + 1) unseen (t.root ∷ []) h (start-Frontier t h)
        (omega (arith, unseen_below-unseen t.next_node, h.counted))

-- No two nodes of the tree hold blocks with one hash.
abbrev pub UniqueHashes : Memory → BlockTree → Type 0
UniqueHashes m t =
    (i j : ℕ) → i < t.next_node → j < t.next_node → hash_at m t i ≡ hash_at m t j → i ≡ j

-- What an insertion does, by whether the parent's hash and the block's are in the tree.
abbrev pub Inserts : Memory → BlockTree → Bytes → ℕ → Outcome BlockTree → Type 0
Inserts m t parent_hash b r =
    ((r ≡ err no_query_block) × ((n : ℕ) → n < t.next_node → hash_at m t n ≢ parent_hash))
    ⊎ ((r ≡ err duplicated_block)
        × ((n : ℕ) × (n < t.next_node) × (hash_at m t n ≡ bytes_of (m.block_at b).block_hash)))
    ⊎ ((p : ℕ) × (r ≡ ok (attach t p b))
        × (p < t.next_node)
        × (hash_at m t p ≡ parent_hash)
        × ((n : ℕ) → n < t.next_node → hash_at m t n ≢ bytes_of (m.block_at b).block_hash))

module _ (m : Memory) (t : BlockTree) (parent_hash : Bytes) (b : ℕ) (h : IsTree t) where
  -- The second query, for the block's own hash.
  under_parent :
      (p : ℕ)
      → Holder m t parent_hash p
      → Answers m t
          (bytes_of (m.block_at b).block_hash)
          unseen
          (query_node_by_hash m t (bytes_of (m.block_at b).block_hash))
      → Inserts m t parent_hash b (attach_under m t b (ok p))
  unfolding attach_under
  under_parent p held (inl (n, e, other)) =
      rw (e, attach_new) (inr (inl (refl, (n, other.0, other.1))))
  under_parent p held (inr (e, fresh)) =
      rw (e, attach_new) (inr (inr (p, refl, held.0, held.1, λ n l. fresh n l refl)))

  -- An insertion never panics: it fails if no node holds the parent's hash, fails if some node holds
  -- the block's own hash, and otherwise hangs the block under a node that holds the parent's hash.
  pub add_to_tree-Inserts : Inserts m t parent_hash b (add_to_tree m t parent_hash b)
  unfolding add_to_tree
  add_to_tree-Inserts = elim (query_node_by_hash-Answers m t parent_hash h) [
    | inl (p, e, held) ↦ rw e (
        under_parent p held (query_node_by_hash-Answers m t (bytes_of (m.block_at b).block_hash) h))
    | inr (e, missing) ↦ rw (e, attach_under) (inl (refl, λ n l. missing n l refl))
  ]
