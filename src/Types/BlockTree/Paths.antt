-- ===== src/Types/BlockTree/Paths.antt =====
-- GetBlockByFilter of types/block_tree.go: the uncommitted blocks on the way up from a block.
use obrs.Prelude.{
  ℕ, zero, suc, ◌<◌, ◌≡◌, ◌≢◌, refl, subst, ◌⊎◌, Bool, Option, none, some, List, [], ◌∷◌, arith,
  ◌==◌, ==_iff, Bool-cases, inl, inr, map, keep,
}
use obrs.Prelude.Bytes.{Bytes}
use obrs.Prelude.Outcome.{ok}
use obrs.Types.Block.{Block, committed_block}
use obrs.Types.Memory.{Memory}
use obrs.Types.BlockTree.{
  BlockTree, block_of, hash_at, path_from, filtered_path, get_block_by_filter,
}
use obrs.Types.BlockTree.Shape.{IsTree}
use obrs.Types.BlockTree.Ancestors.{parent_below}
use obrs.Types.BlockTree.Search.{query_node_by_hash-Answers}

-- The nodes from one up to a committed one, which is left out, or to the root.
abbrev pub Uncommitted : Memory → BlockTree → Option ℕ → List ℕ → Type 0
Uncommitted m t o [] =
    (o ≡ none) ⊎ ((n : ℕ) × (o ≡ some n) × ((block_of m t n).block_state ≡ committed_block))
Uncommitted m t o (n ∷ ns) =
    (o ≡ some n)
    × ((block_of m t n).block_state ≢ committed_block)
    × Uncommitted m t (t.node_at n).parent ns

module _ (m : Memory) (t : BlockTree) (filter : Block → Bool) (h : IsTree t) where
  -- The blocks of the nodes that the filter takes.
  abbrev pub taken : List ℕ → List ℕ
  taken ns = map (λ n. (t.node_at n).block) (keep (λ n. filter (block_of m t n)) ns)

  walk :
      (fuel : ℕ) (o : Option ℕ)
      → ((n : ℕ) → o ≡ some n → (n < t.next_node) × (n < fuel))
      → (ns : List ℕ) × Uncommitted m t o ns × (path_from fuel m t filter o ≡ ok (taken ns))
  unfolding path_from
  walk fuel none b = ([], inl refl, refl)
  walk zero (some n) b = elim (b n refl).1 [ ]
  walk (suc fuel) (some n) b = elim (Bool-cases ((block_of m t n).block_state == committed_block)) [
    | inl done ↦ ([], inr (n, refl, (==_iff _ _).0 done), rw done refl)
    | inr more ↦
        let (ns, u, e) = walk fuel (t.node_at n).parent (λ p x. above p x) in
        (
          n ∷ ns,
          (refl, λ x. ground arith, u),
          rw more (elim (Bool-cases (filter (block_of m t n))) [
            | inl takes ↦ rw takes (rw e refl)
            | inr skips ↦ rw skips e
          ]),
        )
  ]
    where
      above : (p : ℕ) → (t.node_at n).parent ≡ some p → (p < t.next_node) × (p < fuel)
      above p x =
          let (l, f) = b n refl in let lt = parent_below t n p h l x in (omega arith, omega arith)

  -- GetBlockByFilter ends, and gives the blocks that the filter takes on the way from the block of a hash
  -- up to a committed one or the root, or none where the tree does not hold the hash.
  pub get_block_by_filter-Uncommitted :
      (hash : Bytes)
      → ((n : ℕ) × (n < t.next_node)
          × (hash_at m t n ≡ hash)
          × ((ns : List ℕ) × Uncommitted m t (some n) ns
              × (get_block_by_filter m t hash filter ≡ ok (taken ns))))
        ⊎ (((n : ℕ) → n < t.next_node → hash_at m t n ≢ hash)
            × (get_block_by_filter m t hash filter ≡ ok []))
  unfolding get_block_by_filter filtered_path
  get_block_by_filter-Uncommitted hash = elim (query_node_by_hash-Answers m t hash h) [
    | inr (e, missing) ↦ inr (λ n l. missing n l refl, rw e refl)
    | inl (n, e, held) ↦
        let (ns, u, w) = walk t.size (some n) (λ k x.
          let same : n ≡ k = ground arith in
          (
            subst (λ j. j < t.next_node) same held.0,
            subst (λ j. j < t.size) same (omega (arith, h.counted, held.0)),
          )) in
        inl (n, held.0, held.1, (ns, u, rw e w))
  ]
