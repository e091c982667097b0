-- ===== src/Types/BlockTree/Traversal.antt =====
-- ForEach of types/block_tree.go.
use obrs.Prelude.{
  ℕ, zero, suc, ◌+◌, ◌<◌, ◌≡◌, refl, Bool, true, false, List, [], ◌∷◌, ◌++◌, arith, Bool-cases, inl,
  inr, map, All, All-map, holds, Distinct, holds-of-All,
}
use obrs.Prelude.Outcome.{ok}
use obrs.Types.Memory.{write}
use obrs.Types.BlockTree.{BlockTree, each_from, for_each}
use obrs.Types.BlockTree.Shape.{IsTree}
use obrs.Types.BlockTree.Frontier.{
  Frontier, unseen, start-Frontier, next-Frontier, unseen_below, unseen_below-unseen,
  unseen_below-write, empty-Frontier, children_of,
}

-- A list of nodes that holds each of those not seen yet, once, and no other.
pub record Rest (t : BlockTree) (seen : ℕ → Bool) (ns : List ℕ) : Type 0 where
  pub distinct : Distinct ns
  pub nodes : All (λ n. n < t.next_node) ns
  pub fresh : All (λ n. seen n ≡ false) ns
  pub complete : (n : ℕ) → n < t.next_node → seen n ≡ false → holds ns n ≡ true

module _ (t : BlockTree) (h : IsTree t) where
  blocks_at : List ℕ → List ℕ
  blocks_at ns = map (λ n. (t.node_at n).block) ns

  none_left :
      (seen : ℕ → Bool) (n : ℕ)
      → Frontier t seen []
      → n < t.next_node
      → seen n ≡ false
      → holds [] n ≡ true
  none_left seen n f b new = ground (arith, empty-Frontier t seen h f (suc n) n (omega arith) b)

  cons-Rest :
      (seen : ℕ → Bool) (cur : ℕ) (ns : List ℕ)
      → cur < t.next_node
      → seen cur ≡ false
      → Rest t (write seen cur true) ns
      → Rest t seen (cur ∷ ns)
  cons-Rest seen cur ns b new r = record {
    distinct = (once, r.distinct);
    nodes = (b, r.nodes);
    fresh = (new, All-map _ _ ns (λ n e. ground arith) r.fresh);
    complete = λ n l e. ground (arith, r.complete n l);
  }
    where
      once : holds ns cur ≡ false
      once = elim (Bool-cases (holds ns cur)) [
        | inr absent ↦ absent
        | inl listed ↦
            let e : write seen cur true cur ≡ false = holds-of-All _ ns cur r.fresh listed in
            ground arith
      ]

  each_from-Rest :
      (fuel : ℕ) (seen : ℕ → Bool) (queue : List ℕ)
      → Frontier t seen queue
      → unseen_below seen t.next_node < fuel
      → (ns : List ℕ) × (each_from fuel t queue ≡ ok (blocks_at ns)) × Rest t seen ns
  unfolding each_from blocks_at
  each_from-Rest zero seen queue f l = elim l [ ]
  each_from-Rest (suc fuel) seen [] f l = (
    [],
    refl,
    record { distinct = tt; nodes = tt; fresh = tt; complete = λ n. none_left seen n f },
  )
  each_from-Rest (suc fuel) seen (cur ∷ queue) f l =
      let (ns, e, r) =
        each_from-Rest fuel (write seen cur true) (queue ++ children_of t cur)
          (next-Frontier t h seen cur queue f)
          (omega (arith, unseen_below-write seen cur t.next_node f.bounded.0 f.fresh.0)) in
      (cur ∷ ns, rw e, cons-Rest seen cur ns f.bounded.0 f.fresh.0 r)

  -- The traversal ends, and visits the block of every node of the tree, each node exactly once.
  pub for_each-Rest :
      (ns : List ℕ) × (for_each t ≡ ok (map (λ n. (t.node_at n).block) ns))
      × Distinct ns
      × All (λ n. n < t.next_node) ns
      × ((n : ℕ) → n < t.next_node → holds ns n ≡ true)
  unfolding for_each blocks_at
  for_each-Rest =
      let (ns, e, r) =
        each_from-Rest (t.size + 1) unseen (t.root ∷ []) (start-Frontier t h)
          (omega (arith, unseen_below-unseen t.next_node, h.counted)) in
      (ns, e, r.distinct, r.nodes, λ n l. r.complete n l refl)
