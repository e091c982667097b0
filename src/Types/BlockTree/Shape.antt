-- ===== src/Types/BlockTree/Shape.antt =====
-- The shape of the tree that the operations build: nodes are numbered in the order of insertion.
use obrs.Prelude.{
  ℕ, ◌+◌, ◌<◌, ◌≡◌, refl, ap, true, false, none, some, [], ◌∷◌, arith, ◌==◌, Bool-cases, inl, inr,
  holds, Distinct, Distinct-append, holds-append,
}
use obrs.Types.BlockTree.{BlockTree, new_block_tree, attach}

-- Every node but the root hangs under an older node, which lists it once and lists nothing else.
pub record IsTree (t : BlockTree) : Type 0 where
  pub root_first : t.root ≡ 0
  pub some_node : 0 < t.next_node
  pub counted : t.size ≡ t.next_node
  pub root_parent : (t.node_at 0).parent ≡ none
  pub parent_of :
      (n : ℕ)
      → 0 < n
      → n < t.next_node
      → (p : ℕ) × ((t.node_at n).parent ≡ some p)
        × (p < n)
        × (holds (t.node_at p).children n ≡ true)
  pub child_of :
      (n c : ℕ)
      → n < t.next_node
      → holds (t.node_at n).children c ≡ true
      → (c < t.next_node) × ((t.node_at c).parent ≡ some n)
  pub listed_once : (n : ℕ) → n < t.next_node → Distinct (t.node_at n).children

pub new_block_tree-IsTree : (b : ℕ) → IsTree (new_block_tree b)
unfolding new_block_tree
new_block_tree-IsTree b = record {
  root_first = refl;
  some_node = omega arith;
  counted = refl;
  root_parent = refl;
  parent_of = λ n p l. absurd (omega arith);
  child_of = λ n c l h. cc;
  listed_once = λ n l. tt;
}

module _ (t : BlockTree) (p b : ℕ) (h : IsTree t) (old : p < t.next_node) where
  -- No node lists the address that the next node takes.
  not_child : (n : ℕ) → n < t.next_node → holds (t.node_at n).children t.next_node ≡ false
  not_child n l = elim (Bool-cases (holds (t.node_at n).children t.next_node)) [
    | inl listed ↦ absurd (omega (arith, (h.child_of n t.next_node l listed).0))
    | inr unlisted ↦ unlisted
  ]

  attach-parent_of :
      (n : ℕ)
      → 0 < n
      → n < t.next_node + 1
      → (q : ℕ) × (((attach t p b).node_at n).parent ≡ some q)
        × (q < n)
        × (holds ((attach t p b).node_at q).children n ≡ true)
  unfolding attach
  attach-parent_of n pos l = elim (Bool-cases (n == t.next_node)) [
    | inl new ↦ (
      p,
      ground arith,
      ground arith,
      ground (arith, holds-append (t.node_at p).children (t.next_node ∷ []) n),
    )
    | inr older ↦
        let (q, e, lt, m) = h.parent_of n pos (ground arith) in
        (
          q,
          ground arith,
          lt,
          ground (arith, holds-append (t.node_at p).children (t.next_node ∷ []) n),
        )
  ]

  attach-child_of :
      (n c : ℕ)
      → n < t.next_node + 1
      → holds ((attach t p b).node_at n).children c ≡ true
      → (c < t.next_node + 1) × (((attach t p b).node_at c).parent ≡ some n)
  unfolding attach
  attach-child_of n c l m = ground (
    arith,
    holds-append (t.node_at p).children (t.next_node ∷ []) c,
    h.child_of p c old,
    h.child_of n c,
  )

  attach-listed_once : (n : ℕ) → n < t.next_node + 1 → Distinct ((attach t p b).node_at n).children
  unfolding attach
  attach-listed_once n l = elim (Bool-cases (n == p)) [
    | inl here ↦ rw here (
        Distinct-append (t.node_at p).children (t.next_node ∷ []) (h.listed_once p old) (refl, tt)
          (λ a m. ground (arith, h.child_of p a old m)))
    | inr there ↦ rw there (elim (Bool-cases (n == t.next_node)) [
      | inl new ↦ rw new tt
      | inr older ↦ rw older (h.listed_once n (ground arith))
    ])
  ]

  pub attach-IsTree : IsTree (attach t p b)
  unfolding attach
  attach-IsTree = record {
    root_first = h.root_first;
    some_node = omega arith;
    counted = ap (λ n. n + 1) h.counted;
    root_parent = ground (arith, h.root_parent, h.some_node);
    parent_of = attach-parent_of;
    child_of = attach-child_of;
    listed_once = attach-listed_once;
  }
