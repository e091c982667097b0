-- ===== src/Types/BlockTree/Ancestors.antt =====
-- isAncestor of types/block_tree.go.
use obrs.Prelude.{
  ℕ, zero, suc, ◌+◌, ◌<◌, ◌≡◌, ◌≢◌, refl, ap, subst, Bool, true, false, ◌⊎◌, none, some, arith,
  ◌==◌, ==_iff, Bool-cases, Option-cases, inl, inr,
}
use obrs.Prelude.Outcome.{Outcome, ok}
use obrs.Types.BlockTree.{BlockTree, ancestor_from, is_ancestor}
use obrs.Types.BlockTree.Shape.{IsTree}

-- The node is reached from the other by one or more steps to the parent.
pub data Above (t : BlockTree) (node : ℕ) : ℕ → Type 0 where
  direct : {other : ℕ} → (t.node_at other).parent ≡ some node → Above t node other
  further : {other p : ℕ} → (t.node_at other).parent ≡ some p → Above t node p → Above t node other

module _ (t : BlockTree) (node : ℕ) where
  -- A decision whether a node, given by its parent, stands below.
  abbrev pub Decides : ℕ → Outcome Bool → Type 0
  Decides other r = ((r ≡ ok true) × Above t node other) ⊎ ((r ≡ ok false) × ¬ Above t node other)

  no_parent : (n : ℕ) → (t.node_at n).parent ≡ none → ¬ Above t node n
  no_parent n e (direct x) = ground arith
  no_parent n e (further x a) = ground arith

  other_parent :
      (n p : ℕ) → (t.node_at n).parent ≡ some p → p ≢ node → ¬ Above t node p → ¬ Above t node n
  other_parent n p e differs no_above (direct x) = ground arith
  other_parent n p e differs no_above (further {p = q} x a) =
      let same : q ≡ p = ground arith in no_above (subst (Above t node) same a)

  parent_step :
      (n p : ℕ) (r : Outcome Bool)
      → (t.node_at n).parent ≡ some p
      → p ≢ node
      → Decides p r
      → Decides n r
  parent_step n p r e differs (inl (x, a)) = inl (x, further e a)
  parent_step n p r e differs (inr (x, a)) = inr (x, other_parent n p e differs a)

-- A parent is older than its child.
pub parent_below :
    (t : BlockTree) (n p : ℕ) → IsTree t → n < t.next_node → (t.node_at n).parent ≡ some p → p < n
parent_below t zero p h l e = ground (arith, h.root_parent)
parent_below t (suc n) p h l e =
    let (q, x, lt, _) = h.parent_of (suc n) (omega arith) l in
    let same : q ≡ p = ground arith in omega arith

module _ (t : BlockTree) (node : ℕ) (h : IsTree t) where
  ancestor_from-Decides :
      (fuel n : ℕ)
      → n < t.next_node
      → n < fuel + 1
      → Decides t node n (ancestor_from fuel t node (t.node_at n).parent)
  unfolding ancestor_from
  ancestor_from-Decides zero n l f =
      let top : (t.node_at n).parent ≡ none = at_root n (omega arith) in
      rw top (inr (refl, no_parent t node n top))
    where
      at_root : (k : ℕ) → k ≡ 0 → (t.node_at k).parent ≡ none
      at_root k e = rw e h.root_parent
  ancestor_from-Decides (suc fuel) n l f = elim (Option-cases (t.node_at n).parent) [
    | inl top ↦ rw top (inr (refl, no_parent t node n top))
    | inr (p, up) ↦ rw up (elim (Bool-cases (p == node)) [
      | inl here ↦ rw here (inl (refl, direct (rw up (ap some ((==_iff p node).0 here)))))
      | inr there ↦ rw there (
          parent_step t node n p _ up (λ e. ground arith)
            (ancestor_from-Decides fuel p (omega (arith, parent_below t n p h l up))
              (omega (arith, parent_below t n p h l up))))
    ])
  ]

  -- The walk to the root ends, and answers whether the node is an ancestor of the other.
  pub is_ancestor-Decides :
      (other : ℕ) → other < t.next_node → Decides t node other (is_ancestor t node other)
  unfolding is_ancestor
  is_ancestor-Decides other l = ancestor_from-Decides t.size other l (omega (arith, h.counted))
