-- ===== src/Types/BlockTree/Frontier.antt =====
-- Breadth first search over the tree: what the nodes seen and the nodes waiting have in common, at
-- every round of each loop over a queue.
use obrs.Prelude.{
  ℕ, zero, suc, ◌+◌, ◌≤◌, ◌<◌, ◌≡◌, refl, subst, Bool, true, false, ◌||◌, some, List, [], ◌∷◌, ◌++◌,
  arith, ◌==◌, ==_iff, if◌then◌else◌, Bool-cases, inl, inr, All, All-append, All-of-holds,
  holds-of-All, holds, Distinct, Distinct-append, holds-append,
}
use obrs.Types.Memory.{write}
use obrs.Types.BlockTree.{BlockTree}
use obrs.Types.BlockTree.Shape.{IsTree}

abbrev pub children_of : BlockTree → ℕ → List ℕ
children_of t n = (t.node_at n).children

pub record Frontier (t : BlockTree) (seen : ℕ → Bool) (queue : List ℕ) : Type 0 where
  pub bounded : All (λ n. n < t.next_node) queue
  pub fresh : All (λ n. seen n ≡ false) queue
  pub distinct : Distinct queue
  pub parents :
      (n p : ℕ) → (seen n || holds queue n) ≡ true → (t.node_at n).parent ≡ some p → seen p ≡ true
  pub closed :
      (n c : ℕ)
      → n < t.next_node
      → seen n ≡ true
      → holds (children_of t n) c ≡ true
      → (seen c || holds queue c) ≡ true
  pub rooted : (seen 0 || holds queue 0) ≡ true

abbrev pub unseen : ℕ → Bool
unseen n = false

pub start-Frontier : (t : BlockTree) → IsTree t → Frontier t unseen (t.root ∷ [])
start-Frontier t h = rw h.root_first (record {
  bounded = (h.some_node, tt);
  fresh = (refl, tt);
  distinct = (refl, tt);
  parents = λ n p q e. ground (arith, h.root_parent);
  closed = λ n c l s m. cc;
  rooted = refl;
})

module _ (t : BlockTree) (h : IsTree t) (seen : ℕ → Bool) (cur : ℕ) (queue : List ℕ)
    (f : Frontier t seen (cur ∷ queue)) where
  -- A child of the current node is neither seen nor waiting.
  child_is_new :
      (c : ℕ)
      → holds (children_of t cur) c ≡ true
      → (seen c ≡ false) × ((c == cur) ≡ false) × (holds queue c ≡ false)
  child_is_new c m = ground (arith, h.child_of cur c f.bounded.0 m, f.parents c cur, f.fresh.0)

  queue_is_other : (n : ℕ) → holds queue n ≡ true → (n == cur) ≡ false
  queue_is_other n m = elim (Bool-cases (n == cur)) [
    | inr other ↦ other
    | inl same ↦ absurd (no_both (subst (λ x. holds queue x ≡ true) ((==_iff n cur).0 same) m))
  ]
    where
      no_both : holds queue cur ≡ true → ⊥
      no_both waiting = ground (arith, f.distinct.0)

  pub next-Frontier : Frontier t (write seen cur true) (queue ++ children_of t cur)
  next-Frontier = record {
    bounded =
        All-append _ queue (children_of t cur) f.bounded.1
          (All-of-holds _ (children_of t cur) (λ c m. (h.child_of cur c f.bounded.0 m).0));
    fresh =
        All-append _ queue (children_of t cur)
          (All-of-holds _ queue
            (λ n m. ground (arith, queue_is_other n m, holds-of-All _ queue n f.fresh.1 m)))
          (All-of-holds _ (children_of t cur) (λ c m. ground (arith, child_is_new c m)));
    distinct =
        Distinct-append queue (children_of t cur) f.distinct.1 (h.listed_once cur f.bounded.0)
          (λ a m. ground (arith, child_is_new a));
    parents = λ n p q e. ground (
      arith,
      holds-append queue (children_of t cur) n,
      h.child_of cur n f.bounded.0,
      f.parents n p,
    );
    closed = λ n c l s m. ground (arith, holds-append queue (children_of t cur) c, f.closed n c l);
    rooted = ground (arith, holds-append queue (children_of t cur) 0, f.rooted);
  }

-- The nodes below a bound that are not seen yet: the rounds that are left.
pub unseen_below : (ℕ → Bool) → ℕ → ℕ
unseen_below seen zero = 0
unseen_below seen (suc k) = (if seen k then 0 else 1) + unseen_below seen k

pub unseen_below-unseen : (k : ℕ) → unseen_below unseen k ≡ k
unfolding unseen_below
unseen_below-unseen zero = refl
unseen_below-unseen (suc k) = omega (arith, unseen_below-unseen k)

above_unchanged :
    (seen : ℕ → Bool) (cur k : ℕ)
    → k ≤ cur
    → unseen_below (write seen cur true) k ≡ unseen_below seen k
unfolding unseen_below
above_unchanged seen cur zero l = refl
above_unchanged seen cur (suc k) l = ground (arith, above_unchanged seen cur k)

-- A round sees one node more.
pub unseen_below-write :
    (seen : ℕ → Bool) (cur k : ℕ)
    → cur < k
    → seen cur ≡ false
    → unseen_below seen k ≡ unseen_below (write seen cur true) k + 1
unfolding unseen_below
unseen_below-write seen cur zero l e = elim l [ ]
unseen_below-write seen cur (suc k) l e =
    ground (arith, unseen_below-write seen cur k, above_unchanged seen cur k)

-- When nothing waits any more, every node has been seen.
pub empty-Frontier :
    (t : BlockTree) (seen : ℕ → Bool)
    → IsTree t
    → Frontier t seen []
    → (k n : ℕ) → n < k
    → n < t.next_node
    → seen n ≡ true
empty-Frontier t seen h f zero n l b = elim l [ ]
empty-Frontier t seen h f (suc k) zero l b = ground (arith, f.rooted)
empty-Frontier t seen h f (suc k) (suc n) l b =
    let (p, e, lt, m) = h.parent_of (suc n) (omega arith) b in
    ground (
      arith,
      empty-Frontier t seen h f k p (omega arith) (omega arith),
      f.closed p (suc n) (omega arith),
    )
