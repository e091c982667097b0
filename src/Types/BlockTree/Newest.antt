-- ===== src/Types/BlockTree/Newest.antt =====
-- GetLatestBlock: the precommit block of the greatest slot, and the latest block among it and its
-- descendants.
use obrs.Prelude.{
  ℕ, zero, suc, ◌+◌, ◌<◌, ◌≡◌, refl, sym, subst, Bool, true, ◌⊎◌, List, [], ◌∷◌, ◌++◌, arith, ◌==◌,
  ==_iff, Bool-cases, inl, inr,
}
use obrs.Prelude.Int.{◌≤ℤ◌}
use obrs.Prelude.Outcome.{ok}
use obrs.Types.Ltime.{LTime, greater}
use obrs.Types.Block.{precommit_block}
use obrs.Types.Memory.{Memory, write}
use obrs.Types.BlockTree.{
  BlockTree, Latest, block_of, is_newer_precommit, visit, latest_from, get_latest_block,
}
use obrs.Types.BlockTree.Shape.{IsTree}
use obrs.Types.BlockTree.Ancestors.{Above, direct, further, is_ancestor-Decides}
use obrs.Types.BlockTree.Frontier.{
  Frontier, unseen, start-Frontier, next-Frontier, unseen_below, unseen_below-unseen,
  unseen_below-write, empty-Frontier, children_of,
}

module _ (m : Memory) (t : BlockTree) where
  abbrev pub slot_of : ℕ → LTime
  slot_of n = (block_of m t n).slot

  abbrev pub IsPrecommit : ℕ → Type 0
  IsPrecommit n = (block_of m t n).block_state ≡ precommit_block

  -- The precommit node p and the latest node n, against the nodes of a set.
  pub record Best (seen : ℕ → Bool) (p n : ℕ) : Type 0 where
    pub anchor : (p ≡ t.root) ⊎ IsPrecommit p
    pub anchor_node : p < t.next_node
    pub greatest : (c : ℕ) → seen c ≡ true → IsPrecommit c → slot_of c ≤ℤ slot_of p
    pub below : (n ≡ p) ⊎ Above t p n
    pub not_before : slot_of p ≤ℤ slot_of n
    pub latest : (d : ℕ) → seen d ≡ true → Above t p d → slot_of d ≤ℤ slot_of n

  -- What the block of node n is in the whole tree, with p the node that it was chosen below.
  pub record Chosen (p n : ℕ) : Type 0 where
    pub anchor : (p ≡ t.root) ⊎ IsPrecommit p
    pub greatest : (c : ℕ) → c < t.next_node → IsPrecommit c → slot_of c ≤ℤ slot_of p
    pub below : (n ≡ p) ⊎ Above t p n
    pub not_before : slot_of p ≤ℤ slot_of n
    pub latest : (d : ℕ) → d < t.next_node → Above t p d → slot_of d ≤ℤ slot_of n

  -- A node whose descendant has been seen has been seen.
  seen_older :
      (seen : ℕ → Bool) (queue : List ℕ) (p d : ℕ)
      → Frontier t seen queue
      → seen d ≡ true
      → Above t p d
      → seen p ≡ true
  seen_older seen queue p d f s (direct e) = f.parents d p (ground arith) e
  seen_older seen queue p d f s (further {p = q} e a) =
      seen_older seen queue p q f (f.parents d q (ground arith) e) a

  module _ (seen : ℕ → Bool) (cur : ℕ) (queue : List ℕ) (f : Frontier t seen (cur ∷ queue))
      (p n : ℕ) (b : Best seen p n) where
    -- What holds of the current node and of those seen before holds of those seen now.
    marked {κ} :
        (Q : ℕ → Type κ)
        → Q cur
        → ((c : ℕ) → seen c ≡ true → Q c)
        → (c : ℕ) → write seen cur true c ≡ true
        → Q c
    marked Q q old c e = elim (Bool-cases (c == cur)) [
      | inl here ↦ subst Q (sym ((==_iff c cur).0 here)) q
      | inr there ↦ old c (ground arith)
    ]

    new_precommit : IsPrecommit cur → slot_of p ≤ℤ slot_of cur → Best (write seen cur true) cur cur
    new_precommit pre le = record {
      anchor = inr pre;
      anchor_node = f.bounded.0;
      greatest =
          marked (λ c. IsPrecommit c → slot_of c ≤ℤ slot_of cur) (λ _. omega arith)
            (λ c s q. omega (arith, b.greatest c s q));
      below = inl refl;
      not_before = omega arith;
      latest =
          marked (λ d. Above t cur d → slot_of d ≤ℤ slot_of cur) (λ _. omega arith)
            (λ d s a. ground (arith, seen_older seen (cur ∷ queue) cur d f s a, f.fresh.0));
    }

    new_latest :
        (IsPrecommit cur → slot_of cur ≤ℤ slot_of p)
        → slot_of n ≤ℤ slot_of cur
        → Above t p cur
        → Best (write seen cur true) p cur
    new_latest older le a = record {
      anchor = b.anchor;
      anchor_node = b.anchor_node;
      greatest = marked (λ c. IsPrecommit c → slot_of c ≤ℤ slot_of p) older b.greatest;
      below = inr a;
      not_before = omega (arith, b.not_before);
      latest =
          marked (λ d. Above t p d → slot_of d ≤ℤ slot_of cur) (λ _. omega arith)
            (λ d s q. omega (arith, b.latest d s q));
    }

    same_latest :
        (IsPrecommit cur → slot_of cur ≤ℤ slot_of p)
        → (Above t p cur → slot_of cur ≤ℤ slot_of n)
        → Best (write seen cur true) p n
    same_latest older no_later = record {
      anchor = b.anchor;
      anchor_node = b.anchor_node;
      greatest = marked (λ c. IsPrecommit c → slot_of c ≤ℤ slot_of p) older b.greatest;
      below = b.below;
      not_before = b.not_before;
      latest = marked (λ d. Above t p d → slot_of d ≤ℤ slot_of n) no_later b.latest;
    }

  abbrev at : ℕ → ℕ → Latest
  at p n = record { last_precommit = p; last_slot_block = (t.node_at n).block }

  -- A round keeps the best pair best.
  visit-Best :
      (seen : ℕ → Bool) (cur : ℕ) (queue : List ℕ) (p n : ℕ)
      → IsTree t
      → Frontier t seen (cur ∷ queue)
      → Best seen p n
      → (p' n' : ℕ) × (visit m t cur (at p n) ≡ ok (at p' n')) × Best (write seen cur true) p' n'
  unfolding visit
  visit-Best seen cur queue p n h f b = elim (Bool-cases (is_newer_precommit m t (at p n) cur)) [
    | inl newer ↦
        (cur, cur, rw newer, new_precommit seen cur queue f p n b (ground arith) (ground arith))
    | inr older ↦ elim (Bool-cases (greater (slot_of cur) (slot_of n))) [
      | inr earlier ↦ (
        p,
        n,
        rw (older, earlier),
        same_latest seen cur queue f p n b (λ q. ground arith) (λ _. ground arith),
      )
      | inl later ↦ elim (is_ancestor-Decides t p h cur f.bounded.0) [
        | inl (e, a) ↦ (
          p,
          cur,
          rw (older, later, e),
          new_latest seen cur queue f p n b (λ q. ground arith) (ground arith) a,
        )
        | inr (e, not_above) ↦ (
          p,
          n,
          rw (older, later, e),
          same_latest seen cur queue f p n b (λ q. ground arith) (λ a. absurd (not_above a)),
        )
      ]
    ]
  ]

  chosen : (seen : ℕ → Bool) (p n : ℕ) → IsTree t → Frontier t seen [] → Best seen p n → Chosen p n
  chosen seen p n h f b = record {
    anchor = b.anchor;
    greatest = λ c l q. b.greatest c (empty-Frontier t seen h f (suc c) c (omega arith) l) q;
    below = b.below;
    latest = λ d l a. b.latest d (empty-Frontier t seen h f (suc d) d (omega arith) l) a;
    not_before = b.not_before;
  }

  latest_from-Best :
      (fuel : ℕ) (seen : ℕ → Bool) (queue : List ℕ) (p n : ℕ)
      → IsTree t
      → Frontier t seen queue
      → Best seen p n
      → unseen_below seen t.next_node < fuel
      → (p' n' : ℕ) × (latest_from fuel m t queue (at p n) ≡ ok (t.node_at n').block) × Chosen p' n'
  unfolding latest_from
  latest_from-Best zero seen queue p n h f b l = elim l [ ]
  latest_from-Best (suc fuel) seen [] p n h f b l = (p, n, refl, chosen seen p n h f b)
  latest_from-Best (suc fuel) seen (cur ∷ queue) p n h f b l =
      let (p', n', e, b') = visit-Best seen cur queue p n h f b in
      let (p'', n'', e', b'') =
        latest_from-Best fuel (write seen cur true) (queue ++ children_of t cur) p' n' h
          (next-Frontier t h seen cur queue f) b'
          (omega (arith, unseen_below-write seen cur t.next_node f.bounded.0 f.fresh.0)) in
      (p'', n'', rw e e', b'')

  -- The search for the latest block ends. It gives the block of a node n for a node p such that p is
  -- the root or a precommit node, no precommit node has a greater slot than p, n is p or below p, and
  -- neither p nor a node below p has a greater slot than n.
  pub get_latest_block-Chosen :
      IsTree t → (p n : ℕ) × (get_latest_block m t ≡ ok (t.node_at n).block) × Chosen p n
  unfolding get_latest_block
  get_latest_block-Chosen h =
      latest_from-Best (t.size + 1) unseen (t.root ∷ []) t.root t.root h (start-Frontier t h)
        (record {
          anchor = inl refl;
          anchor_node = ground (arith, h.root_first, h.some_node);
          greatest = λ c s. cc;
          below = inl refl;
          not_before = omega arith;
          latest = λ d s. cc;
        })
        (omega (arith, unseen_below-unseen t.next_node, h.counted))
