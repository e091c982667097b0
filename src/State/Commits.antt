-- ===== src/State/Commits.antt =====
-- decideCommitBlocks: which blocks a ready block takes with it.
use obrs.Prelude.{
  ℕ, zero, suc, ◌+◌, ◌<◌, ◌≡◌, ◌≢◌, refl, ◌∙◌, ◌⊎◌, some, List, [], ◌∷◌, arith, ◌==◌, ==_iff,
  Bool-cases, inl, inr,
}
use obrs.Prelude.Bytes.{bytes_of}
use obrs.Prelude.Outcome.{ok, err, no_query_block}
use obrs.Types.Block.{committed_block}
use obrs.Types.Memory.{Memory}
use obrs.Types.BlockTree.{BlockTree, hash_at, query_block_by_hash}
use obrs.Types.BlockTree.Shape.{IsTree}
use obrs.Types.BlockTree.Search.{UniqueHashes, query_node_by_hash-Answers}
use obrs.Prelude.{All, reverse, ◌++◌, false, true, Option, none, ap, sym, subst}
use obrs.Prelude.Outcome.{>>=-eq-ok, ok-inj}
use obrs.State.{World, decide_commit_blocks, first_ready, ready, chain_to, uncommitted_above, go_on}

-- A block names its parent in the tree by hash, and the root is committed.
pub record IsLinked (m : Memory) (t : BlockTree) : Type 0 where
  pub shape : IsTree t
  pub unique : UniqueHashes m t
  pub parent_hash :
      (n p : ℕ)
      → n < t.next_node
      → (t.node_at n).parent ≡ some p
      → (m.block_at (t.node_at n).block).last_block_hash ≡ hash_at m t p
  pub root_committed : (m.block_at (t.node_at 0).block).block_state ≡ committed_block

-- Each block of the list holds the hash that the one before names, and is not committed; the last one
-- names a block that is committed or is not in the tree.
abbrev pub Climbs : Memory → BlockTree → ℕ → List ℕ → Type 0
Climbs m t b [] =
    ((n : ℕ) → n < t.next_node → hash_at m t n ≢ (m.block_at b).last_block_hash)
    ⊎ ((n : ℕ) × (n < t.next_node)
        × (hash_at m t n ≡ (m.block_at b).last_block_hash)
        × ((m.block_at (t.node_at n).block).block_state ≡ committed_block))
Climbs m t b (p ∷ ps) =
    (bytes_of (m.block_at p).block_hash ≡ (m.block_at b).last_block_hash)
    × ((m.block_at p).block_state ≢ committed_block)
    × Climbs m t p ps

module _ (m : Memory) (t : BlockTree) (l : IsLinked m t) where
  query_block-cases :
      (b : ℕ)
      → ((n : ℕ) × (query_block_by_hash m t (m.block_at b).last_block_hash ≡ ok (t.node_at n).block)
          × (n < t.next_node)
          × (hash_at m t n ≡ (m.block_at b).last_block_hash))
        ⊎ ((query_block_by_hash m t (m.block_at b).last_block_hash ≡ err no_query_block)
            × ((n : ℕ) → n < t.next_node → hash_at m t n ≢ (m.block_at b).last_block_hash))
  unfolding query_block_by_hash
  query_block-cases b =
      elim (query_node_by_hash-Answers m t (m.block_at b).last_block_hash l.shape) [
        | inl (n, e, held) ↦ inl (n, rw e, held.0, held.1)
        | inr (e, missing) ↦ inr (rw e, λ n lt. missing n lt refl)
      ]

  -- From a node of the tree the walk goes to older nodes only.
  older :
      (n p : ℕ)
      → n < t.next_node
      → p < t.next_node
      → (m.block_at (t.node_at n).block).block_state ≢ committed_block
      → hash_at m t p ≡ (m.block_at (t.node_at n).block).last_block_hash
      → p < n
  older zero p ln lp open' e = absurd (open' l.root_committed)
  older (suc n) p ln lp open' e =
      let (q, up, lt, _) = l.shape.parent_of (suc n) (omega arith) ln in
      let same : p ≡ q = l.unique p q lp (omega arith) (e ∙ l.parent_hash (suc n) q ln up) in
      omega arith

  climb :
      (fuel b : ℕ)
      → 0 < fuel
      → ((p : ℕ) → p < t.next_node → hash_at m t p ≡ (m.block_at b).last_block_hash → p + 1 < fuel)
      → (ps : List ℕ) × (uncommitted_above fuel m t b ≡ ok ps) × Climbs m t b ps
  unfolding uncommitted_above
  climb zero b pos' f = elim pos' [ ]
  climb (suc fuel) b pos' f = elim (query_block-cases b) [
    | inr (e, missing) ↦ ([], rw (e, uncommitted_above), inl missing)
    | inl (n, e, ln, held) ↦
        elim (Bool-cases ((m.block_at (t.node_at n).block).block_state == committed_block)) [
          | inl done ↦
              ([], rw (e, uncommitted_above, done, go_on), inr (n, ln, held, (==_iff _ _).0 done))
          | inr more ↦
              let open' : (m.block_at (t.node_at n).block).block_state ≢ committed_block =
                λ x. ground arith in
              let (ps, r, c) =
                climb fuel (t.node_at n).block (omega (arith, f n ln held))
                  (λ p lp x. omega (arith, older n p ln lp open' x, f n ln held)) in
              (
                (t.node_at n).block ∷ ps,
                rw (e, uncommitted_above, more, go_on, r),
                (held, open', c),
              )
        ]
  ]

  -- Where the block tree is a tree in which no two blocks have one hash, each names its parent
  -- there by hash, and the root is committed: the walk up from a block ends, and gives the
  -- uncommitted blocks on the way by which each names its parent, up to a committed block or one
  -- that is not in the tree.
  pub uncommitted_above-Climbs :
      (b : ℕ) → (ps : List ℕ) × (uncommitted_above (t.size + 1) m t b ≡ ok ps) × Climbs m t b ps
  uncommitted_above-Climbs b =
      climb (t.size + 1) b (omega arith) (λ p lp e. omega (arith, l.shape.counted))

abbrev pub NotReady : Memory → ℕ → Type 0
NotReady m b = ready m b ≡ ok false

-- A block of a list that is ready, where no block before it is; or none, where no block is.
abbrev pub IsFirst : Memory → List ℕ → Option ℕ → Type 0
IsFirst m bs none = All (NotReady m) bs
IsFirst m bs (some b) =
    (before : List ℕ) × (after : List ℕ) × (bs ≡ before ++ b ∷ after)
    × All (NotReady m) before
    × (ready m b ≡ ok true)

first_ready-IsFirst :
    (m : Memory) (bs : List ℕ) (first : Option ℕ) → first_ready m bs ≡ ok first → IsFirst m bs first
unfolding first_ready
first_ready-IsFirst m [] first h = rw (sym (ok-inj h)) tt
first_ready-IsFirst m (b ∷ bs) first h =
    let (yes', e, x) = >>=-eq-ok (ready m b) _ h in
    elim (Bool-cases yes') [
      | inl good ↦
          let found : some b ≡ first = ok-inj (ground arith) in
          subst (IsFirst m (b ∷ bs)) found ([], bs, refl, tt, e ∙ ap ok good)
      | inr bad ↦ later first (e ∙ ap ok bad) (first_ready-IsFirst m bs first (ground arith))
    ]
  where
    later : (o : Option ℕ) → NotReady m b → IsFirst m bs o → IsFirst m (b ∷ bs) o
    later none n all = (n, all)
    later (some c) n (before, after, same, all, good) =
        (b ∷ before, after, ap (λ x. b ∷ x) same, (n, all), good)

-- Where the block tree is a tree in which no two blocks have one hash, each names its parent there by
-- hash, and the root is committed: the blocks to commit, if they are decided without a panic, are none
-- where no block is ready; else the latest ready block of the set, with the uncommitted blocks above it,
-- the oldest first.
pub decide_commit_blocks_cases :
    (w : World) (blocks : List ℕ)
    → IsLinked w.memory w.block_tree
    → decide_commit_blocks w ≡ ok blocks
    → ((blocks ≡ []) × All (NotReady w.memory) (reverse w.uncommit_blocks))
      ⊎ ((b : ℕ) × IsFirst w.memory (reverse w.uncommit_blocks) (some b)
          × ((ps : List ℕ) × Climbs w.memory w.block_tree b ps × (blocks ≡ reverse (b ∷ ps))))
unfolding decide_commit_blocks
decide_commit_blocks_cases w blocks l h =
    let (first, e, x) =
      >>=-eq-ok (first_ready w.memory (reverse w.uncommit_blocks)) (chain_to w) h in
    go first (first_ready-IsFirst w.memory (reverse w.uncommit_blocks) first e) x
  where
    go :
        (o : Option ℕ)
        → IsFirst w.memory (reverse w.uncommit_blocks) o
        → chain_to w o ≡ ok blocks
        → ((blocks ≡ []) × All (NotReady w.memory) (reverse w.uncommit_blocks))
          ⊎ ((b : ℕ) × IsFirst w.memory (reverse w.uncommit_blocks) (some b)
              × ((ps : List ℕ) × Climbs w.memory w.block_tree b ps × (blocks ≡ reverse (b ∷ ps))))
    go none all y = inl (sym (ok-inj (unfold chain_to in y)), all)
    go (some b) first y =
        let (ps, r, c) = uncommitted_above-Climbs w.memory w.block_tree l b in
        inr (b, first, (ps, c, sym (ok-inj (sym (rw (r, chain_to) refl) ∙ y))))
