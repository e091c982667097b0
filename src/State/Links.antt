-- ===== src/State/Links.antt =====
-- The hashes that link the blocks of the tree, and the changes of the memory that leave them as they are.
use obrs.Prelude.{
  ℕ, ◌<◌, ◌≤◌, ◌≡◌, ◌≢◌, refl, sym, ap, subst, ◌∙◌, ◌⊎◌, some, arith, ◌==◌, ==_iff, Bool-cases, inl,
  inr, false,
}
use obrs.Prelude.Bytes.{Bytes, bytes_of}
use obrs.Types.Block.{Block, committed_block, default_block}
use obrs.Types.Memory.{Memory, set_block, alloc_block}
use obrs.Types.BlockTree.{BlockTree, hash_at, new_block_tree, attach}
use obrs.Types.BlockTree.Shape.{IsTree, new_block_tree-IsTree, attach-IsTree}
use obrs.Types.BlockTree.Insertion.{attach-UniqueHashes, hash_at-attach_old}
use obrs.State.Commits.{IsLinked}

abbrev pub IsHashed : Block → Type 0
IsHashed b = (h : Bytes) × (b.block_hash ≡ some h)

-- A block with a hash, or one that waits for a proposal.
abbrev pub IsSettled : Block → Type 0
IsSettled b = IsHashed b ⊎ (b.block_state ≡ default_block)

-- The hash, if there is one, and the parent's are as before.
abbrev pub SameHashes : Block → Block → Type 0
SameHashes b b' =
    IsHashed b → (b'.block_hash ≡ b.block_hash) × (b'.last_block_hash ≡ b.last_block_hash)

abbrev pub StaysCommitted : Block → Block → Type 0
StaysCommitted b b' = b.block_state ≡ committed_block → b'.block_state ≡ committed_block

abbrev pub StaysSettled : Block → Block → Type 0
StaysSettled b b' = IsSettled b → IsSettled b'

-- The blocks keep their hashes, and the one at `root` stays committed.
pub record Mild (root : ℕ) (m m' : Memory) : Type 0 where
  pub more : m.next_block ≤ m'.next_block
  pub hashes : (c : ℕ) → c < m.next_block → SameHashes (m.block_at c) (m'.block_at c)
  pub root_stays : root < m.next_block → StaysCommitted (m.block_at root) (m'.block_at root)

abbrev pub Settles : Memory → Memory → Type 0
Settles m m' = (c : ℕ) → c < m.next_block → StaysSettled (m.block_at c) (m'.block_at c)

module _ (root : ℕ) where
  pub Mild-refl : (m : Memory) → Mild root m m
  Mild-refl m = record { more = omega arith; hashes = λ c l h. (refl, refl); root_stays = λ l e. e }

  pub still_hashed :
      (m m' : Memory) (c : ℕ)
      → Mild root m m'
      → c < m.next_block
      → IsHashed (m.block_at c)
      → IsHashed (m'.block_at c)
  still_hashed m m' c k l h = (h.0, (k.hashes c l h).0 ∙ h.1)

  pub Mild-trans : (m m' m'' : Memory) → Mild root m m' → Mild root m' m'' → Mild root m m''
  Mild-trans m m' m'' f g = record {
    more = omega (arith, f.more, g.more);
    hashes = λ c l h.
        let (e, x) = f.hashes c l h in
        let (e', x') = g.hashes c (omega (arith, f.more)) (still_hashed m m' c f l h) in
        (e' ∙ e, x' ∙ x);
    root_stays = λ l e. g.root_stays (omega (arith, f.more)) (f.root_stays l e);
  }

  pub Settles-trans :
      (m m' m'' : Memory) → Mild root m m' → Settles m m' → Settles m' m'' → Settles m m''
  Settles-trans m m' m'' k f g c l s = g c (omega (arith, k.more)) (f c l s)

  pub set_block-Mild :
      (m : Memory) (b : ℕ) (x : Block)
      → SameHashes (m.block_at b) x
      → (b ≡ root → StaysCommitted (m.block_at b) x)
      → Mild root m (set_block b x m)
  set_block-Mild m b x f g = record {
    more = omega arith;
    hashes = λ c l h. elim (Bool-cases (c == b)) [
      | inl same ↦
          let at : c ≡ b = (==_iff c b).0 same in
          rw same (subst (λ y. SameHashes (m.block_at y) x) (sym at) f h)
      | inr other ↦ rw other (refl, refl)
    ];
    root_stays = λ l e. elim (Bool-cases (root == b)) [
      | inl same ↦
          let at : root ≡ b = (==_iff root b).0 same in
          rw same (g (sym at) (subst (λ y. (m.block_at y).block_state ≡ committed_block) at e))
      | inr other ↦ rw other e
    ];
  }

  pub alloc_block-Mild : (m : Memory) (x : Block) → Mild root m (alloc_block x m)
  alloc_block-Mild m x = record {
    more = omega arith;
    hashes = λ c l h. (ground arith, ground arith);
    root_stays = λ l e. ground arith;
  }

pub set_block-Settles :
    (m : Memory) (b : ℕ) (x : Block) → StaysSettled (m.block_at b) x → Settles m (set_block b x m)
set_block-Settles m b x f c l s = elim (Bool-cases (c == b)) [
  | inl same ↦
      let at : c ≡ b = (==_iff c b).0 same in
      rw same (f (subst (λ y. IsSettled (m.block_at y)) at s))
  | inr other ↦ rw other s
]

pub alloc_block-Settles : (m : Memory) (x : Block) → Settles m (alloc_block x m)
alloc_block-Settles m x c l s = let old : (c == m.next_block) ≡ false = ground arith in rw old s

-- The blocks of the tree are linked by their hashes, which have all been filled in.
pub record AllLinked (m : Memory) (t : BlockTree) : Type 0 where
  pub linked : IsLinked m t
  pub hashed : (n : ℕ) → n < t.next_node → IsHashed (m.block_at (t.node_at n).block)
  pub held : (n : ℕ) → n < t.next_node → (t.node_at n).block < m.next_block

parent_bound :
    (t : BlockTree)
    → IsTree t
    → (n p : ℕ) → n < t.next_node
    → (t.node_at n).parent ≡ some p
    → p < t.next_node
parent_bound t h n p ln e = ground (arith, h.root_parent, h.parent_of n)

-- The tree that is linked in a memory is linked after a mild change.
pub Mild-AllLinked :
    (m m' : Memory) (t : BlockTree) → Mild (t.node_at 0).block m m' → AllLinked m t → AllLinked m' t
Mild-AllLinked m m' t f a =
    let l = a.linked in
    record {
      linked = record {
        shape = l.shape;
        unique = λ i j li lj e. l.unique i j li lj (sym (same i li) ∙ e ∙ same j lj);
        parent_hash = λ n p ln e.
            (kept n ln).1 ∙ l.parent_hash n p ln e ∙ sym (same p (parent_bound t l.shape n p ln e));
        root_committed = f.root_stays (a.held 0 l.shape.some_node) l.root_committed;
      };
      hashed = λ n ln. still_hashed (t.node_at 0).block m m' _ f (a.held n ln) (a.hashed n ln);
      held = λ n ln. omega (arith, a.held n ln, f.more);
    }
  where
    kept :
        (n : ℕ)
        → n < t.next_node
        → ((m'.block_at (t.node_at n).block).block_hash
            ≡ (m.block_at (t.node_at n).block).block_hash)
          × ((m'.block_at (t.node_at n).block).last_block_hash
              ≡ (m.block_at (t.node_at n).block).last_block_hash)
    kept n ln = f.hashes (t.node_at n).block (a.held n ln) (a.hashed n ln)

    same : (n : ℕ) → n < t.next_node → hash_at m' t n ≡ hash_at m t n
    same n ln = ap bytes_of (kept n ln).0

-- The tree of a committed block whose hash has been filled in.
pub new_block_tree-AllLinked :
    (m : Memory) (b : ℕ)
    → b < m.next_block
    → IsHashed (m.block_at b)
    → (m.block_at b).block_state ≡ committed_block
    → AllLinked m (new_block_tree b)
unfolding new_block_tree
new_block_tree-AllLinked m b lb h c = record {
  linked = record {
    shape = new_block_tree-IsTree b;
    unique = λ i j li lj e. omega arith;
    parent_hash = λ n p ln e. cc;
    root_committed = c;
  };
  hashed = λ n ln. h;
  held = λ n ln. lb;
}

module _ (m : Memory) (t : BlockTree) (p b : ℕ) (old : p < t.next_node) where
  pub node-attach_old :
      (n : ℕ)
      → n < t.next_node
      → (((attach t p b).node_at n).block ≡ (t.node_at n).block)
        × (((attach t p b).node_at n).parent ≡ (t.node_at n).parent)
  unfolding attach
  node-attach_old n l = (ground arith, ground arith)

  node-attach_new :
      (((attach t p b).node_at t.next_node).block ≡ b)
      × (((attach t p b).node_at t.next_node).parent ≡ some p)
  unfolding attach
  node-attach_new = (ground arith, ground arith)

  -- A predicate on the nodes that holds for the old ones and the new one.
  each_node :
      (P : ℕ → Type 0)
      → ((n : ℕ) → n < t.next_node → P n)
      → P t.next_node
      → (n : ℕ) → n < (attach t p b).next_node
      → P n
  unfolding attach
  each_node P olds new n l = elim (Bool-cases (n == t.next_node)) [
    | inl same ↦ subst P (sym ((==_iff n t.next_node).0 same)) new
    | inr other ↦ olds n (ground arith)
  ]

  -- A new block that names the hash of the node that it hangs under, and whose hash no node has.
  pub attach-AllLinked :
      hash_at m t p ≡ (m.block_at b).last_block_hash
      → ((n : ℕ) → n < t.next_node → hash_at m t n ≢ bytes_of (m.block_at b).block_hash)
      → IsHashed (m.block_at b)
      → b < m.next_block
      → AllLinked m t
      → AllLinked m (attach t p b)
  attach-AllLinked named fresh h hb a =
      let l = a.linked in
      record {
        linked = record {
          shape = attach-IsTree t p b l.shape old;
          unique = attach-UniqueHashes m t p b old l.unique fresh;
          parent_hash = λ n q ln. each_node Named older newest n ln q;
          root_committed =
              ap (λ c. (m.block_at c).block_state) (node-attach_old 0 l.shape.some_node).0
              ∙ l.root_committed;
        };
        hashed =
            each_node (λ n. IsHashed (m.block_at ((attach t p b).node_at n).block))
              (λ n ln.
                subst (λ c. IsHashed (m.block_at c)) (sym (node-attach_old n ln).0) (a.hashed n ln))
              (subst (λ c. IsHashed (m.block_at c)) (sym node-attach_new.0) h);
        held =
            each_node (λ n. ((attach t p b).node_at n).block < m.next_block)
              (λ n ln. subst (λ c. c < m.next_block) (sym (node-attach_old n ln).0) (a.held n ln))
              (subst (λ c. c < m.next_block) (sym node-attach_new.0) hb);
      }
    where
      Named : ℕ → Type 0
      Named n =
          (q : ℕ)
          → ((attach t p b).node_at n).parent ≡ some q
          → (m.block_at ((attach t p b).node_at n).block).last_block_hash
            ≡ hash_at m (attach t p b) q

      older : (n : ℕ) → n < t.next_node → Named n
      older n ln q e =
          let up : (t.node_at n).parent ≡ some q = sym (node-attach_old n ln).1 ∙ e in
          ap (λ c. (m.block_at c).last_block_hash) (node-attach_old n ln).0
          ∙ a.linked.parent_hash n q ln up
          ∙ sym (hash_at-attach_old m t p b old q (parent_bound t a.linked.shape n q ln up))

      newest : Named t.next_node
      newest q e =
          let same : p ≡ q = ground (arith, node-attach_new.1) in
          ap (λ c. (m.block_at c).last_block_hash) node-attach_new.0
          ∙ sym named
          ∙ sym (hash_at-attach_old m t p b old p old)
          ∙ ap (hash_at m (attach t p b)) same
