-- ===== src/State/Executor/Linked.antt =====
-- ApplyBlock of state/executor.go on a tree whose blocks are linked by their hashes.
use obrs.Prelude.{
  ℕ, ◌<◌, ◌≡◌, refl, sym, ap, subst, ◌∙◌, true, not, Option, none, some, List, [], ◌∷◌, arith, ◌==◌,
  ==_iff, Bool-cases, inl, inr, holds, holds-append,
}
use obrs.Prelude.Int.{ℤ}
use obrs.Prelude.Bytes.{Bytes}
use obrs.Prelude.Outcome.{Outcome, ok, err, panic, >>=-eq-ok, ok-inj}
use obrs.Types.External.{External}
use obrs.Types.Block.{Block, committed_block}
use obrs.Types.BlockSet.{add_block, remove_blocks}
use obrs.Types.BlockTree.{BlockTree, add_to_tree}
use obrs.Types.BlockTree.Search.{Inserts, add_to_tree-Inserts}
use obrs.State.{State, World, commit_block, decide_commit_blocks, hash_shared}
use obrs.State.Links.{
  IsHashed, Mild, Mild-refl, Mild-trans, set_block-Mild, node-attach_old, attach-AllLinked,
}
use obrs.State.Executor.{
  Applied, added, commit_one, commit_all, commit_ready, apply_valid, apply_block,
  update_block_state,
}
use obrs.State.Executor.Commit.{holds-keep, block_state-enter_state}
use obrs.State.Executor.Growth.{block_tree-commit_all}
use obrs.State.Executor.Links.{
  root_of, IsSound, Evolves, changed-IsSound, hash_block-SameHashes, block_state-hash_block,
  enter_state-SameHashes,
}

-- A block with a hash, at an address that is in use.
abbrev pub IsKnown : World → ℕ → Type 0
IsKnown w b = (b < w.memory.next_block) × IsHashed (w.memory.block_at b)

module _ {Db : Type 0} (exec_block : Db → Block → Db × Option Bytes) (ext : External)
    (now : ℤ) where
  commit_one-Mild :
      (root b : ℕ) (r : Db × Option Bytes) (s : State) (w : World)
      → Mild root w.memory (commit_one exec_block ext now b r (s, w)).1.memory
  unfolding commit_one hash_shared commit_block update_block_state
  commit_one-Mild root b (db, none) s w =
      set_block-Mild root w.memory b _ (hash_block-SameHashes ext (w.memory.block_at b))
        (λ _ e. block_state-hash_block ext (w.memory.block_at b) ∙ e)
  commit_one-Mild root b (db, some x) s w =
      set_block-Mild root w.memory b _
        (enter_state-SameHashes now committed_block (w.memory.block_at b))
        (λ _ e. block_state-enter_state now committed_block (w.memory.block_at b))

  commit_one-subset :
      (b c : ℕ) (r : Db × Option Bytes) (s : State) (w : World)
      → holds (commit_one exec_block ext now b r (s, w)).1.uncommit_blocks c ≡ true
      → holds w.uncommit_blocks c ≡ true
  unfolding commit_one commit_block remove_blocks
  commit_one-subset b c (db, none) s w h = h
  commit_one-subset b c (db, some x) s w h =
      ground (arith, holds-keep (λ y. not (holds (b ∷ []) y)) w.uncommit_blocks c)

  commit_all-Mild :
      (root : ℕ) (bs : List ℕ) (s : State) (w : World) (db : Db)
      → Mild root w.memory (commit_all exec_block ext now bs (s, w, db)).1.memory
  unfolding commit_all
  commit_all-Mild root [] s w db = Mild-refl root w.memory
  commit_all-Mild root (b ∷ bs) s w db =
      let r = exec_block db (w.memory.block_at b) in
      let next = commit_one exec_block ext now b r (s, w) in
      Mild-trans root w.memory next.1.memory (commit_all exec_block ext now bs next).1.memory
        (commit_one-Mild root b r s w) (commit_all-Mild root bs next.0 next.1 next.2)

  commit_all-subset :
      (bs : List ℕ) (c : ℕ) (s : State) (w : World) (db : Db)
      → holds (commit_all exec_block ext now bs (s, w, db)).1.uncommit_blocks c ≡ true
      → holds w.uncommit_blocks c ≡ true
  unfolding commit_all
  commit_all-subset [] c s w db h = h
  commit_all-subset (b ∷ bs) c s w db h =
      let r = exec_block db (w.memory.block_at b) in
      let next = commit_one exec_block ext now b r (s, w) in
      commit_one-subset b c r s w (commit_all-subset bs c next.0 next.1 next.2 h)

  commit_all-Evolves :
      (bs : List ℕ) (s : State) (w : World) (db : Db)
      → IsSound w
      → Evolves w (commit_all exec_block ext now bs (s, w, db)).1
  commit_all-Evolves bs s w db h =
      let v = (commit_all exec_block ext now bs (s, w, db)).1 in
      let t = block_tree-commit_all exec_block ext now bs (s, w, db) in
      let k = commit_all-Mild (root_of w) bs s w db in
      (
        k,
        ap (λ (x : BlockTree). (x.node_at 0).block) t,
        changed-IsSound w v h k t (λ c e. commit_all-subset bs c s w db e),
      )

  -- The set with a block of its own.
  added-IsSound :
      (w : World) (p : ℕ)
      → IsSound w
      → IsKnown w p
      → IsSound (record w { uncommit_blocks = add_block w.uncommit_blocks p })
  unfolding add_block
  added-IsSound w p h known = record {
    tree = h.tree;
    set = λ c e. elim (Bool-cases (c == p)) [
      | inl same ↦ subst (IsKnown w) (sym ((==_iff c p).0 same)) known
      | inr other ↦ h.set c (ground (arith, holds-append w.uncommit_blocks (p ∷ []) c))
    ];
  }

  apply_valid-Evolves :
      (s : State) (w : World) (db : Db) (p : ℕ) (o : Outcome (Unit {0})) (a : Applied exec_block)
      → IsSound w
      → IsKnown w p
      → apply_valid exec_block ext now s w db p o ≡ ok a
      → Evolves w a.world
  unfolding apply_valid commit_ready
  apply_valid-Evolves s w db p (ok _) a h known e =
      let (blocks, _, x) = >>=-eq-ok (decide_commit_blocks _) _ e in
      let w' : World = record w { uncommit_blocks = add_block w.uncommit_blocks p } in
      subst (λ (r : Applied exec_block). Evolves w r.world) (ok-inj x)
        (commit_all-Evolves blocks s w' db (added-IsSound w p h known))
  apply_valid-Evolves s w db p (err x) a h known e =
      subst (λ (r : Applied exec_block). Evolves w r.world) (ok-inj e)
        (Mild-refl (root_of w) w.memory, refl, h)
  apply_valid-Evolves s w db p panic a h known e = cc

  -- The tree after AddBlocks, whose error is dropped.
  added-Evolves :
      (w w' : World) (b : ℕ)
      → IsSound w
      → IsKnown w b
      → added w (add_to_tree w.memory w.block_tree (w.memory.block_at b).last_block_hash b) ≡ ok w'
      → Evolves w w' × (w'.memory ≡ w.memory)
  added-Evolves w w' b h known e =
      go (add_to_tree w.memory w.block_tree (w.memory.block_at b).last_block_hash b)
        (add_to_tree-Inserts w.memory w.block_tree (w.memory.block_at b).last_block_hash b
          h.tree.linked.shape)
        e
    where
      Good : World → Type 0
      Good v = Evolves w v × (v.memory ≡ w.memory)

      same : Good w
      same = ((Mild-refl (root_of w) w.memory, refl, h), refl)

      go :
          (r : Outcome BlockTree)
          → Inserts w.memory w.block_tree (w.memory.block_at b).last_block_hash b r
          → added w r ≡ ok w'
          → Good w'
      go r (inl (x, _)) y = subst Good (ok-inj (sym (ap (added w) x) ∙ y)) same
      go r (inr (inl (x, _))) y = subst Good (ok-inj (sym (ap (added w) x) ∙ y)) same
      go r (inr (inr (p, x, old, named, fresh))) y =
          subst Good (ok-inj (sym (ap (added w) x) ∙ y)) (
            (
              Mild-refl (root_of w) w.memory,
              (node-attach_old w.memory w.block_tree p b old 0 h.tree.linked.shape.some_node).0,
              record {
                tree =
                    attach-AllLinked w.memory w.block_tree p b old named fresh known.1 known.0
                      h.tree;
                set = h.set;
              },
            ),
            refl,
          )

  -- ApplyBlock of a block with a hash keeps the tree linked, whether the block enters it, is refused by
  -- it, or is invalid, and whatever is committed.
  pub apply_block-Evolves :
      (s : State) (w : World) (db : Db) (b : ℕ) (a : Applied exec_block)
      → IsSound w
      → IsKnown w b
      → apply_block exec_block ext now s w db b ≡ ok a
      → Evolves w a.world
  unfolding apply_block
  apply_block-Evolves s w db b a h known e =
      let parent = (w.memory.block_at b).last_block_hash in
      let (w', grown, x) = >>=-eq-ok (added w (add_to_tree w.memory w.block_tree parent b)) _ e in
      let ((k, r, h'), same) = added-Evolves w w' b h known grown in
      let known' : IsKnown w' b =
        subst (λ m. (b < m.next_block) × IsHashed (m.block_at b)) (sym same) known in
      let (k', r', done) = apply_valid-Evolves s w' db b _ a h' known' x in
      (
        Mild-trans (root_of w) w.memory w'.memory a.world.memory k
            (subst (λ q. Mild q w'.memory a.world.memory) r k'),
        r' ∙ r,
        done,
      )
