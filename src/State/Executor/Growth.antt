-- ===== src/State/Executor/Growth.antt =====
-- What ApplyBlock of state/executor.go does to the block tree.
use obrs.Prelude.{
  ℕ, ◌≡◌, refl, sym, ap, subst, ◌∙◌, Option, none, some, List, [], ◌∷◌, arith, inl, inr,
}
use obrs.Prelude.Int.{ℤ}
use obrs.Prelude.Bytes.{Bytes}
use obrs.Prelude.Outcome.{Outcome, ok, err, panic, >>=-eq-ok}
use obrs.Types.External.{External}
use obrs.Types.Block.{Block}
use obrs.Types.BlockTree.{BlockTree, add_to_tree, attach}
use obrs.Types.BlockTree.Shape.{IsTree, attach-IsTree}
use obrs.Types.BlockTree.Search.{Inserts, add_to_tree-Inserts}
use obrs.State.{State, World, commit_block, decide_commit_blocks}
use obrs.State.Executor.{
  Applied, added, commit_one, commit_all, commit_ready, apply_valid, apply_block,
}

-- The tree after AddBlocks, whose error is dropped.
added-IsTree :
    (w w' : World) (parent_hash : Bytes) (b : ℕ)
    → IsTree w.block_tree
    → added w (add_to_tree w.memory w.block_tree parent_hash b) ≡ ok w'
    → IsTree w'.block_tree
added-IsTree w w' parent_hash b h e =
    go (add_to_tree w.memory w.block_tree parent_hash b)
      (add_to_tree-Inserts w.memory w.block_tree parent_hash b h) e
  where
    go :
        (r : Outcome BlockTree)
        → Inserts w.memory w.block_tree parent_hash b r
        → added w r ≡ ok w'
        → IsTree w'.block_tree
    go r (inl (x, _)) y =
        let same : w ≡ w' = ground arith in subst (λ (v : World). IsTree v.block_tree) same h
    go r (inr (inl (x, _))) y =
        let same : w ≡ w' = ground arith in subst (λ (v : World). IsTree v.block_tree) same h
    go r (inr (inr (p, x, old, _, _))) y =
        let same : attach w.block_tree p b ≡ w'.block_tree = ground arith in
        subst IsTree same (attach-IsTree w.block_tree p b h old)

module _ {Db : Type 0} (exec_block : Db → Block → Db × Option Bytes) where
  block_tree-commit_one :
      (ext : External) (now : ℤ) (b : ℕ) (r : Db × Option Bytes) (s : State) (w : World)
      → (commit_one exec_block ext now b r (s, w)).1.block_tree ≡ w.block_tree
  unfolding commit_one commit_block
  block_tree-commit_one ext now b (db, none) s w = refl
  block_tree-commit_one ext now b (db, some result) s w = refl

  pub block_tree-commit_all :
      (ext : External) (now : ℤ) (bs : List ℕ) (swd : State × World × Db)
      → (commit_all exec_block ext now bs swd).1.block_tree ≡ swd.1.block_tree
  unfolding commit_all
  block_tree-commit_all ext now [] swd = refl
  block_tree-commit_all ext now (b ∷ bs) (s, w, db) =
      let r = exec_block db (w.memory.block_at b) in
      block_tree-commit_all ext now bs (commit_one exec_block ext now b r (s, w))
      ∙ block_tree-commit_one ext now b r s w

  block_tree-apply_valid :
      (ext : External) (now : ℤ) (s : State) (w : World) (db : Db) (p : ℕ) (o : Outcome (Unit {0}))
      (a : Applied exec_block)
      → apply_valid exec_block ext now s w db p o ≡ ok a
      → a.world.block_tree ≡ w.block_tree
  unfolding apply_valid commit_ready
  block_tree-apply_valid ext now s w db p (ok _) a h =
      let (blocks, e, x) = >>=-eq-ok (decide_commit_blocks _) _ h in
      ap (λ (r : Outcome (Applied exec_block)). tree_in r) (sym x)
      ∙ block_tree-commit_all ext now blocks _
    where
      tree_in : Outcome (Applied exec_block) → BlockTree
      tree_in (ok r) = r.world.block_tree
      tree_in (err e) = w.block_tree
      tree_in panic = w.block_tree
  block_tree-apply_valid ext now s w db p (err e) a h = ground arith
  block_tree-apply_valid ext now s w db p panic a h = cc

  -- ApplyBlock keeps the shape of the tree, whether the block enters it, is refused by it, or is invalid.
  pub apply_block-IsTree :
      (ext : External) (now : ℤ) (s : State) (w : World) (db : Db) (p : ℕ) (a : Applied exec_block)
      → IsTree w.block_tree
      → apply_block exec_block ext now s w db p ≡ ok a
      → IsTree a.world.block_tree
  unfolding apply_block
  apply_block-IsTree ext now s w db p a h e =
      let parent = (w.memory.block_at p).last_block_hash in
      let (w', grown, x) = >>=-eq-ok (added w (add_to_tree w.memory w.block_tree parent p)) _ e in
      subst IsTree (sym (block_tree-apply_valid ext now s w' db p _ a x))
        (added-IsTree w w' parent p h grown)
