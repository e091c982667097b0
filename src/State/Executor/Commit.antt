-- ===== src/State/Executor/Commit.antt =====
-- Commit: what becomes of the blocks that are committed, of all others, and of the state.
use obrs.Prelude.{
  ℕ, ◌≡◌, refl, sym, ap, subst, ◌∙◌, Bool, true, false, not, Option, none, some, List, [], ◌∷◌,
  ◌++◌, arith, ◌==◌, ==_iff, Bool-cases, inl, inr, if◌then◌else◌, holds, keep, All, All-append,
  All-reverse, reverse,
}
use obrs.Prelude.Int.{ℤ}
use obrs.Prelude.Bytes.{Bytes}
use obrs.Prelude.Outcome.{Outcome, ok, err, panic, ◌>>=◌}
use obrs.Types.External.{External}
use obrs.Types.Block.{Block, BlockState, committed_block}
use obrs.Types.Memory.{Memory}
use obrs.Types.BlockSet.{remove_blocks, add_block}
use obrs.State.{State, World, commit_block, copy, hash_shared, decide_commit_blocks, first_ready}
use obrs.State.Executor.{
  enter_state, update_block_state, commit_one, commit_all, apply_block, apply_valid, added,
  validate_block, Applied,
}
use obrs.Types.BlockTree.{BlockTree, add_to_tree}
use obrs.Types.Block.{hash_block}

pub holds-keep :
    (p : ℕ → Bool) (xs : List ℕ) (a : ℕ) → holds (keep p xs) a ≡ (if p a then holds xs a else false)
holds-keep p [] a = ground arith
holds-keep p (x ∷ xs) a = elim (Bool-cases (a == x)) [
  | inl same ↦
      subst (λ y. holds (keep p (y ∷ xs)) a ≡ (if p a then holds (y ∷ xs) a else false))
        ((==_iff a x).0 same) (ground (arith, holds-keep p xs a))
  | inr other ↦ ground (arith, holds-keep p xs a)
]

pub block_state-enter_state :
    (now : ℤ) (s : BlockState) (b : Block) → (enter_state now s b).block_state ≡ s
unfolding enter_state
block_state-enter_state now s b = ground arith

state-hash_block : (ext : External) (b : Block) → (hash_block ext b).block_state ≡ b.block_state
unfolding hash_block
state-hash_block ext b = ground arith

-- The block is committed, and no longer in the set of the uncommitted ones.
abbrev pub IsDone : World → ℕ → Type 0
IsDone w c =
    ((w.memory.block_at c).block_state ≡ committed_block) × (holds w.uncommit_blocks c ≡ false)

-- The block and its place in the set are as before.
abbrev pub IsKept : World → World → ℕ → Type 0
IsKept w w' c =
    (w'.memory.block_at c ≡ w.memory.block_at c)
    × (holds w'.uncommit_blocks c ≡ holds w.uncommit_blocks c)

-- The last of the blocks, or what was there before.
abbrev pub last_of : List ℕ → Option ℕ → Option ℕ
last_of [] d = d
last_of (b ∷ bs) d = last_of bs (some b)

abbrev pub NoEvidence : Memory → ℕ → Type 0
NoEvidence m b = (m.block_at b).commit ≡ none

no_first_ready : (m : Memory) (bs : List ℕ) → All (NoEvidence m) bs → first_ready m bs ≡ ok none
unfolding first_ready
no_first_ready m [] h = refl
no_first_ready m (b ∷ bs) h = ground (arith, no_first_ready m bs h.1)

module _ {Db : Type 0} (exec_block : Db → Block → Db × Option Bytes) (ext : External)
    (now : ℤ) where
  -- The store executes every block.
  abbrev pub Executes : Type 0
  Executes = (db : Db) (b : Block) → (r : Bytes) × ((exec_block db b).1 ≡ some r)

  one-IsKept :
      (b c : ℕ) (r : Db × Option Bytes) (s : State) (w : World)
      → (c == b) ≡ false
      → IsKept w (commit_one exec_block ext now b r (s, w)).1 c
  unfolding commit_one update_block_state commit_block remove_blocks hash_shared
  one-IsKept b c (db, none) s w e = rw e (refl, refl)
  one-IsKept b c (db, some x) s w e =
      rw (e, holds-keep (λ y. not (holds (b ∷ []) y)) w.uncommit_blocks c) (rw e (refl, refl))

  one-IsDone :
      (b : ℕ) (r : Db × Option Bytes) {x : Bytes} (s : State) (w : World)
      → r.1 ≡ some x
      → IsDone (commit_one exec_block ext now b r (s, w)).1 b
  unfolding commit_one update_block_state commit_block remove_blocks
  one-IsDone b (db, none) s w e = ground arith
  one-IsDone b (db, some x) s w e = ground (
    arith,
    block_state-enter_state now committed_block (w.memory.block_at b),
    holds-keep (λ y. not (holds (b ∷ []) y)) w.uncommit_blocks b,
  )

  stays-IsDone :
      (b c : ℕ) (r : Db × Option Bytes) (s : State) (w : World)
      → IsDone w c
      → IsDone (commit_one exec_block ext now b r (s, w)).1 c
  unfolding commit_one update_block_state commit_block remove_blocks hash_shared
  stays-IsDone b c (db, none) s w d = ground (arith, state-hash_block ext (w.memory.block_at b))
  stays-IsDone b c (db, some x) s w d = ground (
    arith,
    block_state-enter_state now committed_block (w.memory.block_at b),
    holds-keep (λ y. not (holds (b ∷ []) y)) w.uncommit_blocks c,
  )

  one-last :
      (b : ℕ) (r : Db × Option Bytes) {x : Bytes} (s : State) (w : World)
      → r.1 ≡ some x
      → (commit_one exec_block ext now b r (s, w)).0.last_commited_block ≡ some b
  unfolding commit_one
  one-last b (db, none) s w e = ground arith
  one-last b (db, some x) s w e = refl

  all-stays-IsDone :
      (bs : List ℕ) (c : ℕ) (s : State) (w : World) (db : Db)
      → IsDone w c
      → IsDone (commit_all exec_block ext now bs (s, w, db)).1 c
  unfolding commit_all
  all-stays-IsDone [] c s w db d = d
  all-stays-IsDone (b ∷ bs) c s w db d =
      let next = commit_one exec_block ext now b (exec_block db (w.memory.block_at b)) (s, w) in
      all-stays-IsDone bs c next.0 next.1 next.2 (stays-IsDone b c _ s w d)

  -- Committing a list of blocks leaves every other block as it was, in its state and in the set of the
  -- uncommitted blocks, also where the execution of a block fails.
  pub commit_all-IsKept :
      (bs : List ℕ) (c : ℕ) (s : State) (w : World) (db : Db)
      → holds bs c ≡ false
      → IsKept w (commit_all exec_block ext now bs (s, w, db)).1 c
  unfolding commit_all
  commit_all-IsKept [] c s w db e = (refl, refl)
  commit_all-IsKept (b ∷ bs) c s w db e =
      let next = commit_one exec_block ext now b (exec_block db (w.memory.block_at b)) (s, w) in
      let one = one-IsKept b c (exec_block db (w.memory.block_at b)) s w (ground arith) in
      let all = commit_all-IsKept bs c next.0 next.1 next.2 (ground arith) in
      (all.0 ∙ one.0, all.1 ∙ one.1)

  -- Where the store executes every block, each block of the list ends up committed and out of the set,
  -- and the state's last committed block is the last of the list.
  pub commit_all-IsDone :
      (bs : List ℕ) (s : State) (w : World) (db : Db)
      → Executes
      → ((c : ℕ) → holds bs c ≡ true → IsDone (commit_all exec_block ext now bs (s, w, db)).1 c)
        × ((commit_all exec_block ext now bs (s, w, db)).0.last_commited_block
            ≡ last_of bs s.last_commited_block)
  unfolding commit_all
  commit_all-IsDone [] s w db x = (λ c e. cc, refl)
  commit_all-IsDone (b ∷ bs) s w db x =
      let r = exec_block db (w.memory.block_at b) in
      let next = commit_one exec_block ext now b r (s, w) in
      let (each, final) = commit_all-IsDone bs next.0 next.1 next.2 x in
      let (_, e) = x db (w.memory.block_at b) in
      (
        λ c h. elim (Bool-cases (c == b)) [
          | inl same ↦
              all-stays-IsDone bs c next.0 next.1 next.2
                (subst (IsDone next.1) (sym ((==_iff c b).0 same)) (one-IsDone b r s w e))
          | inr other ↦ each c (ground arith)
        ],
        final ∙ ap (last_of bs) (one-last b r s w e),
      )

  -- Without evidence nothing is committed, and the state is the one that was passed in.
  forgets_valid :
      (s : State) (w : World) (db : Db) (b : ℕ) (a : Applied exec_block) (v : Outcome (Unit {0}))
      → All (NoEvidence w.memory) w.uncommit_blocks
      → NoEvidence w.memory b
      → apply_valid exec_block ext now s w db b v ≡ ok a
      → a.state ≡ s
  unfolding apply_valid commit_all decide_commit_blocks add_block
  forgets_valid s w db b a (ok _) none_set none_b e =
      let idle = no_first_ready w.memory (reverse (w.uncommit_blocks ++ b ∷ [])) (
        All-reverse (NoEvidence w.memory) (w.uncommit_blocks ++ b ∷ [])
          (All-append (NoEvidence w.memory) w.uncommit_blocks (b ∷ []) none_set (none_b, tt))) in
      ground (arith, idle, e)
  forgets_valid s w db b a (err x) none_set none_b e = ground arith
  forgets_valid s w db b a panic none_set none_b e = ground arith

  -- ApplyBlock on a copied state, as enterApply calls it, gives a state with no last committed block
  -- when no uncommitted block and not the new one has evidence yet, whatever the state had before.
  pub apply_block-forgets :
      (s : State) (w : World) (db : Db) (b : ℕ) (a : Applied exec_block)
      → All (NoEvidence w.memory) w.uncommit_blocks
      → NoEvidence w.memory b
      → apply_block exec_block ext now (copy s) w db b ≡ ok a
      → a.state.last_commited_block ≡ none
  unfolding apply_block copy
  apply_block-forgets s w db b a none_set none_b e =
      go (add_to_tree w.memory w.block_tree (w.memory.block_at b).last_block_hash b) e
    where
      go :
          (o : Outcome BlockTree)
          → (added w o >>= λ w'.
              apply_valid exec_block ext now
                (copy s)
                w'
                db
                b
                (validate_block ext (copy s) (w.memory.block_at b)))
            ≡ ok a
          → a.state.last_commited_block ≡ none
      go (ok t) x =
          ap (λ (r : State). r.last_commited_block)
            (forgets_valid (copy s) (record w { block_tree = t }) db b a _ none_set none_b x)
      go (err _) x =
          ap (λ (r : State). r.last_commited_block)
            (forgets_valid (copy s) w db b a _ none_set none_b x)
      go panic x = ground arith
