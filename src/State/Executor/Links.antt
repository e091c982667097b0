-- ===== src/State/Executor/Links.antt =====
-- What the operations of state/executor.go leave of the hashes that link the blocks of the tree.
use obrs.Prelude.{
  ℕ, ◌<◌, ◌≡◌, refl, sym, ap, subst, ◌∙◌, true, Option, none, some, List, [], ◌∷◌, arith, ◌==◌,
  Bool-cases, Option-cases, inl, inr, holds,
}
use obrs.Prelude.Int.{ℤ}
use obrs.Prelude.Bytes.{Bytes}
use obrs.Types.External.{External}
use obrs.Types.Vote.{Quorum}
use obrs.Types.Block.{
  Block, BlockState, Header, committed_block, hash_block, mark_time, calculate_time, header_hash,
  header_digest, fill_header,
}
use obrs.Types.Memory.{Memory, set_block, alloc_commit, zero_commit}
use obrs.Types.BlockSet.{query_in_set}
use obrs.State.{State, World, hash_shared}
use obrs.State.Links.{
  IsHashed, SameHashes, StaysCommitted, StaysSettled, Mild, Settles, AllLinked, Mild-refl,
  Mild-trans, Settles-trans, still_hashed, set_block-Mild, set_block-Settles, Mild-AllLinked,
}
use obrs.State.Executor.{
  enter_state, ensure_commit, follow_quorum, use_evidence, use_evidences, update_state,
}
use obrs.State.Executor.Evidences.{query-holds}

-- The block at the root of the tree.
abbrev pub root_of : World → ℕ
root_of w = (w.block_tree.node_at 0).block

-- The tree is linked, and the blocks of the set have their hashes.
pub record IsSound (w : World) : Type 0 where
  pub tree : AllLinked w.memory w.block_tree
  pub set :
      (c : ℕ)
      → holds w.uncommit_blocks c ≡ true
      → (c < w.memory.next_block) × IsHashed (w.memory.block_at c)

-- Only the memory changes, mildly.
abbrev pub Steady : World → World → Type 0
Steady w w' =
    (w' ≡ record w { memory = w'.memory })
    × Mild (root_of w) w.memory w'.memory
    × Settles w.memory w'.memory

-- The memory changes mildly, the root stays, and the world stays sound.
abbrev pub Evolves : World → World → Type 0
Evolves w w' = Mild (root_of w) w.memory w'.memory × (root_of w' ≡ root_of w) × IsSound w'

pub changed-IsSound :
    (w w' : World)
    → IsSound w
    → Mild (root_of w) w.memory w'.memory
    → w'.block_tree ≡ w.block_tree
    → ((c : ℕ) → holds w'.uncommit_blocks c ≡ true → holds w.uncommit_blocks c ≡ true)
    → IsSound w'
changed-IsSound w w' s k t sub = record {
  tree =
      subst (AllLinked w'.memory) (sym t) (Mild-AllLinked w.memory w'.memory w.block_tree k s.tree);
  set = λ c h.
      let (l, x) = s.set c (sub c h) in
      (omega (arith, l, k.more), still_hashed (root_of w) w.memory w'.memory c k l x);
}

pub Steady-Evolves : (w w' : World) → IsSound w → Steady w w' → Evolves w w'
Steady-Evolves w w' s (e, k, _) = (
  k,
  ap root_of e,
  changed-IsSound w w' s k (ap (λ (v : World). v.block_tree) e)
      (λ c h. ap (λ (v : World). holds v.uncommit_blocks c) (sym e) ∙ h),
)

pub Steady-refl : (w : World) → Steady w w
Steady-refl w = (refl, Mild-refl (root_of w) w.memory, λ c l s. s)

pub Steady-trans : (w w' w'' : World) → Steady w w' → Steady w' w'' → Steady w w''
Steady-trans w w' w'' (e, k, s) (e', k', s') = (
  e' ∙ ap (λ (v : World). record v { memory = w''.memory }) e,
  Mild-trans (root_of w) w.memory w'.memory w''.memory k
      (subst (λ r. Mild r w'.memory w''.memory) (ap root_of e) k'),
  Settles-trans (root_of w) w.memory w'.memory w''.memory k s s',
)

-- A block in whose place another one is put.
pub set_block-Steady :
    (w : World) (b : ℕ) (x : Block)
    → SameHashes (w.memory.block_at b) x
    → StaysCommitted (w.memory.block_at b) x
    → StaysSettled (w.memory.block_at b) x
    → Steady w (record w { memory = set_block b x w.memory })
set_block-Steady w b x f g h =
    (refl, set_block-Mild (root_of w) w.memory b x f (λ _. g), set_block-Settles w.memory b x h)

pub hash_block-SameHashes : (ext : External) (b : Block) → SameHashes b (hash_block ext b)
unfolding hash_block
hash_block-SameHashes ext b (h, e) = (ground arith, ground arith)

header_hash-IsHashed :
    (ext : External) (h : Header) → (x : Bytes) × ((header_hash ext h).block_hash ≡ some x)
unfolding header_hash
header_hash-IsHashed ext h = elim (Option-cases h.block_hash) [
  | inl missing ↦ (header_digest ext h, ground arith)
  | inr (x, e) ↦ (x, ground arith)
]

pub hash_block-IsHashed : (ext : External) (b : Block) → IsHashed (hash_block ext b)
unfolding hash_block
hash_block-IsHashed ext b = header_hash-IsHashed ext (fill_header ext b).header

pub block_state-hash_block :
    (ext : External) (b : Block) → (hash_block ext b).block_state ≡ b.block_state
unfolding hash_block
block_state-hash_block ext b = ground arith

pub hash_shared-Steady :
    (ext : External) (b : ℕ) (w : World)
    → Steady w (record w { memory = hash_shared ext b w.memory })
unfolding hash_shared
hash_shared-Steady ext b w =
    set_block-Steady w b _ (hash_block-SameHashes ext (w.memory.block_at b))
      (λ e. block_state-hash_block ext (w.memory.block_at b) ∙ e)
      (λ s. inl (hash_block-IsHashed ext (w.memory.block_at b)))

-- The blocks are as before, whatever else of the memory has changed.
pub same_blocks-Steady :
    (w : World) (m : Memory)
    → m.block_at ≡ w.memory.block_at
    → m.next_block ≡ w.memory.next_block
    → Steady w (record w { memory = m })
same_blocks-Steady w m e n = (
  refl,
  record {
    more = omega arith;
    hashes = λ c l. subst (λ f. SameHashes (w.memory.block_at c) (f c)) (sym e) (λ h. (refl, refl));
    root_stays = λ l.
        subst (λ f. StaysCommitted (w.memory.block_at (root_of w)) (f (root_of w))) (sym e)
          (λ x. x);
  },
  λ c l. subst (λ f. StaysSettled (w.memory.block_at c) (f c)) (sym e) (λ x. x),
)

pub ensure_commit-Steady :
    (b : ℕ) (w : World) → Steady w (record w { memory = ensure_commit b w.memory })
unfolding ensure_commit
ensure_commit-Steady b w = elim (Option-cases (w.memory.block_at b).commit) [
  | inr (c, e) ↦ rw (e, ensure_commit) (Steady-refl w)
  | inl missing ↦
      rw (missing, ensure_commit)
        (let v : World = record w { memory = alloc_commit zero_commit w.memory } in
          let x : Block = record (w.memory.block_at b) { commit = some w.memory.next_commit } in
          Steady-trans w v (record w { memory = set_block b x v.memory })
            (same_blocks-Steady w v.memory refl refl)
            (set_block-Steady v b x (λ h. (refl, refl)) (λ e. e) (λ s. s)))
]

-- The block as before, but for its commit.
same-ensure_commit :
    (b : ℕ) (m : Memory)
    → (((ensure_commit b m).block_at b).block_hash ≡ (m.block_at b).block_hash)
      × (((ensure_commit b m).block_at b).block_state ≡ (m.block_at b).block_state)
unfolding ensure_commit
same-ensure_commit b m = (ground arith, ground arith)

follow_quorum-SameHashes : (now : ℤ) (q : Quorum) (b : Block) → SameHashes b (follow_quorum now q b)
unfolding follow_quorum enter_state mark_time calculate_time
follow_quorum-SameHashes now q b h = (ground arith, ground arith)

pub enter_state-SameHashes :
    (now : ℤ) (s : BlockState) (b : Block) → SameHashes b (enter_state now s b)
unfolding enter_state mark_time calculate_time
enter_state-SameHashes now s b h = (ground arith, ground arith)

use_evidence-Steady :
    (now : ℤ) (q : Quorum) (o : Option ℕ) (w : World)
    → ((b : ℕ) → o ≡ some b → IsHashed (w.memory.block_at b))
    → Steady w (record w { memory = use_evidence now q o w.memory })
unfolding use_evidence
use_evidence-Steady now q none w h = Steady-refl w
use_evidence-Steady now q (some b) w h =
    elim (Bool-cases ((w.memory.block_at b).block_state == committed_block)) [
      | inl done ↦ rw done (Steady-refl w)
      | inr open' ↦ rw open' (
          let v : World = record w { memory = ensure_commit b w.memory } in
          let x : Block = follow_quorum now q (v.memory.block_at b) in
          let first = ensure_commit-Steady b w in
          let before = same-ensure_commit b w.memory in
          let hashed : IsHashed (v.memory.block_at b) = ((h b refl).0, before.0 ∙ (h b refl).1) in
          let same = follow_quorum-SameHashes now q (v.memory.block_at b) hashed in
          Steady-trans w v (record w { memory = set_block b x v.memory }) first
            (set_block-Steady v b x (λ _. same) (λ e. ground (arith, before.1, e))
              (λ s. inl (hashed.0, same.0 ∙ hashed.1))))
    ]

-- UpdateState, also where it gives an error.
use_evidences-Steady :
    (now : ℤ) (es : List Quorum) (w : World) → IsSound w → Steady w (use_evidences now w es)
unfolding use_evidences
use_evidences-Steady now [] w s = Steady-refl w
use_evidences-Steady now (e ∷ es) w s =
    let found = query_in_set w.memory w.uncommit_blocks e.block_hash in
    let v : World = record w { memory = use_evidence now e found w.memory } in
    let first =
      use_evidence-Steady now e found w
        (λ b x. (s.set b (query-holds w.memory w.uncommit_blocks e.block_hash b x)).1) in
    Steady-trans w v (use_evidences now v es) first
      (use_evidences-Steady now es v (Steady-Evolves w v s first).2)

pub update_state-Steady :
    (now : ℤ) (s : State) (w : World) (b : ℕ) → IsSound w → Steady w (update_state now s w b).0
unfolding update_state
update_state-Steady now s w b h = elim (Option-cases s.pub_val) [
  | inl missing ↦ rw missing (Steady-refl w)
  | inr (v, e) ↦ rw e (use_evidences-Steady now (w.memory.block_at b).evidences w h)
]
