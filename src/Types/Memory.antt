-- ===== src/Types/Memory.antt =====
-- The objects that the code shares by pointer: blocks, the quorum that a commit points at, and
-- commits. A pointer is an address, and a new object takes the next one.
use obrs.Prelude.{ℕ, ◌+◌, Option, none, ◌==◌, if◌then◌else◌}
use obrs.Types.Vote.{Quorum}
use obrs.Types.Block.{Block}

-- types/commit.go
pub record Commit : Type 0 where
  pub parent_commit : Option ℕ
  pub local_quorum : Option ℕ
  pub witness : Option ℕ

-- `&Commit{}`
abbrev pub zero_commit : Commit
zero_commit = record { parent_commit = none; local_quorum = none; witness = none }

abbrev pub write {ℓ} : {A : Type ℓ} → (ℕ → A) → ℕ → A → ℕ → A
write f p a q = if q == p then a else f q

pub record Memory : Type 0 where
  pub block_at : ℕ → Block
  pub next_block : ℕ
  pub quorum_at : ℕ → Quorum
  pub next_quorum : ℕ
  pub commit_at : ℕ → Commit
  pub next_commit : ℕ

abbrev pub set_block : ℕ → Block → Memory → Memory
set_block p b m = record m { block_at = write m.block_at p b }

abbrev pub set_quorum : ℕ → Quorum → Memory → Memory
set_quorum p q m = record m { quorum_at = write m.quorum_at p q }

abbrev pub set_commit : ℕ → Commit → Memory → Memory
set_commit p c m = record m { commit_at = write m.commit_at p c }

abbrev pub alloc_block : Block → Memory → Memory
alloc_block b m = record m {
  block_at = write m.block_at m.next_block b;
  next_block = m.next_block + 1;
}

abbrev pub alloc_quorum : Quorum → Memory → Memory
alloc_quorum q m = record m {
  quorum_at = write m.quorum_at m.next_quorum q;
  next_quorum = m.next_quorum + 1;
}

abbrev pub alloc_commit : Commit → Memory → Memory
alloc_commit c m = record m {
  commit_at = write m.commit_at m.next_commit c;
  next_commit = m.next_commit + 1;
}
