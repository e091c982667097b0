-- ===== src/Types/BlockSet.antt =====
-- types/block_set.go: a list of pointers to blocks. Each method runs whole, under the set's lock.
use obrs.Prelude.{ℕ, Bool, not, Option, List, [], ◌∷◌, ◌++◌, find, keep, holds}
use obrs.Prelude.Bytes.{Bytes, bytes_equal, bytes_of}
use obrs.Types.Memory.{Memory}

abbrev pub BlockSet : Type 0
BlockSet = List ℕ

abbrev pub new_block_set : BlockSet
new_block_set = []

unfoldable pub has_hash : Memory → Bytes → ℕ → Bool
has_hash m hash block = bytes_equal (bytes_of (m.block_at block).block_hash) hash

-- QueryBlockByHash, where `none` is nil
unfoldable pub query_in_set : Memory → BlockSet → Bytes → Option ℕ
unfolding has_hash
query_in_set m bs hash = find (has_hash m hash) bs

unfoldable pub add_block : BlockSet → ℕ → BlockSet
add_block bs b = bs ++ b ∷ []

unfoldable pub add_blocks : BlockSet → List ℕ → BlockSet
add_blocks bs blocks = bs ++ blocks

-- The blocks are looked up by pointer.
unfoldable pub remove_blocks : BlockSet → List ℕ → BlockSet
remove_blocks bs blocks = keep (λ b. not (holds blocks b)) bs
