-- ===== src/Mempool/Ids.antt =====
-- mempool/reactor.go: the number that each peer has in the mempool, a uint16, and 0 for no peer. The map
-- of numbers in use is the list of its keys. A peer is its id.
pub mod Search
pub mod Unique
use obrs.Prelude.{
  ℕ, zero, suc, ◌+◌, ◌%◌, ◌^◌, Bool, true, false, not, Option, none, some, List, [], ◌∷◌, keep,
  length, holds, ◌==◌, if◌then◌else◌,
}
use obrs.Prelude.Bytes.{Bytes, bytes_equal}
use obrs.Prelude.Outcome.{Outcome, ok, panic, deref, ◌>>=◌}
use obrs.Mempool.{put}

pub record MempoolIds : Type 0 where
  pub peer_map : Bytes → Option ℕ
  pub next_id : ℕ
  pub active_ids : List ℕ

abbrev pub max_active_ids : ℕ
max_active_ids = 65535

-- The number of values of a uint16, which is also the number of rounds given to the search.
abbrev pub id_values : ℕ
id_values = 65536

unfoldable pub new_mempool_ids : MempoolIds
new_mempool_ids = record { peer_map = λ _. none; next_id = 1; active_ids = 0 ∷ [] }

-- The loop of nextPeerID over numbers modulo `m`; `none` where the rounds run out.
unfoldable pub free_from : ℕ → ℕ → List ℕ → ℕ → Option ℕ
free_from m zero active next = none
free_from m (suc f) active next =
    let rest = free_from m f active ((next + 1) % m) in
    if holds active next then rest else some next

-- nextPeerID: the number, and the ids after it.
unfoldable pub next_peer_id : MempoolIds → Outcome (ℕ × MempoolIds)
next_peer_id ids =
    if length ids.active_ids == max_active_ids
    then panic
    else (deref (free_from id_values id_values ids.active_ids ids.next_id) >>= λ cur.
        ok (cur, record ids { next_id = (cur + 1) % id_values }))

-- A key put into a set, and one taken out.
abbrev pub add_key : ℕ → List ℕ → List ℕ
add_key i active = if holds active i then active else i ∷ active

abbrev pub delete_key : ℕ → List ℕ → List ℕ
delete_key i active = keep (λ j. not (j == i)) active

unfoldable pub reserve_for_peer : Bytes → MempoolIds → Outcome MempoolIds
reserve_for_peer peer ids = do
  (cur, ids') ← next_peer_id ids
  ok (record ids' {
    peer_map = put ids'.peer_map peer (some cur);
    active_ids = add_key cur ids'.active_ids;
  })

unfoldable pub reclaim : Bytes → MempoolIds → MempoolIds
reclaim peer ids = elim (ids.peer_map peer) [
  | none ↦ ids
  | some removed ↦ record ids {
    peer_map = put ids.peer_map peer none;
    active_ids = delete_key removed ids.active_ids;
  }
]

abbrev number_or_zero : Option ℕ → ℕ
number_or_zero none = 0
number_or_zero (some i) = i

-- GetForPeer: 0 for a peer that has no number.
unfoldable pub get_for_peer : Bytes → MempoolIds → ℕ
get_for_peer peer ids = number_or_zero (ids.peer_map peer)
