-- ===== src/Mempool/Reactor.antt =====
-- mempool/reactor.go: transactions from peers and to them. What json.Unmarshal leaves in the transaction
-- and whether json.Marshal succeeds are parameters, as is what a peer's Send returns.
pub mod Sending
pub mod Received
use obrs.Prelude.{ℕ, ◌+◌, Bool, true, false, Option, none, some, List, [], ◌∷◌, ◌==◌, if◌then◌else◌}
use obrs.Prelude.Bytes.{Bytes}
use obrs.Prelude.Outcome.{Outcome, ok, err, panic}
use obrs.Types.Tx.{Tx}
use obrs.Types.External.{External}
use obrs.Mempool.{ListMempool, MempoolConfig, MempoolTx, check_tx, new_list_mempool}
use obrs.Mempool.Ids.{MempoolIds, new_mempool_ids, reserve_for_peer, reclaim, get_for_peer}

pub record Reactor : Type 0 where
  pub mempool : ListMempool
  pub ids : MempoolIds

unfoldable pub new_reactor : ListMempool → Reactor
new_reactor mem = record { mempool = mem; ids = new_mempool_ids }

-- InitPeer and RemovePeer
unfoldable pub init_peer : Bytes → Reactor → Outcome Reactor
init_peer peer r = elim (reserve_for_peer peer r.ids) [
  | ok ids ↦ ok (record r { ids = ids })
  | err e ↦ err e
  | panic ↦ panic
]

unfoldable pub remove_peer : Bytes → Reactor → Reactor
remove_peer peer r = record r { ids = reclaim peer r.ids }

-- decodeMsg: the error of Unmarshal is dropped, and what it has set in the new transaction stays.
unfoldable pub decode_msg : (Bytes → Tx × Bool) → Bytes → Outcome Tx
decode_msg unmarshal_tx msg = ok (unmarshal_tx msg).0

module _ (ext : External) (sha256 : Bytes → Bytes) (unmarshal_tx : Bytes → Tx × Bool) where
  -- Receive: what CheckTx refuses is logged.
  unfoldable pub receive : MempoolConfig → Bytes → Bytes → Reactor → Outcome Reactor
  receive config src msg r = elim (decode_msg unmarshal_tx msg) [
    | err _ ↦ ok r
    | panic ↦ panic
    | ok tx ↦ elim (check_tx ext sha256 config tx (get_for_peer src r.ids) r.mempool) [
      | ok mem ↦ ok (record r { mempool = mem })
      | err _ ↦ ok r
      | panic ↦ panic
    ]
  ]

-- The loop of broadcastTxRoutine on one element, while the peer and the node run: each call of Send
-- takes the next of the given results, and one that fails is made again later. Whether it was sent, and
-- the results left; `none` where they run out.
unfoldable pub send_until : List Bool → Option (List Bool)
send_until [] = none
send_until (true ∷ results) = some results
send_until (false ∷ results) = send_until results

-- broadcastTxRoutine on a list that does not change, from the first element on: the transactions for
-- which Send gave true, in order. One that cannot be marshalled is tried for ever, and nothing more is
-- sent.
unfoldable pub broadcast : (Tx → Bool) → ℕ → List Bool → List MempoolTx → List Tx
broadcast marshals peer_id results [] = []
broadcast marshals peer_id results (e ∷ es) =
    let skipped = broadcast marshals peer_id results es in
    let go_on = λ (left : List Bool). broadcast marshals peer_id left es in
    if e.sender == peer_id
    then skipped
    else if marshals e.tx
    then elim (send_until results) [ none ↦ [] | some left ↦ e.tx ∷ go_on left ]
    else []
