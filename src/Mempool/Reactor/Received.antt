-- ===== src/Mempool/Reactor/Received.antt =====
-- What a node takes from a peer by mempool/reactor.go, and that it does not send it back.
use obrs.Prelude.{
  ℕ, ◌≡◌, refl, ap, Bool, false, not, List, [], ◌∷◌, ◌++◌, map, keep, ◌==◌, arith, if◌then◌else◌,
}
use obrs.Prelude.Bytes.{Bytes}
use obrs.Prelude.Outcome.{ok}
use obrs.Types.Tx.{Tx, compute_size}
use obrs.Types.External.{External}
use obrs.Prelude.Int.{pos, ltb_ℤ}
use obrs.Mempool.{MempoolConfig, MempoolTx, check_tx, add_tx, is_full}
use obrs.Mempool.Ids.{get_for_peer}
use obrs.Mempool.Reactor.{Reactor, receive, decode_msg}
use obrs.Mempool.Reactor.Sending.{for_peer}

module _ (ext : External) (sha256 : Bytes → Bytes) (unmarshal_tx : Bytes → Tx × Bool) where
  keep-last :
      (p : MempoolTx → Bool) (es : List MempoolTx) (e : MempoolTx)
      → keep p (es ++ e ∷ []) ≡ (if p e then keep p es ++ e ∷ [] else keep p es)
  keep-last p [] e = ground arith
  keep-last p (x ∷ es) e = ground (arith, keep-last p es e)

  map-last :
      (es : List MempoolTx) (e : MempoolTx)
      → map (λ (x : MempoolTx). x.tx) (es ++ e ∷ []) ≡ map (λ (x : MempoolTx). x.tx) es ++ e.tx ∷ []
  map-last [] e = refl
  map-last (x ∷ es) e = ap (λ (l : List Tx). x.tx ∷ l) (map-last es e)

  -- A message of a peer that is no transaction is not refused: where the pool has space, what Unmarshal
  -- left in the new transaction is added to it as if the peer had sent that. It is for every other peer,
  -- and not for the one that it came from.
  pub receive_undecoded :
      (config : MempoolConfig) (src msg : Bytes) (tx : Tx) (r : Reactor)
      → unmarshal_tx msg ≡ (tx, false)
      → is_full config r.mempool (compute_size tx) ≡ false
      → ltb_ℤ config.max_tx_bytes (pos (compute_size tx)) ≡ false
      → (r' : Reactor) × (receive ext sha256 unmarshal_tx config src msg r ≡ ok r')
        × (r'.ids ≡ r.ids)
        × ((peer : ℕ)
            → for_peer peer r'.mempool.txs ≡ (
                if get_for_peer src r.ids == peer
                then for_peer peer r.mempool.txs
                else for_peer peer r.mempool.txs ++ tx ∷ []))
  unfolding receive decode_msg check_tx add_tx
  receive_undecoded config src msg tx r bad space small =
      let sender = get_for_peer src r.ids in
      (
        record r { mempool = add_tx ext sha256 tx sender r.mempool },
        ground arith,
        refl,
        λ peer.
            let e : MempoolTx = record {
              element = r.mempool.next_element;
              slot = r.mempool.slot;
              tx = tx;
              sender = sender;
            } in
            ground (
              arith,
              keep-last (λ (x : MempoolTx). not (x.sender == peer)) r.mempool.txs e,
              map-last (keep (λ (x : MempoolTx). not (x.sender == peer)) r.mempool.txs) e,
            ),
      )
