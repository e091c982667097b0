-- ===== src/Mempool.antt =====
-- mempool/list_mempool.go: the pool of transactions. An element of the list has an address; the cache is
-- the empty one, which the constructor sets and nothing replaces. Each method runs whole.
pub mod Reaping
pub mod Ids
pub mod Generator
pub mod Reactor
pub mod Admission
use obrs.Prelude.{
  ℕ, ◌+◌, Bool, true, false, not, ◌||◌, ◌&&◌, Option, none, some, List, [], ◌∷◌, ◌++◌, map, keep,
  length, leb, ◌==◌, if◌then◌else◌,
}
use obrs.Prelude.Int.{ℤ, pos, negsuc, ◌+ℤ◌, ◌-ℤ◌, leb_ℤ, ltb_ℤ, wrap64}
use obrs.Prelude.Bytes.{Bytes, bytes_equal}
use obrs.Prelude.Outcome.{
  Outcome, ok, err, ◌>>=◌, ◌>>◌, fail_if, mempool_is_full, tx_too_large, tx_in_cache,
}
use obrs.Types.Ltime.{LTime, ltime_zero}
use obrs.Types.External.{External}
use obrs.Types.Tx.{Tx, tx_hash, compute_size, size_of_txs}

pub record MempoolConfig : Type 0 where
  pub size : ℤ
  pub max_tx_bytes : ℤ
  pub max_txs_bytes : ℤ

-- An element of the list, whose value is a transaction with its first sender.
pub record MempoolTx : Type 0 where
  pub element : ℕ
  pub slot : LTime
  pub tx : Tx
  pub sender : ℕ

pub record ListMempool : Type 0 where
  pub slot : LTime
  pub txs_bytes : ℤ
  pub txs : List MempoolTx
  pub next_element : ℕ
  pub txs_map : Bytes → Option ℕ
  pub locked_txs_map : Bytes → Bool

unfoldable pub new_list_mempool : ListMempool
new_list_mempool = record {
  slot = ltime_zero;
  txs_bytes = pos 0;
  txs = [];
  next_element = 0;
  txs_map = λ _. none;
  locked_txs_map = λ _. false;
}

-- A map with one key changed.
abbrev pub put {ℓ} : {A : Type ℓ} → (Bytes → A) → Bytes → A → Bytes → A
put m key a k = if bytes_equal k key then a else m k

-- `Push` of the empty cache
abbrev pub cache_push : Tx → Bool
cache_push tx = true

unfoldable pub is_full : MempoolConfig → ListMempool → ℕ → Bool
is_full config mem tx_size =
    leb_ℤ config.size (pos (length mem.txs))
    || ltb_ℤ config.max_txs_bytes (wrap64 (mem.txs_bytes +ℤ pos tx_size))

-- The hash of the Go library is a parameter.
module _ (ext : External) (sha256 : Bytes → Bytes) where
  abbrev pub tx_key : Tx → Bytes
  tx_key tx = sha256 (tx_hash ext tx)

  unfoldable pub add_tx : Tx → ℕ → ListMempool → ListMempool
  add_tx tx sender mem = record mem {
    txs =
        mem.txs
        ++ (record { element = mem.next_element; slot = mem.slot; tx = tx; sender = sender }) ∷ [];
    next_element = mem.next_element + 1;
    txs_map = put mem.txs_map (tx_key tx) (some mem.next_element);
    txs_bytes = wrap64 (mem.txs_bytes +ℤ pos (compute_size tx));
  }

  -- CheckTx
  unfoldable pub check_tx : MempoolConfig → Tx → ℕ → ListMempool → Outcome ListMempool
  check_tx config tx sender mem = do
    fail_if (is_full config mem (compute_size tx)) mempool_is_full
    fail_if (ltb_ℤ config.max_tx_bytes (pos (compute_size tx))) tx_too_large
    fail_if (not (cache_push tx)) tx_in_cache
    ok (add_tx tx sender mem)

  unfoldable pub remove_tx : Tx → ℕ → ListMempool → ListMempool
  remove_tx tx element mem = record mem {
    txs = keep (λ e. not (e.element == element)) mem.txs;
    txs_map = put mem.txs_map (tx_key tx) none;
    txs_bytes = wrap64 (mem.txs_bytes -ℤ pos (compute_size tx));
  }

  unfoldable pub remove_known : Tx → Option ℕ → ListMempool → ListMempool
  unfolding remove_tx
  remove_known tx none mem = mem
  remove_known tx (some e) mem = remove_tx tx e mem

  unfoldable pub remove_all : List Tx → ListMempool → ListMempool
  unfolding remove_known
  remove_all [] mem = mem
  remove_all (tx ∷ txs) mem = remove_all txs (remove_known tx (mem.txs_map (tx_key tx)) mem)

  -- Update
  unfoldable pub update_mempool : LTime → List Tx → ListMempool → ListMempool
  unfolding remove_all
  update_mempool slot txs mem = record (remove_all txs mem) { slot = slot }

  unfoldable pub lock_txs : List Tx → ListMempool → ListMempool
  lock_txs [] mem = mem
  lock_txs (tx ∷ txs) mem =
      lock_txs txs (record mem { locked_txs_map = put mem.locked_txs_map (tx_key tx) true })

  unfoldable pub release_txs : List Tx → ListMempool → ListMempool
  release_txs [] mem = mem
  release_txs (tx ∷ txs) mem =
      release_txs txs (record mem { locked_txs_map = put mem.locked_txs_map (tx_key tx) false })

  -- The loop of ReapTxs, on the transactions so far. A negative bound is none.
  unfoldable pub reap_from : ℤ → (Bytes → Bool) → List Tx → List MempoolTx → List Tx
  reap_from max_bytes locked txs [] = txs
  reap_from max_bytes locked txs (e ∷ es) =
      let skipped = reap_from max_bytes locked txs es in
      let taken = reap_from max_bytes locked (txs ++ e.tx ∷ []) es in
      let data_size = size_of_txs (txs ++ e.tx ∷ []) in
      if locked (tx_key e.tx)
      then skipped
      else if leb_ℤ (pos 0) max_bytes && ltb_ℤ max_bytes (pos data_size)
      then txs
      else taken

  unfoldable pub reap_txs : ℤ → ListMempool → List Tx
  reap_txs max_bytes mem = reap_from max_bytes mem.locked_txs_map [] mem.txs

-- The loop of reapMaxTxs, on the number of the transactions so far.
unfoldable pub reap_max_from : ℕ → ℕ → List MempoolTx → List Tx
reap_max_from max so_far [] = []
reap_max_from max so_far (e ∷ es) =
    let rest = reap_max_from max (so_far + 1) es in if leb so_far max then e.tx ∷ rest else []

-- reapMaxTxs, where a negative number stands for all.
unfoldable pub reap_max_txs : ℤ → ListMempool → List Tx
reap_max_txs (pos max) mem = reap_max_from max 0 mem.txs
reap_max_txs (negsuc _) mem = reap_max_from (length mem.txs) 0 mem.txs

-- Flush, which leaves the locked transactions.
unfoldable pub flush : ListMempool → ListMempool
flush mem = record mem { txs_bytes = pos 0; txs = []; txs_map = λ _. none }
