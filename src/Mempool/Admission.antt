-- ===== src/Mempool/Admission.antt =====
-- CheckTx of mempool/list_mempool.go: the limits of the pool, and transactions that arrive twice.
use obrs.Prelude.{
  ℕ, ◌+◌, ◌<◌, ◌≡◌, false, not, List, [], ◌∷◌, ◌++◌, arith, Bool-cases, inl, inr, All, length, keep,
  ◌==◌, length-append,
}
use obrs.Prelude.Int.{pos, ◌≤ℤ◌, ltb_ℤ}
use obrs.Prelude.Bytes.{Bytes, bytes_equal_refl}
use obrs.Prelude.Outcome.{ok}
use obrs.Types.Ltime.{LTime}
use obrs.Types.External.{External}
use obrs.Types.Tx.{Tx, compute_size}
use obrs.Mempool.{
  MempoolConfig, MempoolTx, ListMempool, is_full, tx_key, add_tx, check_tx, remove_tx, remove_known,
  remove_all, update_mempool,
}

module _ (ext : External) (sha256 : Bytes → Bytes) where
  -- What a successful CheckTx has passed.
  check_tx-eq-ok :
      (config : MempoolConfig) (tx : Tx) (sender : ℕ) (mem mem' : ListMempool)
      → check_tx ext sha256 config tx sender mem ≡ ok mem'
      → (is_full config mem (compute_size tx) ≡ false)
        × (ltb_ℤ config.max_tx_bytes (pos (compute_size tx)) ≡ false)
        × (mem' ≡ add_tx ext sha256 tx sender mem)
  unfolding check_tx
  check_tx-eq-ok config tx sender mem mem' h =
      elim (Bool-cases (is_full config mem (compute_size tx))) [
        | inl full ↦ ground arith
        | inr space ↦ elim (Bool-cases (ltb_ℤ config.max_tx_bytes (pos (compute_size tx)))) [
          | inl large ↦ ground arith
          | inr small ↦ (space, small, ground arith)
        ]
      ]

  -- After an admission the pool keeps all its limits: the number of transactions, the sum of their bytes
  -- as the pool counts it, and the bytes of the new transaction.
  pub check_tx_limits :
      (config : MempoolConfig) (tx : Tx) (sender : ℕ) (mem mem' : ListMempool)
      → check_tx ext sha256 config tx sender mem ≡ ok mem'
      → (pos (length mem'.txs) ≤ℤ config.size)
        × (mem'.txs_bytes ≤ℤ config.max_txs_bytes)
        × (pos (compute_size tx) ≤ℤ config.max_tx_bytes)
  unfolding is_full add_tx
  check_tx_limits config tx sender mem mem' h =
      let (space, small, e) = check_tx-eq-ok config tx sender mem mem' h in
      let entry : MempoolTx = record {
        element = mem.next_element;
        slot = mem.slot;
        tx = tx;
        sender = sender;
      } in
      let longer = length-append mem.txs (entry ∷ []) in (ground arith, ground arith, ground arith)

  -- The elements of the list are older than the next one.
  abbrev pub IsFresh : ListMempool → Type 0
  IsFresh mem = All (λ e. e.element < mem.next_element) mem.txs

  keep-fresh :
      (n : ℕ) (es : List MempoolTx) (last : MempoolTx)
      → All (λ e. e.element < n) es
      → keep
          (λ e. not (e.element == (n + 1)))
          ((es ++ (record last { element = n }) ∷ []) ++ (record last { element = n + 1 }) ∷ [])
        ≡ es ++ (record last { element = n }) ∷ []
  keep-fresh n [] last f = ground arith
  keep-fresh n (e ∷ es) last f = ground (arith, keep-fresh n es last f.1)

  -- A transaction that arrives twice, in a pool whose elements are older than the next one, is in the pool
  -- twice, and the update after its block takes out only the later one: the earlier one stays.
  pub update_mempool_twice :
      (tx : Tx) (sender : ℕ) (slot : LTime) (mem : ListMempool)
      → IsFresh mem
      → (update_mempool ext sha256 slot
          (tx ∷ [])
          (add_tx ext sha256 tx sender (add_tx ext sha256 tx sender mem))).txs
        ≡ mem.txs
          ++ (record { element = mem.next_element; slot = mem.slot; tx = tx; sender = sender }) ∷ []
  unfolding update_mempool remove_all remove_known remove_tx add_tx
  update_mempool_twice tx sender slot mem fresh = rw (bytes_equal_refl (tx_key ext sha256 tx)) (
      keep-fresh mem.next_element mem.txs
        (record { element = mem.next_element; slot = mem.slot; tx = tx; sender = sender }) fresh)
