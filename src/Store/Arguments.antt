-- ===== src/Store/Arguments.antt =====
-- Transactions without their arguments in store/kv_store.go.
use obrs.Prelude.{◌≡◌, refl, ◌⊎◌, inl, inr, List, [], ◌∷◌}
use obrs.Prelude.Bytes.{Bytes, bytes_equal}
use obrs.Prelude.Outcome.{panic}
use obrs.Types.Tx.{
  Tx, sb_amalgamate_tx, sb_deposit_checking_tx, sb_transaction_saving_tx, sb_write_checking_tx,
}
use obrs.Store.{
  Batch, Database, amalgamate, deposit_checking, transaction_saving, write_checking,
  apply_small_bank, apply_txs, kv_commit_block,
}

-- A transaction that moves money.
abbrev pub MovesMoney : Bytes → Type 0
MovesMoney tx_type =
    (tx_type ≡ sb_deposit_checking_tx)
    ⊎ ((tx_type ≡ sb_transaction_saving_tx)
        ⊎ ((tx_type ≡ sb_amalgamate_tx) ⊎ (tx_type ≡ sb_write_checking_tx)))

missing_arguments :
    (database : Database) (db : database.Db) (batch : Batch) (tx : Tx)
    → MovesMoney tx.tx_type
    → tx.args ≡ []
    → apply_small_bank database db batch tx ≡ panic
unfolding apply_small_bank deposit_checking transaction_saving amalgamate write_checking bytes_equal
missing_arguments database db batch tx (inl k) n = rw (k, n) refl
missing_arguments database db batch tx (inr (inl k)) n = rw (k, n) refl
missing_arguments database db batch tx (inr (inr (inl k))) n = rw (k, n) refl
missing_arguments database db batch tx (inr (inr (inr k))) n = rw (k, n) refl

stopped :
    (database : Database) (db : database.Db) (batch : Batch) (tx : Tx) (txs : List Tx)
    → apply_small_bank database db batch tx ≡ panic
    → apply_txs database db batch (tx ∷ txs) ≡ panic
unfolding apply_txs
stopped database db batch tx txs h = rw (h, apply_txs) refl

-- A block whose first transaction moves money and has no arguments stops the node that commits it.
pub kv_commit_block_missing :
    (database : Database) (db : database.Db) (tx : Tx) (txs : List Tx)
    → MovesMoney tx.tx_type
    → tx.args ≡ []
    → kv_commit_block database db (tx ∷ txs) ≡ panic
unfolding kv_commit_block
kv_commit_block_missing database db tx txs kind n =
    rw (stopped database db [] tx txs (missing_arguments database db [] tx kind n)) refl
