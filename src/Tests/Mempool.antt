-- ===== src/Tests/Mempool.antt =====
-- A pool of two transactions.
use obrs.Prelude.{◌≡◌, refl, none, [], ◌∷◌, ◌++◌, arith, length}
use obrs.Prelude.Int.{pos, ◌≤ℤ◌, ◌+ℤ◌, wrap64}
use obrs.Prelude.Bytes.{Bytes}
use obrs.Prelude.Text.{codes}
use obrs.Prelude.Outcome.{ok}
use obrs.Types.Tx.{Tx, compute_size}
use obrs.Mempool.{
  MempoolConfig, ListMempool, new_list_mempool, add_tx, check_tx, is_full, update_mempool, reap_txs,
}
use obrs.Mempool.Reaping.{Fits, reap_txs-Fits}
use obrs.Mempool.Admission.{IsFresh, check_tx_limits, update_mempool_twice}
use obrs.Tests.Samples.{open_ext}

abbrev tx_for : Bytes → Tx
tx_for name = record {
  tx_type = codes "balance";
  args = name ∷ [];
  tx_send_timestamp = pos 0;
  signature = [];
  public_key = none;
}

abbrev id : Bytes → Bytes
id b = b

abbrev one_tx : ListMempool
one_tx = add_tx open_ext id (tx_for (codes "ann")) 1 new_list_mempool

abbrev two_txs : ListMempool
two_txs = add_tx open_ext id (tx_for (codes "bob")) 1 one_tx

abbrev limits : MempoolConfig
limits = record { size = pos 2; max_tx_bytes = pos 100; max_txs_bytes = pos 200 }

reap_txs-Fits_example :
    Fits open_ext id 100 two_txs.locked_txs_map (reap_txs open_ext id (pos 100) two_txs)
reap_txs-Fits_example = reap_txs-Fits open_ext id 100 two_txs

admitted : check_tx open_ext id limits (tx_for (codes "bob")) 1 one_tx ≡ ok two_txs
unfolding check_tx is_full add_tx new_list_mempool compute_size wrap64 ◌+ℤ◌
admitted = refl

check_tx_limits_example :
    (pos (length two_txs.txs) ≤ℤ pos 2)
    × (two_txs.txs_bytes ≤ℤ pos 200)
    × (pos (compute_size (tx_for (codes "bob"))) ≤ℤ pos 100)
check_tx_limits_example =
    check_tx_limits open_ext id limits (tx_for (codes "bob")) 1 one_tx two_txs admitted

one_tx-IsFresh : IsFresh open_ext id one_tx
unfolding add_tx new_list_mempool
one_tx-IsFresh = (omega arith, tt)

update_mempool_twice_example :
    (update_mempool open_ext id (pos 1) (tx_for (codes "bob") ∷ []) (
      add_tx open_ext id
        (tx_for (codes "bob"))
        2
        (add_tx open_ext id (tx_for (codes "bob")) 2 one_tx))).txs
    ≡ one_tx.txs
      ++ (record {
        element = one_tx.next_element;
        slot = one_tx.slot;
        tx = tx_for (codes "bob");
        sender = 2;
      })
        ∷ []
update_mempool_twice_example =
    update_mempool_twice open_ext id (tx_for (codes "bob")) 2 (pos 1) one_tx one_tx-IsFresh
