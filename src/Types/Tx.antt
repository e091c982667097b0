-- ===== src/Types/Tx.antt =====
-- types/tx.go: small bank transactions and lists of them. `CalculateTime` and `MarkTime` of a Tx have
-- empty bodies in the source.
use obrs.Prelude.{
  ℕ, ◌+◌, ◌*◌, Bool, false, Option, none, some, ◌==◌, if◌then◌else◌, List, [], ◌∷◌, ◌++◌, map,
  length,
}
use obrs.Prelude.Int.{ℤ}
use obrs.Prelude.Bytes.{Bytes, bytes_of}
use obrs.Prelude.Outcome.{Outcome, ok, panic}
use obrs.Prelude.Text.{codes}
use obrs.Types.External.{External}

abbrev pub sb_balance_tx : Bytes
sb_balance_tx = codes "balance"

abbrev pub sb_deposit_checking_tx : Bytes
sb_deposit_checking_tx = codes "deposit_checking"

abbrev pub sb_transaction_saving_tx : Bytes
sb_transaction_saving_tx = codes "transaction_saving"

abbrev pub sb_amalgamate_tx : Bytes
sb_amalgamate_tx = codes "amalgamate"

abbrev pub sb_write_checking_tx : Bytes
sb_write_checking_tx = codes "write_checking"

pub record Tx : Type 0 where
  pub tx_type : Bytes
  pub args : List Bytes
  pub tx_send_timestamp : ℤ
  pub signature : Bytes
  -- `none` is the nil slice
  pub public_key : Option Bytes

concat : List Bytes → Bytes
concat [] = []
concat (b ∷ bs) = b ++ concat bs

-- The hasher is fed the type and then each argument: it sees their concatenation.
unfoldable pub tx_hash : External → Tx → Bytes
unfolding concat
tx_hash ext tx = ext.tm_hash (tx.tx_type ++ concat tx.args)

-- ed25519.Verify panics on a key that is not 32 bytes long.
unfoldable pub tx_valid : External → Tx → Outcome Bool
tx_valid ext tx = elim tx.public_key [
  | none ↦ ok false
  | some key ↦
      if length key == 32 then ok (ext.ed25519_verify key (tx_hash ext tx) tx.signature) else panic
]

sum_lengths : List Bytes → ℕ
sum_lengths [] = 0
sum_lengths (b ∷ bs) = length b + sum_lengths bs

unfoldable pub compute_size : Tx → ℕ
unfolding sum_lengths
compute_size tx =
    length tx.tx_type
    + length tx.signature
    + length (bytes_of tx.public_key)
    + sum_lengths tx.args
    + 9 * 8

-- CaputeSizeForTxs
unfoldable pub size_of_txs : List Tx → ℕ
size_of_txs [] = 0
size_of_txs (tx ∷ txs) = compute_size tx + size_of_txs txs

unfoldable pub txs_hash : External → List Tx → Bytes
txs_hash ext txs = ext.merkle_root (map (tx_hash ext) txs)
