-- ===== src/Store.antt =====
-- store/kv_store.go: the small bank on a key-value database. The database is a parameter, as the LevelDB
-- of tm-db is not part of the repository; a batch is the list of its pairs, the newest last. Setting a
-- pair in a batch gives no error here, since keys and values are never empty.
pub mod Balances
pub mod Arguments
use obrs.Prelude.{
  ℕ, Bool, true, false, Option, none, some, List, [], ◌∷◌, ◌++◌, get_elem?, if◌then◌else◌,
}
use obrs.Prelude.Int.{ℤ, pos, ◌+ℤ◌, ◌-ℤ◌, leb_ℤ, wrap64, wrap32}
use obrs.Prelude.Bytes.{Bytes, bytes_equal}
use obrs.Prelude.Text.{codes}
use obrs.Prelude.Decimal.{itoa, atoi, atoi_value}
use obrs.Prelude.Outcome.{
  Outcome, ok, err, panic, deref, ◌>>=◌, bad_number, db_error, wrong_tx_type,
}
use obrs.Types.Tx.{
  Tx, sb_balance_tx, sb_deposit_checking_tx, sb_transaction_saving_tx, sb_amalgamate_tx,
  sb_write_checking_tx,
}

abbrev pub Batch : Type 0
Batch = List (Bytes × Bytes)

-- tm-db's DB: `get` gives an error or a value, empty for a missing key; `write` writes a batch, and
-- `closes` tells whether closing it gives no error.
pub record Database : Type 1 where
  pub Db : Type 0
  pub get : Db → Bytes → Option Bytes
  pub set : Db → Bytes → Bytes → Db
  pub write : Db → Batch → Db
  pub closes : Db → Batch → Bool

abbrev pub table_account : Bytes
table_account = codes "accout"

abbrev pub table_saving : Bytes
table_saving = codes "saving"

abbrev pub table_checking : Bytes
table_checking = codes "checking"

-- GenKey on a name, and on a customer's number.
abbrev pub gen_key : Bytes → Bytes → Bytes
gen_key table primary_key = table ++ primary_key

abbrev pub int_key : Bytes → ℤ → Bytes
int_key table id = gen_key table (itoa id)

-- Byte2int ignores the error of Atoi.
abbrev pub byte2int : Bytes → ℤ
byte2int src = atoi_value src

abbrev pub int2byte : ℤ → Bytes
int2byte src = itoa src

abbrev pub set_pair : Batch → Bytes → ℤ → Batch
set_pair batch key value = batch ++ (key, int2byte value) ∷ []

abbrev number : Option ℤ → Outcome ℤ
number none = err bad_number
number (some n) = ok n

abbrev pub stored : Option Bytes → Outcome ℤ
stored none = err db_error
stored (some b) = ok (byte2int b)

module _ (database : Database) where
  open database use {Db, get}

  unfoldable pub get_custom_id : Db → Bytes → Outcome ℤ
  get_custom_id db name = stored (get db (gen_key table_account name))

  unfoldable pub get_checking_bal : Db → ℤ → Outcome ℤ
  get_checking_bal db id = stored (get db (int_key table_checking id))

  unfoldable pub get_saving_bal : Db → ℤ → Outcome ℤ
  get_saving_bal db id = stored (get db (int_key table_saving id))

  unfoldable pub get_total_bal : Db → ℤ → Outcome ℤ
  get_total_bal db id = do
    saving ← get_saving_bal db id
    checking ← get_checking_bal db id
    ok (wrap64 (saving +ℤ checking))

  -- An argument out of range panics, as an index of a slice does.
  abbrev arg : List Bytes → ℕ → Outcome Bytes
  arg args i = deref (get_elem? args i)

  unfoldable pub deposit_checking : Db → Batch → List Bytes → Outcome Batch
  deposit_checking db batch args = do
    name ← arg args 0
    text ← arg args 1
    value ← number (atoi text)
    id ← get_custom_id db name
    pre_bal ← get_checking_bal db id
    ok (set_pair batch (int_key table_checking id) (wrap64 (pre_bal +ℤ value)))

  unfoldable pub transaction_saving : Db → Batch → List Bytes → Outcome Batch
  transaction_saving db batch args = do
    name ← arg args 0
    text ← arg args 1
    value ← number (atoi text)
    id ← get_custom_id db name
    pre_bal ← get_saving_bal db id
    ok (set_pair batch (int_key table_saving id) (wrap64 (pre_bal +ℤ value)))

  unfoldable pub amalgamate : Db → Batch → List Bytes → Outcome Batch
  amalgamate db batch args = do
    n1 ← arg args 0
    n2 ← arg args 1
    id1 ← get_custom_id db n1
    id2 ← get_custom_id db n2
    total ← get_total_bal db id1
    pre_bal ← get_checking_bal db id2
    ok (
        set_pair
          (set_pair (set_pair batch (int_key table_checking id2) (wrap64 (pre_bal +ℤ total)))
            (int_key table_saving id1) (pos 0))
          (int_key table_checking id1) (pos 0))

  -- A check for more than the total costs one more.
  abbrev debited : ℤ → ℤ → ℤ → ℤ
  debited total value pre_bal =
      if leb_ℤ total value
      then wrap64 (pre_bal -ℤ wrap64 (value +ℤ pos 1))
      else wrap64 (pre_bal -ℤ value)

  unfoldable pub write_checking : Db → Batch → List Bytes → Outcome Batch
  write_checking db batch args = do
    name ← arg args 0
    text ← arg args 1
    value ← number (atoi text)
    id ← get_custom_id db name
    total ← get_total_bal db id
    pre_bal ← get_checking_bal db id
    ok (set_pair batch (int_key table_checking id) (debited total value pre_bal))

  -- applySmallBank reads the database and writes to the batch.
  unfoldable pub apply_small_bank : Db → Batch → Tx → Outcome Batch
  apply_small_bank db batch tx =
      if bytes_equal tx.tx_type sb_balance_tx
      then ok batch
      else if bytes_equal tx.tx_type sb_deposit_checking_tx
      then deposit_checking db batch tx.args
      else if bytes_equal tx.tx_type sb_transaction_saving_tx
      then transaction_saving db batch tx.args
      else if bytes_equal tx.tx_type sb_amalgamate_tx
      then amalgamate db batch tx.args
      else if bytes_equal tx.tx_type sb_write_checking_tx
      then write_checking db batch tx.args
      else err wrong_tx_type

  -- The loop of CommitBlock: a transaction that fails is skipped, and a panic stops it.
  unfoldable pub apply_txs : Db → Batch → List Tx → Outcome Batch
  apply_txs db batch [] = ok batch
  apply_txs db batch (tx ∷ txs) = elim (apply_small_bank db batch tx) [
    | ok batch' ↦ apply_txs db batch' txs
    | err _ ↦ apply_txs db batch txs
    | panic ↦ panic
  ]

  -- KVStore.CommitBlock: the database after it, and the result hash or an error.
  unfoldable pub kv_commit_block : Db → List Tx → Outcome (Db × Option Bytes)
  kv_commit_block db txs = do
    batch ← apply_txs db [] txs
    ok (
      database.write db batch,
      if database.closes db batch then some (codes "result hash") else none,
    )

  -- InitAccount, with the counter that it takes the customer's number from.
  unfoldable pub init_account : Db × ℤ → Bytes → ℤ → ℤ → Db × ℤ
  init_account (db, increasing_id) name saving checking =
      let next = wrap32 (increasing_id +ℤ pos 1) in
      let id = int2byte (wrap32 (next -ℤ pos 1)) in
      let db₁ = database.set db (gen_key table_account name) id in
      let db₂ = database.set db₁ (gen_key table_checking id) (int2byte checking) in
      (database.set db₂ (gen_key table_saving id) (int2byte saving), next)
