-- ===== src/Store/Balances.antt =====
-- What a block of transactions does to the balances of store/kv_store.go.
use obrs.Prelude.{
  ◌≡◌, ◌≢◌, refl, sym, ap, subst, ◌∙◌, false, Option, none, some, List, [], ◌∷◌, ◌++◌, arith,
  Bool-cases, inl, inr, if◌then◌else◌,
}
use obrs.Prelude.Int.{ℤ, pos, ◌+ℤ◌, wrap64, wrap64-Is64, Is64}
use obrs.Prelude.Bytes.{Bytes, bytes_equal, bytes_equal_iff, bytes_equal_refl}
use obrs.Prelude.Decimal.{itoa, atoi, atoi_value, atoi_value-Is64, atoi_value-itoa}
use obrs.Prelude.Outcome.{ok, ok-inj}
use obrs.Prelude.Text.{codes}
use obrs.Types.Tx.{Tx, sb_amalgamate_tx, sb_deposit_checking_tx}
use obrs.Store.{
  get_custom_id, get_saving_bal, get_checking_bal, get_total_bal, amalgamate, deposit_checking,
  apply_small_bank, apply_txs, kv_commit_block, Batch, Database, int2byte, int_key, set_pair,
  table_saving, table_checking, stored,
}

-- The value of a key in a batch: the last pair counts.
abbrev pub last_in : Batch → Bytes → Option Bytes → Option Bytes
last_in [] key old = old
last_in ((k, v) ∷ batch) key old = last_in batch key (if bytes_equal k key then some v else old)

-- What the store relies on: a written batch is read back.
pub record IsMap (database : Database) : Type 0 where
  pub get_write :
      (db : database.Db) (batch : Batch) (key : Bytes)
      → database.get (database.write db batch) key ≡ last_in batch key (database.get db key)

append-cancel : (a b c : Bytes) → a ++ b ≡ a ++ c → b ≡ c
append-cancel [] b c e = e
append-cancel (x ∷ a) b c e = append-cancel a b c (ground arith)

-- Customers of different numbers have different keys.
int_key-inj :
    (table : Bytes) (i j : ℤ) → Is64 i → Is64 j → int_key table i ≡ int_key table j → i ≡ j
int_key-inj table i j hi hj e =
    sym (atoi_value-itoa i hi)
    ∙ ap atoi_value (append-cancel table (itoa i) (itoa j) e)
    ∙ atoi_value-itoa j hj

bytes_equal_other : (a b : Bytes) → a ≢ b → bytes_equal a b ≡ false
bytes_equal_other a b d = elim (Bool-cases (bytes_equal a b)) [
  | inl same ↦ absurd (d ((bytes_equal_iff a b).0 same))
  | inr other ↦ other
]

pub other_table :
    (i j : ℤ) → bytes_equal (int_key table_saving i) (int_key table_checking j) ≡ false
unfolding bytes_equal
other_table i j = refl

pub other_table_back :
    (i j : ℤ) → bytes_equal (int_key table_checking i) (int_key table_saving j) ≡ false
unfolding bytes_equal
other_table_back i j = refl

pub other_customer :
    (table : Bytes) (i j : ℤ)
    → Is64 i
    → Is64 j
    → i ≢ j
    → bytes_equal (int_key table i) (int_key table j) ≡ false
other_customer table i j hi hj d =
    bytes_equal_other (int_key table i) (int_key table j) (λ e. d (int_key-inj table i j hi hj e))

-- Balances come back from their text.
pub stored-int2byte : (z : ℤ) → Is64 z → stored (some (int2byte z)) ≡ ok z
stored-int2byte z h = ap ok (atoi_value-itoa z h)

stored-Is64 : (o : Option Bytes) (z : ℤ) → stored o ≡ ok z → Is64 z
stored-Is64 none z h = ground arith
stored-Is64 (some b) z h = subst Is64 (ok-inj h) (atoi_value-Is64 b)

module _ (database : Database) (laws : IsMap database) (db : database.Db) where
  open database use {get, write}

  -- A customer and the balances of his two accounts.
  pub record IsCustomer (name : Bytes) (id saving checking : ℤ) : Type 0 where
    pub account : get_custom_id database db name ≡ ok id
    pub saved : get_saving_bal database db id ≡ ok saving
    pub checked : get_checking_bal database db id ≡ ok checking

  id-Is64 : (name : Bytes) (id : ℤ) → get_custom_id database db name ≡ ok id → Is64 id
  unfolding get_custom_id
  id-Is64 name id h = stored-Is64 _ id h

  checking-write :
      (batch : Batch) (id : ℤ)
      → get_checking_bal database (write db batch) id
        ≡ stored (last_in batch (int_key table_checking id) (get db (int_key table_checking id)))
  unfolding get_checking_bal
  checking-write batch id = ap stored (laws.get_write db batch (int_key table_checking id))

  saving-write :
      (batch : Batch) (id : ℤ)
      → get_saving_bal database (write db batch) id
        ≡ stored (last_in batch (int_key table_saving id) (get db (int_key table_saving id)))
  unfolding get_saving_bal
  saving-write batch id = ap stored (laws.get_write db batch (int_key table_saving id))

  -- A transaction of a type with its arguments.
  abbrev pub tx_of : Tx → Bytes → List Bytes → Tx
  tx_of tx tx_type args = record tx { tx_type = tx_type; args = args }

  -- The database after a block of one batch, with the result of closing it.
  committed-single :
      (txs : List Tx) (batch : Batch)
      → apply_txs database db [] txs ≡ ok batch
      → (r : Option Bytes) × (kv_commit_block database db txs ≡ ok (write db batch, r))
  unfolding kv_commit_block
  committed-single txs batch h =
      (if database.closes db batch then some (codes "result hash") else none, rw h refl)

  -- A block of one transaction.
  apply_txs-single :
      (tx : Tx) (batch : Batch)
      → apply_small_bank database db [] tx ≡ ok batch
      → apply_txs database db [] (tx ∷ []) ≡ ok batch
  unfolding apply_txs
  apply_txs-single tx batch h = rw (h, apply_txs) refl

  abbrev amalgamated : ℤ → ℤ → ℤ → ℤ → ℤ → Batch
  amalgamated i j s c e =
      (int_key table_checking j, int2byte (wrap64 (e +ℤ wrap64 (s +ℤ c))))
      ∷ (int_key table_saving i, int2byte (pos 0))
      ∷ (int_key table_checking i, int2byte (pos 0))
      ∷ []

  amalgamate-eq :
      (n₁ n₂ : Bytes) (i j s c d e : ℤ)
      → IsCustomer n₁ i s c
      → IsCustomer n₂ j d e
      → amalgamate database db [] (n₁ ∷ n₂ ∷ []) ≡ ok (amalgamated i j s c e)
  unfolding amalgamate
  amalgamate-eq n₁ n₂ i j s c d e k l = rw k.account (rw l.account (rw (total, l.checked) refl))
    where
      total : get_total_bal database db i ≡ ok (wrap64 (s +ℤ c))
      total = unfold get_total_bal in rw k.saved (rw k.checked refl)

  amalgamate-applied :
      (tx : Tx) (n₁ n₂ : Bytes) (i j s c d e : ℤ)
      → IsCustomer n₁ i s c
      → IsCustomer n₂ j d e
      → (r : Option Bytes) × (kv_commit_block database db
            (tx_of tx sb_amalgamate_tx (n₁ ∷ n₂ ∷ []) ∷ [])
          ≡ ok (write db (amalgamated i j s c e), r))
  unfolding apply_small_bank bytes_equal
  amalgamate-applied tx n₁ n₂ i j s c d e k l =
      committed-single _ (amalgamated i j s c e)
        (apply_txs-single _ _ (amalgamate-eq n₁ n₂ i j s c d e k l))

  -- Over a database that reads back what was written, a block with one transaction, which amalgamates a
  -- customer into another one with another number, and no other transaction, moves both of his balances to the other's checking account: his are 0 then, the other's checking is the
  -- sum of the three in 64 bits, and the other's saving stays.
  pub amalgamate_moves :
      (tx : Tx) (n₁ n₂ : Bytes) (i j s c d e : ℤ)
      → IsCustomer n₁ i s c
      → IsCustomer n₂ j d e
      → i ≢ j
      → (db' : database.Db) × (r : Option Bytes) × (kv_commit_block database db
            (tx_of tx sb_amalgamate_tx (n₁ ∷ n₂ ∷ []) ∷ [])
          ≡ ok (db', r))
        × (get_saving_bal database db' i ≡ ok (pos 0))
        × (get_checking_bal database db' i ≡ ok (pos 0))
        × (get_checking_bal database db' j ≡ ok (wrap64 (e +ℤ wrap64 (s +ℤ c))))
        × (get_saving_bal database db' j ≡ ok d)
  amalgamate_moves tx n₁ n₂ i j s c d e k l apart =
      let (r, done) = amalgamate-applied tx n₁ n₂ i j s c d e k l in
      let batch = amalgamated i j s c e in
      let hi = id-Is64 n₁ i k.account in
      let hj = id-Is64 n₂ j l.account in
      let ij = other_customer table_checking i j hi hj apart in
      let sij = other_customer table_saving i j hi hj apart in
      let zero = stored-int2byte (pos 0) (ground arith) in
      (
        write db batch,
        r,
        done,
        saving-write batch i
            ∙ rw (other_table_back j i)
                (rw (bytes_equal_refl (int_key table_saving i)) (rw (other_table_back i i) zero)),
        checking-write batch i ∙ rw (bytes_equal_refl (int_key table_checking i)) zero,
        checking-write batch j
            ∙ rw (bytes_equal_refl (int_key table_checking j))
                (rw (other_table i j) (rw ij (stored-int2byte _ (wrap64-Is64 _)))),
        saving-write batch j
            ∙ rw (other_table_back j j)
                (rw sij (rw (other_table_back i j) (unfold get_saving_bal in l.saved))),
      )

  -- Amalgamating a customer with himself loses all his money: both of his balances are 0 then.
  pub amalgamate_self :
      (tx : Tx) (name : Bytes) (i s c : ℤ)
      → IsCustomer name i s c
      → (db' : database.Db) × (r : Option Bytes) × (kv_commit_block database db
            (tx_of tx sb_amalgamate_tx (name ∷ name ∷ []) ∷ [])
          ≡ ok (db', r))
        × (get_saving_bal database db' i ≡ ok (pos 0))
        × (get_checking_bal database db' i ≡ ok (pos 0))
  amalgamate_self tx name i s c k =
      let (r, done) = amalgamate-applied tx name name i i s c s c k k in
      let batch = amalgamated i i s c c in
      let zero = stored-int2byte (pos 0) (ground arith) in
      (
        write db batch,
        r,
        done,
        saving-write batch i
            ∙ rw (other_table_back i i) (rw (bytes_equal_refl (int_key table_saving i)) zero),
        checking-write batch i ∙ rw (bytes_equal_refl (int_key table_checking i)) zero,
      )

  deposit-eq :
      (batch : Batch) (name text : Bytes) (i s c a : ℤ)
      → IsCustomer name i s c
      → atoi text ≡ some a
      → deposit_checking database db batch (name ∷ text ∷ [])
        ≡ ok (set_pair batch (int_key table_checking i) (wrap64 (c +ℤ a)))
  unfolding deposit_checking
  deposit-eq batch name text i s c a k e = rw e (rw k.account (rw k.checked refl))

  apply-deposit :
      (tx : Tx) (batch : Batch) (name text : Bytes) (i s c a : ℤ)
      → IsCustomer name i s c
      → atoi text ≡ some a
      → apply_small_bank database db batch (tx_of tx sb_deposit_checking_tx (name ∷ text ∷ []))
        ≡ ok (set_pair batch (int_key table_checking i) (wrap64 (c +ℤ a)))
  unfolding apply_small_bank bytes_equal
  apply-deposit tx batch name text i s c a k e = deposit-eq batch name text i s c a k e

  -- Of two deposits to one account in one block only the second one counts: each starts from the balance
  -- before the block.
  pub deposit_lost :
      (tx : Tx) (name t₁ t₂ : Bytes) (i s c a b : ℤ)
      → IsCustomer name i s c
      → atoi t₁ ≡ some a
      → atoi t₂ ≡ some b
      → (db' : database.Db) × (r : Option Bytes) × (kv_commit_block database db (
            tx_of tx sb_deposit_checking_tx (name ∷ t₁ ∷ [])
            ∷ tx_of tx sb_deposit_checking_tx (name ∷ t₂ ∷ [])
            ∷ [])
          ≡ ok (db', r))
        × (get_checking_bal database db' i ≡ ok (wrap64 (c +ℤ b)))
  unfolding apply_txs
  deposit_lost tx name t₁ t₂ i s c a b k e f =
      let key = int_key table_checking i in
      let once = set_pair [] key (wrap64 (c +ℤ a)) in
      let twice = set_pair once key (wrap64 (c +ℤ b)) in
      let both : apply_txs database db [] (
            tx_of tx sb_deposit_checking_tx (name ∷ t₁ ∷ [])
            ∷ tx_of tx sb_deposit_checking_tx (name ∷ t₂ ∷ [])
            ∷ [])
          ≡ ok twice =
        rw (apply-deposit tx [] name t₁ i s c a k e, apply_txs)
          (rw (apply-deposit tx once name t₂ i s c b k f, apply_txs) refl) in
      let (r, done) = committed-single _ twice both in
      (
        write db twice,
        r,
        done,
        checking-write twice i ∙ rw (bytes_equal_refl key) (stored-int2byte _ (wrap64-Is64 _)),
      )
