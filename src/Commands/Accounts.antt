-- ===== src/Commands/Accounts.antt =====
-- cmd/commands/init_db.go: the test database of the small bank.
use obrs.Prelude.{
  ℕ, zero, suc, ◌+◌, ◌<◌, ◌≡◌, ◌≢◌, refl, false, Option, none, some, ◌++◌, if◌then◌else◌, arith,
  inl, inr, Bool-cases, ◌==◌, subst,
}
use obrs.Prelude.Int.{ℤ, pos, negsuc, Is64}
use obrs.Prelude.Bytes.{Bytes, bytes_equal, bytes_equal_refl}
use obrs.Prelude.Text.{codes}
use obrs.Prelude.Decimal.{itoa}
use obrs.Prelude.Outcome.{Outcome, ok, err, db_error, negative_sum}
use obrs.Mempool.Generator.{username}
use obrs.Store.{
  Database, table_account, table_checking, table_saving, gen_key, int_key, int2byte, get_custom_id,
  get_checking_bal, get_saving_bal,
}
use obrs.Store.Balances.{other_customer, other_table, other_table_back, stored-int2byte}

module _ (database : Database) where
  open database use {Db, get, set}

  -- initAccount
  unfoldable pub init_account : Db → Bytes → ℤ → ℤ → ℤ → Db
  init_account db name id saving checking =
      let db₁ = set db (gen_key table_account name) (int2byte id) in
      let db₂ = set db₁ (gen_key table_checking (int2byte id)) (int2byte checking) in
      set db₂ (gen_key table_saving (int2byte id)) (int2byte saving)

  -- The loop of initDB from a round on, with the rounds that are left
  init_from : ℕ → ℕ → Db → Db
  unfolding init_account
  init_from i zero db = db
  init_from i (suc n) db =
      init_from (i + 1) n
        (init_account db (codes "username" ++ itoa (pos (i + 1))) (pos (i + 1)) (pos 200) (pos 200))

  -- initDB, on the database that is opened, or none where that fails
  unfoldable pub init_db : ℤ → Option Db → Outcome Db
  unfolding init_from
  init_db account_sum none = err db_error
  init_db (pos n) (some db) = ok (init_from 0 n db)
  init_db (negsuc n) (some db) = err negative_sum

-- A pair that was set is read back, and the other keys keep their values.
pub record SetLaws (database : Database) : Type 0 where
  pub get_set :
      (db : database.Db) (k v key : Bytes)
      → database.get (database.set db k v) key
        ≡ (if bytes_equal k key then some v else database.get db key)

other_user :
    (i j : ℕ)
    → Is64 (pos (i + 1))
    → Is64 (pos (j + 1))
    → i ≢ j
    → bytes_equal (gen_key table_account (username i)) (gen_key table_account (username j)) ≡ false
other_user i j hi hj d =
    other_customer (codes "accoutusername") (pos (i + 1)) (pos (j + 1)) hi hj
      (λ e. d (ground arith))

module _ (database : Database) (laws : SetLaws database) where
  open database use {Db, get, set}

  -- The account of a user, by the round that makes it.
  record IsOpened (db : Db) (i : ℕ) : Type 0 where
    number : get db (gen_key table_account (username i)) ≡ some (itoa (pos (i + 1)))
    checked : get db (int_key table_checking (pos (i + 1))) ≡ some (itoa (pos 200))
    saved : get db (int_key table_saving (pos (i + 1))) ≡ some (itoa (pos 200))

  abbrev round : ℕ → Db → Db
  round i db = init_account database db (username i) (pos (i + 1)) (pos 200) (pos 200)

  get-round :
      (i : ℕ) (db : Db) (key : Bytes)
      → get (round i db) key ≡ (
          if bytes_equal (int_key table_saving (pos (i + 1))) key
          then some (itoa (pos 200))
          else if bytes_equal (int_key table_checking (pos (i + 1))) key
          then some (itoa (pos 200))
          else if bytes_equal (gen_key table_account (username i)) key
          then some (itoa (pos (i + 1)))
          else get db key)
  unfolding init_account
  get-round i db key =
      let id = pos (i + 1) in
      let named = set db (gen_key table_account (username i)) (itoa id) in
      let checked = set named (int_key table_checking id) (itoa (pos 200)) in
      ground (
        arith,
        laws.get_set checked (int_key table_saving id) (itoa (pos 200)) key,
        laws.get_set named (int_key table_checking id) (itoa (pos 200)) key,
        laws.get_set db (gen_key table_account (username i)) (itoa id) key,
      )

  round-IsOpened : (i : ℕ) (db : Db) → IsOpened (round i db) i
  unfolding bytes_equal
  round-IsOpened i db = record {
    number = ground (
      arith,
      get-round i db (gen_key table_account (username i)),
      bytes_equal_refl (gen_key table_account (username i)),
    );
    checked = ground (
      arith,
      get-round i db (int_key table_checking (pos (i + 1))),
      bytes_equal_refl (int_key table_checking (pos (i + 1))),
    );
    saved = ground (
      arith,
      get-round i db (int_key table_saving (pos (i + 1))),
      bytes_equal_refl (int_key table_saving (pos (i + 1))),
    );
  }

  round-keeps :
      (i j : ℕ) (db : Db)
      → Is64 (pos (i + 1))
      → Is64 (pos (j + 1))
      → i ≢ j
      → IsOpened db j
      → IsOpened (round i db) j
  unfolding bytes_equal
  round-keeps i j db hi hj d o = record {
    number = ground (
      arith,
      get-round i db (gen_key table_account (username j)),
      other_user i j hi hj d,
      o.number,
    );
    checked = ground (
      arith,
      get-round i db (int_key table_checking (pos (j + 1))),
      other_table (pos (i + 1)) (pos (j + 1)),
      other_customer table_checking (pos (i + 1)) (pos (j + 1)) hi hj (λ e. d (ground arith)),
      o.checked,
    );
    saved = ground (
      arith,
      get-round i db (int_key table_saving (pos (j + 1))),
      other_table_back (pos (i + 1)) (pos (j + 1)),
      other_customer table_saving (pos (i + 1)) (pos (j + 1)) hi hj (λ e. d (ground arith)),
      o.saved,
    );
  }

  init_from-IsOpened :
      (i n : ℕ) (db : Db)
      → Is64 (pos (i + n))
      → ((j : ℕ) → j < i → IsOpened db j)
      → (j : ℕ) → j < i + n
      → IsOpened (init_from database i n db) j
  unfolding init_from
  init_from-IsOpened i zero db small before j lt = before j (omega arith)
  init_from-IsOpened i (suc n) db small before j lt =
      init_from-IsOpened (i + 1) n (round i db) (ground arith) upto j (omega arith)
    where
      upto : (j : ℕ) → j < i + 1 → IsOpened (round i db) j
      upto j below = elim (Bool-cases (j == i)) [
        | inl same ↦ subst (IsOpened (round i db)) (ground arith) (round-IsOpened i db)
        | inr other ↦
            round-keeps i j db (ground arith) (ground arith) (λ e. ground arith)
              (before j (ground arith))
      ]

  -- Over a database that reads back what was set: the one that initDB makes for a number of accounts,
  -- at most the greatest int64, has each user that the generator of transactions can draw from so many
  -- accounts: with the number of the draw and one, and 200 on both of his accounts.
  pub init_db-drawn :
      (n : ℕ) (db : Db)
      → Is64 (pos n)
      → (db' : Db) × (init_db database (pos n) (some db) ≡ ok db')
        × ((drawn : ℕ)
            → drawn < n
            → (get_custom_id database db' (username drawn) ≡ ok (pos (drawn + 1)))
              × (get_checking_bal database db' (pos (drawn + 1)) ≡ ok (pos 200))
              × (get_saving_bal database db' (pos (drawn + 1)) ≡ ok (pos 200)))
  unfolding init_db get_custom_id get_checking_bal get_saving_bal
  init_db-drawn n db small = (
    init_from database 0 n db,
    refl,
    λ drawn lt.
        let o =
          init_from-IsOpened 0 n db (ground arith) (λ j below. absurd (omega arith)) drawn
            (omega arith) in
        (
          ground (arith, o.number, stored-int2byte (pos (drawn + 1))),
          ground (arith, o.checked, stored-int2byte (pos 200)),
          ground (arith, o.saved, stored-int2byte (pos 200)),
        ),
  )
