-- ===== src/Tests/Store.antt =====
-- Two customers of the small bank, ann and bob.
use obrs.Prelude.{ℕ, ◌+◌, ◌<◌, ◌≡◌, refl, true, Option, some, none, [], ◌∷◌, arith, if◌then◌else◌}
use obrs.Prelude.Int.{pos, ◌+ℤ◌, wrap64}
use obrs.Prelude.Bytes.{Bytes, bytes_equal}
use obrs.Prelude.Text.{codes}
use obrs.Prelude.Decimal.{itoa, atoi_value}
use obrs.Prelude.Outcome.{ok}
use obrs.Types.Tx.{Tx, sb_amalgamate_tx}
use obrs.Store.{Database, get_custom_id, get_saving_bal, get_checking_bal, kv_commit_block}
use obrs.Commands.Accounts.{SetLaws, init_db, init_db-drawn}
use obrs.Mempool.Generator.{username}
use obrs.Store.Balances.{IsMap, IsCustomer, last_in, amalgamate_moves}

-- A database in memory, where every read gives a value.
abbrev in_memory : Database
in_memory = record {
  Db = Bytes → Option Bytes;
  get = λ db k. db k;
  set = λ db k v x. if bytes_equal k x then some v else db x;
  write = λ db batch k. last_in batch k (db k);
  closes = λ _ _. true;
}

in_memory-IsMap : IsMap in_memory
in_memory-IsMap = record { get_write = λ db batch k. refl }

abbrev bank : Bytes → Option Bytes
bank k =
    if bytes_equal k (codes "accoutann")
    then some (codes "1")
    else if bytes_equal k (codes "accoutbob")
    then some (codes "2")
    else if bytes_equal k (codes "saving1")
    then some (codes "30")
    else if bytes_equal k (codes "checking1")
    then some (codes "4")
    else if bytes_equal k (codes "saving2")
    then some (codes "5")
    else if bytes_equal k (codes "checking2")
    then some (codes "6")
    else some []

ann : IsCustomer in_memory in_memory-IsMap bank (codes "ann") (pos 1) (pos 30) (pos 4)
unfolding get_custom_id get_saving_bal get_checking_bal bytes_equal itoa atoi_value
ann = record { account = refl; saved = refl; checked = refl }

bob : IsCustomer in_memory in_memory-IsMap bank (codes "bob") (pos 2) (pos 5) (pos 6)
unfolding get_custom_id get_saving_bal get_checking_bal bytes_equal itoa atoi_value
bob = record { account = refl; saved = refl; checked = refl }

abbrev empty_tx : Tx
empty_tx = record {
  tx_type = [];
  args = [];
  tx_send_timestamp = pos 0;
  signature = [];
  public_key = none;
}

amalgamate_moves_example :
    (db' : Bytes → Option Bytes) × (r : Option Bytes) × (kv_commit_block in_memory bank
        (record empty_tx { tx_type = sb_amalgamate_tx; args = codes "ann" ∷ codes "bob" ∷ [] } ∷ [])
      ≡ ok (db', r))
    × (get_saving_bal in_memory db' (pos 1) ≡ ok (pos 0))
    × (get_checking_bal in_memory db' (pos 1) ≡ ok (pos 0))
    × (get_checking_bal in_memory db' (pos 2) ≡ ok (pos 40))
    × (get_saving_bal in_memory db' (pos 2) ≡ ok (pos 5))
unfolding wrap64 ◌+ℤ◌
amalgamate_moves_example =
    amalgamate_moves in_memory in_memory-IsMap bank empty_tx (codes "ann") (codes "bob") (pos 1)
      (pos 2) (pos 30) (pos 4) (pos 5) (pos 6) ann bob (λ e. ground arith)

in_memory-SetLaws : SetLaws in_memory
in_memory-SetLaws = record { get_set = λ db k v key. refl }

init_db-drawn_example :
    (db' : Bytes → Option Bytes) × (init_db in_memory (pos 3) (some (λ _. none)) ≡ ok db')
    × ((drawn : ℕ)
        → drawn < 3
        → (get_custom_id in_memory db' (username drawn) ≡ ok (pos (drawn + 1)))
          × (get_checking_bal in_memory db' (pos (drawn + 1)) ≡ ok (pos 200))
          × (get_saving_bal in_memory db' (pos (drawn + 1)) ≡ ok (pos 200)))
init_db-drawn_example = init_db-drawn in_memory in_memory-SetLaws 3 (λ _. none) (ground arith)
