-- ===== src/Mempool/Generator.antt =====
-- ReapMaxTxs and generateTx of mempool/list_mempool.go, which give a proposal made-up transactions. The
-- draws of math/rand, in their order, and the keys are parameters, as are the clock's readings.
pub mod Made
use obrs.Prelude.{ℕ, zero, suc, ◌+◌, Option, none, some, List, [], ◌∷◌, ◌++◌, ◌==◌, if◌then◌else◌}
use obrs.Prelude.Int.{ℤ, pos, negsuc}
use obrs.Prelude.Bytes.{Bytes}
use obrs.Prelude.Text.{codes}
use obrs.Prelude.Decimal.{itoa}
use obrs.Types.External.{External}
use obrs.Types.Tx.{
  Tx, tx_hash, sb_transaction_saving_tx, sb_write_checking_tx, sb_amalgamate_tx,
  sb_deposit_checking_tx,
}

-- rand.Intn of a bound by the number of the draw, the keys that ed25519.GenPrivKey gives, and the time.
pub record Source : Type 0 where
  pub intn : ℕ → ℕ → ℕ
  pub public_key : ℕ → Bytes
  pub sign : ℕ → Bytes → Bytes
  pub now : ℕ → ℤ

-- fmt.Sprintf("username%v", rand.Intn(accounts)+1), on the draw
abbrev pub username : ℕ → Bytes
username drawn = codes "username" ++ itoa (pos (drawn + 1))

module _ (ext : External) (source : Source) where
  open source use {intn, public_key, sign, now}

  -- The type and the arguments by the kind, and the number of the next draw. The loop that looks
  -- for a second user does not run, since it starts with the first one.
  unfoldable pub drawn_of : ℕ → ℕ → ℕ → Bytes × List Bytes × ℕ
  drawn_of accounts k kind =
      let user = username (intn (k + 1) accounts) in
      let amount = itoa (pos (intn (k + 2) 200)) in
      if kind == 0
      then (sb_transaction_saving_tx, user ∷ amount ∷ [], k + 3)
      else if kind == 1
      then (sb_write_checking_tx, user ∷ amount ∷ [], k + 3)
      else if kind == 2
      then (sb_amalgamate_tx, user ∷ user ∷ [], k + 2)
      else if kind == 3
      then (sb_deposit_checking_tx, user ∷ amount ∷ [], k + 3)
      else ([], [], k + 1)

  unfoldable pub drawn_tx : ℕ → ℕ → Bytes × List Bytes × ℕ
  unfolding drawn_of
  drawn_tx accounts k = drawn_of accounts k (intn k 4)

  unfoldable pub unsigned : ℕ → Bytes × List Bytes × ℕ → Tx
  unsigned i drawn = record {
    tx_type = drawn.0;
    args = drawn.1;
    tx_send_timestamp = now i;
    signature = [];
    public_key = some (public_key i);
  }

  -- generateTx with the key of a number, and the number of the next draw
  unfoldable pub generate_tx : ℕ → ℕ → ℕ → Tx × ℕ
  unfolding unsigned
  generate_tx accounts i k =
      let drawn = drawn_tx accounts k in
      let tx = unsigned i drawn in (record tx { signature = sign i (tx_hash ext tx) }, drawn.2)

  -- The loop of ReapMaxTxs: the transactions still to make, the number of the key and of the draw.
  unfoldable pub generate_from : ℕ → ℕ → ℕ → List Tx
  generate_from zero i k = []
  generate_from (suc n) i k =
      let (tx, next) = generate_tx 200 i k in tx ∷ generate_from n (i + 1) next

  -- ReapMaxTxs, which does not look at the pool.
  unfoldable pub reap_generated : ℤ → List Tx
  unfolding generate_from
  reap_generated (pos max) = generate_from max 0 0
  reap_generated (negsuc _) = generate_from 2000 0 0
