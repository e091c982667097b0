-- ===== src/Mempool/Generator/Made.antt =====
-- The transactions that ReapMaxTxs of mempool/list_mempool.go makes.
use obrs.Prelude.{ℕ, zero, suc, ◌+◌, ◌<◌, ◌≡◌, refl, ap, true, [], ◌∷◌, arith, length, All}
use obrs.Prelude.Int.{pos}
use obrs.Prelude.Bytes.{Bytes}
use obrs.Prelude.Outcome.{ok}
use obrs.Types.External.{External}
use obrs.Prelude.Decimal.{itoa}
use obrs.Types.Tx.{Tx, tx_hash, tx_valid, sb_amalgamate_tx}
use obrs.Mempool.Generator.{
  Source, username, drawn_of, drawn_tx, unsigned, generate_tx, generate_from, reap_generated,
}

-- What the Go library documents of Intn and of ed25519.
pub record SourceLaws (ext : External) (source : Source) : Type 0 where
  pub below : (k n : ℕ) → source.intn k (suc n) < suc n
  pub key_size : (i : ℕ) → length (source.public_key i) ≡ 32
  pub verifies :
      (i : ℕ) (msg : Bytes)
      → ext.ed25519_verify (source.public_key i) msg (source.sign i msg) ≡ true

-- A transaction with two arguments, the same one twice if it is an amalgamation, and a signature that
-- Valid accepts.
pub record IsMade (ext : External) (tx : Tx) : Type 0 where
  pub first : Bytes
  pub second : Bytes
  pub two_args : tx.args ≡ first ∷ second ∷ []
  pub with_itself : tx.tx_type ≡ sb_amalgamate_tx → first ≡ second
  pub valid : tx_valid ext tx ≡ ok true

module _ (ext : External) (source : Source) (laws : SourceLaws ext source) where
  drawn_tx-args :
      (accounts k : ℕ)
      → (first : Bytes) × (second : Bytes) × ((drawn_tx ext source accounts k).1
          ≡ first ∷ second ∷ [])
        × ((drawn_tx ext source accounts k).0 ≡ sb_amalgamate_tx → first ≡ second)
  unfolding drawn_tx
  drawn_tx-args accounts k = go (source.intn k 4) (laws.below k 3)
    where
      user : Bytes
      user = username (source.intn (k + 1) accounts)

      amount : Bytes
      amount = itoa (pos (source.intn (k + 2) 200))

      go :
          (kind : ℕ)
          → kind < 4
          → (first : Bytes) × (second : Bytes) × ((drawn_of ext source accounts k kind).1
              ≡ first ∷ second ∷ [])
            × ((drawn_of ext source accounts k kind).0 ≡ sb_amalgamate_tx → first ≡ second)
      go zero h = (user, amount, refl, λ e. cc)
      go (suc zero) h = (user, amount, refl, λ e. cc)
      go (suc (suc zero)) h = (user, user, refl, λ e. refl)
      go (suc (suc (suc zero))) h = (user, amount, refl, λ e. cc)
      go (suc (suc (suc (suc n)))) h = absurd (omega (arith, h))

  generate_tx-IsMade : (accounts i k : ℕ) → IsMade ext (generate_tx ext source accounts i k).0
  unfolding generate_tx tx_valid tx_hash
  generate_tx-IsMade accounts i k =
      let (first, second, args, same) = drawn_tx-args accounts k in
      record {
        first = first;
        second = second;
        two_args = args;
        with_itself = same;
        valid = ground (
          arith,
          laws.key_size i,
          laws.verifies i (tx_hash ext (unsigned ext source i (drawn_tx ext source accounts k))),
        );
      }

  generate_from-IsMade : (n i k : ℕ) → All (IsMade ext) (generate_from ext source n i k)
  unfolding generate_from
  generate_from-IsMade zero i k = tt
  generate_from-IsMade (suc n) i k = (
    generate_tx-IsMade 200 i k,
    generate_from-IsMade n (i + 1) (generate_tx ext source 200 i k).1,
  )

  length-generate_from : (n i k : ℕ) → length (generate_from ext source n i k) ≡ n
  unfolding generate_from
  length-generate_from zero i k = refl
  length-generate_from (suc n) i k =
      ap suc (length-generate_from n (i + 1) (generate_tx ext source 200 i k).1)

  -- Over a source with its laws, ReapMaxTxs gives as many transactions as it is asked for, whatever
  -- the pool holds; each one has two arguments and a signature that Valid accepts, and an amalgamation
  -- is of an account with itself.
  pub reap_generated-IsMade :
      (max : ℕ)
      → (length (reap_generated ext source (pos max)) ≡ max)
        × All (IsMade ext) (reap_generated ext source (pos max))
  unfolding reap_generated
  reap_generated-IsMade max = (length-generate_from max 0 0, generate_from-IsMade max 0 0)
