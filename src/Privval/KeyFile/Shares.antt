-- ===== src/Privval/KeyFile/Shares.antt =====
-- Shares of crypto/threshold, as privval/file.go makes them for the nodes of a cluster.
use obrs.Prelude.{ℕ, suc, ◌≡◌, ◌≢◌, some, ◌∷◌, arith}
use obrs.Prelude.Int.{ℤ, pos, eqb_ℤ_iff}
use obrs.Prelude.Bytes.{Bytes}
use obrs.Prelude.Outcome.{ok}
use obrs.Crypto.Bls.{
  Suite, BlsLaws, to_kyber, gen_priv_key, gen_priv_key_with_seed, kyber2_priv_key,
}
use obrs.Crypto.Bls.Signing.{unmarshal_scalar-kyber2_priv_key}
use obrs.Crypto.Threshold.{Curve, master, random_from, get_value, value_from}
use obrs.Privval.KeyFile.{new_file_pv, gen_file_pv_with_seed_and_idx}

module _ (c : Curve) (s : Suite c.Scalar) (laws : BlsLaws s) where
  -- Where the primary key and the polynomial come from one seed, the coefficient of degree one is the
  -- primary key itself, for every threshold from 1 on.
  pub master_repeats :
      (n : ℕ) (seed : ℤ)
      → master s (gen_priv_key_with_seed s seed) (pos (suc n)) seed
        ≡ ok (
            some
              (s.seeded_keys seed 0 ∷ s.seeded_keys seed 0 ∷ random_from (s.seeded_keys seed) 1 n))
  unfolding master to_kyber gen_priv_key_with_seed gen_priv_key random_from
  master_repeats n seed =
      ground (arith, unmarshal_scalar-kyber2_priv_key s laws (s.seeded_keys seed 0))

  -- Over a pairing library with its laws: the share of a node with an index other than 0, for the
  -- threshold 1, is made of the primary key and the index alone: a + a * idx, where a is the primary key.
  pub gen_file_pv_with_seed_and_idx_primary :
      (path : Bytes) (idx seed : ℤ)
      → idx ≢ pos 0
      → gen_file_pv_with_seed_and_idx c s path (pos 1) idx seed
        ≡ new_file_pv s
            (kyber2_priv_key s (
              c.add_scalar
                (s.seeded_keys seed 0)
                (c.mul_scalar (s.seeded_keys seed 0) (c.mul_scalar c.one (c.set_int64 idx)))))
            path
  unfolding gen_file_pv_with_seed_and_idx get_value value_from random_from
  gen_file_pv_with_seed_and_idx_primary path idx seed h =
      ground (arith, master_repeats 0 seed, eqb_ℤ_iff idx (pos 0))
