-- ===== src/Crypto/Bls/Signing.antt =====
-- Signatures of crypto/bls/bls.go, checked under the public key of the key that made them.
use obrs.Prelude.{◌≡◌, true, some, arith, Option-cases, inl, inr}
use obrs.Prelude.Bytes.{Bytes}
use obrs.Prelude.Outcome.{ok}
use obrs.Crypto.Bls.{Suite, BlsLaws, sign, pub_key, verify_signature, kyber2_priv_key}

module _ {Scalar : Type 0} (s : Suite Scalar) (laws : BlsLaws s) where
  -- Where the bytes of a private key sign a message, they have a public key, and the signature verifies
  -- under it.
  pub verify_signature-sign :
      (priv msg sig : Bytes)
      → sign s priv msg ≡ ok sig
      → (key : Bytes) × (pub_key s priv ≡ some key) × (verify_signature s key msg sig ≡ true)
  unfolding sign pub_key verify_signature
  verify_signature-sign priv msg sig h = elim (Option-cases (s.unmarshal_scalar priv)) [
    | inl bad ↦ ground arith
    | inr (x, e) ↦ elim (Option-cases (s.bls_sign x msg)) [
      | inl failed ↦ ground arith
      | inr (sig', signed) ↦
          let (b, m) = laws.key_marshals (s.base_mul x) in
          let same : sig' ≡ sig = ground arith in
          (
            b,
            ground arith,
            ground (
              arith,
              laws.key_back (s.base_mul x) b m,
              laws.signature_nonempty x msg sig',
              laws.signature_verifies x msg sig',
            ),
          )
    ]
  ]

  -- A scalar survives the way through its key.
  pub unmarshal_scalar-kyber2_priv_key :
      (x : Scalar) → s.unmarshal_scalar (kyber2_priv_key s x) ≡ some x
  unfolding kyber2_priv_key
  unmarshal_scalar-kyber2_priv_key x =
      let (b, m) = laws.scalar_marshals x in ground (arith, laws.scalar_back x b m)
