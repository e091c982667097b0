-- ===== src/Crypto/Bls.antt =====
-- crypto/bls/bls.go: the keys of the validators and their signatures. The pairing suite, the BLS scheme
-- over it and the hash come from third-party packages and are a parameter; a key is its bytes.
pub mod Signing
use obrs.Prelude.{
  ℕ, ◌≡◌, ◌≢◌, Bool, true, false, Option, none, some, List, [], ◌∷◌, ◌==◌, if◌then◌else◌,
}
use obrs.Prelude.Int.{ℤ}
use obrs.Prelude.Bytes.{Bytes, bytes_equal, bytes_of, is_empty}
use obrs.Prelude.Outcome.{Outcome, ok, err, ◌>>=◌, wrong_bls_key, sign_failed}

pub record Suite (Scalar : Type 0) : Type 1 where
  -- the public keys
  pub Key : Type 0
  -- UnmarshalBinary and MarshalBinary of a scalar
  pub unmarshal_scalar : Bytes → Option Scalar
  pub marshal_scalar : Scalar → Option Bytes
  -- Point().Mul(priv, nil)
  pub base_mul : Scalar → Key
  pub unmarshal_key : Bytes → Option Key
  pub marshal_key : Key → Option Bytes
  -- bls.Sign and bls.Verify
  pub bls_sign : Scalar → Bytes → Option Bytes
  pub bls_verify : Key → Bytes → Bytes → Bool
  -- the private keys that successive calls of bls.NewKeyPair draw from random.New of
  -- rand.New(rand.NewSource(seed))
  pub seeded_keys : ℤ → ℕ → Scalar
  -- tmhash.SumTruncated
  pub sum_truncated : Bytes → Bytes

-- What the packages document: what is marshalled is unmarshalled again, and a signature verifies under
-- the public key of the private key that made it, and is not empty.
pub record BlsLaws {Scalar : Type 0} (s : Suite Scalar) : Type 0 where
  pub scalar_back :
      (x : Scalar) (b : Bytes) → s.marshal_scalar x ≡ some b → s.unmarshal_scalar b ≡ some x
  pub key_back : (p : s.Key) (b : Bytes) → s.marshal_key p ≡ some b → s.unmarshal_key b ≡ some p
  pub key_marshals : (p : s.Key) → (b : Bytes) × (s.marshal_key p ≡ some b)
  pub scalar_marshals : (x : Scalar) → (b : Bytes) × (s.marshal_scalar x ≡ some b)
  pub signature_verifies :
      (x : Scalar) (msg sig : Bytes)
      → s.bls_sign x msg ≡ some sig
      → s.bls_verify (s.base_mul x) msg sig ≡ true
  pub signature_nonempty :
      (x : Scalar) (msg sig : Bytes) → s.bls_sign x msg ≡ some sig → is_empty sig ≡ false

-- A value of an interface of keys: one of this package, or one of another type.
pub data AnyKey : Type 0 where
  bls_key : Bytes → AnyKey
  other_key : AnyKey

module _ {Scalar : Type 0} (s : Suite Scalar) where
  -- PrivKey.Sign
  unfoldable pub sign : Bytes → Bytes → Outcome Bytes
  sign priv msg = elim (s.unmarshal_scalar priv) [
    | none ↦ err wrong_bls_key
    | some x ↦ elim (s.bls_sign x msg) [ none ↦ err sign_failed | some sig ↦ ok sig ]
  ]

  -- PrivKey.PubKey, where `none` is the nil interface
  unfoldable pub pub_key : Bytes → Option Bytes
  pub_key priv = elim (s.unmarshal_scalar priv) [
    | none ↦ none
    | some x ↦ some (bytes_of (s.marshal_key (s.base_mul x)))
  ]

  unfoldable pub to_kyber : Bytes → Outcome Scalar
  to_kyber priv = elim (s.unmarshal_scalar priv) [ none ↦ err wrong_bls_key | some x ↦ ok x ]

  unfoldable pub kyber2_priv_key : Scalar → Bytes
  kyber2_priv_key x = bytes_of (s.marshal_scalar x)

  -- genPrivKey, on the keys that its reader gives
  unfoldable pub gen_priv_key : (ℕ → Scalar) → Bytes
  unfolding kyber2_priv_key
  gen_priv_key keys = kyber2_priv_key (keys 0)

  unfoldable pub gen_priv_key_with_seed : ℤ → Bytes
  unfolding gen_priv_key
  gen_priv_key_with_seed seed = gen_priv_key (s.seeded_keys seed)

  unfoldable pub gen_primary_key_with_seed : ℤ → Option Bytes
  unfolding gen_priv_key_with_seed pub_key
  gen_primary_key_with_seed seed = pub_key (gen_priv_key_with_seed seed)

  -- PubKey.Address
  unfoldable pub address : Bytes → Bytes
  address key = s.sum_truncated key

  -- PubKey.VerifySignature
  unfoldable pub verify_signature : Bytes → Bytes → Bytes → Bool
  verify_signature key msg sig =
      if is_empty sig
      then false
      else elim (s.unmarshal_key key) [ none ↦ false | some p ↦ s.bls_verify p msg sig ]

-- PrivKey.Equals and PubKey.Equals
unfoldable pub equals : Bytes → AnyKey → Bool
equals key (bls_key other) = bytes_equal key other
equals key other_key = false
