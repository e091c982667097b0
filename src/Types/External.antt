-- ===== src/Types/External.antt =====
-- The functions of third-party packages that the chain calls, as parameters of the model.
use obrs.Prelude.{Bool, List}
use obrs.Prelude.Bytes.{Bytes}

pub record External : Type 0 where
  -- tendermint's merkle.HashFromByteSlices
  pub merkle_root : List Bytes → Bytes
  -- tendermint's tmhash.Sum
  pub tm_hash : Bytes → Bytes
  -- crypto.PubKey.VerifySignature of a validator's key, on a message and a signature
  pub verify_signature : Bytes → Bytes → Bytes → Bool
  -- ed25519.Verify of the Go library, on a key, a message and a signature
  pub ed25519_verify : Bytes → Bytes → Bytes → Bool
  -- json.Marshal of a validator's public key
  pub marshal_key : Bytes → Bytes
