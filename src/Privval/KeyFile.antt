-- ===== src/Privval/KeyFile.antt =====
-- privval/file.go: a validator's key, kept in a file, and the signatures that it makes. The key is of
-- crypto/bls; the file system and the JSON of a key are parameters. A call that makes the process exit
-- is a panic.
pub mod Restart
pub mod Signed
pub mod Shares
use obrs.Prelude.{ℕ, ◌≡◌, Bool, true, false, Option, none, some, [], ◌∷◌, if◌then◌else◌}
use obrs.Prelude.Int.{ℤ}
use obrs.Prelude.Bytes.{Bytes, bytes_of, is_empty}
use obrs.Prelude.Outcome.{Outcome, ok, err, panic, deref, ◌>>=◌}
use obrs.Types.External.{External}
use obrs.Types.Vote.{Vote, vote_sign_bytes}
use obrs.Types.Block.{Block, hash_block, block_hash_value}
use obrs.Crypto.Bls
use obrs.Crypto.Bls.{Suite, gen_priv_key, gen_priv_key_with_seed, kyber2_priv_key}
use obrs.Crypto.Threshold.{Curve, get_value, master}

-- FilePVKey; a nil key is none.
pub record FilePvKey : Type 0 where
  pub address : Bytes
  pub pub_key : Option Bytes
  pub priv_key : Option Bytes
  pub file_path : Bytes

-- FilePV
pub record FilePv : Type 0 where
  pub key : FilePvKey

-- tmjson of a key, without its path, and the files.
pub record Files : Type 1 where
  pub Disk : Type 0
  pub marshal : FilePvKey → Option Bytes
  pub unmarshal : Bytes → Option FilePvKey
  -- ioutil.ReadFile, tmos.FileExists and tempfile.WriteFileAtomic
  pub read : Disk → Bytes → Option Bytes
  pub file_exists : Disk → Bytes → Bool
  pub write : Disk → Bytes → Bytes → Option Disk

-- A file that was written is there and reads as what was written; a key that was marshalled is
-- unmarshalled with the same private key.
pub record FilesLaws (f : Files) : Type 0 where
  pub read-write :
      (d d' : f.Disk) (path b : Bytes) → f.write d path b ≡ some d' → f.read d' path ≡ some b
  pub file_exists-write :
      (d d' : f.Disk) (path b : Bytes) → f.write d path b ≡ some d' → f.file_exists d' path ≡ true
  pub unmarshal-marshal :
      (k : FilePvKey) (b : Bytes)
      → f.marshal k ≡ some b
      → (k' : FilePvKey) × (f.unmarshal b ≡ some k') × (k'.priv_key ≡ k.priv_key)

module _ (f : Files) where
  open f use {Disk, marshal, unmarshal, read, file_exists, write}

  write_key : Disk → Bytes → Bytes → Outcome Disk
  write_key d path b = deref (write d path b)

  -- FilePVKey.Save, which FilePV.Save and Reset call
  unfoldable pub save : FilePv → Disk → Outcome Disk
  unfolding write_key
  save pv d =
      if is_empty pv.key.file_path
      then panic
      else (deref (marshal pv.key) >>= λ b. write_key d pv.key.file_path b)

module _ {Scalar : Type 0} (s : Suite Scalar) where
  -- NewFilePV; the address of a nil key panics.
  unfoldable pub new_file_pv : Bytes → Bytes → Outcome FilePv
  new_file_pv priv path = do
    key ← deref (Bls.pub_key s priv)
    ok (record {
      key = record {
        address = Bls.address s key;
        pub_key = some key;
        priv_key = some priv;
        file_path = path;
      };
    })

  -- GenFilePV, on the keys that the system's randomness gives
  unfoldable pub gen_file_pv : (ℕ → Scalar) → Bytes → Outcome FilePv
  unfolding new_file_pv
  gen_file_pv keys path = new_file_pv (gen_priv_key s keys) path

  module _ (f : Files) where
    open f use {Disk, unmarshal, read, file_exists}

    -- loadFilePV, which LoadFilePV and LoadFilePVEmptyState call. The public key and the address of the
    -- file are replaced by those of its private key.
    unfoldable pub load_file_pv : Disk → Bytes → Outcome FilePv
    load_file_pv d path = do
      b ← deref (read d path)
      k ← deref (unmarshal b)
      priv ← deref k.priv_key
      key ← deref (Bls.pub_key s priv)
      ok (record {
        key = record k { pub_key = some key; address = Bls.address s key; file_path = path };
      })

    generate_and_save : (ℕ → Scalar) → Disk → Bytes → Outcome (FilePv × Disk)
    generate_and_save keys d path = do pv ← gen_file_pv keys path; d' ← save f pv d; ok (pv, d')

    -- LoadOrGenFilePV, with the disk that it leaves
    unfoldable pub load_or_gen_file_pv : (ℕ → Scalar) → Disk → Bytes → Outcome (FilePv × Disk)
    unfolding generate_and_save
    load_or_gen_file_pv keys d path =
        if file_exists d path
        then (load_file_pv d path >>= λ pv. ok (pv, d))
        else generate_and_save keys d path

  -- PrivKey.Sign of the key, where a nil key panics
  sign_with : FilePv → Bytes → Outcome Bytes
  sign_with pv msg = deref pv.key.priv_key >>= λ priv. Bls.sign s priv msg

  -- SignVote, with signVote; the error is wrapped in a text.
  unfoldable pub sign_vote : External → FilePv → Bytes → Vote → Outcome Vote
  unfolding sign_with
  sign_vote ext pv chain_id vote = do
    sig ← sign_with pv (vote_sign_bytes ext chain_id vote)
    ok (record vote { signature = sig })

  -- SignProposal, with signProposal: what is signed is the hash, which is filled in.
  unfoldable pub sign_proposal : External → FilePv → Block → Outcome Block
  unfolding sign_with
  sign_proposal ext pv b = do
    sig ← sign_with pv (block_hash_value ext b)
    let hashed = hash_block ext b
    ok (record hashed { header = record hashed.header { signature = sig } })

-- GetAddress and GetPubKey
unfoldable pub get_address : FilePv → Bytes
get_address pv = pv.key.address

unfoldable pub get_pub_key : FilePv → Outcome (Option Bytes)
get_pub_key pv = ok pv.key.pub_key

-- `if err != nil { panic(err) }`
abbrev pub panic_if_err : {A : Type 0} → Outcome A → Outcome A
panic_if_err (ok a) = ok a
panic_if_err (err _) = panic
panic_if_err panic = panic

-- GenFilePVWithSeedAndIdx: the share of a node with an index, of the polynomial of the primary key.
module _ (c : Curve) (s : Suite c.Scalar) where
  unfoldable pub gen_file_pv_with_seed_and_idx : Bytes → ℤ → ℤ → ℤ → Outcome FilePv
  gen_file_pv_with_seed_and_idx path threshold_val idx seed = do
    poly ← master s (gen_priv_key_with_seed s seed) threshold_val seed
    polys ← deref poly
    priv ← panic_if_err (get_value c polys idx)
    new_file_pv s (kyber2_priv_key s priv) path
