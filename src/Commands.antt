-- ===== src/Commands.antt =====
-- cmd/commands: the commands that make the files of a cluster, gen_validator.go and gen_genesis.go.
-- Command lines and what is printed are left out; the readings of the clock and the formatting of a chain
-- id are arguments.
pub mod Cluster
pub mod Init
pub mod Launch
pub mod Accounts
use obrs.Prelude.{
  ℕ, zero, suc, ◌+◌, Bool, true, false, Option, none, some, List, [], ◌∷◌, ◌++◌, if◌then◌else◌,
}
use obrs.Prelude.Int.{ℤ, pos, negsuc}
use obrs.Prelude.Bytes.{Bytes}
use obrs.Prelude.Text.{codes}
use obrs.Prelude.Decimal.{itoa}
use obrs.Prelude.Outcome.{Outcome, ok, err, panic, deref, ◌>>=◌, node_key_failed}
use obrs.Types.External.{External}
use obrs.Types.Vote.{Quorum, zero_quorum, support_quorum}
use obrs.Types.Block.{make_genesis_block, block_hash_value}
use obrs.Types.Genesis.{GenesisValidator, GenesisDoc, GenesisFiles, save_as}
use obrs.Crypto.Bls.{
  Suite, sign, pub_key, address, gen_priv_key_with_seed, gen_primary_key_with_seed, kyber2_priv_key,
}
use obrs.Crypto.Threshold.{Curve, get_value, master}
use obrs.Privval.KeyFile.{
  FilePv, Files, save, load_file_pv, gen_file_pv_with_seed_and_idx, get_pub_key,
}

-- An error that is only logged leaves nil bytes.
abbrev pub logged : Outcome Bytes → Outcome Bytes
logged (ok b) = ok b
logged (err e) = ok []
logged panic = panic

module _ (c : Curve) (s : Suite c.Scalar) where
  -- GetValue of the polynomial on a validator's number, as a private key; a nil polynomial panics.
  unfoldable pub share_of : Option (List c.Scalar) → ℕ → Outcome Bytes
  share_of poly id = do
    polys ← deref poly
    logged (get_value c polys (pos id) >>= λ x. ok (kyber2_priv_key s x))

  -- A round of the loop of genGenesisFile
  unfoldable pub cluster_validator : Option (List c.Scalar) → ℕ → Outcome GenesisValidator
  unfolding share_of
  cluster_validator poly id = do
    priv ← share_of poly id
    key ← deref (pub_key s priv)
    ok (record {
      address = address s key;
      pub_key = some key;
      name = codes "validator-" ++ itoa (pos id);
    })

  -- The loop from a number on, with the rounds that are left
  unfoldable pub validators_from : Option (List c.Scalar) → ℕ → ℕ → Outcome (List GenesisValidator)
  validators_from poly id zero = ok []
  validators_from poly id (suc n) = do
    v ← cluster_validator poly id
    vs ← validators_from poly (id + 1) n
    ok (v ∷ vs)

  -- The slice of a negative length panics.
  unfoldable pub cluster_validators : Option (List c.Scalar) → ℤ → Outcome (List GenesisValidator)
  unfolding validators_from
  cluster_validators poly (pos count) = validators_from poly 1 count
  cluster_validators poly (negsuc n) = panic

  -- The flags of gen-genesis-block
  pub record ClusterFlags : Type 0 where
    pub chain_id : Bytes
    pub seed : ℤ
    pub thres : ℤ
    pub cluster_count : ℤ

  abbrev pub genesis_quorum : Bytes → Bytes → Quorum
  genesis_quorum hash signature = record zero_quorum {
    slot = pos 0;
    block_hash = hash;
    quorum_type = support_quorum;
    signature = signature;
  }

  -- The document of genGenesisFile, from two readings of the clock: of the block, and of the document.
  unfoldable pub gen_genesis_doc :
      External → (Bytes → Bytes) → ClusterFlags → ℤ → ℤ → Outcome GenesisDoc
  unfolding cluster_validators
  gen_genesis_doc ext sprintf flags block_time now =
      let primary = gen_priv_key_with_seed s flags.seed in
      let hash = block_hash_value ext (make_genesis_block flags.chain_id block_time) in
      (do
        poly ← master s primary flags.thres flags.seed
        vals ← cluster_validators poly flags.cluster_count
        signature ← logged (sign s primary hash)
        key ← deref (pub_key s primary)
        ok (record {
          genesis_time = some now;
          chain_id = sprintf flags.chain_id;
          initial_slot = pos 0;
          validators = vals;
          pub_validator = record {
            address = address s key;
            pub_key = some key;
            name = codes "cluster-primary";
          };
          support_quorum = genesis_quorum hash signature;
          app_hash = codes "app hash";
        }))

  -- genGenesisFile: the disk that it leaves, or an error of SaveAs.
  unfoldable pub gen_genesis_file :
      (g : GenesisFiles)
      → External
      → (Bytes → Bytes)
      → ClusterFlags
      → ℤ
      → ℤ
      → g.Disk
      → Bytes
      → Outcome g.Disk
  gen_genesis_file g ext sprintf flags block_time now disk file =
      if g.file_exists disk file
      then ok disk
      else (gen_genesis_doc ext sprintf flags block_time now >>= λ doc.
          save_as (address s) g doc disk file)

  unfoldable pub made_and_saved :
      (f : Files) → ℤ → ℤ → ℤ → f.Disk → Bytes → Outcome (FilePv × f.Disk)
  made_and_saved f thres idx seed keys path = do
    pv ← gen_file_pv_with_seed_and_idx c s path thres idx seed
    keys' ← save f pv keys
    ok (pv, keys')

  -- genValidator, where the JSON to be printed gives no error.
  unfoldable pub gen_validator : (f : Files) → ℤ → ℤ → ℤ → f.Disk → Bytes → Outcome f.Disk
  unfolding made_and_saved
  gen_validator f thres idx seed keys path =
      if f.file_exists keys path
      then ok keys
      else (made_and_saved f thres idx seed keys path >>= λ (_, keys'). ok keys')
