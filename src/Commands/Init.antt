-- ===== src/Commands/Init.antt =====
-- cmd/commands/init.go: the files of a node by itself. The readings of the clock, a random text, and
-- whether the node key is there or can be made are arguments.
use obrs.Prelude.{Bool, some, [], ◌∷◌, ◌++◌, if◌then◌else◌}
use obrs.Prelude.Int.{ℤ, pos}
use obrs.Prelude.Bytes.{Bytes}
use obrs.Prelude.Text.{codes}
use obrs.Prelude.Outcome.{Outcome, ok, err, panic, deref, ◌>>=◌, node_key_failed}
use obrs.Types.External.{External}
use obrs.Types.Block.{make_genesis_block, block_hash_value}
use obrs.Types.Genesis.{GenesisDoc, GenesisFiles, save_as}
use obrs.Crypto.Bls.{Suite, pub_key, address, gen_primary_key_with_seed}
use obrs.Crypto.Threshold.{Curve}
use obrs.Privval.KeyFile.{FilePv, Files, load_file_pv, get_pub_key}
use obrs.Commands.{genesis_quorum, made_and_saved}

module _ (c : Curve) (s : Suite c.Scalar) where
  -- The key of initFilesWithConfig: the one of the file, or a new one that is saved.
  unfoldable pub init_key : (f : Files) → ℤ → ℤ → ℤ → f.Disk → Bytes → Outcome (FilePv × f.Disk)
  unfolding made_and_saved
  init_key f thres idx seed keys path =
      if f.file_exists keys path
      then (load_file_pv s f keys path >>= λ pv. ok (pv, keys))
      else made_and_saved c s f thres idx seed keys path

  -- The document of initFilesWithConfig: a chain of one validator.
  unfoldable pub init_doc :
      External → (Bytes → Bytes) → Bytes → ℤ → ℤ → ℤ → FilePv → Outcome GenesisDoc
  init_doc ext sprintf random seed block_time now pv =
      let chain_id = codes "test-chain-" ++ random in
      (do
        pub_val ← deref (gen_primary_key_with_seed s seed)
        pub_key ← get_pub_key pv
        key ← deref pub_key
        ok (record {
          genesis_time = some now;
          chain_id = sprintf chain_id;
          initial_slot = pos 0;
          validators = record { address = address s key; pub_key = some key; name = [] } ∷ [];
          pub_validator = record { address = address s pub_val; pub_key = some pub_val; name = [] };
          support_quorum =
              genesis_quorum c s (block_hash_value ext (make_genesis_block chain_id block_time)) [];
          app_hash = [];
        }))

  -- The genesis file of initFilesWithConfig, which is made once.
  unfoldable pub init_genesis :
      (g : GenesisFiles)
      → External
      → (Bytes → Bytes)
      → Bytes
      → ℤ
      → ℤ
      → ℤ
      → FilePv
      → g.Disk
      → Bytes
      → Outcome g.Disk
  unfolding init_doc
  init_genesis g ext sprintf random seed block_time now pv disk file =
      if g.file_exists disk file
      then ok disk
      else (init_doc ext sprintf random seed block_time now pv >>= λ doc.
          save_as (address s) g doc disk file)

  with_genesis :
      (f : Files) (g : GenesisFiles)
      → (FilePv → Outcome g.Disk)
      → Outcome (FilePv × f.Disk)
      → f.Disk
      → f.Disk × Outcome g.Disk
  with_genesis f g made (ok (pv, keys')) keys = (keys', made pv)
  with_genesis f g made (err e) keys = (keys, err e)
  with_genesis f g made panic keys = (keys, panic)

  -- initFilesWithConfig: the disk of the keys, and that of the genesis file or an error.
  unfoldable pub init_files :
      (f : Files) (g : GenesisFiles)
      → External
      → (Bytes → Bytes)
      → Bytes
      → ℤ
      → ℤ
      → ℤ
      → Bool
      → ℤ
      → ℤ
      → f.Disk
      → g.Disk
      → Bytes
      → Bytes
      → f.Disk × Outcome g.Disk
  unfolding init_key init_genesis with_genesis
  init_files f g ext sprintf random thres idx seed node_key_is_there block_time now keys disk path
        file =
      with_genesis f g
        (λ pv.
          if node_key_is_there
          then init_genesis g ext sprintf random seed block_time now pv disk file
          else err node_key_failed)
        (init_key f thres idx seed keys path) keys
