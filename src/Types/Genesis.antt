-- ===== src/Types/Genesis.antt =====
-- types/genesis.go: the document that all nodes start from. The address of a key, the JSON of a document
-- and the files are parameters; a time is unix nanoseconds, and `none` is the zero time.
pub mod Completion
pub mod Loaded
use obrs.Prelude.{
  ℕ, Bool, true, false, not, ◌&&◌, Option, none, some, List, [], ◌∷◌, length, ltb, if◌then◌else◌,
}
use obrs.Prelude.Int.{ℤ, pos, ltb_ℤ}
use obrs.Prelude.Bytes.{Bytes, bytes_equal, is_empty}
use obrs.Prelude.Outcome.{
  Outcome, ok, err, panic, deref, ◌>>=◌, ◌>>◌, fail_if, no_chain_id, chain_id_too_long,
  negative_slot, wrong_address, unmarshal_failed, read_failed, write_failed, marshal_failed,
}
use obrs.Types.Ltime.{LTime}
use obrs.Types.Vote.{Quorum}
use obrs.Types.External.{External}
use obrs.Types.Validators.{Validator, ValidatorSet, validators_hash_of}

abbrev pub max_chain_id_len : ℕ
max_chain_id_len = 50

-- A nil key is none.
pub record GenesisValidator : Type 0 where
  pub address : Bytes
  pub pub_key : Option Bytes
  pub name : Bytes

pub record GenesisDoc : Type 0 where
  pub genesis_time : Option ℤ
  pub chain_id : Bytes
  pub initial_slot : LTime
  pub validators : List GenesisValidator
  pub pub_validator : GenesisValidator
  pub support_quorum : Quorum
  pub app_hash : Bytes

-- tmjson, and the files
pub record GenesisFiles : Type 1 where
  pub Disk : Type 0
  pub marshal_doc : GenesisDoc → Option Bytes
  pub unmarshal_doc : Bytes → Option GenesisDoc
  pub file_exists : Disk → Bytes → Bool
  pub read : Disk → Bytes → Option Bytes
  pub write : Disk → Bytes → Bytes → Option Disk

module _ (key_address : Bytes → Bytes) where
  -- A round of the loop on a validator with its key, from what the later rounds make; the address of a
  -- nil key panics.
  complete_with :
      Option Bytes
      → GenesisValidator
      → List GenesisValidator
      → List GenesisValidator × Outcome (Unit {0})
      → List GenesisValidator × Outcome (Unit {0})
  complete_with none v vs rest = (v ∷ vs, panic)
  complete_with (some key) v vs rest =
      if not (is_empty v.address) && not (bytes_equal (key_address key) v.address)
      then (v ∷ vs, err wrong_address)
      else if is_empty v.address
      then ((record v { address = key_address key }) ∷ rest.0, rest.1)
      else (v ∷ rest.0, rest.1)

  -- The loop over the validators, with what it has changed.
  unfoldable pub complete_each : List GenesisValidator → List GenesisValidator × Outcome (Unit {0})
  unfolding complete_with
  complete_each [] = ([], ok tt)
  complete_each (v ∷ vs) = complete_with v.pub_key v vs (complete_each vs)

  check_fields : GenesisDoc → Outcome (Unit {0})
  check_fields doc = do
    fail_if (is_empty doc.chain_id) no_chain_id
    fail_if (ltb max_chain_id_len (length doc.chain_id)) chain_id_too_long
    fail_if (ltb_ℤ doc.initial_slot (pos 0)) negative_slot

  abbrev time_or : ℤ → Option ℤ → Option ℤ
  time_or now none = some now
  time_or now (some t) = some t

  finish :
      ℤ → GenesisDoc → List GenesisValidator × Outcome (Unit {0}) → GenesisDoc × Outcome (Unit {0})
  finish now doc (vals, ok _) =
      (record doc { validators = vals; genesis_time = time_or now doc.genesis_time }, ok tt)
  finish now doc (vals, err e) = (record doc { validators = vals }, err e)
  finish now doc (vals, panic) = (record doc { validators = vals }, panic)

  -- ValidateAndComplete: the document after it, and how it ends.
  unfoldable pub validate_and_complete : ℤ → GenesisDoc → GenesisDoc × Outcome (Unit {0})
  unfolding complete_each check_fields finish
  validate_and_complete now doc = elim (check_fields doc) [
    | ok _ ↦ finish now doc (complete_each doc.validators)
    | err e ↦ (doc, err e)
    | panic ↦ (doc, panic)
  ]

  -- NewValidator
  unfoldable pub new_validator : Option Bytes → Outcome Validator
  new_validator none = panic
  new_validator (some key) = ok (record { address = key_address key; pub_key = some key })

  -- GenesisDoc.ValidatorSet, on the validators
  unfoldable pub validator_set_of : List GenesisValidator → Outcome ValidatorSet
  unfolding new_validator
  validator_set_of [] = ok []
  validator_set_of (v ∷ vs) = do
    val ← new_validator v.pub_key
    vals ← validator_set_of vs
    ok (val ∷ vals)

  unfoldable pub public_validator : GenesisDoc → Outcome Validator
  public_validator doc = new_validator doc.pub_validator.pub_key

  -- GenesisDoc.ValidatorHash
  unfoldable pub validator_hash : External → GenesisDoc → Outcome Bytes
  validator_hash ext doc = do
    vals ← validator_set_of doc.validators
    ok (validators_hash_of ext vals)

  abbrev pub checked : GenesisDoc × Outcome (Unit {0}) → Outcome GenesisDoc
  checked (doc, ok _) = ok doc
  checked (doc, err e) = err e
  checked (doc, panic) = panic

  module _ (f : GenesisFiles) where
    open f use {Disk, marshal_doc, unmarshal_doc, read, write}

    -- GenesisDocFromJSON
    unfoldable pub genesis_doc_from_json : ℤ → Bytes → Outcome GenesisDoc
    genesis_doc_from_json now blob = elim (unmarshal_doc blob) [
      | none ↦ err unmarshal_failed
      | some doc ↦ checked (validate_and_complete now doc)
    ]

    -- GenesisDocFromFile
    unfoldable pub genesis_doc_from_file : ℤ → Disk → Bytes → Outcome GenesisDoc
    unfolding genesis_doc_from_json
    genesis_doc_from_file now d file = elim (read d file) [
      | none ↦ err read_failed
      | some blob ↦ genesis_doc_from_json now blob
    ]

    -- GenesisDoc.SaveAs
    unfoldable pub save_as : GenesisDoc → Disk → Bytes → Outcome Disk
    save_as doc d file = elim (marshal_doc doc) [
      | none ↦ err marshal_failed
      | some b ↦ elim (write d file b) [ none ↦ err write_failed | some d' ↦ ok d' ]
    ]
