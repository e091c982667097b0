-- ===== src/Types/Validators.antt =====
-- types/validator.go and types/validator_set.go, without the texts that `String` prints and the
-- random sets of the tests. A set holds no nil validator.
use obrs.Prelude.{
  ℕ, ◌+◌, Bool, true, false, ◌||◌, Option, none, some, List, [], ◌∷◌, map, length, get_elem?, ◌==◌,
  if◌then◌else◌, any, not,
}
use obrs.Prelude.Int.{ℤ, pos, negsuc, ltb_ℤ, leb_ℤ, wrap32}
use obrs.Prelude.Bytes.{Bytes, bytes_equal}
use obrs.Prelude.Outcome.{
  Outcome, ok, err, fail_if, deref, ◌>>◌, ◌>>=◌, nil_validators, nil_pub_key, wrong_address_size,
}
use obrs.Types.Ltime.{LTime, mod_len}
use obrs.Types.External.{External}

-- `pub_key` is none for a nil key.
pub record Validator : Type 0 where
  pub address : Bytes
  pub pub_key : Option Bytes

abbrev pub address_size : ℕ
address_size = 20

abbrev missing : Option Bytes → Bool
missing none = true
missing (some _) = false

unfoldable pub validate_validator : Validator → Outcome (Unit {0})
validate_validator v = do
  fail_if (missing v.pub_key) nil_pub_key
  fail_if (not (length v.address == address_size)) wrong_address_size
  ok tt

abbrev pub ValidatorSet : Type 0
ValidatorSet = List Validator

unfoldable pub validate_each : ValidatorSet → Outcome (Unit {0})
validate_each [] = ok tt
validate_each (v ∷ vs) = do validate_validator v; validate_each vs

-- ValidatorSet.ValidateBasic
unfoldable pub validate_set : ValidatorSet → Outcome (Unit {0})
unfolding validate_each
validate_set [] = err nil_validators
validate_set (v ∷ vs) = validate_each (v ∷ vs)

unfoldable pub has_address : ValidatorSet → Bytes → Bool
has_address vals address = any (λ v. bytes_equal v.address address) vals

-- The loop of GetByAddress from an index on.
unfoldable pub by_address_from : ℕ → ValidatorSet → Bytes → ℤ × Option Validator
by_address_from idx [] address = (negsuc 0, none)
by_address_from idx (val ∷ vals) address =
    let rest = by_address_from (idx + 1) vals address in
    if bytes_equal val.address address then (wrap32 (pos idx), some val) else rest

unfoldable pub get_by_address : ValidatorSet → Bytes → ℤ × Option Validator
unfolding by_address_from
get_by_address vals address = by_address_from 0 vals address

at_ℤ : ValidatorSet → ℤ → Option Validator
at_ℤ vals (pos n) = get_elem? vals n
at_ℤ vals (negsuc n) = none

-- GetByIndex: none, where the source returns nil, for an index out of range.
unfoldable pub get_by_index : ValidatorSet → ℤ → Option Validator
unfolding at_ℤ
get_by_index vals index =
    if ltb_ℤ index (pos 0) || leb_ℤ (pos (length vals)) index then none else at_ℤ vals index

-- GetProposer: nil for an empty set; a negative index panics.
unfoldable pub get_proposer : ValidatorSet → LTime → Outcome (Option Validator)
unfolding at_ℤ
get_proposer [] current = ok none
get_proposer (v ∷ vs) current = do
  val ← deref (at_ℤ (v ∷ vs) (mod_len current (length (v ∷ vs))))
  ok (some val)

abbrev key_bytes : Option Bytes → Bytes
key_bytes none = []
key_bytes (some k) = k

-- ValidatorSet.Hash
unfoldable pub validators_hash_of : External → ValidatorSet → Bytes
validators_hash_of ext vals =
    ext.merkle_root (map (λ v. ext.marshal_key (key_bytes v.pub_key)) vals)
