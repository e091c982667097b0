-- ===== src/Prelude/Outcome.antt =====
-- How a Go call ends: with a value, with an error value, or with a panic. The errors are those that
-- the modelled code builds by `errors.New`, `fmt.Errorf` or an error type of its own.
use mathlib.Core.Path.{◌≡◌, refl, ap}
use mathlib.Core.Bool.{Bool, true, false}
use mathlib.Core.Option.{Option, none, some}

pub data Error : Type 0 where
  duplicated_block no_query_block : Error
  block_state_error no_block_hash no_signature different_validators nil_pub_validator : Error
  duplicate_vote wrong_index vote_signature : Error
  future_exists future_proposal slot_mismatch not_leader invalid_tx proposal_signature : Error
  nil_validators nil_pub_key wrong_address_size : Error
  length_mismatch no_signatures below_threshold unmarshal_failed same_id marshal_failed : Error
  zero_index nil_polynome : Error
  mempool_is_full tx_too_large tx_in_cache : Error
  bad_number db_error wrong_tx_type sign_failed label_exists : Error
  wrong_bls_key no_chain_id chain_id_too_long negative_slot wrong_address write_failed : Error
  no_key_path read_failed bad_node_info node_key_failed negative_sum : Error

pub data Outcome {ℓ} (A : Type ℓ) : Type ℓ where
  ok : A → Outcome A
  err : Error → Outcome A
  panic : Outcome A

-- A call after another one: only a value goes on.
infixl 5 ◌>>=◌ ◌>>◌
abbrev pub ◌>>=◌ {κ μ} : {X : Type κ} {Y : Type μ} → Outcome X → (X → Outcome Y) → Outcome Y
panic >>= next = panic
err reason >>= next = err reason
ok x >>= next = next x

abbrev pub ◌>>◌ {κ} : {Y : Type κ} → Outcome (Unit {0}) → Outcome Y → Outcome Y
check >> next = check >>= λ _. next

-- `if bad { return e }`
abbrev pub fail_if : Bool → Error → Outcome (Unit {0})
fail_if true e = err e
fail_if false e = ok tt

-- A dereference: nil panics.
abbrev pub deref {ℓ} : {A : Type ℓ} → Option A → Outcome A
deref none = panic
deref (some a) = ok a

-- Two calls in a row that give a value: the first one gave a value too.
pub >>=-eq-ok {κ μ} :
    {X : Type κ} {Y : Type μ} (call : Outcome X) (next : X → Outcome Y) {y : Y}
    → call >>= next ≡ ok y
    → (x : X) × (call ≡ ok x) × (next x ≡ ok y)
>>=-eq-ok panic next e = cc
>>=-eq-ok (err reason) next e = cc
>>=-eq-ok (ok x) next e = (x, refl, e)

pub ok-inj {ℓ} : {A : Type ℓ} {a b : A} → ok a ≡ ok b → a ≡ b
ok-inj h = cc

pub deref-eq-ok {ℓ} : {A : Type ℓ} (o : Option A) {a : A} → deref o ≡ ok a → o ≡ some a
deref-eq-ok none h = cc
deref-eq-ok (some a) h = ap some (ok-inj h)
