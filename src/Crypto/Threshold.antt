-- ===== src/Crypto/Threshold.antt =====
-- crypto/threshold/threshol_signature.go: key shares as values of a polynomial, and a signature
-- recovered from shares by Lagrange interpolation. The scalars and the points of the pairing come from
-- a third-party package and are a parameter.
pub mod Distinctness
use obrs.Prelude.{
  ℕ, zero, suc, ◌+◌, ◌||◌, not, Option, none, some, List, [], ◌∷◌, ltb, ◌==◌, if◌then◌else◌, length,
}
use obrs.Prelude.Int.{ℤ, pos, negsuc, ◌-ℤ◌, eqb_ℤ, wrap64}
use obrs.Prelude.Bytes.{Bytes}
use obrs.Prelude.Outcome.{
  Outcome, ok, err, panic, fail_if, ◌>>=◌, ◌>>◌, length_mismatch, no_signatures, below_threshold,
  unmarshal_failed, same_id, marshal_failed, zero_index,
}
use obrs.Crypto.Bls.{Suite, to_kyber}

-- kyber's bn256 suite: the scalar field and the group of the signatures.
pub record Curve : Type 1 where
  pub Scalar : Type 0
  pub Point : Type 0
  pub one : Scalar
  pub set_int64 : ℤ → Scalar
  pub add_scalar : Scalar → Scalar → Scalar
  pub mul_scalar : Scalar → Scalar → Scalar
  pub div_scalar : Scalar → Scalar → Scalar
  pub new_point : Point
  pub add_point : Point → Point → Point
  pub mul_point : Scalar → Point → Point
  pub unmarshal : Bytes → Option Point
  pub marshal : Point → Option Bytes

module _ (c : Curve) where
  open c use {
    Scalar, Point, one, set_int64, add_scalar, mul_scalar, div_scalar, new_point, add_point,
    mul_point, unmarshal, marshal,
  }

  -- The loop of getValue over the coefficients after the first, with the power reached so far.
  unfoldable pub value_from : Scalar → Scalar → Scalar → List Scalar → Scalar
  value_from idx base res [] = res
  value_from idx base res (a ∷ as') =
      let base' = mul_scalar base idx in
      value_from idx base' (add_scalar res (mul_scalar a base')) as'

  -- Polynome.GetValue on the coefficients; an empty list of them is out of range.
  unfoldable pub get_value : List Scalar → ℤ → Outcome Scalar
  unfolding value_from
  get_value [] idx = if eqb_ℤ idx (pos 0) then err zero_index else panic
  get_value (p ∷ ps) idx =
      if eqb_ℤ idx (pos 0) then err zero_index else ok (value_from (set_int64 idx) one p ps)

  unfoldable pub product : Scalar → List ℤ → Scalar
  product a [] = a
  product a (x ∷ xs) = product (mul_scalar a (set_int64 x)) xs

  -- The inner loop: the factors x_j - x_i for j other than i, from index j on.
  unfoldable pub denominator : ℕ → ℤ → ℕ → List ℤ → Scalar → Outcome Scalar
  denominator i xi j [] b = ok b
  denominator i xi j (xj ∷ xs) b =
      let skip = denominator i xi (j + 1) xs b in
      let next = denominator i xi (j + 1) xs (mul_scalar b (set_int64 (wrap64 (xj -ℤ xi)))) in
      if i == j then skip else if eqb_ℤ xj xi then err same_id else next

  unfoldable pub unmarshal_share : Bytes → Outcome Point
  unmarshal_share y = elim (unmarshal y) [ none ↦ err unmarshal_failed | some p ↦ ok p ]

  unfoldable pub marshal_point : Point → Outcome Bytes
  marshal_point p = elim (marshal p) [ none ↦ err marshal_failed | some b ↦ ok b ]

  -- The outer loop, from index i on, with the ids from there.
  unfoldable pub shares_from : Scalar → List ℤ → ℕ → List Bytes → List ℤ → Point → Outcome Point
  unfolding unmarshal_share denominator
  shares_from a xs i [] rest res = ok res
  shares_from a xs i (y ∷ ys) [] res = panic
  shares_from a xs i (y ∷ ys) (xi ∷ rest) res = do
    p ← unmarshal_share y
    b ← denominator i xi 0 xs (set_int64 xi)
    shares_from a xs (i + 1) ys rest (add_point res (mul_point (div_scalar a b) p))

  unfoldable pub recovery : List Bytes → List ℤ → Outcome Bytes
  unfolding shares_from product marshal_point
  recovery ys xs = do res ← shares_from (product one xs) xs 0 ys xs new_point; marshal_point res

  unfoldable pub recover_many : List Bytes → List ℤ → Outcome Bytes
  unfolding recovery
  recover_many (y ∷ []) ids = ok y
  recover_many ys ids = recovery ys ids

  unfoldable pub signature_recovery : ℕ → List Bytes → List ℤ → Outcome Bytes
  unfolding recover_many
  signature_recovery threshold sigs ids = do
    fail_if (not (length ids == length sigs)) length_mismatch
    fail_if (length ids == 0 || length sigs == 0) no_signatures
    fail_if (ltb (length sigs) threshold) below_threshold
    recover_many sigs ids

-- The loop of Master: as many random coefficients, of the keys from an index on.
unfoldable pub random_from : {Scalar : Type 0} → (ℕ → Scalar) → ℕ → ℕ → List Scalar
random_from keys i zero = []
random_from keys i (suc d) = keys i ∷ random_from keys (i + 1) d

-- Master: the coefficients, where `none` is the nil that a bad key gives. The random ones are the first
-- that the generator gives for the seed. A negative degree panics.
unfoldable pub master :
    {Scalar : Type 0} → Suite Scalar → Bytes → ℤ → ℤ → Outcome (Option (List Scalar))
unfolding random_from
master s priv d seed = elim (to_kyber s priv) [
  | ok x ↦ elim d [
    | pos n ↦ ok (some (x ∷ random_from (s.seeded_keys seed) 0 n))
    | negsuc _ ↦ panic
  ]
  | err _ ↦ ok none
  | panic ↦ panic
]
