-- ===== src/Crypto/Threshold/Distinctness.antt =====
-- The ids of the shares in SignatureRecovery of crypto/threshold/threshol_signature.go.
use obrs.Prelude.{
  ℕ, zero, suc, ◌+◌, ◌≤◌, ◌<◌, ◌≡◌, sym, ◌∙◌, some, List, [], ◌∷◌, arith, Bool-cases, inl, inr,
  length, get_elem?, ◌==◌,
}
use obrs.Prelude.Int.{ℤ, ◌-ℤ◌, eqb_ℤ, eqb_ℤ_iff, wrap64}
use obrs.Prelude.Bytes.{Bytes}
use obrs.Prelude.Outcome.{ok, >>=-eq-ok}
use obrs.Crypto.Threshold.{
  Curve, denominator, product, shares_from, recovery, recover_many, signature_recovery,
  unmarshal_share,
}

module _ (c : Curve) where
  open c use {Scalar, Point}

  -- A denominator that was found shows that no other share has the id.
  denominator-alone :
      (i : ℕ) (xi : ℤ) (j : ℕ) (xs : List ℤ) (b r : Scalar) (k : ℕ)
      → denominator c i xi j xs b ≡ ok r
      → get_elem? xs k ≡ some xi
      → j + k ≡ i
  unfolding denominator
  denominator-alone i xi j [] b r k h e = cc
  denominator-alone i xi j (xj ∷ xs) b r zero h e = ground (arith, eqb_ℤ_iff xj xi)
  denominator-alone i xi j (xj ∷ xs) b r (suc k) h e = elim (Bool-cases (i == j)) [
    | inl same ↦ omega (arith, denominator-alone i xi (j + 1) xs b r k (ground arith) e)
    | inr other ↦ elim (Bool-cases (eqb_ℤ xj xi)) [
      | inl equal ↦ ground arith
      | inr differs ↦ omega (
        arith,
        denominator-alone i xi (j + 1) xs (c.mul_scalar b (c.set_int64 (wrap64 (xj -ℤ xi)))) r k
            (ground arith) e,
      )
    ]
  ]

  -- The loop over the shares ends well only where no other share has the id of one.
  shares_from-alone :
      (a : Scalar) (xs : List ℤ) (i : ℕ) (ys : List Bytes) (rest : List ℤ) (res p : Point) (k n : ℕ)
      (x : ℤ)
      → shares_from c a xs i ys rest res ≡ ok p
      → k < length ys
      → get_elem? rest k ≡ some x
      → get_elem? xs n ≡ some x
      → n ≡ i + k
  unfolding shares_from
  shares_from-alone a xs i [] rest res p k n x h l e f = absurd (omega arith)
  shares_from-alone a xs i (y ∷ ys) [] res p k n x h l e f = cc
  shares_from-alone a xs i (y ∷ ys) (xi ∷ rest) res p zero n x h l e f =
      let (point, _, h₁) = >>=-eq-ok (unmarshal_share c y) _ h in
      let (r, found, _) = >>=-eq-ok (denominator c i xi 0 xs (c.set_int64 xi)) _ h₁ in
      let same : get_elem? xs n ≡ some xi = f ∙ sym e in
      omega (arith, denominator-alone i xi 0 xs (c.set_int64 xi) r n found same)
  shares_from-alone a xs i (y ∷ ys) (xi ∷ rest) res p (suc k) n x h l e f =
      let (point, _, h₁) = >>=-eq-ok (unmarshal_share c y) _ h in
      let (r, _, h₂) = >>=-eq-ok (denominator c i xi 0 xs (c.set_int64 xi)) _ h₁ in
      omega (
        arith,
        shares_from-alone a xs (i + 1) ys rest
            (c.add_point res (c.mul_point (c.div_scalar a r) point)) p k n x h₂ (omega arith) e f,
      )

  -- A signature that is recovered from two shares or more has as many ids as shares, at least the
  -- threshold, and no id twice.
  pub signature_recovery_ids :
      (threshold : ℕ) (sigs : List Bytes) (ids : List ℤ) (signature : Bytes)
      → 1 < length sigs
      → signature_recovery c threshold sigs ids ≡ ok signature
      → (length ids ≡ length sigs)
        × (threshold ≤ length sigs)
        × ((k n : ℕ) (x : ℤ)
            → k < length sigs
            → get_elem? ids k ≡ some x
            → get_elem? ids n ≡ some x
            → n ≡ k)
  unfolding signature_recovery recover_many recovery
  signature_recovery_ids threshold sigs ids signature many h =
      (ground arith, ground arith, λ k n x l e f. alone sigs many (ground arith) k n x l e f)
    where
      alone :
          (ys : List Bytes)
          → 1 < length ys
          → recover_many c ys ids ≡ ok signature
          → (k n : ℕ) (x : ℤ) → k < length ys
          → get_elem? ids k ≡ some x
          → get_elem? ids n ≡ some x
          → n ≡ k
      alone [] m r = absurd (omega arith)
      alone (y ∷ []) m r = absurd (omega arith)
      alone (y ∷ z ∷ ys) m r = λ k n x l e f.
          let start = product c c.one ids in
          let (res, s, _) =
            >>=-eq-ok (shares_from c start ids 0 (y ∷ z ∷ ys) ids c.new_point) _ r in
          omega
            (arith, shares_from-alone start ids 0 (y ∷ z ∷ ys) ids c.new_point res k n x s l e f)
