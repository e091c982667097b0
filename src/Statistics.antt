-- ===== src/Statistics.antt =====
-- libs/utils/math.go: the statistics that the RPC server reports. The floating-point numbers and
-- sort.Float64s are a parameter.
use obrs.Prelude.{
  ℕ, ◌+◌, ◌/◌, ◌%◌, ◌<◌, ◌≤◌, zero, suc, ◌≡◌, ◌≢◌, ◌⊎◌, inl, inr, Bool, none, some, List, [], ◌∷◌,
  length, get_elem?, ◌==◌, if◌then◌else◌, arith, Bool-cases, refl,
}
use obrs.Prelude.Outcome.{Outcome, ok, panic, deref, ◌>>=◌}

pub record Float : Type 1 where
  pub F : Type 0
  pub lt : F → F → Bool
  pub add : F → F → F
  pub div : F → F → F
  pub of_nat : ℕ → F
  pub minus_one : F
  -- sort.Float64s
  pub sort : List F → List F

module _ (float : Float) where
  open float use {F, lt, add, div, of_nat, minus_one, sort}

  -- The loop of Max, and that of Min
  max_from : F → List F → F
  max_from res [] = res
  max_from res (d ∷ ds) = max_from (if lt res d then d else res) ds

  min_from : F → List F → F
  min_from res [] = res
  min_from res (d ∷ ds) = min_from (if lt d res then d else res) ds

  unfoldable pub max : List F → F
  unfolding max_from
  max [] = minus_one
  max (d ∷ ds) = max_from d (d ∷ ds)

  unfoldable pub min : List F → F
  unfolding min_from
  min [] = minus_one
  min (d ∷ ds) = min_from d (d ∷ ds)

  -- The two elements in the middle, as Mean indexes them
  middle : ℕ → List F → Outcome F
  middle n ds = if n % 2 == 1 then deref (get_elem? ds (n / 2)) else (do
    x ← deref (get_elem? ds (n / 2))
    y ← deref (get_elem? ds (n / 2 + 1))
    ok (div (add x y) (of_nat 2)))

  -- Mean: the value, and the data as it leaves them
  unfoldable pub mean : List F → Outcome (F × List F)
  unfolding middle
  mean [] = ok (minus_one, [])
  mean (d ∷ ds) =
      let sorted = sort (d ∷ ds) in middle (length (d ∷ ds)) sorted >>= λ res. ok (res, sorted)

  sum_from : F → List F → F
  sum_from res [] = res
  sum_from res (d ∷ ds) = sum_from (add res d) ds

  unfoldable pub avg : List F → F
  unfolding sum_from
  avg [] = minus_one
  avg (d ∷ ds) = div (sum_from (of_nat 0) (d ∷ ds)) (of_nat (length (d ∷ ds)))

  get_elem?-some : (ds : List F) (k : ℕ) → k < length ds → (x : F) × (get_elem? ds k ≡ some x)
  get_elem?-some [] k lt = absurd (omega arith)
  get_elem?-some (d ∷ ds) zero lt = (d, refl)
  get_elem?-some (d ∷ ds) (suc k) lt = get_elem?-some ds k (omega arith)

  get_elem?-none : (ds : List F) (k : ℕ) → length ds ≤ k → get_elem? ds k ≡ none
  get_elem?-none [] k le = refl
  get_elem?-none (d ∷ ds) zero le = absurd (omega arith)
  get_elem?-none (d ∷ ds) (suc k) le = get_elem?-none ds k (omega arith)

  middle_cases :
      (ds : List F)
      → length ds ≢ 0
      → ((length ds ≡ 2) × (middle (length ds) ds ≡ panic))
        ⊎ ((length ds ≢ 2) × (x : F) × (middle (length ds) ds ≡ ok x))
  unfolding middle
  middle_cases ds nonempty = elim (Bool-cases (length ds % 2 == 1)) [
    | inl odd ↦
        let (x, e) = get_elem?-some ds (length ds / 2) (omega arith) in
        inr (λ two. ground arith, x, ground arith)
    | inr even ↦ elim (Bool-cases (length ds == 2)) [
      | inl two ↦ inl (ground arith, ground (arith, get_elem?-none ds (length ds / 2 + 1)))
      | inr more ↦
          let (x, e) = get_elem?-some ds (length ds / 2) (ground arith) in
          let (y, e') = get_elem?-some ds (length ds / 2 + 1) (ground arith) in
          inr (λ two. ground arith, div (add x y) (of_nat 2), ground arith)
    ]
  ]

  -- Where sorting keeps the number of the data, as documented, the call of Mean panics on two data,
  -- whatever they are, and on no other number of them.
  pub mean_cases :
      ((ds : List F) → length (sort ds) ≡ length ds)
      → (ds : List F)
      → ((length ds ≡ 2) × (mean ds ≡ panic))
        ⊎ ((length ds ≢ 2) × (r : F × List F) × (mean ds ≡ ok r))
  unfolding mean middle
  mean_cases length-sort [] = inr (λ two. ground arith, (minus_one, []), refl)
  mean_cases length-sort (d ∷ ds) =
      let same = length-sort (d ∷ ds) in
      elim (middle_cases (sort (d ∷ ds)) (ground arith)) [
        | inl (two, bad) ↦ inl (ground arith, ground arith)
        | inr (other, x, good) ↦ inr (λ two. other (ground arith), (x, sort (d ∷ ds)), ground arith)
      ]
