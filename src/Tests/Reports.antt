-- ===== src/Tests/Reports.antt =====
-- The statistics of two latencies, with numbers for floats.
use obrs.Prelude.{
  ℕ, suc, ◌+◌, ◌/◌, ◌≡◌, ◌≢◌, ◌⊎◌, refl, List, [], ◌∷◌, length, if◌then◌else◌, leb, ltb, arith,
}
use obrs.Prelude.Outcome.{ok, panic}
use obrs.Statistics.{Float, mean, mean_cases}

insert : ℕ → List ℕ → List ℕ
insert x [] = x ∷ []
insert x (y ∷ ys) = let rest = insert x ys in if leb x y then x ∷ y ∷ ys else y ∷ rest

abbrev sorted : List ℕ → List ℕ
unfolding insert
sorted [] = []
sorted (x ∷ xs) = insert x (sorted xs)

length-insert : (x : ℕ) (ys : List ℕ) → length (insert x ys) ≡ suc (length ys)
unfolding insert
length-insert x [] = refl
length-insert x (y ∷ ys) = ground (arith, length-insert x ys)

length-sorted : (xs : List ℕ) → length (sorted xs) ≡ length xs
unfolding sorted
length-sorted [] = refl
length-sorted (x ∷ xs) = ground (arith, length-insert x (sorted xs), length-sorted xs)

abbrev numbers : Float
numbers = record {
  F = ℕ;
  lt = ltb;
  add = ◌+◌;
  div = ◌/◌;
  of_nat = λ n. n;
  minus_one = 0;
  sort = sorted;
}

abbrev two_data : List ℕ
two_data = 3 ∷ 1 ∷ []

mean_cases_example :
    ((length two_data ≡ 2) × (mean numbers two_data ≡ panic))
    ⊎ ((length two_data ≢ 2) × (r : ℕ × List ℕ) × (mean numbers two_data ≡ ok r))
mean_cases_example = mean_cases numbers length-sorted two_data
