-- ===== src/Mempool/Ids/Search.antt =====
-- The search of nextPeerID in mempool/reactor.go ends: fewer numbers than there are cannot all be taken.
use native.Mathlib.Nat.{mod-eq_of_lt, mod-add-mod}
use obrs.Prelude.{
  ℕ, zero, suc, ◌+◌, ◌-◌, ◌%◌, ◌≤◌, ◌<◌, ◌≡◌, ◌≢◌, refl, sym, ap, subst, ◌∙◌, true, false, not,
  none, some, List, [], ◌∷◌, length, holds, ◌==◌, arith, Bool-cases, Option-cases, inl, inr,
  length-keep-le,
}
use obrs.Mempool.Ids.{free_from, delete_key}

-- The numbers below a bound.
below : ℕ → List ℕ
below zero = []
below (suc n) = n ∷ below n

length-below : (n : ℕ) → length (below n) ≡ n
unfolding below
length-below zero = refl
length-below (suc n) = omega (arith, length-below n)

holds-below : (n a : ℕ) → holds (below n) a ≡ true → a < n
unfolding below
holds-below zero a h = cc
holds-below (suc n) a h = ground (arith, holds-below n a)

pub holds-delete_key :
    (i a : ℕ) (xs : List ℕ) → holds xs a ≡ true → a ≢ i → holds (delete_key i xs) a ≡ true
holds-delete_key i a [] h ne = cc
holds-delete_key i a (x ∷ xs) h ne = ground (arith, holds-delete_key i a xs)

pub holds-delete_key_same : (i : ℕ) (xs : List ℕ) → holds (delete_key i xs) i ≡ false
holds-delete_key_same i [] = refl
holds-delete_key_same i (x ∷ xs) = ground (arith, holds-delete_key_same i xs)

pub holds-delete_key_other :
    (i a : ℕ) (xs : List ℕ) → a ≢ i → holds (delete_key i xs) a ≡ holds xs a
holds-delete_key_other i a [] ne = refl
holds-delete_key_other i a (x ∷ xs) ne = ground (arith, holds-delete_key_other i a xs)

length-delete_key : (i : ℕ) (xs : List ℕ) → holds xs i ≡ true → length (delete_key i xs) < length xs
length-delete_key i [] h = cc
length-delete_key i (x ∷ xs) h =
    ground (arith, length-delete_key i xs, length-keep-le (λ j. not (j == i)) xs)

-- A list that holds all numbers below a bound is that long at least.
length-ge-below : (n : ℕ) (xs : List ℕ) → ((a : ℕ) → a < n → holds xs a ≡ true) → n ≤ length xs
length-ge-below zero xs all = omega arith
length-ge-below (suc n) xs all =
    let shorter = length-delete_key n xs (all n (omega arith)) in
    let rest =
      length-ge-below n (delete_key n xs)
        (λ a h. holds-delete_key n a xs (all a (omega arith)) (omega (arith, h))) in
    omega (arith, shorter, rest)

wrapped : (m next k : ℕ) → 0 < m → ((next + 1) % m + k) % m ≡ (next + suc k) % m
wrapped m next k pos' = mod-add-mod (next + 1) m k ∙ ap (λ (i : ℕ). i % m) (omega arith)

-- Where the search finds nothing, every number that it has tried is taken.
free_from-none :
    (m f : ℕ) (active : List ℕ) (next k : ℕ)
    → 0 < m
    → next < m
    → free_from m f active next ≡ none
    → k < f
    → holds active ((next + k) % m) ≡ true
unfolding free_from
free_from-none m zero active next k pos' lt h small = elim small [ ]
free_from-none m (suc f) active next zero pos' lt h small =
    subst (λ (i : ℕ). holds active i ≡ true) (sym (mod-eq_of_lt (omega (arith, lt)))) (ground arith)
free_from-none m (suc f) active next (suc k) pos' lt h small =
    let taken : holds active next ≡ true = ground arith in
    let on : free_from m f active ((next + 1) % m) ≡ none = ground arith in
    let there = free_from-none m f active ((next + 1) % m) k pos' (grind arith) on (omega arith) in
    subst (λ (i : ℕ). holds active i ≡ true) (wrapped m next k pos') there

around : (m next a : ℕ) → next < m → a < m → (next + (a + m - next) % m) % m ≡ a
around m next a lt small = grind arith

-- With a round for each number, and fewer numbers taken than there are, the search finds one.
pub free_from-total :
    (m : ℕ) (active : List ℕ) (next : ℕ)
    → next < m
    → length active < m
    → (i : ℕ) × (free_from m m active next ≡ some i)
free_from-total m active next lt few = elim (Option-cases (free_from m m active next)) [
  | inr found ↦ found
  | inl failed ↦ absurd (
      omega (
        arith,
        few,
        length-ge-below m active (λ a small.
            subst (λ (i : ℕ). holds active i ≡ true) (around m next a lt small)
              (free_from-none m m active next ((a + m - next) % m) (omega (arith, lt)) lt failed
                (grind arith))),
      ))
]

-- What the search finds is free, and is one of the numbers.
pub free_from-some :
    (m f : ℕ) (active : List ℕ) (next : ℕ) {i : ℕ}
    → 0 < m
    → next < m
    → free_from m f active next ≡ some i
    → (holds active i ≡ false) × (i < m)
unfolding free_from
free_from-some m zero active next pos' lt h = ground arith
free_from-some m (suc f) active next {i} pos' lt h = elim (Bool-cases (holds active next)) [
  | inl taken ↦ free_from-some m f active ((next + 1) % m) pos' (grind arith) (ground arith)
  | inr free ↦ ground arith
]
