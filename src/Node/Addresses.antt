-- ===== src/Node/Addresses.antt =====
-- splitAndTrimEmpty of node/node.go, which reads a list of addresses, with a separator of one byte and
-- one byte to trim.
use mathlib.Core.List.{reverse-reverse}
use obrs.Prelude.{
  ℕ, ◌≡◌, ◌≢◌, refl, ap, ◌∙◌, false, not, List, [], ◌∷◌, ◌++◌, map, reverse, keep, All, All-reverse,
  ◌==◌, arith, if◌then◌else◌,
}
use obrs.Prelude.Bytes.{Bytes, is_empty}

-- strings.Split
with_first : ℕ → List Bytes → List Bytes
with_first c [] = (c ∷ []) ∷ []
with_first c (part ∷ parts) = (c ∷ part) ∷ parts

unfoldable pub split : ℕ → Bytes → List Bytes
unfolding with_first
split sep [] = [] ∷ []
split sep (c ∷ cs) = let rest = split sep cs in if c == sep then [] ∷ rest else with_first c rest

-- strings.Trim
trim_left : ℕ → Bytes → Bytes
trim_left cut [] = []
trim_left cut (c ∷ cs) = let rest = trim_left cut cs in if c == cut then rest else c ∷ cs

unfoldable pub trim : ℕ → Bytes → Bytes
unfolding trim_left
trim cut s = reverse (trim_left cut (reverse (trim_left cut s)))

unfoldable pub split_and_trim_empty : ℕ → ℕ → Bytes → List Bytes
unfolding split trim
split_and_trim_empty sep cut [] = []
split_and_trim_empty sep cut (c ∷ cs) =
    keep (λ part. not (is_empty part)) (map (trim cut) (split sep (c ∷ cs)))

-- The text of a list of addresses.
abbrev pub join : ℕ → List Bytes → Bytes
join sep [] = []
join sep (a ∷ []) = a
join sep (a ∷ b ∷ rest) = a ++ sep ∷ join sep (b ∷ rest)

-- An address is not empty and has no separator and no byte to trim.
pub record IsClean (sep cut : ℕ) (a : Bytes) : Type 0 where
  pub nonempty : is_empty a ≡ false
  pub bytes : All (λ c. (c ≢ sep) × (c ≢ cut)) a

module _ (sep cut : ℕ) where
  abbrev Plain : Bytes → Type 0
  Plain a = All (λ c. (c ≢ sep) × (c ≢ cut)) a

  split-Plain : (a : Bytes) → Plain a → split sep a ≡ a ∷ []
  unfolding split
  split-Plain [] h = refl
  split-Plain (c ∷ cs) (h, hs) = ground (arith, split-Plain cs hs)

  split-append : (a rest : Bytes) → Plain a → split sep (a ++ sep ∷ rest) ≡ a ∷ split sep rest
  unfolding split
  split-append [] rest h = ground arith
  split-append (c ∷ cs) rest (h, hs) = ground (arith, split-append cs rest hs)

  trim_left-Plain : (a : Bytes) → Plain a → trim_left cut a ≡ a
  unfolding trim_left
  trim_left-Plain [] h = refl
  trim_left-Plain (c ∷ cs) (h, hs) = ground arith

  trim-Plain : (a : Bytes) → Plain a → trim cut a ≡ a
  unfolding trim
  trim-Plain a h =
      ap (λ (b : Bytes). reverse (trim_left cut (reverse b))) (trim_left-Plain a h)
      ∙ ap reverse (trim_left-Plain (reverse a) (All-reverse (λ c. (c ≢ sep) × (c ≢ cut)) a h))
      ∙ reverse-reverse a

  split-join :
      (a : Bytes) (rest : List Bytes)
      → All (IsClean sep cut) (a ∷ rest)
      → split sep (join sep (a ∷ rest)) ≡ a ∷ rest
  split-join a [] (h, hs) = split-Plain a h.bytes
  split-join a (b ∷ rest) (h, hs) =
      split-append a (join sep (b ∷ rest)) h.bytes
      ∙ ap (λ (l : List Bytes). a ∷ l) (split-join b rest hs)

  keep-clean :
      (as' : List Bytes)
      → All (IsClean sep cut) as'
      → keep (λ part. not (is_empty part)) (map (trim cut) as') ≡ as'
  keep-clean [] h = refl
  keep-clean (a ∷ rest) (h, hs) =
      ground (arith, trim-Plain a h.bytes, h.nonempty, keep-clean rest hs)

  nonempty-join :
      (a : Bytes) (rest : List Bytes) → is_empty a ≡ false → is_empty (join sep (a ∷ rest)) ≡ false
  nonempty-join a [] h = h
  nonempty-join [] (b ∷ rest) h = cc
  nonempty-join (c ∷ cs) (b ∷ rest) h = refl

  split_nonempty :
      (s : Bytes)
      → is_empty s ≡ false
      → split_and_trim_empty sep cut s
        ≡ keep (λ part. not (is_empty part)) (map (trim cut) (split sep s))
  unfolding split_and_trim_empty
  split_nonempty [] h = cc
  split_nonempty (c ∷ cs) h = refl

  -- A list of addresses that are not empty and have neither the separator nor the byte that is trimmed is
  -- read back from its text.
  pub split_and_trim_empty-join :
      (as' : List Bytes)
      → All (IsClean sep cut) as'
      → split_and_trim_empty sep cut (join sep as') ≡ as'
  unfolding split_and_trim_empty
  split_and_trim_empty-join [] h = refl
  split_and_trim_empty-join (a ∷ rest) h =
      split_nonempty (join sep (a ∷ rest)) (nonempty-join a rest h.0.nonempty)
      ∙ ap (λ (l : List Bytes). keep (λ part. not (is_empty part)) (map (trim cut) l))
          (split-join a rest h)
      ∙ keep-clean (a ∷ rest) h
