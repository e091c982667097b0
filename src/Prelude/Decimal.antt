-- ===== src/Prelude/Decimal.antt =====
-- Go's strconv: the decimal text of an int, and back. `Atoi` reads an optional sign and digits.
use obrs.Prelude.{
  ℕ, zero, suc, ◌+◌, ◌-◌, ◌*◌, ◌/◌, ◌%◌, ◌≤◌, ◌<◌, ◌^◌, ◌≡◌, refl, Bool, true, false, ◌&&◌, Option,
  none, some, [], ◌∷◌, arith, ltb, leb, ◌==◌, if◌then◌else◌, Bool-cases, inl, inr,
}
use obrs.Prelude.Int.{ℤ, pos, negsuc, Is64, sub_ℕ}
use obrs.Prelude.Bytes.{Bytes}

-- The digits of a number before those already written; one round of fuel for each digit.
digits_from : ℕ → ℕ → Bytes → Bytes
digits_from zero n rest = rest
digits_from (suc f) n rest =
    let more = digits_from f (n / 10) ((48 + n % 10) ∷ rest) in
    if ltb n 10 then (48 + n) ∷ rest else more

-- strconv.Itoa
unfoldable pub itoa : ℤ → Bytes
unfolding digits_from
itoa (pos n) = digits_from (suc n) n []
itoa (negsuc n) = b'-' ∷ digits_from (suc (suc n)) (suc n) []

is_digit : ℕ → Bool
is_digit c = leb 48 c && leb c 57

-- The value of the digits after those already read.
read_digits : ℕ → Bytes → Option ℕ
read_digits acc [] = some acc
read_digits acc (c ∷ cs) =
    let rest = read_digits (acc * 10 + (c - 48)) cs in if is_digit c then rest else none

-- At least one digit.
read_nat : Bytes → Option ℕ
unfolding read_digits is_digit
read_nat [] = none
read_nat (c ∷ cs) = read_digits 0 (c ∷ cs)

-- A magnitude with its sign, refused outside the range of an int64.
signed : Bool → Option ℕ → Option ℤ
signed minus none = none
signed true (some n) = if leb n (2 ^ 63) then some (sub_ℕ 0 n) else none
signed false (some n) = if ltb n (2 ^ 63) then some (pos n) else none

-- strconv.Atoi, where `none` is a syntax or a range error.
unfoldable pub atoi : Bytes → Option ℤ
unfolding read_nat signed
atoi [] = none
atoi (c ∷ cs) =
    if c == b'-'
    then signed true (read_nat cs)
    else if c == b'+'
    then signed false (read_nat cs)
    else signed false (read_nat (c ∷ cs))

-- Reading a number's digits back, with any text after them.
read_digits-digits_from :
    (f n : ℕ) (rest : Bytes) → n < f → read_digits 0 (digits_from f n rest) ≡ read_digits n rest
unfolding digits_from read_digits is_digit
read_digits-digits_from zero n rest h = elim h [ ]
read_digits-digits_from (suc f) n rest h =
    ground (arith, read_digits-digits_from f (n / 10) ((48 + n % 10) ∷ rest))

-- The text of a number begins with a digit, so with no sign.
digits_from-head :
    (f n : ℕ) (rest : Bytes)
    → n < f
    → (c : ℕ) × (cs : Bytes) × (digits_from f n rest ≡ c ∷ cs) × (48 ≤ c)
unfolding digits_from
digits_from-head zero n rest h = elim h [ ]
digits_from-head (suc f) n rest h = elim (Bool-cases (ltb n 10)) [
  | inl small ↦ (48 + n, rest, rw small, omega arith)
  | inr large ↦ rw large (digits_from-head f (n / 10) ((48 + n % 10) ∷ rest) (ground arith))
]

read_nat-digits_from : (f n : ℕ) → n < f → read_nat (digits_from f n []) ≡ some n
unfolding read_nat
read_nat-digits_from f n h =
    let (c, cs, e, _) = digits_from-head f n [] h in
    ground (arith, e, read_digits-digits_from f n [] h, done n)
  where
    done : (m : ℕ) → read_digits m [] ≡ some m
    done m = unfold read_digits in refl

-- Every int64 survives the way through its text.
pub atoi-itoa : (z : ℤ) → Is64 z → atoi (itoa z) ≡ some z
unfolding atoi itoa
atoi-itoa (pos n) h =
    let (c, cs, e, d) = digits_from-head (suc n) n [] (omega arith) in
    ground (arith, e, read_nat-digits_from (suc n) n (omega arith))
atoi-itoa (negsuc n) h = ground (arith, read_nat-digits_from (suc (suc n)) (suc n) (omega arith))

-- The value that strconv.Atoi gives beside an error: 0 for a text that is no number, and the nearest
-- int64 for one out of range.
clamped : Bool → Option ℕ → ℤ
clamped minus none = pos 0
clamped true (some n) = if leb n (2 ^ 63) then sub_ℕ 0 n else negsuc (2 ^ 63 - 1)
clamped false (some n) = if ltb n (2 ^ 63) then pos n else pos (2 ^ 63 - 1)

unfoldable pub atoi_value : Bytes → ℤ
unfolding read_nat clamped
atoi_value [] = pos 0
atoi_value (c ∷ cs) =
    if c == b'-'
    then clamped true (read_nat cs)
    else if c == b'+'
    then clamped false (read_nat cs)
    else clamped false (read_nat (c ∷ cs))

clamped-Is64 : (minus : Bool) (o : Option ℕ) → Is64 (clamped minus o)
unfolding clamped
clamped-Is64 minus none = ground arith
clamped-Is64 true (some n) = ground arith
clamped-Is64 false (some n) = ground arith

pub atoi_value-Is64 : (b : Bytes) → Is64 (atoi_value b)
unfolding atoi_value
atoi_value-Is64 [] = ground arith
atoi_value-Is64 (c ∷ cs) = elim (Bool-cases (c == b'-')) [
  | inl minus ↦ rw minus (clamped-Is64 true (read_nat cs))
  | inr other ↦ elim (Bool-cases (c == b'+')) [
    | inl plus ↦ rw other (rw plus (clamped-Is64 false (read_nat cs)))
    | inr digit ↦ rw other (rw digit (clamped-Is64 false (read_nat (c ∷ cs))))
  ]
]

-- On the text of an int64 that is its value.
pub atoi_value-itoa : (z : ℤ) → Is64 z → atoi_value (itoa z) ≡ z
unfolding atoi_value itoa clamped
atoi_value-itoa (pos n) h =
    let (c, cs, e, d) = digits_from-head (suc n) n [] (omega arith) in
    ground (arith, e, read_nat-digits_from (suc n) n (omega arith))
atoi_value-itoa (negsuc n) h =
    ground (arith, read_nat-digits_from (suc (suc n)) (suc n) (omega arith))
