-- ===== src/Types/Ltime.antt =====
-- types/logic_time.go: the logical clock, an int64.
use obrs.Prelude.{ℕ, Bool}
use obrs.Prelude.Int.{ℤ, pos, ◌+ℤ◌, ◌-ℤ◌, eqb_ℤ, leb_ℤ, wrap64, rem_ℤ}
use obrs.Prelude.Bytes.{Bytes}
use obrs.Prelude.Decimal.{itoa}

abbrev pub LTime : Type 0
LTime = ℤ

abbrev pub ltime_zero : LTime
ltime_zero = pos 0

unfoldable pub update : LTime → ℤ → LTime
update t delta = wrap64 (t +ℤ delta)

unfoldable pub hash : LTime → Bytes
hash t = itoa t

abbrev pub equal : LTime → LTime → Bool
equal t other = eqb_ℤ t other

-- The source's name for "not before".
abbrev pub greater : LTime → LTime → Bool
greater t other = leb_ℤ other t

unfoldable pub mod_len : LTime → ℕ → ℤ
mod_len t val = rem_ℤ t val

unfoldable pub sub : LTime → LTime → ℤ
sub x y = wrap64 (x -ℤ y)
