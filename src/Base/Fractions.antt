-- ===== src/Base/Fractions.antt =====
-- A finite `float64`, which is a decimal fraction: `mantissa / 10 ^ places`.
use Prim.Native.Nat.{ℕ, ◌^◌}
use mathlib.Core.Bool.{Bool}
use baxi.Base.Int.{ℤ, pos, ltb_ℤ}

pub record Number : Type 0 where
  pub mantissa : ℤ
  pub places : ℕ

-- `x < 0`.
abbrev pub below_zero : Number → Bool
below_zero x = ltb_ℤ x.mantissa (pos 0)

-- `x > 1`.
abbrev pub above_one : Number → Bool
above_one x = ltb_ℤ (pos (10 ^ x.places)) x.mantissa
