-- ===== src/Base/Decimal.antt =====
-- `%d` of Go's `fmt`, for the numbers that the program prints.
use Prim.Native.Nat.{ℕ, zero, suc, ◌+◌, ◌/◌, ◌%◌}
use Prim.Native.String.{String, ◌++◌, slice}
use baxi.Base.Tests.{ltb, if◌then◌else◌}

abbrev pub digit : ℕ → String
digit d = slice "0123456789" d (d + 1)

-- The fuel is the number of digits at most, for which the number itself is enough.
decimal_fuel : ℕ → ℕ → String
decimal_fuel zero n = ""
decimal_fuel (suc f) n =
    let rest = decimal_fuel f (n / 10) in if ltb n 10 then digit n else rest ++ digit (n % 10)

unfoldable pub decimal : ℕ → String
unfolding decimal_fuel
decimal n = decimal_fuel (suc n) n
