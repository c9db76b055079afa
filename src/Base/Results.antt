-- ===== src/Base/Results.antt =====
-- A Go call that returns `(value, error)`: the value, or the text of the error.
use Prim.Native.String.{String}
use mathlib.Core.Path.{◌≡◌, refl}
use mathlib.Core.Option.{Option, none, some}
use mathlib.Core.Bool.{Bool, true, false}
use mathlib.Core.Logic.{◌⊎◌, inl, inr}

pub data Result {ℓ} (A : Type ℓ) : Type ℓ where
  ok : A → Result A
  err : String → Result A

-- The rest of a function after a call that may fail.
infixl 5 ◌>>=◌
abbrev pub ◌>>=◌ {ℓ κ} : {V : Type ℓ} {W : Type κ} → Result V → (V → Result W) → Result W
call >>= rest = elim call [ ok v ↦ rest v | err message ↦ err message ]

-- The same after a call that returns an error alone.
infixl 5 ◌>>◌
abbrev pub ◌>>◌ {κ} : {W : Type κ} → Result (Unit {0}) → Result W → Result W
call >> rest = elim call [ ok _ ↦ rest | err message ↦ err message ]

-- `if err := …; err != nil { return fmt.Errorf(…) }` for a statement that the driver may refuse.
abbrev pub check : Option String → (String → String) → Result (Unit {0})
check none wrap = ok tt
check (some e) wrap = err (wrap e)

abbrev pub guard : Bool → String → Result (Unit {0})
guard true e = ok tt
guard false e = err e

pub Result-cases {ℓ} :
    {A : Type ℓ} (r : Result A) → ((a : A) × (r ≡ ok a)) ⊎ ((e : String) × (r ≡ err e))
Result-cases (ok a) = inl (a, refl)
Result-cases (err e) = inr (e, refl)

-- Outcomes of the statements that go to the database: `none` where a statement is carried out, and
-- the driver's error text where it is refused.
abbrev pub Driver : Type 0 → Type 0
Driver Stmt = Stmt → Option String
