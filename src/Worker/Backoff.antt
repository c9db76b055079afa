-- ===== src/Worker/Backoff.antt =====
-- `backoffDuration` (internal/worker/dispatch_worker.go), in the arithmetic of Go: the power is an
-- exact float, its conversion to `int64` is left to the machine where it does not fit, and the
-- product by a minute wraps.
use baxi.Base.{
  ℕ, zero, suc, ◌-◌, ◌*◌, ◌^◌, ◌≤◌, ◌<◌, min, ◌≡◌, refl, Bool, true, false, Bool-cases, ◌&&◌, ◌||◌,
  if◌then◌else◌, ltb, leb, ℤ, pos, negsuc, int64, ltb_ℤ, leb_ℤ, ◌≤ℤ◌, arith, ◌⊎◌, inl, inr,
}

-- `time.Minute`, in nanoseconds.
abbrev pub minute : ℕ
minute = 60000000000

-- `time.Duration(math.Pow(2, float64(attempts-1))) * time.Minute`; `convert` is the bit pattern
-- that the machine gives for a power of 2 ^ 63 or more.
abbrev raw_duration : (ℕ → ℕ) → ℕ → ℤ
raw_duration convert attempts =
    let power = 2 ^ (attempts - 1) in
    int64 ((if ltb power (2 ^ 63) then power else convert power) * minute)

unfoldable pub backoff_duration : (ℕ → ℕ) → ℕ → ℤ
backoff_duration convert attempts =
    if leb attempts 0
    then pos 0
    else (let d = raw_duration convert attempts in
        if ltb_ℤ (pos (30 * minute)) d then pos (30 * minute) else d)

-- What the comment of the function promises: 1, 2, 4, 8, 16 minutes, then 30.
abbrev pub capped_doubling : ℕ → ℤ
capped_doubling attempts = pos (min (2 ^ (attempts - 1)) 30 * minute)

-- A test that every number before a bound passes.
before_bound : (ℕ → Bool) → ℕ → Bool
before_bound test zero = true
before_bound test (suc bound) =
    let earlier = before_bound test bound in if test bound then earlier else false

passes_before_bound :
    (test : ℕ → Bool) (bound k : ℕ) → k < bound → before_bound test bound ≡ true → test k ≡ true
unfolding before_bound
passes_before_bound test zero k below passed = absurd (omega arith)
passes_before_bound test (suc bound) k below passed =
    let before = passes_before_bound test bound k in
    elim (Bool-cases (test bound)) [ inr fails ↦ absurd (ground arith) | inl holds ↦ ground arith ]

eq_ℤ : ℤ → ℤ → Bool
eq_ℤ a b = leb_ℤ a b && leb_ℤ b a

eq_ℤ_sound : (a b : ℤ) → eq_ℤ a b ≡ true → a ≡ b
unfolding eq_ℤ
eq_ℤ_sound (pos a) (pos b) h = ground arith
eq_ℤ_sound (pos a) (negsuc b) h = ground arith
eq_ℤ_sound (negsuc a) (pos b) h = ground arith
eq_ℤ_sound (negsuc a) (negsuc b) h = ground arith

small_table :
    (convert : ℕ → ℕ)
    → before_bound (λ n. eq_ℤ (backoff_duration convert (suc n)) (capped_doubling (suc n))) 28
      ≡ true
unfolding before_bound eq_ℤ backoff_duration
small_table convert = refl

-- For 1 to 28 attempts no product wraps, whatever the machine's conversion: the delay is
-- 2 ^ (attempts - 1) minutes, capped at 30.
pub backoff_duration-exact :
    (convert : ℕ → ℕ) (attempts : ℕ)
    → 1 ≤ attempts
    → attempts ≤ 28
    → backoff_duration convert attempts ≡ capped_doubling attempts
backoff_duration-exact convert zero low high = absurd (omega arith)
backoff_duration-exact convert (suc n) low high = eq_ℤ_sound _ _ (
    passes_before_bound (λ k. eq_ℤ (backoff_duration convert (suc k)) (capped_doubling (suc k))) 28
      n (omega arith) (small_table convert))

abbrev wraps : ℕ → Bool
wraps n = (leb 32 n && leb n 37) || (leb 54 n && leb n 63)

wrap_table :
    (convert : ℕ → ℕ)
    → before_bound (λ n. if wraps n then leb_ℤ (backoff_duration convert n) (pos 0) else true) 64
      ≡ true
unfolding before_bound backoff_duration
wrap_table convert = refl

table_row :
    (b : Bool) (d : ℤ) → (if b then leb_ℤ d (pos 0) else true) ≡ true → b ≡ true → d ≤ℤ pos 0
table_row b (pos n) h e = ground arith
table_row b (negsuc n) h e = omega arith

-- Past 28 the product wraps: for 32 to 37 and for 54 to 63 attempts the delay is zero or negative,
-- so that the event is due at once and not after 30 minutes.
pub backoff_duration_wraps :
    (convert : ℕ → ℕ) (attempts : ℕ)
    → ((32 ≤ attempts) × (attempts ≤ 37)) ⊎ ((54 ≤ attempts) × (attempts ≤ 63))
    → backoff_duration convert attempts ≤ℤ pos 0
backoff_duration_wraps convert attempts h =
    table_row (wraps attempts) (backoff_duration convert attempts)
      (passes_before_bound
        (λ n. if wraps n then leb_ℤ (backoff_duration convert n) (pos 0) else true) 64 attempts
        (ground arith) (wrap_table convert))
      (ground arith)
