-- ===== src/Alert/Global/Fires.antt =====
-- When each global rule fires (internal/alert/engine.go).
use baxi.Base.{
  ◌+◌, ◌==◌, ◌≡◌, refl, ap, ◌≤◌, zero, suc, drop, ℤ, ◌∙◌, inl, inr, ◌&&◌, not, Bool, true, none,
  some, List, [], ◌∷◌, String, if◌then◌else◌, pos, leb_ℤ, ℕ, leb, length, take, is_some, Bool-cases,
  arith,
}
use baxi.Alert.Global.{
  Env, newest, prev_14, cur_7, sum_from, avg, gmv_drop_of, prev_or_latest, samples_of,
  late_delivery_of, cancel_rate_of,
}

length-take_of : {A : Type 0} → (n : ℕ) (xs : List A) → n ≤ length xs → length (take n xs) ≡ n
length-take_of zero xs h = refl
length-take_of (suc n) [] h = absurd (omega (arith, h))
length-take_of (suc n) (x ∷ xs) h = ap suc (length-take_of n xs (omega (arith, h)))

length-drop_of : {A : Type 0} → (n m : ℕ) (xs : List A) → n + m ≤ length xs → m ≤ length (drop n xs)
length-drop_of zero m xs h = omega (arith, h)
length-drop_of (suc n) m [] h = absurd (omega (arith, h))
length-drop_of (suc n) m (x ∷ xs) h = length-drop_of n m xs (omega (arith, h))

module _ {F : Type 0} (env : Env F) where
  -- The sum of the first values, at most so many, onto a start.
  abbrev pub window_sum : ℕ → F → List F → F
  window_sum (suc n) acc (v ∷ vs) = window_sum n (env.floats.add acc v) vs
  window_sum n acc vs = acc

  -- The mean of the seven newest days, and that of the fourteen days before them.
  abbrev pub last_week : List F → F
  last_week series =
      env.floats.div (window_sum 7 env.floats.zero_float series) (env.floats.of_nat 7)

  abbrev pub days_before : List F → F
  days_before series =
      env.floats.div (window_sum 14 env.floats.zero_float (drop 7 series)) (env.floats.of_nat 14)

  abbrev pub latest : List F → F
  latest [] = env.floats.zero_float
  latest (v ∷ vs) = v

  -- The mean of seven days is below 85 % of the mean of the 14 days before, which there are.
  abbrev pub gmv_fires : List F → Bool
  gmv_fires series =
      leb 21 (length series)
      && not (env.floats.equal (days_before series) env.floats.zero_float)
      && env.floats.less (last_week series) (env.floats.mul (days_before series) (env.literal 85 2))

  -- The number of orders of the day, or of the values if there is none.
  abbrev pub orders_of : List F → List F → ℤ
  orders_of series [] = pos (length series)
  orders_of series (o ∷ os) = env.to_int o

  -- The latest rate is above 25 %, over 20 orders or more.
  abbrev pub late_fires : List F → List F → Bool
  late_fires series orders =
      leb 7 (length series)
      && env.floats.less (env.literal 25 2) (latest series)
      && leb_ℤ (pos 20) (orders_of series orders)

  -- What the week's mean is compared with.
  abbrev pub reference : List F → F
  reference series = if leb 21 (length series) then days_before series else latest series

  -- The change against the reference, 0 where that is 0.
  abbrev pub change : List F → F
  change series =
      if env.floats.equal (reference series) env.floats.zero_float
      then env.floats.zero_float
      else env.floats.div (env.floats.sub (last_week series) (reference series)) (reference series)

  -- The mean rose or fell by more than half, and the latest rate is above 5 %.
  abbrev pub cancel_fires : List F → Bool
  cancel_fires series =
      leb 7 (length series)
      && env.floats.less (env.literal 5 1) (
          if env.floats.less (change series) env.floats.zero_float
          then env.floats.sub env.floats.zero_float (change series)
          else change series)
      && env.floats.less (env.literal 5 2) (latest series)

  newest-latest : (series : List F) → newest series env.floats.zero_float ≡ latest series
  newest-latest [] = refl
  newest-latest (v ∷ vs) = refl

  samples_of-orders :
      (series orders : List F) → samples_of env series orders ≡ orders_of series orders
  samples_of-orders series [] = refl
  samples_of-orders series (o ∷ os) = refl

  sum_from-window :
      (n : ℕ) (acc : F) (series : List F)
      → sum_from env.floats acc (take n series) ≡ window_sum n acc series
  sum_from-window zero acc series = refl
  sum_from-window (suc n) acc [] = refl
  sum_from-window (suc n) acc (v ∷ vs) = sum_from-window n (env.floats.add acc v) vs

  avg-sum :
      (n : ℕ) (series : List F)
      → length series ≡ suc n
      → avg env.floats series
        ≡ env.floats.div
            (sum_from env.floats env.floats.zero_float series)
            (env.floats.of_nat (suc n))
  unfolding avg
  avg-sum n [] h = absurd (omega (arith, h))
  avg-sum n (v ∷ vs) h =
      ap
        (λ k.
          env.floats.div (sum_from env.floats env.floats.zero_float (v ∷ vs)) (env.floats.of_nat k))
        h

  avg-window :
      (n : ℕ) (series : List F)
      → suc n ≤ length series
      → avg env.floats (take (suc n) series)
        ≡ env.floats.div
            (window_sum (suc n) env.floats.zero_float series)
            (env.floats.of_nat (suc n))
  avg-window n series enough =
      avg-sum n (take (suc n) series) (length-take_of (suc n) series enough)
      ∙ ap (λ x. env.floats.div x (env.floats.of_nat (suc n)))
          (sum_from-window (suc n) env.floats.zero_float series)

  cur_7-last_week :
      (series : List F) → leb 7 (length series) ≡ true → cur_7 env series ≡ last_week series
  cur_7-last_week series enough = avg-window 6 series (ground arith)

  prev_14-days_before :
      (series : List F) → leb 21 (length series) ≡ true → prev_14 env series ≡ days_before series
  prev_14-days_before series enough =
      let long : 21 ≤ length series = ground arith in
      avg-window 13 (drop 7 series) (length-drop_of 7 14 series long)

  prev_or_latest-reference : (series : List F) → prev_or_latest env series ≡ reference series
  prev_or_latest-reference series = elim (Bool-cases (leb 21 (length series))) [
    | inl long ↦ rw long (prev_14-days_before series long)
    | inr short ↦ rw short (newest-latest series)
  ]

  pub gmv_drop_of-some : (series : List F) → is_some (gmv_drop_of env series) ≡ gmv_fires series
  unfolding gmv_drop_of
  gmv_drop_of-some series = elim (Bool-cases (leb 21 (length series))) [
    | inr short ↦ ground arith
    | inl long ↦
        let week = cur_7-last_week series (ground arith) in
        let before = prev_14-days_before series long in ground (arith, week, before)
  ]

  pub late_delivery_of-some :
      (series orders : List F)
      → leb 7 (length series) ≡ true
      → is_some (late_delivery_of env series orders) ≡ late_fires series orders
  unfolding late_delivery_of
  late_delivery_of-some series orders long =
      let rate = newest-latest series in
      let count = samples_of-orders series orders in ground (arith, rate, count)

  pub cancel_rate_of-some :
      (series : List F) → is_some (cancel_rate_of env series) ≡ cancel_fires series
  unfolding cancel_rate_of
  cancel_rate_of-some series = elim (Bool-cases (leb 7 (length series))) [
    | inr short ↦ ground arith
    | inl long ↦
        let rate = newest-latest series in
        let week = cur_7-last_week series long in
        let before = prev_or_latest-reference series in ground (arith, rate, week, before)
  ]

  -- The number that a text stands for, 0 where it stands for none.
  abbrev pub reading : String → F
  reading s =
      if s == ""
      then env.floats.zero_float
      else elim (env.scan s) [ none ↦ env.floats.zero_float | some v ↦ v ]
