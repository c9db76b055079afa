-- ===== src/Alert/Laws.antt =====
-- How many alerts are raised, and which are kept (internal/alert/engine.go).
use mathlib.Core.Path.{subst}
use baxi.Base.{
  ◌≡◌, refl, ◌∙◌, sym, ap, inl, inr, true, false, List, [], ◌∷◌, ◌++◌, String, ℕ, zero, suc, ◌+◌,
  ◌≤◌, arith, leb, length, take, drop, All, All-map, append-nil, take-append-drop, length-append,
  Bool-cases, ◌==◌, if◌then◌else◌, eq_iff,
}
use baxi.Alert.{
  Env, Floats, DimensionalRule, DimensionalAlert, SeriesEntry, SuppressResult, severity_order,
  dim_alerts, triggers, comes_before, insert_alert, sort_alerts, cap_of, suppress_alerts,
  max_alerts_per_dim_value,
}

-- How far a severity is from the most severe: low is last, medium before it, and every other one,
-- `high`, `critical` and those in no table among them, is first.
abbrev pub rank_of : String → ℕ
rank_of severity = if severity == "low" then 2 else if severity == "medium" then 1 else 0

severity_order-rank : (s : String) → severity_order s ≡ rank_of s
severity_order-rank s = ground (arith, eq_iff s "medium", eq_iff s "low", eq_iff "medium" "low")

module _ {F : Type 0} where
  abbrev rank : DimensionalAlert F → ℕ
  rank a = rank_of a.severity

  before-rank :
      (fl : Floats F) (a b : DimensionalAlert F) → comes_before fl a b ≡ true → rank a ≤ rank b
  unfolding comes_before
  before-rank fl a b h =
      let le : severity_order a.severity ≤ severity_order b.severity = ground arith in
      omega (arith, le, severity_order-rank a.severity, severity_order-rank b.severity)

  not_before-rank :
      (fl : Floats F) (a b : DimensionalAlert F) → comes_before fl a b ≡ false → rank b ≤ rank a
  unfolding comes_before
  not_before-rank fl a b h =
      let le : severity_order b.severity ≤ severity_order a.severity = ground arith in
      omega (arith, le, severity_order-rank a.severity, severity_order-rank b.severity)

  -- In the order of severity, the most severe first.
  abbrev pub Ranked : List (DimensionalAlert F) → Type 0
  Ranked [] = Unit
  Ranked (a ∷ alerts) = All (λ b. rank_of a.severity ≤ rank_of b.severity) alerts × Ranked alerts

  dim_alerts-length :
      (env : Env F) (rule : DimensionalRule) (value : String) (raised : ℕ)
      (series : List (SeriesEntry F))
      → raised ≤ 5
      → length (dim_alerts env rule value raised series) + raised ≤ 5
  unfolding dim_alerts
  dim_alerts-length env rule value raised [] h = omega (arith, h)
  dim_alerts-length env rule value raised (entry ∷ older) h =
      elim (Bool-cases (leb max_alerts_per_dim_value raised)) [
        | inl full ↦ rw (full, dim_alerts) (omega (arith, h))
        | inr room ↦
            let below : raised + 1 ≤ 5 = ground arith in
            elim (Bool-cases (triggers env rule entry older)) [
              | inl raises ↦
                  let more = dim_alerts-length env rule value (raised + 1) older below in
                  rw (room, raises, dim_alerts) (omega (arith, more))
              | inr quiet ↦
                  rw (room, quiet, dim_alerts) (dim_alerts-length env rule value raised older h)
            ]
      ]

  -- A rule raises at most five alerts for a value of its dimension, however long the series is.
  pub dim_alerts_bounds :
      (env : Env F) (rule : DimensionalRule) (value : String) (series : List (SeriesEntry F))
      → length (dim_alerts env rule value 0 series) ≤ 5
  dim_alerts_bounds env rule value series =
      omega (arith, dim_alerts-length env rule value 0 series (omega arith))

  insert-All :
      (fl : Floats F) (P : DimensionalAlert F → Type 0) (a : DimensionalAlert F)
      (bs : List (DimensionalAlert F))
      → P a
      → All P bs
      → All P (insert_alert fl a bs)
  insert-All fl P a [] first rest = (first, tt)
  insert-All fl P a (b ∷ bs) first rest = elim (Bool-cases (comes_before fl b a)) [
    | inl later ↦ rw later (rest.0, insert-All fl P a bs first rest.1)
    | inr sooner ↦ rw sooner (first, rest)
  ]

  insert-Ranked :
      (fl : Floats F) (a : DimensionalAlert F) (bs : List (DimensionalAlert F))
      → Ranked bs
      → Ranked (insert_alert fl a bs)
  insert-Ranked fl a [] h = (tt, tt)
  insert-Ranked fl a (b ∷ bs) h = elim (Bool-cases (comes_before fl b a)) [
    | inl later ↦ rw later (
      insert-All fl (λ c. rank b ≤ rank c) a bs (before-rank fl b a later) h.0,
      insert-Ranked fl a bs h.1,
    )
    | inr sooner ↦
        let first = not_before-rank fl b a sooner in
        rw sooner (
          (
            first,
            All-map (λ c. rank b ≤ rank c) (λ c. rank a ≤ rank c) (λ c le. omega (arith, first, le))
                bs h.0,
          ),
          h,
        )
  ]

  sort-Ranked :
      (fl : Floats F) (alerts : List (DimensionalAlert F)) → Ranked (sort_alerts fl alerts)
  sort-Ranked fl [] = tt
  sort-Ranked fl (a ∷ alerts) = insert-Ranked fl a (sort_alerts fl alerts) (sort-Ranked fl alerts)

  insert-length :
      (fl : Floats F) (a : DimensionalAlert F) (bs : List (DimensionalAlert F))
      → length (insert_alert fl a bs) ≡ suc (length bs)
  insert-length fl a [] = refl
  insert-length fl a (b ∷ bs) = elim (Bool-cases (comes_before fl b a)) [
    | inl later ↦ rw later (ap suc (insert-length fl a bs))
    | inr sooner ↦ rw sooner refl
  ]

  sort-length :
      (fl : Floats F) (alerts : List (DimensionalAlert F))
      → length (sort_alerts fl alerts) ≡ length alerts
  sort-length fl [] = refl
  sort-length fl (a ∷ alerts) =
      insert-length fl a (sort_alerts fl alerts) ∙ ap suc (sort-length fl alerts)

  -- What a suppression keeps of the alerts.
  pub record Kept (fl : Floats F) (alerts : List (DimensionalAlert F)) (cap : ℕ)
      (result : SuppressResult F) : Type 0 where
    pub dropped : List (DimensionalAlert F)
    pub all_there : sort_alerts fl alerts ≡ result.alerts ++ dropped
    pub ranked : Ranked (result.alerts ++ dropped)
    pub within : length result.alerts ≤ cap
    pub counted : length result.alerts + result.suppressed ≡ length alerts
    pub count_dropped : result.suppressed ≡ length dropped

  take-length_of : (n : ℕ) (xs : List (DimensionalAlert F)) → n ≤ length xs → length (take n xs) ≡ n
  take-length_of zero xs h = refl
  take-length_of (suc n) [] h = absurd (omega (arith, h))
  take-length_of (suc n) (x ∷ xs) h = ap suc (take-length_of n xs (omega (arith, h)))

  -- A suppression keeps at most as many alerts as the cap and counts those that it drops. What it
  -- keeps and what it drops are together the sorted alerts, in the order of severity: none is dropped
  -- whose rank is before that of one kept. Low ranks last and medium before it; every other severity,
  -- `critical` and a name in no table among them, ranks with high, so that a high alert can be kept in
  -- place of a critical one.
  pub suppress_alerts-Kept :
      (fl : Floats F) (alerts : List (DimensionalAlert F)) (max : ℕ)
      → Kept fl alerts (cap_of max) (suppress_alerts fl alerts max)
  unfolding suppress_alerts
  suppress_alerts-Kept fl alerts max =
      let sorted = sort_alerts fl alerts in
      let whole = sort-length fl alerts in
      elim (Bool-cases (leb (length sorted) (cap_of max))) [
        | inl fits ↦
            rw (fits, suppress_alerts)
              (record {
                dropped = [];
                all_there = sym (append-nil sorted);
                ranked = subst Ranked (sym (append-nil sorted)) (sort-Ranked fl alerts);
                within = ground arith;
                counted = omega (arith, whole);
                count_dropped = refl;
              })
        | inr more ↦
            let over : cap_of max ≤ length sorted = ground arith in
            let parts = take-append-drop (cap_of max) sorted in
            let kept = take-length_of (cap_of max) sorted over in
            let sum : length (take (cap_of max) sorted) + length (drop (cap_of max) sorted)
                ≡ length sorted =
              sym (length-append (take (cap_of max) sorted) (drop (cap_of max) sorted))
              ∙ ap length parts in
            rw (more, suppress_alerts)
              (record {
                dropped = drop (cap_of max) sorted;
                all_there = sym parts;
                ranked = subst Ranked (sym parts) (sort-Ranked fl alerts);
                within = omega (arith, kept);
                counted = omega (arith, kept, over, whole);
                count_dropped = omega (arith, kept, over, sum);
              })
      ]
