-- ===== src/Alert/Global/Laws.antt =====
-- Which global rules fire in an evaluation (internal/alert/engine.go).
use baxi.Base.{
  ◌≡◌, refl, ap, str_append, ◌∙◌, inl, inr, Bool, true, false, Option, none, some, List, [], ◌∷◌,
  map, String, if◌then◌else◌, ℕ, leb, length, take, is_some, All, Bool-cases, Result, ok, arith,
}
use baxi.Alert.Global.{
  Env, AlertResult, AlertRule, query_metric_series, gmv_drop_of, evaluate_gmv_drop,
  late_delivery_of, evaluate_late_delivery_spike, cancel_rate_of, evaluate_cancel_rate_spike,
  add_result, evaluate_rules, global_rules, rule, evaluate_global_rules, global_alert_id,
}
use baxi.Alert.Global.Fires.{
  gmv_fires, late_fires, cancel_fires, reading, gmv_drop_of-some, late_delivery_of-some,
  cancel_rate_of-some,
}

module _ {F : Type 0} (env : Env F) where
  abbrev pub name_if : Bool → String → List String → List String
  name_if b name rest = if b then name ∷ rest else rest

  abbrev pub names : List (AlertResult F) → List String
  names rs = map (λ a. a.rule_id) rs

  -- An alert of the day, with the id that is its rule and the day.
  abbrev pub IsOfDay : String → AlertResult F → Type 0
  IsOfDay date a = (a.event_date ≡ date) × (a.alert_id ≡ str_append a.rule_id (str_append "_" date))

  names-add_result :
      (r : AlertRule F) (date : String) (found : Option (AlertResult F))
      (rest : List (AlertResult F))
      → names (add_result r date found rest) ≡ name_if (is_some found) r.rule_id (names rest)
  names-add_result r date none rest = refl
  names-add_result r date (some a) rest = refl

  add_result-IsOfDay :
      (r : AlertRule F) (date : String) (found : Option (AlertResult F))
      (rest : List (AlertResult F))
      → All (IsOfDay date) rest
      → All (IsOfDay date) (add_result r date found rest)
  unfolding global_alert_id
  add_result-IsOfDay r date none rest all = all
  add_result-IsOfDay r date (some a) rest all = ((refl, refl), all)

  -- The late delivery rule, from its series.
  abbrev late_of : List F → List F → Option (AlertResult F)
  late_of series orders = if leb 7 (length series) then late_delivery_of env series orders else none

  late_of-some :
      (series orders : List F) → is_some (late_of series orders) ≡ late_fires env series orders
  late_of-some series orders = elim (Bool-cases (leb 7 (length series))) [
    | inl long ↦ rw long (late_delivery_of-some env series orders long ∙ rw long refl)
    | inr short ↦ rw short refl
  ]

  -- The first `n` values of a column.
  abbrev pub series_of : ℕ → List String → List F
  series_of n rows = map (reading env) (take n rows)

  step :
      (r : AlertRule F) (date : String)
      (condition : Env F → String → Result (Option (AlertResult F)))
      (found : Option (AlertResult F)) (rules : List (AlertRule F)) (rest : List (AlertResult F))
      → r.enabled ≡ true
      → r.condition ≡ some condition
      → condition env date ≡ ok found
      → evaluate_rules env date rules ≡ ok rest
      → evaluate_rules env date (r ∷ rules) ≡ ok (add_result r date found rest)
  unfolding evaluate_rules
  step r date condition found rules rest on has finds after =
      rw (on, evaluate_rules) (rw (has, evaluate_rules) (rw (finds, after, evaluate_rules) refl))

  gmv_finds :
      (date : String) (rows : List String)
      → env.rows "gmv" date ≡ ok rows
      → evaluate_gmv_drop env date ≡ ok (gmv_drop_of env (series_of 21 rows))
  unfolding evaluate_gmv_drop query_metric_series
  gmv_finds date rows has = rw (has, query_metric_series) refl

  late_finds :
      (date : String) (rows orders : List String)
      → env.rows "late_delivery_rate" date ≡ ok rows
      → env.rows "order_count" date ≡ ok orders
      → evaluate_late_delivery_spike env date
        ≡ ok (late_of (series_of 21 rows) (series_of 1 orders))
  unfolding evaluate_late_delivery_spike query_metric_series
  late_finds date rows orders has has_orders =
      elim (Bool-cases (leb 7 (length (series_of 21 rows)))) [
        | inl long ↦ ground arith
        | inr short ↦ ground arith
      ]

  cancel_finds :
      (date : String) (rows : List String)
      → env.rows "cancel_rate" date ≡ ok rows
      → evaluate_cancel_rate_spike env date ≡ ok (cancel_rate_of env (series_of 21 rows))
  unfolding evaluate_cancel_rate_spike query_metric_series
  cancel_finds date rows has = rw (has, query_metric_series) refl

  gmv_rule : AlertRule F
  gmv_rule = rule "gmv_drop" "GMV下降" "high" "gmv" (some evaluate_gmv_drop) true

  late_rule : AlertRule F
  late_rule =
      rule "late_delivery_spike" "延迟飙升" "high" "late_delivery_rate"
        (some evaluate_late_delivery_spike) true

  cancel_rule : AlertRule F
  cancel_rule =
      rule "cancel_rate_spike" "取消率上升" "medium" "cancel_rate" (some evaluate_cancel_rate_spike) true

  disabled_rules : List (AlertRule F)
  disabled_rules =
      rule "review_score_drop" "评分下降" "medium" "avg_review_score" none false
      ∷ rule "seller_activation_gap" "卖家活跃度下降" "low" "active_sellers" none false
      ∷ []

  evaluates :
      (date : String)
      → env.max_date ≡ ok date
      → evaluate_global_rules env
        ≡ evaluate_rules env date (gmv_rule ∷ late_rule ∷ cancel_rule ∷ disabled_rules)
  unfolding evaluate_global_rules global_rules gmv_rule late_rule cancel_rule disabled_rules
      query_metric_series
  evaluates date day = rw (day, evaluate_global_rules) refl

  disabled : (date : String) → evaluate_rules env date disabled_rules ≡ ok []
  unfolding evaluate_rules disabled_rules
  disabled date = refl

  runs :
      (date : String) (f1 f2 f3 : Option (AlertResult F))
      → env.max_date ≡ ok date
      → evaluate_gmv_drop env date ≡ ok f1
      → evaluate_late_delivery_spike env date ≡ ok f2
      → evaluate_cancel_rate_spike env date ≡ ok f3
      → evaluate_global_rules env
        ≡ ok (
            add_result gmv_rule date f1
              (add_result late_rule date f2 (add_result cancel_rule date f3 [])))
  unfolding gmv_rule late_rule cancel_rule
  runs date f1 f2 f3 day h1 h2 h3 =
      evaluates date day
      ∙ step gmv_rule date evaluate_gmv_drop f1 (late_rule ∷ cancel_rule ∷ disabled_rules) _ refl
          refl h1
          (step late_rule date evaluate_late_delivery_spike f2 (cancel_rule ∷ disabled_rules) _ refl
            refl h2
            (step cancel_rule date evaluate_cancel_rate_spike f3 disabled_rules [] refl refl h3
              (disabled date)))

  named :
      (date : String) (f1 f2 f3 : Option (AlertResult F))
      → names (
          add_result gmv_rule date f1
            (add_result late_rule date f2 (add_result cancel_rule date f3 [])))
        ≡ name_if (is_some f1) "gmv_drop" (
            name_if
              (is_some f2)
              "late_delivery_spike"
              (name_if (is_some f3) "cancel_rate_spike" []))
  unfolding gmv_rule late_rule cancel_rule
  named date f1 f2 f3 =
      names-add_result gmv_rule date f1 _
      ∙ (ap (name_if (is_some f1) "gmv_drop") (
          names-add_result late_rule date f2 _
          ∙ ap (name_if (is_some f2) "late_delivery_spike")
              (names-add_result cancel_rule date f3 [])))

  -- Where the queries answer, the evaluation returns the alerts of the rules that fire, in the order of
  -- the rules, each with the day and with its rule's id and the day for an id; the two disabled rules
  -- never fire. A drop fires where the mean of the newest 7 of at least 21 days is strictly below 85 % of
  -- the mean of the 14 days before; a delay where there are 7 days and the latest rate is above 25 % over
  -- at least 20 orders; a cancellation where there are 7 days, the mean of the newest 7 rose or fell by
  -- more than half against the 14 days before, or the latest value where there are no 21 days, and the
  -- latest rate is above 5 %. Of a column 21 days at most are read.
  pub evaluate_global_rules-Fires :
      (date : String) (gmv late orders cancel : List String)
      → env.max_date ≡ ok date
      → env.rows "gmv" date ≡ ok gmv
      → env.rows "late_delivery_rate" date ≡ ok late
      → env.rows "order_count" date ≡ ok orders
      → env.rows "cancel_rate" date ≡ ok cancel
      → (rs : List (AlertResult F)) × (evaluate_global_rules env ≡ ok rs)
        × (names rs
            ≡ name_if (gmv_fires env (series_of 21 gmv)) "gmv_drop" (
                name_if
                  (late_fires env (series_of 21 late) (series_of 1 orders))
                  "late_delivery_spike"
                  (name_if (cancel_fires env (series_of 21 cancel)) "cancel_rate_spike" [])))
        × All (IsOfDay date) rs
  evaluate_global_rules-Fires date gmv late orders cancel day has_gmv has_late has_orders
        has_cancel =
      let f1 = gmv_drop_of env (series_of 21 gmv) in
      let f2 = late_of (series_of 21 late) (series_of 1 orders) in
      let f3 = cancel_rate_of env (series_of 21 cancel) in
      (
        add_result gmv_rule date f1
            (add_result late_rule date f2 (add_result cancel_rule date f3 [])),
        runs date f1 f2 f3 day (gmv_finds date gmv has_gmv)
            (late_finds date late orders has_late has_orders) (cancel_finds date cancel has_cancel),
        named date f1 f2 f3
            ∙ rw
                (
                  gmv_drop_of-some env (series_of 21 gmv),
                  late_of-some (series_of 21 late) (series_of 1 orders),
                  cancel_rate_of-some env (series_of 21 cancel),
                )
                refl,
        add_result-IsOfDay gmv_rule date f1
            (add_result late_rule date f2 (add_result cancel_rule date f3 []))
            (add_result-IsOfDay late_rule date f2 (add_result cancel_rule date f3 [])
              (add_result-IsOfDay cancel_rule date f3 [] tt)),
      )
