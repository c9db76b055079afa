-- ===== src/Alert/Global.antt =====
-- The global alert rules (internal/alert/rule.go, and the first part of engine.go). The environment
-- gives the rows of mart.metric_daily, newest first; `literal` is a decimal constant, `scan` reads `%f`,
-- `print` a number for `Sprintf` or for JSON, and `encode` is the JSON encoder.
mod Fires
mod Laws
mod Tests
use baxi.Base.{
  ◌&&◌, Bool, true, false, Option, none, some, List, [], ◌∷◌, map, String, str_append, ◌==◌,
  if◌then◌else◌, ℤ, pos, leb_ℤ, ℕ, zero, suc, leb, ltb, length, take, drop, Result, ok, err, ◌>>=◌,
}
use baxi.Json.{Fields, end, field, bool, int, float}
use baxi.Alert.{Floats}

pub record Env (F : Type 0) : Type 0 where
  pub floats : Floats F
  pub literal : ℕ → ℕ → F
  pub round : F → F
  pub to_int : F → ℤ
  pub scan : String → Option F
  pub print : F → String
  pub print_int : ℤ → String
  pub print2 : F → String
  pub print4 : F → String
  pub encode : Fields → Option String
  pub max_date : Result String
  pub rows : String → String → Result (List String)

-- `AlertResult`.
pub record AlertResult (F : Type 0) : Type 0 where
  pub alert_id : String
  pub rule_id : String
  pub event_date : String
  pub metric_name : String
  pub current_value : F
  pub baseline_value : F
  pub delta_value : F
  pub delta_pct : F
  pub severity : String
  pub message : String
  pub evidence_json : String
  pub sample_size : ℤ

-- `AlertRule`. A nil condition is `none`.
pub record AlertRule (F : Type 0) : Type 0 where
  pub rule_id : String
  pub name : String
  pub severity : String
  pub metric : String
  pub condition : Option (Env F → String → Result (Option (AlertResult F)))
  pub enabled : Bool

-- `GlobalAlertID`.
unfoldable pub global_alert_id : String → String → String
global_alert_id rule_id event_date = str_append rule_id (str_append "_" event_date)

module _ {F : Type 0} where
  abbrev pub value_of : Env F → String → F
  value_of env s =
      if s == ""
      then env.floats.zero_float
      else elim (env.scan s) [ none ↦ env.floats.zero_float | some v ↦ v ]

  -- `queryMetricSeries`.
  unfoldable pub query_metric_series : Env F → String → String → ℕ → Result (List F)
  query_metric_series env column date n = elim (env.rows column date) [
    | err m ↦ err (str_append "query " (str_append column (str_append ": " m)))
    | ok rows ↦ ok (map (value_of env) (take n rows))
  ]

  abbrev pub sum_from : Floats F → F → List F → F
  sum_from fl acc [] = acc
  sum_from fl acc (v ∷ vs) = sum_from fl (fl.add acc v) vs

  -- `avg`.
  unfoldable pub avg : Floats F → List F → F
  avg fl [] = fl.zero_float
  avg fl (v ∷ vs) = fl.div (sum_from fl fl.zero_float (v ∷ vs)) (fl.of_nat (length (v ∷ vs)))

  abbrev power : Env F → ℕ → F
  power env zero = env.floats.of_nat 1
  power env (suc n) = env.floats.mul (power env n) (env.floats.of_nat 10)

  -- `roundTo`.
  abbrev pub round_to : Env F → F → ℕ → F
  round_to env v n = env.floats.div (env.round (env.floats.mul v (power env n))) (power env n)

  -- `absFloat`.
  abbrev pub abs_float : Floats F → F → F
  abs_float fl v = if fl.less v fl.zero_float then fl.sub fl.zero_float v else v

  abbrev pub newest : List F → F → F
  newest [] d = d
  newest (v ∷ vs) d = v

  abbrev rounded : Env F → F → String
  rounded env v = env.print (round_to env v 4)

  -- The two averages, which the evidence has where `means` says so, and the rest of the evidence. The
  -- encoder sorts the keys.
  abbrev evidence : Env F → Bool → F → F → F → F → ℤ → String
  evidence env means cur prev latest change samples =
      let rest = field "current_value" (float (rounded env latest)) (
        field "baseline_value" (float (rounded env prev)) (
          field "change_rate" (float (rounded env change)) (
            field "window_7d_count" (int (pos 7)) (
              field "window_14d_count" (int (pos 14))
                (field "total_samples" (int samples) (field "triggered" (bool true) end)))))) in
      let all =
        if means
        then field "current_7d_avg" (float (rounded env cur))
            (field "prev_14d_avg" (float (rounded env prev)) rest)
        else rest in
      elim (env.encode all) [ none ↦ "{}" | some s ↦ s ]

  -- The alert of a rule, before the engine fills in the rule.
  abbrev result_of : Env F → F → F → F → String → String → ℤ → AlertResult F
  result_of env current prev change message json samples = record {
    alert_id = "";
    rule_id = "";
    event_date = "";
    metric_name = "";
    current_value = round_to env current 4;
    baseline_value = round_to env prev 4;
    delta_value = round_to env (env.floats.sub current prev) 4;
    delta_pct = round_to env change 4;
    severity = "";
    message = message;
    evidence_json = json;
    sample_size = samples;
  }

  abbrev pub prev_14 : Env F → List F → F
  prev_14 env series = avg env.floats (take 14 (drop 7 series))

  abbrev pub cur_7 : Env F → List F → F
  cur_7 env series = avg env.floats (take 7 series)

  abbrev change_from : Floats F → F → F → F
  change_from fl current prev = fl.div (fl.sub current prev) prev

  -- `evaluateGMVDrop`, from the series.
  unfoldable pub gmv_drop_of : Env F → List F → Option (AlertResult F)
  gmv_drop_of env series =
      let fl = env.floats in
      let cur = cur_7 env series in
      let prev = prev_14 env series in
      let change = change_from fl cur prev in
      let message =
        str_append "GMV 7日均值较前14天均值下降超过15% | 7d_avg="
          (str_append (env.print2 cur) (str_append ", 14d_avg=" (env.print2 prev))) in
      if ltb (length series) 7
      then none
      else if ltb (length series) 21
      then none
      else if fl.equal prev fl.zero_float
      then none
      else if fl.less cur (fl.mul prev (env.literal 85 2))
      then some (
          result_of env cur prev change message
            (evidence env true cur prev (newest series fl.zero_float) change (pos (length series)))
            (pos (length series)))
      else none

  -- `evaluateGMVDrop`.
  unfoldable pub evaluate_gmv_drop : Env F → String → Result (Option (AlertResult F))
  unfolding gmv_drop_of
  evaluate_gmv_drop env date =
      query_metric_series env "gmv" date 21 >>= λ series. ok (gmv_drop_of env series)

  -- The mean of the 14 days before the last 7, or the latest value where the series is shorter.
  abbrev pub prev_or_latest : Env F → List F → F
  prev_or_latest env series =
      if leb 21 (length series) then prev_14 env series else newest series env.floats.zero_float

  abbrev pub safe_change : Floats F → F → F → F
  safe_change fl current prev =
      if fl.equal prev fl.zero_float then fl.zero_float else change_from fl current prev

  -- The sample count: the latest order count, if there is one.
  abbrev pub samples_of : Env F → List F → List F → ℤ
  samples_of env series [] = pos (length series)
  samples_of env series (o ∷ os) = env.to_int o

  -- `evaluateLateDeliverySpike`, from its two series.
  unfoldable pub late_delivery_of : Env F → List F → List F → Option (AlertResult F)
  late_delivery_of env series orders =
      let fl = env.floats in
      let latest = newest series fl.zero_float in
      let samples = samples_of env series orders in
      let prev = prev_or_latest env series in
      let change = safe_change fl latest prev in
      let message =
        str_append "延迟配送率超过25% | value=" (str_append (env.print4 latest) ", samples=") in
      if fl.less (env.literal 25 2) latest && leb_ℤ (pos 20) samples
      then some (
          result_of env latest prev change (str_append message (env.print_int samples))
            (evidence env false latest prev latest change samples) samples)
      else none

  -- `evaluateLateDeliverySpike`.
  unfoldable pub evaluate_late_delivery_spike : Env F → String → Result (Option (AlertResult F))
  unfolding late_delivery_of
  evaluate_late_delivery_spike env date =
      query_metric_series env "late_delivery_rate" date 21 >>= λ series.
      if ltb (length series) 7
      then ok none
      else query_metric_series env "order_count" date 1 >>= λ orders.
          ok (late_delivery_of env series orders)

  -- `evaluateCancelRateSpike`, from the series.
  unfoldable pub cancel_rate_of : Env F → List F → Option (AlertResult F)
  cancel_rate_of env series =
      let fl = env.floats in
      let latest = newest series fl.zero_float in
      let cur = cur_7 env series in
      let prev = prev_or_latest env series in
      let change = safe_change fl cur prev in
      let message =
        str_append "取消率变化超过50%且当前值超过5% | change_rate="
          (str_append (env.print4 change) (str_append ", value=" (env.print4 latest))) in
      let alert =
        result_of env latest prev change message
          (evidence env true cur prev latest change (pos (length series))) (pos (length series)) in
      if ltb (length series) 7
      then none
      else if fl.less (env.literal 5 1) (abs_float fl change) && fl.less (env.literal 5 2) latest
      then some (record alert { delta_value = round_to env (fl.sub cur prev) 4 })
      else none

  -- `evaluateCancelRateSpike`.
  unfoldable pub evaluate_cancel_rate_spike : Env F → String → Result (Option (AlertResult F))
  unfolding cancel_rate_of
  evaluate_cancel_rate_spike env date =
      query_metric_series env "cancel_rate" date 21 >>= λ series. ok (cancel_rate_of env series)

  abbrev rule :
      String
      → String
      → String
      → String
      → Option (Env F → String → Result (Option (AlertResult F)))
      → Bool
      → AlertRule F
  rule id name severity metric condition enabled = record {
    rule_id = id;
    name = name;
    severity = severity;
    metric = metric;
    condition = condition;
    enabled = enabled;
  }

  -- `GlobalRules`.
  unfoldable pub global_rules : List (AlertRule F)
  unfolding evaluate_gmv_drop evaluate_late_delivery_spike evaluate_cancel_rate_spike
  global_rules =
      rule "gmv_drop" "GMV下降" "high" "gmv" (some evaluate_gmv_drop) true
      ∷ rule "late_delivery_spike" "延迟飙升" "high" "late_delivery_rate"
          (some evaluate_late_delivery_spike) true
      ∷ rule "cancel_rate_spike" "取消率上升" "medium" "cancel_rate" (some evaluate_cancel_rate_spike)
          true
      ∷ rule "review_score_drop" "评分下降" "medium" "avg_review_score" none false
      ∷ rule "seller_activation_gap" "卖家活跃度下降" "low" "active_sellers" none false
      ∷ []

  abbrev pub filled : AlertRule F → String → AlertResult F → AlertResult F
  filled r date a = record a {
    rule_id = r.rule_id;
    severity = r.severity;
    metric_name = r.metric;
    event_date = date;
    alert_id = global_alert_id r.rule_id date;
  }

  abbrev pub add_result :
      AlertRule F → String → Option (AlertResult F) → List (AlertResult F) → List (AlertResult F)
  add_result r date none rest = rest
  add_result r date (some a) rest = filled r date a ∷ rest

  -- The loop over the rules.
  unfoldable pub evaluate_rules :
      Env F → String → List (AlertRule F) → Result (List (AlertResult F))
  unfolding global_alert_id
  evaluate_rules env date [] = ok []
  evaluate_rules env date (r ∷ rules) =
      let skip = evaluate_rules env date rules in
      if r.enabled
      then (elim r.condition [
        | none ↦ skip
        | some condition ↦ elim (condition env date) [
          | err m ↦ err (str_append r.rule_id (str_append ": evaluate: " m))
          | ok found ↦ skip >>= λ rest. ok (add_result r date found rest)
        ]
      ])
      else skip

  -- `EvaluateGlobalRules`. The latest date is an error where the table is empty.
  unfoldable pub evaluate_global_rules : Env F → Result (List (AlertResult F))
  unfolding evaluate_rules global_rules
  evaluate_global_rules env = elim env.max_date [
    | err m ↦ err (str_append "get latest date: " m)
    | ok date ↦ evaluate_rules env date global_rules
  ]
