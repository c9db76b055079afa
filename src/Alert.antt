-- ===== src/Alert.antt =====
-- The dimensional alerts (internal/alert/engine.go): the rules over the series of a metric, and the cap on
-- what they raise. The arithmetic of float64 is a parameter, as are `Sscanf` for one number, the hash
-- of an id, and the queries, which give the series of each dimension value, newest first.
pub mod Laws
pub mod Global
mod Tests
use baxi.Base.{
  ◌&&◌, ◌||◌, not, Bool, true, false, Option, none, some, List, [], ◌∷◌, ◌++◌, String, str_append,
  ◌==◌, if◌then◌else◌, ℤ, pos, ltb_ℤ, ℕ, zero, suc, ◌+◌, ◌-◌, leb, ltb, nat_eq, length, take, drop,
  is_some, map, Result, ok, err,
}

-- The operations of float64.
pub record Floats (F : Type 0) : Type 0 where
  pub zero_float : F
  pub of_int : ℤ → F
  pub of_nat : ℕ → F
  pub add : F → F → F
  pub sub : F → F → F
  pub mul : F → F → F
  pub div : F → F → F
  pub less : F → F → Bool
  pub equal : F → F → Bool

-- `DimensionalRuleConfig`: the fields that are read.
pub record DimensionalRule : Type 0 where
  pub rule_id : String
  pub dimension_type : String
  pub metric_name : String
  pub condition : String
  pub min_sample_size : ℤ
  pub severity : String
  pub owner_role : String
  pub description : String
  pub baseline_window : ℕ

pub record SeriesEntry (F : Type 0) : Type 0 where
  pub metric_date : String
  pub metric_value : F
  pub sample_size : ℤ

-- `DimensionalAlert`.
pub record DimensionalAlert (F : Type 0) : Type 0 where
  pub alert_id : String
  pub rule_id : String
  pub event_date : String
  pub severity : String
  pub metric_name : String
  pub object_type : String
  pub object_id : String
  pub current_value : F
  pub baseline_value : Option F
  pub change_rate : F
  pub sample_size : ℤ
  pub affected_orders : ℤ
  pub affected_gmv : Option F
  pub impact_score : F
  pub description : String
  pub owner_role : String

-- `SuppressResult`.
pub record SuppressResult (F : Type 0) : Type 0 where
  pub alerts : List (DimensionalAlert F)
  pub suppressed : ℕ

pub record Env (F : Type 0) : Type 0 where
  pub floats : Floats F
  pub scan : String → String → Option F
  pub alert_id : String → String → String → String → String
  pub series : DimensionalRule → Result (List (String × List (SeriesEntry F)))
  pub gmv : DimensionalAlert F → Result (Option F)

-- `severityOrder`, where Go gives 0 for a severity that it does not list.
abbrev pub severity_order : String → ℕ
severity_order s = if s == "medium" then 1 else if s == "low" then 2 else 0

abbrev pub max_alerts_per_run : ℕ
max_alerts_per_run = 50

abbrev pub max_alerts_per_dim_value : ℕ
max_alerts_per_dim_value = 5

abbrev pub window_of : DimensionalRule → ℕ
window_of rule = if nat_eq rule.baseline_window 0 then 14 else rule.baseline_window

-- `severityWeights`, with 1 for a severity that it does not list.
abbrev pub severity_weight : String → ℕ
severity_weight s = if s == "high" then 3 else if s == "medium" then 2 else 1

abbrev pub cap_of : ℕ → ℕ
cap_of n = if nat_eq n 0 then max_alerts_per_run else n

module _ {F : Type 0} where
  abbrev pub has_baseline : Floats F → Option F → Bool
  has_baseline fl none = false
  has_baseline fl (some b) = not (fl.equal b fl.zero_float)

  -- `evaluateCondition`.
  unfoldable pub evaluate_condition : Env F → String → F → Option F → F → Bool
  evaluate_condition env condition current base change =
      let fl = env.floats in
      elim (env.scan "value_gt: %f" condition) [
        | some threshold ↦ fl.less threshold current
        | none ↦ elim (env.scan "value_lt: %f" condition) [
          | some threshold ↦ fl.less current threshold
          | none ↦ elim (env.scan "change_rate_lt: %f" condition) [
            | some threshold ↦ has_baseline fl base && fl.less change threshold
            | none ↦ elim (env.scan "change_rate_gt: %f" condition) [
              | some threshold ↦ has_baseline fl base && fl.less threshold change
              | none ↦ false
            ]
          ]
        ]
      ]

  abbrev pub needs_baseline : Env F → DimensionalRule → Bool
  needs_baseline env rule =
      is_some (env.scan "change_rate_lt: %f" rule.condition)
      || is_some (env.scan "change_rate_gt: %f" rule.condition)

  abbrev pub total : Floats F → F → List (SeriesEntry F) → F
  total fl sum [] = sum
  total fl sum (e ∷ es) = total fl (fl.add sum e.metric_value) es

  -- The mean of the entries before, if there are any.
  abbrev pub mean : Floats F → List (SeriesEntry F) → Option F
  mean fl [] = none
  mean fl (e ∷ es) = some (fl.div (total fl fl.zero_float (e ∷ es)) (fl.of_nat (length (e ∷ es))))

  abbrev pub baseline : Env F → DimensionalRule → List (SeriesEntry F) → Option F
  baseline env rule older =
      if needs_baseline env rule then mean env.floats (take (window_of rule) older) else none

  abbrev pub change_of : Floats F → F → Option F → F
  change_of fl current none = fl.zero_float
  change_of fl current (some b) =
      if fl.equal b fl.zero_float then fl.zero_float else fl.div (fl.sub current b) b

  abbrev pub alert_of :
      Env F → DimensionalRule → String → SeriesEntry F → Option F → F → DimensionalAlert F
  alert_of env rule value entry base change = record {
    alert_id =
        str_append "dim-" (env.alert_id rule.rule_id entry.metric_date rule.dimension_type value);
    rule_id = rule.rule_id;
    event_date = entry.metric_date;
    severity = rule.severity;
    metric_name = rule.metric_name;
    object_type = rule.dimension_type;
    object_id = value;
    current_value = entry.metric_value;
    baseline_value = base;
    change_rate = change;
    sample_size = entry.sample_size;
    affected_orders = pos 0;
    affected_gmv = none;
    impact_score = env.floats.zero_float;
    description = rule.description;
    owner_role = rule.owner_role;
  }

  abbrev pub triggers : Env F → DimensionalRule → SeriesEntry F → List (SeriesEntry F) → Bool
  triggers env rule entry older =
      let base = baseline env rule older in
      not (ltb_ℤ entry.sample_size rule.min_sample_size)
      && evaluate_condition env rule.condition entry.metric_value base
          (change_of env.floats entry.metric_value base)

  -- The loop over the series of a value, after `raised` alerts.
  unfoldable pub dim_alerts :
      Env F → DimensionalRule → String → ℕ → List (SeriesEntry F) → List (DimensionalAlert F)
  unfolding evaluate_condition
  dim_alerts env rule value raised [] = []
  dim_alerts env rule value raised (entry ∷ older) =
      let base = baseline env rule older in
      let change = change_of env.floats entry.metric_value base in
      let more = dim_alerts env rule value (raised + 1) older in
      let same = dim_alerts env rule value raised older in
      if leb max_alerts_per_dim_value raised
      then []
      else if triggers env rule entry older
      then alert_of env rule value entry base change ∷ more
      else same

  abbrev pub all_values :
      Env F → DimensionalRule → List (String × List (SeriesEntry F)) → List (DimensionalAlert F)
  all_values env rule [] = []
  all_values env rule ((value, series) ∷ rest) =
      dim_alerts env rule value 0 series ++ all_values env rule rest

  -- `ExecuteDimensionalRule`.
  unfoldable pub execute_dimensional_rule :
      Env F → DimensionalRule → Result (List (DimensionalAlert F))
  execute_dimensional_rule env rule = elim (env.series rule) [
    | err m ↦ err (
        str_append "query " (
          str_append rule.dimension_type
            (str_append "/" (str_append rule.metric_name (str_append ": " m)))))
    | ok series ↦ ok (all_values env rule series)
  ]

  abbrev pub enriched : Env F → DimensionalAlert F → Option F → DimensionalAlert F
  enriched env a gmv = record a {
    affected_gmv = elim gmv [
      | none ↦ none
      | some g ↦ if env.floats.equal g env.floats.zero_float then none else some g
    ];
    affected_orders = a.sample_size;
    impact_score =
        env.floats.mul (env.floats.of_nat (severity_weight a.severity))
          (env.floats.of_int a.sample_size);
  }

  -- `enrichDimAlerts`.
  unfoldable pub enrich_dim_alerts :
      Env F → List (DimensionalAlert F) → Result (List (DimensionalAlert F))
  enrich_dim_alerts env [] = ok []
  enrich_dim_alerts env (a ∷ alerts) = elim (env.gmv a) [
    | err m ↦ err (str_append "query gmv for " (str_append a.alert_id (str_append ": " m)))
    | ok gmv ↦ elim (enrich_dim_alerts env alerts) [
      | err m ↦ err m
      | ok rest ↦ ok (enriched env a gmv ∷ rest)
    ]
  ]

  -- The order of the sort.
  unfoldable pub comes_before : Floats F → DimensionalAlert F → DimensionalAlert F → Bool
  comes_before fl a b =
      if not (nat_eq (severity_order a.severity) (severity_order b.severity))
      then ltb (severity_order a.severity) (severity_order b.severity)
      else if not (fl.equal a.impact_score b.impact_score)
      then fl.less b.impact_score a.impact_score
      else ltb_ℤ b.sample_size a.sample_size

  abbrev pub insert_alert :
      Floats F → DimensionalAlert F → List (DimensionalAlert F) → List (DimensionalAlert F)
  insert_alert fl a [] = a ∷ []
  insert_alert fl a (b ∷ bs) =
      let rest = insert_alert fl a bs in if comes_before fl b a then b ∷ rest else a ∷ (b ∷ bs)

  -- `sort.Slice`, of which this is one order where the comparison leaves several.
  abbrev pub sort_alerts : Floats F → List (DimensionalAlert F) → List (DimensionalAlert F)
  sort_alerts fl [] = []
  sort_alerts fl (a ∷ alerts) = insert_alert fl a (sort_alerts fl alerts)

  -- `SuppressAlerts`; a cap that is not positive is 0 here.
  unfoldable pub suppress_alerts : Floats F → List (DimensionalAlert F) → ℕ → SuppressResult F
  suppress_alerts fl alerts max =
      let cap = cap_of max in
      let sorted = sort_alerts fl alerts in
      if leb (length sorted) cap
      then record { alerts = sorted; suppressed = 0 }
      else record { alerts = take cap sorted; suppressed = length sorted - cap }

  abbrev pub execute_all : Env F → List DimensionalRule → Result (List (DimensionalAlert F))
  execute_all env [] = ok []
  execute_all env (r ∷ rs) = elim (execute_dimensional_rule env r) [
    | err m ↦ err (str_append "rule " (str_append r.rule_id (str_append ": " m)))
    | ok alerts ↦ elim (execute_all env rs) [ err m ↦ err m | ok rest ↦ ok (alerts ++ rest) ]
  ]

  -- `EvaluateDimensionRules`, with rules.
  unfoldable pub evaluate_dimension_rules :
      Env F → List DimensionalRule → ℕ → Result (SuppressResult F)
  unfolding suppress_alerts enrich_dim_alerts
  evaluate_dimension_rules env rules max = elim (execute_all env rules) [
    | err m ↦ err m
    | ok alerts ↦ elim (enrich_dim_alerts env alerts) [
      | err m ↦ err (str_append "enrich: " m)
      | ok rich ↦ ok (suppress_alerts env.floats rich max)
    ]
  ]
