-- ===== src/Alert/Tests.antt =====
-- Alerts over natural numbers in place of floats.
use baxi.Base.{
  ◌≡◌, refl, none, some, List, [], ◌∷◌, String, ◌==◌, if◌then◌else◌, ℤ, pos, ℕ, ◌+◌, ◌-◌, ◌*◌, ◌/◌,
  ltb, nat_eq, map, ok,
}
use baxi.Alert.{
  Env, Floats, DimensionalRule, DimensionalAlert, SeriesEntry, evaluate_condition, dim_alerts,
  comes_before, suppress_alerts, alert_of,
}
use baxi.Alert.Laws.{Kept, suppress_alerts-Kept}

abbrev whole_part : ℤ → ℕ
whole_part (pos n) = n
whole_part _ = 0

abbrev floats : Floats ℕ
floats = record {
  zero_float = 0;
  of_int = whole_part;
  of_nat = λ n. n;
  add = λ a b. a + b;
  sub = λ a b. a - b;
  mul = λ a b. a * b;
  div = λ a b. a / b;
  less = λ a b. ltb a b;
  equal = λ a b. nat_eq a b;
}

abbrev day : String → ℕ → SeriesEntry ℕ
day date value = record { metric_date = date; metric_value = value; sample_size = pos 30 }

abbrev week : List (SeriesEntry ℕ)
week =
    day "07" 40
    ∷ day "06" 41
    ∷ day "05" 2
    ∷ day "04" 43
    ∷ day "03" 44
    ∷ day "02" 45
    ∷ day "01" 46
    ∷ []

abbrev env : Env ℕ
env = record {
  floats = floats;
  scan = λ format condition. if format == "value_gt: %f" then some 25 else none;
  alert_id = λ rule date type value. date;
  series = λ rule. ok (("s_1", week) ∷ []);
  gmv = λ a. ok none;
}

abbrev rule : String → DimensionalRule
rule severity = record {
  rule_id = "seller_late_delivery_spike";
  dimension_type = "seller";
  metric_name = "late_delivery_rate";
  condition = "value_gt: 25";
  min_sample_size = pos 20;
  severity = severity;
  owner_role = "seller_ops";
  description = "late";
  baseline_window = 0;
}

abbrev raised_alert : List (DimensionalAlert ℕ)
raised_alert =
    alert_of env (rule "low") "s_1" (day "07" 40) none 0
    ∷ alert_of env (rule "high") "s_1" (day "06" 41) none 0
    ∷ alert_of env (rule "medium") "s_1" (day "04" 43) none 0
    ∷ []

-- Six days trigger and five are raised; and of three alerts the two that are most severe are kept.
raises :
    (map (λ a. a.event_date) (dim_alerts env (rule "high") "s_1" 0 week)
      ≡ "07" ∷ "06" ∷ "04" ∷ "03" ∷ "02" ∷ [])
    × (map (λ a. a.severity) (suppress_alerts floats raised_alert 2).alerts
        ≡ "high" ∷ "medium" ∷ [])
    × ((suppress_alerts floats raised_alert 2).suppressed ≡ 1)
unfolding dim_alerts evaluate_condition suppress_alerts comes_before
raises = (refl, refl, refl)

suppress_alerts-Kept_example : Kept floats raised_alert 2 (suppress_alerts floats raised_alert 2)
suppress_alerts-Kept_example = suppress_alerts-Kept floats raised_alert 2
