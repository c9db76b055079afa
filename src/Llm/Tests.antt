-- ===== src/Llm/Tests.antt =====
-- The rules' decisions and the validator at concrete alerts.
use baxi.Base.{decimal, ◌≡◌, refl, true, false, Number, none, some, List, [], ◌∷◌, String, map, pos}
use baxi.Llm.Model.{DecisionOutput, TriggerInfo}
use baxi.Llm.Validator.{
  validate_decision, validate_decision_errors, output_errors, action_errors, join_errors,
}
use baxi.Llm.Validator.Schema.{schema_conforms}
use baxi.Llm.RuleProvider.{decide, recommend}
use baxi.Llm.Laws.{accepts_rules, decide-valid}

abbrev number : Number
number = record { mantissa = pos 125; places = 1 }

abbrev print : Number → String
print n = "12.5"

abbrev alert : String → TriggerInfo
alert severity = record {
  alert_id = "alert_1";
  rule_id = "rule_1";
  severity = severity;
  metric_name = "gmv";
  current_value = number;
  baseline_value = number;
  delta_pct = number;
}

abbrev allowed : List String
allowed = "notify_owner" ∷ "create_followup_task" ∷ []

abbrev invalid_fields : String → List String
invalid_fields severity =
    map (λ e. e.field_name)
      (validate_decision print (some (decide print (alert severity))) allowed).errors

-- Which fields of the rules' decisions are refused.
rules_refused :
    (invalid_fields "medium" ≡ [])
    × (invalid_fields "low" ≡ [])
    × (invalid_fields "high" ≡ "decision_type" ∷ "recommended_actions[0].action_type" ∷ [])
    × (invalid_fields "urgent" ≡ "severity" ∷ [])
unfolding validate_decision output_errors action_errors decide decimal
rules_refused = (refl, refl, refl, refl)

nil_refused : validate_decision_errors print none allowed ≡ "output: output is nil"
unfolding validate_decision_errors validate_decision join_errors
nil_refused = refl

abbrev escalation : DecisionOutput
escalation = record {
  schema_version = "decision_output.v1";
  decision_type = "intervention";
  severity = "high";
  summary = "GMV fell";
  rationale = [];
  recommended_actions =
      recommend "notify_owner" "high" "ops" ∷ recommend "drop_tables" "high" "ops" ∷ [];
  confidence = record { mantissa = pos 90; places = 2 };
  requires_human_review = true;
  evidence_refs = [];
  recipe_id = "";
}

-- The schema refuses a decision with no action, and the validator accepts it.
abbrev idle : DecisionOutput
idle = record escalation { recommended_actions = [] }

idle_accepted :
    ((validate_decision print (some idle) allowed).valid ≡ true) × (schema_conforms idle ≡ false)
unfolding validate_decision output_errors action_errors
idle_accepted = (refl, refl)

decide-valid_example :
    (validate_decision print (some (decide print (alert "high"))) allowed).valid
    ≡ accepts_rules "high" allowed
decide-valid_example = decide-valid print (alert "high") allowed
