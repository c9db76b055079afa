-- ===== src/Llm/RuleProvider.antt =====
-- The rule-based provider (internal/llm/rule_provider.go). `print` is `%v` of a number.
use baxi.Base.{true, Number, none, some, [], ◌∷◌, String, str_append, ◌==◌, if◌then◌else◌, pos, ok}
use baxi.Llm.Model.{DecisionOutput, RecommendedAction, TriggerInfo, Provider}

abbrev pub recommend : String → String → String → RecommendedAction
recommend action_type priority owner_role = record {
  action_type = action_type;
  priority = priority;
  owner_role = owner_role;
  payload = none;
}

-- The output that the branches fill in.
abbrev base_output : TriggerInfo → DecisionOutput
base_output t = record {
  schema_version = "";
  decision_type = "";
  severity = t.severity;
  summary = "";
  rationale = [];
  recommended_actions = [];
  confidence = record { mantissa = pos 0; places = 0 };
  requires_human_review = true;
  evidence_refs = [];
  recipe_id = "";
}

-- The summary of the two upper branches.
abbrev triggered : (Number → String) → TriggerInfo → String
triggered print t = str_append "Alert for " (
    str_append t.metric_name (
      str_append " triggered with " (
        str_append t.severity (
          str_append " severity. Current value " (
            str_append (print t.current_value) (
              str_append " vs baseline " (
                str_append (print t.baseline_value)
                  (str_append " (delta " (str_append (print t.delta_pct) "%).")))))))))

-- The output of the two upper branches.
abbrev escalation : (Number → String) → TriggerInfo → String → Number → DecisionOutput
escalation print t first confidence = record (base_output t) {
  decision_type = "escalate_to_human";
  confidence = confidence;
  summary = triggered print t;
  rationale =
      first
      ∷ str_append "Current metric value (" (
          str_append (print t.current_value) (
            str_append ") is significantly below baseline ("
              (str_append (print t.baseline_value) ").")))
      ∷ "Action execution is not allowed in this phase."
      ∷ [];
  recommended_actions =
      recommend "escalate_to_human" "high" "ops" ∷ recommend "notify_owner" "high" "ops" ∷ [];
}

-- `decide`.
unfoldable pub decide : (Number → String) → TriggerInfo → DecisionOutput
decide print t =
    if t.severity == "critical"
    then escalation print t "The alert severity is critical, requiring immediate attention."
        (record { mantissa = pos 95; places = 2 })
    else if t.severity == "high"
    then escalation print t "The alert severity is high, requiring immediate attention."
        (record { mantissa = pos 85; places = 2 })
    else if t.severity == "medium"
    then record (base_output t) {
      decision_type = "investigate";
      confidence = record { mantissa = pos 72; places = 2 };
      summary = str_append "Moderate deviation detected for " (str_append t.metric_name ".");
      rationale =
          "Medium severity anomaly identified."
          ∷ "Further investigation is recommended to determine root cause."
          ∷ "Owner notification will ensure timely response." ∷ [];
      recommended_actions =
          recommend "notify_owner" "medium" "analyst"
          ∷ recommend "create_followup_task" "medium" "analyst"
          ∷ [];
    }
    else if t.severity == "low"
    then record (base_output t) {
      decision_type = "monitor_only";
      confidence = record { mantissa = pos 60; places = 2 };
      summary =
          str_append "Slight deviation detected for "
            (str_append t.metric_name ". No action required.");
      rationale =
          "Minor anomaly detected within acceptable thresholds."
          ∷ "Monitoring recommended; no immediate intervention needed." ∷ [];
      recommended_actions = recommend "create_followup_task" "low" "analyst" ∷ [];
    }
    else record (base_output t) {
      decision_type = "investigate";
      confidence = record { mantissa = pos 50; places = 2 };
      summary =
          str_append "Anomaly detected for " (str_append t.metric_name " with unknown severity.");
      rationale =
          "Alert triggered but severity could not be classified."
          ∷ "Investigation recommended to assess impact." ∷ [];
      recommended_actions = recommend "notify_owner" "medium" "analyst" ∷ [];
    }

-- `RuleBasedProvider.GenerateDecision`.
unfoldable pub rule_based : (Number → String) → Provider
unfolding decide
rule_based print input = ok (some (decide print input.trigger))
