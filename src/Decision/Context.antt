-- ===== src/Decision/Context.antt =====
-- The context of a decision (internal/decision/context_builder.go). The providers of objects, alerts and
-- markings answer from the environment, and `float` reads the text of a float; of a marking the third
-- answer is not used.
pub mod Laws
pub mod Policy
pub mod V2
pub mod V3
mod Tests
use baxi.Base.{
  ◌&&◌, ◌||◌, not, Bool, true, false, Number, Option, none, some, List, [], ◌∷◌, String, str_append,
  ◌==◌, if◌then◌else◌, pos, Driver, Result, ok, err, map,
}
use baxi.Json.{Fields, Value, end, field, get_field, str, int, float}
use baxi.Store.{Db, CaseRow}
use baxi.Llm.Model.{TriggerInfo, ObjectContext}
use baxi.Governance.Redaction.{Levels, RedactionResult, redact_object_context}
use baxi.Decision.Repository.{Stmt, get_case_by_id}
use baxi.Decision.Engine.{DecisionContext}

pub record Env : Type 0 where
  pub driver : Driver Stmt
  pub object_context : String → String → Result ObjectContext
  pub metric_alert : String → Result Fields
  pub field_marking : String → String → Result (String × Bool)
  pub float : String → Number

abbrev zero_number : Number
zero_number = record { mantissa = pos 0; places = 0 }

-- `derefString`.
abbrev pub deref_string : Option String → String
deref_string none = ""
deref_string (some s) = s

-- `getStringProp`.
abbrev pub get_string_prop : Fields → String → String
get_string_prop props k = elim (get_field k props) [ some (str s) ↦ s | _ ↦ "" ]

-- `getFloatProp`.
abbrev pub get_float_prop : (String → Number) → Fields → String → Number
get_float_prop read props k = elim (get_field k props) [
  | some (int n) ↦ record { mantissa = n; places = 0 }
  | some (float s) ↦ read s
  | _ ↦ zero_number
]

-- `mapClassification`.
unfoldable pub map_classification : String → Bool → String
map_classification level is_pii =
    if is_pii
    then "pii"
    else if level == "L3"
    then "sensitive"
    else if level == "L2"
    then "internal"
    else if level == "L1"
    then "public_internal"
    else "internal"

-- `resolveOverallClassification`, after the classifications that gave `overall`.
abbrev pub resolve_overall : String → Levels → String
resolve_overall overall [] = overall
resolve_overall overall ((name, c) ∷ rest) =
    let raised = resolve_overall "L2" rest in
    let same = resolve_overall overall rest in
    if c == "pii" || c == "sensitive"
    then "L3"
    else if c == "internal" || c == "derived_sensitive"
    then raised
    else same

abbrev pub bare_trigger : String → TriggerInfo
bare_trigger severity = record {
  alert_id = "";
  rule_id = "";
  severity = severity;
  metric_name = "";
  current_value = zero_number;
  baseline_value = zero_number;
  delta_pct = zero_number;
}

-- `buildTrigger`.
unfoldable pub build_trigger : Env → CaseRow → String → Result TriggerInfo
build_trigger env c severity =
    let id = deref_string c.alert_id in
    if id == "" then ok (bare_trigger severity) else elim (env.metric_alert id) [
      | err m ↦ err (str_append "fetch alert " (str_append id (str_append ": " m)))
      | ok props ↦ ok (record {
        alert_id = id;
        rule_id = get_string_prop props "rule_id";
        severity = if severity == "" then get_string_prop props "severity" else severity;
        metric_name = get_string_prop props "metric_name";
        current_value = get_float_prop env.float props "current_value";
        baseline_value = get_float_prop env.float props "baseline_value";
        delta_pct = get_float_prop env.float props "delta_pct";
      })
    ]

-- The loop that classifies the properties; a property whose marking cannot be read gets no class.
unfoldable pub classify : (String → Result (String × Bool)) → Fields → Levels
unfolding map_classification
classify marking end = []
classify marking (field k v rest) = elim (marking k) [
  | err m ↦ classify marking rest
  | ok found ↦ (k, map_classification found.0 found.1) ∷ classify marking rest
]

abbrev pub is_any : List String → Bool
is_any [] = false
is_any (s ∷ ss) = true

-- The context of an object, with the properties that the redaction keeps.
abbrev pub governed : Env → CaseRow → TriggerInfo → ObjectContext → String → DecisionContext
governed env c trigger object object_type =
    let classes = classify (env.field_marking object_type) object.properties in
    let redaction = redact_object_context object.properties classes [] "agent_readonly" in
    let names = map (λ e. e.field_name) redaction.redacted_fields in
    record {
      decision_case_id = c.case_id;
      source_type = c.source_type;
      source_id = c.source_id;
      trigger = trigger;
      object_context = record object { properties = redaction.properties };
      classification = resolve_overall "L1" classes;
      redaction_applied = is_any names;
      redacted_fields = names;
      role = "agent_readonly";
      allowed_actions =
          "create_followup_task" ∷ "notify_owner" ∷ "export_report" ∷ "escalate_to_human" ∷ [];
      forbidden_actions = "execute_dispatch" ∷ "modify_raw_data" ∷ "write_dwd" ∷ "write_mart" ∷ [];
      enriched_objects = [];
    }

-- `BuildDecisionContext` from the row of the case.
unfoldable pub context_of : Env → CaseRow → Result DecisionContext
unfolding build_trigger classify
context_of env c =
    let object_type = deref_string c.object_type in
    let object_id = deref_string c.object_id in
    if object_type == "" || object_id == ""
    then err (
        str_append "case "
          (str_append c.case_id " missing object_type/object_id, cannot build context"))
    else elim (build_trigger env c (deref_string c.severity)) [
      | err m ↦ err m
      | ok trigger ↦ elim (env.object_context object_type object_id) [
        | err m ↦ err (
            str_append "build object context for "
              (str_append object_type (str_append "/" (str_append object_id (str_append ": " m)))))
        | ok object ↦ ok (governed env c trigger object object_type)
      ]
    ]

-- `BuildDecisionContext`.
unfoldable pub build_decision_context : Env → String → Db → Result DecisionContext
unfolding context_of
build_decision_context env id db = elim (get_case_by_id env.driver id db) [
  | err m ↦ err (str_append "fetch case " (str_append id (str_append ": " m)))
  | ok c ↦ context_of env c
]
