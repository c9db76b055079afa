-- ===== src/Decision/Context/V2.antt =====
-- Version 2 of the context builder (internal/decision/context_builder_v2.go). The repository of objects,
-- the markings and the lineage service answer from the environment.
pub mod Laws
mod Tests
use baxi.Base.{
  Bool, true, false, Option, none, some, List, [], ◌∷◌, map, String, str_append, ◌==◌,
  if◌then◌else◌, length, ℕ, ◌+◌, Driver, Result, ok, err, Number,
}
use baxi.Json.{Fields, end, field}
use baxi.Store.{Db, CaseRow}
use baxi.Llm.Model.{TriggerInfo, ObjectContext}
use baxi.Governance.Redaction.{Levels, redact_object_context}
use baxi.Action.Registry.{ActionRegistry}
use baxi.Decision.Repository.{Stmt, get_case_by_id}
use baxi.Decision.Engine.{DecisionContext}
use baxi.Decision.Context.{
  deref_string, get_string_prop, get_float_prop, map_classification, resolve_overall, bare_trigger,
  is_any,
}
use baxi.Decision.Context.Policy.{PolicyResult, build_policy_result, list_action_types}

pub record Env : Type 0 where
  pub driver : Driver Stmt
  pub get_object : String → String → Result ObjectContext
  pub field_marking : String → String → Result (String × Bool)
  pub context_lineage : Option (String → Result (Option (List String)))
  pub registry : ActionRegistry
  pub float : String → Number

-- What this version returns: the context, with its lineage and its policy.
pub record ContextV2 : Type 0 where
  pub base : DecisionContext
  pub lineage : Option (List String)
  pub policy : PolicyResult

-- `buildTriggerV2`.
unfoldable pub build_trigger_v2 : Env → CaseRow → String → Result TriggerInfo
build_trigger_v2 env c severity =
    let id = deref_string c.alert_id in
    if id == "" then ok (bare_trigger severity) else elim (env.get_object "metric_alert" id) [
      | err m ↦ err (str_append "fetch alert " (str_append id (str_append ": " m)))
      | ok alert ↦ ok (record {
        alert_id = id;
        rule_id = get_string_prop alert.properties "rule_id";
        severity = if severity == "" then get_string_prop alert.properties "severity" else severity;
        metric_name = get_string_prop alert.properties "metric_name";
        current_value = get_float_prop env.float alert.properties "current_value";
        baseline_value = get_float_prop env.float alert.properties "baseline_value";
        delta_pct = get_float_prop env.float alert.properties "delta_pct";
      })
    ]

abbrev pub class_of_marking : Result (String × Bool) → String
class_of_marking (err m) = "internal"
class_of_marking (ok (level, is_pii)) = map_classification level is_pii

-- `buildClassifications`, which never fails.
unfoldable pub build_classifications : (String → Result (String × Bool)) → Fields → Levels
unfolding map_classification
build_classifications marking end = []
build_classifications marking (field k v rest) =
    (k, class_of_marking (marking k)) ∷ build_classifications marking rest

-- `buildLineage`, where an error gives none.
unfoldable pub build_lineage : Env → String → Option (List String)
build_lineage env id = elim env.context_lineage [
  | none ↦ none
  | some service ↦ elim (service id) [ ok (some (t ∷ ts)) ↦ some (t ∷ ts) | _ ↦ none ]
]

abbrev pub governed_v2 : Env → CaseRow → TriggerInfo → ObjectContext → String → String → ContextV2
governed_v2 env c trigger object object_type id =
    let classes = build_classifications (env.field_marking object_type) object.properties in
    let redaction = redact_object_context object.properties classes [] "agent_readonly" in
    let names = map (λ e. e.field_name) redaction.redacted_fields in
    record {
      base = record {
        decision_case_id = c.case_id;
        source_type = c.source_type;
        source_id = c.source_id;
        trigger = trigger;
        object_context = record object { properties = redaction.properties };
        classification = resolve_overall "L1" classes;
        redaction_applied = is_any names;
        redacted_fields = names;
        role = "agent_readonly";
        allowed_actions = list_action_types env.registry;
        forbidden_actions = "execute" ∷ "apply" ∷ "dispatch" ∷ [];
        enriched_objects = [];
      };
      lineage = build_lineage env id;
      policy = build_policy_result env.registry;
    }

-- `BuildDecisionContext`.
unfoldable pub build_decision_context_v2 : Env → String → Db → Result ContextV2
unfolding build_trigger_v2 build_classifications build_lineage
build_decision_context_v2 env id db = elim (get_case_by_id env.driver id db) [
  | err m ↦ err (str_append "fetch case " (str_append id (str_append ": " m)))
  | ok c ↦
      let object_type = deref_string c.object_type in
      let object_id = deref_string c.object_id in
      elim (build_trigger_v2 env c (deref_string c.severity)) [
        | err m ↦ err m
        | ok trigger ↦ elim (env.get_object object_type object_id) [
          | err m ↦ err (
              str_append "get object " (
                str_append object_type (str_append "/" (str_append object_id (str_append ": " m)))))
          | ok object ↦ ok (governed_v2 env c trigger object object_type id)
        ]
      ]
]
