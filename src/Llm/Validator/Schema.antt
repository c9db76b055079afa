-- ===== src/Llm/Validator/Schema.antt =====
-- The validator (internal/llm/schema_validator.go) beside the JSON schema of a decision
-- (pi-agent/schemas/decision.schema.json), which is written out here on the fields of an output.
use baxi.Base.{
  ◌&&◌, ◌||◌, not, Bool, true, false, below_zero, above_one, Option, none, some, List, [], ◌∷◌,
  String, ◌==◌, elem,
}
use baxi.Json.{Fields, end, field}
use baxi.Llm.Model.{DecisionOutput, RecommendedAction}

abbrev pub every : {A : Type 0} → (A → Bool) → List A → Bool
every test [] = true
every test (x ∷ xs) = test x && every test xs

abbrev pub nonempty : {A : Type 0} → List A → Bool
nonempty [] = false
nonempty (x ∷ xs) = true

abbrev pub has_property : Option Fields → Bool
has_property none = false
has_property (some end) = false
has_property (some (field name value rest)) = true

-- What the schema asks of the values of an action's fields.
abbrev pub action_conforms : RecommendedAction → Bool
action_conforms a =
    (a.action_type == "create_followup_task"
      || a.action_type == "notify_owner"
      || a.action_type == "export_report"
      || a.action_type == "create_outbox_message"
      || a.action_type == "escalate_to_human")
    && not (a.priority == "")
    && not (a.owner_role == "")
    && has_property a.payload

-- What the schema asks of the values of a decision's fields: the enumerations, the bounds, the
-- constant, and the lengths.
abbrev pub schema_conforms : DecisionOutput → Bool
schema_conforms o =
    (o.schema_version == "decision_output.v1" || o.schema_version == "")
    && (o.decision_type == "monitor_only"
        || o.decision_type == "investigate"
        || o.decision_type == "optimize"
        || o.decision_type == "intervention"
        || o.decision_type == "experiment")
    && (o.severity == "low"
        || o.severity == "medium"
        || o.severity == "high"
        || o.severity == "critical")
    && not (o.summary == "")
    && nonempty o.rationale
    && every (λ s. not (s == "")) o.rationale
    && nonempty o.recommended_actions
    && every action_conforms o.recommended_actions
    && not (below_zero o.confidence)
    && not (above_one o.confidence)
    && o.requires_human_review
    && every (λ s. not (s == "")) o.evidence_refs

-- The lengths that the schema asks for: the summary, the rationale and the actions are not empty, nor
-- is a text of the rationale or of the references, nor the priority, the owner or the payload of an
-- action.
abbrev pub filled_in : DecisionOutput → Bool
filled_in o =
    not (o.summary == "")
    && nonempty o.rationale
    && every (λ s. not (s == "")) o.rationale
    && nonempty o.recommended_actions
    && every (λ a. not (a.priority == "") && not (a.owner_role == "") && has_property a.payload)
        o.recommended_actions
    && every (λ s. not (s == "")) o.evidence_refs

-- Every recommended action is one of those allowed for the case.
abbrev pub all_allowed : List String → List RecommendedAction → Bool
all_allowed allowed actions = every (λ a. elem a.action_type allowed) actions

abbrev action_filled_in : RecommendedAction → Bool
action_filled_in a = not (a.priority == "") && not (a.owner_role == "") && has_property a.payload
