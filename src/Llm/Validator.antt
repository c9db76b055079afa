-- ===== src/Llm/Validator.antt =====
-- `ValidateDecision` (internal/llm/schema_validator.go). `print` is `%f` of a number.
pub mod Laws
pub mod Schema
use baxi.Base.{
  ◌&&◌, ◌||◌, not, Bool, true, false, Number, below_zero, above_one, Option, none, some, List, [],
  ◌∷◌, ◌++◌, String, str_append, ◌==◌, if◌then◌else◌, elem, ℕ, zero, suc, ◌+◌, decimal,
}
use baxi.Llm.Model.{DecisionOutput, RecommendedAction}

-- `ValidationError`.
pub record ValidationError : Type 0 where
  pub field_name : String
  pub message : String

-- `ValidationResult`.
pub record ValidationResult : Type 0 where
  pub valid : Bool
  pub errors : List ValidationError

abbrev pub valid_types : List String
valid_types = "monitor_only" ∷ "investigate" ∷ "optimize" ∷ "intervention" ∷ "experiment" ∷ []

abbrev pub valid_severity : List String
valid_severity = "low" ∷ "medium" ∷ "high" ∷ "critical" ∷ []

abbrev pub valid_actions : List String
valid_actions =
    "create_followup_task" ∷ "notify_owner" ∷ "export_report" ∷ "create_outbox_message"
    ∷ "escalate_to_human" ∷ []

-- One error if the test fails.
abbrev pub unless : Bool → String → String → List ValidationError
unless passes name message =
    if passes then [] else record { field_name = name; message = message } ∷ []

abbrev action_field : ℕ → String
action_field i = str_append "recommended_actions[" (str_append (decimal i) "].action_type")

-- The loop over the recommended actions, from index `i`.
unfoldable pub action_errors : List String → ℕ → List RecommendedAction → List ValidationError
action_errors allowed i [] = []
action_errors allowed i (a ∷ actions) =
    unless (elem a.action_type allowed) (action_field i)
      (str_append "'" (str_append a.action_type "' is not in allowed_actions"))
    ++ (unless (elem a.action_type valid_actions) (action_field i)
          (str_append "invalid action_type: " a.action_type)
        ++ action_errors allowed (i + 1) actions)

-- The errors of an output that is not nil.
unfoldable pub output_errors :
    (Number → String) → DecisionOutput → List String → List ValidationError
unfolding action_errors
output_errors print o allowed =
    unless (o.schema_version == "" || o.schema_version == "decision_output.v1") "schema_version" (
      str_append "unknown schema_version: "
        (str_append o.schema_version " (expected decision_output.v1 or empty)"))
    ++ (unless (elem o.decision_type valid_types) "decision_type"
          (str_append "invalid decision type: " o.decision_type)
        ++ (unless (elem o.severity valid_severity) "severity"
              (str_append "invalid severity: " o.severity)
            ++ (unless (not (below_zero o.confidence || above_one o.confidence)) "confidence"
                  (str_append "confidence out of range [0,1]: " (print o.confidence))
                ++ (unless o.requires_human_review "requires_human_review" "must be true in Phase 6"
                    ++ action_errors allowed 0 o.recommended_actions))))

abbrev pub is_empty : List ValidationError → Bool
is_empty [] = true
is_empty (e ∷ es) = false

-- `ValidateDecision`.
unfoldable pub validate_decision :
    (Number → String) → Option DecisionOutput → List String → ValidationResult
unfolding output_errors
validate_decision print none allowed = record {
  valid = false;
  errors = record { field_name = "output"; message = "output is nil" } ∷ [];
}
validate_decision print (some o) allowed =
    let errors = output_errors print o allowed in
    record { valid = is_empty errors; errors = errors }

abbrev pub error_text : ValidationError → String
error_text e = str_append e.field_name (str_append ": " e.message)

unfoldable pub join_errors : List ValidationError → String
join_errors [] = ""
join_errors (e ∷ []) = error_text e
join_errors (e ∷ (f ∷ es)) = str_append (error_text e) (str_append "; " (join_errors (f ∷ es)))

-- `ValidateDecisionErrors`.
unfoldable pub validate_decision_errors :
    (Number → String) → Option DecisionOutput → List String → String
unfolding join_errors
validate_decision_errors print output allowed =
    let result = validate_decision print output allowed in
    if result.valid then "" else join_errors result.errors
