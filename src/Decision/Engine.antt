-- ===== src/Decision/Engine.antt =====
-- The decision engine (internal/decision/engine.go): a provider is asked, its output validated and
-- asked for once more if it is invalid, and the rules stand in where that fails. `Env` is the engine
-- with its surroundings; a provider may answer each call differently. What the audit logger and the
-- snapshots are told is left out, and the recorder is told the events in the list of `World`.
pub mod Laws
pub mod Totality
pub mod Frame
mod Tests
use baxi.Base.{
  ◌&&◌, ◌||◌, not, Bool, true, false, Number, Option, none, some, List, [], ◌∷◌, ◌++◌, String,
  str_append, ◌==◌, if◌then◌else◌, ℤ, ℕ, ◌+◌, Driver, Result, ok, err, map,
}
use baxi.Json.{Fields}
use baxi.Store.{Db, DecisionRow}
use baxi.Llm.Model.{
  DecisionOutput, LlmSafeContext, TriggerInfo, ObjectContext, GovernanceInfo, EnrichedObjectData,
  Provider,
}
use baxi.Llm.Validator.{
  ValidationError, ValidationResult, validate_decision, validate_decision_errors, error_text,
}
use baxi.Llm.RuleProvider.{rule_based}
use baxi.Decision.Repository.{Stmt, create_decision, update_case_status}

-- `DecisionContext`, with the fields that the engine reads or version 1 of the builder sets; the lineage
-- of its governance data, the policy and the rendered evidence stay empty here.
pub record DecisionContext : Type 0 where
  pub decision_case_id : String
  pub source_type : Option String
  pub source_id : Option String
  pub trigger : TriggerInfo
  pub object_context : ObjectContext
  pub classification : String
  pub redaction_applied : Bool
  pub redacted_fields : List String
  pub role : String
  pub allowed_actions : List String
  pub forbidden_actions : List String
  pub enriched_objects : List EnrichedObjectData

pub record Env : Type 0 where
  pub provider : ℕ → Provider
  pub fallback : Provider
  pub repair : Bool
  pub driver : Driver Stmt
  pub marshal : DecisionOutput → Result String
  pub print : Number → String
  pub now : ℤ
  pub decision_id : String

-- `calls` counts the calls of the provider.
pub record World : Type 0 where
  pub db : Db
  pub events : List String
  pub calls : ℕ

-- Go's pair of an output and an error.
pub record Reply : Type 0 where
  pub output : Option DecisionOutput
  pub error : Option String

-- `NewDecisionEngine`: the fallback is the rule-based provider.
abbrev pub new_decision_engine : Env → (Number → String) → Env
new_decision_engine env print_value = record env {
  fallback = rule_based print_value;
  repair = true;
}

-- `BuildLLMSafeContext`.
unfoldable pub build_llm_safe_context : DecisionContext → LlmSafeContext
build_llm_safe_context dc = record {
  case_id = dc.decision_case_id;
  trigger = dc.trigger;
  object_context = dc.object_context;
  governance_info = record {
    classification = dc.classification;
    redaction_applied = dc.redaction_applied;
    redacted_fields = dc.redacted_fields;
    role = dc.role;
    repair_errors = [];
  };
  allowed_actions = dc.allowed_actions;
  forbidden_actions = dc.forbidden_actions;
  enriched_objects = dc.enriched_objects;
}

-- `buildRepairContext`.
unfoldable pub build_repair_context : LlmSafeContext → List ValidationError → LlmSafeContext
build_repair_context c errors = record c {
  governance_info = record (c.governance_info) {
    role = if c.governance_info.role == "" then "agent_readonly" else c.governance_info.role;
    repair_errors = map error_text errors;
  };
}

-- What the recorder is told.
abbrev pub told : String → World → World
told event w = record w { events = w.events ++ event ∷ [] }

-- The row of a decision.
abbrev pub decision_row :
    Env
    → String
    → Option String
    → Option DecisionOutput
    → String
    → List ValidationError
    → Option String
    → DecisionRow
decision_row env case_id json output status errors reason = record {
  decision_id = env.decision_id;
  case_id = case_id;
  output_json = json;
  confidence = elim output [ none ↦ none | some o ↦ some o.confidence ];
  created_at = env.now;
  status = status;
  fallback_reason = reason;
  validation_errors = map (λ e. (e.field_name, e.message)) errors;
}

-- `saveDecision`.
unfoldable pub save_decision :
    Env
    → String
    → Option DecisionOutput
    → String
    → List ValidationError
    → Option String
    → Db
    → Result Db
save_decision env case_id none status errors reason db =
    create_decision env.driver (decision_row env case_id none none status errors reason) db
save_decision env case_id (some o) status errors reason db = elim (env.marshal o) [
  | err m ↦ err (str_append "marshal decision output: " m)
  | ok json ↦
      create_decision env.driver
        (decision_row env case_id (some json) (some o) status errors reason) db
]

-- `updateCaseStatus`.
unfoldable pub set_case_status : Env → String → String → Db → Result Db
set_case_status env case_id status =
    update_case_status env.driver env.now case_id status none none none

-- The save and the status update that end a decision; an error stops them, and what was written
-- before stays.
unfoldable pub finish :
    Env
    → String
    → Option DecisionOutput
    → String
    → List ValidationError
    → Option String
    → World
    → Reply × World
finish env case_id output status errors reason w =
    elim (save_decision env case_id output status errors reason w.db) [
      | err m ↦ (record { output = output; error = some m }, w)
      | ok db ↦ elim (set_case_status env case_id "decision_generated" db) [
        | err m ↦ (record { output = output; error = some m }, record w { db = db })
        | ok db' ↦ (record { output = output; error = none }, record w { db = db' })
      ]
    ]

-- A statement whose error is dropped.
abbrev pub try_db : Result Db → Db → Db
try_db (ok db') db = db'
try_db (err m) db = db

-- Where the fallback fails too.
unfoldable pub give_up :
    Env
    → String
    → Option DecisionOutput
    → List ValidationError
    → String
    → String
    → World
    → Reply × World
give_up env case_id output errors reason message w =
    let db1 = try_db (save_decision env case_id output "failed" errors (some reason) w.db) w.db in
    let db2 = try_db (set_case_status env case_id "failed" db1) db1 in
    (record { output = none; error = some message }, record w { db = db2 })

-- `handleProviderError`.
unfoldable pub handle_provider_error :
    Env → String → LlmSafeContext → String → World → Reply × World
handle_provider_error env case_id c provider_error w =
    let w1 = told "fallback_used" w in
    elim (env.fallback c) [
      | err m ↦
          give_up env case_id none []
            (str_append "provider error: "
              (str_append provider_error (str_append "; fallback error: " m)))
            (str_append "provider error: "
              (str_append provider_error (str_append "; fallback error: " m)))
            (told "case_failed" w1)
      | ok output ↦
          finish env case_id output "fallback" []
            (some (str_append "provider error: " provider_error)) w1
    ]

-- The end of `handleInvalidOutput`.
unfoldable pub fall_back :
    Env
    → String
    → LlmSafeContext
    → Option DecisionOutput
    → List ValidationError
    → World
    → Reply × World
fall_back env case_id c output errors w =
    let reason = validate_decision_errors env.print output c.allowed_actions in
    let w1 = told "fallback_used" w in
    elim (env.fallback c) [
      | err m ↦
          give_up env case_id output errors
            (str_append "validation failed: "
              (str_append reason (str_append "; fallback error: " m)))
            (str_append "validation failed and fallback error: " m) w1
      | ok fallback_output ↦ finish env case_id fallback_output "fallback" errors (some reason) w1
    ]

-- `handleInvalidOutput` from the answer to the repair prompt.
unfoldable pub after_repair :
    Env
    → String
    → LlmSafeContext
    → Option DecisionOutput
    → List ValidationError
    → Result (Option DecisionOutput)
    → World
    → Reply × World
after_repair env case_id c output errors (err m) w =
    fall_back env case_id c output errors (told "repair_failed" w)
after_repair env case_id c output errors (ok repaired) w =
    if (validate_decision env.print repaired c.allowed_actions).valid
    then finish env case_id repaired "valid" [] none
        (told "decision_generated" (told "repair_succeeded" w))
    else fall_back env case_id c output errors (told "repair_failed" w)

-- A call of the provider.
abbrev pub called : World → World
called w = record w { calls = w.calls + 1 }

-- `handleInvalidOutput`.
unfoldable pub handle_invalid_output :
    Env
    → String
    → LlmSafeContext
    → Option DecisionOutput
    → List ValidationError
    → World
    → Reply × World
handle_invalid_output env case_id c output errors w =
    let w1 = told "validation_failed" w in
    if env.repair
    then after_repair env case_id c output errors
        (env.provider w.calls (build_repair_context c errors)) (called (told "repair_attempted" w1))
    else fall_back env case_id c output errors w1

-- `GenerateDecision` from the provider's answer.
unfoldable pub after_answer :
    Env → String → LlmSafeContext → Result (Option DecisionOutput) → World → Reply × World
after_answer env case_id c (err m) w = handle_provider_error env case_id c m w
after_answer env case_id c (ok output) w =
    let result = validate_decision env.print output c.allowed_actions in
    if result.valid
    then finish env case_id output "valid" [] none (told "decision_generated" w)
    else handle_invalid_output env case_id c output result.errors w

-- `GenerateDecision`.
unfoldable pub generate_decision : Env → String → DecisionContext → World → Reply × World
unfolding build_llm_safe_context
generate_decision env case_id dc w =
    let c = build_llm_safe_context dc in
    after_answer env case_id c (env.provider w.calls c) (called (told "decision_requested" w))
