-- ===== src/Decision/Engine/Tests.antt =====
-- Decision runs at concrete providers.
use baxi.Base.{
  ◌≡◌, refl, true, false, Number, Option, none, some, [], ◌∷◌, String, ℕ, pos, ok, map, zero, suc,
}
use baxi.Json.{Fields}
use baxi.Store.{CaseRow}
use baxi.Llm.Model.{DecisionOutput, LlmSafeContext, Provider, TriggerInfo}
use baxi.Llm.Validator.{validate_decision, output_errors, action_errors}
use baxi.Llm.RuleProvider.{rule_based, recommend, decide}
use baxi.Decision.Repository.{create_decision, update_case_status}
use baxi.Decision.Engine.{
  Env, World, DecisionContext, save_decision, set_case_status, finish, fall_back, after_repair,
  handle_invalid_output, after_answer, generate_decision,
}
use baxi.Decision.Engine.Laws.{Keeps, generate_decision-Keeps}
use baxi.Decision.Engine.Totality.{
  Calls, Completed, generate_decision-Calls, generate_decision-Completed,
}

abbrev number : Number
number = record { mantissa = pos 125; places = 1 }

abbrev print : Number → String
print n = "12.5"

abbrev alert : TriggerInfo
alert = record {
  alert_id = "alert_1";
  rule_id = "rule_1";
  severity = "high";
  metric_name = "gmv";
  current_value = number;
  baseline_value = number;
  delta_pct = number;
}

abbrev dc : DecisionContext
dc = record {
  decision_case_id = "case_1";
  source_type = none;
  source_id = none;
  trigger = alert;
  object_context = record { object_type = "seller"; object_id = "s_1"; properties = Fields.end };
  classification = "L1";
  redaction_applied = false;
  redacted_fields = [];
  role = "";
  allowed_actions = "notify_owner" ∷ [];
  forbidden_actions = [];
  enriched_objects = [];
}

abbrev sound : DecisionOutput
sound = record {
  schema_version = "";
  decision_type = "intervention";
  severity = "high";
  summary = "GMV fell";
  rationale = [];
  recommended_actions = recommend "notify_owner" "high" "ops" ∷ [];
  confidence = record { mantissa = pos 90; places = 2 };
  requires_human_review = true;
  evidence_refs = [];
  recipe_id = "";
}

abbrev case : CaseRow
case = record {
  case_id = "case_1";
  alert_id = some "alert_1";
  status = "created";
  context_json = some "{}";
  created_at = pos 1;
  source_type = some "alert";
  source_id = some "alert_1";
  object_type = some "seller";
  object_id = some "s_1";
  severity = some "high";
  context_hash = some "h";
  governance_snapshot = none;
  created_by = none;
  updated_at = none;
}

abbrev start : World
start = record {
  db = record {
    proposals = [];
    cases = case ∷ [];
    decisions = [];
    reviews = [];
    audit = [];
    lineage = [];
    outbox = [];
  };
  events = [];
  calls = 0;
}

-- A first answer that recommends nothing valid, and the answer to the repair prompt.
abbrev answering : Option DecisionOutput → ℕ → Provider
answering repaired zero c = ok (some (record sound { severity = "urgent" }))
answering repaired (suc n) c = ok repaired

abbrev with_repair : Option DecisionOutput → Env
with_repair repaired = record {
  provider = answering repaired;
  fallback = rule_based print;
  repair = true;
  driver = λ s. none;
  marshal = λ o. ok o.decision_type;
  print = print;
  now = pos 7;
  decision_id = "dec_1";
}

-- A repair that succeeds, and one that does not: the rules then answer, with a decision that the
-- validator would refuse.
repairs :
    ((generate_decision (with_repair (some sound)) "case_1" dc start).1.events
      ≡ "decision_requested" ∷ "validation_failed" ∷ "repair_attempted" ∷ "repair_succeeded"
        ∷ "decision_generated" ∷ [])
    × ((generate_decision (with_repair none) "case_1" dc start).1.events
        ≡ "decision_requested" ∷ "validation_failed" ∷ "repair_attempted" ∷ "repair_failed"
          ∷ "fallback_used" ∷ [])
    × (map (λ d. d.status) (generate_decision (with_repair none) "case_1" dc start).1.db.decisions
        ≡ "fallback" ∷ [])
unfolding generate_decision after_answer handle_invalid_output after_repair fall_back finish
    save_decision set_case_status create_decision update_case_status validate_decision output_errors
    action_errors rule_based decide
repairs = (refl, refl, refl)

generate_decision-Keeps_example :
    Keeps
      (with_repair (some sound))
      ("notify_owner" ∷ [])
      []
      (generate_decision (with_repair (some sound)) "case_1" dc start).1.db.decisions
generate_decision-Keeps_example =
    generate_decision-Keeps (with_repair (some sound)) "case_1" dc start

generate_decision-Calls_example :
    Calls true 1 (generate_decision (with_repair none) "case_1" dc start).1.calls
generate_decision-Calls_example = generate_decision-Calls (with_repair none) "case_1" dc start

rules_answer : (c : LlmSafeContext) → (o : Option DecisionOutput) × (rule_based print c ≡ ok o)
unfolding rule_based
rules_answer c = (some (decide print c.trigger), refl)

generate_decision-Completed_example :
    Completed
      (with_repair none)
      "case_1"
      case
      start.db
      (generate_decision (with_repair none) "case_1" dc start)
generate_decision-Completed_example =
    generate_decision-Completed (with_repair none) "case_1" case dc start (λ s. refl)
      (λ o. (o.decision_type, refl)) rules_answer refl
