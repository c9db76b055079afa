-- ===== src/Decision/Context/Tests.antt =====
-- A context at a concrete object.
use baxi.Base.{
  ◌≡◌, refl, true, false, Bool, none, some, [], ◌∷◌, String, ◌==◌, if◌then◌else◌, pos, Result, ok,
  err,
}
use baxi.Json.{Fields, end, field, str, int}
use baxi.Store.{Db, CaseRow}
use baxi.Llm.Model.{ObjectContext}
use baxi.Governance.Redaction.{redact_object_context, check_marking, check_classification}
use baxi.Decision.Repository.{get_case_by_id}
use baxi.Decision.Engine.{DecisionContext}
use baxi.Decision.Context.{
  Env, build_decision_context, context_of, build_trigger, bare_trigger, classify,
  map_classification,
}
use baxi.Decision.Context.Laws.{Shows, build_decision_context-Shows}

-- An e-mail address that is PII, a margin of level L3, a city of level L1, and a field without a marking.
abbrev pub seller : Fields
seller =
    field "email" (str "a@b.c")
      (field "margin" (int (pos 7)) (field "city" (str "Recife") (field "note" (str "n") end)))

abbrev pub marking : String → Result (String × Bool)
marking k =
    if k == "email"
    then ok ("L3", true)
    else if k == "margin"
    then ok ("L3", false)
    else if k == "city"
    then ok ("L1", false)
    else err "no classification"

abbrev env : Env
env = record {
  driver = λ s. none;
  object_context =
      λ type id. ok (record { object_type = type; object_id = id; properties = seller });
  metric_alert = λ id. err "no rows";
  field_marking = λ type k. marking k;
  float = λ s. record { mantissa = pos 0; places = 0 };
}

abbrev pub case : CaseRow
case = record {
  case_id = "case_1";
  alert_id = none;
  status = "created";
  context_json = none;
  created_at = pos 1;
  source_type = none;
  source_id = none;
  object_type = some "seller";
  object_id = some "s_1";
  severity = some "low";
  context_hash = none;
  governance_snapshot = none;
  created_by = none;
  updated_at = none;
}

abbrev pub db : Db
db = record {
  proposals = [];
  cases = case ∷ [];
  decisions = [];
  reviews = [];
  audit = [];
  lineage = [];
  outbox = [];
}

abbrev context : DecisionContext
context = record {
  decision_case_id = "case_1";
  source_type = none;
  source_id = none;
  trigger = bare_trigger "low";
  object_context = record {
    object_type = "seller";
    object_id = "s_1";
    properties = field "city" (str "Recife") (field "note" (str "n") end);
  };
  classification = "L3";
  redaction_applied = true;
  redacted_fields = "email" ∷ "margin" ∷ [];
  role = "agent_readonly";
  allowed_actions =
      "create_followup_task" ∷ "notify_owner" ∷ "export_report" ∷ "escalate_to_human" ∷ [];
  forbidden_actions = "execute_dispatch" ∷ "modify_raw_data" ∷ "write_dwd" ∷ "write_mart" ∷ [];
  enriched_objects = [];
}

builds : build_decision_context env "case_1" db ≡ ok context
unfolding build_decision_context context_of build_trigger classify map_classification get_case_by_id
    redact_object_context check_marking check_classification
builds = refl

build_decision_context-Shows_example :
    (c : CaseRow) × (get_case_by_id env.driver "case_1" db ≡ ok c)
    × (object : ObjectContext) × Shows env c object context
build_decision_context-Shows_example = build_decision_context-Shows env "case_1" db context builds
