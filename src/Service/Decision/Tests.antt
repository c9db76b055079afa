-- ===== src/Service/Decision/Tests.antt =====
-- The flow at a concrete case.
use baxi.Base.{
  ◌≡◌, refl, ◌≢◌, ap, true, false, Number, none, some, [], ◌∷◌, String, ◌==◌, pos, ok, err, map,
}
use baxi.Json.{end}
use baxi.Store.{CaseRow}
use baxi.Llm.Model.{TriggerInfo}
use baxi.Llm.RuleProvider.{rule_based, decide}
use baxi.Llm.Validator.{validate_decision, output_errors, action_errors}
use baxi.Decision.Repository.{create_decision, update_case_status, get_case_by_id, create_proposal}
use baxi.Decision.Cases.{get_case}
use baxi.Decision.Engine.{
  World, DecisionContext, generate_decision, after_answer, save_decision, set_case_status, finish,
}
use baxi.Action.Registry.{new_action_registry, get_action_config}
use baxi.Action.Registry.Payload.{validate_payload}
use baxi.Action.Generate.{
  generate_proposals, create_all, create_one, payload_errors, marshal_payload, cut_title,
  map_risk_level, schema_version,
}
use baxi.Service.Decision
use baxi.Service.Decision.{Env, after_decision}
use baxi.Service.Decision.Laws.{Unlinked, decide-Unlinked}

abbrev number : Number
number = record { mantissa = pos 125; places = 1 }

abbrev alert : TriggerInfo
alert = record {
  alert_id = "alert_1";
  rule_id = "rule_1";
  severity = "low";
  metric_name = "gmv";
  current_value = number;
  baseline_value = number;
  delta_pct = number;
}

abbrev dc : DecisionContext
dc = record {
  decision_case_id = "case_1";
  source_type = none;
  source_id = none;
  trigger = alert;
  object_context = record { object_type = "seller"; object_id = "s_1"; properties = end };
  classification = "L1";
  redaction_applied = false;
  redacted_fields = [];
  role = "";
  allowed_actions = "create_followup_task" ∷ [];
  forbidden_actions = [];
  enriched_objects = [];
}

abbrev case : CaseRow
case = record {
  case_id = "case_1";
  alert_id = some "alert_1";
  status = "created";
  context_json = none;
  created_at = pos 1;
  source_type = some "alert";
  source_id = some "alert_1";
  object_type = some "seller";
  object_id = some "s_1";
  severity = some "low";
  context_hash = none;
  governance_snapshot = none;
  created_by = none;
  updated_at = none;
}

abbrev start : World
start = record {
  db = record {
    proposals = [];
    cases = case ∷ [];
    decisions = [];
    reviews = [];
    audit = [];
    lineage = [];
    outbox = [];
  };
  events = [];
  calls = 0;
}

abbrev env : Env
env = record {
  cases = record {
    driver = λ s. none;
    now = pos 2;
    case_id = "case_9";
    alert = λ id. err "no rows";
  };
  engine = record {
    provider = λ n. rule_based (λ v. "12.5");
    fallback = rule_based (λ v. "12.5");
    repair = true;
    driver = λ s. none;
    marshal = λ o. ok o.decision_type;
    print = λ v. "12.5";
    now = pos 3;
    decision_id = "dec_1";
  };
  proposals = record {
    registry = some (new_action_registry none);
    driver = λ s. none;
    proposal_id = λ i. "prop_1";
    now = λ i. pos 4;
    marshal = λ m. ok "{}";
    marshal_refs = λ rs. ok "[]";
    unmarshal = λ s. some end;
    unmarshal_refs = λ s. none;
    sprint = λ v. "v";
    print = λ n. "n";
  };
  build_context = λ id db. ok dc;
  hash = λ c. ok "h";
  decision_id = "dec_2";
}

decides :
    (map (λ d. d.decision_id) (Decision.decide env "case_1" start).1.db.decisions ≡ "dec_1" ∷ [])
    × (map (λ p. p.decision_id) (Decision.decide env "case_1" start).1.db.proposals
        ≡ some "dec_2" ∷ [])
    × (map (λ c. c.status) (Decision.decide env "case_1" start).1.db.cases
        ≡ "proposal_generated" ∷ [])
unfolding Decision.decide after_decision get_case get_case_by_id generate_decision after_answer
    finish save_decision set_case_status create_decision update_case_status validate_decision
    output_errors action_errors rule_based decide generate_proposals create_all create_one
    create_proposal payload_errors marshal_payload cut_title map_risk_level schema_version
    validate_payload new_action_registry get_action_config
decides = (refl, refl, refl)

two_ids : ◌≢◌ {A = String} "dec_2" "dec_1"
two_ids e = let conflict : false ≡ true = ap (λ s. s == "dec_1") e in absurd (cc)

decide-Unlinked_example : Unlinked "dec_2" [] (Decision.decide env "case_1" start).1.db
decide-Unlinked_example = decide-Unlinked env "case_1" start two_ids refl
