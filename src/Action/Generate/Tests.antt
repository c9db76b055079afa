-- ===== src/Action/Generate/Tests.antt =====
-- Generations at concrete decisions.
use baxi.Base.{
  ◌≡◌, refl, true, false, none, some, List, [], ◌∷◌, String, ℕ, zero, suc, pos, ok, map,
}
use baxi.Json.{end}
use baxi.Store.{Db, CaseRow}
use baxi.Llm.RuleProvider.{recommend}
use baxi.Decision.Repository.{create_proposal, update_case_status}
use baxi.Action.Registry.{new_action_registry, get_action_config}
use baxi.Action.Registry.Payload.{validate_payload}
use baxi.Action.Generate.{
  Env, Request, generate_proposals, create_all, create_one, payload_errors, marshal_payload,
  cut_title, map_risk_level, schema_version,
}
use baxi.Action.Generate.Laws.{Generated, generate_proposals-Generated}
use baxi.Action.Generate.Review.{generate_proposals-inert}
use baxi.Action.Apply
use baxi.Action.Apply.{World, execute_proposal}

abbrev ids : ℕ → String
ids zero = "prop_1"
ids (suc n) = "prop_2"

abbrev env : Env
env = record {
  registry = some (new_action_registry none);
  driver = λ s. none;
  proposal_id = ids;
  now = λ i. pos 4;
  marshal = λ m. ok "{}";
  marshal_refs = λ rs. ok "[]";
  unmarshal = λ s. some end;
  unmarshal_refs = λ s. none;
  sprint = λ v. "v";
  print = λ n. "n";
}

-- The second insert is refused: both rows have one id.
abbrev same_ids : Env
same_ids = record env { proposal_id = λ i. "prop_1" }

abbrev request : Request
request = record {
  case_id = "case_1";
  decision_id = "dec_2";
  dec = record {
    schema_version = "";
    decision_type = "escalate_to_human";
    severity = "critical";
    summary = "GMV fell";
    rationale = "a" ∷ "b" ∷ [];
    recommended_actions =
        recommend "notify_owner" "high" "ops" ∷ recommend "export_report" "high" "ops" ∷ [];
    confidence = record { mantissa = pos 9; places = 1 };
    requires_human_review = true;
    evidence_refs = [];
    recipe_id = "";
  };
  context_hash = "h";
}

abbrev escalated : Request
escalated = record request {
  dec = record (request.dec) {
    recommended_actions =
        recommend "escalate_to_human" "high" "ops" ∷ recommend "notify_owner" "high" "ops" ∷ [];
  };
}

abbrev case : CaseRow
case = record {
  case_id = "case_1";
  alert_id = none;
  status = "decision_generated";
  context_json = none;
  created_at = pos 1;
  source_type = none;
  source_id = none;
  object_type = none;
  object_id = none;
  severity = none;
  context_hash = none;
  governance_snapshot = none;
  created_by = none;
  updated_at = none;
}

abbrev db : Db
db = record {
  proposals = [];
  cases = case ∷ [];
  decisions = [];
  reviews = [];
  audit = [];
  lineage = [];
  outbox = [];
}

abbrev types : Db → List String
types d = map (λ p. p.action_type) d.proposals

abbrev statuses : Db → List String
statuses d = map (λ c. c.status) d.cases

-- Both actions get a proposal; the escalation that the rules recommend is skipped; and the first
-- proposal stays where the second insert fails.
generates :
    (types (generate_proposals env request db).1 ≡ "notify_owner" ∷ "export_report" ∷ [])
    × (statuses (generate_proposals env request db).1 ≡ "proposal_generated" ∷ [])
    × (types (generate_proposals env escalated db).1 ≡ "notify_owner" ∷ [])
    × (types (generate_proposals same_ids request db).1 ≡ "notify_owner" ∷ [])
    × (statuses (generate_proposals same_ids request db).1 ≡ "decision_generated" ∷ [])
unfolding generate_proposals create_all create_one create_proposal update_case_status payload_errors
    marshal_payload cut_title map_risk_level schema_version validate_payload new_action_registry
    get_action_config
generates = (refl, refl, refl, refl, refl)

generate_proposals-Generated_example :
    Generated env request db
      (generate_proposals env request db).0
      (generate_proposals env request db).1
generate_proposals-Generated_example = generate_proposals-Generated env request db

abbrev executing : Apply.Env
executing = record {
  allow_live = "true";
  registry = new_action_registry none;
  executors = [];
  lineage_verify = none;
  driver = λ s. none;
  outbox_driver = λ s. none;
  unmarshal = λ s. none;
  marshal = λ m. ok "{}";
  now = pos 9;
  now_text = "9";
  event_id = "evt_9";
}

abbrev generated : World
generated = record { db = (generate_proposals env request db).1; calls = [] }

generate_proposals-inert_example :
    (execute_proposal executing "prop_1" "alice" (false ∷ []) generated).1 ≡ generated
generate_proposals-inert_example =
    generate_proposals-inert env request db executing "prop_1" "alice" (false ∷ []) generated refl
      refl
