-- ===== src/Decision/Context/V2/Tests.antt =====
-- A context of version 2 at a concrete object, with a registry that was loaded.
use baxi.Base.{◌≡◌, refl, ◌&&◌, true, false, none, some, [], ◌∷◌, String, elem, pos, ok}
use baxi.Json.{end, field, str}
use baxi.Store.{CaseRow}
use baxi.Llm.Model.{ObjectContext}
use baxi.Governance.Redaction.{redact_object_context, check_marking, check_classification}
use baxi.Action.Registry.{
  Actions, default_config, new_action_registry, is_allowed, get_action_config, is_canonical,
}
use baxi.Decision.Repository.{get_case_by_id}
use baxi.Decision.Context.{is_any}
use baxi.Decision.Context.Tests.{seller, marking, case, db}
use baxi.Decision.Context.Policy.{
  build_policy_result, list_action_types, add_actions, get_action_policy,
}
use baxi.Decision.Context.Policy.Laws.{requires, build_policy_result-Loaded}
use baxi.Decision.Context.V2.{
  Env, ContextV2, build_decision_context_v2, build_classifications, build_lineage, governed_v2,
}
use baxi.Decision.Context.V2.Laws.{ShowsV2, build_decision_context_v2-Shows}
use baxi.Decision.Context.{bare_trigger}

-- One action that asks for an approval, one that is disabled.
abbrev file : Actions
file =
    ("notify_owner", record default_config { requires_approval = true; risk_level = "low" })
    ∷ ("export_report", record default_config { enabled = some false })
    ∷ []

abbrev env : Env
env = record {
  driver = λ s. none;
  get_object = λ type id. ok (record { object_type = type; object_id = id; properties = seller });
  field_marking = λ type k. marking k;
  context_lineage = some (λ id. ok (some ("dwd.orders" ∷ [])));
  registry = new_action_registry (some file);
  float = λ s. record { mantissa = pos 0; places = 0 };
}

built : ContextV2
built =
    governed_v2 env case (bare_trigger "low")
      (record { object_type = "seller"; object_id = "s_1"; properties = seller }) "seller" "case_1"

builds : build_decision_context_v2 env "case_1" db ≡ ok built
unfolding build_decision_context_v2 built get_case_by_id
builds = refl

sees :
    (built.base.object_context.properties
      ≡ field "city" (str "Recife") (field "note" (str "n") end))
    × (built.base.classification ≡ "L3")
    × (built.lineage ≡ some ("dwd.orders" ∷ []))
unfolding built build_classifications redact_object_context check_marking check_classification
    build_lineage
sees = (refl, refl, refl)

build_decision_context_v2-Shows_example :
    (c : CaseRow) × (get_case_by_id env.driver "case_1" db ≡ ok c)
    × (object : ObjectContext) × ShowsV2 env c object built
build_decision_context_v2-Shows_example =
    build_decision_context_v2-Shows env "case_1" db built builds

build_policy_result-Loaded_example :
    let reg = new_action_registry (some file) in
    let policy = build_policy_result reg in
    ((k : String) → elem k policy.allowed_actions ≡ is_allowed reg k)
    × ((k : String)
        → elem k policy.requires_approval_actions ≡ (is_allowed reg k && requires reg k))
    × (policy.blocked_actions ≡ [])
    × (policy.human_approval_required ≡ is_any policy.requires_approval_actions)
    × ((k : String) → elem k (list_action_types reg) ≡ is_allowed reg k)
build_policy_result-Loaded_example = build_policy_result-Loaded (some file)

policy_test : (build_policy_result (new_action_registry (some file))).human_approval_required ≡ true
unfolding build_policy_result add_actions list_action_types new_action_registry get_action_policy
    get_action_config is_allowed is_canonical
policy_test = refl
