-- ===== src/Decision/Context/V3/Tests.antt =====
-- A context with the objects of two links, one behind the other.
use baxi.Base.{◌≡◌, refl, true, false, none, [], ◌∷◌, ◌==◌, if◌then◌else◌, ok, arith}
use baxi.Json.{end, field, str}
use baxi.Llm.Model.{ObjectContext}
use baxi.Decision.Engine.{DecisionContext}
use baxi.Decision.Context.{bare_trigger}
use baxi.Decision.Context.V3.{Env, build_decision_context_v3}
use baxi.Decision.Context.V3.Laws.{Enriches, HasFewLinks, build_decision_context_v3-Enriches}

abbrev order : ObjectContext
order = record {
  object_type = "order";
  object_id = "o_1";
  properties = field "customer" (str "c_1") end;
}

abbrev customer : ObjectContext
customer = record {
  object_type = "customer";
  object_id = "c_1";
  properties = field "email" (str "a@b.c") end;
}

abbrev base : DecisionContext
base = record {
  decision_case_id = "case_1";
  source_type = none;
  source_id = none;
  trigger = bare_trigger "low";
  object_context = order;
  classification = "L1";
  redaction_applied = false;
  redacted_fields = [];
  role = "agent_readonly";
  allowed_actions = [];
  forbidden_actions = [];
  enriched_objects = [];
}

abbrev env : Env
env = record {
  delegate = λ id. ok base;
  get_links = λ t. elim (t == "order") [
    | true ↦ ok (record { name = "buyer"; target_type = "customer"; via = "customer" } ∷ [])
    | false ↦ ok []
  ];
  object_context = λ t i. if t == "order" then ok order else ok customer;
  print = λ v. elim v [ str s ↦ s | _ ↦ "" ];
}

-- The email of the customer stands in the context.
shows_email :
    build_decision_context_v3 env "case_1"
    ≡ ok (record base {
      enriched_objects =
          record {
            link_name = "buyer";
            depth = 1;
            object_type = "customer";
            object_id = "c_1";
            properties = field "email" (str "a@b.c") end;
          }
          ∷ [];
    })
unfolding build_decision_context_v3
shows_email = refl

few_links : HasFewLinks env 1
few_links t links found = ground arith

build_decision_context_v3-Enriches_example :
    (dc : DecisionContext) × (build_decision_context_v3 env "case_1" ≡ ok dc)
    × Enriches env 1 base dc
build_decision_context_v3-Enriches_example =
    build_decision_context_v3-Enriches env 1 "case_1" base few_links refl
