-- ===== src/Service/Decision.antt =====
-- The decision service (internal/service/decision_service.go): the flow from a case to proposals. The
-- context builder, which reads the tables only, and the hash of a context are parameters.
pub mod Laws
mod Tests
use baxi.Base.{Option, none, some, List, String, str_append, Result, ok, err}
use baxi.Store.{Db}
use baxi.Llm.Model.{DecisionOutput, LlmSafeContext}
use baxi.Decision.Cases
use baxi.Decision.Cases.{DecisionCase, create_case_from_alert, get_case}
use baxi.Decision.Engine
use baxi.Decision.Engine.{DecisionContext, World, Reply, build_llm_safe_context, generate_decision}
use baxi.Action.Model.{ActionProposal}
use baxi.Action.Generate
use baxi.Action.Generate.{Request, generate_proposals, list_proposals}

pub record Env : Type 0 where
  pub cases : Cases.Env
  pub engine : Engine.Env
  pub proposals : Generate.Env
  pub build_context : String → Db → Result DecisionContext
  pub hash : LlmSafeContext → Result String
  pub decision_id : String

-- What `Decide` returns beside an error.
pub record Decided : Type 0 where
  pub context : DecisionContext
  pub output : DecisionOutput
  pub proposals : List ActionProposal

-- The hash, or an empty text where it cannot be computed.
abbrev pub context_hash : Env → DecisionContext → String
context_hash env dc = elim (env.hash (build_llm_safe_context dc)) [ err m ↦ "" | ok h ↦ h ]

abbrev pub request : Env → String → DecisionContext → DecisionOutput → Request
request env case_id dc output = record {
  case_id = case_id;
  decision_id = env.decision_id;
  dec = output;
  context_hash = context_hash env dc;
}

abbrev pub proposed :
    DecisionContext
    → DecisionOutput
    → World
    → Result (List ActionProposal) × Db
    → Result Decided × World
proposed dc output w (err m, db) = (err m, record w { db = db })
proposed dc output w (ok ps, db) =
    (ok (record { context = dc; output = output; proposals = ps }), record w { db = db })

-- `Decide` from the answer of the engine. A nil output without an error is dereferenced, which ends
-- the request with a panic; its error here is the panic's text.
unfoldable pub after_decision :
    Env → String → DecisionContext → Reply × World → Result Decided × World
after_decision env case_id dc (reply, w) = elim reply.error [
  | some m ↦ (err m, w)
  | none ↦ elim reply.output [
    | none ↦ (err "invalid memory address or nil pointer dereference", w)
    | some output ↦
        proposed dc output w (generate_proposals env.proposals (request env case_id dc output) w.db)
  ]
]

-- `Decide`.
unfoldable pub decide : Env → String → World → Result Decided × World
unfolding after_decision
decide env case_id w = elim (get_case env.cases case_id w.db) [
  | err m ↦ (err m, w)
  | ok c ↦ elim (env.build_context case_id w.db) [
    | err m ↦ (err m, w)
    | ok dc ↦ after_decision env case_id dc (generate_decision env.engine case_id dc w)
  ]
]
