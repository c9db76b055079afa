-- ===== src/Action/Generate.antt =====
-- The proposals of a decision (internal/action/proposal_service.go). No transaction surrounds the
-- writes: what was written before an error stays. The JSON encoding, the ids and the readings of the
-- clock, one for each recommended action, are parameters.
pub mod Rows
pub mod Laws
pub mod Review
mod Tests
use baxi.Base.{
  ◌||◌, not, Bool, true, false, Option, none, some, List, [], ◌∷◌, ◌++◌, String, str_append, len,
  ◌==◌, if◌then◌else◌, leb, nat_eq, ℤ, ℕ, zero, suc, ◌+◌, length, map, Driver, Result, ok, err,
  ◌>>=◌,
}
use Prim.Native.String.{slice}
use baxi.Json.{Fields, end, Value}
use baxi.Store.{Db, ProposalRow}
use baxi.Llm.Model.{DecisionOutput, RecommendedAction}
use baxi.Decision.Repository.{Stmt, create_proposal, list_proposals_by_case, update_case_status}
use baxi.Action.Model.{ActionProposal}
use baxi.Action.Registry.{ActionRegistry, get_action_config}
use baxi.Action.Registry.Payload.{validate_payload}

-- A nil registry is `none`.
pub record Env : Type 0 where
  pub registry : Option ActionRegistry
  pub driver : Driver Stmt
  pub proposal_id : ℕ → String
  pub now : ℕ → ℤ
  pub marshal : Fields → Result String
  pub marshal_refs : List String → Result String
  pub unmarshal : String → Option Fields
  pub unmarshal_refs : String → Option (List String)
  pub sprint : Value → String
  pub print : ℤ → String

-- `mapRiskLevel`.
unfoldable pub map_risk_level : String → String
map_risk_level severity =
    if severity == "critical" || severity == "high"
    then "high"
    else if severity == "medium"
    then "medium"
    else if severity == "low"
    then "low"
    else "medium"

-- `strings.Join`.
abbrev pub join : String → List String → String
join sep [] = ""
join sep (s ∷ []) = s
join sep (s ∷ (t ∷ ts)) = str_append s (str_append sep (join sep (t ∷ ts)))

-- `title[:200]`. A cut inside a character leaves bytes that are no text, which the database refuses.
unfoldable pub cut_title : String → Option String
cut_title s =
    if leb (len s) 200
    then some s
    else if nat_eq (len (slice s 0 200)) 200
    then some (slice s 0 200)
    else none

abbrev pub full_title : RecommendedAction → DecisionOutput → String
full_title a dec = str_append a.action_type (str_append ": " dec.summary)

-- The errors by which an action is skipped; a nil payload has no field.
unfoldable pub payload_errors : Env → RecommendedAction → List String
payload_errors env a = elim env.registry [
  | none ↦ []
  | some r ↦ elim a.payload [
    | none ↦ validate_payload env.sprint env.print r a.action_type end
    | some payload ↦ validate_payload env.sprint env.print r a.action_type payload
  ]
]

unfoldable pub marshal_payload : Env → RecommendedAction → Result (Option String)
marshal_payload env a = elim a.payload [
  | none ↦ ok none
  | some payload ↦ elim (env.marshal payload) [
    | err m ↦
        err
          (str_append "marshal payload for action " (str_append a.action_type (str_append ": " m)))
    | ok text ↦ ok (some text)
  ]
]

unfoldable pub schema_version : Env → String → String
schema_version env action_type = elim env.registry [
  | none ↦ "v1"
  | some r ↦ elim (get_action_config r action_type) [
    | none ↦ "v1"
    | some cfg ↦ if cfg.version == "" then "v1" else cfg.version
  ]
]

abbrev pub evidence_json : Env → List String → Option String
evidence_json env [] = none
evidence_json env (r ∷ rs) = elim (env.marshal_refs (r ∷ rs)) [ err m ↦ none | ok text ↦ some text ]

-- The arguments of `GenerateProposals`.
pub record Request : Type 0 where
  pub case_id : String
  pub decision_id : String
  pub dec : DecisionOutput
  pub context_hash : String

abbrev pub proposal_row :
    Env → Request → ℕ → RecommendedAction → String → Option String → ProposalRow
proposal_row env q i a title payload = record {
  proposal_id = env.proposal_id i;
  case_id = q.case_id;
  decision_id = some q.decision_id;
  action_type = a.action_type;
  payload = payload;
  apply_status = "proposed";
  created_at = env.now i;
  applied_at = none;
  applied_by = none;
  title = title;
  description = some (join "; " q.dec.rationale);
  risk_level = some (map_risk_level q.dec.severity);
  requires_human_review = true;
  context_hash = some q.context_hash;
  action_schema_version = some (schema_version env a.action_type);
  evidence_refs = evidence_json env q.dec.evidence_refs;
  recipe_id = if q.dec.recipe_id == "" then none else some q.dec.recipe_id;
}

abbrev create_error : RecommendedAction → String → String
create_error a m =
    str_append "create proposal for action " (str_append a.action_type (str_append ": " m))

-- The body of the loop after the check of the payload: the row, and the database with it.
unfoldable pub create_one : Env → Request → ℕ → RecommendedAction → Db → Result (ProposalRow × Db)
create_one env q i a db = elim (marshal_payload env a) [
  | err m ↦ err m
  | ok payload ↦ elim (cut_title (full_title a q.dec)) [
    | none ↦ err (create_error a "insert ai.action_proposal: invalid byte sequence for encoding")
    | some title ↦ elim (create_proposal env.driver (proposal_row env q i a title payload) db) [
      | err m ↦ err (create_error a m)
      | ok db' ↦ ok (proposal_row env q i a title payload, db')
    ]
  ]
]

abbrev text : Option String → String
text none = ""
text (some s) = s

-- `rowToProposal`.
unfoldable pub row_to_proposal : Env → ProposalRow → ActionProposal
row_to_proposal env r = record {
  proposal_id = r.proposal_id;
  case_id = r.case_id;
  decision_id = text r.decision_id;
  action_type = r.action_type;
  title = r.title;
  description = text r.description;
  payload = elim r.payload [ none ↦ none | some s ↦ env.unmarshal s ];
  risk_level = text r.risk_level;
  requires_human_review = r.requires_human_review;
  apply_status = r.apply_status;
  created_at = r.created_at;
  evidence_refs = elim r.evidence_refs [
    | none ↦ []
    | some s ↦ elim (env.unmarshal_refs s) [ none ↦ [] | some refs ↦ refs ]
  ];
  context_hash = text r.context_hash;
  recipe_id = text r.recipe_id;
}

-- `append(proposals, *rowToProposal(row))`, before the proposals of the actions that follow.
abbrev pub prepend : ProposalRow → Result (List ProposalRow) × Db → Result (List ProposalRow) × Db
prepend row (err m, db) = (err m, db)
prepend row (ok rows, db) = (ok (row ∷ rows), db)

-- The loop over the recommended actions, from index `i`.
unfoldable pub create_all :
    Env → Request → ℕ → List RecommendedAction → Db → Result (List ProposalRow) × Db
create_all env q i [] db = (ok [], db)
create_all env q i (a ∷ actions) db = elim (payload_errors env a) [
  | e ∷ es ↦ create_all env q (i + 1) actions db
  | [] ↦ elim (create_one env q i a db) [
    | err m ↦ (err m, db)
    | ok created ↦ prepend created.0 (create_all env q (i + 1) actions created.1)
  ]
]

-- `GenerateProposals` after its loop.
abbrev pub conclude :
    Env → Request → Result (List ProposalRow) × Db → Result (List ActionProposal) × Db
conclude env q (err m, db) = (err m, db)
conclude env q (ok rows, db) =
    elim (update_case_status env.driver (env.now (length q.dec.recommended_actions)) q.case_id
      "proposal_generated" none none none db) [
        | err m ↦ (err (str_append "update case status to proposal_generated: " m), db)
        | ok db' ↦ (ok (map (row_to_proposal env) rows), db')
      ]

-- `GenerateProposals`.
unfoldable pub generate_proposals : Env → Request → Db → Result (List ActionProposal) × Db
unfolding create_all
generate_proposals env q db = conclude env q (create_all env q 0 q.dec.recommended_actions db)

-- `ListProposals`.
unfoldable pub list_proposals : Env → String → Db → Result (List ActionProposal)
list_proposals env id db = elim (list_proposals_by_case env.driver id db) [
  | err m ↦ err (str_append "list proposals for case " (str_append id (str_append ": " m)))
  | ok rows ↦ ok (map (row_to_proposal env) rows)
]
