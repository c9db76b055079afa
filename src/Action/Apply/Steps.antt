-- ===== src/Action/Apply/Steps.antt =====
-- The statements of an execution (internal/action/apply_service.go, outbox_integration.go): the
-- loader, the updates of the proposal, the audit row and the outbox event.
use baxi.Base.{
  Bool, Option, none, some, [], ◌∷◌, ◌++◌, String, ◌==◌, if◌then◌else◌, ℤ, pos, Driver, str_append,
  ok, err,
}
use baxi.Json.{Fields, end, field, str, bool, obj}
use baxi.Outbox.{OutboxEvent, create_event}
use baxi.Store.{Db, ProposalRow, AuditRow, find_proposal, update_proposal}
use baxi.Action.Model.{ActionProposal, action_channel}
use baxi.Action.Apply.Model.{wrapped, plain, Outcome, done, failed, ◌>>◌, Stmt, Env}

abbrev pub exec : Driver Stmt → Stmt → String → Outcome (Unit {0})
exec drv s context = elim (drv s) [ none ↦ done tt | some m ↦ failed (wrapped context m) ]

abbrev pub text_or_empty : Option String → String
text_or_empty none = ""
text_or_empty (some s) = s

-- `proposalLoaderAdapter.GetProposalByID`: a payload that is not JSON is dropped.
abbrev pub to_proposal : (String → Option Fields) → ProposalRow → ActionProposal
to_proposal unmarshal row = record {
  proposal_id = row.proposal_id;
  case_id = row.case_id;
  decision_id = text_or_empty row.decision_id;
  action_type = row.action_type;
  title = row.title;
  description = text_or_empty row.description;
  payload = elim row.payload [ none ↦ none | some s ↦ unmarshal s ];
  risk_level = text_or_empty row.risk_level;
  requires_human_review = row.requires_human_review;
  apply_status = row.apply_status;
  created_at = row.created_at;
  evidence_refs = [];
  context_hash = "";
  recipe_id = "";
}

abbrev pub load_proposal : Env → String → Db → Outcome (Option ActionProposal)
load_proposal env id db = do
  exec env.driver Stmt.select_proposal "load proposal: query ai.action_proposal by id"
  done (elim (find_proposal id db.proposals) [
    | none ↦ none
    | some row ↦ some (to_proposal env.unmarshal row)
  ])

abbrev exec_update : Env → Stmt → String → String → (ProposalRow → ProposalRow) → Db → Outcome Db
exec_update env s context id f db = do
  exec env.driver s context
  elim (find_proposal id db.proposals) [
    | none ↦ failed (plain (str_append "proposal " (str_append id " not found")))
    | some row ↦ done (record db { proposals = update_proposal id f db.proposals })
  ]

abbrev pub set_status : String → ProposalRow → ProposalRow
set_status status row = record row { apply_status = status }

abbrev pub set_applied : ℤ → String → ProposalRow → ProposalRow
set_applied now actor row = record row {
  apply_status = "applied";
  applied_at = some now;
  applied_by = some actor;
}

-- `updateProposalStatus`.
unfoldable pub update_proposal_status : Env → String → String → Db → Outcome Db
update_proposal_status env id status =
    exec_update env (Stmt.update_status status) "update proposal status" id (set_status status)

-- `updateProposalToApplied`.
unfoldable pub update_proposal_to_applied : Env → String → String → Db → Outcome Db
update_proposal_to_applied env id actor =
    exec_update env Stmt.update_applied "update proposal to applied" id (set_applied env.now actor)

-- `insertAuditLog`.
abbrev pub audit_row : String → ActionProposal → Bool → String → AuditRow
audit_row actor p success error_msg = record {
  category = "action_apply";
  action = if success then "execute" else "execute_failed";
  actor = actor;
  resource_type = "action_proposal";
  resource_id = p.proposal_id;
  metadata = field "action_type" (str p.action_type) (
      field "case_id" (str p.case_id) (
        field "success" (bool success)
          (if error_msg == "" then end else field "error" (str error_msg) end)));
}

unfoldable pub insert_audit_log : Env → String → ActionProposal → Bool → String → Db → Outcome Db
insert_audit_log env actor p success error_msg db = do
  exec env.driver Stmt.insert_audit "insert audit log"
  done (record db { audit = db.audit ++ audit_row actor p success error_msg ∷ [] })

-- A call whose error is dropped.
abbrev pub or_else : Outcome Db → Db → Db
or_else (done db') db = db'
or_else (failed e) db = db

-- `CreateOutboxEventFromProposal`: the event and the tables with it. The event's time is not set; the
-- INSERT sets that of the row.
abbrev pub envelope : Env → ActionProposal → Fields
envelope env p = field "proposal_id" (str p.proposal_id) (
    field "case_id" (str p.case_id) (
      field "action_type" (str p.action_type) (
        field "created_at" (str env.now_text)
          (elim p.payload [ none ↦ end | some payload ↦ field "payload" (obj payload) end ]))))

abbrev pub proposal_event : Env → ActionProposal → String → OutboxEvent
proposal_event env p payload = record {
  event_id = env.event_id;
  source_type = "action_execution";
  source_id = p.proposal_id;
  event_type = p.action_type;
  status = "pending";
  payload = payload;
  target_channel = action_channel p.action_type;
  created_at = pos 0;
  dispatch_attempts = 0;
  next_retry_at = none;
}

unfoldable pub create_outbox_event_from_proposal :
    Env → ActionProposal → Db → Outcome (OutboxEvent × Db)
create_outbox_event_from_proposal env p db = elim (env.marshal (envelope env p)) [
  | err m ↦ failed (wrapped "create outbox event: marshal outbox envelope" m)
  | ok payload ↦
      elim (create_event env.outbox_driver env.now (proposal_event env p payload) db.outbox) [
        | err m ↦ failed (wrapped "create outbox event: create outbox event" m)
        | ok (inserted, t) ↦ done (proposal_event env p payload, record db { outbox = t })
      ]
]
