-- ===== src/Action/Apply.antt =====
-- The execution of an approved proposal (internal/action/apply_service.go, outbox_integration.go),
-- over the tables of Store. The proposal is loaded through the loader of
-- internal/api/handler_factories.go.
pub mod Model
pub mod Steps
pub mod Laws
pub mod Guards
pub mod Runs
pub mod Totality
mod Tests
use baxi.Base.{
  ◌≡◌, ◌||◌, ◌&&◌, not, Bool, true, false, Option, none, some, List, [], ◌∷◌, ◌++◌, String, ◌==◌,
  if◌then◌else◌, ℤ, pos, Driver, str_append, lookup, Result, ok, err,
}
use baxi.Json.{Fields, end, field, str, bool, obj}
use baxi.Outbox.{Table, OutboxEvent, create_event}
use baxi.Store.{Db, ProposalRow, AuditRow, find_proposal, update_proposal}
use baxi.Action.Model.{ActionProposal, ExecutionResult, Executor, no_op, execute, action_channel}
use baxi.Action.Registry.{ActionRegistry, is_allowed}
pub use Steps.{
  exec, text_or_empty, to_proposal, load_proposal, set_status, set_applied, audit_row, or_else,
  envelope, proposal_event,
}
unfoldable pub use Steps.{
  update_proposal_status, update_proposal_to_applied, insert_audit_log,
  create_outbox_event_from_proposal,
}
pub use Model.{
  ApplyError, not_approved, action_not_allowed, proposal_not_found, lineage_incomplete,
  live_execution_disabled, wrapped, plain, Outcome, done, failed, ◌>>=◌, ◌>>◌, Stmt, Env, World,
}

-- The last option that sets the dry-run flag wins; without one it is set.
abbrev pub dry_run_from : Bool → List Bool → Bool
dry_run_from b [] = b
dry_run_from b (o ∷ opts) = dry_run_from o opts

-- What an executor's return becomes.
abbrev pub execution_result : Result ExecutionResult → ExecutionResult
execution_result (ok r) = r
execution_result (err m) = record {
  success = false;
  dry_run = false;
  dispatch_payload = none;
  error = m;
  outbox_event_id = "";
}

-- The statements after the executor's return, up to the audit row.
unfoldable pub settle :
    Env → String → ActionProposal → ExecutionResult → Db → Outcome (ExecutionResult × Db)
settle env actor p r db =
    if r.success
    then (do
      db1 ← update_proposal_to_applied env p.proposal_id actor db
      (event, db2) ← create_outbox_event_from_proposal env p db1
      done (record r { outbox_event_id = event.event_id }, db2))
    else (do db1 ← update_proposal_status env p.proposal_id "failed" db; done (r, db1))

-- `Commit`, with what the transaction did; a refused one leaves the tables as they were.
abbrev pub commit : Env → String → ExecutionResult → Db → World → Outcome ExecutionResult × World
commit env context r db w = elim (env.driver Stmt.commit) [
  | some m ↦ (failed (wrapped context m), w)
  | none ↦ (done r, record w { db = db })
]

abbrev pub no_executor : String → ExecutionResult
no_executor channel = record {
  success = false;
  dry_run = false;
  dispatch_payload = none;
  error = str_append "no executor found for channel " channel;
  outbox_event_id = "";
}

-- Where no executor serves the channel.
unfoldable pub give_up : Env → String → ActionProposal → Db → Db
give_up env actor p db =
    let db1 = or_else (update_proposal_status env p.proposal_id "failed" db) db in
    or_else
      (insert_audit_log env actor p false
        (str_append "no executor for channel " (action_channel p.action_type)) db1)
      db1

-- The call of the executor that is found, and what follows it.
unfoldable pub run_executor :
    Env → String → ActionProposal → Executor → Db → World → Outcome ExecutionResult × World
run_executor env actor p x db w =
    let called : World = record w { calls = w.calls ++ p.proposal_id ∷ [] } in
    elim (settle env actor p (execution_result (execute x p false)) db) [
      | failed e ↦ (failed e, called)
      | done (r, db1) ↦
          commit env "commit transaction" r
            (or_else (insert_audit_log env actor p r.success r.error db1) db1) called
    ]

-- `executeForReal`.
unfoldable pub execute_for_real :
    Env → String → ActionProposal → World → Outcome ExecutionResult × World
execute_for_real env actor p w =
    elim (exec env.driver Stmt.begin "begin transaction"
      >> update_proposal_status env p.proposal_id "applying" w.db) [
        | failed e ↦ (failed e, w)
        | done db ↦ elim (lookup (action_channel p.action_type) env.executors) [
          | none ↦
              commit env "commit after adapter not found"
                (no_executor (action_channel p.action_type)) (give_up env actor p db) w
          | some x ↦ run_executor env actor p x db w
        ]
      ]

-- The lineage check, which is skipped in a dry run and without a verifier.
abbrev pub lineage_complete : Env → Bool → ActionProposal → Bool
lineage_complete env dry_run p = if dry_run then true else elim env.lineage_verify [
  | none ↦ true
  | some verify ↦ elim (verify p.case_id) [ ok b ↦ b | err m ↦ false ]
]

-- The tests on the proposal.
unfoldable pub admit : Env → Bool → ActionProposal → Outcome (Unit {0})
admit env dry_run p =
    if not (p.apply_status == "approved")
    then failed not_approved
    else if not (is_allowed env.registry p.action_type)
    then failed action_not_allowed
    else if lineage_complete env dry_run p
    then done tt
    else failed lineage_incomplete

abbrev pub returned : Result ExecutionResult → Outcome ExecutionResult
returned (ok r) = done r
returned (err m) = failed (plain m)

-- `ExecuteProposal`, with the options as the dry-run flags that they set.
unfoldable pub execute_proposal :
    Env → String → String → List Bool → World → Outcome ExecutionResult × World
execute_proposal env id actor opts w =
    let dry_run = dry_run_from true opts in
    if not dry_run && not (env.allow_live == "true")
    then (failed live_execution_disabled, w)
    else elim (load_proposal env id w.db) [
      | failed e ↦ (failed e, w)
      | done none ↦ (failed proposal_not_found, w)
      | done (some p) ↦ elim (admit env dry_run p) [
        | failed e ↦ (failed e, w)
        | done _ ↦
            if dry_run then (returned (execute no_op p true), w) else execute_for_real env actor p w
      ]
    ]
