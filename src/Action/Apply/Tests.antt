-- ===== src/Action/Apply/Tests.antt =====
-- Executions at concrete inputs, and the theorems on them at inputs that meet their hypotheses.
use baxi.Base.{
  ◌≡◌, refl, ◌⊎◌, Bool, true, false, Option, none, some, [], ◌∷◌, ◌++◌, String, pos, ok, lookup,
}
use baxi.Outbox.{inserted_row, create_event}
use baxi.Store.{ProposalRow}
use baxi.Action.Model.{ActionProposal, Executor, adapter, ExecutionResult, execute, action_channel}
use baxi.Action.Registry.{new_action_registry, is_allowed}
use baxi.Action.Apply.{
  Env, World, done, failed, not_approved, live_execution_disabled, wrapped, Stmt, to_proposal,
  proposal_event, set_applied, admit, execute_proposal, execute_for_real, run_executor, settle,
  update_proposal_status, update_proposal_to_applied, insert_audit_log,
  create_outbox_event_from_proposal,
}
use baxi.Action.Apply.Guards.{Permitted, execute_proposal-guarded}
use baxi.Action.Apply.Runs.{Applied, execute_for_real-Applied, execute_for_real_atomic}
use baxi.Action.Apply.Totality.{Ready, committed, execute_for_real-runs}

abbrev row : ProposalRow
row = record {
  proposal_id = "prop_1";
  case_id = "case_1";
  decision_id = none;
  action_type = "notify_owner";
  payload = none;
  apply_status = "approved";
  created_at = pos 1;
  applied_at = none;
  applied_by = none;
  title = "notify";
  description = none;
  risk_level = some "low";
  requires_human_review = true;
  context_hash = none;
  action_schema_version = none;
  evidence_refs = none;
  recipe_id = none;
}

abbrev start : World
start = record {
  db = record {
    proposals = row ∷ [];
    cases = [];
    decisions = [];
    reviews = [];
    audit = [];
    lineage = [];
    outbox = [];
  };
  calls = [];
}

abbrev sent : Bool → ExecutionResult
sent success = record {
  success = success;
  dry_run = false;
  dispatch_payload = none;
  error = "";
  outbox_event_id = "";
}

abbrev feishu : Bool → Executor
feishu success = adapter "FeishuAdapter" (λ p dry_run. ok (sent success))

abbrev with_executor : Bool → Env
with_executor success = record {
  allow_live = "true";
  registry = new_action_registry none;
  executors = ("feishu", feishu success) ∷ [];
  lineage_verify = none;
  driver = λ s. none;
  outbox_driver = λ s. none;
  unmarshal = λ s. none;
  marshal = λ m. ok "{}";
  now = pos 9;
  now_text = "9";
  event_id = "evt_9";
}

abbrev env : Env
env = with_executor true

abbrev proposal : ActionProposal
proposal = to_proposal (λ s. none) row

abbrev applied : World
applied = record {
  db = record (start.db) {
    proposals = set_applied (pos 9) "alice" row ∷ [];
    audit = ((execute_for_real env "alice" proposal start).1).db.audit;
    outbox = inserted_row (pos 9) (proposal_event env proposal "{}") ∷ [];
  };
  calls = "prop_1" ∷ [];
}

abbrev is_applied : ExecutionResult
is_applied = record (sent true) { outbox_event_id = "evt_9" }

live_run : execute_for_real env "alice" proposal start ≡ (done is_applied, applied)
unfolding execute_for_real run_executor settle update_proposal_status update_proposal_to_applied
    insert_audit_log create_outbox_event_from_proposal create_event action_channel execute
live_run = refl

-- The same proposal again, as it was loaded before the first run.
run_twice :
    ((execute_for_real (record env { event_id = "evt_10" }) "bob" proposal applied).1).calls
    ≡ "prop_1" ∷ "prop_1" ∷ []
unfolding execute_for_real run_executor settle update_proposal_status update_proposal_to_applied
    insert_audit_log create_outbox_event_from_proposal create_event action_channel execute
run_twice = refl

refusals :
    (execute_proposal (record env { allow_live = "1" }) "prop_1" "alice" (false ∷ []) start
      ≡ (failed live_execution_disabled, start))
    × (execute_proposal env "prop_1" "alice" (false ∷ []) applied ≡ (failed not_approved, applied))
unfolding execute_proposal admit execute_for_real run_executor settle update_proposal_status
    update_proposal_to_applied insert_audit_log create_outbox_event_from_proposal create_event
    action_channel execute is_allowed new_action_registry
refusals = (refl, refl)

notify_allowed : is_allowed (new_action_registry none) "notify_owner" ≡ true
unfolding is_allowed new_action_registry
notify_allowed = refl

abbrev permitted : Permitted env "prop_1" (false ∷ []) start
permitted = record {
  row = row;
  asked_live = refl;
  enabled = refl;
  found = refl;
  approved = refl;
  allowed = notify_allowed;
  lineage = refl;
}

execute_proposal-guarded_example :
    ((execute_proposal env "prop_1" "alice" (false ∷ []) start).1 ≡ start)
    ⊎ Permitted env "prop_1" (false ∷ []) start
execute_proposal-guarded_example = execute_proposal-guarded env "prop_1" "alice" (false ∷ []) start

execute_for_real-Applied_example : Applied env "alice" proposal start applied is_applied
execute_for_real-Applied_example =
    execute_for_real-Applied env "alice" proposal start applied is_applied live_run refl

-- A refused commit.
abbrev no_commit : Stmt → Option String
no_commit Stmt.commit = some "conn closed"
no_commit s = none

abbrev called : World
called = record start { calls = "prop_1" ∷ [] }

abbrev offline : Env
offline = record env { driver = no_commit }

lost_run :
    execute_for_real offline "alice" proposal start
    ≡ (failed (wrapped "commit transaction" "conn closed"), called)
unfolding execute_for_real run_executor settle update_proposal_status update_proposal_to_applied
    insert_audit_log create_outbox_event_from_proposal create_event action_channel execute
lost_run = refl

execute_for_real_atomic_example :
    (called.db ≡ start.db)
    × ((called.calls ≡ start.calls) ⊎ (called.calls ≡ start.calls ++ "prop_1" ∷ []))
execute_for_real_atomic_example =
    execute_for_real_atomic offline "alice" proposal start called
      (wrapped "commit transaction" "conn closed") lost_run

abbrev broken : World
broken = (execute_for_real (with_executor false) "alice" proposal start).1

failed_run :
    execute_for_real (with_executor false) "alice" proposal start ≡ (done (sent false), broken)
unfolding execute_for_real run_executor settle update_proposal_status insert_audit_log
    action_channel execute
failed_run = refl

sends : execute (feishu true) proposal false ≡ ok (sent true)
unfolding execute
sends = refl

served_by_feishu : lookup (action_channel "notify_owner") env.executors ≡ some (feishu true)
unfolding action_channel
served_by_feishu = refl

abbrev ready : Ready env proposal start
ready = record {
  row = row;
  executor = feishu true;
  result = sent true;
  payload = "{}";
  found = refl;
  served = served_by_feishu;
  runs = sends;
  succeeds = refl;
  marshalled = refl;
  began = refl;
  applying = refl;
  applied = refl;
  inserts = refl;
}

execute_for_real-runs_example :
    ((execute_for_real env "alice" proposal start).0 ≡ committed env ready.result)
    × ((execute_for_real env "alice" proposal start).1.calls ≡ [] ++ "prop_1" ∷ [])
execute_for_real-runs_example = execute_for_real-runs env "alice" proposal start ready
