-- ===== src/Action/Model.antt =====
-- The data of internal/action: `ActionProposal`, `ExecutionResult`, the executors, and the channel
-- of an action type.
use baxi.Base.{◌||◌, Bool, true, Option, some, List, String, ◌==◌, if◌then◌else◌, ℤ, Result, ok}
use baxi.Json.{Fields, end, field, bool, str}

-- `ActionProposal`. A nil payload is `none`.
pub record ActionProposal : Type 0 where
  pub proposal_id : String
  pub case_id : String
  pub decision_id : String
  pub action_type : String
  pub title : String
  pub description : String
  pub payload : Option Fields
  pub risk_level : String
  pub requires_human_review : Bool
  pub apply_status : String
  pub created_at : ℤ
  pub evidence_refs : List String
  pub context_hash : String
  pub recipe_id : String

-- `ExecutionResult`.
pub record ExecutionResult : Type 0 where
  pub success : Bool
  pub dry_run : Bool
  pub dispatch_payload : Option Fields
  pub error : String
  pub outbox_event_id : String

-- An `ActionExecutor`: the no-op executor, or an adapter with the name of its Go type and its
-- `Execute`.
pub data Executor : Type 0 where
  no_op : Executor
  adapter : String → (ActionProposal → Bool → Result ExecutionResult) → Executor

-- `NoOpExecutor.Execute`.
unfoldable pub no_op_execute : ActionProposal → Bool → Result ExecutionResult
no_op_execute p dry_run = ok (record {
  success = true;
  dry_run = dry_run;
  dispatch_payload = some (
      field "action_type" (str p.action_type) (
        field "proposal_id" (str p.proposal_id)
          (field "case_id" (str p.case_id) (field "dry_run" (bool dry_run) end))));
  error = "";
  outbox_event_id = "";
})

-- The call through the interface.
unfoldable pub execute : Executor → ActionProposal → Bool → Result ExecutionResult
unfolding no_op_execute
execute no_op p dry_run = no_op_execute p dry_run
execute (adapter name run) p dry_run = run p dry_run

-- `actionChannel`.
unfoldable pub action_channel : String → String
action_channel action_type =
    if action_type == "export_report"
      || action_type == "notify_owner"
      || action_type == "create_outbox_message"
    then "feishu"
    else if action_type == "create_followup_task"
    then "github"
    else "unknown"
