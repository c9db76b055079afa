-- ===== src/Worker.antt =====
-- The dispatch worker (internal/worker/dispatch_worker.go) over the outbox table.
-- `Env` is what one dispatch sees of the outside: the clock, the database driver, the file system,
-- the JSON decoder and the executors. `World` is what it changes: the table, the audit CSV, and the
-- list of the calls made to executors. NOW() and `time.Now()` are one instant.
pub mod Backoff
pub mod Loop
pub mod Frame
pub mod Terminal
pub mod Outcomes
pub mod Failures
pub mod Exhausted
pub mod DryRun
pub mod Audit
mod Tests
use baxi.Base.{
  ℕ, suc, ◌+◌, ◌≡◌, ◌&&◌, ◌||◌, not, Bool, true, false, Option, none, some, List, [], ◌∷◌, ◌++◌,
  String, str_append, ◌==◌, if◌then◌else◌, ltb, leb, ℤ, pos, ◌+ℤ◌, leb_ℤ, Result, ok, err, ◌>>=◌,
  Driver, decimal,
}
use baxi.Action.Model.{ActionProposal, ExecutionResult, Executor, no_op, adapter, execute}
use baxi.Outbox.{
  OutboxEvent, Table, Stmt, get_pending_events, mark_dispatched, mark_failed, update_max_attempts,
  set_next_retry_at,
}
use baxi.Worker.Backoff.{backoff_duration}

-- `DispatchConfig`, less the poll interval, which only paces `Run`.
pub record DispatchConfig : Type 0 where
  pub batch_size : ℕ
  pub max_retries : ℕ
  pub dry_run : Bool
  pub audit_log_path : String

-- `DefaultDispatchConfig`.
abbrev pub default_dispatch_config : DispatchConfig
default_dispatch_config = record {
  batch_size = 10;
  max_retries = 3;
  dry_run = false;
  audit_log_path = "./data/system/dispatch_archive.csv";
}

-- `DispatchResult`; `Message` and `ExternalRef` are never set.
pub record DispatchResult : Type 0 where
  pub status : String
  pub adapter_name : String
  pub error : String
  pub dry_run : Bool

-- `auditLogEntry`, in the order of the CSV columns.
pub record AuditLogEntry : Type 0 where
  pub timestamp : String
  pub event_id : String
  pub target_channel : String
  pub adapter_name : String
  pub mode : String
  pub status : String
  pub external_ref : String
  pub error : String

-- A call of an executor: the event, and the dry-run flag that it was given.
pub record Call : Type 0 where
  pub event_id : String
  pub dry_run : Bool

pub record Env : Type 0 where
  pub config : DispatchConfig
  pub now : ℤ
  pub timestamp : String
  pub driver : Driver Stmt
  pub executors : String → Option Executor
  pub unmarshal : String → Result ActionProposal
  pub convert : ℕ → ℕ
  pub mkdir_ok : Bool
  pub open_ok : Bool
  pub write_ok : List String → Bool

-- `audit_log` is `none` while the file does not exist.
pub record World : Type 0 where
  pub table : Table
  pub audit_log : Option (List (List String))
  pub calls : List Call

-- `Begin`, the statements, `Commit`; on any error the deferred `Rollback` leaves the table.
abbrev pub in_tx : Driver Stmt → String → (Table → Result Table) → Table → Table
in_tx drv id body t = elim (drv (Stmt.begin id)) [
  | some m ↦ t
  | none ↦ elim (body t) [
    | err m ↦ t
    | ok t' ↦ elim (drv (Stmt.commit id)) [ some m ↦ t | none ↦ t' ]
  ]
]

-- `markDispatchedInTx`.
unfoldable pub mark_dispatched_in_tx : Env → OutboxEvent → Table → Table
mark_dispatched_in_tx env e =
    in_tx env.driver e.event_id (mark_dispatched env.driver env.now e.event_id)

-- `handleMaxAttempts`.
unfoldable pub handle_max_attempts : Env → OutboxEvent → Table → Table
handle_max_attempts env e =
    in_tx env.driver e.event_id (update_max_attempts env.driver env.now e.event_id)

abbrev pub no_executor_message : OutboxEvent → String
no_executor_message e = str_append "no executor for channel: " e.target_channel

-- `handleNoExecutor`.
unfoldable pub handle_no_executor : Env → OutboxEvent → Table → Table
handle_no_executor env e =
    in_tx env.driver e.event_id (mark_failed env.driver env.now e.event_id (no_executor_message e))

-- `handleFailed`: failed, and due again after the backoff.
unfoldable pub handle_failed : Env → OutboxEvent → String → Table → Table
handle_failed env e msg = in_tx env.driver e.event_id (λ t.
    mark_failed env.driver env.now e.event_id msg t
    >>= set_next_retry_at env.driver e.event_id
        (env.now +ℤ backoff_duration env.convert (e.dispatch_attempts + 1)))

-- `executorName`.
abbrev pub executor_name : Executor → String
executor_name no_op = "NoOpExecutor"
executor_name (adapter name run) = name

-- `modeString`.
abbrev pub mode_string : DispatchConfig → String
mode_string c = if c.dry_run then "dry_run" else "live"

abbrev pub csv_header : List String
csv_header =
    "timestamp" ∷ "event_id" ∷ "target_channel" ∷ "adapter_name" ∷ "mode" ∷ "status"
    ∷ "external_ref" ∷ "error" ∷ []

abbrev pub csv_row : AuditLogEntry → List String
csv_row a =
    a.timestamp ∷ a.event_id ∷ a.target_channel ∷ a.adapter_name ∷ a.mode ∷ a.status
    ∷ a.external_ref ∷ a.error ∷ []

-- The loop over the entries, which stops at the first that cannot be written.
unfoldable pub write_rows : (List String → Bool) → List AuditLogEntry → List (List String)
write_rows write_ok [] = []
write_rows write_ok (a ∷ rest) =
    let written = csv_row a ∷ write_rows write_ok rest in
    if write_ok (csv_row a) then written else []

-- `writeAuditLog`.
unfoldable pub write_audit_log :
    Env → List AuditLogEntry → Option (List (List String)) → Option (List (List String))
unfolding write_rows
write_audit_log env [] file = file
write_audit_log env (a ∷ entries) file =
    if env.config.audit_log_path == "" || not env.mkdir_ok || not env.open_ok
    then file
    else elim file [
      | some rows ↦ some (rows ++ write_rows env.write_ok (a ∷ entries))
      | none ↦ some (
          if env.write_ok csv_header
          then csv_header ∷ write_rows env.write_ok (a ∷ entries)
          else [])
    ]
