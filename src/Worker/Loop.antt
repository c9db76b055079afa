-- ===== src/Worker/Loop.antt =====
-- `dispatchEvent`, `processBatch` and `FetchPending` (internal/worker/dispatch_worker.go).
use baxi.Base.{
  Bool, true, false, none, some, List, [], ◌∷◌, ◌++◌, String, str_append, if◌then◌else◌, leb, ℤ,
  pos, leb_ℤ, Result, ok, err, decimal, pos_part,
}
use baxi.Action.Model.{ExecutionResult, Executor, execute}
use baxi.Outbox.{OutboxEvent, Table, get_pending_events}
use baxi.Worker.{
  DispatchResult, AuditLogEntry, Env, World, executor_name, mode_string, no_executor_message,
  mark_dispatched_in_tx, handle_max_attempts, handle_no_executor, handle_failed, write_audit_log,
}

-- The audit row of a dispatch of `e`.
abbrev pub entry : Env → OutboxEvent → String → String → String → String → String → AuditLogEntry
entry env e name mode status ref error = record {
  timestamp = env.timestamp;
  event_id = e.event_id;
  target_channel = e.target_channel;
  adapter_name = name;
  mode = mode;
  status = status;
  external_ref = ref;
  error = error;
}

abbrev pub failed_result : String → String → DispatchResult
failed_result name error = record {
  status = "failed";
  adapter_name = name;
  error = error;
  dry_run = false;
}

-- The world after the table has become `t` and `a` is written to the audit CSV.
abbrev pub settle : Env → AuditLogEntry → Table → World → World
settle env a t w = record w { table = t; audit_log = write_audit_log env (a ∷ []) w.audit_log }

abbrev pub max_retries_message : Env → String
max_retries_message env =
    str_append "max retry attempts reached (" (str_append (decimal env.config.max_retries) ")")

-- The end of `dispatchEvent`, from the executor's answer.
unfoldable pub conclude :
    Env → OutboxEvent → Executor → Result ExecutionResult → World → DispatchResult × World
conclude env e exec (err m) w = (
  failed_result (executor_name exec) m,
  settle env (entry env e (executor_name exec) (mode_string env.config) "failed" "" m)
      (handle_failed env e m w.table) w,
)
conclude env e exec (ok r) w =
    if r.success
    then (if env.config.dry_run
        then (
          record {
            status = "dispatched";
            adapter_name = executor_name exec;
            error = "";
            dry_run = true;
          },
          settle env (entry env e (executor_name exec) "dry_run" "dispatched" r.outbox_event_id "")
              w.table w,
        )
        else (
          record {
            status = "dispatched";
            adapter_name = executor_name exec;
            error = "";
            dry_run = false;
          },
          settle env (entry env e (executor_name exec) "live" "dispatched" r.outbox_event_id "")
              (mark_dispatched_in_tx env e w.table) w,
        ))
    else (
      failed_result (executor_name exec) r.error,
      settle env
          (entry env e (executor_name exec) (mode_string env.config) "failed" r.outbox_event_id
            r.error)
          (handle_failed env e r.error w.table) w,
    )

abbrev pub called : Env → OutboxEvent → World → World
called env e w = record w {
  calls = w.calls ++ record { event_id = e.event_id; dry_run = env.config.dry_run } ∷ [];
}

-- `dispatchEvent` from the payload, once the executor is known.
unfoldable pub dispatch_via : Env → OutboxEvent → Executor → World → DispatchResult × World
dispatch_via env e exec w = elim (env.unmarshal e.payload) [
  | err m ↦
      let msg = str_append "invalid payload: " m in
      (
        failed_result (executor_name exec) msg,
        settle env (entry env e (executor_name exec) (mode_string env.config) "failed" "" msg)
            (handle_failed env e msg w.table) w,
      )
  | ok p ↦ conclude env e exec (execute exec p env.config.dry_run) (called env e w)
]

-- `dispatchEvent`.
unfoldable pub dispatch_event : Env → OutboxEvent → World → DispatchResult × World
dispatch_event env e w =
    if leb env.config.max_retries e.dispatch_attempts
    then (
      failed_result "" (max_retries_message env),
      settle env
          (entry env e "" (mode_string env.config) "max_attempts" "" (max_retries_message env))
          (handle_max_attempts env e w.table) w,
    )
    else elim (env.executors e.target_channel) [
      | none ↦ (
        failed_result "" (no_executor_message e),
        settle env (entry env e "" (mode_string env.config) "failed" "" (no_executor_message e))
            (handle_no_executor env e w.table) w,
      )
      | some exec ↦ dispatch_via env e exec w
    ]

-- The loop of `processBatch` over the fetched events.
unfoldable pub dispatch_all : Env → List OutboxEvent → World → World
dispatch_all env [] w = w
dispatch_all env (e ∷ es) w = dispatch_all env es (dispatch_event env e w).1

-- `processBatch`; a fetch that fails is logged and no more.
unfoldable pub process_batch : Env → (String → Bool) → World → World
process_batch env locked w =
    elim (get_pending_events env.driver env.now locked env.config.batch_size w.table) [
      | err m ↦ w
      | ok es ↦ dispatch_all env es w
    ]

-- `FetchPending`: a limit of zero or less is the batch size.
unfoldable pub fetch_pending : Env → (String → Bool) → ℤ → Table → Result (List OutboxEvent)
fetch_pending env locked limit t =
    get_pending_events env.driver env.now locked
      (if leb_ℤ limit (pos 0) then env.config.batch_size else pos_part limit) t

-- The batches of `Run`, one for each tick that finds the worker free.
unfoldable pub run : List (Env × (String → Bool)) → World → World
run [] w = w
run ((env, locked) ∷ ticks) w = run ticks (process_batch env locked w)
