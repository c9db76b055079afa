-- ===== src/Worker/Audit.antt =====
-- The audit CSV of the worker (internal/worker/dispatch_worker.go, `writeAuditLog`).
use baxi.Base.{
  ◌≡◌, refl, inl, inr, true, false, Option, none, some, List, [], ◌∷◌, ◌++◌, String, ◌==◌,
  Bool-cases, Option-cases, Result-cases, Result, ok, err, arith, leb,
}
use baxi.Action.Model.{ExecutionResult, Executor, execute}
use baxi.Outbox.{OutboxEvent}
use baxi.Worker.{
  Env, World, AuditLogEntry, DispatchResult, csv_row, csv_header, write_audit_log, write_rows,
}
use baxi.Worker.Loop.{called, conclude, dispatch_via, dispatch_event}

-- A CSV that can be written: a path is set, and the file system refuses nothing.
pub record CanWrite (env : Env) : Type 0 where
  pub path : (env.config.audit_log_path == "") ≡ false
  pub mkdir : env.mkdir_ok ≡ true
  pub open_file : env.open_ok ≡ true
  pub write : (row : List String) → env.write_ok row ≡ true

-- One row for `a` behind what was there; a new file begins with the header.
abbrev pub appended : AuditLogEntry → Option (List (List String)) → Option (List (List String))
appended a none = some (csv_header ∷ csv_row a ∷ [])
appended a (some rows) = some (rows ++ csv_row a ∷ [])

write_audit_log-appended :
    (env : Env) (a : AuditLogEntry) (file : Option (List (List String)))
    → CanWrite env
    → write_audit_log env (a ∷ []) file ≡ appended a file
unfolding write_audit_log write_rows
write_audit_log-appended env a none h = ground (arith, h.write csv_header, h.write (csv_row a))
write_audit_log-appended env a (some rows) h = ground (arith, h.write (csv_row a))

-- The row that a dispatch writes: the event, and the result's adapter and error.
abbrev pub Reports : OutboxEvent → DispatchResult → AuditLogEntry → Type 0
Reports e d a =
    (a.event_id ≡ e.event_id)
    × (a.target_channel ≡ e.target_channel)
    × (a.adapter_name ≡ d.adapter_name)
    × (a.error ≡ d.error)

abbrev Logs : Env → OutboxEvent → World → DispatchResult × World → Type 0
Logs env e w out =
    (a : AuditLogEntry) × (out.1.audit_log ≡ appended a w.audit_log) × Reports e out.0 a

conclude-Logs :
    (env : Env) (e : OutboxEvent) (exec : Executor) (r : Result ExecutionResult) (w : World)
    → CanWrite env
    → Logs env e w (conclude env e exec r w)
unfolding conclude
conclude-Logs env e exec (err m) w h =
    (_, write_audit_log-appended env _ w.audit_log h, (refl, refl, refl, refl))
conclude-Logs env e exec (ok r) w h = elim (Bool-cases r.success) [
  | inr failed ↦
      simp (failed, conclude)
        (_, write_audit_log-appended env _ w.audit_log h, (refl, refl, refl, refl))
  | inl done ↦ elim (Bool-cases env.config.dry_run) [
    | inl dry ↦
        simp (done, dry, conclude)
          (_, write_audit_log-appended env _ w.audit_log h, (refl, refl, refl, refl))
    | inr live ↦
        simp (done, live, conclude)
          (_, write_audit_log-appended env _ w.audit_log h, (refl, refl, refl, refl))
  ]
]

dispatch_via-Logs :
    (env : Env) (e : OutboxEvent) (exec : Executor) (w : World)
    → CanWrite env
    → Logs env e w (dispatch_via env e exec w)
unfolding dispatch_via
dispatch_via-Logs env e exec w h = elim (Result-cases (env.unmarshal e.payload)) [
  | inr (m, bad) ↦
      rw (bad, dispatch_via)
        (_, write_audit_log-appended env _ w.audit_log h, (refl, refl, refl, refl))
  | inl (p, good) ↦
      rw (good, dispatch_via)
        (conclude-Logs env e exec (execute exec p env.config.dry_run) (called env e w) h)
]

-- Every dispatch, on whichever of its ends, writes exactly one row to the audit CSV (behind the
-- header, if the file is new), where the path is set and the file system refuses nothing; the row
-- names the event and its channel, and the adapter and the error of the result.
pub dispatch_event-logs :
    (env : Env) (e : OutboxEvent) (w : World)
    → CanWrite env
    → let (d, w') = dispatch_event env e w in
      (a : AuditLogEntry) × (w'.audit_log ≡ appended a w.audit_log) × Reports e d a
unfolding dispatch_event
dispatch_event-logs env e w h = elim (Bool-cases (leb env.config.max_retries e.dispatch_attempts)) [
  | inl spent ↦
      rw (spent, dispatch_event)
        (_, write_audit_log-appended env _ w.audit_log h, (refl, refl, refl, refl))
  | inr left ↦ elim (Option-cases (env.executors e.target_channel)) [
    | inl missing ↦
        rw (left, dispatch_event)
          (rw (missing, dispatch_event)
            (_, write_audit_log-appended env _ w.audit_log h, (refl, refl, refl, refl)))
    | inr (exec, found) ↦
        rw (left, dispatch_event) (rw (found, dispatch_event) (dispatch_via-Logs env e exec w h))
  ]
]
