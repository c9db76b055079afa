-- ===== src/Worker/Frame.antt =====
-- A dispatch changes the row of its own event and no other (internal/worker/dispatch_worker.go).
use baxi.Base.{
  ◌≡◌, ◌⊎◌, inl, inr, String, Bool-cases, Option-cases, Result, ok, err, Result-cases, Driver,
  arith, leb, ==_of_ne, ◌≢◌, sym, ◌>>=◌, ◌+ℤ◌, ◌+◌, str_append,
}
use baxi.Outbox.{
  OutboxEvent, Table, Stmt, find_row, mark_dispatched, mark_failed, update_max_attempts,
  set_next_retry_at,
}
use baxi.Outbox.Laws.{
  Changes, same, Changes-find_row, mark_dispatched-Changes, mark_failed-Changes,
  update_max_attempts-Changes, set_next_retry_at-Changes,
}
use baxi.Outbox.Keys.{IsKeyed, Changes-IsKeyed}
use baxi.Worker.{
  Env, World, in_tx, mark_dispatched_in_tx, handle_max_attempts, handle_no_executor, handle_failed,
  no_executor_message,
}
use baxi.Worker.Backoff.{backoff_duration}
use baxi.Action.Model.{ExecutionResult, Executor, execute}
use baxi.Worker.Loop.{called, conclude, dispatch_via, dispatch_event}

-- A transaction leaves the table, or makes it what its statements make.
pub in_tx-cases :
    (drv : Driver Stmt) (id : String) (body : Table → Result Table) (t : Table)
    → (in_tx drv id body t ≡ t) ⊎ ((t' : Table) × (body t ≡ ok t') × (in_tx drv id body t ≡ t'))
in_tx-cases drv id body t = elim (Result-cases (body t)) [
  | inr (m, h) ↦ inl (ground arith)
  | inl (t', h) ↦ elim (Option-cases (drv (Stmt.begin id))) [
    | inr (m, b) ↦ inl (ground arith)
    | inl b ↦ elim (Option-cases (drv (Stmt.commit id))) [
      | inr (m, c) ↦ inl (ground arith)
      | inl c ↦ inr (t', h, ground arith)
    ]
  ]
]

in_tx-Changes :
    (drv : Driver Stmt) (id : String) (body : Table → Result Table) (t : Table)
    → ((t' : Table) → body t ≡ ok t' → Changes id t t')
    → Changes id t (in_tx drv id body t)
in_tx-Changes drv id body t h = elim (in_tx-cases drv id body t) [
  | inl e ↦ rw e same
  | inr (t', b, e) ↦ rw e (h t' b)
]

module _ (env : Env) (e : OutboxEvent) (t : Table) where
  mark_dispatched_in_tx-Changes : Changes e.event_id t (mark_dispatched_in_tx env e t)
  unfolding mark_dispatched_in_tx
  mark_dispatched_in_tx-Changes =
      in_tx-Changes env.driver e.event_id (mark_dispatched env.driver env.now e.event_id) t
        (λ t' h. mark_dispatched-Changes env.driver env.now env.now e.event_id "" t t' h)

  handle_max_attempts-Changes : Changes e.event_id t (handle_max_attempts env e t)
  unfolding handle_max_attempts
  handle_max_attempts-Changes =
      in_tx-Changes env.driver e.event_id (update_max_attempts env.driver env.now e.event_id) t
        (λ t' h. update_max_attempts-Changes env.driver env.now env.now e.event_id "" t t' h)

  handle_no_executor-Changes : Changes e.event_id t (handle_no_executor env e t)
  unfolding handle_no_executor
  handle_no_executor-Changes =
      in_tx-Changes env.driver e.event_id
        (mark_failed env.driver env.now e.event_id (no_executor_message e)) t
        (λ t' h.
          mark_failed-Changes env.driver env.now env.now e.event_id (no_executor_message e) t t' h)

  -- The two statements of `handleFailed`.
  abbrev pub fail_and_schedule : String → Table → Result Table
  fail_and_schedule msg u =
      mark_failed env.driver env.now e.event_id msg u
      >>= set_next_retry_at env.driver e.event_id
          (env.now +ℤ backoff_duration env.convert (e.dispatch_attempts + 1))

  fail_and_schedule-Changes :
      (msg : String) (t' : Table) → fail_and_schedule msg t ≡ ok t' → Changes e.event_id t t'
  fail_and_schedule-Changes msg t' h =
      elim (Result-cases (mark_failed env.driver env.now e.event_id msg t)) [
        | inr (m, f) ↦ cc (rw f at h)
        | inl (u, f) ↦
            set_next_retry_at-Changes env.driver env.now
              (env.now +ℤ backoff_duration env.convert (e.dispatch_attempts + 1)) e.event_id msg u
              t' (mark_failed-Changes env.driver env.now env.now e.event_id msg t u f) (rw f at h)
      ]

  handle_failed-Changes : (msg : String) → Changes e.event_id t (handle_failed env e msg t)
  unfolding handle_failed
  handle_failed-Changes msg =
      in_tx-Changes env.driver e.event_id (fail_and_schedule msg) t (fail_and_schedule-Changes msg)

conclude-Changes :
    (env : Env) (e : OutboxEvent) (exec : Executor) (r : Result ExecutionResult) (w : World)
    → Changes e.event_id w.table (conclude env e exec r w).1.table
unfolding conclude
conclude-Changes env e exec (err m) w = handle_failed-Changes env e w.table m
conclude-Changes env e exec (ok r) w = elim (Bool-cases r.success) [
  | inr failed ↦ rw failed (handle_failed-Changes env e w.table r.error)
  | inl done ↦ elim (Bool-cases env.config.dry_run) [
    | inl dry ↦ rw (done, dry) same
    | inr live ↦ simp (done, live) (mark_dispatched_in_tx-Changes env e w.table)
  ]
]

dispatch_via-Changes :
    (env : Env) (e : OutboxEvent) (exec : Executor) (w : World)
    → Changes e.event_id w.table (dispatch_via env e exec w).1.table
unfolding dispatch_via
dispatch_via-Changes env e exec w = elim (Result-cases (env.unmarshal e.payload)) [
  | inr (m, h) ↦
      rw (h, dispatch_via) (handle_failed-Changes env e w.table (str_append "invalid payload: " m))
  | inl (p, h) ↦
      rw (h, dispatch_via)
        (conclude-Changes env e exec (execute exec p env.config.dry_run) (called env e w))
]

-- Whatever way a dispatch ends, the table is changed at the event's key alone.
pub dispatch_event-Changes :
    (env : Env) (e : OutboxEvent) (w : World)
    → Changes e.event_id w.table (dispatch_event env e w).1.table
unfolding dispatch_event
dispatch_event-Changes env e w =
    elim (Bool-cases (leb env.config.max_retries e.dispatch_attempts)) [
      | inl spent ↦ rw spent (handle_max_attempts-Changes env e w.table)
      | inr left ↦ elim (Option-cases (env.executors e.target_channel)) [
        | inl missing ↦ rw (left, missing) (handle_no_executor-Changes env e w.table)
        | inr (exec, found) ↦ rw (left, found) (dispatch_via-Changes env e exec w)
      ]
    ]

-- A dispatch leaves every other event's row as it was, whatever the executor, the decoder and the
-- database answer.
pub dispatch_event-frame :
    (env : Env) (e : OutboxEvent) (w : World) (j : String)
    → j ≢ e.event_id
    → find_row j (dispatch_event env e w).1.table ≡ find_row j w.table
dispatch_event-frame env e w j ne =
    Changes-find_row j e.event_id w.table (==_of_ne e.event_id j (λ p. ne (sym p)))
      (dispatch_event-Changes env e w)

pub dispatch_event-IsKeyed :
    (env : Env) (e : OutboxEvent) (w : World)
    → IsKeyed w.table
    → IsKeyed (dispatch_event env e w).1.table
dispatch_event-IsKeyed env e w k =
    Changes-IsKeyed e.event_id w.table k (dispatch_event-Changes env e w)
