-- ===== src/Worker/Outcomes.antt =====
-- What a dispatch does on each of its ends (internal/worker/dispatch_worker.go), where the database
-- accepts every statement and holds the event's row.
use baxi.Base.{
  ◌+◌, ◌<◌, ◌≡◌, ◌∙◌, refl, true, false, none, some, [], ◌∷◌, ◌++◌, String, ◌==◌, if◌then◌else◌,
  Result, ok, Driver, arith, leb, ℤ, ◌+ℤ◌, eq_refl,
}
use baxi.Action.Model.{ActionProposal, ExecutionResult, Executor, execute}
use baxi.Outbox.{
  OutboxEvent, Row, Table, Stmt, find_row, attempted, mark_dispatched, mark_failed,
  update_max_attempts,
}
use baxi.Outbox.Laws.{Rewrites, updates-Rewrites}
use baxi.Worker.{
  Env, World, in_tx, mark_dispatched_in_tx, handle_max_attempts, handle_no_executor, handle_failed,
  no_executor_message,
}
use baxi.Worker.Backoff.{backoff_duration}
use baxi.Worker.Frame.{fail_and_schedule}
use baxi.Worker.Loop.{conclude, dispatch_via, dispatch_event}

in_tx-ok :
    (drv : Driver Stmt) (id : String) (body : Table → Result Table) (t t' : Table)
    → ((stmt : Stmt) → drv stmt ≡ none)
    → body t ≡ ok t'
    → in_tx drv id body t ≡ t'
in_tx-ok drv id body t t' accept h = ground (arith, accept (Stmt.begin id), accept (Stmt.commit id))

-- Under the key stands the row `r'`, and every other key keeps its row.
abbrev pub Sets : String → Row → Table → Table → Type 0
Sets id r' t t' = (j : String) → find_row j t' ≡ (if id == j then some r' else find_row j t)

Sets-of_Rewrites :
    (drv : Driver Stmt) (id : String) (body : Table → Result Table) (t : Table) (r' : Row)
    → ((stmt : Stmt) → drv stmt ≡ none)
    → Rewrites id r' t (body t)
    → Sets id r' t (in_tx drv id body t)
Sets-of_Rewrites drv id body t r' accept (t', e, after) =
    rw (in_tx-ok drv id body t t' accept e) after

-- The row of an event that failed with `msg` at `now` and is due again at `at`: the status, one attempt
-- more, the time of it, the error and the retry time.
abbrev pub retried : ℤ → ℤ → String → Row → Row
retried now at msg r = record r {
  event = record (r.event) {
    status = "failed";
    dispatch_attempts = r.event.dispatch_attempts + 1;
    next_retry_at = some at;
  };
  last_dispatch_at = some now;
  error_message = some msg;
}

module _ (env : Env) (e : OutboxEvent) (t : Table) (r : Row)
    (accept : (stmt : Stmt) → env.driver stmt ≡ none) (found : find_row e.event_id t ≡ some r) where
  mark_dispatched_in_tx-Sets :
      Sets e.event_id (attempted env.now "dispatched" r) t (mark_dispatched_in_tx env e t)
  unfolding mark_dispatched_in_tx
  mark_dispatched_in_tx-Sets =
      Sets-of_Rewrites env.driver e.event_id (mark_dispatched env.driver env.now e.event_id) t
        (attempted env.now "dispatched" r) accept
        (updates-Rewrites env.driver env.now e.event_id t r "" env.now accept found).0

  fail_and_schedule-Rewrites :
      (msg : String)
      → Rewrites e.event_id
          (retried env.now
            (env.now +ℤ backoff_duration env.convert (e.dispatch_attempts + 1))
            msg
            r)
          t
          (fail_and_schedule env e t msg t)
  fail_and_schedule-Rewrites msg =
      let at : ℤ = env.now +ℤ backoff_duration env.convert (e.dispatch_attempts + 1) in
      let failed : Row = record (attempted env.now "failed" r) { error_message = some msg } in
      let (u, marked, after) =
        (updates-Rewrites env.driver env.now e.event_id t r msg at accept found).1 in
      let there : find_row e.event_id u ≡ some failed =
        after e.event_id ∙ rw (eq_refl e.event_id) refl in
      let (v, scheduled, final) =
        (updates-Rewrites env.driver env.now e.event_id u failed msg at accept there).3 in
      (v, rw (marked, scheduled) refl, λ j. ground (arith, after j, final j))

  pub handle_failed-Sets :
      (msg : String)
      → Sets e.event_id
          (retried env.now
            (env.now +ℤ backoff_duration env.convert (e.dispatch_attempts + 1))
            msg
            r)
          t
          (handle_failed env e msg t)
  unfolding handle_failed
  handle_failed-Sets msg =
      Sets-of_Rewrites env.driver e.event_id (fail_and_schedule env e t msg) t
        (retried env.now (env.now +ℤ backoff_duration env.convert (e.dispatch_attempts + 1)) msg r)
        accept (fail_and_schedule-Rewrites msg)

  pub handle_max_attempts-Sets :
      Sets e.event_id
        (record (attempted env.now "failed" r) {
          error_message = some "max retry attempts reached";
        })
        t
        (handle_max_attempts env e t)
  unfolding handle_max_attempts
  handle_max_attempts-Sets =
      Sets-of_Rewrites env.driver e.event_id (update_max_attempts env.driver env.now e.event_id) t
        (record (attempted env.now "failed" r) {
          error_message = some "max retry attempts reached";
        })
        accept (updates-Rewrites env.driver env.now e.event_id t r "" env.now accept found).2

  pub handle_no_executor-Sets :
      Sets e.event_id
        (record (attempted env.now "failed" r) { error_message = some (no_executor_message e) })
        t
        (handle_no_executor env e t)
  unfolding handle_no_executor
  handle_no_executor-Sets =
      Sets-of_Rewrites env.driver e.event_id
        (mark_failed env.driver env.now e.event_id (no_executor_message e)) t
        (record (attempted env.now "failed" r) { error_message = some (no_executor_message e) })
        accept
        (updates-Rewrites env.driver env.now e.event_id t r (no_executor_message e) env.now accept
          found).1

-- `dispatchEvent` steps, its tests passed.
pub dispatch_event-via :
    (env : Env) (e : OutboxEvent) (w : World) (exec : Executor)
    → e.dispatch_attempts < env.config.max_retries
    → env.executors e.target_channel ≡ some exec
    → dispatch_event env e w ≡ dispatch_via env e exec w
unfolding dispatch_event
dispatch_event-via env e w exec left found =
    let more : leb env.config.max_retries e.dispatch_attempts ≡ false = ground arith in
    rw (more, dispatch_event) (rw (found, dispatch_event) refl)

-- A live dispatch below the limit, through an executor of the event's channel, whose payload decodes
-- and whose executor succeeds, in a database that accepts every statement and holds the row: the result
-- says `dispatched`, the executor was called once and live, and the row is `dispatched` with one
-- attempt more and the time of it, all else in it as it was. No other row changes.
pub dispatch_event-delivers :
    (env : Env) (e : OutboxEvent) (w : World) (exec : Executor) (p : ActionProposal)
    (res : ExecutionResult) (r : Row)
    → e.dispatch_attempts < env.config.max_retries
    → env.executors e.target_channel ≡ some exec
    → env.unmarshal e.payload ≡ ok p
    → execute exec p false ≡ ok res
    → res.success ≡ true
    → env.config.dry_run ≡ false
    → ((stmt : Stmt) → env.driver stmt ≡ none)
    → find_row e.event_id w.table ≡ some r
    → let (d, w') = dispatch_event env e w in
      (d.status ≡ "dispatched")
      × (w'.calls ≡ w.calls ++ record { event_id = e.event_id; dry_run = false } ∷ [])
      × Sets e.event_id
          (record r {
            event = record (r.event) {
              status = "dispatched";
              dispatch_attempts = r.event.dispatch_attempts + 1;
            };
            last_dispatch_at = some env.now;
          })
          w.table
          w'.table
unfolding dispatch_via conclude
dispatch_event-delivers env e w exec p res r left exec_found decoded ran good live accept found =
    rw (dispatch_event-via env e w exec left exec_found) (
      rw (decoded, dispatch_via)
        (simp (live, ran, good, dispatch_via, conclude)
          (refl, refl, mark_dispatched_in_tx-Sets env e w.table r accept found)))
