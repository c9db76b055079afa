-- ===== src/Worker/Failures.antt =====
-- The failing ends of a dispatch (internal/worker/dispatch_worker.go) and the retry that they set.
use mathlib.Core.Path.{subst}
use baxi.Base.{
  ◌+◌, ◌≤◌, ◌<◌, ◌≡◌, refl, sym, false, none, some, String, str_append, ok, err, arith, leb, ◌+ℤ◌,
}
use baxi.Action.Model.{ActionProposal, ExecutionResult, Executor, execute}
use baxi.Outbox.{OutboxEvent, Row, Stmt, find_row}
use baxi.Worker.{Env, World, handle_failed}
use baxi.Worker.Backoff.{capped_doubling, backoff_duration-exact}
use baxi.Worker.Loop.{conclude, dispatch_via, dispatch_event}
use baxi.Worker.Outcomes.{
  Sets, retried, handle_failed-Sets, handle_no_executor-Sets, dispatch_event-via,
}

-- The ways in which a dispatch through `exec` fails with `msg`: the payload is no proposal, the
-- executor returns an error, or its result is not a success.
pub data Failure (env : Env) (e : OutboxEvent) (exec : Executor) (msg : String) : Type 0 where
  bad_payload :
      (m : String)
      → env.unmarshal e.payload ≡ err m
      → msg ≡ str_append "invalid payload: " m
      → Failure env e exec msg
  raised :
      (p : ActionProposal)
      → env.unmarshal e.payload ≡ ok p
      → execute exec p env.config.dry_run ≡ err msg
      → Failure env e exec msg
  unsuccessful :
      (p : ActionProposal) (res : ExecutionResult)
      → env.unmarshal e.payload ≡ ok p
      → execute exec p env.config.dry_run ≡ ok res
      → res.success ≡ false
      → msg ≡ res.error
      → Failure env e exec msg

dispatch_via-fails :
    (env : Env) (e : OutboxEvent) (w : World) (exec : Executor) (msg : String)
    → Failure env e exec msg
    → let (d, w') = dispatch_via env e exec w in
      (d.status ≡ "failed") × (d.error ≡ msg) × (w'.table ≡ handle_failed env e msg w.table)
unfolding dispatch_via conclude
dispatch_via-fails env e w exec msg (bad_payload m decoded same) =
    rw (decoded, dispatch_via) (refl, sym same, rw same)
dispatch_via-fails env e w exec msg (raised p decoded ran) =
    rw (decoded, dispatch_via) (rw (ran, conclude) (refl, refl, refl))
dispatch_via-fails env e w exec msg (unsuccessful p res decoded ran bad same) =
    rw (decoded, dispatch_via) (rw (ran, conclude) (simp (bad, conclude) (refl, sym same, rw same)))

-- A dispatch below the limit, through an executor of the event's channel, that fails because the
-- payload is no proposal, because the executor returns an error or because its result is not a
-- success, in a database that accepts every statement and holds the row: the result carries the error,
-- the row is `failed` with one attempt more and the error's text, and is due again after 2 ^ attempts
-- minutes, at most 30. No other row changes. It holds for retry limits up to 28.
pub dispatch_event-retries :
    (env : Env) (e : OutboxEvent) (w : World) (exec : Executor) (msg : String) (r : Row)
    → env.config.max_retries ≤ 28
    → e.dispatch_attempts < env.config.max_retries
    → env.executors e.target_channel ≡ some exec
    → Failure env e exec msg
    → ((stmt : Stmt) → env.driver stmt ≡ none)
    → find_row e.event_id w.table ≡ some r
    → let (d, w') = dispatch_event env e w in
      (d.status ≡ "failed")
      × (d.error ≡ msg)
      × Sets e.event_id
          (retried env.now (env.now +ℤ capped_doubling (e.dispatch_attempts + 1)) msg r)
          w.table
          w'.table
dispatch_event-retries env e w exec msg r limit left exec_found fails accept found =
    let (status, error, table) = dispatch_via-fails env e w exec msg fails in
    rw (dispatch_event-via env e w exec left exec_found) (
      status,
      error,
      subst
          (λ d.
            Sets e.event_id (retried env.now (env.now +ℤ d) msg r) w.table
              (dispatch_via env e exec w).1.table)
          (backoff_duration-exact env.convert (e.dispatch_attempts + 1) (omega arith) (omega arith))
          (rw table (handle_failed-Sets env e w.table r accept found msg)),
    )

-- An event below the limit, for a channel with no executor, in a database that accepts every statement
-- and holds the row: the dispatch fails, no executor is called, and the row is `failed` with one
-- attempt more, the time of it and the error's text. What stood under `next_retry_at` stays, so that,
-- unlike other failures, it sets no retry time. No other row changes.
pub dispatch_event-no_executor :
    (env : Env) (e : OutboxEvent) (w : World) (r : Row)
    → e.dispatch_attempts < env.config.max_retries
    → env.executors e.target_channel ≡ none
    → ((stmt : Stmt) → env.driver stmt ≡ none)
    → find_row e.event_id w.table ≡ some r
    → let (d, w') = dispatch_event env e w in
      (d.status ≡ "failed")
      × (w'.calls ≡ w.calls)
      × Sets e.event_id
          (record r {
            event = record (r.event) {
              status = "failed";
              dispatch_attempts = r.event.dispatch_attempts + 1;
            };
            last_dispatch_at = some env.now;
            error_message = some (str_append "no executor for channel: " e.target_channel);
          })
          w.table
          w'.table
unfolding dispatch_event
dispatch_event-no_executor env e w r left missing accept found =
    let more : leb env.config.max_retries e.dispatch_attempts ≡ false = ground arith in
    rw (more, dispatch_event)
      (rw (missing, dispatch_event)
        (refl, refl, handle_no_executor-Sets env e w.table r accept found))
