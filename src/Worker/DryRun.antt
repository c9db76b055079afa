-- ===== src/Worker/DryRun.antt =====
-- The dry-run mode of the worker (internal/worker/dispatch_worker.go).
use baxi.Base.{
  ◌≡◌, refl, ◌≢◌, ◌⊎◌, inl, inr, Bool, true, List, [], ◌∷◌, ◌++◌, String, Bool-cases, Option-cases,
  Result-cases, Result, ok, err, arith, leb, All, eq_iff, All-append,
}
use baxi.Action.Model.{ExecutionResult, Executor, execute}
use baxi.Outbox.{OutboxEvent, get_pending_events}
use baxi.Worker.{Env, World, Call}
use baxi.Worker.Loop.{called, conclude, dispatch_via, dispatch_event, dispatch_all, process_batch}

failed_ne_dispatched : ◌≢◌ {A = String} "failed" "dispatched"
failed_ne_dispatched = ground (arith, eq_iff "failed" "dispatched")

conclude-dry :
    (env : Env) (e : OutboxEvent) (exec : Executor) (r : Result ExecutionResult) (w : World)
    → env.config.dry_run ≡ true
    → (conclude env e exec r w).0.status ≡ "dispatched"
    → (conclude env e exec r w).1.table ≡ w.table
unfolding conclude
conclude-dry env e exec (err m) w dry h = absurd (failed_ne_dispatched h)
conclude-dry env e exec (ok r) w dry h = elim (Bool-cases r.success) [
  | inl done ↦ simp (done, dry, conclude)
  | inr failed ↦ absurd (failed_ne_dispatched (simp (failed, conclude) at h))
]

dispatch_via-dry :
    (env : Env) (e : OutboxEvent) (exec : Executor) (w : World)
    → env.config.dry_run ≡ true
    → (dispatch_via env e exec w).0.status ≡ "dispatched"
    → (dispatch_via env e exec w).1.table ≡ w.table
unfolding dispatch_via
dispatch_via-dry env e exec w dry h = elim (Result-cases (env.unmarshal e.payload)) [
  | inr (m, bad) ↦ absurd (failed_ne_dispatched (rw (bad, dispatch_via) at h))
  | inl (p, good) ↦
      rw (good, dispatch_via)
        (conclude-dry env e exec (execute exec p env.config.dry_run) (called env e w) dry
          (rw (good, dispatch_via) at h))
]

-- In dry-run mode an event that is reported as dispatched is left in the table as it was: it stays
-- pending.
pub dispatch_event-dry :
    (env : Env) (e : OutboxEvent) (w : World)
    → env.config.dry_run ≡ true
    → (dispatch_event env e w).0.status ≡ "dispatched"
    → (dispatch_event env e w).1.table ≡ w.table
unfolding dispatch_event
dispatch_event-dry env e w dry h =
    elim (Bool-cases (leb env.config.max_retries e.dispatch_attempts)) [
      | inl spent ↦ absurd (failed_ne_dispatched (rw (spent, dispatch_event) at h))
      | inr left ↦ elim (Option-cases (env.executors e.target_channel)) [
        | inl missing ↦ absurd (
            failed_ne_dispatched (rw (missing, dispatch_event) at (rw (left, dispatch_event) at h)))
        | inr (exec, found) ↦
            rw (left, dispatch_event)
              (rw (found, dispatch_event)
                (dispatch_via-dry env e exec w dry
                  (rw (found, dispatch_event) at (rw (left, dispatch_event) at h))))
      ]
    ]

abbrev pub AllDry : List Call → Type 0
AllDry = All (λ c. c.dry_run ≡ true)

conclude-calls :
    (env : Env) (e : OutboxEvent) (exec : Executor) (r : Result ExecutionResult) (w : World)
    → (conclude env e exec r w).1.calls ≡ w.calls
unfolding conclude
conclude-calls env e exec (err m) w = refl
conclude-calls env e exec (ok r) w = ground arith

-- A dispatch adds no call of an executor, or one with the event's key and the worker's dry-run flag.
pub dispatch_event-calls :
    (env : Env) (e : OutboxEvent) (w : World)
    → ((dispatch_event env e w).1.calls ≡ w.calls)
      ⊎ ((dispatch_event env e w).1.calls
          ≡ w.calls ++ record { event_id = e.event_id; dry_run = env.config.dry_run } ∷ [])
unfolding dispatch_event dispatch_via
dispatch_event-calls env e w = elim (Bool-cases (leb env.config.max_retries e.dispatch_attempts)) [
  | inl spent ↦ inl (rw (spent, dispatch_event) refl)
  | inr left ↦ elim (Option-cases (env.executors e.target_channel)) [
    | inl missing ↦ inl (rw (left, dispatch_event) (rw (missing, dispatch_event) refl))
    | inr (exec, found) ↦ elim (Result-cases (env.unmarshal e.payload)) [
      | inr (m, bad) ↦
          inl (rw (left, dispatch_event) (rw (found, dispatch_event) (rw (bad, dispatch_via) refl)))
      | inl (p, good) ↦ inr (
          rw (left, dispatch_event)
            (rw (found, dispatch_event)
              (rw (good, dispatch_via)
                (conclude-calls env e exec (execute exec p env.config.dry_run) (called env e w)))))
    ]
  ]
]

dispatch_all-AllDry :
    (env : Env) (es : List OutboxEvent) (w : World)
    → env.config.dry_run ≡ true
    → AllDry w.calls
    → AllDry (dispatch_all env es w).calls
unfolding dispatch_all
dispatch_all-AllDry env [] w dry h = h
dispatch_all-AllDry env (e ∷ es) w dry h =
    dispatch_all-AllDry env es (dispatch_event env e w).1 dry (elim (dispatch_event-calls env e w) [
      | inl same ↦ rw same h
      | inr one ↦ rw one (All-append (λ (c : Call). c.dry_run ≡ true) w.calls _ h (dry, tt))
    ])

-- A worker in dry-run mode makes dry calls only, in the whole of a batch.
pub process_batch-AllDry :
    (env : Env) (locked : String → Bool) (w : World)
    → env.config.dry_run ≡ true
    → AllDry w.calls
    → AllDry (process_batch env locked w).calls
unfolding process_batch
process_batch-AllDry env locked w dry h =
    elim (Result-cases
      (get_pending_events env.driver env.now locked env.config.batch_size w.table)) [
        | inr (m, e) ↦ rw (e, process_batch) h
        | inl (es, e) ↦ rw (e, process_batch) (dispatch_all-AllDry env es w dry h)
      ]
