-- ===== src/Worker/Exhausted.antt =====
-- Events whose attempts are used up (internal/worker/dispatch_worker.go, `handleMaxAttempts`).
use baxi.Base.{
  ◌≤◌, ◌≡◌, refl, ◌⊎◌, inl, inr, Bool, true, false, some, List, [], ◌∷◌, String, ok, arith, leb, ℤ,
  All, eq_refl, ◌∙◌,
}
use baxi.Outbox.{
  OutboxEvent, Row, Table, find_row, attempted, is_ready, update_max_attempts, get_pending_events,
}
use baxi.Outbox.Laws.{find_row-update_where, update_max_attempts-eq}
use baxi.Worker.{Env, World, handle_max_attempts}
use baxi.Worker.Frame.{in_tx-cases}
use baxi.Worker.Loop.{dispatch_event, dispatch_all, process_batch}

-- An event that has used up its attempts is handed to no executor.
pub dispatch_event-exhausted :
    (env : Env) (e : OutboxEvent) (w : World)
    → env.config.max_retries ≤ e.dispatch_attempts
    → ((dispatch_event env e w).0.status ≡ "failed") × ((dispatch_event env e w).1.calls ≡ w.calls)
unfolding dispatch_event
dispatch_event-exhausted env e w spent =
    let none_left : leb env.config.max_retries e.dispatch_attempts ≡ true = ground arith in
    rw (none_left, dispatch_event) (refl, refl)

-- The row that `UpdateMaxAttempts` writes.
abbrev given_up : ℤ → Row → Row
given_up now r = record (attempted now "failed" r) {
  error_message = some "max retry attempts reached";
}

handle_max_attempts-row :
    (env : Env) (t : Table) (r : Row)
    → find_row r.event.event_id t ≡ some r
    → (find_row r.event.event_id (handle_max_attempts env r.event t) ≡ some r)
      ⊎ (find_row r.event.event_id (handle_max_attempts env r.event t) ≡ some (given_up env.now r))
unfolding handle_max_attempts
handle_max_attempts-row env t r found =
    elim (in_tx-cases env.driver r.event.event_id
      (update_max_attempts env.driver env.now r.event.event_id) t) [
        | inl e ↦ inl (rw e found)
        | inr (t', ran, e) ↦ inr (
            rw (e, update_max_attempts-eq env.driver env.now r.event.event_id t t' ran)
              (find_row-update_where r.event.event_id r.event.event_id (given_up env.now) t
                  (λ s. refl)
                ∙ rw (eq_refl r.event.event_id, found) refl))
      ]

abbrev unlocked : String → Bool
unlocked id = false

-- The dispatch of an event with no attempts left does not take it out of the queue: whatever the
-- database answers, its row is still there with no attempts left, and where it could be fetched at
-- a time before, it can be fetched at that time after.
pub exhausted-ready :
    (env : Env) (w : World) (r : Row) (later : ℤ)
    → env.config.max_retries ≤ r.event.dispatch_attempts
    → find_row r.event.event_id w.table ≡ some r
    → is_ready later (λ id. false) r.event ≡ true
    → (r' : Row) × (find_row r.event.event_id (dispatch_event env r.event w).1.table ≡ some r')
      × (is_ready later (λ id. false) r'.event ≡ true)
      × (env.config.max_retries ≤ r'.event.dispatch_attempts)
unfolding dispatch_event
exhausted-ready env w r later spent found ready =
    let none_left : leb env.config.max_retries r.event.dispatch_attempts ≡ true = ground arith in
    rw (none_left, dispatch_event)
      (elim (handle_max_attempts-row env w.table r found) [
        | inl e ↦ (r, e, ready, spent)
        | inr e ↦ (given_up env.now r, e, ground arith, omega arith)
      ])

dispatch_all-exhausted :
    (env : Env) (es : List OutboxEvent) (w : World)
    → All (λ e. env.config.max_retries ≤ e.dispatch_attempts) es
    → (dispatch_all env es w).calls ≡ w.calls
unfolding dispatch_all
dispatch_all-exhausted env [] w h = refl
dispatch_all-exhausted env (e ∷ es) w h =
    dispatch_all-exhausted env es (dispatch_event env e w).1 h.1
    ∙ (dispatch_event-exhausted env e w h.0).1

-- A batch filled by such events delivers nothing: no executor is called.
pub process_batch-exhausted :
    (env : Env) (locked : String → Bool) (w : World) (es : List OutboxEvent)
    → get_pending_events env.driver env.now locked env.config.batch_size w.table ≡ ok es
    → All (λ e. env.config.max_retries ≤ e.dispatch_attempts) es
    → (process_batch env locked w).calls ≡ w.calls
unfolding process_batch
process_batch-exhausted env locked w es got spent =
    rw (got, process_batch) (dispatch_all-exhausted env es w spent)
