-- ===== src/Worker/Terminal.antt =====
-- A row that was dispatched or cancelled is final: no later batch of the same worker touches it
-- (internal/worker/dispatch_worker.go, internal/outbox/repository.go).
use mathlib.Core.Path.{subst}
use baxi.Base.{
  ◌≡◌, refl, ◌⊎◌, inl, inr, Bool, true, false, none, some, List, [], ◌∷◌, String, ◌==◌, Bool-cases,
  ok, Result-cases, ℤ, All, filter, ◌∙◌, eq_iff,
}
use baxi.Outbox.{OutboxEvent, Row, Table, find_row, events, is_ready, get_pending_events}
use baxi.Outbox.Laws.{Changes-find_row}
use baxi.Outbox.Keys.{IsKeyed}
use baxi.Outbox.Pending.{get_pending_events-All}
use baxi.Worker.{Env, World}
use baxi.Worker.Loop.{dispatch_event, dispatch_all, process_batch, run}
use baxi.Worker.Frame.{dispatch_event-Changes, dispatch_event-IsKeyed}

-- The statuses that the WHERE clause of the fetch leaves out.
abbrev pub IsFinal : Row → Type 0
IsFinal r = (r.event.status ≡ "dispatched") ⊎ (r.event.status ≡ "cancelled")

abbrev Other : String → OutboxEvent → Type 0
Other j e = (e.event_id == j) ≡ false

-- Every event that passes a test is not that of `j`.
abbrev OtherIf : (OutboxEvent → Bool) → String → OutboxEvent → Type 0
OtherIf p j e = p e ≡ true → Other j e

All-filter_of :
    (p : OutboxEvent → Bool) (j : String) (es : List OutboxEvent)
    → All (OtherIf p j) es
    → All (Other j) (filter p es)
All-filter_of p j [] h = tt
All-filter_of p j (e ∷ es) h = elim (Bool-cases (p e)) [
  | inl t ↦ rw t (h.0 t, All-filter_of p j es h.1)
  | inr f ↦ rw f (All-filter_of p j es h.1)
]

events_missing :
    (p : OutboxEvent → Bool) (j : String) (t : Table)
    → find_row j t ≡ none
    → All (OtherIf p j) (events t)
events_missing p j [] h = tt
events_missing p j (r ∷ t) h = elim (Bool-cases (r.event.event_id == j)) [
  | inl same ↦ cc (rw same at h)
  | inr other ↦ ((λ ready. other), events_missing p j t (rw other at h))
]

events_final :
    (p : OutboxEvent → Bool) (j : String) (t : Table) (r : Row)
    → IsKeyed t
    → find_row j t ≡ some r
    → p r.event ≡ false
    → All (OtherIf p j) (events t)
events_final p j [] r k h f = tt
events_final p j (s ∷ t) r k h f = elim (Bool-cases (s.event.event_id == j)) [
  | inl same ↦
      let id : s.event.event_id ≡ j = (eq_iff s.event.event_id j).0 same in
      let row : some s ≡ some r = rw same at h in
      ((λ ready. cc), events_missing p j t (subst (λ i. find_row i t ≡ none) id k.0))
  | inr other ↦ ((λ ready. other), events_final p j t r k.1 (rw other at h) f)
]

not_ready :
    (now : ℤ) (locked : String → Bool) (r : Row) → IsFinal r → is_ready now locked r.event ≡ false
not_ready now locked r (inl e) = rw e
not_ready now locked r (inr e) = rw e

dispatch_all-find_row :
    (env : Env) (es : List OutboxEvent) (w : World) (j : String)
    → All (Other j) es
    → find_row j (dispatch_all env es w).table ≡ find_row j w.table
unfolding dispatch_all
dispatch_all-find_row env [] w j h = refl
dispatch_all-find_row env (e ∷ es) w j h =
    dispatch_all-find_row env es (dispatch_event env e w).1 j h.1
    ∙ Changes-find_row j e.event_id w.table h.0 (dispatch_event-Changes env e w)

dispatch_all-IsKeyed :
    (env : Env) (es : List OutboxEvent) (w : World)
    → IsKeyed w.table
    → IsKeyed (dispatch_all env es w).table
unfolding dispatch_all
dispatch_all-IsKeyed env [] w k = k
dispatch_all-IsKeyed env (e ∷ es) w k =
    dispatch_all-IsKeyed env es (dispatch_event env e w).1 (dispatch_event-IsKeyed env e w k)

fetched-Other :
    (env : Env) (locked : String → Bool) (w : World) (j : String) (r : Row) (es : List OutboxEvent)
    → IsKeyed w.table
    → find_row j w.table ≡ some r
    → IsFinal r
    → get_pending_events env.driver env.now locked env.config.batch_size w.table ≡ ok es
    → All (Other j) es
fetched-Other env locked w j r es k h f got =
    get_pending_events-All (Other j) env.driver env.now locked env.config.batch_size w.table es got
      (All-filter_of (is_ready env.now locked) j (events w.table)
        (events_final (is_ready env.now locked) j w.table r k h (not_ready env.now locked r f)))

process_batch-find_row :
    (env : Env) (locked : String → Bool) (w : World) (j : String) (r : Row)
    → IsKeyed w.table
    → find_row j w.table ≡ some r
    → IsFinal r
    → find_row j (process_batch env locked w).table ≡ some r
unfolding process_batch
process_batch-find_row env locked w j r k h f =
    elim (Result-cases
      (get_pending_events env.driver env.now locked env.config.batch_size w.table)) [
        | inr (m, e) ↦ rw (e, process_batch) h
        | inl (es, e) ↦
            rw (e, process_batch)
              (dispatch_all-find_row env es w j (fetched-Other env locked w j r es k h f e) ∙ h)
      ]

pub process_batch-IsKeyed :
    (env : Env) (locked : String → Bool) (w : World)
    → IsKeyed w.table
    → IsKeyed (process_batch env locked w).table
unfolding process_batch
process_batch-IsKeyed env locked w k =
    elim (Result-cases
      (get_pending_events env.driver env.now locked env.config.batch_size w.table)) [
        | inr (m, e) ↦ rw (e, process_batch) k
        | inl (es, e) ↦ rw (e, process_batch) (dispatch_all-IsKeyed env es w k)
      ]

-- An event that is dispatched or cancelled stays as it is through any run of one worker that alone
-- writes the table, whose keys are distinct: whatever the clock, the executors and the decoder do in
-- each batch, whichever statements the database refuses, and whichever rows other sessions hold
-- locked while it fetches, the event's row is the same at the end. Writes of other sessions, a second
-- worker's among them, are outside the run.
pub run-final :
    (ticks : List (Env × (String → Bool))) (w : World) (j : String) (r : Row)
    → IsKeyed w.table
    → find_row j w.table ≡ some r
    → IsFinal r
    → find_row j (run ticks w).table ≡ some r
unfolding run
run-final [] w j r k h f = h
run-final ((env, locked) ∷ ticks) w j r k h f =
    run-final ticks (process_batch env locked w) j r (process_batch-IsKeyed env locked w k)
      (process_batch-find_row env locked w j r k h f) f
