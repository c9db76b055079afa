-- ===== src/Outbox/Keys.antt =====
-- The primary key of ops.outbox_event: no operation makes two rows with one key.
use baxi.Base.{
  ℕ, ◌+◌, ◌≡◌, refl, Bool, none, List, [], ◌∷◌, ◌++◌, String, if◌then◌else◌, inl, inr, ℤ, Result,
  ok, err, Driver, arith, ==_comm, Result-cases,
}
use baxi.Outbox.{
  OutboxEvent, Row, Table, Stmt, update_where, find_row, inserted_row, create_event,
  create_events_from, create_events, mark_dispatched, mark_failed, update_max_attempts,
  set_next_retry_at, mark_cancelled, exec_update,
}
use baxi.Outbox.Laws.{Changes, same, update, KeepsKey, find_row-update_where, find_row-append}

-- Every row's key is missing among the rows below it.
abbrev pub IsKeyed : Table → Type 0
IsKeyed [] = Unit
IsKeyed (r ∷ t) = (find_row r.event.event_id t ≡ none) × IsKeyed t

update_where-IsKeyed :
    (id : String) (f : Row → Row) (t : Table)
    → KeepsKey f
    → IsKeyed t
    → IsKeyed (update_where id f t)
update_where-IsKeyed id f [] k h = tt
update_where-IsKeyed id f (r ∷ t) k h = ground (
  arith,
  k r,
  update_where-IsKeyed id f t k h.1,
  find_row-update_where r.event.event_id id f t k,
  find_row-update_where (f r).event.event_id id f t k,
)

append-IsKeyed :
    (t : Table) (r : Row) → IsKeyed t → find_row r.event.event_id t ≡ none → IsKeyed (t ++ r ∷ [])
append-IsKeyed [] r h n = (refl, tt)
append-IsKeyed (s ∷ t) r h n = ground (
  arith,
  append-IsKeyed t r h.1,
  find_row-append s.event.event_id t r,
  ==_comm s.event.event_id r.event.event_id,
)

pub create_event-IsKeyed :
    (drv : Driver Stmt) (now : ℤ) (e : OutboxEvent) (t : Table) (done : Bool) (t' : Table)
    → IsKeyed t
    → create_event drv now e t ≡ ok (done, t')
    → IsKeyed t'
unfolding create_event
create_event-IsKeyed drv now e t done t' k h =
    ground (arith, append-IsKeyed t (inserted_row now e) k)

create_events_from-IsKeyed :
    (drv : Driver Stmt) (now : ℤ) (i n : ℕ) (es : List OutboxEvent) (t : Table)
    → IsKeyed t
    → IsKeyed (create_events_from drv now i n es t).2
unfolding create_events_from
create_events_from-IsKeyed drv now i n [] t k = k
create_events_from-IsKeyed drv now i n (e ∷ es) t k =
    elim (Result-cases (create_event drv now e t)) [
      | inr (m, h) ↦ rw (h, create_events_from) k
      | inl ((done, t'), h) ↦
          rw (h, create_events_from)
            (create_events_from-IsKeyed drv now (i + 1) (if done then n + 1 else n) es t'
              (create_event-IsKeyed drv now e t done t' k h))
    ]

-- What a statement's result says of the table that it leaves.
abbrev pub Keeps : Result Table → Type 0
Keeps (ok t') = IsKeyed t'
Keeps (err e) = Unit

exec_update-IsKeyed :
    (drv : Driver Stmt) (stmt : Stmt) (id : String) (wrap : String → String) (missing : String)
    (f : Row → Row) (t : Table)
    → KeepsKey f
    → IsKeyed t
    → Keeps (exec_update drv stmt id wrap missing f t)
exec_update-IsKeyed drv stmt id wrap missing f t k h =
    ground (arith, update_where-IsKeyed id f t k h)

-- The key stays a key: under every operation of the repository, whatever the database refuses, a
-- table with distinct keys is left with distinct keys.
pub operations-IsKeyed :
    (drv : Driver Stmt) (now at : ℤ) (id msg : String) (es : List OutboxEvent) (t : Table)
    → IsKeyed t
    → IsKeyed (create_events drv now es t).2
      × Keeps (mark_dispatched drv now id t)
      × Keeps (mark_failed drv now id msg t)
      × Keeps (update_max_attempts drv now id t)
      × Keeps (set_next_retry_at drv id at t)
      × Keeps (mark_cancelled drv id t)
unfolding create_events mark_dispatched mark_failed update_max_attempts set_next_retry_at
    mark_cancelled
operations-IsKeyed drv now at id msg es t k = (
  create_events_from-IsKeyed drv now 0 0 es t k,
  exec_update-IsKeyed drv _ id _ _ _ t (λ r. refl) k,
  exec_update-IsKeyed drv _ id _ _ _ t (λ r. refl) k,
  exec_update-IsKeyed drv _ id _ _ _ t (λ r. refl) k,
  exec_update-IsKeyed drv _ id _ _ _ t (λ r. refl) k,
  exec_update-IsKeyed drv _ id _ _ _ t (λ r. refl) k,
)

pub Changes-IsKeyed : (id : String) (t : Table) {u : Table} → IsKeyed t → Changes id t u → IsKeyed u
Changes-IsKeyed id t k same = k
Changes-IsKeyed id t k (update {u = v} f kf c) =
    update_where-IsKeyed id f v kf (Changes-IsKeyed id t k c)
