-- ===== src/Outbox.antt =====
-- The repository of ops.outbox_event (internal/outbox/repository.go).
-- A table is the list of its rows. Each operation is the SQL statement of the method, applied to
-- the table: the WHERE clause picks rows, the SET clause gives the new row, and the number of rows
-- affected is the number picked. `Driver` says which statements the database refuses, and with what
-- error; a refused statement changes nothing. Times are nanoseconds as integers.
mod Rows
pub mod Laws
pub mod Keys
pub mod Pending
mod Tests
pub use Rows.{OutboxEvent, Row, Table, Stmt}
use baxi.Base.{
  ℕ, zero, suc, ◌+◌, ◌≡◌, ◌&&◌, ◌||◌, not, Bool, true, false, Option, none, some, List, [], ◌∷◌,
  ◌++◌, String, str_append, ◌==◌, if◌then◌else◌, ltb, nat_eq, ℤ, leb_ℤ, filter, take, Result, ok,
  err, ◌>>=◌, ◌>>◌, check, guard, Driver, decimal, is_some,
}

-- `WHERE event_id = $1`: the number of rows picked, and the table with those rows rewritten.
abbrev pub affected : String → Table → ℕ
affected id [] = 0
affected id (r ∷ t) = let rest = affected id t in if r.event.event_id == id then suc rest else rest

abbrev pub update_where : String → (Row → Row) → Table → Table
update_where id f [] = []
update_where id f (r ∷ t) = (if r.event.event_id == id then f r else r) ∷ update_where id f t

abbrev pub find_row : String → Table → Option Row
find_row id [] = none
find_row id (r ∷ t) = if r.event.event_id == id then some r else find_row id t

-- The row that the INSERT writes: `dispatch_attempts` and the columns not listed take their
-- defaults, and `created_at` is NOW().
abbrev pub inserted_row : ℤ → OutboxEvent → Row
inserted_row now e = record {
  event = record e { created_at = now; dispatch_attempts = 0; next_retry_at = none };
  last_dispatch_at = none;
  error_message = none;
}

-- `CreateEvent`: true if a row was inserted, false on a conflict of the key.
unfoldable pub create_event : Driver Stmt → ℤ → OutboxEvent → Table → Result (Bool × Table)
create_event drv now e t = do
  check (drv (Stmt.insert e.event_id))
      (λ m. str_append "insert outbox event " (str_append e.event_id (str_append ": " m)))
  if is_some (find_row e.event_id t) then ok (false, t) else ok (true, t ++ inserted_row now e ∷ [])

-- The loop of `CreateEvents` from index `i`, with `inserted` rows so far. What was inserted before
-- an error stays in the transaction.
create_events_from : Driver Stmt → ℤ → ℕ → ℕ → List OutboxEvent → Table → ℕ × Option String × Table
create_events_from drv now i inserted [] t = (inserted, none, t)
create_events_from drv now i inserted (e ∷ es) t = elim (create_event drv now e t) [
  | err m ↦
      (inserted, some (str_append "event index " (str_append (decimal i) (str_append ": " m))), t)
  | ok (done, t') ↦
      create_events_from drv now (i + 1) (if done then inserted + 1 else inserted) es t'
]

-- `CreateEvents`: the number of new rows, and the error if there was one.
unfoldable pub create_events :
    Driver Stmt → ℤ → List OutboxEvent → Table → ℕ × Option String × Table
unfolding create_events_from
create_events drv now es t = create_events_from drv now 0 0 es t

-- `status IN ('pending', 'failed') AND (next_retry_at IS NULL OR next_retry_at <= NOW())`.
abbrev pub is_due : ℤ → Option ℤ → Bool
is_due now none = true
is_due now (some at) = leb_ℤ at now

abbrev pub is_available : ℤ → OutboxEvent → Bool
is_available now e = (e.status == "pending" || e.status == "failed") && is_due now e.next_retry_at

abbrev pub is_ready : ℤ → (String → Bool) → OutboxEvent → Bool
is_ready now locked e = is_available now e && not (locked e.event_id)

-- `ORDER BY created_at ASC`. SQL leaves the order of equal times open; this one keeps the table's.
insert_by_age : OutboxEvent → List OutboxEvent → List OutboxEvent
insert_by_age e [] = e ∷ []
insert_by_age e (d ∷ ds) =
    let rest = insert_by_age e ds in
    if leb_ℤ e.created_at d.created_at then e ∷ d ∷ ds else d ∷ rest

order_by_age : List OutboxEvent → List OutboxEvent
unfolding insert_by_age
order_by_age [] = []
order_by_age (e ∷ es) = insert_by_age e (order_by_age es)

abbrev pub events : Table → List OutboxEvent
events [] = []
events (r ∷ t) = r.event ∷ events t

-- The error of the first row whose scan fails.
abbrev pub scan_error : Driver Stmt → List OutboxEvent → Option String
scan_error drv [] = none
scan_error drv (e ∷ es) = elim (drv (Stmt.scan_event e.event_id)) [
  | some m ↦ some m
  | none ↦ scan_error drv es
]

-- `GetPendingEvents`. `locked` tells the rows that another session holds: `FOR UPDATE SKIP LOCKED`
-- passes over them before LIMIT counts.
unfoldable pub get_pending_events :
    Driver Stmt → ℤ → (String → Bool) → ℕ → Table → Result (List OutboxEvent)
unfolding order_by_age
get_pending_events drv now locked limit t =
    let es = take limit (order_by_age (filter (is_ready now locked) (events t))) in
    check (drv Stmt.select_pending) (λ m. str_append "query pending outbox events: " m)
    >> (check (scan_error drv es) (λ m. str_append "scan outbox event: " m)
        >> (check (drv Stmt.iterate_pending) (λ m. str_append "iterate outbox event rows: " m)
            >> ok es))

-- An UPDATE by key: the driver's error, or an error if no row has the key.
abbrev exec_update :
    Driver Stmt → Stmt → String → (String → String) → String → (Row → Row) → Table → Result Table
exec_update drv stmt id wrap missing f t = do
  check (drv stmt) wrap
  guard (ltb 0 (affected id t)) missing
  ok (update_where id f t)

-- The SET clauses.
abbrev pub attempted : ℤ → String → Row → Row
attempted now status r = record r {
  event = record (r.event) { status = status; dispatch_attempts = r.event.dispatch_attempts + 1 };
  last_dispatch_at = some now;
}

-- `MarkDispatched`.
unfoldable pub mark_dispatched : Driver Stmt → ℤ → String → Table → Result Table
mark_dispatched drv now id =
    exec_update drv (Stmt.mark_dispatched id) id
      (λ m. str_append "mark outbox event " (str_append id (str_append " as dispatched: " m)))
      (str_append "outbox event " (str_append id " not found for mark dispatched"))
      (attempted now "dispatched")

-- `MarkFailed`.
unfoldable pub mark_failed : Driver Stmt → ℤ → String → String → Table → Result Table
mark_failed drv now id msg =
    exec_update drv (Stmt.mark_failed id) id
      (λ m. str_append "mark outbox event " (str_append id (str_append " as failed: " m)))
      (str_append "outbox event " (str_append id " not found for mark failed"))
      (λ r. record (attempted now "failed" r) { error_message = some msg })

-- `UpdateMaxAttempts`.
unfoldable pub update_max_attempts : Driver Stmt → ℤ → String → Table → Result Table
update_max_attempts drv now id =
    exec_update drv (Stmt.update_max_attempts id) id
      (λ m. str_append "update outbox event " (str_append id (str_append " max attempts: " m)))
      (str_append "outbox event " (str_append id " not found for max attempts update"))
      (λ r. record (attempted now "failed" r) { error_message = some "max retry attempts reached" })

-- `SetNextRetryAt`.
unfoldable pub set_next_retry_at : Driver Stmt → String → ℤ → Table → Result Table
set_next_retry_at drv id at =
    exec_update drv (Stmt.set_next_retry_at id) id
      (λ m. str_append "set next_retry_at for outbox event " (str_append id (str_append ": " m)))
      (str_append "outbox event " (str_append id " not found for set next_retry_at"))
      (λ r. record r { event = record (r.event) { next_retry_at = some at } })

-- `MarkCancelled`.
unfoldable pub mark_cancelled : Driver Stmt → String → Table → Result Table
mark_cancelled drv id =
    exec_update drv (Stmt.mark_cancelled id) id
      (λ m. str_append "mark outbox event " (str_append id (str_append " as cancelled: " m)))
      (str_append "outbox event " (str_append id " not found for mark cancelled"))
      (λ r. record r { event = record (r.event) { status = "cancelled" } })

-- `GetEventByID`: no event is no error.
unfoldable pub get_event_by_id : Driver Stmt → String → Table → Result (Option OutboxEvent)
get_event_by_id drv id t = do
  check (drv (Stmt.get_event id))
      (λ m. str_append "get outbox event " (str_append id (str_append ": " m)))
  ok (elim (find_row id t) [ none ↦ none | some r ↦ some r.event ])
