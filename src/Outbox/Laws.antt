-- ===== src/Outbox/Laws.antt =====
-- What the statements of internal/outbox/repository.go do to the table, row by row.
use mathlib.Core.Option
use baxi.Base.{
  ℕ, ◌+◌, ◌<◌, ◌≡◌, ◌∙◌, refl, Bool, true, false, none, some, List, [], ◌∷◌, ◌++◌, String, ◌==◌,
  if◌then◌else◌, inl, inr, ℤ, Result, ok, Driver, arith, eq_iff, eq_refl, Bool-cases, is_some,
  length, length-append, Result-cases,
}
use baxi.Outbox.{
  OutboxEvent, Row, Table, Stmt, affected, update_where, find_row, inserted_row, create_event,
  create_events_from, create_events, attempted, mark_dispatched, mark_failed, update_max_attempts,
  set_next_retry_at, mark_cancelled, exec_update,
}

-- The change keeps the row's key.
abbrev pub KeepsKey : (Row → Row) → Type 0
KeepsKey f = (r : Row) → (f r).event.event_id ≡ r.event.event_id

pub find_row-update_where :
    (j id : String) (f : Row → Row) (t : Table)
    → KeepsKey f
    → find_row j (update_where id f t)
      ≡ (if id == j then Option.map f (find_row j t) else find_row j t)
find_row-update_where j id f [] k = elim (Bool-cases (id == j)) [ inl e ↦ rw e | inr e ↦ rw e ]
find_row-update_where j id f (r ∷ t) k = ground (
  arith,
  k r,
  eq_iff r.event.event_id id,
  eq_iff r.event.event_id j,
  eq_iff (f r).event.event_id j,
  eq_iff id j,
  find_row-update_where j id f t k,
)

-- A statement by key affects some row exactly where the key has a row.
pub affected-pos : (id : String) (t : Table) (r : Row) → find_row id t ≡ some r → 0 < affected id t
affected-pos id [] r h = cc
affected-pos id (s ∷ t) r h = ground (arith, affected-pos id t r)

pub affected-none : (id : String) (t : Table) → find_row id t ≡ none → affected id t ≡ 0
affected-none id [] h = refl
affected-none id (r ∷ t) h = ground (arith, affected-none id t)

-- The statement succeeds; under the key stands the new row, and every other key keeps its row.
abbrev pub Rewrites : String → Row → Table → Result Table → Type 0
Rewrites id r' t res =
    (t' : Table) × (res ≡ ok t')
    × ((j : String) → find_row j t' ≡ (if id == j then some r' else find_row j t))

exec_update-Rewrites :
    (drv : Driver Stmt) (stmt : Stmt) (id : String) (wrap : String → String) (missing : String)
    (f : Row → Row) (t : Table) (r : Row)
    → KeepsKey f
    → drv stmt ≡ none
    → find_row id t ≡ some r
    → Rewrites id (f r) t (exec_update drv stmt id wrap missing f t)
exec_update-Rewrites drv stmt id wrap missing f t r k accept found =
    (update_where id f t, ground (arith, affected-pos id t r), after)
  where
    after :
        (j : String)
        → find_row j (update_where id f t) ≡ (if id == j then some (f r) else find_row j t)
    after j = ground (arith, find_row-update_where j id f t k, eq_iff id j)

module _ (drv : Driver Stmt) (now : ℤ) (id : String) (t : Table) (r : Row) where
  -- Where the database accepts every statement and the key has a row, each of the five statements
  -- by key succeeds and rewrites that row alone: `MarkDispatched`, `MarkFailed` and
  -- `UpdateMaxAttempts` set the status, count one attempt more, record the time and (the last two)
  -- the error; `SetNextRetryAt` sets the retry time; `MarkCancelled` sets the status.
  pub updates-Rewrites :
      (msg : String) (at : ℤ)
      → ((stmt : Stmt) → drv stmt ≡ none)
      → find_row id t ≡ some r
      → Rewrites id
          (record r {
            event = record (r.event) {
              status = "dispatched";
              dispatch_attempts = r.event.dispatch_attempts + 1;
            };
            last_dispatch_at = some now;
          })
          t
          (mark_dispatched drv now id t)
        × Rewrites id
            (record r {
              event = record (r.event) {
                status = "failed";
                dispatch_attempts = r.event.dispatch_attempts + 1;
              };
              last_dispatch_at = some now;
              error_message = some msg;
            })
            t
            (mark_failed drv now id msg t)
        × Rewrites id
            (record r {
              event = record (r.event) {
                status = "failed";
                dispatch_attempts = r.event.dispatch_attempts + 1;
              };
              last_dispatch_at = some now;
              error_message = some "max retry attempts reached";
            })
            t
            (update_max_attempts drv now id t)
        × Rewrites id
            (record r { event = record (r.event) { next_retry_at = some at } })
            t
            (set_next_retry_at drv id at t)
        × Rewrites id
            (record r { event = record (r.event) { status = "cancelled" } })
            t
            (mark_cancelled drv id t)
  unfolding mark_dispatched mark_failed update_max_attempts set_next_retry_at mark_cancelled
  updates-Rewrites msg at accept found = (
    exec_update-Rewrites drv _ id _ _ (attempted now "dispatched") t r (λ s. refl) (accept _) found,
    exec_update-Rewrites drv _ id _ _
        (λ s. record (attempted now "failed" s) { error_message = some msg }) t r (λ s. refl)
        (accept _) found,
    exec_update-Rewrites drv _ id _ _
        (λ s. record (attempted now "failed" s) {
          error_message = some "max retry attempts reached";
        })
        t r (λ s. refl) (accept _) found,
    exec_update-Rewrites drv _ id _ _
        (λ s. record s { event = record (s.event) { next_retry_at = some at } }) t r (λ s. refl)
        (accept _) found,
    exec_update-Rewrites drv _ id _ _
        (λ s. record s { event = record (s.event) { status = "cancelled" } }) t r (λ s. refl)
        (accept _) found,
  )

pub find_row-append :
    (j : String) (t : Table) (r : Row)
    → find_row j (t ++ r ∷ []) ≡ (
        if is_some (find_row j t)
        then find_row j t
        else if r.event.event_id == j
        then some r
        else none)
find_row-append j [] r = refl
find_row-append j (s ∷ t) r = ground (arith, find_row-append j t r)

-- `CreateEvent` twice: the second call inserts nothing and leaves the table as the first made it,
-- and the key has a row.
pub create_event_idem :
    (drv : Driver Stmt) (now later : ℤ) (e : OutboxEvent) (t : Table) (inserted : Bool) (t' : Table)
    → create_event drv now e t ≡ ok (inserted, t')
    → (create_event drv later e t' ≡ ok (false, t')) × (is_some (find_row e.event_id t') ≡ true)
unfolding create_event
create_event_idem drv now later e t inserted t' h =
    ground (arith, find_row-append e.event_id t (inserted_row now e), eq_refl e.event_id)

-- One call inserts at most one row, counts it, and keeps the rows that were there.
create_event-length :
    (drv : Driver Stmt) (now : ℤ) (e : OutboxEvent) (t : Table) (done : Bool) (t' : Table)
    → create_event drv now e t ≡ ok (done, t')
    → length t' ≡ length t + (if done then 1 else 0)
unfolding create_event
create_event-length drv now e t done t' h =
    ground (arith, length-append t (inserted_row now e ∷ []))

create_events_from-length :
    (drv : Driver Stmt) (now : ℤ) (i n : ℕ) (es : List OutboxEvent) (t : Table)
    → let (total, _, t') = create_events_from drv now i n es t in length t' + n ≡ length t + total
unfolding create_events_from
create_events_from-length drv now i n [] t = refl
create_events_from-length drv now i n (e ∷ es) t = elim (Result-cases (create_event drv now e t)) [
  | inr (m, h) ↦ rw (h, create_events_from) refl
  | inl ((true, t'), h) ↦
      rw (h, create_events_from)
        (omega (
          arith,
          create_event-length drv now e t true t' h,
          create_events_from-length drv now (i + 1) (n + 1) es t',
        ))
  | inl ((false, t'), h) ↦
      rw (h, create_events_from)
        (omega (
          arith,
          create_event-length drv now e t false t' h,
          create_events_from-length drv now (i + 1) n es t',
        ))
]

-- The number that `CreateEvents` returns is the number of rows by which the table has grown, also
-- where an error stopped the loop.
pub create_events-length :
    (drv : Driver Stmt) (now : ℤ) (es : List OutboxEvent) (t : Table)
    → let (total, _, t') = create_events drv now es t in length t' ≡ length t + total
unfolding create_events
create_events-length drv now es t = omega (arith, create_events_from-length drv now 0 0 es t)

-- A statement by key that succeeds has rewritten the rows of its key, and no more.
pub exec_update-eq :
    (drv : Driver Stmt) (stmt : Stmt) (id : String) (wrap : String → String) (missing : String)
    (f : Row → Row) (t t' : Table)
    → exec_update drv stmt id wrap missing f t ≡ ok t'
    → t' ≡ update_where id f t
exec_update-eq drv stmt id wrap missing f t t' h = ground arith

-- What a run of statements on one key can make of a table.
pub data Changes (id : String) (t : Table) : Table → Type 0 where
  same : Changes id t t
  update :
      {u : Table} (f : Row → Row) → KeepsKey f → Changes id t u → Changes id t (update_where id f u)

-- Statements on one key leave the rows of every other key.
pub Changes-find_row :
    (j id : String) (t : Table) {u : Table}
    → (id == j) ≡ false
    → Changes id t u
    → find_row j u ≡ find_row j t
Changes-find_row j id t h same = refl
Changes-find_row j id t h (update {u = v} f k c) =
    find_row-update_where j id f v k ∙ rw h (Changes-find_row j id t h c)

module _ (drv : Driver Stmt) (now at : ℤ) (id msg : String) (t t' : Table) where
  pub mark_dispatched-Changes : mark_dispatched drv now id t ≡ ok t' → Changes id t t'
  unfolding mark_dispatched
  mark_dispatched-Changes h =
      rw (exec_update-eq drv _ id _ _ (attempted now "dispatched") t t' h)
        (update _ (λ r. refl) same)

  pub mark_failed-Changes : mark_failed drv now id msg t ≡ ok t' → Changes id t t'
  unfolding mark_failed
  mark_failed-Changes h =
      rw
        (exec_update-eq drv _ id _ _
          (λ r. record (attempted now "failed" r) { error_message = some msg }) t t' h)
        (update _ (λ r. refl) same)

  pub update_max_attempts-Changes : update_max_attempts drv now id t ≡ ok t' → Changes id t t'
  unfolding update_max_attempts
  update_max_attempts-Changes h =
      rw
        (exec_update-eq drv _ id _ _
          (λ r. record (attempted now "failed" r) {
            error_message = some "max retry attempts reached";
          })
          t t' h)
        (update _ (λ r. refl) same)

  pub set_next_retry_at-Changes :
      {u : Table} → Changes id u t → set_next_retry_at drv id at t ≡ ok t' → Changes id u t'
  unfolding set_next_retry_at
  set_next_retry_at-Changes c h =
      rw
        (exec_update-eq drv _ id _ _
          (λ r. record r { event = record (r.event) { next_retry_at = some at } }) t t' h)
        (update _ (λ r. refl) c)

-- The table that `UpdateMaxAttempts` leaves.
pub update_max_attempts-eq :
    (drv : Driver Stmt) (now : ℤ) (id : String) (t t' : Table)
    → update_max_attempts drv now id t ≡ ok t'
    → t'
      ≡ update_where id
          (λ r. record (attempted now "failed" r) {
            error_message = some "max retry attempts reached";
          })
          t
unfolding update_max_attempts
update_max_attempts-eq drv now id t t' h =
    exec_update-eq drv _ id _ _
      (λ r. record (attempted now "failed" r) { error_message = some "max retry attempts reached" })
      t t' h
