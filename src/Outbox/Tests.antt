-- ===== src/Outbox/Tests.antt =====
-- Runs of the outbox repository, and its theorems at inputs that meet their hypotheses.
use mathlib.Core.List.{Perm}
use baxi.Base.{
  ◌+◌, ◌≤◌, ◌≡◌, refl, ◌⊎◌, Bool, false, none, some, List, [], ◌∷◌, ◌++◌, String, pos, ok, err,
  Driver, filter, length, All, decimal,
}
use baxi.Outbox.{
  OutboxEvent, Row, Table, Stmt, create_event, create_events, get_pending_events, mark_dispatched,
  mark_failed, update_max_attempts, set_next_retry_at, mark_cancelled, get_event_by_id, events,
  is_ready, inserted_row,
}
use baxi.Outbox.Laws.{Rewrites, updates-Rewrites}
use baxi.Outbox.Pending.{IsReady, IsOrdered, NoYounger, get_pending_events-oldest}

abbrev working : Driver Stmt
working s = none

abbrev event : String → OutboxEvent
event id = record {
  event_id = id;
  source_type = "action_execution";
  source_id = "prop_1";
  event_type = "notify_owner";
  status = "pending";
  payload = "{}";
  target_channel = "feishu";
  created_at = pos 0;
  dispatch_attempts = 0;
  next_retry_at = none;
}

abbrev older : Row
older = inserted_row (pos 5) (event "a")

abbrev waiting : Row
waiting = record older {
  event = record (event "b") {
    created_at = pos 3;
    status = "failed";
    next_retry_at = some (pos 90);
  };
}

abbrev young : Row
young = inserted_row (pos 9) (event "c")

abbrev table : Table
table = young ∷ waiting ∷ older ∷ []

abbrev unlocked : String → Bool
unlocked id = false

-- "b" waits for its retry, so "a" is the oldest event that is ready.
fetch_one : get_pending_events working (pos 10) unlocked 1 table ≡ ok (older.event ∷ [])
unfolding get_pending_events
fetch_one = refl

fetch_later :
    get_pending_events working (pos 90) unlocked 2 table ≡ ok (waiting.event ∷ older.event ∷ [])
unfolding get_pending_events
fetch_later = refl

create_twice :
    create_events working (pos 1) (event "d" ∷ event "a" ∷ event "d" ∷ []) table
    ≡ (1, none, young ∷ waiting ∷ older ∷ inserted_row (pos 1) (event "d") ∷ [])
unfolding create_events create_event
create_twice = refl

refused :
    create_events (λ s. some "conn closed") (pos 1) (event "d" ∷ []) table
    ≡ (0, some "event index 0: insert outbox event d: conn closed", table)
unfolding create_events create_event decimal
refused = refl

no_row :
    mark_failed working (pos 1) "z" "boom" table ≡ err "outbox event z not found for mark failed"
unfolding mark_failed
no_row = refl

get_event : get_event_by_id working "c" table ≡ ok (some young.event)
unfolding get_event_by_id
get_event = refl

updates-Rewrites_example :
    Rewrites "a"
      (record older {
        event = record (older.event) {
          status = "dispatched";
          dispatch_attempts = older.event.dispatch_attempts + 1;
        };
        last_dispatch_at = some (pos 7);
      })
      table
      (mark_dispatched working (pos 7) "a" table)
    × Rewrites "a"
        (record older {
          event = record (older.event) {
            status = "failed";
            dispatch_attempts = older.event.dispatch_attempts + 1;
          };
          last_dispatch_at = some (pos 7);
          error_message = some "boom";
        })
        table
        (mark_failed working (pos 7) "a" "boom" table)
    × Rewrites "a"
        (record older {
          event = record (older.event) {
            status = "failed";
            dispatch_attempts = older.event.dispatch_attempts + 1;
          };
          last_dispatch_at = some (pos 7);
          error_message = some "max retry attempts reached";
        })
        table
        (update_max_attempts working (pos 7) "a" table)
    × Rewrites "a"
        (record older { event = record (older.event) { next_retry_at = some (pos 60) } })
        table
        (set_next_retry_at working "a" (pos 60) table)
    × Rewrites "a"
        (record older { event = record (older.event) { status = "cancelled" } })
        table
        (mark_cancelled working "a" table)
updates-Rewrites_example =
    updates-Rewrites working (pos 7) "a" table older "boom" (pos 60) (λ s. refl) refl

get_pending_events-oldest_example :
    (rest : List OutboxEvent) × Perm
      ((older.event ∷ []) ++ rest)
      (filter (is_ready (pos 10) unlocked) (events table))
    × All (IsReady (pos 10) unlocked) (older.event ∷ [])
    × IsOrdered (older.event ∷ [])
    × All (λ e. All (NoYounger e) rest) (older.event ∷ [])
    × (length (older.event ∷ []) ≤ 1)
    × ((rest ≡ []) ⊎ (length (older.event ∷ []) ≡ 1))
get_pending_events-oldest_example =
    get_pending_events-oldest working (pos 10) unlocked 1 table (older.event ∷ []) fetch_one
