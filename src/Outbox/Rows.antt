-- ===== src/Outbox/Rows.antt =====
-- The rows of ops.outbox_event and the statements on them (internal/outbox/repository.go).
use baxi.Base.{ℕ, Option, List, String, ℤ}

-- `OutboxEvent`.
pub record OutboxEvent : Type 0 where
  pub event_id : String
  pub source_type : String
  pub source_id : String
  pub event_type : String
  pub status : String
  pub payload : String
  pub target_channel : String
  pub created_at : ℤ
  pub dispatch_attempts : ℕ
  pub next_retry_at : Option ℤ

-- A row: the columns that `OutboxEvent` scans, and two that only the statements write.
pub record Row : Type 0 where
  pub event : OutboxEvent
  pub last_dispatch_at : Option ℤ
  pub error_message : Option String

abbrev pub Table : Type 0
Table = List Row

-- The statements of the methods, each at the event that it names; the scan of a row that a query
-- returned, and the end of its rows, can fail too.
pub data Stmt : Type 0 where
  begin commit insert mark_dispatched mark_failed update_max_attempts : String → Stmt
  set_next_retry_at get_event mark_cancelled : String → Stmt
  scan_event : String → Stmt
  select_pending iterate_pending : Stmt
