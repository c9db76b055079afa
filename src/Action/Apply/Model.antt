-- ===== src/Action/Apply/Model.antt =====
-- What an execution returns, the statements it sends, and what it sees of the outside
-- (internal/action/apply_service.go).
use baxi.Base.{Bool, Option, List, String, ℤ, Driver, Result}
use baxi.Json.{Fields}
use baxi.Outbox
use baxi.Store.{Db}
use baxi.Action.Model.{Executor}
use baxi.Action.Registry.{ActionRegistry}

-- The sentinel errors, a wrapped error with its context and its cause, and an error as it is.
pub data ApplyError : Type 0 where
  not_approved action_not_allowed proposal_not_found lineage_incomplete : ApplyError
  live_execution_disabled : ApplyError
  wrapped : String → String → ApplyError
  plain : String → ApplyError

pub data Outcome (A : Type 0) : Type 0 where
  done : A → Outcome A
  failed : ApplyError → Outcome A

infixl 5 ◌>>=◌ ◌>>◌
abbrev pub ◌>>=◌ : {A B : Type 0} → Outcome A → (A → Outcome B) → Outcome B
done a >>= f = f a
failed e >>= f = failed e

abbrev pub ◌>>◌ : {B : Type 0} → Outcome (Unit {0}) → Outcome B → Outcome B
m >> k = m >>= λ _. k

-- The statements, an update of the status with the status that it sets.
pub data Stmt : Type 0 where
  select_proposal begin update_applied insert_audit commit : Stmt
  update_status : String → Stmt

-- The service and its surroundings: the value of BAXI_ALLOW_LIVE_EXECUTION, the registry, the
-- executors by channel, the lineage verifier if one is attached, the driver, JSON, and the time with
-- the event's id and the text made from it.
pub record Env : Type 0 where
  pub allow_live : String
  pub registry : ActionRegistry
  pub executors : List (String × Executor)
  pub lineage_verify : Option (String → Result Bool)
  pub driver : Driver Stmt
  pub outbox_driver : Driver Outbox.Stmt
  pub unmarshal : String → Option Fields
  pub marshal : Fields → Result String
  pub now : ℤ
  pub now_text : String
  pub event_id : String

-- The tables, and the proposals that an executor was called with, in order. A call stays when the
-- transaction is rolled back.
pub record World : Type 0 where
  pub db : Db
  pub calls : List String
