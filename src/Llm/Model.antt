-- ===== src/Llm/Model.antt =====
-- The data of decisions (internal/llm/provider.go).
use baxi.Base.{Bool, Number, Option, List, String, ℕ, Result}
use baxi.Json.{Fields}

-- `EnrichedObjectData`.
pub record EnrichedObjectData : Type 0 where
  pub link_name : String
  pub depth : ℕ
  pub object_type : String
  pub object_id : String
  pub properties : Fields

-- `TriggerInfo`.
pub record TriggerInfo : Type 0 where
  pub alert_id : String
  pub rule_id : String
  pub severity : String
  pub metric_name : String
  pub current_value : Number
  pub baseline_value : Number
  pub delta_pct : Number

-- `ObjectContext`.
pub record ObjectContext : Type 0 where
  pub object_type : String
  pub object_id : String
  pub properties : Fields

-- `GovernanceInfo`.
pub record GovernanceInfo : Type 0 where
  pub classification : String
  pub redaction_applied : Bool
  pub redacted_fields : List String
  pub role : String
  pub repair_errors : List String

-- `LLMSafeContext`.
pub record LlmSafeContext : Type 0 where
  pub case_id : String
  pub trigger : TriggerInfo
  pub object_context : ObjectContext
  pub governance_info : GovernanceInfo
  pub allowed_actions : List String
  pub forbidden_actions : List String
  pub enriched_objects : List EnrichedObjectData

-- `RecommendedAction`. A nil payload is `none`.
pub record RecommendedAction : Type 0 where
  pub action_type : String
  pub priority : String
  pub owner_role : String
  pub payload : Option Fields

-- `DecisionOutput`.
pub record DecisionOutput : Type 0 where
  pub schema_version : String
  pub decision_type : String
  pub severity : String
  pub summary : String
  pub rationale : List String
  pub recommended_actions : List RecommendedAction
  pub confidence : Number
  pub requires_human_review : Bool
  pub evidence_refs : List String
  pub recipe_id : String

-- `DecisionProvider`: its `GenerateDecision`, which may return a nil output.
abbrev pub Provider : Type 0
Provider = LlmSafeContext → Result (Option DecisionOutput)
