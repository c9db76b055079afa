-- ===== src/Llm.antt =====
-- The decisions that a language model or the rules propose (internal/llm): their data, the validator
-- of a decision, and the rule-based provider.
pub mod Model
pub mod Validator
pub mod RuleProvider
pub mod Laws
mod Tests
