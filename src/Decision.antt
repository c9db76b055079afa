-- ===== src/Decision.antt =====
-- Decision cases and the decisions on them (internal/decision, internal/repository/decision).
pub mod Repository
pub mod Cases
pub mod Engine
pub mod Context
