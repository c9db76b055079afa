-- ===== src/Service.antt =====
-- The services over the components (internal/service).
pub mod Decision
