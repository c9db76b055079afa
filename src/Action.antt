-- ===== src/Action.antt =====
-- The action package (internal/action): proposals, the registry that whitelists action types,
-- their execution, and the outbox events that follow it.
pub mod Model
pub mod Registry
pub mod Apply
pub mod Generate
