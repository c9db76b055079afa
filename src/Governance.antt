-- ===== src/Governance.antt =====
-- The governance of data and actions (internal/governance): access policies, redaction, field
-- markings, checkpoints, the lineage of tables and the versions of configurations.
pub mod Access
pub mod Redaction
pub mod Marking
pub mod Checkpoint
pub mod Lineage
pub mod Versions
