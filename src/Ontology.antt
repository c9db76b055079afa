-- ===== src/Ontology.antt =====
-- The ontology (internal/ontology): the plans of its links.
pub mod Quoting
pub mod Links
mod Tests
