-- ===== src/Analysis.antt =====
-- crates/zag-analysis: the passes over the fact tables.
pub mod Buckets
pub mod CallGraph
pub mod Provenance
pub mod Ownership
