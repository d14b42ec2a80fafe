-- ===== src/Tests.antt =====
-- Runs of the models on a small program, and the theorems at that program.
mod Sample
mod Analysis
mod Ownership
mod Facts
mod Validate
mod Build
mod Repair
