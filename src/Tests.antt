-- ===== src/Tests.antt =====
-- Concrete runs of the program on a small database.
pub mod Sample
pub mod Domain
pub mod Workflow
pub mod Suggestion
pub mod Runs
pub mod Tables
pub mod Worker
pub mod Api
pub mod Tasks
