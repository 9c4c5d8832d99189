-- ===== src/Samples.antt =====
-- Concrete databases, runs of the model on them, and the theorems applied to them.
pub mod Rows
pub mod Runs
pub mod Decisions
pub mod Engines
pub mod Starts
pub mod Routes
