-- ===== src/Workflow.antt =====
-- The durable workflow engine, app/services/workflow_execution_service.py.
pub mod Store
pub mod Latest
pub mod Claim
pub mod Finish
pub mod Outcome
pub mod Ready
pub mod Readiness
pub mod Cancel
pub mod Upstream
pub mod Gate
pub mod Decision
pub mod Depth
pub mod Closing
pub mod Moves
pub mod Keeps
pub mod Stopping
pub mod Stopped
pub mod Lineage
pub mod Provenance
pub mod Evaluation
pub mod Dispatch
pub mod Advance
pub mod Reconcile
pub mod Start
pub mod Dispatched
pub mod Advanced
pub mod Reconciled
pub mod Swept
pub mod Started
pub mod Retry
pub mod RetryNode
pub mod Retried
pub mod Resolved
pub mod Engine
pub mod Barred
pub mod Attempts
pub mod RetryRules
