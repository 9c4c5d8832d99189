-- ===== src/Lib.antt =====
-- This library models the service core of the multi-agent platform: the durable job queue, the
-- workflow engine, human approvals, project access, the model router, the budget governor, the
-- idempotency keys and the structural checks of a workflow graph. The program is a Python service over
-- SQLAlchemy sessions; what it promises rests on conditional UPDATEs ("compare and swap"), their row
-- counts and the order of commits, and that is what is modelled.
--
-- How the parts interact. Workers lease jobs from the queue; the engine creates a job for a node that
-- it dispatches. A human decision enters through the approval service, which writes the decision and
-- lets the engine move the gate's node run in the same transaction; a cancelled or failed run closes
-- its gates through the approval service. What follows an agent's end, a decision or a sweep dispatches
-- the next nodes. The router picks the model of an agent run. Access is checked before every decision. The budget governor
-- and the idempotency keys are used by the execution service and by the API. A workflow is published only after the checks of its graph.
--
-- Which file models which part:
--   Base              lists as tables, Boolean tests, stable sorting, membership, primary keys
--   Schema            rows and statuses: app/models/*.py, app/db/enums.py
--   Effects           app/errors.py; writes that may raise
--   JobQueue          app/repositories/job_queue_repository.py: `enqueue`, `claim_one` (its SELECT is
--                     `select_candidate`, its UPDATE `claim_candidate`), `heartbeat`, `complete`
--   Access            app/authz.py: `role_permits`, `check_project_access`
--   Workflow/Store    app/services/workflow_execution_service.py: `_fresh_*`, `_latest_by_node`,
--                     `_cas_node_run`, `_cas_run`, `_claim_pending_node`, `_has_failed_node`
--   Workflow/Ready    ... `_find_ready_nodes`, `_only_humans_left_to_act`, `_sync_run_state`
--   Workflow/Finish   ... `_check_workflow_complete`
--   Workflow/Cancel   ... `_cancel_pending_nodes`, `_close_waiting_approval_nodes`,
--                     `_signal_active_agents`, `_propagate_failure`, `_fail_node_at_dispatch`,
--                     `cancel_workflow_run`
--   Workflow/Upstream ... `_upstream_sources`, `_artifact_content_hash`, `_approval_action_payload`
--   Workflow/Gate     ... `apply_approval_decision`
--   Workflow/Lineage  ... `_upstream_evidence`, `_collect_upstream_artifacts`
--   Workflow/Evaluation
--                     ... `_dispatch_evaluation`, `_evaluation_outcome`; `verify_artifact_bytes` of
--                     app/services/evaluation_execution_service.py
--   Workflow/Dispatch ... `_dispatch_node_for_execution`, `_dispatch_human_approval`
--   Workflow/Advance  ... `on_agent_run_complete`, `_advance_run`, `_schedule_ready_nodes`
--   Workflow/Reconcile
--                     ... `reconcile_workflow_run`, `reconcile_active_runs`, `_heal_agent_nodes`,
--                     `_reconcile_waiting_approval`, `_reconcile_cancelling`,
--                     `after_approval_resolved`
--   Workflow/Start    ... `start_workflow_run`, `start_workflow_run_from_task`
--   Workflow/Moves    the abstract machine: how a node run, a run and an approval may change
--   Workflow/Resolved the engine as the approval service sees it
--   Workflow/Retry, Workflow/RetryNode
--                     ... `retry_mode`, `_fail_fast_cancellation_plan`, `_resume_failed_run`,
--                     `retry_failed_agent_node`
--   Workflow/Engine   sequences of the engine's operations other than retries
--   Workflow/Attempts sequences with retries
--   Routing/Catalog   app/model_resolution.py: exclusions and tie-break; app/domain/pricing.py
--   Routing/Evidence  app/routing_evidence.py
--   Routing/Route     app/model_resolution.py: `route`, `route_auto`, `route_manual`,
--                     `_apply_evidence`
--   Approval          app/services/approval_service.py: `request_approval`, `resolve`,
--                     `_compare_and_swap_decision`, `expire_pending_for_cancellation`
--   Budget            app/services/budget_service.py
--   Idempotency       app/repositories/idempotency_repository.py, app/services/idempotency_service.py
--   Validation        app/services/workflow_validation_service.py: the checks of edges, entry and
--                     terminal nodes, `_validate_all_nodes_reachable`,
--                     `_validate_all_paths_reach_terminal`, `_validate_connectivity`
--   Validation/Branches
--                     ... `_validate_no_conditional_edges`, `_validate_max_fan_out`
--   */Samples, Samples  concrete runs, and the theorems applied to them
-- The other files hold the proofs.
--
-- How state is modelled. A table is the list of its rows in the order of insertion; `UPDATE .. WHERE` is
-- `update_where` and its row count `count_where`. A method that writes takes the database and returns
-- the new one, beside its result or its error. What was committed before an error stays; what is rolled
-- back is restored. UUIDs, texts and points in time are numbers, since the code only compares them; the
-- clock `now` is an argument, the same one throughout a call. An ORM row that was read earlier is an
-- argument of its own (`decide` of the approval service), so that a stale read is covered.
--
-- Parameters. `Outside` (Workflow/Upstream) is what lies outside the repository: the SHA-256 of a
-- canonical JSON payload, the hash of a stored file and `str.strip`. `Engine` (Approval/Resolve) is the
-- interface through which the approval service calls the engine, with the two laws that the service
-- relies on; Workflow/Resolved fills it with `apply_approval_decision` and
-- `after_approval_resolved`. `ExecutionServices` (Workflow/Evaluation) is what the engine calls of the
-- evaluation, validation and execution services: building an evaluation, reading its verdict,
-- finalizing it, the check of its dependencies, and finalizing an interrupted agent run. Its laws say
-- that these leave node runs, runs and approvals alone: they write tables of their own.
--
-- `RetryReads` (Workflow/Retry) holds the reads of a retry that lie in other services.
--
-- Bounds. `sync_rounds` has the source's own four rounds. `upstream_sources` takes the length of a chain
-- of gates as fuel: the source recurses without a bound, and a graph without cycles has no chain longer
-- than its number of nodes, which is what `gate_fuel` gives.
-- A scheduling pass is repeated at most once for each node run and once more, as in the source.
-- The searches of the graph checks get one round for each start and each arc, since a node's arcs are
-- queued only when it is visited.
--
-- Simplifications. Budget amounts are whole non-negative numbers of 10^-14, so the rounding of Decimal
-- and of the column's eight digits is not modelled, and a price below 0, which the source classifies as
-- UNKNOWN, does not occur. `reserve` and `try_begin` are calls that no other call interrupts; what they
-- write after their SELECT is a function of its own over what was read (`reserve_seeing`,
-- `begin_existing`), which the steps of Budget/Limits and Idempotency/Guard use with outdated reads. The
-- UPDATE of a reclaimed key writes both of its columns, also where one has the value already.
-- SQL leaves the order of jobs of equal age open, here the first row wins. A call of the engine is
-- modelled as it runs alone, apart from the stale rows above. Fresh UUIDs come from the counter
-- `next_id`. Prices are whole non-negative numbers, and the router's shares are fractions that are
-- compared exactly, where the source divides floats. The insert of a missing node run does not collide,
-- since no other writer is between it and the read before it. A reported issue names nodes by their ids
-- where the source's text has their keys.
--
-- Not modelled: the checks of a graph's cycles and of its nodes' configurations, which read other
-- tables, and `validate`, which runs all checks and raises what they report; the execution service and
-- the worker's loop; the texts, records and snapshots of a routing decision;
-- evaluations, comparisons and reviews; the registries; the Flight Recorder's own tables; all of
-- the HTTP layer, the providers, the migrations and the frontend.
pub mod Base
pub mod Schema
pub mod Effects
pub mod JobQueue
pub mod Access
pub mod Workflow
pub mod Approval
pub mod Budget
pub mod Idempotency
pub mod Validation
pub mod Samples
pub mod Routing
