-- ===== src/Samples/Starts.antt =====
-- The start of a run.
use multi_agent_ai_platform.Base.{◌≡◌, refl, ◌⊎◌, true, false, Among}
use multi_agent_ai_platform.Schema.{Node}
use multi_agent_ai_platform.Effects.{raised, workflow_execution}
use multi_agent_ai_platform.Workflow.Moves.{Evolves}
use multi_agent_ai_platform.Workflow.Start.{nodes_of, startable, create_run, start_workflow_run}
use multi_agent_ai_platform.Workflow.Started.{IsStartable, HasRun, start_workflow_run_exact}
use multi_agent_ai_platform.Samples.Engines.{an_outside, services}
use multi_agent_ai_platform.Samples.Rows.{waiting_db}

-- Version 1 is started for task run 50.
started_now : startable an_outside services 100 8 1 50 waiting_db ≡ true
unfolding startable
started_now = refl

-- With a limit of 0 outgoing edges it is not.
too_narrow : startable an_outside services 100 0 1 50 waiting_db ≡ false
unfolding startable
too_narrow = refl

start_workflow_run_exact_example :
    (¬ IsStartable services 8 1 50 waiting_db
      × (start_workflow_run an_outside services 100 8 1 50 waiting_db
          ≡ (waiting_db, raised workflow_execution)))
    ⊎ (IsStartable services 8 1 50 waiting_db
        × Evolves
            (create_run an_outside services 100 8 1 50 waiting_db)
            (start_workflow_run an_outside services 100 8 1 50 waiting_db).0
        × ((node : Node)
            → Among node (nodes_of 1 waiting_db)
            → HasRun waiting_db.next_id node
                (start_workflow_run an_outside services 100 8 1 50 waiting_db).0.node_runs))
start_workflow_run_exact_example =
    start_workflow_run_exact an_outside services 100 8 1 50 waiting_db
