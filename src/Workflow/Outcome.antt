-- ===== src/Workflow/Outcome.antt =====
-- When and how `_check_workflow_complete` ends a run.
use multi_agent_ai_platform.Base.{
  ℕ, ◌≡◌, ◌≢◌, refl, ◌∙◌, subst, ◌⊎◌, inl, inr, Bool, true, false, ◌&&◌, none, some, List, [], ◌∷◌,
  ◌==◌, if◌then◌else◌, find_where, update_where, count_where, arith, Bool-cases, Option-cases,
  Keyed, update_hit, ==_iff,
}
use multi_agent_ai_platform.Schema.{
  RunStatus, NodeStatus, WorkflowRun, NodeRun, Db, is_run, run_code, EventType,
}
use multi_agent_ai_platform.Workflow.Store.{
  is_dispatchable, fresh_run, fresh_node_runs, latest_by_node, cas_run, event, emit_event,
}
use multi_agent_ai_platform.Workflow.Finish.{
  is_finalizable, any_active, any_failed, any_unfinished, final_status, end_run, finalize,
  check_workflow_complete,
}

abbrev pub latest_of : ℕ → Db → List NodeRun
latest_of run_id db = latest_by_node (fresh_node_runs run_id db)

-- The stored effect of a run's end: its row, its evidence if the recorder works, and nothing else.
abbrev pub ended : ℕ → WorkflowRun → RunStatus → EventType → Db → Db
ended now run target event_type db = emit_event (event event_type run none) (record db {
  runs =
      update_where (λ r. r.id == run.id && is_run r.status run.status) (end_run now target) db.runs;
})

module _ (now : ℕ) (run : WorkflowRun) (db : Db) (keyed : Keyed (λ r. r.id) db.runs)
    (found : fresh_run run.id db ≡ some run) where
  cas_hit :
      (target : RunStatus)
      → (count_where (λ r. r.id == run.id && is_run r.status run.status) db.runs ≡ 1)
        × (find_where
              (λ r. r.id == run.id)
              (update_where
                (λ r. r.id == run.id && is_run r.status run.status)
                (end_run now target)
                db.runs)
            ≡ some (end_run now target run))
  cas_hit target =
      update_hit (λ r. r.id) run.id (λ r. is_run r.status run.status) (end_run now target) run
        db.runs keyed found ((==_iff (run_code run.status) (run_code run.status)).1 refl) refl

  finalize_ends :
      (target : RunStatus) (event_type : EventType)
      → finalize now run (some (target, event_type)) db ≡ ended now run target event_type db
  unfolding finalize cas_run
  finalize_ends target event_type = ground (arith, cas_hit target)

  ended_row :
      (target : RunStatus) (event_type : EventType)
      → fresh_run run.id (ended now run target event_type db) ≡ some (end_run now target run)
  unfolding emit_event
  ended_row target event_type = ground (arith, cas_hit target)

  check_step : check_workflow_complete now run.id db ≡ (
      if is_finalizable run.status
      then finalize now run (final_status run.status (latest_of run.id db)) db
      else db)
  unfolding check_workflow_complete
  check_step = rw (found, check_workflow_complete)

  finalize-none : finalize now run none db ≡ db
  unfolding finalize
  finalize-none = refl

  -- The run ends with a target exactly as `final_status` says, or nothing at all changes.
  pub check_cases :
      ((check_workflow_complete now run.id db ≡ db)
        × ((is_finalizable run.status ≡ false)
            ⊎ (final_status run.status (latest_of run.id db) ≡ none)))
      ⊎ ((target : RunStatus) × (event_type : EventType) × (is_finalizable run.status ≡ true)
          × (final_status run.status (latest_of run.id db) ≡ some (target, event_type))
          × (check_workflow_complete now run.id db ≡ ended now run target event_type db)
          × (fresh_run run.id (check_workflow_complete now run.id db)
              ≡ some (end_run now target run)))
  check_cases = elim (Bool-cases (is_finalizable run.status)) [
    | inr closed ↦ inl (check_step ∙ rw closed, inl closed)
    | inl open_run ↦ elim (Option-cases (final_status run.status (latest_of run.id db))) [
      | inl waits ↦ inl (check_step ∙ rw (open_run, waits) finalize-none, inr waits)
      | inr ((target, event_type), ends) ↦
          let e = check_step ∙ rw (open_run, ends) (finalize_ends target event_type) in
          inr (target, event_type, open_run, ends, e, rw e (ended_row target event_type))
    ]
  ]

-- What each final status says of the newest attempts: FAILED has a failed one and none still active;
-- CANCELLED and COMPLETED have only completed and cancelled ones.
abbrev pub is_settled : NodeStatus → Bool
is_settled NodeStatus.completed = true
is_settled NodeStatus.cancelled = true
is_settled _ = false

abbrev pub all_settled : List NodeRun → Bool
all_settled [] = true
all_settled (nr ∷ rest) = is_settled nr.status && all_settled rest

settled :
    (latest : List NodeRun)
    → any_failed latest ≡ false
    → any_unfinished latest ≡ false
    → all_settled latest ≡ true
settled [] f u = refl
settled (nr ∷ rest) f u = ground (arith, settled rest)

-- A run's end, by its observed status, its new status and the newest attempts of its nodes.
pub data Ends (observed : RunStatus) (latest : List NodeRun) : RunStatus → Type 0 where
  as_failed :
      any_failed latest ≡ true → any_active latest ≡ false → Ends observed latest RunStatus.failed
  as_cancelled :
      observed ≡ RunStatus.cancelling
      → all_settled latest ≡ true
      → Ends observed latest RunStatus.cancelled
  as_completed :
      is_dispatchable observed ≡ true
      → all_settled latest ≡ true
      → Ends observed latest RunStatus.completed

final_status-Ends :
    (observed : RunStatus) (latest : List NodeRun) (target : RunStatus) (event_type : EventType)
    → is_finalizable observed ≡ true
    → final_status observed latest ≡ some (target, event_type)
    → Ends observed latest target
unfolding final_status
final_status-Ends observed latest target event_type open_run e =
    elim (Bool-cases (any_active latest)) [
      | inl active ↦ absurd (ground arith)
      | inr idle ↦ elim (Bool-cases (any_failed latest)) [
        | inl failed ↦ subst (Ends observed latest) (ground arith) (as_failed failed idle)
        | inr healthy ↦ elim (Bool-cases (any_unfinished latest)) [
          | inl waits ↦ absurd (ground arith)
          | inr finished ↦
              let done = settled latest healthy finished in
              elim (Bool-cases (is_run observed RunStatus.cancelling)) [
                | inl cancelling ↦
                    subst (Ends observed latest) (ground arith) (as_cancelled (ground arith) done)
                | inr active ↦
                    subst (Ends observed latest) (ground arith) (as_completed (ground arith) done)
              ]
        ]
      ]
    ]

-- With unique run ids, `_check_workflow_complete` of a run that is there either leaves the
-- database as it is, or ends the run: with FAILED if a node's newest attempt is FAILED and none is
-- RUNNING or WAITING_FOR_APPROVAL, with CANCELLED or COMPLETED if each is COMPLETED or CANCELLED,
-- the run having been CANCELLING or active.
pub check_workflow_complete_sound :
    (now : ℕ) (run : WorkflowRun) (db : Db)
    → Keyed (λ r. r.id) db.runs
    → fresh_run run.id db ≡ some run
    → (check_workflow_complete now run.id db ≡ db)
      ⊎ ((target : RunStatus) × Ends run.status (latest_of run.id db) target
          × (fresh_run run.id (check_workflow_complete now run.id db)
              ≡ some (end_run now target run)))
check_workflow_complete_sound now run db keyed found = elim (check_cases now run db keyed found) [
  | inl (same, _) ↦ inl same
  | inr (target, event_type, open_run, ends, e, row) ↦ inr (
    target,
    final_status-Ends run.status (latest_of run.id db) target event_type open_run ends,
    row,
  )
]

final_status-ne-none :
    (observed : RunStatus) (latest : List NodeRun)
    → any_active latest ≡ false
    → (any_failed latest ≡ true) ⊎ (any_unfinished latest ≡ false)
    → final_status observed latest ≢ none
unfolding final_status
final_status-ne-none observed latest idle (inl failed) e = ground arith
final_status-ne-none observed latest idle (inr finished) e = ground arith

check_closed :
    (now id : ℕ) (run : WorkflowRun) (db : Db)
    → fresh_run id db ≡ some run
    → is_finalizable run.status ≡ false
    → check_workflow_complete now id db ≡ db
unfolding check_workflow_complete
check_closed now id run db found closed = ground (arith, found, closed)

Ends-closed :
    {observed target : RunStatus} {latest : List NodeRun}
    → Ends observed latest target
    → is_finalizable target ≡ false
Ends-closed (as_failed f i) = refl
Ends-closed (as_cancelled c d) = refl
Ends-closed (as_completed c d) = refl

-- With unique run ids, `_check_workflow_complete` ends an active or cancelling run that is there
-- once no newest attempt is active, if one is FAILED or all are terminal.
pub check_workflow_complete-Ends :
    (now : ℕ) (run : WorkflowRun) (db : Db)
    → Keyed (λ r. r.id) db.runs
    → fresh_run run.id db ≡ some run
    → is_finalizable run.status ≡ true
    → any_active (latest_of run.id db) ≡ false
    → (any_failed (latest_of run.id db) ≡ true) ⊎ (any_unfinished (latest_of run.id db) ≡ false)
    → (target : RunStatus) × Ends run.status (latest_of run.id db) target
      × (fresh_run run.id (check_workflow_complete now run.id db) ≡ some (end_run now target run))
check_workflow_complete-Ends now run db keyed found open_run idle done =
    elim (check_cases now run db keyed found) [
      | inl (_, inl closed) ↦ absurd (ground arith)
      | inl (_, inr waits) ↦
          absurd (final_status-ne-none run.status (latest_of run.id db) idle done waits)
      | inr (target, event_type, _, ends, e, row) ↦ (
        target,
        final_status-Ends run.status (latest_of run.id db) target event_type open_run ends,
        row,
      )
    ]

-- With unique run ids, a second `_check_workflow_complete` of a run that is there, at any time,
-- changes nothing.
pub check_workflow_complete_idem :
    (now later : ℕ) (run : WorkflowRun) (db : Db)
    → Keyed (λ r. r.id) db.runs
    → fresh_run run.id db ≡ some run
    → check_workflow_complete later run.id (check_workflow_complete now run.id db)
      ≡ check_workflow_complete now run.id db
check_workflow_complete_idem now later run db keyed found =
    elim (check_cases now run db keyed found) [
      | inl (same, inl closed) ↦ rw same (check_closed later run.id run db found closed)
      | inl (same, inr waits) ↦ rw same (elim (check_cases later run db keyed found) [
        | inl (still, _) ↦ still
        | inr (_, _, _, ends, _, _) ↦ absurd (ground arith)
      ])
      | inr (target, event_type, open_run, ends, e, row) ↦
          check_closed later run.id (end_run now target run) _ row (
            Ends-closed
              (final_status-Ends run.status (latest_of run.id db) target event_type open_run ends))
    ]
