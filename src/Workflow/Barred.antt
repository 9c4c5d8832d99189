-- ===== src/Workflow/Barred.antt =====
-- What a cancellation bars: from its mark on the engine claims no node of the run.
use multi_agent_ai_platform.Base.{
  ℕ, ◌≡◌, refl, sym, subst, inl, inr, Bool, true, false, find-key, update_miss, count_where, Option,
  some, List, [], ◌∷◌, ◌==◌, exists_where, find_where, update_where, Bool-cases, arith, Keyed,
  if◌then◌else◌,
}
use multi_agent_ai_platform.Schema.{RunStatus, WorkflowRun, NodeRun, Db}
use multi_agent_ai_platform.Workflow.Store.{
  is_dispatchable, run_dispatchable, fresh_run, fresh_node_run, claim_pending_node,
}
use multi_agent_ai_platform.Workflow.Cancel.{
  is_cancellable, marks, unrequested, request_cancel, mark_cancelling,
}
use multi_agent_ai_platform.Workflow.Upstream.{Outside}
use multi_agent_ai_platform.Workflow.Evaluation.{ExecutionServices}
use multi_agent_ai_platform.Workflow.Engine.{EngineRun, cancelling_run_never_completes}
use multi_agent_ai_platform.Workflow.Claim.{claim_miss, may}

abbrev to_cancelling : WorkflowRun → WorkflowRun
to_cancelling run = record run { status = RunStatus.cancelling }

find-update :
    (id : ℕ) (p : WorkflowRun → Bool) (f : WorkflowRun → WorkflowRun)
    → ((r : WorkflowRun) → (f r).id ≡ r.id)
    → (runs : List WorkflowRun) (run : WorkflowRun) → find_where (λ r. r.id == id) runs ≡ some run
    → find_where (λ r. r.id == id) (update_where p f runs) ≡ some (if p run then f run else run)
find-update id p f kept [] run h = cc
find-update id p f kept (r ∷ runs) run h = elim (Bool-cases (r.id == id)) [
  | inl same ↦
      let e : r ≡ run = ground arith in
      subst
        (λ (x : WorkflowRun).
          find_where (λ r. r.id == id) (update_where p f (r ∷ runs))
          ≡ some (if p x then f x else x))
        e (ground (arith, kept r))
  | inr other ↦ ground (arith, kept r, find-update id p f kept runs run)
]

module _ (now run_id : ℕ) (user : Option ℕ) (db : Db) (run : WorkflowRun)
    (found : fresh_run run_id db ≡ some run) (open_run : is_cancellable run.status ≡ true) where
  marked :
      (y : WorkflowRun) × (fresh_run run_id (mark_cancelling now run_id user db).0 ≡ some y)
      × (y.status ≡ RunStatus.cancelling)
  unfolding mark_cancelling
  marked =
      let same : run.id ≡ run_id = find-key (λ r. r.id) run_id db.runs run found in
      let x = if marks run_id run then to_cancelling run else run in
      let cancelled : x.status ≡ RunStatus.cancelling = ground arith in
      let first = find-update run_id (marks run_id) to_cancelling (λ r. refl) db.runs run found in
      let second =
        find-update run_id (unrequested run_id) (request_cancel now user) (λ r. refl)
          (update_where (marks run_id) to_cancelling db.runs) x first in
      (if unrequested run_id x then request_cancel now user x else x, second, ground arith)

no_count_none :
    (p : WorkflowRun → Bool) (runs : List WorkflowRun)
    → count_where p runs ≡ 0
    → exists_where p runs ≡ false
no_count_none p [] h = refl
no_count_none p (r ∷ runs) h = ground (arith, no_count_none p runs)

not_dispatchable :
    (run_id : ℕ) (runs : List WorkflowRun) (y : WorkflowRun)
    → Keyed (λ r. r.id) runs
    → find_where (λ r. r.id == run_id) runs ≡ some y
    → is_dispatchable y.status ≡ false
    → run_dispatchable run_id runs ≡ false
not_dispatchable run_id runs y keyed found closed =
    no_count_none _ runs
      (update_miss (λ r. r.id) run_id (λ r. is_dispatchable r.status) (λ r. r) runs keyed
        (λ row e.
          let same : y ≡ row = ground arith in
          subst (λ (x : WorkflowRun). is_dispatchable x.status ≡ false) same closed)).1

module _ {outside : Outside} {services : ExecutionServices} (now run_id : ℕ) (user : Option ℕ)
    (db after : Db) (run : WorkflowRun) where
  closed_after :
      fresh_run run_id db ≡ some run
      → is_cancellable run.status ≡ true
      → EngineRun outside services (mark_cancelling now run_id user db).0 after
      → (y : WorkflowRun) × (fresh_run run_id after ≡ some y) × (is_dispatchable y.status ≡ false)
  closed_after found open_run steps =
      let (x, there, cancelling) = marked now run_id user db run found open_run in
      let id : x.id ≡ run_id = find-key (λ r. r.id) run_id _ x there in
      let there' : fresh_run x.id (mark_cancelling now run_id user db).0 ≡ some x =
        subst (λ k. fresh_run k (mark_cancelling now run_id user db).0 ≡ some x) (sym id) there in
      let (y, again, left) = cancelling_run_never_completes steps x there' cancelling in
      (y, subst (λ k. fresh_run k after ≡ some y) id again, ground arith)

  -- From the mark of a run that may be cancelled on, whatever sequence of the engine's operations other than a retry
  -- of a node follows, no claim of a node run of that run succeeds, whatever its values, and none
  -- changes anything; the ids of the runs and of the node runs that the claim finds are unique.
  pub cancellation_bars_dispatch :
      (id : ℕ) (unlinked : Bool) (values : NodeRun → NodeRun) (nr : NodeRun)
      → fresh_run run_id db ≡ some run
      → is_cancellable run.status ≡ true
      → EngineRun outside services (mark_cancelling now run_id user db).0 after
      → Keyed (λ r. r.id) after.runs
      → Keyed (λ nr. nr.id) after.node_runs
      → fresh_node_run id after ≡ some nr
      → nr.workflow_run_id ≡ run_id
      → claim_pending_node id unlinked values after ≡ (after, false)
  cancellation_bars_dispatch id unlinked values nr found open_run steps runs_keyed keyed stored
        of_run =
      let (y, there, closed) = closed_after found open_run steps in
      let barred = not_dispatchable run_id after.runs y runs_keyed there closed in
      claim_miss id unlinked values after keyed (λ row e.
        let same : nr ≡ row = ground arith in
        subst (λ (x : NodeRun). may after unlinked x ≡ false) same (ground arith))
