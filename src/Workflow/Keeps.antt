-- ===== src/Workflow/Keeps.antt =====
-- The engine's writes follow the abstract machine.
use multi_agent_ai_platform.Base.{
  ℕ, zero, suc, ◌≡◌, refl, sym, ◌∙◌, ap, Bool, true, false, Option, none, some, List, if◌then◌else◌,
  arith, Bool-cases, Option-cases, inl, inr, ◌⊎◌, is_none,
}
use multi_agent_ai_platform.Schema.{
  RunStatus, NodeStatus, EventType, WorkflowRun, NodeRun, Event, Db, is_node, is_run,
}
use multi_agent_ai_platform.Effects.{Result, ok, raised, Act, and_then, ◌>>=◌, ◌>>◌}
use multi_agent_ai_platform.Workflow.Store.{
  is_terminal_node, is_dispatchable, fresh_run, cas_node_run, cas_node_where, cas_run,
  cas_run_where, may_claim, claim_pending_node, atomically_claim_node_for_execution, emit_event,
}
use multi_agent_ai_platform.Workflow.Store.{latest_by_node, fresh_node_runs}
use multi_agent_ai_platform.Workflow.Finish.{
  is_finalizable, final_status, end_run, finalize, check_workflow_complete,
}
use multi_agent_ai_platform.Workflow.Ready.{wanted_status, sync_rounds}
use multi_agent_ai_platform.Workflow.Moves.{
  may_move, NodeMove, RunMove, is_final, may_leave_cancelling, Evolves, Evolves-trans, Evolves-same,
  Evolves-refl, Evolves-node_runs, Evolves-runs,
}

pub node_eq : (a b : NodeStatus) → is_node a b ≡ true → a ≡ b
node_eq NodeStatus.pending b h = ground arith
node_eq _ b h = ground arith

pub run_eq : (a b : RunStatus) → is_run a b ≡ true → a ≡ b
run_eq RunStatus.created b h = ground arith
run_eq _ b h = ground arith

none_of : (o : Option ℕ) → is_none o ≡ true → o ≡ none
none_of none h = refl
none_of (some k) h = cc

-- A write of one attempt that is not terminal.
pub step_move :
    (a b : NodeRun)
    → b.id ≡ a.id
    → b.workflow_run_id ≡ a.workflow_run_id
    → b.workflow_node_id ≡ a.workflow_node_id
    → b.iteration ≡ a.iteration
    → (b.agent_run_id ≡ a.agent_run_id) ⊎ (a.agent_run_id ≡ none)
    → may_move a.status b.status ≡ true
    → is_terminal_node a.status ≡ false
    → NodeMove a b
step_move a b i r n t l m open_row = record {
  same_id = i;
  same_run = r;
  same_node = n;
  same_iteration = t;
  moves = m;
  linked_once = λ k e. elim l [ inl same ↦ same ∙ e | inr unlinked ↦ ground arith ];
  final = λ h. ground arith;
}

abbrev pub Keeps {ℓ} : {A : Type ℓ} → (Db → Db × A) → Type 0
Keeps act = (db : Db) → Evolves db (act db).0

pub Keeps-then :
    {A B : Type 0} (m : Act A) (f : A → Act B) → Keeps m → ((a : A) → Keeps (f a)) → Keeps (m >>= f)
Keeps-then {A} {B} m f h k db = Evolves-trans (h db) (rest (m db).1 (m db).0)
  where
    rest : (r : Result A) (after : Db) → Evolves after (and_then r f after).0
    rest (ok a) after = k a after
    rest (raised e) after = Evolves-refl after

pub Keeps-seq : {A B : Type 0} (m : Act A) (k : Act B) → Keeps m → Keeps k → Keeps (m >> k)
Keeps-seq m k h j = Keeps-then m (λ _. k) h (λ _ d. j d)

pub Keeps-if :
    {A : Type 0} (b : Bool) (m k : Act A)
    → Keeps m
    → Keeps k
    → Keeps (λ db. if b then m db else k db)
Keeps-if true m k h j db = h db
Keeps-if false m k h j db = j db

-- Undone, or as it went.
pub Evolves-if :
    (b : Bool) (before yes_db no_db : Db)
    → Evolves before yes_db
    → Evolves before no_db
    → Evolves before (if b then yes_db else no_db)
Evolves-if true before yes_db no_db y n = y
Evolves-if false before yes_db no_db y n = n

pub emit_event-Evolves : (e : Event) (db : Db) → Evolves db (emit_event e db)
unfolding emit_event
emit_event-Evolves e db =
    Evolves-if db.recorder_up db _ db (Evolves-same refl refl refl) (Evolves-refl db)

pub cas_node_run-Evolves :
    (id : ℕ) (expected : NodeStatus) (values : NodeRun → NodeRun) (db : Db)
    → ((x : NodeRun) → x.status ≡ expected → NodeMove x (values x))
    → Evolves db (cas_node_run id expected values db).0
unfolding cas_node_run
cas_node_run-Evolves id expected values db h =
    Evolves-node_runs (cas_node_where id expected) values db
      (λ x hit. h x (node_eq x.status expected (ground arith)))

pub cas_run-Evolves :
    (id : ℕ) (expected : RunStatus) (values : WorkflowRun → WorkflowRun) (db : Db)
    → ((x : WorkflowRun) → x.status ≡ expected → RunMove x (values x))
    → Evolves db (cas_run id expected values db).0
unfolding cas_run
cas_run-Evolves id expected values db h =
    Evolves-runs (cas_run_where id expected) values db
      (λ x hit. h x (run_eq x.status expected (ground arith)))

pub claim_pending_node-Evolves :
    (id : ℕ) (unlinked : Bool) (values : NodeRun → NodeRun) (db : Db)
    → ((x : NodeRun)
        → x.status ≡ NodeStatus.pending
        → (unlinked ≡ true → x.agent_run_id ≡ none)
        → NodeMove x (values x))
    → Evolves db (claim_pending_node id unlinked values db).0
unfolding claim_pending_node may_claim
claim_pending_node-Evolves id unlinked values db h =
    Evolves-node_runs (may_claim db id unlinked) values db (λ x hit.
      h x (node_eq x.status NodeStatus.pending (ground arith))
        (λ u. none_of x.agent_run_id (ground arith)))

pub atomically_claim-Evolves :
    (id agent_run_id : ℕ) (db : Db)
    → Evolves db (atomically_claim_node_for_execution id agent_run_id db).0
unfolding atomically_claim_node_for_execution
atomically_claim-Evolves id agent_run_id db = ground (
  arith,
  Evolves-refl db,
  claim_pending_node-Evolves id true
      (λ nr. record nr { agent_run_id = some agent_run_id; status = NodeStatus.running }) db
      (λ x e u.
        step_move x (record x { agent_run_id = some agent_run_id; status = NodeStatus.running })
          refl refl refl refl (inr (u refl)) (rw e refl) (rw e refl)),
)

end_move :
    (now : ℕ) (target : RunStatus) (x : WorkflowRun)
    → is_final x.status ≡ false
    → (x.status ≡ RunStatus.cancelling → may_leave_cancelling target ≡ true)
    → RunMove x (record x { status = target; ended_at = some now })
end_move now target x open_run c = record {
  same_id = refl;
  same_version = refl;
  final = λ h. ground arith;
  cancelling = c;
}

final_status-cancelling :
    (observed : RunStatus) (latest : List NodeRun) (target : RunStatus) (event_type : EventType)
    → final_status observed latest ≡ some (target, event_type)
    → observed ≡ RunStatus.cancelling
    → may_leave_cancelling target ≡ true
unfolding final_status
final_status-cancelling observed latest target event_type h e = ground arith

finalizable-open : (status : RunStatus) → is_finalizable status ≡ true → is_final status ≡ false
finalizable-open RunStatus.running h = refl
finalizable-open status h = ground arith

finalize-Evolves :
    (now : ℕ) (run : WorkflowRun) (o : Option (RunStatus × EventType)) (db : Db)
    → is_finalizable run.status ≡ true
    → ((target : RunStatus) (event_type : EventType)
        → o ≡ some (target, event_type)
        → run.status ≡ RunStatus.cancelling
        → may_leave_cancelling target ≡ true)
    → Evolves db (finalize now run o db)
unfolding finalize
finalize-Evolves now run none db h c = Evolves-refl db
finalize-Evolves now run (some (target, event_type)) db h c =
    let after = (cas_run run.id run.status (end_run now target) db).0 in
    let m : Evolves db after = cas_run-Evolves run.id run.status (end_run now target) db (λ x e.
      end_move now target x (ap is_final e ∙ finalizable-open run.status h)
        (λ k. c target event_type refl (sym e ∙ k))) in
    Evolves-if (cas_run run.id run.status (end_run now target) db).1 db _ after
      (Evolves-trans m (emit_event-Evolves _ after)) m

pub check_workflow_complete-Evolves :
    (now run_id : ℕ) (db : Db) → Evolves db (check_workflow_complete now run_id db)
unfolding check_workflow_complete
check_workflow_complete-Evolves now run_id db = elim (Option-cases (fresh_run run_id db)) [
  | inl absent ↦ rw (absent, check_workflow_complete) (Evolves-refl db)
  | inr (run, found) ↦
      rw (found, check_workflow_complete)
        (elim (Bool-cases (is_finalizable run.status)) [
          | inr closed ↦ rw closed (Evolves-refl db)
          | inl open_run ↦ rw open_run (
              finalize-Evolves now run
                (final_status run.status (latest_by_node (fresh_node_runs run_id db))) db open_run
                (final_status-cancelling run.status (latest_by_node (fresh_node_runs run_id db))))
        ])
]

open_not_final : (status : RunStatus) → is_dispatchable status ≡ true → is_final status ≡ true → ⊥
open_not_final RunStatus.running h f = ground arith
open_not_final status h f = ground arith

open_not_cancelling :
    (status : RunStatus) → is_dispatchable status ≡ true → status ≡ RunStatus.cancelling → ⊥
open_not_cancelling status h e = ground arith

sync_move :
    (x : WorkflowRun) (target : RunStatus)
    → is_dispatchable x.status ≡ true
    → RunMove x (record x { status = target })
sync_move x target open_run = record {
  same_id = refl;
  same_version = refl;
  final = λ h. absurd (open_not_final x.status open_run h);
  cancelling = λ e. absurd (open_not_cancelling x.status open_run e);
}

pub sync_rounds-Evolves : (rounds run_id : ℕ) (db : Db) → Evolves db (sync_rounds rounds run_id db)
unfolding sync_rounds
sync_rounds-Evolves zero run_id db = Evolves-refl db
sync_rounds-Evolves (suc rounds) run_id db = elim (Option-cases (fresh_run run_id db)) [
  | inl absent ↦ rw (absent, sync_rounds) (Evolves-refl db)
  | inr (run, found) ↦
      rw (found, sync_rounds)
        (elim (Bool-cases (is_dispatchable run.status)) [
          | inr closed ↦ rw closed (Evolves-refl db)
          | inl open_run ↦
              let after =
                (cas_run run_id run.status (λ r. record r { status = wanted_status run_id db })
                  db).0 in
              rw open_run (
                Evolves-if (is_run (wanted_status run_id db) run.status) db db
                  (sync_rounds rounds run_id after) (Evolves-refl db)
                  (Evolves-trans
                    (cas_run-Evolves run_id run.status
                      (λ r. record r { status = wanted_status run_id db }) db
                      (λ x e.
                        sync_move x (wanted_status run_id db) (ap is_dispatchable e ∙ open_run)))
                    (sync_rounds-Evolves rounds run_id after)))
        ])
]
