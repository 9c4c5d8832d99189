-- ===== src/Workflow/Moves.antt =====
-- The abstract machine behind the engine's tables: how one node run, one run and the approvals may
-- change. A row is never deleted, new rows come after the old ones.
use multi_agent_ai_platform.Base.{
  ℕ, ◌≡◌, refl, sym, ◌∙◌, ap, subst, Bool, true, false, some, List, [], ◌∷◌, ◌++◌, update_where,
  arith, Bool-cases, inl, inr,
}
use multi_agent_ai_platform.Schema.{RunStatus, NodeStatus, WorkflowRun, NodeRun, Approval, Db}
use multi_agent_ai_platform.Workflow.Store.{is_terminal_node}
use multi_agent_ai_platform.Approval.Resolve.{IsDecided}

-- The edges of the node machine, with the way to stay.
abbrev pub may_move : NodeStatus → NodeStatus → Bool
may_move NodeStatus.pending _ = true
may_move NodeStatus.running NodeStatus.pending = false
may_move NodeStatus.running NodeStatus.waiting_for_approval = false
may_move NodeStatus.running _ = true
may_move NodeStatus.waiting_for_approval NodeStatus.pending = false
may_move NodeStatus.waiting_for_approval NodeStatus.running = false
may_move NodeStatus.waiting_for_approval _ = true
may_move NodeStatus.completed NodeStatus.completed = true
may_move NodeStatus.failed NodeStatus.failed = true
may_move NodeStatus.cancelled NodeStatus.cancelled = true
may_move _ _ = false

-- What a node run may become: an attempt of the same node, its link to an AgentRun written once, and
-- nothing at all once its status is terminal.
pub record NodeMove (a b : NodeRun) : Type 0 where
  pub same_id : b.id ≡ a.id
  pub same_run : b.workflow_run_id ≡ a.workflow_run_id
  pub same_node : b.workflow_node_id ≡ a.workflow_node_id
  pub same_iteration : b.iteration ≡ a.iteration
  pub moves : may_move a.status b.status ≡ true
  pub linked_once :
      (agent_run_id : ℕ) → a.agent_run_id ≡ some agent_run_id → b.agent_run_id ≡ some agent_run_id
  pub final : is_terminal_node a.status ≡ true → b ≡ a

abbrev pub is_final : RunStatus → Bool
is_final RunStatus.completed = true
is_final RunStatus.failed = true
is_final RunStatus.cancelled = true
is_final _ = false

-- A CANCELLING run is never dispatched again and never COMPLETED.
abbrev pub may_leave_cancelling : RunStatus → Bool
may_leave_cancelling RunStatus.cancelling = true
may_leave_cancelling RunStatus.cancelled = true
may_leave_cancelling RunStatus.failed = true
may_leave_cancelling _ = false

pub record RunMove (a b : WorkflowRun) : Type 0 where
  pub same_id : b.id ≡ a.id
  pub same_version : b.workflow_version_id ≡ a.workflow_version_id
  pub final : is_final a.status ≡ true → b.status ≡ a.status
  pub cancelling : a.status ≡ RunStatus.cancelling → may_leave_cancelling b.status ≡ true

pub NodeMove-refl : (a : NodeRun) → NodeMove a a
NodeMove-refl a = record {
  same_id = refl;
  same_run = refl;
  same_node = refl;
  same_iteration = refl;
  moves = ground arith;
  linked_once = λ i e. e;
  final = λ h. refl;
}

may_move_trans :
    (a b c : NodeStatus) → may_move a b ≡ true → may_move b c ≡ true → may_move a c ≡ true
may_move_trans NodeStatus.pending b c h k = refl
may_move_trans a NodeStatus.pending c h k = ground arith
may_move_trans a b NodeStatus.pending h k = ground arith
may_move_trans a b NodeStatus.running h k = ground arith
may_move_trans a b c h k = ground arith

pub NodeMove-trans : {a b c : NodeRun} → NodeMove a b → NodeMove b c → NodeMove a c
NodeMove-trans {a} {b} {c} m n = record {
  same_id = n.same_id ∙ m.same_id;
  same_run = n.same_run ∙ m.same_run;
  same_node = n.same_node ∙ m.same_node;
  same_iteration = n.same_iteration ∙ m.same_iteration;
  moves = may_move_trans a.status b.status c.status m.moves n.moves;
  linked_once = λ i e. n.linked_once i (m.linked_once i e);
  final =
      λ h. n.final (ap (λ (x : NodeRun). is_terminal_node x.status) (m.final h) ∙ h) ∙ m.final h;
}

RunMove-refl : (a : WorkflowRun) → RunMove a a
RunMove-refl a = record {
  same_id = refl;
  same_version = refl;
  final = λ h. refl;
  cancelling = λ e. ap may_leave_cancelling e;
}

cancelling_on :
    (b c : RunStatus)
    → may_leave_cancelling b ≡ true
    → (is_final b ≡ true → c ≡ b)
    → (b ≡ RunStatus.cancelling → may_leave_cancelling c ≡ true)
    → may_leave_cancelling c ≡ true
cancelling_on RunStatus.cancelling c h f g = g refl
cancelling_on RunStatus.cancelled c h f g = ap may_leave_cancelling (f refl)
cancelling_on RunStatus.failed c h f g = ap may_leave_cancelling (f refl)
cancelling_on RunStatus.created c h f g = cc
cancelling_on _ c h f g = cc

RunMove-trans : {a b c : WorkflowRun} → RunMove a b → RunMove b c → RunMove a c
RunMove-trans {a} {b} {c} m n = record {
  same_id = n.same_id ∙ m.same_id;
  same_version = n.same_version ∙ m.same_version;
  final = λ h. n.final (ap is_final (m.final h) ∙ h) ∙ m.final h;
  cancelling = λ e. cancelling_on b.status c.status (m.cancelling e) n.final n.cancelling;
}

-- Row by row, with any rows after the old ones.
module _ {A : Type 0} where
  abbrev pub Pairs : (A → A → Type 0) → List A → List A → Type 0
  Pairs R [] _ = Unit
  Pairs R (x ∷ xs) [] = ⊥
  Pairs R (x ∷ xs) (y ∷ ys) = R x y × Pairs R xs ys

module _ {A : Type 0} (R : A → A → Type 0) where
  pub Pairs-refl : ((x : A) → R x x) → (xs : List A) → Pairs R xs xs
  Pairs-refl r [] = tt
  Pairs-refl r (x ∷ xs) = (r x, Pairs-refl r xs)

  pub Pairs-trans :
      ((x y z : A) → R x y → R y z → R x z)
      → (xs ys zs : List A) → Pairs R xs ys
      → Pairs R ys zs
      → Pairs R xs zs
  Pairs-trans t [] ys zs h k = tt
  Pairs-trans t (x ∷ xs) [] zs h k = absurd h
  Pairs-trans t (x ∷ xs) (y ∷ ys) [] h k = k
  Pairs-trans t (x ∷ xs) (y ∷ ys) (z ∷ zs) h k = (t x y z h.0 k.0, Pairs-trans t xs ys zs h.1 k.1)

  pub Pairs-append : ((x : A) → R x x) → (xs ys : List A) → Pairs R xs (xs ++ ys)
  Pairs-append r [] ys = tt
  Pairs-append r (x ∷ xs) ys = (r x, Pairs-append r xs ys)

  pub Pairs-update :
      ((x : A) → R x x)
      → (p : A → Bool) (f : A → A) → ((x : A) → p x ≡ true → R x (f x))
      → (xs : List A) → Pairs R xs (update_where p f xs)
  Pairs-update r p f h [] = tt
  Pairs-update r p f h (x ∷ xs) = (
    elim (Bool-cases (p x)) [ inl hit ↦ rw hit (h x hit) | inr miss ↦ rw miss (r x) ],
    Pairs-update r p f h xs,
  )

pub record Evolves (before after : Db) : Type 0 where
  pub node_runs : Pairs NodeMove before.node_runs after.node_runs
  pub runs : Pairs RunMove before.runs after.runs
  pub decided : (id : ℕ) (a : Approval) → IsDecided id a before → IsDecided id a after

pub Evolves-trans : {a b c : Db} → Evolves a b → Evolves b c → Evolves a c
Evolves-trans {a} {b} {c} m n = record {
  node_runs =
      Pairs-trans NodeMove (λ x y z. NodeMove-trans) a.node_runs b.node_runs c.node_runs m.node_runs
        n.node_runs;
  runs = Pairs-trans RunMove (λ x y z. RunMove-trans) a.runs b.runs c.runs m.runs n.runs;
  decided = λ id x h. n.decided id x (m.decided id x h);
}

-- What leaves the three tables alone.
pub Evolves-same :
    {a b : Db}
    → b.node_runs ≡ a.node_runs
    → b.runs ≡ a.runs
    → b.approvals ≡ a.approvals
    → Evolves a b
Evolves-same {a} {b} n r s = record {
  node_runs =
      subst (Pairs NodeMove a.node_runs) (sym n) (Pairs-refl NodeMove NodeMove-refl a.node_runs);
  runs = subst (Pairs RunMove a.runs) (sym r) (Pairs-refl RunMove RunMove-refl a.runs);
  decided = λ id x h. rw s h;
}

pub Evolves-refl : (a : Db) → Evolves a a
Evolves-refl a = Evolves-same refl refl refl

-- An UPDATE of the node runs, and one of the runs.
pub Evolves-node_runs :
    (p : NodeRun → Bool) (f : NodeRun → NodeRun) (db : Db)
    → ((x : NodeRun) → p x ≡ true → NodeMove x (f x))
    → Evolves db (record db { node_runs = update_where p f db.node_runs })
Evolves-node_runs p f db h = record {
  node_runs = Pairs-update NodeMove NodeMove-refl p f h db.node_runs;
  runs = Pairs-refl RunMove RunMove-refl db.runs;
  decided = λ id x h. h;
}

pub Evolves-runs :
    (p : WorkflowRun → Bool) (f : WorkflowRun → WorkflowRun) (db : Db)
    → ((x : WorkflowRun) → p x ≡ true → RunMove x (f x))
    → Evolves db (record db { runs = update_where p f db.runs })
Evolves-runs p f db h = record {
  node_runs = Pairs-refl NodeMove NodeMove-refl db.node_runs;
  runs = Pairs-update RunMove RunMove-refl p f h db.runs;
  decided = λ id x h. h;
}

pub Evolves-new_runs :
    (rows : List WorkflowRun) (db : Db) → Evolves db (record db { runs = db.runs ++ rows })
Evolves-new_runs rows db = record {
  node_runs = Pairs-refl NodeMove NodeMove-refl db.node_runs;
  runs = Pairs-append RunMove RunMove-refl db.runs rows;
  decided = λ id x h. h;
}

pub Evolves-new_node_runs :
    (rows : List NodeRun) (db : Db) → Evolves db (record db { node_runs = db.node_runs ++ rows })
Evolves-new_node_runs rows db = record {
  node_runs = Pairs-append NodeMove NodeMove-refl db.node_runs rows;
  runs = Pairs-refl RunMove RunMove-refl db.runs;
  decided = λ id x h. h;
}
