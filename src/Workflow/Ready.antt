-- ===== src/Workflow/Ready.antt =====
-- `_find_ready_nodes`, `_only_humans_left_to_act` and `_sync_run_state`.
use multi_agent_ai_platform.Base.{
  ℕ, zero, suc, Bool, true, false, not, ◌&&◌, ◌||◌, Option, none, some, List, [], ◌∷◌, map, ltb,
  leb, ◌==◌, if◌then◌else◌, exists_where, all_where, select_where, find_where, sort_by,
}
use multi_agent_ai_platform.Schema.{RunStatus, NodeStatus, NodeRun, Node, Edge, Db, is_run, is_node}
use multi_agent_ai_platform.Workflow.Store.{
  is_dispatchable, fresh_run, fresh_node_runs, latest_by_node, cas_run,
}

-- sources_of.get(node_id, [])
abbrev pub sources_of : ℕ → ℕ → List Edge → List ℕ
sources_of version_id node_id edges =
    map (λ edge. edge.from_node_id)
      (select_where (λ edge. edge.workflow_version_id == version_id && edge.to_node_id == node_id)
        edges)

-- status_by_node.get(source) == COMPLETED
abbrev pub has_completed : Option NodeRun → Bool
has_completed none = false
has_completed (some nr) = is_node nr.status NodeStatus.completed

abbrev pub source_completed : List NodeRun → ℕ → Bool
source_completed latest source =
    has_completed (find_where (λ nr. nr.workflow_node_id == source) latest)

abbrev pub is_ready : ℕ → List Edge → List NodeRun → NodeRun → Bool
is_ready version_id edges latest nr =
    is_node nr.status NodeStatus.pending
    && all_where (source_completed latest) (sources_of version_id nr.workflow_node_id edges)

-- keys.get(node_id, ""); a node_key is a number above that of the empty text.
abbrev pub key_of : Option Node → ℕ
key_of none = 0
key_of (some node) = node.node_key

abbrev pub node_key_of : ℕ → List Node → ℕ → ℕ
node_key_of version_id nodes node_id =
    key_of (find_where (λ node. node.workflow_version_id == version_id && node.id == node_id) nodes)

abbrev pub key_le : (ℕ → ℕ) → NodeRun → NodeRun → Bool
key_le key a b =
    ltb (key a.workflow_node_id) (key b.workflow_node_id)
    || key a.workflow_node_id == key b.workflow_node_id && leb a.id b.id

unfoldable pub find_ready_nodes : ℕ → Db → List NodeRun
find_ready_nodes run_id db = elim (fresh_run run_id db) [
  | none ↦ []
  | some run ↦
      let node_runs = fresh_node_runs run_id db in
      sort_by (key_le (node_key_of run.workflow_version_id db.nodes)) (
        select_where (is_ready run.workflow_version_id db.edges (latest_by_node node_runs))
          node_runs)
]

abbrev pub is_empty {ℓ} : {A : Type ℓ} → List A → Bool
is_empty [] = true
is_empty (_ ∷ _) = false

abbrev pub any_status : NodeStatus → List NodeRun → Bool
any_status status latest = exists_where (λ nr. is_node nr.status status) latest

unfoldable pub only_humans_left_to_act : ℕ → Db → Bool
unfolding find_ready_nodes
only_humans_left_to_act run_id db =
    let latest = latest_by_node (fresh_node_runs run_id db) in
    if not (any_status NodeStatus.waiting_for_approval latest)
    then false
    else if any_status NodeStatus.running latest || any_status NodeStatus.failed latest
    then false
    else is_empty (find_ready_nodes run_id db)

unfoldable pub wanted_status : ℕ → Db → RunStatus
wanted_status run_id db =
    if only_humans_left_to_act run_id db
    then RunStatus.node_waiting_for_approval
    else RunStatus.running

-- The check-set-recheck loop, by the rounds that are left.
unfoldable pub sync_rounds : ℕ → ℕ → Db → Db
unfolding cas_run
sync_rounds zero run_id db = db
sync_rounds (suc rounds) run_id db = elim (fresh_run run_id db) [
  | none ↦ db
  | some run ↦
      let again =
        sync_rounds rounds run_id
          (cas_run run_id run.status (λ r. record r { status = wanted_status run_id db }) db).0 in
      if not (is_dispatchable run.status)
      then db
      else if is_run (wanted_status run_id db) run.status
      then db
      else again
]

abbrev pub sync_run_state : ℕ → Db → Db
sync_run_state run_id db = sync_rounds 4 run_id db
