-- ===== src/Workflow/Upstream.antt =====
-- The evidence that a gate binds: `_upstream_sources`, `_artifact_content_hash`,
-- `_approval_action_payload`, and `compute_action_fingerprint` of app/services/approval_service.py.
use multi_agent_ai_platform.Base.{
  ℕ, zero, suc, Bool, true, false, ◌&&◌, ◌||◌, Option, none, some, List, [], ◌∷◌, ◌++◌, map, ltb,
  leb, ◌==◌, if◌then◌else◌, exists_where, find_where, count_where, is_none, sort_by,
}
use multi_agent_ai_platform.Schema.{
  NodeStatus, NodeType, human_approval, NodeRun, Node, Edge, Artifact, Db, is_node,
}

-- The artifact files' SHA-256 (`none` for an OSError) and the SHA-256 of a payload's canonical JSON.
pub data ContentHash : Type 0 where
  recorded : ℕ → ContentHash
  mismatch : ℕ → ContentHash

pub record Entry : Type 0 where
  pub node_key : Option ℕ
  pub node_run_id : ℕ
  pub artifact_id : Option ℕ
  pub artifact_content_hash : Option ContentHash

pub record ActionPayload : Type 0 where
  pub workflow_run_id : ℕ
  pub workflow_node_run_id : ℕ
  pub workflow_node_id : ℕ
  pub node_key : ℕ
  pub iteration : ℕ
  pub approval_group : Option ℕ
  pub upstream : List Entry
  pub evidence_version : Option ℕ

-- What lies outside the repository: hashlib and json, the file system, and Python's `str.strip`.
pub record Outside : Type 0 where
  pub digest : ActionPayload → ℕ
  pub file_hash : ℕ → Option ℕ
  pub cleaned_note : Option ℕ → Option ℕ

abbrev is_gate : NodeType → Bool
is_gate human_approval = true
is_gate _ = false

abbrev pub Source : Type 0
Source = ℕ × NodeRun

abbrev pub source_le : Source → Source → Bool
source_le a b = ltb a.0 b.0 || a.0 == b.0 && leb a.1.id b.1.id

-- `WorkflowNode.id IN from_ids`
abbrev pub feeds : ℕ → List Edge → Node → Bool
feeds node_id edges node =
    exists_where (λ edge. edge.to_node_id == node_id && edge.from_node_id == node.id) edges

-- The join of one node run with its node, if it is a COMPLETED source of `nr`.
abbrev pub source_node : Db → NodeRun → NodeRun → Option Node
source_node db nr source =
    if source.workflow_run_id == nr.workflow_run_id && is_node source.status NodeStatus.completed
    then find_where
        (λ node. node.id == source.workflow_node_id && feeds nr.workflow_node_id db.edges node)
        db.nodes
    else none

-- A COMPLETED gate with no artifact of its own is replaced by its sources.
abbrev pub resolve_source : (NodeRun → List Source) → NodeRun → Option Node → List Source
resolve_source through source none = []
resolve_source through source (some node) =
    if is_gate node.node_type && is_none source.output_snapshot_ref
    then through source
    else (node.node_key, source) ∷ []

abbrev pub sources_among : (NodeRun → List Source) → Db → NodeRun → List NodeRun → List Source
sources_among through db nr [] = []
sources_among through db nr (source ∷ rest) =
    resolve_source through source (source_node db nr source) ++ sources_among through db nr rest

-- `fuel` bounds the chain of gates that are looked through; a graph without cycles has none that is
-- longer than its number of nodes.
unfoldable pub upstream_sources : ℕ → Db → NodeRun → List Source
upstream_sources zero db nr = []
upstream_sources (suc fuel) db nr =
    sort_by source_le (sources_among (upstream_sources fuel db) db nr db.node_runs)

-- `recorded if actual == recorded else "content-mismatch:.."`
abbrev verify : ℕ → Option ℕ → Option ContentHash
verify hash none = none
verify hash (some actual) = if actual == hash then some (recorded hash) else some (mismatch actual)

abbrev hash_of : Outside → Bool → Option Artifact → Option ℕ → Option ContentHash
hash_of outside check none hash = none
hash_of outside check (some row) none = none
hash_of outside false (some row) (some hash) = some (recorded hash)
hash_of outside true (some row) (some hash) = verify hash (outside.file_hash row.storage_ref)

abbrev recorded_hash : Option Artifact → Option ℕ
recorded_hash none = none
recorded_hash (some row) = row.content_hash

unfoldable pub artifact_content_hash : Outside → Option ℕ → Bool → Db → Option ContentHash
artifact_content_hash outside none check db = none
artifact_content_hash outside (some id) check db =
    let row = find_where (λ a. a.id == id) db.artifacts in
    hash_of outside check row (recorded_hash row)

abbrev entry_of : Outside → Bool → Bool → Db → Source → Entry
entry_of outside multi_parent check db (key, up) = record {
  node_key = if multi_parent then some key else none;
  node_run_id = up.id;
  artifact_id = up.output_snapshot_ref;
  artifact_content_hash = artifact_content_hash outside up.output_snapshot_ref check db;
}

abbrev many : ℕ → Bool
many incoming = ltb 1 incoming

-- The chain of gates is bounded by the number of nodes.
abbrev pub gate_fuel : Db → ℕ
gate_fuel db = suc (count_where (λ node. true) db.nodes)

unfoldable pub approval_action_payload : Outside → NodeRun → Node → Bool → Db → ActionPayload
unfolding upstream_sources artifact_content_hash
approval_action_payload outside nr node check db =
    let multi_parent = many (count_where (λ edge. edge.to_node_id == node.id) db.edges) in
    record {
      workflow_run_id = nr.workflow_run_id;
      workflow_node_run_id = nr.id;
      workflow_node_id = node.id;
      node_key = node.node_key;
      iteration = nr.iteration;
      approval_group = node.approval_group;
      upstream =
          map (entry_of outside multi_parent check db) (upstream_sources (gate_fuel db) db nr);
      evidence_version = if multi_parent then some 2 else none;
    }
