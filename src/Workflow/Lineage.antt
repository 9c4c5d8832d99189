-- ===== src/Workflow/Lineage.antt =====
-- The labelled upstream evidence of a node: `_upstream_evidence`, `_collect_upstream_artifacts` and
-- `_get_upstream_node_runs`.
use multi_agent_ai_platform.Base.{
  ℕ, Option, none, some, List, [], ◌∷◌, ◌++◌, map, ◌==◌, if◌then◌else◌, exists_where,
}
use multi_agent_ai_platform.Schema.{NodeRun, Evidence, InputContext, Db}
use multi_agent_ai_platform.Workflow.Upstream.{Source, gate_fuel, upstream_sources}

abbrev pub new_evidence : ℕ → ℕ → ℕ → Evidence
new_evidence artifact_id key node_run_id = record {
  artifact_id = artifact_id;
  node_key = key;
  node_run_id = node_run_id;
  source_node_keys = key ∷ [];
}

-- `if key not in entry["source_node_keys"]: append`
abbrev pub add_source_key : ℕ → Evidence → Evidence
add_source_key key e =
    if exists_where (λ k. k == key) e.source_node_keys
    then e
    else record e { source_node_keys = e.source_node_keys ++ key ∷ [] }

-- The dict `by_artifact` in its insertion order, after one source with this artifact.
abbrev pub put_evidence : ℕ → ℕ → ℕ → List Evidence → List Evidence
put_evidence artifact_id key node_run_id [] = new_evidence artifact_id key node_run_id ∷ []
put_evidence artifact_id key node_run_id (e ∷ rest) =
    let kept = put_evidence artifact_id key node_run_id rest in
    if e.artifact_id == artifact_id then add_source_key key e ∷ rest else e ∷ kept

abbrev pub put_source : Option ℕ → ℕ → ℕ → List Evidence → List Evidence
put_source none key node_run_id entries = entries
put_source (some artifact_id) key node_run_id entries =
    put_evidence artifact_id key node_run_id entries

unfoldable pub evidence_from : List Evidence → List Source → List Evidence
evidence_from entries [] = entries
evidence_from entries ((key, source) ∷ rest) =
    evidence_from (put_source source.output_snapshot_ref key source.id entries) rest

unfoldable pub upstream_evidence : List Source → List Evidence
upstream_evidence sources = evidence_from [] sources

unfoldable pub collect_upstream_artifacts : Db → NodeRun → List ℕ
collect_upstream_artifacts db nr =
    map (λ e. e.artifact_id) (upstream_evidence (upstream_sources (gate_fuel db) db nr))

unfoldable pub get_upstream_node_runs : Db → NodeRun → List NodeRun
get_upstream_node_runs db nr = map (λ pair. pair.1) (upstream_sources (gate_fuel db) db nr)

-- The `input_context_json` of an agent: absent if there is no source.
abbrev pub context_of : List Source → Option InputContext
context_of [] = none
context_of (pair ∷ rest) = some (record {
  upstream_artifact_ids = map (λ e. e.artifact_id) (upstream_evidence (pair ∷ rest));
  upstream_node_run_ids = map (λ source. source.1.id) (pair ∷ rest);
  upstream = upstream_evidence (pair ∷ rest);
})
