-- ===== src/Workflow/Depth.antt =====
-- The fuel of `_upstream_sources` is enough on a graph without cycles.
use multi_agent_ai_platform.Base.{
  ℕ, zero, suc, ◌+◌, ◌≤◌, ◌<◌, ◌≡◌, refl, ◌∙◌, ap, inl, inr, true, ◌&&◌, Option, none, some, List,
  [], ◌∷◌, ◌==◌, ==_iff, find_where, count_where, sort_by, All, arith, Bool-cases,
}
use multi_agent_ai_platform.Schema.{NodeRun, Node, Edge, Db}
use multi_agent_ai_platform.Workflow.Upstream.{
  Source, source_le, feeds, source_node, resolve_source, sources_among, upstream_sources, gate_fuel,
}

-- Each edge leads to a node of a higher rank: the graph has no cycle.
abbrev pub IsRanked : (ℕ → ℕ) → List Edge → Type 0
IsRanked rank edges = All (λ edge. rank edge.from_node_id < rank edge.to_node_id) edges

feeds-rank :
    (rank : ℕ → ℕ) (edges : List Edge) (target : ℕ) (node : Node)
    → IsRanked rank edges
    → feeds target edges node ≡ true
    → rank node.id < rank target
feeds-rank rank [] target node r h = cc
feeds-rank rank (edge ∷ edges) target node r h =
    elim (Bool-cases (edge.to_node_id == target && edge.from_node_id == node.id)) [
      | inl both ↦
          let to = ap rank ((==_iff edge.to_node_id target).0 (ground arith)) in
          let from = ap rank ((==_iff edge.from_node_id node.id).0 (ground arith)) in
          omega (arith, r.0, to, from)
      | inr neither ↦ feeds-rank rank edges target node r.1 (ground arith)
    ]

found_source-rank :
    (rank : ℕ → ℕ) (edges : List Edge) (nodes : List Node) (source_id target : ℕ) (node : Node)
    → IsRanked rank edges
    → find_where (λ node. node.id == source_id && feeds target edges node) nodes ≡ some node
    → rank source_id < rank target
found_source-rank rank edges [] source_id target node r h = cc
found_source-rank rank edges (x ∷ nodes) source_id target node r h =
    elim (Bool-cases (x.id == source_id && feeds target edges x)) [
      | inl both ↦
          let same = ap rank ((==_iff x.id source_id).0 (ground arith)) in
          let above = feeds-rank rank edges target x r (ground arith) in omega (arith, same, above)
      | inr neither ↦ found_source-rank rank edges nodes source_id target node r (ground arith)
    ]

source_node-rank :
    (rank : ℕ → ℕ) (db : Db) (nr source : NodeRun) (node : Node)
    → IsRanked rank db.edges
    → source_node db nr source ≡ some node
    → rank source.workflow_node_id < rank nr.workflow_node_id
source_node-rank rank db nr source node r h =
    found_source-rank rank db.edges db.nodes source.workflow_node_id nr.workflow_node_id node r
      (ground arith)

resolve_source-cong :
    (f g : NodeRun → List Source) (source : NodeRun) (o : Option Node)
    → ((node : Node) → o ≡ some node → f source ≡ g source)
    → resolve_source f source o ≡ resolve_source g source o
resolve_source-cong f g source none same = refl
resolve_source-cong f g source (some node) same = rw (same node refl) refl

sources_among-cong :
    (f g : NodeRun → List Source) (db : Db) (nr : NodeRun) (rows : List NodeRun)
    → ((source : NodeRun) (node : Node)
        → source_node db nr source ≡ some node
        → f source ≡ g source)
    → sources_among f db nr rows ≡ sources_among g db nr rows
sources_among-cong f g db nr [] same = refl
sources_among-cong f g db nr (source ∷ rows) same =
    rw
      (
        resolve_source-cong f g source (source_node db nr source) (λ node e. same source node e),
        sources_among-cong f g db nr rows same,
      )
      refl

-- Once the fuel is above the rank of the node, more fuel changes nothing.
stable :
    (rank : ℕ → ℕ) (db : Db)
    → IsRanked rank db.edges
    → (fuel : ℕ) (nr : NodeRun) → rank nr.workflow_node_id < fuel
    → upstream_sources (suc fuel) db nr ≡ upstream_sources fuel db nr
unfolding upstream_sources
stable rank db r zero nr h = absurd (omega arith)
stable rank db r (suc fuel) nr h = ap (sort_by source_le) (
    sources_among-cong (upstream_sources (suc fuel) db) (upstream_sources fuel db) db nr
      db.node_runs
      (λ source node e.
        stable rank db r fuel source
          (let lower = source_node-rank rank db nr source node r e in omega (arith, h, lower))))

more_fuel :
    (rank : ℕ → ℕ) (db : Db) (nr : NodeRun)
    → IsRanked rank db.edges
    → (extra fuel : ℕ) → rank nr.workflow_node_id < fuel
    → upstream_sources (extra + fuel) db nr ≡ upstream_sources fuel db nr
more_fuel rank db nr r zero fuel h = ap (λ n. upstream_sources n db nr) (omega arith)
more_fuel rank db nr r (suc extra) fuel h =
    ap (λ n. upstream_sources n db nr) (omega arith)
    ∙ stable rank db r (extra + fuel) nr (omega (arith, h))
    ∙ more_fuel rank db nr r extra fuel h

-- If the nodes have ranks that grow along each edge, and the node's own is at most the number of nodes,
-- then the fuel that a gate's payload uses finds the same sources as any larger fuel.
pub gate_fuel_suffices :
    (rank : ℕ → ℕ) (db : Db) (nr : NodeRun) (extra : ℕ)
    → IsRanked rank db.edges
    → rank nr.workflow_node_id ≤ count_where (λ node. true) db.nodes
    → upstream_sources (extra + gate_fuel db) db nr ≡ upstream_sources (gate_fuel db) db nr
gate_fuel_suffices rank db nr extra r h =
    more_fuel rank db nr r extra (gate_fuel db) (omega (arith, h))
