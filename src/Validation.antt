-- ===== src/Validation.antt =====
-- The structural checks of a workflow graph, app/services/workflow_validation_service.py: edges, entry
-- and terminal nodes, and the two searches. An arc is a pair of node ids in the direction in which the
-- search goes. `none` is the KeyError of `adj[..]` for an edge to a node that is not of this version.
pub mod Search
pub mod Checks
pub mod Edges
pub mod Connected
pub mod Branches
pub mod Guards
pub mod Samples
use multi_agent_ai_platform.Base.{
  ℕ, zero, suc, ◌+◌, Bool, true, false, not, ◌&&◌, ◌||◌, Option, none, some, List, [], ◌∷◌, ◌++◌,
  map, ltb, ◌==◌, if◌then◌else◌, length, exists_where, all_where, select_where, count_where,
}
use multi_agent_ai_platform.Schema.{NodeType, terminal, Node, Edge}

abbrev pub Arc : Type 0
Arc = ℕ × ℕ

abbrev pub has : ℕ → List ℕ → Bool
has n visited = exists_where (λ x. x == n) visited

abbrev pub arc : ℕ → ℕ → List Arc → Bool
arc source target arcs = exists_where (λ a. a.0 == source && a.1 == target) arcs

-- The neighbours of `n` that the inner loop appends.
abbrev pub targets : ℕ → List ℕ → List Arc → List ℕ
targets n visited [] = []
targets n visited (a ∷ arcs) =
    let rest = targets n visited arcs in
    if a.0 == n && not (has a.1 visited) then a.1 ∷ rest else rest

-- The `while queue` loop, with the rounds that are left.
unfoldable pub bfs : ℕ → List Arc → List ℕ → List ℕ → List ℕ
bfs zero arcs queue visited = visited
bfs (suc fuel) arcs [] visited = visited
bfs (suc fuel) arcs (n ∷ queue) visited =
    let skipped = bfs fuel arcs queue visited in
    let added = bfs fuel arcs (queue ++ targets n (n ∷ visited) arcs) (n ∷ visited) in
    if has n visited then skipped else added

-- One round for each start and each arc.
abbrev pub search : List Arc → List ℕ → List ℕ
search arcs queue = bfs (length queue + length arcs) arcs queue []

pub data Issue : Type 0 where
  no_nodes no_entry no_terminal : Issue
  unknown_from unknown_to self_edge unreachable_node no_path_to_terminal not_connected : ℕ → Issue
  duplicate_edge conditional_edge fans_out : ℕ → ℕ → Issue

abbrev pub forward : List Edge → List Arc
forward edges = map (λ edge. (edge.from_node_id, edge.to_node_id)) edges

abbrev pub backward : List Edge → List Arc
backward edges = map (λ edge. (edge.to_node_id, edge.from_node_id)) edges

abbrev pub ids : List Node → List ℕ
ids nodes = map (λ node. node.id) nodes

unfoldable pub validate_has_nodes : List Node → List Issue
validate_has_nodes [] = no_nodes ∷ []
validate_has_nodes (_ ∷ _) = []

abbrev unknown : Bool → Issue → List Issue
unknown true issue = []
unknown false issue = issue ∷ []

unfoldable pub validate_edges_reference_valid_nodes : List Edge → List Node → List Issue
validate_edges_reference_valid_nodes [] nodes = []
validate_edges_reference_valid_nodes (edge ∷ edges) nodes =
    unknown (has edge.from_node_id (ids nodes)) (unknown_from edge.from_node_id)
    ++ (unknown (has edge.to_node_id (ids nodes)) (unknown_to edge.to_node_id)
        ++ validate_edges_reference_valid_nodes edges nodes)

unfoldable pub validate_no_self_edges : List Edge → List Issue
validate_no_self_edges [] = []
validate_no_self_edges (edge ∷ edges) =
    unknown (not (edge.from_node_id == edge.to_node_id)) (self_edge edge.from_node_id)
    ++ validate_no_self_edges edges

unfoldable pub duplicates_from : List Arc → List Edge → List Issue
duplicates_from seen [] = []
duplicates_from seen (edge ∷ edges) =
    unknown (not (arc edge.from_node_id edge.to_node_id seen))
      (duplicate_edge edge.from_node_id edge.to_node_id)
    ++ duplicates_from ((edge.from_node_id, edge.to_node_id) ∷ seen) edges

abbrev pub validate_no_duplicate_edges : List Edge → List Issue
validate_no_duplicate_edges edges = duplicates_from [] edges

-- The nodes without an incoming edge.
abbrev pub entry_nodes : List Node → List Edge → List ℕ
entry_nodes nodes edges =
    select_where (λ id. not (exists_where (λ edge. edge.to_node_id == id) edges)) (ids nodes)

abbrev is_terminal_type : NodeType → Bool
is_terminal_type terminal = true
is_terminal_type _ = false

-- No outgoing edges, or of the type TERMINAL.
abbrev pub is_terminal : List Edge → Node → Bool
is_terminal edges node =
    not (exists_where (λ edge. edge.from_node_id == node.id) edges)
    || is_terminal_type node.node_type

abbrev pub terminal_nodes : List Node → List Edge → List ℕ
terminal_nodes nodes edges = ids (select_where (is_terminal edges) nodes)

abbrev pub is_empty : {A : Type 0} → List A → Bool
is_empty [] = true
is_empty (_ ∷ _) = false

unfoldable pub validate_entry_structure : List Node → List Edge → List Issue
validate_entry_structure nodes edges =
    if is_empty nodes then [] else if is_empty (entry_nodes nodes edges) then no_entry ∷ [] else []

unfoldable pub validate_terminal_structure : List Node → List Edge → List Issue
validate_terminal_structure nodes edges =
    if is_empty nodes
    then []
    else if is_empty (terminal_nodes nodes edges)
    then no_terminal ∷ []
    else []

-- One issue for each node that the search has not visited. The source takes them from a set, in an
-- order of its own.
abbrev pub missed : (ℕ → Issue) → List ℕ → List ℕ → List Issue
missed issue visited nodes = map issue (select_where (λ id. not (has id visited)) nodes)

-- The table `adj` has a key for each node: the first of each arc is looked up while the table is
-- filled, and each visited id during the search.
abbrev pub all_known : List ℕ → List ℕ → Bool
all_known visited nodes = all_where (λ id. has id nodes) visited

abbrev pub arcs_known : List Arc → List ℕ → Bool
arcs_known arcs nodes = all_where (λ a. has a.0 nodes) arcs

abbrev pub report : (ℕ → Issue) → List ℕ → List ℕ → Option (List Issue)
report issue visited nodes =
    if all_known visited nodes then some (missed issue visited nodes) else none

unfoldable pub validate_all_nodes_reachable : List Node → List Edge → Option (List Issue)
validate_all_nodes_reachable nodes edges =
    if is_empty nodes
    then some []
    else if is_empty (entry_nodes nodes edges)
    then some []
    else if not (arcs_known (forward edges) (ids nodes))
    then none
    else report unreachable_node (search (forward edges) (entry_nodes nodes edges)) (ids nodes)

unfoldable pub validate_all_paths_reach_terminal : List Node → List Edge → Option (List Issue)
validate_all_paths_reach_terminal nodes edges =
    if is_empty nodes
    then some []
    else if not (arcs_known (backward edges) (ids nodes))
    then none
    else if is_empty (terminal_nodes nodes edges)
    then some []
    else report no_path_to_terminal (search (backward edges) (terminal_nodes nodes edges))
        (ids nodes)

-- The undirected adjacency, which holds each edge in both directions.
abbrev pub linked : List Edge → List Arc
linked edges = forward edges ++ backward edges

abbrev pub unlinked : List ℕ → List ℕ → List Issue
unlinked visited nodes =
    if ltb (length visited) (length nodes) then missed not_connected visited nodes else []

unfoldable pub validate_connectivity : List Node → List Edge → Option (List Issue)
validate_connectivity [] edges = some []
validate_connectivity (_ ∷ []) edges = some []
validate_connectivity (first ∷ second ∷ rest) edges =
    if not (arcs_known (linked edges) (ids (first ∷ second ∷ rest)))
    then none
    else some (unlinked (search (linked edges) (first.id ∷ [])) (ids (first ∷ second ∷ rest)))
