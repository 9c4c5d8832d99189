-- ===== src/Validation/Samples.antt =====
-- Small graphs, and the theorems of the checks applied to them.
use multi_agent_ai_platform.Base.{ℕ, ◌≡◌, refl, true, none, some, List, [], ◌∷◌, Among}
use multi_agent_ai_platform.Schema.{NodeType, Node, Edge}
use multi_agent_ai_platform.Validation.{
  has, bfs, search, Issue, unreachable_node, no_path_to_terminal, not_connected, unknown_to,
  forward, entry_nodes, validate_all_nodes_reachable, validate_all_paths_reach_terminal,
  validate_edges_reference_valid_nodes, duplicates_from, validate_connectivity,
}
use multi_agent_ai_platform.Validation.Search.{ReachedFrom, search_exact}
use multi_agent_ai_platform.Validation.Checks.{
  ReachesTerminal, reachable_exact, terminal_path_exact,
}
use multi_agent_ai_platform.Base.{some, not, exists_where, sort_by, insert_by}
use multi_agent_ai_platform.Validation.{is_empty, conditional_edge, fans_out}
use multi_agent_ai_platform.Validation.Branches.{
  validate_no_conditional_edges, validate_max_fan_out,
}
use multi_agent_ai_platform.Validation.Guards.{start_guards_agree}
use multi_agent_ai_platform.Workflow.Start.{is_conditional, fans_out_above}
use multi_agent_ai_platform.Validation.Connected.{Connected, connectivity_exact}

abbrev a_node : ℕ → Node
a_node id = record {
  id = id;
  workflow_version_id = 1;
  node_key = id;
  node_type = NodeType.agent;
  approval_group = none;
  agent_version_id = none;
  model_policy_override = none;
  evaluation_definition_version_id = none;
  evaluator_agent_version_id = none;
}

abbrev an_edge : ℕ → ℕ → Edge
an_edge from to = record {
  workflow_version_id = 1;
  from_node_id = from;
  to_node_id = to;
  condition = none;
}

-- 1 leads to 2; 3 and 4 lead to each other.
abbrev four_nodes : List Node
four_nodes = a_node 1 ∷ a_node 2 ∷ a_node 3 ∷ a_node 4 ∷ []

abbrev split_edges : List Edge
split_edges = an_edge 1 2 ∷ an_edge 3 4 ∷ an_edge 4 3 ∷ []

abbrev split_issues : List Issue
split_issues = unreachable_node 3 ∷ unreachable_node 4 ∷ []

program : Unit {0}
unfolding bfs validate_all_nodes_reachable validate_all_paths_reach_terminal
    validate_edges_reference_valid_nodes duplicates_from validate_connectivity
    validate_no_conditional_edges validate_max_fan_out sort_by insert_by
program = tt

reports : validate_all_nodes_reachable four_nodes split_edges ≡ some split_issues
unfolding program
reports = refl

-- An edge to a node of another version: the first check has an issue for it, and the search raises.
abbrev dangling_edges : List Edge
dangling_edges = an_edge 1 9 ∷ []

dangling_is_reported :
    validate_edges_reference_valid_nodes dangling_edges four_nodes ≡ unknown_to 9 ∷ []
unfolding program
dangling_is_reported = refl

dangling_raises : validate_all_nodes_reachable four_nodes dangling_edges ≡ none
unfolding program
dangling_raises = refl

search_exact_example :
    (has 2 (search (forward split_edges) (1 ∷ [])) ≡ true
      → ReachedFrom (forward split_edges) (1 ∷ []) 2)
    × (ReachedFrom (forward split_edges) (1 ∷ []) 2
        → has 2 (search (forward split_edges) (1 ∷ [])) ≡ true)
search_exact_example = search_exact (forward split_edges) (1 ∷ []) 2

reachable_exact_example :
    (Among (unreachable_node 3) split_issues
      → ReachedFrom (forward split_edges) (entry_nodes four_nodes split_edges) 3
      → ⊥)
    × ((Among (unreachable_node 3) split_issues → ⊥)
        → ReachedFrom (forward split_edges) (entry_nodes four_nodes split_edges) 3)
unfolding program
reachable_exact_example = reachable_exact four_nodes split_edges split_issues 3 refl refl refl

terminal_path_exact_example :
    (Among (no_path_to_terminal 1) (no_path_to_terminal 3 ∷ no_path_to_terminal 4 ∷ [])
      → ReachesTerminal four_nodes split_edges 1
      → ⊥)
    × ((Among (no_path_to_terminal 1) (no_path_to_terminal 3 ∷ no_path_to_terminal 4 ∷ []) → ⊥)
        → ReachesTerminal four_nodes split_edges 1)
unfolding program
terminal_path_exact_example =
    terminal_path_exact four_nodes split_edges (no_path_to_terminal 3 ∷ no_path_to_terminal 4 ∷ [])
      1 refl refl refl

-- 2 leads to 1, so the undirected search from 1 finds it; 3 and 4 are apart.
abbrev two_islands : List Edge
two_islands = an_edge 2 1 ∷ an_edge 3 4 ∷ []

islands_are_reported :
    validate_connectivity four_nodes two_islands ≡ some (not_connected 3 ∷ not_connected 4 ∷ [])
unfolding program
islands_are_reported = refl

connected_graph_passes :
    validate_connectivity four_nodes (an_edge 2 4 ∷ an_edge 3 4 ∷ an_edge 1 3 ∷ []) ≡ some []
unfolding program
connected_graph_passes = refl

connectivity_exact_example :
    (Among (not_connected 2) (not_connected 3 ∷ not_connected 4 ∷ [])
      → Connected 1 two_islands 2
      → ⊥)
    × ((Among (not_connected 2) (not_connected 3 ∷ not_connected 4 ∷ []) → ⊥)
        → Connected 1 two_islands 2)
unfolding program
connectivity_exact_example =
    connectivity_exact (a_node 1) (a_node 2 ∷ a_node 3 ∷ a_node 4 ∷ []) two_islands
      (not_connected 3 ∷ not_connected 4 ∷ []) 2 refl refl

abbrev a_condition : Edge
a_condition = record (an_edge 1 2) { condition = some 0 }

-- 2 and 1 have two branches each; the reports are in the order of the nodes' keys.
abbrev wide_edges : List Edge
wide_edges = an_edge 2 3 ∷ a_condition ∷ an_edge 2 4 ∷ an_edge 1 3 ∷ []

wide_is_reported : validate_max_fan_out 1 four_nodes wide_edges ≡ fans_out 1 2 ∷ fans_out 2 2 ∷ []
unfolding program
wide_is_reported = refl

two_branches_pass : validate_max_fan_out 2 four_nodes wide_edges ≡ []
unfolding program
two_branches_pass = refl

condition_is_reported : validate_no_conditional_edges wide_edges ≡ conditional_edge 1 2 ∷ []
unfolding program
condition_is_reported = refl

start_guards_agree_example :
    (exists_where is_conditional wide_edges
      ≡ not (is_empty (validate_no_conditional_edges wide_edges)))
    × (fans_out_above 1 wide_edges ≡ not (is_empty (validate_max_fan_out 1 four_nodes wide_edges)))
start_guards_agree_example = start_guards_agree 1 four_nodes wide_edges
