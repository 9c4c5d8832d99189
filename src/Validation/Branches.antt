-- ===== src/Validation/Branches.antt =====
-- The checks of the conditions and the fan-out, `_validate_no_conditional_edges` and
-- `_validate_max_fan_out` of app/services/workflow_validation_service.py.
use multi_agent_ai_platform.Base.{
  ℕ, suc, Bool, Option, none, some, List, [], ◌∷◌, ltb, leb, ◌==◌, if◌then◌else◌, find_where,
  is_none, sort_by,
}
use multi_agent_ai_platform.Schema.{Node, Edge}
use multi_agent_ai_platform.Validation.{Issue, conditional_edge, fans_out}

unfoldable pub validate_no_conditional_edges : List Edge → List Issue
validate_no_conditional_edges [] = []
validate_no_conditional_edges (edge ∷ edges) =
    let rest = validate_no_conditional_edges edges in
    if is_none edge.condition
    then rest
    else conditional_edge edge.from_node_id edge.to_node_id ∷ rest

-- `outgoing[from_id] = outgoing.get(from_id, 0) + 1`, in a table that keeps the order of insertion.
abbrev pub count_one : ℕ → List (ℕ × ℕ) → List (ℕ × ℕ)
count_one id [] = (id, 1) ∷ []
count_one id (entry ∷ entries) =
    let later = count_one id entries in
    if entry.0 == id then (entry.0, suc entry.1) ∷ entries else entry ∷ later

abbrev pub count_outgoing : List (ℕ × ℕ) → List Edge → List (ℕ × ℕ)
count_outgoing outgoing [] = outgoing
count_outgoing outgoing (edge ∷ edges) = count_outgoing (count_one edge.from_node_id outgoing) edges

abbrev key_or : ℕ → Option Node → ℕ
key_or id none = id
key_or id (some node) = node.node_key

-- The key of a node, or the id if the node is not of this version.
abbrev pub key_of : List Node → ℕ → ℕ
key_of nodes id = key_or id (find_where (λ node. node.id == id) nodes)

abbrev pub key_le : List Node → ℕ × ℕ → ℕ × ℕ → Bool
key_le nodes a b = leb (key_of nodes a.0) (key_of nodes b.0)

abbrev pub too_many : ℕ → List (ℕ × ℕ) → List Issue
too_many limit [] = []
too_many limit (entry ∷ entries) =
    let rest = too_many limit entries in
    if ltb limit entry.1 then fans_out entry.0 entry.1 ∷ rest else rest

unfoldable pub validate_max_fan_out : ℕ → List Node → List Edge → List Issue
validate_max_fan_out limit nodes edges =
    too_many limit (sort_by (key_le nodes) (count_outgoing [] edges))
