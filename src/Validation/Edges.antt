-- ===== src/Validation/Edges.antt =====
-- What the checks of the edges report, and that the searches raise no KeyError after them.
use multi_agent_ai_platform.Base.{
  ℕ, ◌≡◌, refl, inl, inr, Bool, true, false, ◌&&◌, some, List, [], ◌∷◌, ◌==◌, ==_iff, select_where,
  arith, Bool-cases, subst, All, Apart,
}
use multi_agent_ai_platform.Schema.{Node, Edge}
use multi_agent_ai_platform.Validation.{
  Arc, has, arc, search, Issue, forward, ids, entry_nodes, all_known, arcs_known, report,
  validate_all_nodes_reachable, validate_edges_reference_valid_nodes, validate_no_duplicate_edges,
  duplicates_from, missed, unreachable_node, is_empty,
}
use multi_agent_ai_platform.Validation.Search.{Walk, stay, go, search_exact}

-- Two edges with the same ends.
abbrev pub SameEnds : Edge → Edge → Type 0
SameEnds a b = (a.from_node_id ≡ b.from_node_id) × (a.to_node_id ≡ b.to_node_id)

abbrev Unseen : List Arc → List Edge → Type 0
Unseen seen edges = All (λ edge. arc edge.from_node_id edge.to_node_id seen ≡ false) edges

seen-split :
    (edge : Edge) (seen : List Arc) (edges : List Edge)
    → Unseen ((edge.from_node_id, edge.to_node_id) ∷ seen) edges
    → All (λ other. ¬ SameEnds edge other) edges × Unseen seen edges
seen-split edge seen [] h = (tt, tt)
seen-split edge seen (other ∷ edges) h =
    let (apart, unseen) = seen-split edge seen edges h.1 in
    ((λ same. ground (arith, h.0, same.0, same.1), apart), (ground (arith, h.0), unseen))

seen-join :
    (edge : Edge) (seen : List Arc) (edges : List Edge)
    → All (λ other. ¬ SameEnds edge other) edges
    → Unseen seen edges
    → Unseen ((edge.from_node_id, edge.to_node_id) ∷ seen) edges
seen-join edge seen [] a u = tt
seen-join edge seen (other ∷ edges) a u = (
  elim (Bool-cases
      (edge.from_node_id == other.from_node_id && edge.to_node_id == other.to_node_id)) [
        | inl same ↦ absurd (
            a.0 (
              (==_iff edge.from_node_id other.from_node_id).0 (ground arith),
              (==_iff edge.to_node_id other.to_node_id).0 (ground arith),
            ))
        | inr differ ↦ ground (arith, u.0)
      ],
  seen-join edge seen edges a.1 u.1,
)

duplicates_from_sound :
    (seen : List Arc) (edges : List Edge)
    → duplicates_from seen edges ≡ []
    → Apart SameEnds edges × Unseen seen edges
unfolding duplicates_from
duplicates_from_sound seen [] h = (tt, tt)
duplicates_from_sound seen (edge ∷ edges) h =
    elim (Bool-cases (arc edge.from_node_id edge.to_node_id seen)) [
      | inl old ↦ absurd (ground arith)
      | inr new ↦
          let (apart, unseen) =
            duplicates_from_sound ((edge.from_node_id, edge.to_node_id) ∷ seen) edges
              (ground arith) in
          let (first, rest) = seen-split edge seen edges unseen in ((first, apart), (new, rest))
    ]

duplicates_from_complete :
    (seen : List Arc) (edges : List Edge)
    → Apart SameEnds edges
    → Unseen seen edges
    → duplicates_from seen edges ≡ []
unfolding duplicates_from
duplicates_from_complete seen [] a u = refl
duplicates_from_complete seen (edge ∷ edges) a u =
    let rest =
      duplicates_from_complete ((edge.from_node_id, edge.to_node_id) ∷ seen) edges a.1
        (seen-join edge seen edges a.0 u.1) in
    ground (arith, u.0)

Unseen-nothing : (edges : List Edge) → Unseen [] edges
Unseen-nothing [] = tt
Unseen-nothing (edge ∷ edges) = (refl, Unseen-nothing edges)

-- The duplicate check reports nothing exactly when no two edges have the same ends.
pub duplicates_exact :
    (edges : List Edge)
    → (validate_no_duplicate_edges edges ≡ [] → Apart SameEnds edges)
      × (Apart SameEnds edges → validate_no_duplicate_edges edges ≡ [])
duplicates_exact edges = (
  λ h. (duplicates_from_sound [] edges h).0,
  λ a. duplicates_from_complete [] edges a (Unseen-nothing edges),
)

arcs_known-valid :
    (nodes : List Node) (edges : List Edge)
    → validate_edges_reference_valid_nodes edges nodes ≡ []
    → arcs_known (forward edges) (ids nodes) ≡ true
unfolding validate_edges_reference_valid_nodes
arcs_known-valid nodes [] h = refl
arcs_known-valid nodes (edge ∷ edges) h = ground (arith, arcs_known-valid nodes edges)

target_known :
    (nodes : List Node) (edges : List Edge) (a b : ℕ)
    → validate_edges_reference_valid_nodes edges nodes ≡ []
    → arc a b (forward edges) ≡ true
    → has b (ids nodes) ≡ true
unfolding validate_edges_reference_valid_nodes
target_known nodes [] a b h step = cc
target_known nodes (edge ∷ edges) a b h step = elim (Bool-cases (edge.to_node_id == b)) [
  | inl same ↦
      subst (λ k. has k (ids nodes) ≡ true) ((==_iff edge.to_node_id b).0 same)
        (elim (Bool-cases (has edge.to_node_id (ids nodes))) [
          | inl known ↦ known
          | inr unknown ↦ absurd (ground arith)
        ])
  | inr other ↦ target_known nodes edges a b (ground arith) (ground arith)
]

selected_has :
    (p : ℕ → Bool) (n : ℕ) (xs : List ℕ) → has n (select_where p xs) ≡ true → has n xs ≡ true
selected_has p n [] h = h
selected_has p n (x ∷ xs) h = ground (arith, selected_has p n xs)

all_known-intro :
    (visited nodes : List ℕ)
    → ((n : ℕ) → has n visited ≡ true → has n nodes ≡ true)
    → all_known visited nodes ≡ true
all_known-intro [] nodes h = refl
all_known-intro (n ∷ visited) nodes h = ground (
  arith,
  h n (ground (arith, (==_iff n n).1 refl)),
  all_known-intro visited nodes (λ m k. h m (ground arith)),
)

Walk-known :
    (nodes : List Node) (edges : List Edge) {s n : ℕ}
    → validate_edges_reference_valid_nodes edges nodes ≡ []
    → Walk (forward edges) s n
    → has s (ids nodes) ≡ true
    → has n (ids nodes) ≡ true
Walk-known nodes edges valid (stay s) h = h
Walk-known nodes edges valid (go {a} {b} c w step) h = target_known nodes edges b c valid step

report-some :
    (issue : ℕ → Issue) (visited nodes : List ℕ)
    → all_known visited nodes ≡ true
    → report issue visited nodes ≡ some (missed issue visited nodes)
report-some issue visited nodes h = rw h refl

-- If the check of the edges' ends reports nothing, then the reachability check raises no KeyError.
pub valid_edges_raise_nothing :
    (nodes : List Node) (edges : List Edge)
    → validate_edges_reference_valid_nodes edges nodes ≡ []
    → (issues : List Issue) × (validate_all_nodes_reachable nodes edges ≡ some issues)
unfolding validate_all_nodes_reachable
valid_edges_raise_nothing nodes edges valid =
    let start = entry_nodes nodes edges in
    let visited = search (forward edges) start in
    let in_graph : (n : ℕ) → has n visited ≡ true → has n (ids nodes) ≡ true = λ n h.
      let (s, is_start, w) = (search_exact (forward edges) start n).0 h in
      Walk-known nodes edges valid w (selected_has _ s (ids nodes) is_start) in
    let reported =
      report-some unreachable_node visited (ids nodes)
        (all_known-intro visited (ids nodes) in_graph) in
    elim (Bool-cases (is_empty nodes)) [
      | inl empty ↦ ([], rw empty refl)
      | inr some_node ↦ elim (Bool-cases (is_empty (entry_nodes nodes edges))) [
        | inl empty ↦ ([], rw some_node (rw empty refl))
        | inr some_entry ↦ (
          missed unreachable_node visited (ids nodes),
          rw some_node (rw some_entry (rw (arcs_known-valid nodes edges valid) reported)),
        )
      ]
    ]
