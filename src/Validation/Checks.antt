-- ===== src/Validation/Checks.antt =====
-- What the structural checks report.
use multi_agent_ai_platform.Base.{
  ℕ, ◌≡◌, refl, sym, ◌∙◌, ap, inl, inr, true, false, some, List, [], ◌∷◌, ◌==◌, ==_iff, arith,
  Bool-cases, subst, Among,
}
use multi_agent_ai_platform.Schema.{Node, Edge}
use multi_agent_ai_platform.Validation.{
  Arc, has, arc, search, Issue, unreachable_node, no_path_to_terminal, not_connected, forward,
  backward, ids, entry_nodes, terminal_nodes, is_empty, missed, report,
  validate_all_nodes_reachable, validate_all_paths_reach_terminal,
}
use multi_agent_ai_platform.Validation.Search.{Walk, stay, go, ReachedFrom, search_exact}

-- The node of an issue about one node.
abbrev pub about : Issue → ℕ
about (unreachable_node id) = id
about (no_path_to_terminal id) = id
about (not_connected id) = id
about _ = 0

pub missed_sound :
    (issue : ℕ → Issue) (visited nodes : List ℕ) (id : ℕ)
    → ((n : ℕ) → about (issue n) ≡ n)
    → Among (issue id) (missed issue visited nodes)
    → has id visited ≡ false
missed_sound issue visited [] id inj m = elim m [ ]
missed_sound issue visited (n ∷ nodes) id inj m = elim (Bool-cases (has n visited)) [
  | inl seen ↦ missed_sound issue visited nodes id inj (rw seen at m)
  | inr fresh ↦ elim (rw fresh at m) [
    | inl e ↦ subst (λ k. has k visited ≡ false) (sym (inj n) ∙ ap about e ∙ inj id) fresh
    | inr rest ↦ missed_sound issue visited nodes id inj rest
  ]
]

pub missed_complete :
    (issue : ℕ → Issue) (visited nodes : List ℕ) (id : ℕ)
    → has id nodes ≡ true
    → has id visited ≡ false
    → Among (issue id) (missed issue visited nodes)
missed_complete issue visited [] id h fresh = absurd (ground arith)
missed_complete issue visited (n ∷ nodes) id h fresh = elim (Bool-cases (n == id)) [
  | inl same ↦
      let e = (==_iff n id).0 same in
      rw (subst (λ k. has k visited ≡ false) (sym e) fresh) (inl (ap issue e))
  | inr other ↦
      let rest = missed_complete issue visited nodes id (ground arith) fresh in
      elim (Bool-cases (has n visited)) [
        | inl seen ↦ rw seen rest
        | inr unseen ↦ rw unseen (inr rest)
      ]
]

report-missed :
    (issue : ℕ → Issue) (visited nodes : List ℕ) (issues : List Issue)
    → report issue visited nodes ≡ some issues
    → missed issue visited nodes ≡ issues
report-missed issue visited nodes issues h = ground arith

reachable-missed :
    (nodes : List Node) (edges : List Edge) (issues : List Issue)
    → validate_all_nodes_reachable nodes edges ≡ some issues
    → is_empty nodes ≡ false
    → is_empty (entry_nodes nodes edges) ≡ false
    → missed unreachable_node (search (forward edges) (entry_nodes nodes edges)) (ids nodes)
      ≡ issues
unfolding validate_all_nodes_reachable
reachable-missed nodes edges issues h some_node some_entry =
    report-missed unreachable_node (search (forward edges) (entry_nodes nodes edges)) (ids nodes)
      issues (ground arith)

terminal-missed :
    (nodes : List Node) (edges : List Edge) (issues : List Issue)
    → validate_all_paths_reach_terminal nodes edges ≡ some issues
    → is_empty nodes ≡ false
    → is_empty (terminal_nodes nodes edges) ≡ false
    → missed no_path_to_terminal (search (backward edges) (terminal_nodes nodes edges)) (ids nodes)
      ≡ issues
unfolding validate_all_paths_reach_terminal
terminal-missed nodes edges issues h some_node some_terminal =
    report-missed no_path_to_terminal (search (backward edges) (terminal_nodes nodes edges))
      (ids nodes) issues (ground arith)

has_node-nonempty :
    (nodes : List Node) (id : ℕ) → has id (ids nodes) ≡ true → is_empty nodes ≡ false
has_node-nonempty [] id h = cc
has_node-nonempty (_ ∷ _) id h = refl

-- An exact search and the report of what it missed.
missed-exact :
    (issue : ℕ → Issue) (arcs : List Arc) (start nodes : List ℕ) (issues : List Issue) (id : ℕ)
    → ((n : ℕ) → about (issue n) ≡ n)
    → missed issue (search arcs start) nodes ≡ issues
    → has id nodes ≡ true
    → (Among (issue id) issues → ReachedFrom arcs start id → ⊥)
      × ((Among (issue id) issues → ⊥) → ReachedFrom arcs start id)
missed-exact issue arcs start nodes issues id inj e h = (
  λ m r.
      let unseen =
        missed_sound issue (search arcs start) nodes id inj (subst (Among (issue id)) (sym e) m) in
      let seen = (search_exact arcs start id).1 r in ground arith,
  λ unreported. elim (Bool-cases (has id (search arcs start))) [
    | inl seen ↦ (search_exact arcs start id).0 seen
    | inr unseen ↦ absurd (
        unreported (
          subst (Among (issue id)) e (missed_complete issue (search arcs start) nodes id h unseen)))
  ],
)

-- If the reachability check ends without a KeyError and there is an entry node, then it reports a
-- node of the graph exactly when no path along the edges leads to it from an entry node.
pub reachable_exact :
    (nodes : List Node) (edges : List Edge) (issues : List Issue) (id : ℕ)
    → validate_all_nodes_reachable nodes edges ≡ some issues
    → is_empty (entry_nodes nodes edges) ≡ false
    → has id (ids nodes) ≡ true
    → (Among (unreachable_node id) issues
        → ReachedFrom (forward edges) (entry_nodes nodes edges) id
        → ⊥)
      × ((Among (unreachable_node id) issues → ⊥)
          → ReachedFrom (forward edges) (entry_nodes nodes edges) id)
reachable_exact nodes edges issues id h some_entry node =
    missed-exact unreachable_node (forward edges) (entry_nodes nodes edges) (ids nodes) issues id
      (λ n. refl)
      (reachable-missed nodes edges issues h (has_node-nonempty nodes id node) some_entry) node

pub arc-backward :
    (edges : List Edge) (a b : ℕ) → arc a b (backward edges) ≡ arc b a (forward edges)
arc-backward [] a b = refl
arc-backward (edge ∷ edges) a b = ground (arith, arc-backward edges a b)

Walk-first : {arcs : List Arc} {a b c : ℕ} → arc a b arcs ≡ true → Walk arcs b c → Walk arcs a c
Walk-first {arcs} {a} step (stay e) = go e (stay a) step
Walk-first step (go c w last) = go c (Walk-first step w) last

Walk-back : (edges : List Edge) {a b : ℕ} → Walk (backward edges) a b → Walk (forward edges) b a
Walk-back edges (stay a) = stay a
Walk-back edges (go {a} {b} c w step) =
    Walk-first (sym (arc-backward edges b c) ∙ step) (Walk-back edges w)

Walk-forth : (edges : List Edge) {a b : ℕ} → Walk (forward edges) b a → Walk (backward edges) a b
Walk-forth edges (stay a) = stay a
Walk-forth edges (go {a} {b} c w step) =
    Walk-first (arc-backward edges c b ∙ step) (Walk-forth edges w)

-- Some terminal node that a path along the edges leads to.
abbrev pub ReachesTerminal : List Node → List Edge → ℕ → Type 0
ReachesTerminal nodes edges id =
    (t : ℕ) × (has t (terminal_nodes nodes edges) ≡ true) × Walk (forward edges) id t

-- If the terminal check ends without a KeyError and there is a terminal node, then it reports a node
-- of the graph exactly when no path along the edges leads from it to a terminal node.
pub terminal_path_exact :
    (nodes : List Node) (edges : List Edge) (issues : List Issue) (id : ℕ)
    → validate_all_paths_reach_terminal nodes edges ≡ some issues
    → is_empty (terminal_nodes nodes edges) ≡ false
    → has id (ids nodes) ≡ true
    → (Among (no_path_to_terminal id) issues → ReachesTerminal nodes edges id → ⊥)
      × ((Among (no_path_to_terminal id) issues → ⊥) → ReachesTerminal nodes edges id)
terminal_path_exact nodes edges issues id h some_terminal node =
    let exact =
      missed-exact no_path_to_terminal (backward edges) (terminal_nodes nodes edges) (ids nodes)
        issues id (λ n. refl)
        (terminal-missed nodes edges issues h (has_node-nonempty nodes id node) some_terminal)
        node in
    (
      λ m r. exact.0 m (r.0, r.1, Walk-forth edges r.2),
      λ unreported. let r = exact.1 unreported in (r.0, r.1, Walk-back edges r.2),
    )
