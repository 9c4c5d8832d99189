-- ===== src/Validation/Guards.antt =====
-- The guards of a run's start, `start_workflow_run` of app/services/workflow_execution_service.py, test
-- what the publishing checks report.
use multi_agent_ai_platform.Base.{
  ℕ, suc, ◌+◌, ◌≡◌, refl, sym, ◌∙◌, ap, inl, inr, Bool, true, false, not, ◌||◌, ◌&&◌, List, [], ◌∷◌,
  ltb, ◌==◌, ==_iff, if◌then◌else◌, exists_where, count_where, insert_by, sort_by, arith,
  Bool-cases, subst,
}
use multi_agent_ai_platform.Schema.{Node, Edge}
use multi_agent_ai_platform.Validation.{is_empty}
use multi_agent_ai_platform.Validation.Branches.{
  count_one, count_outgoing, key_le, too_many, validate_max_fan_out, validate_no_conditional_edges,
}
use multi_agent_ai_platform.Workflow.Start.{is_conditional, fans_out_above}

conditional_agrees :
    (edges : List Edge)
    → exists_where is_conditional edges ≡ not (is_empty (validate_no_conditional_edges edges))
unfolding validate_no_conditional_edges
conditional_agrees [] = refl
conditional_agrees (edge ∷ edges) = ground (arith, conditional_agrees edges)

abbrev Counts : Type 0
Counts = List (ℕ × ℕ)

-- The number that a table holds for an id, 0 without an entry.
abbrev count_for : ℕ → Counts → ℕ
count_for id [] = 0
count_for id (entry ∷ entries) =
    let later = count_for id entries in if entry.0 == id then entry.1 else later

abbrev from : ℕ → List Edge → ℕ
from id edges = count_where (λ other. other.from_node_id == id) edges

count_for-count_one_same :
    (id : ℕ) (counts : Counts) → count_for id (count_one id counts) ≡ suc (count_for id counts)
count_for-count_one_same id [] = ground arith
count_for-count_one_same id (entry ∷ counts) = ground (arith, count_for-count_one_same id counts)

count_for-count_one_other :
    (id other : ℕ) (counts : Counts)
    → (other == id) ≡ false
    → count_for id (count_one other counts) ≡ count_for id counts
count_for-count_one_other id other [] h = ground arith
count_for-count_one_other id other (entry ∷ counts) h = elim (Bool-cases (entry.0 == other)) [
  | inl same ↦
      let e : (entry.0 == id) ≡ false =
        subst (λ k. (k == id) ≡ false) (sym ((==_iff entry.0 other).0 same)) h in
      ground arith
  | inr differs ↦ ground (arith, count_for-count_one_other id other counts h)
]

count_for-count_outgoing :
    (id : ℕ) (counts : Counts) (edges : List Edge)
    → count_for id (count_outgoing counts edges) ≡ count_for id counts + from id edges
count_for-count_outgoing id counts [] = omega arith
count_for-count_outgoing id counts (edge ∷ edges) = elim (Bool-cases (edge.from_node_id == id)) [
  | inl same ↦
      let e = (==_iff edge.from_node_id id).0 same in
      let one : count_for id (count_one edge.from_node_id counts) ≡ suc (count_for id counts) =
        subst (λ k. count_for id (count_one k counts) ≡ suc (count_for id counts)) (sym e)
          (count_for-count_one_same id counts) in
      ground (arith, count_for-count_outgoing id (count_one edge.from_node_id counts) edges)
  | inr other ↦ ground (
    arith,
    count_for-count_outgoing id (count_one edge.from_node_id counts) edges,
    count_for-count_one_other id edge.from_node_id counts other,
  )
]

abbrev has_key : ℕ → Counts → Bool
has_key id counts = exists_where (λ entry. entry.0 == id) counts

abbrev has_distinct_keys : Counts → Bool
has_distinct_keys [] = true
has_distinct_keys (entry ∷ counts) = not (has_key entry.0 counts) && has_distinct_keys counts

has_key-count_one :
    (key id : ℕ) (counts : Counts)
    → has_key key (count_one id counts) ≡ (has_key key counts || (id == key))
has_key-count_one key id [] = ground arith
has_key-count_one key id (entry ∷ counts) = elim (Bool-cases (entry.0 == id)) [
  | inl same ↦
      let e : (entry.0 == key) ≡ (id == key) = ap (λ k. k == key) ((==_iff entry.0 id).0 same) in
      ground arith
  | inr other ↦ ground (arith, has_key-count_one key id counts)
]

count_one-distinct :
    (id : ℕ) (counts : Counts)
    → has_distinct_keys counts ≡ true
    → has_distinct_keys (count_one id counts) ≡ true
count_one-distinct id [] h = refl
count_one-distinct id (entry ∷ counts) h = elim (Bool-cases (entry.0 == id)) [
  | inl same ↦ ground arith
  | inr other ↦
      let other' : (id == entry.0) ≡ false = ground arith in
      ground (arith, has_key-count_one entry.0 id counts, count_one-distinct id counts)
]

count_outgoing-distinct :
    (counts : Counts) (edges : List Edge)
    → has_distinct_keys counts ≡ true
    → has_distinct_keys (count_outgoing counts edges) ≡ true
count_outgoing-distinct counts [] h = h
count_outgoing-distinct counts (edge ∷ edges) h =
    count_outgoing-distinct (count_one edge.from_node_id counts) edges
      (count_one-distinct edge.from_node_id counts h)

abbrev exceeds : ℕ → Counts → Bool
exceeds limit counts = exists_where (λ entry. ltb limit entry.1) counts

counted-has_key :
    (limit id : ℕ) (counts : Counts)
    → ltb limit (count_for id counts) ≡ true
    → has_key id counts ≡ true
counted-has_key limit id [] h = absurd (ground arith)
counted-has_key limit id (entry ∷ counts) h = ground (arith, counted-has_key limit id counts)

counted-exceeds :
    (limit id : ℕ) (counts : Counts)
    → ltb limit (count_for id counts) ≡ true
    → exceeds limit counts ≡ true
counted-exceeds limit id [] h = absurd (ground arith)
counted-exceeds limit id (entry ∷ counts) h = ground (arith, counted-exceeds limit id counts)

exceeds-counted :
    (limit : ℕ) (counts : Counts)
    → has_distinct_keys counts ≡ true
    → exceeds limit counts ≡ true
    → (id : ℕ) × (ltb limit (count_for id counts) ≡ true)
exceeds-counted limit [] d h = absurd (ground arith)
exceeds-counted limit (entry ∷ counts) d h = elim (Bool-cases (ltb limit entry.1)) [
  | inl large ↦ (entry.0, ground arith)
  | inr small ↦
      let (id, found) = exceeds-counted limit counts (ground arith) (ground arith) in
      elim (Bool-cases (entry.0 == id)) [
        | inl same ↦
            let key = counted-has_key limit id counts found in
            let fresh : has_key id counts ≡ false =
              subst (λ k. has_key k counts ≡ false) ((==_iff entry.0 id).0 same) (ground arith) in
            absurd (ground arith)
        | inr other ↦ (id, ground arith)
      ]
]

exceeds-insert_by :
    (limit : ℕ) (le : ℕ × ℕ → ℕ × ℕ → Bool) (entry : ℕ × ℕ) (counts : Counts)
    → exceeds limit (insert_by le entry counts) ≡ (ltb limit entry.1 || exceeds limit counts)
unfolding insert_by
exceeds-insert_by limit le entry [] = refl
exceeds-insert_by limit le entry (other ∷ counts) =
    ground (arith, exceeds-insert_by limit le entry counts)

exceeds-sort_by :
    (limit : ℕ) (le : ℕ × ℕ → ℕ × ℕ → Bool) (counts : Counts)
    → exceeds limit (sort_by le counts) ≡ exceeds limit counts
unfolding sort_by
exceeds-sort_by limit le [] = refl
exceeds-sort_by limit le (entry ∷ counts) =
    ground
      (arith, exceeds-insert_by limit le entry (sort_by le counts), exceeds-sort_by limit le counts)

exceeds-too_many :
    (limit : ℕ) (counts : Counts) → exceeds limit counts ≡ not (is_empty (too_many limit counts))
exceeds-too_many limit [] = refl
exceeds-too_many limit (entry ∷ counts) = ground (arith, exceeds-too_many limit counts)

module _ (limit : ℕ) (all : List Edge) where
  abbrev is_wide : Edge → Bool
  is_wide edge = ltb limit (from edge.from_node_id all)

  wide-from :
      (edges : List Edge)
      → exists_where is_wide edges ≡ true
      → (id : ℕ) × (ltb limit (from id all) ≡ true)
  wide-from [] h = absurd (ground arith)
  wide-from (edge ∷ edges) h = elim (Bool-cases (is_wide edge)) [
    | inl wide ↦ (edge.from_node_id, wide)
    | inr narrow ↦ wide-from edges (ground arith)
  ]

  from-wide :
      (id : ℕ) (edges : List Edge)
      → ltb limit (from id all) ≡ true
      → ltb 0 (from id edges) ≡ true
      → exists_where is_wide edges ≡ true
  from-wide id [] h some_edge = absurd (ground arith)
  from-wide id (edge ∷ edges) h some_edge = elim (Bool-cases (edge.from_node_id == id)) [
    | inl same ↦
        let wide : is_wide edge ≡ true =
          subst (λ k. ltb limit (from k all) ≡ true) (sym ((==_iff edge.from_node_id id).0 same))
            h in
        ground arith
    | inr other ↦ ground (arith, from-wide id edges h)
  ]

fan_out_agrees :
    (limit : ℕ) (nodes : List Node) (edges : List Edge)
    → fans_out_above limit edges ≡ not (is_empty (validate_max_fan_out limit nodes edges))
unfolding validate_max_fan_out
fan_out_agrees limit nodes edges =
    let counts = count_outgoing [] edges in
    let total : (id : ℕ) → count_for id counts ≡ from id edges =
      λ id. ground (arith, count_for-count_outgoing id [] edges) in
    let up : fans_out_above limit edges ≡ true → exceeds limit counts ≡ true = λ h.
      let (id, wide) = wide-from limit edges edges h in
      counted-exceeds limit id counts (ground (arith, total id)) in
    let down : exceeds limit counts ≡ true → fans_out_above limit edges ≡ true = λ h.
      let (id, found) = exceeds-counted limit counts (count_outgoing-distinct [] edges refl) h in
      let wide : ltb limit (from id edges) ≡ true = ground (arith, total id) in
      from-wide limit edges id edges wide (ground arith) in
    let same : fans_out_above limit edges ≡ exceeds limit counts =
      elim (Bool-cases (fans_out_above limit edges)) [
        | inl h ↦ h ∙ sym (up h)
        | inr h ↦ elim (Bool-cases (exceeds limit counts)) [
          | inl e ↦ absurd (ground (arith, down e))
          | inr e ↦ h ∙ sym e
        ]
      ] in
    same
    ∙ (sym (exceeds-sort_by limit (key_le nodes) counts)
        ∙ exceeds-too_many limit (sort_by (key_le nodes) counts))

-- Whatever the limit, the start of a run finds a conditional edge exactly when publishing reports one,
-- and finds a node that fans out too far exactly when publishing reports one.
pub start_guards_agree :
    (limit : ℕ) (nodes : List Node) (edges : List Edge)
    → (exists_where is_conditional edges ≡ not (is_empty (validate_no_conditional_edges edges)))
      × (fans_out_above limit edges ≡ not (is_empty (validate_max_fan_out limit nodes edges)))
start_guards_agree limit nodes edges = (conditional_agrees edges, fan_out_agrees limit nodes edges)
