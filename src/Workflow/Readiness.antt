-- ===== src/Workflow/Readiness.antt =====
-- Which nodes `_find_ready_nodes` offers, and what the summary status means.
use multi_agent_ai_platform.Base.{
  ℕ, ◌≡◌, ◌≤◌, ◌==◌, ==_iff, ◌&&◌, sym, ◌∙◌, subst, map, all_where, find_where, Bool-cases,
  Option-cases, Apart-Among, find_where-Among, find_where-hit, refl, inl, inr, Bool, true, some,
  List, [], ◌∷◌, select_where, All, Among, arith, All-Among, select_where-Among, Among-select_where,
  IsOrder, IsSorted, sort_by, sort_by-All, sort_by-IsSorted, sort_by-Among,
}
use multi_agent_ai_platform.Schema.{NodeStatus, WorkflowRun, NodeRun, Edge, Db}
use multi_agent_ai_platform.Workflow.Store.{fresh_run, fresh_node_runs, latest_by_node}
use multi_agent_ai_platform.Workflow.Latest.{AttemptsUnique, SameAttempt, latest_by_node_lem}
use multi_agent_ai_platform.Workflow.Ready.{
  source_completed, is_ready, node_key_of, key_le, find_ready_nodes,
}

key_le-IsOrder : (key : ℕ → ℕ) → IsOrder (key_le key)
key_le-IsOrder key = record { total = λ x y e. ground arith; trans = λ x y z e f. ground arith }

All-of :
    (P : NodeRun → Type 0) (rows : List NodeRun)
    → ((nr : NodeRun) → Among nr rows → P nr)
    → All P rows
All-of P [] h = tt
All-of P (nr ∷ rows) h = (h nr (inl refl), All-of P rows (λ x m. h x (inr m)))

-- The newest attempt of a node in a run is there and COMPLETED.
abbrev pub NewestCompleted : ℕ → Db → ℕ → Type 0
NewestCompleted run_id db node_id =
    (s : NodeRun) × Among s db.node_runs
    × (s.workflow_run_id ≡ run_id)
    × (s.workflow_node_id ≡ node_id)
    × (s.status ≡ NodeStatus.completed)
    × ((t : NodeRun)
        → Among t db.node_runs
        → t.workflow_run_id ≡ run_id
        → t.workflow_node_id ≡ node_id
        → t.iteration ≤ s.iteration)

-- A PENDING node run of the run, such that each edge into its node, of the run's version, comes from a
-- node whose newest attempt is COMPLETED.
abbrev pub IsReady : WorkflowRun → Db → NodeRun → Type 0
IsReady run db nr =
    Among nr db.node_runs
    × (nr.workflow_run_id ≡ run.id)
    × (nr.status ≡ NodeStatus.pending)
    × ((edge : Edge)
        → Among edge db.edges
        → edge.workflow_version_id ≡ run.workflow_version_id
        → edge.to_node_id ≡ nr.workflow_node_id
        → NewestCompleted run.id db edge.from_node_id)

all_where-map :
    (p : ℕ → Bool) (f : Edge → ℕ) (q : Edge → Bool) (edges : List Edge) (edge : Edge)
    → all_where p (map f (select_where q edges)) ≡ true
    → Among edge edges
    → q edge ≡ true
    → p (f edge) ≡ true
all_where-map p f q [] edge h m hit = elim m [ ]
all_where-map p f q (x ∷ edges) edge h (inl e) hit =
    let hit' : q x ≡ true = subst (λ (y : Edge). q y ≡ true) (sym e) hit in
    subst (λ (y : Edge). p (f y) ≡ true) e (ground arith)
all_where-map p f q (x ∷ edges) edge h (inr m) hit = elim (Bool-cases (q x)) [
  | inl taken ↦ all_where-map p f q edges edge (ground arith) m hit
  | inr left ↦ all_where-map p f q edges edge (ground arith) m hit
]

all_where-intro :
    (p : ℕ → Bool) (f : Edge → ℕ) (q : Edge → Bool) (edges : List Edge)
    → ((edge : Edge) → Among edge edges → q edge ≡ true → p (f edge) ≡ true)
    → all_where p (map f (select_where q edges)) ≡ true
all_where-intro p f q [] h = refl
all_where-intro p f q (x ∷ edges) h =
    let rest = all_where-intro p f q edges (λ edge m hit. h edge (inr m) hit) in
    elim (Bool-cases (q x)) [
      | inl taken ↦ let first = h x (inl refl) taken in ground arith
      | inr left ↦ ground arith
    ]

module _ (run : WorkflowRun) (db : Db) (unique : AttemptsUnique db.node_runs) where
  abbrev mine : List NodeRun
  mine = fresh_node_runs run.id db

  in_run : (nr : NodeRun) → Among nr mine → Among nr db.node_runs × (nr.workflow_run_id ≡ run.id)
  in_run nr m =
      let (row, holds) = select_where-Among (λ x. x.workflow_run_id == run.id) db.node_runs nr m in
      (row, (==_iff nr.workflow_run_id run.id).0 holds)

  of_run : (nr : NodeRun) → Among nr db.node_runs → nr.workflow_run_id ≡ run.id → Among nr mine
  of_run nr m e =
      Among-select_where (λ x. x.workflow_run_id == run.id) db.node_runs nr m
        ((==_iff nr.workflow_run_id run.id).1 e)

  completed_sound :
      (node_id : ℕ)
      → source_completed (latest_by_node mine) node_id ≡ true
      → NewestCompleted run.id db node_id
  completed_sound node_id h =
      elim (Option-cases (find_where (λ x. x.workflow_node_id == node_id) (latest_by_node mine))) [
        | inl absent ↦ absurd (ground arith)
        | inr (s, found) ↦
            let (latest, hit) =
              find_where-Among (λ x. x.workflow_node_id == node_id) (latest_by_node mine) s found in
            let (stored, newest) = (latest_by_node_lem mine).0 s latest in
            let (row, here) = in_run s stored in
            let node = (==_iff s.workflow_node_id node_id).0 hit in
            (
              s,
              row,
              here,
              node,
              ground arith,
              λ t mt in_t of_t. newest t (of_run t mt in_t) (of_t ∙ sym node),
            )
      ]

  completed_complete :
      (node_id : ℕ)
      → NewestCompleted run.id db node_id
      → source_completed (latest_by_node mine) node_id ≡ true
  completed_complete node_id (s, row, here, node, completed, newest) =
      let (a, latest, same, newer) = (latest_by_node_lem mine).1 s (of_run s row here) in
      let (found, there) =
        find_where-hit (λ x. x.workflow_node_id == node_id) (latest_by_node mine) a latest
          ((==_iff a.workflow_node_id node_id).1 (same ∙ node)) in
      let (latest', hit) =
        find_where-Among (λ x. x.workflow_node_id == node_id) (latest_by_node mine) found there in
      let (stored, newest') = (latest_by_node_lem mine).0 found latest' in
      let (row', here') = in_run found stored in
      let node' = (==_iff found.workflow_node_id node_id).0 hit in
      let below = newest found row' here' node' in
      let above = newest' s (of_run s row here) (node ∙ sym node') in
      let e : found ≡ s =
        Apart-Among SameAttempt (λ x y r. (sym r.0, sym r.1, sym r.2)) db.node_runs found s unique
          row' row (here' ∙ sym here, node' ∙ sym node, omega (arith, below, above)) in
      rw there (rw e (ground arith))

  is_ready_sound :
      (nr : NodeRun)
      → Among nr mine
      → is_ready run.workflow_version_id db.edges (latest_by_node mine) nr ≡ true
      → IsReady run db nr
  is_ready_sound nr m h =
      let (row, here) = in_run nr m in
      (
        row,
        here,
        ground arith,
        λ edge me version to. completed_sound edge.from_node_id (
            all_where-map (source_completed (latest_by_node mine)) (λ x. x.from_node_id)
              (λ x.
                x.workflow_version_id == run.workflow_version_id
                && x.to_node_id == nr.workflow_node_id)
              db.edges edge (ground arith) me (ground arith)),
      )

  is_ready_complete :
      (nr : NodeRun)
      → IsReady run db nr
      → is_ready run.workflow_version_id db.edges (latest_by_node mine) nr ≡ true
  is_ready_complete nr (row, here, pending, sources) =
      let all =
        all_where-intro (source_completed (latest_by_node mine)) (λ x. x.from_node_id)
          (λ x.
            x.workflow_version_id == run.workflow_version_id && x.to_node_id == nr.workflow_node_id)
          db.edges
          (λ edge me hit.
            completed_complete edge.from_node_id (sources edge me (ground arith) (ground arith))) in
      ground arith

-- With one row for each run, node and iteration, `_find_ready_nodes` of a run that is there returns,
-- in the order of node_key and then id, exactly the PENDING node runs of the run such that each edge
-- of the run's version into their node comes from a node whose newest attempt in the run is COMPLETED.
pub find_ready_nodes_exact :
    (run : WorkflowRun) (db : Db)
    → AttemptsUnique db.node_runs
    → fresh_run run.id db ≡ some run
    → ((nr : NodeRun) → Among nr (find_ready_nodes run.id db) → IsReady run db nr)
      × ((nr : NodeRun) → IsReady run db nr → Among nr (find_ready_nodes run.id db))
      × IsSorted
          (key_le (node_key_of run.workflow_version_id db.nodes))
          (find_ready_nodes run.id db)
unfolding find_ready_nodes
find_ready_nodes_exact run db unique found =
    let le = key_le (node_key_of run.workflow_version_id db.nodes) in
    let rows = fresh_node_runs run.id db in
    let ready = is_ready run.workflow_version_id db.edges (latest_by_node rows) in
    let chosen = select_where ready rows in
    rw (found, find_ready_nodes)
      (
        λ nr m.
            All-Among (IsReady run db) (sort_by le chosen) nr
              (sort_by-All le _ chosen (
                All-of _ chosen (λ x mx.
                  let (mine_x, holds) = select_where-Among ready rows x mx in
                  is_ready_sound run db unique x mine_x holds)))
              m,
        λ nr h. sort_by-Among le nr chosen (
            Among-select_where ready rows nr (of_run run db unique nr h.0 h.1)
              (is_ready_complete run db unique nr h)),
        sort_by-IsSorted le (key_le-IsOrder (node_key_of run.workflow_version_id db.nodes)) chosen,
      )
