-- ===== src/Workflow/Latest.antt =====
-- `_latest_by_node` against its description, and the two forms of "currently FAILED": the dict of
-- the engine and the NOT EXISTS of the claim's SQL.
use multi_agent_ai_platform.Base.{
  ℕ, ◌≤◌, ◌≡◌, refl, sym, ◌∙◌, subst, ◌⊎◌, inl, inr, Bool, true, not, ◌&&◌, List, [], ◌∷◌, ltb,
  ◌==◌, if◌then◌else◌, exists_where, All, Any, Among, Apart, All-Among, Any-witness,
  exists_where-witness, exists_where-intro, select_where-Among, Among-select_where, Apart-Among,
  Bool-ext, Bool-cases, arith, ap,
}
use multi_agent_ai_platform.Schema.{NodeStatus, NodeRun, Db, is_node, node_code}
use multi_agent_ai_platform.Workflow.Store.{
  put_latest, latest_from, latest_by_node, fresh_node_runs, supersedes, barrier, has_failed_node,
}

abbrev pub SameNode : NodeRun → NodeRun → Type 0
SameNode a b = a.workflow_node_id ≡ b.workflow_node_id

-- `latest` has a row of the node of `r` that is at least as new.
abbrev pub Covered : List NodeRun → NodeRun → Type 0
Covered latest r =
    Any (λ a. (a.workflow_node_id ≡ r.workflow_node_id) × (r.iteration ≤ a.iteration)) latest

-- What the dict holds after the rows `seen`: rows of theirs, one for each node, which cover all.
pub record IsLatest (seen latest : List NodeRun) : Type 0 where
  pub from_seen : All (λ a. Among a seen) latest
  pub covers : All (Covered latest) seen
  pub one_each : Apart SameNode latest

put_latest-from :
    (P : NodeRun → Type 0) (nr : NodeRun) (latest : List NodeRun)
    → P nr
    → All P latest
    → All P (put_latest nr latest)
put_latest-from P nr [] p h = (p, tt)
put_latest-from P nr (a ∷ latest) p h = ground (arith, put_latest-from P nr latest p)

put_latest-covers_new : (nr : NodeRun) (latest : List NodeRun) → Covered (put_latest nr latest) nr
put_latest-covers_new nr [] = inl (refl, omega arith)
put_latest-covers_new nr (a ∷ latest) = ground (arith, put_latest-covers_new nr latest)

put_latest-covers :
    (nr r : NodeRun) (latest : List NodeRun) → Covered latest r → Covered (put_latest nr latest) r
put_latest-covers nr r [] h = elim h [ ]
put_latest-covers nr r (a ∷ latest) (inl h) = ground arith
put_latest-covers nr r (a ∷ latest) (inr h) = ground (arith, put_latest-covers nr r latest h)

put_latest-apart_from :
    (x nr : NodeRun) (latest : List NodeRun)
    → (x.workflow_node_id ≡ nr.workflow_node_id → ⊥)
    → All (λ y. ¬ SameNode x y) latest
    → All (λ y. ¬ SameNode x y) (put_latest nr latest)
put_latest-apart_from x nr latest ne h = put_latest-from (λ y. ¬ SameNode x y) nr latest ne h

replaced_id :
    (nr a : NodeRun)
    → (a.workflow_node_id == nr.workflow_node_id) ≡ true
    → (if ltb a.iteration nr.iteration then nr else a).workflow_node_id ≡ a.workflow_node_id
replaced_id nr a same = ground arith

put_latest-one_each :
    (nr : NodeRun) (latest : List NodeRun)
    → Apart SameNode latest
    → Apart SameNode (put_latest nr latest)
put_latest-one_each nr [] h = (tt, tt)
put_latest-one_each nr (a ∷ latest) h =
    elim (Bool-cases (a.workflow_node_id == nr.workflow_node_id)) [
      | inl same ↦ rw same (
        subst (λ i. All (λ y. i ≡ y.workflow_node_id → ⊥) latest) (sym (replaced_id nr a same)) h.0,
        h.1,
      )
      | inr other ↦ rw other (
        put_latest-apart_from a nr latest (λ e. ground arith) h.0,
        put_latest-one_each nr latest h.1,
      )
    ]

-- The rows, pushed onto those that were seen before.
abbrev onto : List NodeRun → List NodeRun → List NodeRun
onto [] seen = seen
onto (nr ∷ rest) seen = onto rest (nr ∷ seen)

All-seen :
    (nr : NodeRun) (seen latest : List NodeRun)
    → All (λ a. Among a seen) latest
    → All (λ a. Among a (nr ∷ seen)) latest
All-seen nr seen [] h = tt
All-seen nr seen (a ∷ latest) h = (inr h.0, All-seen nr seen latest h.1)

All-Covered :
    (nr : NodeRun) (latest seen : List NodeRun)
    → All (Covered latest) seen
    → All (Covered (put_latest nr latest)) seen
All-Covered nr latest [] h = tt
All-Covered nr latest (r ∷ seen) h =
    (put_latest-covers nr r latest h.0, All-Covered nr latest seen h.1)

latest_from-IsLatest :
    (rest seen latest : List NodeRun)
    → IsLatest seen latest
    → IsLatest (onto rest seen) (latest_from latest rest)
unfolding latest_from
latest_from-IsLatest [] seen latest h = h
latest_from-IsLatest (nr ∷ rest) seen latest h =
    latest_from-IsLatest rest (nr ∷ seen) (put_latest nr latest) (record {
      from_seen =
          put_latest-from (λ a. Among a (nr ∷ seen)) nr latest (inl refl)
            (All-seen nr seen latest h.from_seen);
      covers = (put_latest-covers_new nr latest, All-Covered nr latest seen h.covers);
      one_each = put_latest-one_each nr latest h.one_each;
    })

Among-onto :
    (a : NodeRun) (rest seen : List NodeRun)
    → Among a (onto rest seen)
    → Among a rest ⊎ Among a seen
Among-onto a [] seen m = inr m
Among-onto a (nr ∷ rest) seen m = elim (Among-onto a rest (nr ∷ seen) m) [
  | inl late ↦ inl (inr late)
  | inr (inl e) ↦ inl (inl e)
  | inr (inr early) ↦ inr early
]

onto-Among :
    (a : NodeRun) (rest seen : List NodeRun)
    → Among a rest ⊎ Among a seen
    → Among a (onto rest seen)
onto-Among a [] seen (inl m) = elim m [ ]
onto-Among a [] seen (inr m) = m
onto-Among a (nr ∷ rest) seen (inl (inl e)) = onto-Among a rest (nr ∷ seen) (inr (inl e))
onto-Among a (nr ∷ rest) seen (inl (inr m)) = onto-Among a rest (nr ∷ seen) (inl m)
onto-Among a (nr ∷ rest) seen (inr m) = onto-Among a rest (nr ∷ seen) (inr (inr m))

none_or : {P : Type 0} → P ⊎ ⊥ → P
none_or (inl p) = p
none_or (inr e) = elim e [ ]

module _ (rows : List NodeRun) where
  table : IsLatest (onto rows []) (latest_by_node rows)
  unfolding latest_by_node
  table = latest_from-IsLatest rows [] [] (record { from_seen = tt; covers = tt; one_each = tt })

  latest-Among : (a : NodeRun) → Among a (latest_by_node rows) → Among a rows
  latest-Among a m = none_or (
      Among-onto a rows []
        (All-Among (λ b. Among b (onto rows [])) (latest_by_node rows) a table.from_seen m))

  latest-covers : (r : NodeRun) → Among r rows → Covered (latest_by_node rows) r
  latest-covers r m =
      All-Among (Covered (latest_by_node rows)) (onto rows []) r table.covers
        (onto-Among r rows [] (inl m))

  same_latest :
      (a b : NodeRun)
      → Among a (latest_by_node rows)
      → Among b (latest_by_node rows)
      → SameNode a b
      → a ≡ b
  same_latest a b = Apart-Among SameNode (λ x y e. sym e) (latest_by_node rows) a b table.one_each

  newest :
      (a r : NodeRun)
      → Among a (latest_by_node rows)
      → Among r rows
      → SameNode r a
      → r.iteration ≤ a.iteration
  newest a r m mr same =
      let (b, among, covers) = Any-witness _ (latest_by_node rows) (latest-covers r mr) in
      let e : b ≡ a = same_latest b a among m (covers.0 ∙ same) in
      omega (arith, ap (λ (x : NodeRun). x.iteration) e, covers.1)

  covering :
      (r : NodeRun)
      → Among r rows
      → (a : NodeRun) × Among a (latest_by_node rows) × SameNode a r × (r.iteration ≤ a.iteration)
  covering r m =
      let (a, among, covers) = Any-witness _ (latest_by_node rows) (latest-covers r m) in
      (a, among, covers.0, covers.1)

  -- Each row of `_latest_by_node` is a row of the list that no row of its node is newer than, and
  -- each row of the list has one of its node that is at least as new.
  pub latest_by_node_lem :
      ((a : NodeRun)
        → Among a (latest_by_node rows)
        → Among a rows × ((r : NodeRun) → Among r rows → SameNode r a → r.iteration ≤ a.iteration))
      × ((r : NodeRun)
          → Among r rows
          → (a : NodeRun) × Among a (latest_by_node rows)
            × SameNode a r
            × (r.iteration ≤ a.iteration))
  latest_by_node_lem = (λ a m. (latest-Among a m, λ r mr same. newest a r m mr same), covering)

-- `uq_workflow_node_runs_run_node_iteration`
abbrev pub SameAttempt : NodeRun → NodeRun → Type 0
SameAttempt a b =
    (a.workflow_run_id ≡ b.workflow_run_id)
    × (a.workflow_node_id ≡ b.workflow_node_id)
    × (a.iteration ≡ b.iteration)

abbrev pub AttemptsUnique : List NodeRun → Type 0
AttemptsUnique rows = Apart SameAttempt rows

abbrev blocks : ℕ → List NodeRun → NodeRun → Bool
blocks run_id node_runs sibling =
    sibling.workflow_run_id == run_id
    && (is_node sibling.status NodeStatus.failed
        && not (exists_where (supersedes sibling) node_runs))

module _ (run_id : ℕ) (db : Db) where
  abbrev mine : List NodeRun
  mine = fresh_node_runs run_id db

  blocked : has_failed_node run_id db ≡ true → barrier run_id db.node_runs ≡ true
  unfolding has_failed_node barrier
  blocked h =
      let (a, among, failed) = exists_where-witness _ (latest_by_node mine) h in
      let (stored, latest) = (latest_by_node_lem mine).0 a among in
      let (row, in_run) =
        select_where-Among (λ nr. nr.workflow_run_id == run_id) db.node_runs a stored in
      exists_where-intro (blocks run_id db.node_runs) db.node_runs a row
        (elim (Bool-cases (exists_where (supersedes a) db.node_runs)) [
          | inr last ↦ ground arith
          | inl later ↦
              let (r, mr, newer) = exists_where-witness (supersedes a) db.node_runs later in
              let mine_r =
                Among-select_where (λ nr. nr.workflow_run_id == run_id) db.node_runs r mr
                  (ground arith) in
              absurd (ground (arith, latest r mine_r))
        ])

  unblocked :
      AttemptsUnique db.node_runs
      → barrier run_id db.node_runs ≡ true
      → has_failed_node run_id db ≡ true
  unfolding has_failed_node barrier
  unblocked u h =
      let (r, row, holds) = exists_where-witness (blocks run_id db.node_runs) db.node_runs h in
      let mine_r =
        Among-select_where (λ nr. nr.workflow_run_id == run_id) db.node_runs r row (ground arith) in
      let (a, among, same, newer) = (latest_by_node_lem mine).1 r mine_r in
      let (row_a, in_run) =
        select_where-Among (λ nr. nr.workflow_run_id == run_id) db.node_runs a
          ((latest_by_node_lem mine).0 a among).0 in
      exists_where-intro _ (latest_by_node mine) a among (elim (Bool-cases (supersedes r a)) [
        | inl later ↦ ground (arith, exists_where-intro (supersedes r) db.node_runs a row_a later)
        | inr no_later ↦
            let e : a ≡ r =
              Apart-Among SameAttempt (λ x y p. (sym p.0, sym p.1, sym p.2)) db.node_runs a r u
                row_a row (ground arith) in
            ground (arith, ap (λ (x : NodeRun). node_code x.status) e)
      ])

  -- With one row for each run, node and iteration, the engine's `_has_failed_node` and the NOT
  -- EXISTS of the dispatch claim agree on every run.
  pub has_failed_node-eq-barrier :
      AttemptsUnique db.node_runs → has_failed_node run_id db ≡ barrier run_id db.node_runs
  has_failed_node-eq-barrier u = Bool-ext _ _ blocked (unblocked u)
