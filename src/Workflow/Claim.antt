-- ===== src/Workflow/Claim.antt =====
-- The dispatch claim: when it succeeds, that a failure stops it, and that one dispatcher wins.
use multi_agent_ai_platform.Base.{
  ℕ, ◌≡◌, refl, sym, ap, ◌∙◌, subst, inl, inr, Bool, true, false, not, ◌&&◌, Option, none, some,
  if◌then◌else◌, is_none, arith, Bool-cases, Option-cases, Keyed, update_miss, update_hit,
  update_where-Keyed,
}
use multi_agent_ai_platform.Schema.{NodeStatus, NodeRun, Db, is_node}
use multi_agent_ai_platform.Workflow.Store.{
  fresh_node_run, run_dispatchable, barrier, may_claim, claim_pending_node,
  atomically_claim_node_for_execution, has_failed_node,
}
use multi_agent_ai_platform.Workflow.Latest.{AttemptsUnique, has_failed_node-eq-barrier}

-- The claim's guard, by the engine's own `_has_failed_node`.
abbrev pub claim_guard : Db → Bool → NodeRun → Bool
claim_guard db unlinked nr =
    is_node nr.status NodeStatus.pending
    && (run_dispatchable nr.workflow_run_id db.runs
        && (not (has_failed_node nr.workflow_run_id db)
            && (if unlinked then is_none nr.agent_run_id else true)))

abbrev pub guard_of : Db → Bool → Option NodeRun → Bool
guard_of db unlinked none = false
guard_of db unlinked (some nr) = claim_guard db unlinked nr

-- The part of `may_claim` behind the test of the id.
abbrev pub may : Db → Bool → NodeRun → Bool
may db unlinked nr =
    is_node nr.status NodeStatus.pending
    && (run_dispatchable nr.workflow_run_id db.runs
        && (not (barrier nr.workflow_run_id db.node_runs)
            && (if unlinked then is_none nr.agent_run_id else true)))

abbrev may_of : Db → Bool → Option NodeRun → Bool
may_of db unlinked none = false
may_of db unlinked (some nr) = may db unlinked nr

may-eq-guard :
    (db : Db) (unlinked : Bool) (nr : NodeRun)
    → AttemptsUnique db.node_runs
    → may db unlinked nr ≡ claim_guard db unlinked nr
may-eq-guard db unlinked nr u = rw (has_failed_node-eq-barrier nr.workflow_run_id db u)

module _ (id : ℕ) (unlinked : Bool) (values : NodeRun → NodeRun) (db : Db) where
  pub claim_miss :
      Keyed (λ nr. nr.id) db.node_runs
      → ((nr : NodeRun) → fresh_node_run id db ≡ some nr → may db unlinked nr ≡ false)
      → claim_pending_node id unlinked values db ≡ (db, false)
  unfolding claim_pending_node may_claim
  claim_miss keyed misses =
      let (same, zero_rows) =
        update_miss (λ nr. nr.id) id (may db unlinked) values db.node_runs keyed misses in
      rw same (rw zero_rows)

  claim_hit :
      (nr : NodeRun)
      → Keyed (λ nr. nr.id) db.node_runs
      → fresh_node_run id db ≡ some nr
      → may db unlinked nr ≡ true
      → (values nr).id ≡ nr.id
      → ((claim_pending_node id unlinked values db).1 ≡ true)
        × (fresh_node_run id (claim_pending_node id unlinked values db).0 ≡ some (values nr))
  unfolding claim_pending_node may_claim
  claim_hit nr keyed found holds kept =
      let (one, row) =
        update_hit (λ nr. nr.id) id (may db unlinked) values nr db.node_runs keyed found holds
          kept in
      (rw one refl, row)

  -- With unique ids, one row for each run, node and iteration, and values that keep the id: the
  -- claim reports success exactly when the node run is there and PENDING (and unlinked, if that is
  -- asked for), its run is RUNNING or NODE_WAITING_FOR_APPROVAL and no node of the run is
  -- currently FAILED. If that holds, the row becomes what the values make of it; otherwise nothing
  -- changes.
  pub claim_pending_node_exact :
      Keyed (λ nr. nr.id) db.node_runs
      → AttemptsUnique db.node_runs
      → ((nr : NodeRun) → (values nr).id ≡ nr.id)
      → ((claim_pending_node id unlinked values db).1 ≡ guard_of db unlinked (fresh_node_run id db))
        × (guard_of db unlinked (fresh_node_run id db) ≡ false
            → claim_pending_node id unlinked values db ≡ (db, false))
        × ((nr : NodeRun)
            → fresh_node_run id db ≡ some nr
            → claim_guard db unlinked nr ≡ true
            → fresh_node_run id (claim_pending_node id unlinked values db).0 ≡ some (values nr))
  claim_pending_node_exact keyed u kept = (
    elim (Option-cases (fresh_node_run id db)) [
      | inl absent ↦ rw absent (ap (λ (r : Db × Bool). r.1) (claim_miss keyed (λ nr e. cc)))
      | inr (nr, found) ↦ rw found (elim (Bool-cases (claim_guard db unlinked nr)) [
        | inl holds ↦
            rw holds (claim_hit nr keyed found (may-eq-guard db unlinked nr u ∙ holds) (kept nr)).0
        | inr fails ↦ rw fails (
            ap (λ (r : Db × Bool). r.1)
              (claim_miss keyed (λ row e.
                may-eq-guard db unlinked row u
                ∙ subst (λ o. guard_of db unlinked o ≡ false) (sym found ∙ e) fails)))
      ])
    ],
    λ fails. claim_miss keyed (λ nr e. may-eq-guard db unlinked nr u ∙ (rw e at fails)),
    λ nr found holds.
        (claim_hit nr keyed found (may-eq-guard db unlinked nr u ∙ holds) (kept nr)).1,
  )

abbrev link : ℕ → NodeRun → NodeRun
link agent_run_id nr = record nr { agent_run_id = some agent_run_id; status = NodeStatus.running }

atomic_won :
    (id agent_run_id : ℕ) (db : Db) {after : Db}
    → atomically_claim_node_for_execution id agent_run_id db ≡ (after, true)
    → ((claim_pending_node id true (link agent_run_id) db).1 ≡ true)
      × (after ≡ (claim_pending_node id true (link agent_run_id) db).0)
unfolding atomically_claim_node_for_execution
atomic_won id agent_run_id db won = ground arith

claimed-Keyed :
    (id : ℕ) (unlinked : Bool) (values : NodeRun → NodeRun) (db : Db)
    → ((nr : NodeRun) → (values nr).id ≡ nr.id)
    → Keyed (λ nr. nr.id) db.node_runs
    → Keyed (λ nr. nr.id) (claim_pending_node id unlinked values db).0.node_runs
unfolding claim_pending_node
claimed-Keyed id unlinked values db kept keyed =
    update_where-Keyed (λ nr. nr.id) (may_claim db id unlinked) values kept db.node_runs keyed

-- A claim that succeeded found its row, and wrote it.
claimed_row :
    (id : ℕ) (unlinked : Bool) (values : NodeRun → NodeRun) (db : Db)
    → Keyed (λ nr. nr.id) db.node_runs
    → ((nr : NodeRun) → (values nr).id ≡ nr.id)
    → (claim_pending_node id unlinked values db).1 ≡ true
    → (nr : NodeRun) × (fresh_node_run id db ≡ some nr)
      × (fresh_node_run id (claim_pending_node id unlinked values db).0 ≡ some (values nr))
claimed_row id unlinked values db keyed kept won = elim (Option-cases (fresh_node_run id db)) [
  | inl absent ↦
      absurd (ground (arith, claim_miss id unlinked values db keyed (λ nr e. absurd (cc))))
  | inr (nr, found) ↦ elim (Bool-cases (may db unlinked nr)) [
    | inl holds ↦ (nr, found, (claim_hit id unlinked values db nr keyed found holds (kept nr)).1)
    | inr fails ↦ absurd (
        ground (
          arith,
          claim_miss id unlinked values db keyed
              (λ row e. subst (λ o. may_of db unlinked o ≡ false) (sym found ∙ e) fails),
        ))
  ]
]

running_fails :
    (db : Db) (row nr : NodeRun) (agent_run_id : ℕ)
    → ◌≡◌ {A = Option NodeRun} (some (link agent_run_id nr)) (some row)
    → may db true row ≡ false
running_fails db row nr agent_run_id e = subst (λ o. may_of db true o ≡ false) e refl

-- Of two dispatchers of one node the second loses: with unique ids, after a successful claim by
-- `_atomically_claim_node_for_execution` the node is RUNNING with the winner's AgentRun, and the
-- next such claim of it reports failure and changes nothing.
pub one_dispatcher_wins :
    (id agent_run_id other : ℕ) (db after : Db)
    → Keyed (λ nr. nr.id) db.node_runs
    → atomically_claim_node_for_execution id agent_run_id db ≡ (after, true)
    → ((nr : NodeRun) × (fresh_node_run id db ≡ some nr)
        × (fresh_node_run id after
            ≡ some (record nr { agent_run_id = some agent_run_id; status = NodeStatus.running })))
      × (atomically_claim_node_for_execution id other after ≡ (after, false))
unfolding atomically_claim_node_for_execution
one_dispatcher_wins id agent_run_id other db after keyed won =
    let (claimed, table) = atomic_won id agent_run_id db won in
    let (nr, found, stored) =
      claimed_row id true (link agent_run_id) db keyed (λ _. refl) claimed in
    let stored' =
      subst (λ d. fresh_node_run id d ≡ some (link agent_run_id nr)) (sym table) stored in
    let keyed' : Keyed (λ nr. nr.id) after.node_runs =
      subst (λ (d : Db). Keyed (λ nr. nr.id) d.node_runs) (sym table)
        (claimed-Keyed id true (link agent_run_id) db (λ _. refl) keyed) in
    let loses =
      claim_miss id true (link other) after keyed'
        (λ row e. running_fails after row nr agent_run_id (sym stored' ∙ e)) in
    ((nr, found, stored'), rw loses)
