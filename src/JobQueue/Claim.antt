-- ===== src/JobQueue/Claim.antt =====
-- Which job a claim takes, and that racing claims do not take the same one.
use multi_agent_ai_platform.Base.{
  ◌∙◌, ℕ, ◌≤◌, ◌<◌, ◌≡◌, refl, true, false, Option, none, some, List, [], ◌∷◌, arith, ◌==◌, ltb,
  if◌then◌else◌, exists_where, find_where, update_where, count_where, All, inl, inr, Bool-cases,
  Option-cases, ==_iff, sym, ◌≢◌, subst, ◌⊎◌, update_where-none, All-find_where,
}
use multi_agent_ai_platform.JobQueue.{
  Job, JobStatus, claimable, lease_to, is_candidate, select_candidate, older, claim_one,
  claim_candidate, heartbeat, complete, Reach,
}
use multi_agent_ai_platform.JobQueue.Unique.{
  IsUnique, update_row, untouched, find-id, update_where-IsUnique,
}
use multi_agent_ai_platform.JobQueue.Fencing.{IsFenced, stale_token_is_refused}

abbrev pub row_of : ℕ → List Job → Option Job
row_of id jobs = find_where (λ job. job.id == id) jobs

module _ (now worker_id lease_seconds id : ℕ) (jobs : List Job) where
  -- What an UPDATE that finds its candidate still claimable does.
  claim_candidate_wins :
      (row : Job)
      → IsUnique jobs
      → row_of id jobs ≡ some row
      → claimable now row ≡ true
      → claim_candidate now worker_id lease_seconds id jobs ≡ (
        update_where (is_candidate now id) (lease_to now worker_id lease_seconds) jobs,
        some (lease_to now worker_id lease_seconds row),
      )
  unfolding claim_candidate
  claim_candidate_wins row u found holds = ground (
    arith,
    update_row id (claimable now) (lease_to now worker_id lease_seconds) row jobs u found holds
        (find-id id jobs row found),
  )

  no_row : (table : List Job) → row_of id table ≡ none → count_where (is_candidate now id) table ≡ 0
  no_row [] h = refl
  no_row (job ∷ table) h = ground (arith, no_row table)

  not_claimable :
      (table : List Job) (row : Job)
      → IsUnique table
      → row_of id table ≡ some row
      → claimable now row ≡ false
      → count_where (is_candidate now id) table ≡ 0
  not_claimable [] row u found idle = refl
  not_claimable (job ∷ table) row u found idle = elim (Bool-cases (job.id == id)) [
    | inl same ↦ ground (
      arith,
      untouched id (claimable now) (lease_to now worker_id lease_seconds) table
          (subst (λ i. All (λ other. other.id ≢ i) table) ((==_iff job.id id).0 same) u.0),
    )
    | inr other ↦ ground (arith, not_claimable table row u.1)
  ]

  -- An UPDATE whose candidate is not claimable changes nothing and reports no job.
  claim_candidate_loses :
      (row : Job)
      → IsUnique jobs
      → row_of id jobs ≡ some row
      → claimable now row ≡ false
      → claim_candidate now worker_id lease_seconds id jobs ≡ (jobs, none)
  unfolding claim_candidate
  claim_candidate_loses row u found idle = ground (
    arith,
    not_claimable jobs row u found idle,
    update_where-none (is_candidate now id) (lease_to now worker_id lease_seconds) jobs,
  )

  claim_candidate_absent :
      row_of id jobs ≡ none → claim_candidate now worker_id lease_seconds id jobs ≡ (jobs, none)
  unfolding claim_candidate
  claim_candidate_absent absent = ground (
    arith,
    no_row jobs absent,
    update_where-none (is_candidate now id) (lease_to now worker_id lease_seconds) jobs,
  )

  -- A claim that returned a job: what was in the table, and what is in it now.
  pub claim_candidate_cases :
      {after : List Job} {job : Job}
      → IsUnique jobs
      → claim_candidate now worker_id lease_seconds id jobs ≡ (after, some job)
      → (row : Job) × (row_of id jobs ≡ some row)
        × (claimable now row ≡ true)
        × (job ≡ lease_to now worker_id lease_seconds row)
        × (after ≡ update_where (is_candidate now id) (lease_to now worker_id lease_seconds) jobs)
        × (row_of id after ≡ some job)
  claim_candidate_cases {after} {job} u won = elim (Option-cases (row_of id jobs)) [
    | inl absent ↦ absurd (ground (arith, claim_candidate_absent absent))
    | inr (row, found) ↦ elim (Bool-cases (claimable now row)) [
      | inr idle ↦ absurd (ground (arith, claim_candidate_loses row u found idle))
      | inl holds ↦
          let result = claim_candidate_wins row u found holds in
          (
            row,
            found,
            holds,
            ground arith,
            ground arith,
            ground (
              arith,
              update_row id (claimable now) (lease_to now worker_id lease_seconds) row jobs u found
                  holds (find-id id jobs row found),
            ),
          )
    ]
  ]

above_others :
    (id token other : ℕ) (jobs : List Job)
    → other ≡ id
    → All (λ job. job.id ≢ other) jobs
    → All (λ job. job.id ≡ id → token < job.fencing_token) jobs
above_others id token other [] same h = tt
above_others id token other (job ∷ jobs) same h =
    (λ e. absurd (h.0 (e ∙ sym same)), above_others id token other jobs same h.1)

All-row :
    (id token : ℕ) (jobs : List Job) (row : Job)
    → IsUnique jobs
    → find_where (λ job. job.id == id) jobs ≡ some row
    → token < row.fencing_token
    → IsFenced id token jobs
All-row id token [] row u found lt = cc
All-row id token (job ∷ jobs) row u found lt = elim (Bool-cases (job.id == id)) [
  | inl same ↦ record {
    present = ground arith;
    above = (λ _. ground arith, above_others id token job.id jobs ((==_iff job.id id).0 same) u.0);
  }
  | inr other ↦
      let rest = All-row id token jobs row u.1 (ground arith) lt in
      record { present = ground (arith, rest.present); above = (λ e. ground arith, rest.above) }
]

-- When a claim in a table with unique ids has returned a job, every token up to the one that the
-- job had before is stale from then on: after any enqueues, claims, heartbeats and completions, a
-- completion and a heartbeat with it are refused and change nothing.
pub claim_fences_predecessors :
    (now worker_id lease_seconds id : ℕ) (jobs after later : List Job) (before job : Job)
    (now' holder token lease_seconds' : ℕ) (status : JobStatus)
    → IsUnique jobs
    → claim_candidate now worker_id lease_seconds id jobs ≡ (after, some job)
    → row_of id jobs ≡ some before
    → token ≤ before.fencing_token
    → Reach after later
    → (complete id holder token status later ≡ (later, false))
      × (heartbeat now' id holder token lease_seconds' later ≡ (later, false))
claim_fences_predecessors now worker_id lease_seconds id jobs after later before job now' holder
      token lease_seconds' status u won was le r =
    let (row, found, holds, leased, table, kept) =
      claim_candidate_cases now worker_id lease_seconds id jobs u won in
    let u' : IsUnique after = subst IsUnique (sym table) (
      update_where-IsUnique (is_candidate now id) (lease_to now worker_id lease_seconds) (λ j. refl)
        jobs u) in
    stale_token_is_refused id token holder now' lease_seconds' status after later
      (All-row id token after job u' kept (ground arith)) r

-- `select_candidate` against its description.
pub record IsOldest (now : ℕ) (jobs : List Job) (best : Job) : Type 0 where
  pub claims : claimable now best ≡ true
  pub no_older : All (λ job. claimable now job ≡ true → best.created_at ≤ job.created_at) jobs

All-weaken :
    (now a b : ℕ) (jobs : List Job)
    → a ≤ b
    → All (λ job. claimable now job ≡ true → b ≤ job.created_at) jobs
    → All (λ job. claimable now job ≡ true → a ≤ job.created_at) jobs
All-weaken now a b [] le h = tt
All-weaken now a b (job ∷ jobs) le h = (λ c. omega (arith, h.0 c), All-weaken now a b jobs le h.1)

All-idle :
    (now a : ℕ) (jobs : List Job)
    → select_candidate now jobs ≡ none
    → All (λ job. claimable now job ≡ true → a ≤ job.created_at) jobs
unfolding select_candidate
All-idle now a [] h = tt
All-idle now a (job ∷ jobs) h = (λ c. ground arith, All-idle now a jobs (ground arith))

older-IsOldest :
    (now : ℕ) (job best : Job) (jobs : List Job)
    → claimable now job ≡ true
    → IsOldest now jobs best
    → {chosen : Job} → older job (some best) ≡ some chosen
    → IsOldest now (job ∷ jobs) chosen
older-IsOldest now job best jobs c h {chosen} e =
    elim (Bool-cases (ltb best.created_at job.created_at)) [
      | inl newer ↦
          let same : chosen ≡ best = ground arith in
          subst (IsOldest now (job ∷ jobs)) (sym same)
            (record { claims = h.claims; no_older = (λ _. ground arith, h.no_older) })
      | inr not_newer ↦
          let same : chosen ≡ job = ground arith in
          subst (IsOldest now (job ∷ jobs)) (sym same) (record {
            claims = c;
            no_older = (
              λ _. omega arith,
              All-weaken now job.created_at best.created_at jobs (ground arith) h.no_older,
            );
          })
    ]

select_candidate-IsOldest :
    (now : ℕ) (jobs : List Job) (best : Job)
    → select_candidate now jobs ≡ some best
    → IsOldest now jobs best
unfolding select_candidate
select_candidate-IsOldest now [] best e = cc
select_candidate-IsOldest now (job ∷ jobs) best e = elim (Bool-cases (claimable now job)) [
  | inr idle ↦
      let rest = select_candidate-IsOldest now jobs best (ground arith) in
      record { claims = rest.claims; no_older = (λ c. cc, rest.no_older) }
  | inl holds ↦ elim (Option-cases (select_candidate now jobs)) [
    | inl alone ↦
        let same : best ≡ job = ground arith in
        subst (IsOldest now (job ∷ jobs)) (sym same) (record {
          claims = holds;
          no_older = (λ _. omega arith, All-idle now job.created_at jobs alone);
        })
    | inr (other, found) ↦
        older-IsOldest now job other jobs holds (select_candidate-IsOldest now jobs other found)
          (ground arith)
  ]
]

candidate_cases :
    (now : ℕ) (job other best : Job)
    → (if claimable now job then older job (some other) else some other) ≡ some best
    → (best ≡ job) ⊎ (best ≡ other)
candidate_cases now job other best e = ground arith

select_candidate_row :
    (now : ℕ) (jobs : List Job) (best : Job)
    → IsUnique jobs
    → select_candidate now jobs ≡ some best
    → row_of best.id jobs ≡ some best
unfolding select_candidate
select_candidate_row now [] best u e = cc
select_candidate_row now (job ∷ jobs) best u e = elim (Option-cases (select_candidate now jobs)) [
  | inl alone ↦ let same : best ≡ job = ground arith in ground (arith, (==_iff job.id best.id).1)
  | inr (other, found) ↦
      let below = select_candidate_row now jobs other u.1 found in
      let apart = All-find_where (λ j. j.id ≢ job.id) _ jobs other u.0 below in
      elim (candidate_cases now job other best (ground arith)) [
        | inl same ↦ subst (λ b. row_of b.id (job ∷ jobs) ≡ some b) (sym same) (ground arith)
        | inr same ↦
            subst (λ b. row_of b.id (job ∷ jobs) ≡ some b) (sym same) (ground (arith, apart))
      ]
]

select_candidate-none :
    (now : ℕ) (jobs : List Job)
    → exists_where (claimable now) jobs ≡ true
    → select_candidate now jobs ≢ none
unfolding select_candidate
select_candidate-none now [] h e = cc
select_candidate-none now (job ∷ jobs) h e = ground (arith, select_candidate-none now jobs)

no_candidate :
    (now : ℕ) (jobs : List Job)
    → exists_where (claimable now) jobs ≡ false
    → select_candidate now jobs ≡ none
unfolding select_candidate
no_candidate now [] h = refl
no_candidate now (job ∷ jobs) h = ground (arith, no_candidate now jobs)

-- With a claimable row in the table, `claim_one` leases the one that is oldest by `created_at` to the worker, for
-- `lease_seconds` from now, with its token and attempt count raised by one.
pub claim_one-IsOldest :
    (now worker_id lease_seconds : ℕ) (jobs : List Job)
    → IsUnique jobs
    → exists_where (claimable now) jobs ≡ true
    → (row : Job) × IsOldest now jobs row
      × (row_of row.id jobs ≡ some row)
      × ((claim_one now worker_id lease_seconds jobs).1
          ≡ some (lease_to now worker_id lease_seconds row))
      × (row_of row.id (claim_one now worker_id lease_seconds jobs).0
          ≡ some (lease_to now worker_id lease_seconds row))
unfolding claim_one
claim_one-IsOldest now worker_id lease_seconds jobs u h =
    elim (Option-cases (select_candidate now jobs)) [
      | inl idle ↦ absurd (select_candidate-none now jobs h idle)
      | inr (row, found) ↦
          let oldest = select_candidate-IsOldest now jobs row found in
          let stored = select_candidate_row now jobs row u found in
          let won =
            claim_candidate_wins now worker_id lease_seconds row.id jobs row u stored
              oldest.claims in
          let (one, kept) =
            update_row row.id (claimable now) (lease_to now worker_id lease_seconds) row jobs u
              stored oldest.claims refl in
          (row, oldest, stored, ground (arith, won), ground (arith, won, kept))
    ]
