-- ===== src/JobQueue/Unique.antt =====
-- The primary key: one row for each job id.
use multi_agent_ai_platform.Base.{
  ℕ, ◌≡◌, ◌≢◌, refl, sym, ◌∙◌, subst, inl, inr, Bool-cases, ==_iff, Bool, true, false, ◌&&◌, none,
  some, List, [], ◌∷◌, ◌++◌, arith, ◌==◌, if◌then◌else◌, exists_where, find_where, update_where,
  count_where, All, All-update_where,
}
use multi_agent_ai_platform.JobQueue.{
  Job, JobType, new_job, collides, enqueue, is_candidate, lease_to, claim_candidate, heartbeat,
  complete, Step, enqueued, claimed, beaten, completed, Reach, here, next,
}

abbrev pub IsUnique : List Job → Type 0
IsUnique [] = Unit
IsUnique (job ∷ jobs) = All (λ other. other.id ≢ job.id) jobs × IsUnique jobs

module _ (id : ℕ) (q : Job → Bool) (f : Job → Job) where
  -- Where the id occurs in no row, nothing is updated.
  pub untouched :
      (jobs : List Job)
      → All (λ other. other.id ≢ id) jobs
      → (update_where (λ job. job.id == id && q job) f jobs ≡ jobs)
        × (count_where (λ job. job.id == id && q job) jobs ≡ 0)
        × (find_where (λ job. job.id == id) jobs ≡ none)
  untouched [] h = (refl, refl, refl)
  untouched (job ∷ jobs) h = ground (arith, untouched jobs h.1, h.0)

  untouched-cast :
      (job : Job) (jobs : List Job)
      → (job.id == id) ≡ true
      → All (λ other. other.id ≢ job.id) jobs
      → (update_where (λ job. job.id == id && q job) f jobs ≡ jobs)
        × (count_where (λ job. job.id == id && q job) jobs ≡ 0)
        × (find_where (λ job. job.id == id) jobs ≡ none)
  untouched-cast job jobs same h =
      untouched jobs (subst (λ i. All (λ other. other.id ≢ i) jobs) ((==_iff job.id id).0 same) h)

  -- An update of the row of an id, if that satisfies `q`.
  pub update_row :
      (row : Job) (jobs : List Job)
      → IsUnique jobs
      → find_where (λ job. job.id == id) jobs ≡ some row
      → q row ≡ true
      → (f row).id ≡ id
      → (count_where (λ job. job.id == id && q job) jobs ≡ 1)
        × (find_where (λ job. job.id == id) (update_where (λ job. job.id == id && q job) f jobs)
            ≡ some (f row))
  update_row row [] u found holds kept = cc
  update_row row (job ∷ jobs) u found holds kept = elim (Bool-cases (job.id == id)) [
    | inl same ↦ ground (arith, untouched-cast job jobs same u.0)
    | inr other ↦ ground (arith, update_row row jobs u.1)
  ]

pub find-id :
    (id : ℕ) (jobs : List Job) (row : Job)
    → find_where (λ job. job.id == id) jobs ≡ some row
    → row.id ≡ id
find-id id [] row h = cc
find-id id (job ∷ jobs) row h = ground (arith, find-id id jobs row)

All-update_where_id :
    (id : ℕ) (p : Job → Bool) (f : Job → Job)
    → ((job : Job) → (f job).id ≡ job.id)
    → (jobs : List Job) → All (λ other. other.id ≢ id) jobs
    → All (λ other. other.id ≢ id) (update_where p f jobs)
All-update_where_id id p f kept jobs h =
    All-update_where (λ other. other.id ≢ id) p f (λ job _ ne same. ne (sym (kept job) ∙ same)) jobs
      h

kept_if :
    (p : Job → Bool) (f : Job → Job)
    → ((job : Job) → (f job).id ≡ job.id)
    → (job : Job) → (if p job then f job else job).id ≡ job.id
kept_if p f kept job = ground (arith, kept job)

pub update_where-IsUnique :
    (p : Job → Bool) (f : Job → Job)
    → ((job : Job) → (f job).id ≡ job.id)
    → (jobs : List Job) → IsUnique jobs
    → IsUnique (update_where p f jobs)
update_where-IsUnique p f kept [] u = tt
update_where-IsUnique p f kept (job ∷ jobs) u = (
  All-update_where_id _ p f kept jobs
      (subst (λ i. All (λ other. other.id ≢ i) jobs) (sym (kept_if p f kept job)) u.0),
  update_where-IsUnique p f kept jobs u.1,
)

All-snoc :
    (id : ℕ) (new : Job) (jobs : List Job)
    → All (λ other. other.id ≢ id) jobs
    → new.id ≢ id
    → All (λ other. other.id ≢ id) (jobs ++ new ∷ [])
All-snoc id new [] h ne = (ne, tt)
All-snoc id new (job ∷ jobs) h ne = (h.0, All-snoc id new jobs h.1 ne)

pub claim_candidate_table :
    (now worker_id lease_seconds id : ℕ) (jobs : List Job)
    → (claim_candidate now worker_id lease_seconds id jobs).0
      ≡ update_where (is_candidate now id) (lease_to now worker_id lease_seconds) jobs
unfolding claim_candidate
claim_candidate_table now worker_id lease_seconds id jobs = ground arith

snoc-IsUnique :
    (new : Job) (jobs : List Job)
    → IsUnique jobs
    → exists_where (λ job. job.id == new.id) jobs ≡ false
    → IsUnique (jobs ++ new ∷ [])
snoc-IsUnique new [] u free = (tt, tt)
snoc-IsUnique new (job ∷ jobs) u free = (
  All-snoc job.id new jobs u.0 (ground (arith, ==_iff job.id new.id)),
  snoc-IsUnique new jobs u.1 (ground arith),
)

-- An enqueue that is not refused met no collision and appended the new row.
pub enqueue-appends :
    (id : ℕ) (job_type : JobType) (payload_ref now : ℕ) (jobs after : List Job)
    → enqueue id job_type payload_ref now jobs ≡ some after
    → (exists_where (collides id job_type payload_ref) jobs ≡ false)
      × (jobs ++ new_job id job_type payload_ref now ∷ [] ≡ after)
unfolding enqueue
enqueue-appends id job_type payload_ref now jobs after e = ground arith

fresh_id :
    (id : ℕ) (t : JobType) (ref : ℕ) (jobs : List Job)
    → exists_where (collides id t ref) jobs ≡ false
    → exists_where (λ job. job.id == id) jobs ≡ false
fresh_id id t ref [] free = refl
fresh_id id t ref (job ∷ jobs) free = ground (arith, fresh_id id t ref jobs)

Step-IsUnique : {jobs after : List Job} → Step jobs after → IsUnique jobs → IsUnique after
unfolding heartbeat complete
Step-IsUnique {jobs} (enqueued id t ref now e) u =
    let (free, appended) = enqueue-appends id t ref now jobs _ e in
    subst (λ (rows : List Job). IsUnique rows) appended
      (snoc-IsUnique (new_job id t ref now) jobs u (fresh_id id t ref jobs free))
Step-IsUnique {jobs} (claimed now w l c) u =
    rw (claim_candidate_table now w l c jobs)
      (update_where-IsUnique (is_candidate now c) (lease_to now w l) (λ job. refl) jobs u)
Step-IsUnique {jobs} (beaten now j w t l) u = update_where-IsUnique _ _ (λ job. refl) jobs u
Step-IsUnique {jobs} (completed j w t s) u = update_where-IsUnique _ _ (λ job. refl) jobs u

-- Whatever enqueues, claims, heartbeats and completions are made on an empty table, in any order,
-- no two rows have one id.
pub Reach-IsUnique : {after : List Job} → Reach [] after → IsUnique after
Reach-IsUnique here = tt
Reach-IsUnique (next r st) = Step-IsUnique st (Reach-IsUnique r)
