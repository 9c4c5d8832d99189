-- ===== src/JobQueue/Fencing.antt =====
-- A lease holder whose token has been passed can write nothing any more.
use multi_agent_ai_platform.Base.{
  subst, ◌∙◌, ℕ, ◌+◌, ◌<◌, ◌≡◌, refl, Bool, true, false, some, List, [], ◌∷◌, ◌++◌, arith, ◌==◌,
  exists_where, update_where, count_where, All, All-update_where,
}
use multi_agent_ai_platform.JobQueue.Unique.{claim_candidate_table, enqueue-appends}
use multi_agent_ai_platform.JobQueue.{
  Job, JobStatus, JobType, new_job, collides, holds_lease, lease_to, is_candidate, heartbeat,
  complete, Step, enqueued, claimed, beaten, completed, Reach, here, next,
}

-- Every row of the job has a token above `token`, and there is such a row.
pub record IsFenced (id token : ℕ) (jobs : List Job) : Type 0 where
  pub present : exists_where (λ job. job.id == id) jobs ≡ true
  pub above : All (λ job. job.id ≡ id → token < job.fencing_token) jobs

-- An update that keeps ids and lowers no token.
record Raises (f : Job → Job) : Type 0 where
  id_kept : (job : Job) → (f job).id ≡ job.id
  token_kept : (job : Job) (t : ℕ) → t < job.fencing_token → t < (f job).fencing_token

exists_where-update_where :
    (id : ℕ) (p : Job → Bool) (f : Job → Job)
    → Raises f
    → (jobs : List Job)
    → exists_where (λ job. job.id == id) (update_where p f jobs)
      ≡ exists_where (λ job. job.id == id) jobs
exists_where-update_where id p f r [] = refl
exists_where-update_where id p f r (job ∷ jobs) =
    ground (arith, r.id_kept job, exists_where-update_where id p f r jobs)

update_where-IsFenced :
    {id token : ℕ} (p : Job → Bool) (f : Job → Job)
    → Raises f
    → (jobs : List Job) → IsFenced id token jobs
    → IsFenced id token (update_where p f jobs)
update_where-IsFenced {id} {token} p f r jobs h = record {
  present = exists_where-update_where id p f r jobs ∙ h.present;
  above =
      All-update_where _ p f
        (λ job _ old same. r.token_kept job token (old (rw (r.id_kept job) at same))) jobs h.above;
}

snoc-present :
    (id : ℕ) (job : Job) (jobs : List Job)
    → exists_where (λ j. j.id == id) jobs ≡ true
    → exists_where (λ j. j.id == id) (jobs ++ job ∷ []) ≡ true
snoc-present id job [] h = cc
snoc-present id job (j ∷ jobs) h = ground (arith, snoc-present id job jobs)

snoc-above :
    (id token : ℕ) (job : Job) (jobs : List Job)
    → (job.id ≡ id → ⊥)
    → All (λ j. j.id ≡ id → token < j.fencing_token) jobs
    → All (λ j. j.id ≡ id → token < j.fencing_token) (jobs ++ job ∷ [])
snoc-above id token job [] other h = (λ e. absurd (other e), tt)
snoc-above id token job (j ∷ jobs) other h = (h.0, snoc-above id token job jobs other h.1)

not-collides :
    (id new : ℕ) (t : JobType) (ref : ℕ) (jobs : List Job)
    → exists_where (λ j. j.id == id) jobs ≡ true
    → exists_where (collides new t ref) jobs ≡ false
    → new ≡ id
    → ⊥
not-collides id new t ref [] found free same = cc
not-collides id new t ref (j ∷ jobs) found free same =
    ground (arith, not-collides id new t ref jobs)

Step-IsFenced :
    {id token : ℕ} {jobs after : List Job}
    → Step jobs after
    → IsFenced id token jobs
    → IsFenced id token after
unfolding heartbeat complete
Step-IsFenced {id} {token} {jobs} (enqueued new t ref now e) h =
    let (free, appended) = enqueue-appends new t ref now jobs _ e in
    subst (λ (rows : List Job). IsFenced id token rows) appended
      (record {
        present = snoc-present id _ jobs h.present;
        above =
            snoc-above id token (new_job new t ref now) jobs
              (λ same. not-collides id new t ref jobs h.present free same) h.above;
      })
Step-IsFenced {jobs} (claimed now w l c) h = rw (claim_candidate_table now w l c jobs) (
    update_where-IsFenced (is_candidate now c) (lease_to now w l)
      (record { id_kept = λ job. refl; token_kept = λ job t lt. omega arith }) jobs h)
Step-IsFenced {jobs} (beaten now j w t l) h =
    update_where-IsFenced _ _ (record { id_kept = λ job. refl; token_kept = λ job t' lt. lt }) jobs
      h
Step-IsFenced {jobs} (completed j w t s) h =
    update_where-IsFenced _ _ (record { id_kept = λ job. refl; token_kept = λ job t' lt. lt }) jobs
      h

Reach-IsFenced :
    {id token : ℕ} {jobs after : List Job}
    → IsFenced id token jobs
    → Reach jobs after
    → IsFenced id token after
Reach-IsFenced h here = h
Reach-IsFenced h (next r st) = Step-IsFenced st (Reach-IsFenced h r)

-- No row is held by a token below its own.
update_where_fenced :
    (id worker_id token : ℕ) (f : Job → Job) (jobs : List Job)
    → All (λ job. job.id ≡ id → token < job.fencing_token) jobs
    → (update_where (holds_lease id worker_id token) f jobs ≡ jobs)
      × (count_where (holds_lease id worker_id token) jobs ≡ 0)
update_where_fenced id worker_id token f [] h = (refl, refl)
update_where_fenced id worker_id token f (job ∷ jobs) h =
    ground (arith, update_where_fenced id worker_id token f jobs, h.0)

-- Once a job's token has passed `token`, then whatever enqueues, claims, heartbeats and completions
-- follow, in any order, a completion and a heartbeat with `token` are refused and change nothing.
pub stale_token_is_refused :
    (id token worker_id now lease_seconds : ℕ) (status : JobStatus) (jobs after : List Job)
    → IsFenced id token jobs
    → Reach jobs after
    → (complete id worker_id token status after ≡ (after, false))
      × (heartbeat now id worker_id token lease_seconds after ≡ (after, false))
unfolding complete heartbeat
stale_token_is_refused id token worker_id now lease_seconds status jobs after h r =
    let fenced = (Reach-IsFenced h r).above in
    (
      ground (
        arith,
        update_where_fenced id worker_id token (λ job. record job { status = status }) after fenced,
      ),
      ground (
        arith,
        update_where_fenced id worker_id token
            (λ job. record job {
              heartbeat_at = some now;
              lease_expires_at = some (now + lease_seconds);
            })
            after fenced,
      ),
    )
