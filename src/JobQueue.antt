-- ===== src/JobQueue.antt =====
-- The job queue, app/repositories/job_queue_repository.py over the table of app/models/execution.py:
-- claim, heartbeat and completion of leases. Each function is one committed transaction. A number
-- stands for a UUID, a worker's name and a point in time (the clock `now` is an argument).

pub mod Unique
pub mod Fencing
pub mod Claim
pub mod Payloads
mod Samples
use mathlib.Core.Path.{◌≡◌}
use multi_agent_ai_platform.Base.{
  ℕ, suc, ◌+◌, Bool, true, false, ◌&&◌, ◌||◌, Option, none, some, List, [], ◌∷◌, ◌++◌, ltb, leb,
  ◌==◌, if◌then◌else◌, same_option, exists_where, find_where, update_where, count_where,
}

pub data JobStatus : Type 0 where
  pending leased done failed : JobStatus

pub data JobType : Type 0 where
  agent_run workflow_node evaluation internal_test : JobType

pub record Job : Type 0 where
  pub id : ℕ
  pub job_type : JobType
  pub payload_ref : ℕ
  pub status : JobStatus
  pub lease_owner : Option ℕ
  pub lease_expires_at : Option ℕ
  pub heartbeat_at : Option ℕ
  pub fencing_token : ℕ
  pub attempt_count : ℕ
  pub created_at : ℕ

abbrev pub same_type : JobType → JobType → Bool
same_type agent_run agent_run = true
same_type workflow_node workflow_node = true
same_type evaluation evaluation = true
same_type internal_test internal_test = true
same_type _ _ = false

-- A new row with the defaults of the table.
abbrev pub new_job : ℕ → JobType → ℕ → ℕ → Job
new_job id job_type payload_ref now = record {
  id = id;
  job_type = job_type;
  payload_ref = payload_ref;
  status = pending;
  lease_owner = none;
  lease_expires_at = none;
  heartbeat_at = none;
  fencing_token = 0;
  attempt_count = 0;
  created_at = now;
}

-- The primary key and `uq_job_queue_job_type_payload_ref`.
abbrev pub collides : ℕ → JobType → ℕ → Job → Bool
collides id job_type payload_ref job =
    job.id == id || same_type job.job_type job_type && job.payload_ref == payload_ref

-- `none` is the IntegrityError of a constraint, which leaves the table as it was.
unfoldable pub enqueue : ℕ → JobType → ℕ → ℕ → List Job → Option (List Job)
enqueue id job_type payload_ref now jobs =
    if exists_where (collides id job_type payload_ref) jobs
    then none
    else some (jobs ++ new_job id job_type payload_ref now ∷ [])

-- `lease_expires_at < now`, not true of NULL.
abbrev pub lease_expired : ℕ → Option ℕ → Bool
lease_expired now none = false
lease_expired now (some t) = ltb t now

abbrev pub claimable_status : JobStatus → Bool → Bool
claimable_status pending expired = true
claimable_status leased expired = expired
claimable_status _ expired = false

unfoldable pub claimable : ℕ → Job → Bool
claimable now job = claimable_status job.status (lease_expired now job.lease_expires_at)

-- `ORDER BY created_at LIMIT 1`. SQL leaves the order of equal times open; here the first row wins.
abbrev pub older : Job → Option Job → Option Job
older job none = some job
older job (some best) = if ltb best.created_at job.created_at then some best else some job

unfoldable pub select_candidate : ℕ → List Job → Option Job
select_candidate now [] = none
select_candidate now (job ∷ jobs) =
    let rest = select_candidate now jobs in if claimable now job then older job rest else rest

-- The `SET` of the claim.
abbrev pub lease_to : ℕ → ℕ → ℕ → Job → Job
lease_to now worker_id lease_seconds job = record job {
  status = leased;
  lease_owner = some worker_id;
  lease_expires_at = some (now + lease_seconds);
  heartbeat_at = some now;
  fencing_token = suc job.fencing_token;
  attempt_count = suc job.attempt_count;
}

abbrev pub is_candidate : ℕ → ℕ → Job → Bool
is_candidate now id job = job.id == id && claimable now job

-- The second statement of `claim_one`: the UPDATE that re-checks its condition.
unfoldable pub claim_candidate : ℕ → ℕ → ℕ → ℕ → List Job → List Job × Option Job
claim_candidate now worker_id lease_seconds id jobs =
    let after = update_where (is_candidate now id) (lease_to now worker_id lease_seconds) jobs in
    if count_where (is_candidate now id) jobs == 0
    then (after, none)
    else (after, find_where (λ job. job.id == id) after)

unfoldable pub claim_one : ℕ → ℕ → ℕ → List Job → List Job × Option Job
claim_one now worker_id lease_seconds jobs = elim (select_candidate now jobs) [
  | none ↦ (jobs, none)
  | some job ↦ claim_candidate now worker_id lease_seconds job.id jobs
]

-- `WHERE id = :id AND lease_owner = :worker_id AND fencing_token = :fencing_token`
abbrev pub holds_lease : ℕ → ℕ → ℕ → Job → Bool
holds_lease job_id worker_id fencing_token job =
    job.id == job_id
    && (same_option job.lease_owner (some worker_id) && job.fencing_token == fencing_token)

unfoldable pub heartbeat : ℕ → ℕ → ℕ → ℕ → ℕ → List Job → List Job × Bool
heartbeat now job_id worker_id fencing_token lease_seconds jobs = (
  update_where (holds_lease job_id worker_id fencing_token)
      (λ job. record job { heartbeat_at = some now; lease_expires_at = some (now + lease_seconds) })
      jobs,
  count_where (holds_lease job_id worker_id fencing_token) jobs == 1,
)

unfoldable pub complete : ℕ → ℕ → ℕ → JobStatus → List Job → List Job × Bool
complete job_id worker_id fencing_token status jobs = (
  update_where (holds_lease job_id worker_id fencing_token) (λ job. record job { status = status })
      jobs,
  count_where (holds_lease job_id worker_id fencing_token) jobs == 1,
)

-- What any number of workers and producers may do to the table, in any order. A claim may use a
-- candidate that was selected at any earlier time.
pub data Step (jobs : List Job) : List Job → Type 0 where
  enqueued :
      {after : List Job} (id : ℕ) (job_type : JobType) (payload_ref now : ℕ)
      → enqueue id job_type payload_ref now jobs ≡ some after
      → Step jobs after
  claimed :
      (now worker_id lease_seconds id : ℕ)
      → Step jobs (claim_candidate now worker_id lease_seconds id jobs).0
  beaten :
      (now job_id worker_id fencing_token lease_seconds : ℕ)
      → Step jobs (heartbeat now job_id worker_id fencing_token lease_seconds jobs).0
  completed :
      (job_id worker_id fencing_token : ℕ) (status : JobStatus)
      → Step jobs (complete job_id worker_id fencing_token status jobs).0

pub data Reach (jobs : List Job) : List Job → Type 0 where
  here : Reach jobs jobs
  next : {mid after : List Job} → Reach jobs mid → Step mid after → Reach jobs after
