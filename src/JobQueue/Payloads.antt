-- ===== src/JobQueue/Payloads.antt =====
-- `uq_job_queue_job_type_payload_ref`: one job for each type and payload, so no agent run is queued
-- twice.
use multi_agent_ai_platform.Base.{
  ℕ, ◌+◌, ◌≡◌, refl, sym, ◌∙◌, subst, Bool, true, false, some, List, [], ◌∷◌, ◌++◌, arith,
  if◌then◌else◌, exists_where, update_where, All, Apart,
}
use multi_agent_ai_platform.JobQueue.{
  Job, JobType, new_job, collides, same_type, is_candidate, lease_to, holds_lease, heartbeat,
  complete, Step, enqueued, claimed, beaten, completed, Reach, here, next,
}
use multi_agent_ai_platform.JobQueue.Unique.{
  IsUnique, claim_candidate_table, enqueue-appends, Reach-IsUnique,
}

abbrev pub SamePayload : Job → Job → Type 0
SamePayload a b = (a.job_type ≡ b.job_type) × (a.payload_ref ≡ b.payload_ref)

-- An update that keeps the type and the payload.
abbrev Repays : (Job → Job) → Type 0
Repays f = (job : Job) → SamePayload (f job) job

kept_if :
    (p : Job → Bool) (f : Job → Job)
    → Repays f
    → (job : Job) → SamePayload (if p job then f job else job) job
kept_if p f kept job = ground (arith, kept job)

moved :
    (x x' y y' : Job) → SamePayload x' x → SamePayload y' y → SamePayload x' y' → SamePayload x y
moved x x' y y' h k e = (sym h.0 ∙ e.0 ∙ k.0, sym h.1 ∙ e.1 ∙ k.1)

All-update_where_old :
    (p : Job → Bool) (f : Job → Job)
    → Repays f
    → (x' x : Job) → SamePayload x' x
    → (jobs : List Job) → All (λ y. SamePayload x y → ⊥) jobs
    → All (λ y. SamePayload x' y → ⊥) (update_where p f jobs)
All-update_where_old p f kept x' x same [] h = tt
All-update_where_old p f kept x' x same (y ∷ jobs) h = (
  λ e. h.0 (moved x x' y (if p y then f y else y) same (kept_if p f kept y) e),
  All-update_where_old p f kept x' x same jobs h.1,
)

update_where-Apart :
    (p : Job → Bool) (f : Job → Job)
    → Repays f
    → (jobs : List Job) → Apart SamePayload jobs
    → Apart SamePayload (update_where p f jobs)
update_where-Apart p f kept [] u = tt
update_where-Apart p f kept (job ∷ jobs) u = (
  All-update_where_old p f kept (if p job then f job else job) job (kept_if p f kept job) jobs u.0,
  update_where-Apart p f kept jobs u.1,
)

same_type_refl : (t : JobType) → same_type t t ≡ true
same_type_refl t = ground arith

fresh_payload :
    (id : ℕ) (t : JobType) (ref now : ℕ) (jobs : List Job)
    → exists_where (collides id t ref) jobs ≡ false
    → All (λ other. SamePayload other (new_job id t ref now) → ⊥) jobs
fresh_payload id t ref now [] free = tt
fresh_payload id t ref now (job ∷ jobs) free = (
  λ same.
      let e : same_type job.job_type t ≡ true =
        subst (λ k. same_type job.job_type k ≡ true) same.0 (same_type_refl job.job_type) in
      ground arith,
  fresh_payload id t ref now jobs (ground arith),
)

All-snoc :
    (P : Job → Type 0) (new : Job) (jobs : List Job) → All P jobs → P new → All P (jobs ++ new ∷ [])
All-snoc P new [] h n = (n, tt)
All-snoc P new (job ∷ jobs) h n = (h.0, All-snoc P new jobs h.1 n)

snoc-Apart :
    (new : Job) (jobs : List Job)
    → All (λ other. SamePayload other new → ⊥) jobs
    → Apart SamePayload jobs
    → Apart SamePayload (jobs ++ new ∷ [])
snoc-Apart new [] h u = (tt, tt)
snoc-Apart new (job ∷ jobs) h u = (All-snoc _ new jobs u.0 h.0, snoc-Apart new jobs h.1 u.1)

Step-Apart :
    {jobs after : List Job} → Step jobs after → Apart SamePayload jobs → Apart SamePayload after
unfolding heartbeat complete
Step-Apart {jobs} (enqueued id t ref now e) u =
    let (free, appended) = enqueue-appends id t ref now jobs _ e in
    subst (λ (rows : List Job). Apart SamePayload rows) appended
      (snoc-Apart (new_job id t ref now) jobs (fresh_payload id t ref now jobs free) u)
Step-Apart {jobs} (claimed now w l c) u =
    rw (claim_candidate_table now w l c jobs)
      (update_where-Apart (is_candidate now c) (lease_to now w l) (λ job. (refl, refl)) jobs u)
Step-Apart {jobs} (beaten now j w t l) u =
    update_where-Apart (holds_lease j w t)
      (λ job. record job { heartbeat_at = some now; lease_expires_at = some (now + l) })
      (λ job. (refl, refl)) jobs u
Step-Apart {jobs} (completed j w t s) u =
    update_where-Apart (holds_lease j w t) (λ job. record job { status = s }) (λ job. (refl, refl))
      jobs u

Reach-Apart : {after : List Job} → Reach [] after → Apart SamePayload after
Reach-Apart here = tt
Reach-Apart (next r st) = Step-Apart st (Reach-Apart r)

-- Whatever enqueues, claims, heartbeats and completions are made on an empty table, in any order, no
-- two rows have one id, and no two rows have the same type and the same payload.
pub one_job_for_each_payload :
    {after : List Job} → Reach [] after → IsUnique after × Apart SamePayload after
one_job_for_each_payload r = (Reach-IsUnique r, Reach-Apart r)
