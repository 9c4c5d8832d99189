-- ===== src/JobQueue/Samples.antt =====
-- Small job tables, and what the queue does on them.
use multi_agent_ai_platform.Base.{◌≡◌, refl, false, none, some, List, [], ◌∷◌, arith}
use multi_agent_ai_platform.JobQueue.{
  Job, agent_run, evaluation, done, new_job, enqueue, claimable, select_candidate, claim_candidate,
  claim_one, lease_to, heartbeat, complete, enqueued, here, next,
}
use multi_agent_ai_platform.JobQueue.Unique.{IsUnique}
use multi_agent_ai_platform.JobQueue.Payloads.{SamePayload, one_job_for_each_payload}
use multi_agent_ai_platform.Base.{Apart}
use multi_agent_ai_platform.JobQueue.Fencing.{stale_token_is_refused}
use multi_agent_ai_platform.JobQueue.Claim.{
  row_of, IsOldest, claim_fences_predecessors, claim_one-IsOldest,
}

abbrev two_jobs : List Job
two_jobs = new_job 1 agent_run 11 20 ∷ new_job 2 evaluation 12 10 ∷ []

-- Worker 7 claims job 2, the older one, at time 100 for 30 seconds.
abbrev leased_jobs : List Job
leased_jobs = new_job 1 agent_run 11 20 ∷ lease_to 100 7 30 (new_job 2 evaluation 12 10) ∷ []

-- All that is left is leased until 130.
abbrev leased_only : List Job
leased_only = lease_to 100 7 30 (new_job 2 evaluation 12 10) ∷ []

program : Unit {0}
unfolding enqueue claimable select_candidate claim_candidate claim_one heartbeat complete
program = tt

claim_one_runs :
    claim_one 100 7 30 two_jobs
    ≡ (leased_jobs, some (lease_to 100 7 30 (new_job 2 evaluation 12 10)))
unfolding program
claim_one_runs = refl

enqueue_again : enqueue 3 agent_run 11 30 two_jobs ≡ none
unfolding program
enqueue_again = refl

claim_runs :
    claim_candidate 100 7 30 2 two_jobs
    ≡ (leased_jobs, some (lease_to 100 7 30 (new_job 2 evaluation 12 10)))
unfolding program
claim_runs = refl

two_jobs-IsUnique : IsUnique two_jobs
two_jobs-IsUnique = omega arith

-- The second payload is queued; the first one is refused in `enqueue_again`.
one_job_for_each_payload_example : IsUnique two_jobs × Apart SamePayload two_jobs
unfolding program
one_job_for_each_payload_example =
    one_job_for_each_payload
      (next (next here (enqueued 1 agent_run 11 20 refl)) (enqueued 2 evaluation 12 10 refl))

stale_token_is_refused_example :
    (complete 2 7 0 done leased_jobs ≡ (leased_jobs, false))
    × (heartbeat 120 2 7 0 30 leased_jobs ≡ (leased_jobs, false))
stale_token_is_refused_example =
    stale_token_is_refused 2 0 7 120 30 done leased_jobs leased_jobs (ground arith) here

claim_fences_predecessors_example :
    (complete 2 9 0 done leased_jobs ≡ (leased_jobs, false))
    × (heartbeat 120 2 9 0 30 leased_jobs ≡ (leased_jobs, false))
claim_fences_predecessors_example =
    claim_fences_predecessors 100 7 30 2 two_jobs leased_jobs leased_jobs _ _ 120 9 0 30 done
      two_jobs-IsUnique claim_runs refl (omega arith) here

claim_one-IsOldest_example :
    (row : Job) × IsOldest 100 two_jobs row
    × (row_of row.id two_jobs ≡ some row)
    × ((claim_one 100 7 30 two_jobs).1 ≡ some (lease_to 100 7 30 row))
    × (row_of row.id (claim_one 100 7 30 two_jobs).0 ≡ some (lease_to 100 7 30 row))
unfolding program
claim_one-IsOldest_example = claim_one-IsOldest 100 7 30 two_jobs two_jobs-IsUnique refl
