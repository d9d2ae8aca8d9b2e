-- ===== src/Push/Claim/Exclusive.antt =====
-- What a claim picks, and what recovery and the crash handler do to a job's attempts.
use tigerduck_backend.Prelude.{
  ℕ, ◌<◌, ◌≤◌, ◌≡◌, refl, subst, sym, Bool, true, false, ◌&&◌, not, List, [], ◌∷◌, String, arith,
  Bool-cases, inl, inr, All, filter, filter-All, All_of_filter, take-head,
}
use tigerduck_backend.Prelude.Sorting.{
  order_by, Sorted, order_by-All, order_by-Sorted, All_of_order_by,
}
use tigerduck_backend.Push.Job.{PushJob, Delivery, is_processing, is_settled}
use tigerduck_backend.Push.Deliver.{Outside, Tokens, deliver_round, finish_round, attempt_due}
use tigerduck_backend.Push.Claim.{
  Settings, is_stale, recover_job, recover_stale_jobs, crash_job, due, select_due, claim_due_jobs,
}

-- A job that may still be worked on has an attempt left, and none is past its attempts.
pub record HasRoom (job : PushJob) : Type 0 where
  pub within : job.attempts ≤ job.max_attempts
  pub live : is_settled job.status ≡ false → job.attempts < job.max_attempts

pub recover_job-HasRoom :
    (s : Settings) (now : ℕ) (job : PushJob)
    → HasRoom job
    → is_processing job.status ≡ true
    → HasRoom (recover_job s now job)
unfolding recover_job
recover_job-HasRoom s now job h p = ground arith

recover_job-released :
    (s : Settings) (now : ℕ) (job : PushJob) → is_processing (recover_job s now job).status ≡ false
unfolding recover_job
recover_job-released s now job = ground arith

-- After a crash the job is not left in processing, and keeps its bound on attempts.
pub crash_job-HasRoom :
    (s : Settings) (now : ℕ) (job : PushJob)
    → HasRoom job
    → HasRoom (crash_job s now job) × (is_processing (crash_job s now job).status ≡ false)
unfolding crash_job
crash_job-HasRoom s now job h = (ground arith, ground arith)

-- Recovery leaves no stale row behind but those that another transaction has locked, and gives every
-- row an attempt to spend or an end.
pub recover_stale_jobs-HasRoom :
    (s : Settings) (other_locks : ℕ → Bool) (cutoff_at now : ℕ) (jobs : List PushJob)
    → All HasRoom jobs
    → All
        (λ j. HasRoom j × ((is_stale s cutoff_at j && not (other_locks j.id)) ≡ false))
        (recover_stale_jobs s other_locks cutoff_at now jobs)
unfolding recover_stale_jobs
recover_stale_jobs-HasRoom s other_locks cutoff_at now [] h = tt
recover_stale_jobs-HasRoom s other_locks cutoff_at now (j ∷ js) h = (
  elim (Bool-cases (is_stale s cutoff_at j && not (other_locks j.id))) [
    | inl stale ↦
        rw stale
          (recover_job-HasRoom s now j h.0 (ground arith), rw (recover_job-released s now j) refl)
    | inr fresh ↦ rw fresh (h.0, fresh)
  ],
  recover_stale_jobs-HasRoom s other_locks cutoff_at now js h.1,
)

finish_round-HasRoom :
    (out : Outside) (now : ℕ) (job : PushJob) (attempted : ℕ) (ds : List Delivery)
    → is_processing job.status ≡ true
    → HasRoom job
    → HasRoom (finish_round out now job attempted ds).0
unfolding finish_round
finish_round-HasRoom out now job attempted ds p h = ground arith

-- A delivery round keeps a job's bound on attempts: a job that goes back to pending has one left.
pub deliver_round-HasRoom :
    (out : Outside) (now : ℕ) (job : PushJob) (ds : List Delivery) (tokens : Tokens)
    → is_processing job.status ≡ true
    → HasRoom job
    → HasRoom (deliver_round out now job ds tokens).0
unfolding deliver_round
deliver_round-HasRoom out now job [] tokens p h = ground arith
deliver_round-HasRoom out now job (d ∷ ds) tokens p h =
    let pass = attempt_due out now job (d ∷ ds) tokens in
    finish_round-HasRoom out now job pass.0 pass.1 p h

-- The first job of a claimed batch is as urgent as any other row that the claim could have taken.
pub claim_due_jobs-most_urgent :
    (s : Settings) (worker : String) (other_locks : ℕ → Bool) (now : ℕ) (skip : List ℕ)
    (jobs : List PushJob) (first : PushJob) (rest : List PushJob)
    → (claim_due_jobs s worker other_locks now skip jobs).0 ≡ first ∷ rest
    → (due now skip first ≡ true)
      × All
          (λ j. (due now skip j && not (other_locks j.id)) ≡ true → first.priority ≤ j.priority)
          jobs
unfolding claim_due_jobs select_due
claim_due_jobs-most_urgent s worker other_locks now skip jobs first rest e =
    let p = λ (j : PushJob). due now skip j && not (other_locks j.id) in
    let by_time = order_by (λ (j : PushJob). j.fire_at) (filter p jobs) in
    let (w, all) = take-head s.batch_size (order_by (λ (j : PushJob). j.priority) by_time) e in
    let sorted =
      subst (Sorted (λ (j : PushJob). j.priority)) all
        (order_by-Sorted (λ j. j.priority) by_time) in
    let picked : All (λ j. p j ≡ true) (first ∷ w) = subst (All (λ j. p j ≡ true)) all (
      order_by-All (λ j. j.priority) (λ j. p j ≡ true) by_time
        (order_by-All (λ j. j.fire_at) (λ j. p j ≡ true) (filter p jobs) (filter-All p jobs))) in
    (
      ground (arith, picked.0),
      All_of_filter (λ j. first.priority ≤ j.priority) p jobs
          (All_of_order_by (λ j. j.fire_at) (λ j. first.priority ≤ j.priority) (filter p jobs)
            (All_of_order_by (λ j. j.priority) (λ j. first.priority ≤ j.priority) by_time
              (subst (All (λ j. first.priority ≤ j.priority)) (sym all) (omega arith, sorted.0)))),
    )
