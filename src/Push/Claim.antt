-- ===== src/Push/Claim.antt =====
-- The claim side of server/push/pipeline.py: `_recover_stale_jobs`, `_due`, `_claim_due_jobs`,
-- `_outranked`, `_release_claimed` and the crash handler of `_process_job`, on the rows of
-- push_jobs. `other_locks` says which rows another transaction has locked (SKIP LOCKED).
pub mod Exclusive
use tigerduck_backend.Prelude.{
  ℕ, zero, suc, ◌+◌, ◌-◌, ◌*◌, ◌^◌, Bool, true, false, ◌&&◌, ◌||◌, not, Option, none, some, List,
  [], ◌∷◌, map, String, leb, ltb, ◌==◌, str_eq, if◌then◌else◌, filter, any, take,
}
use tigerduck_backend.Prelude.Sorting.{order_by}
use tigerduck_backend.Push.Job.{JobStatus, PushJob, is_processing, is_pending_job}
use tigerduck_backend.Push.Deliver.{unlocked}

pub record Settings : Type 0 where
  pub stale_lock : ℕ
  pub retry_round_delay : ℕ
  pub batch_size : ℕ

-- Back to pending at `again`, or failed with `error` once the attempts are spent.
unfoldable pub spend_attempt : ℕ → String → PushJob → PushJob
spend_attempt again error job =
    let freed = record (unlocked job) { attempts = job.attempts + 1 } in
    if leb freed.max_attempts freed.attempts
    then record freed { status = JobStatus.failed; last_error = some error }
    else record freed { status = JobStatus.pending; available_at = again }

-- processing, and locked before `now - stale_lock`
abbrev pub is_stale : Settings → ℕ → PushJob → Bool
is_stale s now job =
    is_processing job.status
    && elim job.locked_at [ none ↦ false | some at ↦ ltb (at + s.stale_lock) now ]

-- The backoff doubles: the counted attempts less one are the attempts before.
unfoldable pub recover_job : Settings → ℕ → PushJob → PushJob
unfolding spend_attempt
recover_job s now job =
    spend_attempt (now + s.retry_round_delay * 2 ^ (job.attempts + 1 - 1)) "stale_lock" job

-- `cutoff_at` is when the cutoff was read, `now` when the rows were.
unfoldable pub recover_stale_jobs : Settings → (ℕ → Bool) → ℕ → ℕ → List PushJob → List PushJob
unfolding recover_job
recover_stale_jobs s other_locks cutoff_at now jobs =
    map (λ j. if is_stale s cutoff_at j && not (other_locks j.id) then recover_job s now j else j)
      jobs

-- `except Exception` of `_process_job`, for the job's row as it then is.
unfoldable pub crash_job : Settings → ℕ → PushJob → PushJob
unfolding spend_attempt
crash_job s now job =
    if is_processing job.status
    then spend_attempt (now + s.retry_round_delay) "pipeline_crash" job
    else job

abbrev pub member : ℕ → List ℕ → Bool
member i ids = any (λ j. j == i) ids

-- `_due`: the pending jobs a claim may take.
unfoldable pub due : ℕ → List ℕ → PushJob → Bool
due now skip job =
    is_pending_job job.status
    && (leb job.fire_at now && (leb job.available_at now && not (member job.id skip)))

-- ORDER BY priority, fire_at LIMIT: the sort by `priority` keeps the order by `fire_at`.
unfoldable pub select_due : Settings → (ℕ → Bool) → ℕ → List ℕ → List PushJob → List PushJob
unfolding due
select_due s other_locks now skip jobs = take s.batch_size (
    order_by (λ j. j.priority)
      (order_by (λ j. j.fire_at) (filter (λ j. due now skip j && not (other_locks j.id)) jobs)))

abbrev pub claimed_by : String → ℕ → PushJob → PushJob
claimed_by worker now job = record job {
  status = JobStatus.processing;
  locked_by = some worker;
  locked_at = some now;
}

abbrev pub update_ids : List ℕ → (PushJob → PushJob) → List PushJob → List PushJob
update_ids ids f jobs = map (λ j. if member j.id ids then f j else j) jobs

abbrev pub ids_of : List PushJob → List ℕ
ids_of jobs = map (λ j. j.id) jobs

-- The claimed jobs as they were selected, and the rows after the claim.
unfoldable pub claim_due_jobs :
    Settings → String → (ℕ → Bool) → ℕ → List ℕ → List PushJob → List PushJob × List PushJob
unfolding select_due
claim_due_jobs s worker other_locks now skip jobs =
    let chosen = select_due s other_locks now skip jobs in
    (chosen, update_ids (ids_of chosen) (claimed_by worker now) jobs)

unfoldable pub outranked : ℕ → List ℕ → ℕ → List PushJob → Bool
unfolding due
outranked now skip priority jobs = any (λ j. due now skip j && ltb j.priority priority) jobs

abbrev pub locked_by : String → PushJob → Bool
locked_by worker job = elim job.locked_by [ none ↦ false | some w ↦ str_eq w worker ]

-- No attempt is spent and `available_at` stays.
unfoldable pub release_claimed : String → List ℕ → List PushJob → List PushJob
release_claimed worker ids jobs =
    map
      (λ j.
        if member j.id ids && (is_processing j.status && locked_by worker j)
        then record (unlocked j) { status = JobStatus.pending }
        else j)
      jobs
