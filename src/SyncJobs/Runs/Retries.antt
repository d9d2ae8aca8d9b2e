-- ===== src/SyncJobs/Runs/Retries.antt =====
-- Where a job's failures end: the worker's own use up the attempts, the school's never do.
use tigerduck_backend.Prelude.{
  none, some, String, ap, ◌∙◌, ℕ, ◌+◌, ◌≤◌, ◌<◌, ◌≡◌, max, refl, subst, sym, arith, Bool, true,
  false, Option, List, [], ◌∷◌, length, leb, ◌==◌, if◌then◌else◌, Bool-cases, inl, inr,
}
use tigerduck_backend.SyncJobs.Job.{
  SyncError, SyncJobStatus, SyncPolicy, SyncJob, SyncSettings, LockToken, SyncDb, get_job, set_job,
  policy_of,
}
use tigerduck_backend.SyncJobs.Execute.{Raise, rate_limited, unreachable, failure_of, handle}
use tigerduck_backend.SyncJobs.Runs.{
  interval_of, spend_attempt, failing, held_until, Failure, owned, on_owned, fail_job,
  record_failure, wait_out, handle_moodle_failure,
}

-- One failure after another, at the times given.
unfoldable pub fail_times : SyncSettings → Option SyncPolicy → Bool → List ℕ → SyncJob → SyncJob
unfolding spend_attempt
fail_times s policy keep [] job = job
fail_times s policy keep (now ∷ times) job =
    fail_times s policy keep times (spend_attempt s policy keep now job)

-- An error of the school as its handler meets it: when, what is written, and when Moodle is back where
-- the handler asks and it does not count as there.
pub record SchoolError : Type 0 where
  pub now : ℕ
  pub error : SyncError
  pub resume_at : Option ℕ

abbrev pub met : SyncError → ℕ → Option ℕ → SchoolError
met error now resume_at = record { now = now; error = error; resume_at = resume_at }

-- What the handler does to the job that the run holds (`handle-school_error` below): held until then, or
-- an attempt spent.
abbrev pub school_change :
    SyncSettings → Option SyncPolicy → SyncError → ℕ → Option ℕ → SyncJob → SyncJob
school_change s policy error now (some at) job = held_until error at job
school_change s policy error now none job = spend_attempt s policy true now (failing error now job)

abbrev pub school_error : SyncSettings → Option SyncPolicy → SchoolError → SyncJob → SyncJob
school_error s policy e job = school_change s policy e.error e.now e.resume_at job

unfoldable pub school_errors :
    SyncSettings → Option SyncPolicy → List SchoolError → SyncJob → SyncJob
school_errors s policy [] job = job
school_errors s policy (e ∷ es) job = school_errors s policy es (school_error s policy e job)

abbrev pub IsDue : SyncSettings → Option SyncPolicy → ℕ → ℕ → Option ℕ → Type 0
IsDue s policy now run_after (some at) = run_after ≡ at
IsDue s policy now run_after none =
    (now ≤ run_after) × (run_after ≤ now + max s.backoff_cap (interval_of policy))

-- Due again, with an attempt left: when Moodle is back, or else from now on and soon enough.
pub record IsRetried (s : SyncSettings) (policy : Option SyncPolicy) (e : SchoolError)
    (job : SyncJob) : Type 0 where
  pub pending : job.status ≡ SyncJobStatus.pending
  pub more : job.attempts < job.max_attempts
  pub due : IsDue s policy e.now job.run_after e.resume_at

spend_attempt-max :
    (s : SyncSettings) (policy : Option SyncPolicy) (keep : Bool) (now : ℕ) (job : SyncJob)
    → (spend_attempt s policy keep now job).max_attempts ≡ job.max_attempts
unfolding spend_attempt
spend_attempt-max s policy keep now job = ground arith

-- What an attempt that is kept on retrying leaves.
record IsSpent (s : SyncSettings) (policy : Option SyncPolicy) (now : ℕ) (job : SyncJob)
    : Type 0 where
  pending : job.status ≡ SyncJobStatus.pending
  more : job.attempts < job.max_attempts
  not_past : now ≤ job.run_after
  soon : job.run_after ≤ now + max s.backoff_cap (interval_of policy)

spend_attempt-IsSpent :
    (s : SyncSettings) (policy : Option SyncPolicy) (now : ℕ) (job : SyncJob)
    → 0 < job.max_attempts
    → IsSpent s policy now (spend_attempt s policy true now job)
unfolding spend_attempt
spend_attempt-IsSpent s policy now job h =
    elim (Bool-cases (leb job.max_attempts (job.attempts + 1))) [
      | inl out ↦
          rw out (record { pending = refl; more = h; not_past = omega arith; soon = omega arith })
      | inr more ↦ rw more (record {
        pending = refl;
        more = ground arith;
        not_past = omega arith;
        soon = omega arith;
      })
    ]

school_change-IsRetried :
    (s : SyncSettings) (policy : Option SyncPolicy) (error : SyncError) (now : ℕ) (o : Option ℕ)
    (job : SyncJob)
    → job.attempts < job.max_attempts
    → IsRetried s policy
        (record { now = now; error = error; resume_at = o })
        (school_change s policy error now o job)
unfolding held_until
school_change-IsRetried s policy error now (some at) job h = record {
  pending = refl;
  more = h;
  due = refl;
}
school_change-IsRetried s policy error now none job h =
    let spent = spend_attempt-IsSpent s policy now (failing error now job) (omega (arith, h)) in
    record { pending = spent.pending; more = spent.more; due = (spent.not_past, spent.soon) }

abbrev pub last_or : SchoolError → List SchoolError → SchoolError
last_or e [] = e
last_or e (f ∷ fs) = last_or f fs

school_errors_kept :
    (s : SyncSettings) (policy : Option SyncPolicy) (e : SchoolError) (es : List SchoolError)
    (job : SyncJob)
    → job.attempts < job.max_attempts
    → IsRetried s policy (last_or e es) (school_errors s policy (e ∷ es) job)
unfolding school_errors
school_errors_kept s policy e [] job h =
    school_change-IsRetried s policy e.error e.now e.resume_at job h
school_errors_kept s policy e (f ∷ fs) job h =
    school_errors_kept s policy f fs (school_error s policy e job)
      (school_change-IsRetried s policy e.error e.now e.resume_at job h).more

spend_attempt-more :
    (s : SyncSettings) (policy : Option SyncPolicy) (now : ℕ) (job : SyncJob)
    → job.attempts + 1 < job.max_attempts
    → ((spend_attempt s policy false now job).status ≡ SyncJobStatus.pending)
      × ((spend_attempt s policy false now job).attempts ≡ job.attempts + 1)
unfolding spend_attempt
spend_attempt-more s policy now job h =
    elim (Bool-cases (leb job.max_attempts (job.attempts + 1))) [
      | inl out ↦ absurd (ground arith)
      | inr more ↦ rw more (refl, refl)
    ]

spend_attempt-last :
    (s : SyncSettings) (policy : Option SyncPolicy) (now : ℕ) (job : SyncJob)
    → job.max_attempts ≤ job.attempts + 1
    → (spend_attempt s policy false now job).status ≡ SyncJobStatus.failed
unfolding spend_attempt
spend_attempt-last s policy now job h =
    elim (Bool-cases (leb job.max_attempts (job.attempts + 1))) [
      | inl out ↦ rw out refl
      | inr more ↦ absurd (ground arith)
    ]

abbrev EndsAs : ℕ → ℕ → SyncJob → Type 0
EndsAs spent allowed r =
    r.status ≡ (if spent == allowed then SyncJobStatus.failed else SyncJobStatus.pending)

-- The worker's own errors leave the job failed exactly when its attempts are used up, and pending
-- before.
pub own_errors-end :
    (s : SyncSettings) (policy : Option SyncPolicy) (times : List ℕ) (job : SyncJob)
    → job.status ≡ SyncJobStatus.pending
    → job.attempts < job.max_attempts
    → job.attempts + length times ≤ job.max_attempts
    → (fail_times s policy false times job).status ≡ (
        if job.attempts + length times == job.max_attempts
        then SyncJobStatus.failed
        else SyncJobStatus.pending)
unfolding fail_times
own_errors-end s policy [] job pending more within =
    rw pending (rw (not_yet (job.attempts + 0) job.max_attempts (omega arith)) refl)
  where
    not_yet : (a b : ℕ) → a < b → (a == b) ≡ false
    not_yet a b h = ground arith
own_errors-end s policy (now ∷ []) job pending more within =
    elim (Bool-cases (job.attempts + 1 == job.max_attempts)) [
      | inl last ↦ rw last (spend_attempt-last s policy now job (ground arith))
      | inr other ↦ rw other (spend_attempt-more s policy now job (ground arith)).0
    ]
own_errors-end s policy (now ∷ t ∷ ts) job pending more within =
    let next_job = spend_attempt s policy false now job in
    let (again, counted) = spend_attempt-more s policy now job (omega (arith, within)) in
    let same = spend_attempt-max s policy false now job in
    let rest =
      own_errors-end s policy (t ∷ ts) next_job again (omega (arith, within, counted, same))
        (omega (arith, within, counted, same)) in
    let r = fail_times s policy false (t ∷ ts) next_job in
    subst (λ m. EndsAs (job.attempts + length (now ∷ t ∷ ts)) m r) same
      (subst (λ n. EndsAs n next_job.max_attempts r) {x = next_job.attempts + length (t ∷ ts)}
        (omega (arith, counted)) rest)

set_job-twice :
    (i : ℕ) (f g : SyncJob → SyncJob) (js : List SyncJob)
    → ((j : SyncJob) → (f j).id ≡ j.id)
    → set_job i g (set_job i f js) ≡ set_job i (λ j. g (f j)) js
set_job-twice i f g [] same = refl
set_job-twice i f g (j ∷ js) same = elim (Bool-cases (j.id == i)) [
  | inl here ↦ rw here (
      subst
        (λ b.
          ((if b then g (f j) else f j) ∷ set_job i g (set_job i f js))
          ≡ (g (f j) ∷ set_job i (λ k. g (f k)) js))
        {x = true} (sym (ap (λ n. n == i) (same j) ∙ here))
        (ap (λ xs. g (f j) ∷ xs) (set_job-twice i f g js same)))
  | inr away ↦ rw away (rw away (ap (λ xs. j ∷ xs) (set_job-twice i f g js same)))
]

-- An error of the school, and when its handler finds Moodle back: a rate limit is handled without a
-- look at the windows.
pub data IsSchool : Raise → Option ℕ → Option ℕ → Type 0 where
  limited : {resume_at : Option ℕ} → IsSchool rate_limited resume_at none
  away :
      {detail : String} {resume_at : Option ℕ} → IsSchool (unreachable detail) resume_at resume_at

fail_job-school :
    (s : SyncSettings) (f : Failure) (token : LockToken) (now : ℕ) (db : SyncDb) (job : SyncJob)
    → f.disable ≡ false
    → f.keep_retrying ≡ true
    → (fail_job s f token now db job).jobs
      ≡ set_job job.id
          (school_change s (policy_of job.job_type db.policies) f.error now none)
          db.jobs
unfolding fail_job
fail_job-school s f token now db job off keep = rw off (
    rw keep (
      set_job-twice job.id (failing f.error now)
        (spend_attempt s (policy_of job.job_type db.policies) true now) db.jobs (λ j. refl)))

on_owned-held :
    (token : LockToken) (o : Option SyncJob) (f : SyncJob → SyncDb) (db : SyncDb) (job : SyncJob)
    → o ≡ some job
    → owned token (some job) ≡ true
    → on_owned token o f db ≡ f job
on_owned-held token o f db job found ours =
    subst (λ m. on_owned token m f db ≡ f job) (sym found) (rw ours refl)

-- On the row that the run holds, the handler of an error of the school makes that change.
handle-school_error :
    (s : SyncSettings) (credential resume_at used : Option ℕ) (token : LockToken) (i now : ℕ)
    (db : SyncDb) (r : Raise) (job : SyncJob)
    → IsSchool r resume_at used
    → get_job i db.jobs ≡ some job
    → owned token (some job) ≡ true
    → (handle s credential resume_at token i now db r).jobs
      ≡ set_job job.id
          (school_change s
            (policy_of job.job_type db.policies)
            (failure_of credential r).error
            now
            used)
          db.jobs
unfolding handle handle_moodle_failure record_failure wait_out
handle-school_error s credential _ _ token i now db _ job (limited {resume_at = resume_at}) found
      ours =
    let f = failure_of credential rate_limited in
    ap (λ d. d.jobs)
      (on_owned-held token (get_job i db.jobs) (fail_job s f token now db) db job found ours)
    ∙ fail_job-school s f token now db job refl refl
handle-school_error s credential _ _ token i now db _ job
      (away {detail = detail} {resume_at = none}) found ours =
    let f = failure_of credential (unreachable detail) in
    ap (λ d. d.jobs)
      (on_owned-held token (get_job i db.jobs) (fail_job s f token now db) db job found ours)
    ∙ fail_job-school s f token now db job refl refl
handle-school_error s credential _ _ token i now db _ job
      (away {detail = detail} {resume_at = some back}) found ours =
    let f = failure_of credential (unreachable detail) in
    ap (λ d. d.jobs)
      (on_owned-held token (get_job i db.jobs) (wait_out f.error token back now db) db job found
        ours)

-- The handler of an error of the school changes the job that the run holds, by its id, as
-- `school_error` says; and however often that happens to it in a row, in maintenance windows and outside
-- them, the job is due again and has an attempt left: at the time that Moodle is back where the last
-- error met a window, and otherwise within the longer of the backoff's cap and the policy's interval
-- after it.
pub school_errors-IsRetried :
    (s : SyncSettings) (credential resume_at used : Option ℕ) (token : LockToken) (i now : ℕ)
    (db : SyncDb) (r : Raise) (job : SyncJob) (es : List SchoolError)
    → IsSchool r resume_at used
    → get_job i db.jobs ≡ some job
    → owned token (some job) ≡ true
    → job.attempts < job.max_attempts
    → let policy = policy_of job.job_type db.policies in
      let e = met (failure_of credential r).error now used in
      ((handle s credential resume_at token i now db r).jobs
        ≡ set_job job.id (school_error s policy e) db.jobs)
      × IsRetried s policy (last_or e es) (school_errors s policy (e ∷ es) job)
school_errors-IsRetried s credential resume_at used token i now db r job es k found ours more =
    let policy = policy_of job.job_type db.policies in
    (
      handle-school_error s credential resume_at used token i now db r job k found ours,
      school_errors_kept s policy (met (failure_of credential r).error now used) es job more,
    )
