-- ===== src/SyncJobs/Steps/Workers.antt =====
-- The transactions of a run and the recovery are quiet (server/syncjobs/executor.py).
use tigerduck_backend.Prelude.{
  ℕ, ◌+◌, ◌≡◌, refl, arith, Bool, ◌&&◌, ◌||◌, Option, none, some, ◌==◌, leb, Bool-cases, inl, inr,
}
use tigerduck_backend.SyncJobs.Job.{
  SyncJobStatus, SyncError, LockToken, SyncPolicy, SyncJob, ExternalAccount, SyncDb, SyncSettings,
  is_running, get_job, get_account, policy_of,
}
use tigerduck_backend.SyncJobs.Claim.{is_taken_back, recover_job, recover_stale_jobs}
use tigerduck_backend.SyncJobs.Runs.{
  Failure, holds, owned, on_owned, lock_owned_job, mark_succeeded, finish_after_probe,
  keep_lock_fresh, nonce_stored, mark_credentials_invalid, disabled_job, invalidate, spend_attempt,
  failing, fail_job, record_failure, wait_out, handle_moodle_failure,
}
use tigerduck_backend.SyncJobs.Steps.Quiet.{
  Calm, Calm-refl, CalmAll-map, CalmAll-refl, Calm-if, CalmAll-set_job, CalmAll-set_twice, Quiet,
  calm, follows, Quiet-refl,
}

pub recover_stale_jobs-Quiet :
    (s : SyncSettings) (other_locks : ℕ → Bool) (cutoff_at now : ℕ) (db : SyncDb)
    → Quiet db (recover_stale_jobs s other_locks cutoff_at now db)
unfolding recover_stale_jobs
recover_stale_jobs-Quiet s other_locks cutoff_at now db =
    calm
      (CalmAll-map _
        (λ j. Calm-if (is_taken_back s other_locks cutoff_at j) j (recover_job now j) (recovered j))
        db.jobs)
      refl (omega arith)
  where
    recovered : (j : SyncJob) → Calm j (recover_job now j)
    recovered j = elim (Bool-cases (leb j.max_attempts (j.attempts + 1))) [
      | inl out ↦ rw out (record { same_id = refl; same_user = refl; keeps = inl refl })
      | inr more ↦ rw more (record { same_id = refl; same_user = refl; keeps = inl refl })
    ]

pub keep_lock_fresh-Quiet :
    (token : LockToken) (i now : ℕ) (db : SyncDb) → Quiet db (keep_lock_fresh token i now db)
unfolding keep_lock_fresh
keep_lock_fresh-Quiet token i now db =
    calm
      (CalmAll-map _
        (λ j.
          Calm-if (j.id == i && (is_running j && holds token j)) j
            (record j { locked_at = some now }) (Calm-locked_at j))
        db.jobs)
      refl (omega arith)
  where
    Calm-locked_at : (j : SyncJob) → Calm j (record j { locked_at = some now })
    Calm-locked_at j = record { same_id = refl; same_user = refl; keeps = (Calm-refl j).keeps }

pub lock_owned_job-Quiet :
    (token : LockToken) (i now : ℕ) (db : SyncDb) → Quiet db (lock_owned_job token i now db).1
unfolding lock_owned_job
lock_owned_job-Quiet token i now db = elim (Bool-cases (owned token (get_job i db.jobs))) [
  | inl ours ↦ rw ours (Quiet-refl db)
  | inr lost ↦ rw lost (calm (CalmAll-refl db.jobs) refl (omega arith))
]

on_owned-Quiet :
    (token : LockToken) (o : Option SyncJob) (f : SyncJob → SyncDb) (db : SyncDb)
    → ((job : SyncJob) → Quiet db (f job))
    → Quiet db (on_owned token o f db)
on_owned-Quiet token none f db q = Quiet-refl db
on_owned-Quiet token (some job) f db q = elim (Bool-cases (is_running job && holds token job)) [
  | inl ours ↦ rw ours (q job)
  | inr lost ↦ rw lost (Quiet-refl db)
]

pub finish_after_probe-Quiet :
    (token : LockToken) (i now : ℕ) (db : SyncDb) → Quiet db (finish_after_probe token i now db)
unfolding finish_after_probe
finish_after_probe-Quiet token i now db =
    on_owned-Quiet token (get_job i db.jobs) (λ job. mark_succeeded token now job db) db
      (λ job.
        calm
          (CalmAll-set_job job.id _
            (λ j. record { same_id = refl; same_user = refl; keeps = inl refl }) db.jobs)
          refl (omega arith))

spend_attempt-Calm :
    (s : SyncSettings) (policy : Option SyncPolicy) (keep : Bool) (now : ℕ) (j k : SyncJob)
    → k.id ≡ j.id
    → k.user_id ≡ j.user_id
    → Calm j (spend_attempt s policy keep now k)
unfolding spend_attempt
spend_attempt-Calm s policy keep now j k same user =
    let out = leb k.max_attempts (k.attempts + 1) in
    elim (Bool-cases (out && keep)) [
      | inl again ↦ rw again (record { same_id = same; same_user = user; keeps = inl refl })
      | inr ends ↦ rw ends (elim (Bool-cases out) [
        | inl last ↦ rw last (record { same_id = same; same_user = user; keeps = inl refl })
        | inr more ↦ rw more (record { same_id = same; same_user = user; keeps = inl refl })
      ])
    ]

mark_credentials_invalid-Quiet :
    (account : ExternalAccount) (user_id : ℕ) (error : SyncError) (now : ℕ) (db : SyncDb)
    → Quiet db (mark_credentials_invalid account user_id error now db)
unfolding mark_credentials_invalid
mark_credentials_invalid-Quiet account user_id error now db =
    calm
      (CalmAll-map _
        (λ j.
          Calm-if (j.user_id == user_id) j (disabled_job error now j)
            (record { same_id = refl; same_user = refl; keeps = inl refl }))
        db.jobs)
      refl (omega arith)

invalidate-Quiet :
    (account : Option ExternalAccount) (user_id : ℕ) (error : SyncError) (now : ℕ) (db : SyncDb)
    → Quiet db (invalidate account user_id error now db)
unfolding invalidate
invalidate-Quiet none user_id error now db = Quiet-refl db
invalidate-Quiet (some account) user_id error now db =
    mark_credentials_invalid-Quiet account user_id error now db

fail_job-Quiet :
    (s : SyncSettings) (f : Failure) (token : LockToken) (now : ℕ) (db : SyncDb) (job : SyncJob)
    → Quiet db (fail_job s f token now db job)
unfolding fail_job
fail_job-Quiet s f token now db job =
    let account = get_account job.external_account_id db.accounts in
    elim (Bool-cases (f.disable && nonce_stored f.credential_nonce account)) [
      | inl rejected ↦ rw rejected (
          follows
            (calm
              (CalmAll-set_twice job.id (failing f.error now)
                (λ j. record j { status = SyncJobStatus.disabled }) (λ j. refl)
                (λ j. record { same_id = refl; same_user = refl; keeps = inl refl }) db.jobs)
              refl (omega arith))
            (invalidate-Quiet account job.user_id f.error now _))
      | inr kept ↦ rw kept (
          calm
            (CalmAll-set_twice job.id (failing f.error now)
              (spend_attempt s (policy_of job.job_type db.policies) (f.disable || f.keep_retrying)
                now)
              (λ j. refl)
              (λ j.
                spend_attempt-Calm s (policy_of job.job_type db.policies)
                  (f.disable || f.keep_retrying) now j (failing f.error now j) refl refl)
              db.jobs)
            refl (omega arith))
    ]

pub handle_moodle_failure-Quiet :
    (s : SyncSettings) (f : Failure) (resume_at : Option ℕ) (token : LockToken) (i now : ℕ)
    (db : SyncDb)
    → Quiet db (handle_moodle_failure s f resume_at token i now db)
unfolding handle_moodle_failure record_failure
handle_moodle_failure-Quiet s f none token i now db =
    on_owned-Quiet token (get_job i db.jobs) (fail_job s f token now db) db
      (fail_job-Quiet s f token now db)
handle_moodle_failure-Quiet s f (some resume_at) token i now db =
    on_owned-Quiet token (get_job i db.jobs) (wait_out f.error token resume_at now db) db (λ job.
      calm
        (CalmAll-set_job job.id _
          (λ j. record { same_id = refl; same_user = refl; keeps = inl refl }) db.jobs)
        refl (omega arith))
