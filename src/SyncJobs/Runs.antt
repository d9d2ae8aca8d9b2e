-- ===== src/SyncJobs/Runs.antt =====
-- The transactions that end a run, of server/syncjobs/executor.py and
-- server/syncjobs/credentials.py: each locks the job and checks that the run still holds it.
pub mod Retries
use tigerduck_backend.Prelude.{
  ℕ, suc, ◌+◌, ◌-◌, ◌*◌, ◌^◌, min, Bool, true, false, ◌&&◌, ◌||◌, not, Option, none, some, List, [],
  ◌∷◌, ◌++◌, map, any, String, str_eq, leb, ◌==◌, if◌then◌else◌,
}
use tigerduck_backend.SyncJobs.Job.{
  SyncError, moodle_maintenance, RunError, plain, reclaimed_before_execution, SyncJobStatus,
  SyncRunStatus, SyncPolicy, LockToken, SyncJob, SyncRun, CredentialStatus, ExternalAccount,
  SyncDevice, Prompt, SyncDb, SyncSettings, is_running, is_open_run, get_job, get_account,
  policy_of, set_job, set_run,
}

abbrev pub holds : LockToken → SyncJob → Bool
holds token job = elim job.locked_by [
  | none ↦ false
  | some t ↦ str_eq t.worker_id token.worker_id && t.run_id == token.run_id
]

abbrev pub owned : LockToken → Option SyncJob → Bool
owned token none = false
owned token (some job) = is_running job && holds token job

abbrev pub cancel_run : ℕ → SyncRun → SyncRun
cancel_run now run =
    if is_open_run run
    then record run {
      status = SyncRunStatus.cancelled;
      finished_at = some now;
      error = some reclaimed_before_execution;
    }
    else run

-- The job that the run still holds, and the tables, where a run that lost it is cancelled.
unfoldable pub lock_owned_job : LockToken → ℕ → ℕ → SyncDb → Option SyncJob × SyncDb
lock_owned_job token i now db =
    if owned token (get_job i db.jobs)
    then (get_job i db.jobs, db)
    else (none, record db { runs = set_run token.run_id (cancel_run now) db.runs })

abbrev pub interval_of : Option SyncPolicy → ℕ
interval_of none = 28800
interval_of (some p) = p.default_interval

abbrev pub priority_of : Option SyncPolicy → ℕ
priority_of none = 100
priority_of (some p) = p.priority

-- Free, and due again after the policy's interval, with its attempts and priority as new.
abbrev pub rescheduled : Option SyncPolicy → ℕ → SyncJob → SyncJob
rescheduled policy now job = record job {
  status = SyncJobStatus.pending;
  run_after = now + interval_of policy;
  attempts = 0;
  priority = priority_of policy;
  locked_by = none;
  locked_at = none;
}

abbrev pub succeeded_run : ℕ → SyncRun → SyncRun
succeeded_run now run = record run { status = SyncRunStatus.succeeded; finished_at = some now }

unfoldable pub mark_succeeded : LockToken → ℕ → SyncJob → SyncDb → SyncDb
mark_succeeded token now job db = record db {
  jobs =
      set_job job.id
        (λ j. record (rescheduled (policy_of job.job_type db.policies) now j) {
          last_success_at = some now;
          last_error = none;
        })
        db.jobs;
  runs = set_run token.run_id (succeeded_run now) db.runs;
}

abbrev pub on_owned : LockToken → Option SyncJob → (SyncJob → SyncDb) → SyncDb → SyncDb
on_owned token none f db = db
on_owned token (some job) f db = if is_running job && holds token job then f job else db

unfoldable pub finish_after_probe : LockToken → ℕ → ℕ → SyncDb → SyncDb
unfolding mark_succeeded
finish_after_probe token i now db =
    on_owned token (get_job i db.jobs) (λ job. mark_succeeded token now job db) db

-- One round of `_keep_lock_fresh`.
unfoldable pub keep_lock_fresh : LockToken → ℕ → ℕ → SyncDb → SyncDb
keep_lock_fresh token i now db = record db {
  jobs =
      map
        (λ j.
          if j.id == i && (is_running j && holds token j)
          then record j { locked_at = some now }
          else j)
        db.jobs;
}

abbrev pub failed_run : RunError → ℕ → SyncRun → SyncRun
failed_run error now run =
    if is_open_run run
    then record run { status = SyncRunStatus.failed; finished_at = some now; error = some error }
    else run

-- The account's stored credential is still the one whose token was rejected.
abbrev pub nonce_stored : Option ℕ → Option ExternalAccount → Bool
nonce_stored none _ = true
nonce_stored (some n) none = false
nonce_stored (some n) (some a) = elim a.credential_nonce [ none ↦ false | some m ↦ m == n ]

abbrev pub same_time : Option ℕ → Option ℕ → Bool
same_time none none = true
same_time (some a) (some b) = a == b
same_time _ _ = false

abbrev pub is_apple_handheld : String → Bool
is_apple_handheld p = str_eq p "ios" || str_eq p "ipados"

abbrev pub can_reauth : ℕ → SyncDevice → Bool
can_reauth user_id d =
    d.user_id == user_id
    && (not d.is_deleted && (d.cloud_sync_enabled && is_apple_handheld d.platform))

abbrev pub same_prompt : Prompt → Prompt → Bool
same_prompt p q = p.account_id == q.account_id && same_time p.stored q.stored

-- INSERT with ON CONFLICT DO NOTHING
abbrev pub add_prompt : Prompt → List Prompt → List Prompt
add_prompt p ps = if any (same_prompt p) ps then ps else ps ++ p ∷ []

abbrev pub invalidated : SyncError → ℕ → ExternalAccount → ExternalAccount
invalidated error now a = record a {
  credential_status = CredentialStatus.invalid;
  last_auth_failure_at = some now;
  last_auth_error = some error;
}

abbrev pub disabled_job : SyncError → ℕ → SyncJob → SyncJob
disabled_job error now job = record job {
  status = SyncJobStatus.disabled;
  locked_by = none;
  locked_at = none;
  last_failure_at = some now;
  last_error = some error;
}

-- The account, every job of the user, and one prompt where a device can act on it.
unfoldable pub mark_credentials_invalid : ExternalAccount → ℕ → SyncError → ℕ → SyncDb → SyncDb
mark_credentials_invalid account user_id error now db = record db {
  accounts = map (λ a. if a.id == account.id then invalidated error now a else a) db.accounts;
  jobs = map (λ j. if j.user_id == user_id then disabled_job error now j else j) db.jobs;
  prompts =
      if any (can_reauth user_id) db.devices
      then add_prompt (record { account_id = account.id; stored = account.last_auth_success_at })
          db.prompts
      else db.prompts;
}

unfoldable pub invalidate : Option ExternalAccount → ℕ → SyncError → ℕ → SyncDb → SyncDb
unfolding mark_credentials_invalid
invalidate none user_id error now db = db
invalidate (some account) user_id error now db =
    mark_credentials_invalid account user_id error now db

-- An attempt is spent: another after the backoff, or the policy's interval, or the end.
unfoldable pub spend_attempt : SyncSettings → Option SyncPolicy → Bool → ℕ → SyncJob → SyncJob
spend_attempt s policy keep_retrying now job =
    let counted = record job { attempts = job.attempts + 1 } in
    if leb counted.max_attempts counted.attempts && keep_retrying
    then rescheduled policy now counted
    else if leb counted.max_attempts counted.attempts
    then record counted { status = SyncJobStatus.failed }
    else record counted {
      status = SyncJobStatus.pending;
      run_after = now + min (s.backoff_base * 2 ^ (counted.attempts - 1)) s.backoff_cap;
    }

-- Unlocked, with the failure noted.
abbrev pub failing : SyncError → ℕ → SyncJob → SyncJob
failing error now job = record job {
  locked_by = none;
  locked_at = none;
  last_failure_at = some now;
  last_error = some error;
}

-- How a failure is to be recorded.
pub record Failure : Type 0 where
  pub error : SyncError
  -- what the run's row says, the detail of the error included
  pub run_error : RunError
  pub disable : Bool
  pub keep_retrying : Bool
  pub credential_nonce : Option ℕ

unfoldable pub fail_job : SyncSettings → Failure → LockToken → ℕ → SyncDb → SyncJob → SyncDb
unfolding spend_attempt invalidate
fail_job s f token now db job =
    let noted = record db {
      runs = set_run token.run_id (failed_run f.run_error now) db.runs;
      jobs = set_job job.id (failing f.error now) db.jobs;
    } in
    let account = get_account job.external_account_id db.accounts in
    if f.disable && nonce_stored f.credential_nonce account
    then invalidate account job.user_id f.error now (record noted {
      jobs = set_job job.id (λ j. record j { status = SyncJobStatus.disabled }) noted.jobs;
    })
    else record noted {
      jobs =
          set_job job.id
            (spend_attempt s (policy_of job.job_type db.policies) (f.disable || f.keep_retrying)
              now)
            noted.jobs;
    }

unfoldable pub record_failure : SyncSettings → Failure → LockToken → ℕ → ℕ → SyncDb → SyncDb
unfolding fail_job
record_failure s f token i now db =
    on_owned token (get_job i db.jobs) (fail_job s f token now db) db

-- Back for when Moodle is there again, without an attempt spent.
unfoldable pub held_until : SyncError → ℕ → SyncJob → SyncJob
held_until error resume_at job = record job {
  status = SyncJobStatus.pending;
  run_after = resume_at;
  locked_by = none;
  locked_at = none;
  last_error = some (moodle_maintenance error);
}

unfoldable pub wait_out : SyncError → LockToken → ℕ → ℕ → SyncDb → SyncJob → SyncDb
unfolding held_until
wait_out error token resume_at now db job = record db {
  runs = set_run token.run_id (failed_run (plain (moodle_maintenance error)) now) db.runs;
  jobs = set_job job.id (held_until error resume_at) db.jobs;
}

-- `resume_at` is what `is_moodle_available` gives for the time of the failure.
unfoldable pub handle_moodle_failure :
    SyncSettings → Failure → Option ℕ → LockToken → ℕ → ℕ → SyncDb → SyncDb
unfolding record_failure wait_out
handle_moodle_failure s f none token i now db = record_failure s f token i now db
handle_moodle_failure s f (some resume_at) token i now db =
    on_owned token (get_job i db.jobs) (wait_out f.error token resume_at now db) db
