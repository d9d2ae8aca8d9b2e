-- ===== src/SyncJobs/Provision.antt =====
-- `ensure_sync_jobs` of server/syncjobs/provisioning.py, and `run_now` of server/routes/sync_jobs.py.
-- The accounts are those of the one provider that the routes look for.
use tigerduck_backend.Prelude.{
  ℕ, suc, ◌+◌, ◌-◌, max, Bool, true, false, ◌&&◌, not, Option, none, some, List, [], ◌∷◌, ◌++◌, map,
  find?, leb, ltb, ◌==◌, if◌then◌else◌, is_some,
}
use tigerduck_backend.SyncJobs.Job.{
  SyncJobType, same_type, SyncJobStatus, SyncPolicy, SyncJob, CredentialStatus, ExternalAccount,
  SyncDb, SyncSettings, policy_of, set_job,
}
use tigerduck_backend.SyncJobs.Claim.{is_policy_active}
use tigerduck_backend.SyncJobs.Runs.{priority_of}

abbrev pub handled_job_types : List SyncJobType
handled_job_types = SyncJobType.moodle_assignments ∷ SyncJobType.ntust_courses ∷ []

abbrev pub attempts_of : Option SyncPolicy → ℕ
attempts_of none = 3
attempts_of (some p) = p.max_attempts

abbrev pub is_job_of : ℕ → SyncJobType → SyncJob → Bool
is_job_of user_id t job = job.user_id == user_id && same_type job.job_type t

abbrev pub job_of : ℕ → SyncJobType → List SyncJob → Option SyncJob
job_of user_id t jobs = find? (is_job_of user_id t) jobs

abbrev pub new_job : ℕ → ℕ → ℕ → ℕ → SyncJobType → Option SyncPolicy → SyncJob
new_job i now user_id account_id t policy = record {
  id = i;
  user_id = user_id;
  external_account_id = account_id;
  job_type = t;
  priority = priority_of policy;
  status = SyncJobStatus.pending;
  run_after = now;
  locked_by = none;
  locked_at = none;
  attempts = 0;
  max_attempts = attempts_of policy;
  last_success_at = none;
  last_failure_at = none;
  last_error = none;
  manual_requested_at = none;
}

abbrev pub is_disabled : SyncJob → Bool
is_disabled job = elim job.status [ SyncJobStatus.disabled ↦ true | _ ↦ false ]

-- ON CONFLICT DO UPDATE, of a disabled job only.
abbrev pub revive : ℕ → ℕ → SyncJob → SyncJob
revive now account_id job = record job {
  status = SyncJobStatus.pending;
  attempts = 0;
  run_after = now;
  locked_by = none;
  locked_at = none;
  last_error = none;
  external_account_id = account_id;
}

abbrev pub revived : ℕ → ℕ → SyncJob → SyncJob
revived now account_id job = if is_disabled job then revive now account_id job else job

-- One row of the INSERT. Its id is spent in either case.
unfoldable pub upsert_job : ℕ → ℕ → ℕ → SyncJobType → SyncDb → SyncDb
upsert_job now user_id account_id t db = record db {
  jobs =
      if is_some (job_of user_id t db.jobs)
      then map (λ j. if is_job_of user_id t j then revived now account_id j else j) db.jobs
      else db.jobs ++ new_job db.next_job now user_id account_id t (policy_of t db.policies) ∷ [];
  next_job = suc db.next_job;
}

unfoldable pub upsert_all : ℕ → ℕ → ℕ → List SyncJobType → SyncDb → SyncDb
unfolding upsert_job
upsert_all now user_id account_id [] db = db
upsert_all now user_id account_id (t ∷ ts) db =
    upsert_all now user_id account_id ts (upsert_job now user_id account_id t db)

unfoldable pub ensure_sync_jobs : ℕ → ℕ → ℕ → SyncDb → SyncDb
unfolding upsert_all
ensure_sync_jobs now user_id account_id db = upsert_all now user_id account_id handled_job_types db

-- What the route answers: an error, or the job's status with whether it was queued.
pub data RunNow : Type 0 where
  policy_disabled : RunNow
  sync_not_provisioned : RunNow
  credential_invalid : RunNow
  cooldown : ℕ → RunNow
  status_of : SyncJob → Bool → RunNow

abbrev pub is_credential_active : ExternalAccount → Bool
is_credential_active a = elim a.credential_status [ CredentialStatus.active ↦ true | _ ↦ false ]

abbrev pub touch_device : Option ℕ → ℕ → ℕ → SyncDb → SyncDb
touch_device none user_id now db = db
touch_device (some device_id) user_id now db = record db {
  devices =
      map
        (λ d.
          if d.id == device_id && d.user_id == user_id
          then record d { last_seen_at = some now }
          else d)
        db.devices;
}

-- The seconds left of the cooldown, where it runs.
abbrev pub cooling : SyncSettings → ℕ → Option ℕ → Option ℕ
cooling s now none = none
cooling s now (some requested_at) =
    if ltb now (requested_at + s.manual_cooldown)
    then some (max (requested_at + s.manual_cooldown - now) 1)
    else none

abbrev pub queued : ℕ → SyncJob → SyncJob
queued now job = record job {
  attempts = elim job.status [ SyncJobStatus.failed ↦ 0 | _ ↦ job.attempts ];
  status = SyncJobStatus.pending;
  priority = 1;
  run_after = now;
  manual_requested_at = some now;
}

-- A job that is neither running nor disabled.
abbrev pub after_cooling : ℕ → SyncDb → SyncDb → SyncJob → Option ℕ → RunNow × SyncDb
after_cooling now before db job (some left) = (cooldown left, before)
after_cooling now before db job none =
    (status_of (queued now job) true, record db { jobs = set_job job.id (queued now) db.jobs })

abbrev pub queue_job : SyncSettings → ℕ → SyncDb → SyncDb → SyncJob → RunNow × SyncDb
queue_job s now before db job =
    after_cooling now before db job (cooling s now job.manual_requested_at)

-- `before` is what an error rolls back to.
abbrev pub ask_status :
    SyncSettings → ℕ → SyncDb → SyncDb → SyncJob → SyncJobStatus → RunNow × SyncDb
ask_status s now before db job SyncJobStatus.disabled = (RunNow.credential_invalid, before)
ask_status s now before db job SyncJobStatus.running = (status_of job false, db)
ask_status s now before db job SyncJobStatus.pending =
    if leb job.priority 1 && leb job.run_after now
    then (status_of job false, db)
    else queue_job s now before db job
ask_status s now before db job SyncJobStatus.failed = queue_job s now before db job

unfoldable pub ask_job : SyncSettings → ℕ → SyncDb → SyncDb → SyncJob → RunNow × SyncDb
ask_job s now before db job = ask_status s now before db job job.status

unfoldable pub ask_found :
    SyncSettings → Option ℕ → ℕ → ℕ → SyncDb → Option SyncJob → RunNow × SyncDb
unfolding ask_job
ask_found s device user_id now db none = (sync_not_provisioned, db)
ask_found s device user_id now db (some job) =
    ask_job s now db (touch_device device user_id now db) job

unfoldable pub provision :
    SyncSettings
    → Option ℕ
    → ℕ
    → SyncJobType
    → ℕ
    → SyncDb
    → Option ExternalAccount
    → RunNow × SyncDb
unfolding ensure_sync_jobs
provision s device user_id t now db none = (sync_not_provisioned, db)
provision s device user_id t now db (some a) =
    if is_credential_active a
    then ask_found s device user_id now (ensure_sync_jobs now user_id a.id db)
        (job_of user_id t (ensure_sync_jobs now user_id a.id db).jobs)
    else (RunNow.credential_invalid, db)

abbrev pub is_active_opt : ℕ → Option SyncPolicy → Bool
is_active_opt now none = false
is_active_opt now (some p) = is_policy_active now p

unfoldable pub run_with_job :
    SyncSettings → Option ℕ → ℕ → SyncJobType → ℕ → SyncDb → Option SyncJob → RunNow × SyncDb
unfolding provision ask_found
run_with_job s device user_id t now db none =
    provision s device user_id t now db (find? (λ a. a.user_id == user_id) db.accounts)
run_with_job s device user_id t now db (some job) = ask_found s device user_id now db (some job)

unfoldable pub run_now : SyncSettings → Option ℕ → ℕ → SyncJobType → ℕ → SyncDb → RunNow × SyncDb
unfolding run_with_job
run_now s device user_id t now db =
    if not (is_active_opt now (policy_of t db.policies))
    then (policy_disabled, db)
    else run_with_job s device user_id t now db (job_of user_id t db.jobs)
