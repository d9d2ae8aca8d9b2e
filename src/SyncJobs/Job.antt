-- ===== src/SyncJobs/Job.antt =====
-- The tables of server/syncjobs/models.py, and those of server/auth/models that its queries read. A
-- time counts a fixed unit since an epoch; an id, a UUID or a nonce is a number.
use tigerduck_backend.Prelude.{
  ℕ, Bool, true, false, Option, List, map, find?, String, ◌==◌, if◌then◌else◌,
}

pub data SyncJobType : Type 0 where
  ntust_courses moodle_assignments calendar grades : SyncJobType

abbrev pub same_type : SyncJobType → SyncJobType → Bool
same_type SyncJobType.ntust_courses SyncJobType.ntust_courses = true
same_type SyncJobType.moodle_assignments SyncJobType.moodle_assignments = true
same_type SyncJobType.calendar SyncJobType.calendar = true
same_type SyncJobType.grades SyncJobType.grades = true
same_type _ _ = false

pub data SyncJobStatus : Type 0 where
  pending running failed disabled : SyncJobStatus

pub data SyncRunStatus : Type 0 where
  running succeeded failed cancelled : SyncRunStatus

pub record SyncPolicy : Type 0 where
  pub job_type : SyncJobType
  pub enabled : Bool
  pub default_interval : ℕ
  pub active_from : Option ℕ
  pub active_until : Option ℕ
  pub priority : ℕ
  pub max_attempts : ℕ

-- What `last_error` says: a code, or `sync_failed:` and a detail, or `moodle_maintenance:` and one of
-- these.
pub data SyncError : Type 0 where
  credential_invalid : SyncError
  school_rate_limited : SyncError
  sync_failed : String → SyncError
  moodle_maintenance : SyncError → SyncError

-- What a run's `error` says: an error, with a detail after it or not, or a note.
pub data RunError : Type 0 where
  plain : SyncError → RunError
  detailed : SyncError → String → RunError
  stale_lock_recovered : RunError
  reclaimed_before_execution : RunError

-- `f"{worker_id}#{run_id}"`: the digits after the last `#` are the run, so the pair says as much.
pub record LockToken : Type 0 where
  pub worker_id : String
  pub run_id : ℕ

pub record SyncJob : Type 0 where
  pub id : ℕ
  pub user_id : ℕ
  pub external_account_id : ℕ
  pub job_type : SyncJobType
  pub priority : ℕ
  pub status : SyncJobStatus
  pub run_after : ℕ
  pub locked_by : Option LockToken
  pub locked_at : Option ℕ
  pub attempts : ℕ
  pub max_attempts : ℕ
  pub last_success_at : Option ℕ
  pub last_failure_at : Option ℕ
  pub last_error : Option SyncError
  pub manual_requested_at : Option ℕ

pub record SyncRun : Type 0 where
  pub id : ℕ
  pub sync_job_id : ℕ
  pub user_id : ℕ
  pub finished_at : Option ℕ
  pub status : SyncRunStatus
  pub fetched_count : Option ℕ
  pub changed_count : Option ℕ
  pub error : Option RunError

pub data CredentialStatus : Type 0 where
  active expired invalid revoked : CredentialStatus

pub record ExternalAccount : Type 0 where
  pub id : ℕ
  pub user_id : ℕ
  pub credential_status : CredentialStatus
  pub last_auth_success_at : Option ℕ
  pub last_auth_failure_at : Option ℕ
  pub last_auth_error : Option SyncError
  -- the nonce of the stored credential, `none` where it has no row
  pub credential_nonce : Option ℕ

pub record SyncDevice : Type 0 where
  pub id : ℕ
  pub user_id : ℕ
  pub is_deleted : Bool
  pub platform : String
  pub cloud_sync_enabled : Bool
  pub last_seen_at : Option ℕ

pub record PushToken : Type 0 where
  pub device_id : ℕ
  pub is_standard : Bool
  pub is_active : Bool
  pub last_success_at : Option ℕ

-- A queued prompt to sign in again: the account, and when its credential was stored.
pub record Prompt : Type 0 where
  pub account_id : ℕ
  pub stored : Option ℕ

-- `prompts` are those whose job still holds its dedupe key.
pub record SyncDb : Type 0 where
  pub jobs : List SyncJob
  pub next_job : ℕ
  pub runs : List SyncRun
  pub next_run : ℕ
  pub policies : List SyncPolicy
  pub accounts : List ExternalAccount
  pub devices : List SyncDevice
  pub tokens : List PushToken
  pub prompts : List Prompt

pub record SyncSettings : Type 0 where
  pub stale_lock : ℕ
  pub global_concurrency : ℕ
  pub device_active : ℕ
  pub device_push : ℕ
  pub backoff_base : ℕ
  pub backoff_cap : ℕ
  pub manual_cooldown : ℕ

abbrev pub is_running : SyncJob → Bool
is_running job = elim job.status [ SyncJobStatus.running ↦ true | _ ↦ false ]

abbrev pub is_waiting : SyncJob → Bool
is_waiting job = elim job.status [ SyncJobStatus.pending ↦ true | _ ↦ false ]

abbrev pub is_open_run : SyncRun → Bool
is_open_run run = elim run.status [ SyncRunStatus.running ↦ true | _ ↦ false ]

abbrev pub get_job : ℕ → List SyncJob → Option SyncJob
get_job i jobs = find? (λ j. j.id == i) jobs

abbrev pub get_run : ℕ → List SyncRun → Option SyncRun
get_run i runs = find? (λ r. r.id == i) runs

abbrev pub get_account : ℕ → List ExternalAccount → Option ExternalAccount
get_account i accounts = find? (λ a. a.id == i) accounts

abbrev pub policy_of : SyncJobType → List SyncPolicy → Option SyncPolicy
policy_of t policies = find? (λ p. same_type p.job_type t) policies

abbrev pub set_job : ℕ → (SyncJob → SyncJob) → List SyncJob → List SyncJob
set_job i f jobs = map (λ j. if j.id == i then f j else j) jobs

abbrev pub set_run : ℕ → (SyncRun → SyncRun) → List SyncRun → List SyncRun
set_run i f runs = map (λ r. if r.id == i then f r else r) runs
