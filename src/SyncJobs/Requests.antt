-- ===== src/SyncJobs/Requests.antt =====
-- The writes of sync jobs by the portal (portal/app/routes/moodle/jobs.py, portal/app/routes/deregister.py)
-- and by the app's requests that store a credential (server/routes/auth.py) or upload what a run would
-- fetch (server/routes/sync/_shared.py).
pub mod PushBack
use tigerduck_backend.Prelude.{
  ℕ, ◌+◌, max, Bool, true, false, ◌&&◌, ◌||◌, not, Option, none, some, map, filter, any, ltb, ◌==◌,
  if◌then◌else◌, is_some,
}
use tigerduck_backend.SyncJobs.Job.{
  SyncJobType, same_type, SyncJobStatus, SyncPolicy, SyncJob, SyncRun, CredentialStatus,
  ExternalAccount, SyncDevice, PushToken, Prompt, SyncDb, is_waiting, get_account, policy_of,
}
use tigerduck_backend.SyncJobs.Provision.{is_disabled}

-- What both retries and a restored credential set.
abbrev pub retried : ℕ → SyncJob → SyncJob
retried now job = record job {
  status = SyncJobStatus.pending;
  run_after = now;
  attempts = 0;
  locked_by = none;
  locked_at = none;
  last_error = none;
}

-- job_type IN ('moodle_assignments', 'ntust_courses')
abbrev pub is_moodle_type : SyncJobType → Bool
is_moodle_type t =
    same_type t SyncJobType.moodle_assignments || same_type t SyncJobType.ntust_courses

abbrev pub has_stopped : SyncJob → Bool
has_stopped job = elim job.status [
  | SyncJobStatus.disabled ↦ true
  | SyncJobStatus.failed ↦ true
  | _ ↦ false
]

unfoldable pub retry_all_moodle : ℕ → SyncDb → SyncDb
retry_all_moodle now db = record db {
  jobs =
      map
        (λ j.
          if is_moodle_type j.job_type && (has_stopped j || is_waiting j && is_some j.last_error)
          then retried now j
          else j)
        db.jobs;
}

unfoldable pub retry_all_jobs : ℕ → SyncDb → SyncDb
retry_all_jobs now db = record db {
  jobs =
      map
        (λ j.
          if is_moodle_type j.job_type && (is_waiting j || has_stopped j) then retried now j else j)
        db.jobs;
}

abbrev pub is_active_status : CredentialStatus → Bool
is_active_status CredentialStatus.active = true
is_active_status _ = false

abbrev pub with_credential : ℕ → ℕ → ExternalAccount → ExternalAccount
with_credential now nonce account = record account {
  credential_status = CredentialStatus.active;
  last_auth_success_at = some now;
  last_auth_error = none;
  credential_nonce = some nonce;
}

abbrev pub is_signed_in : ℕ → SyncDevice → Bool
is_signed_in user_id d = d.user_id == user_id && not d.is_deleted

abbrev pub store_found : ℕ → ℕ → ℕ → SyncDb → Option ExternalAccount → SyncDb
store_found now nonce user_id db none = db
store_found now nonce user_id db (some account) =
    if any (is_signed_in user_id) db.devices
    then record db {
      accounts =
          map (λ a. if a.id == account.id then with_credential now nonce a else a) db.accounts;
      jobs =
          if is_active_status account.credential_status
          then db.jobs
          else map (λ j. if j.user_id == user_id && is_disabled j then retried now j else j)
              db.jobs;
    }
    else db

-- The request after Moodle took the token: the account is read again, and `nonce` is that of the new
-- ciphertext.
unfoldable pub update_credentials : ℕ → ℕ → ℕ → ℕ → SyncDb → SyncDb
update_credentials now nonce user_id account_id db =
    store_found now nonce user_id db (get_account account_id db.accounts)

-- SyncJob.last_success_at + interval > now, which no row without a success or a policy meets
abbrev pub is_fresh : ℕ → Option SyncPolicy → Option ℕ → Bool
is_fresh now none last = false
is_fresh now (some p) none = false
is_fresh now (some p) (some last) = ltb now (last + p.default_interval)

unfoldable pub push_back_sync_jobs : ℕ → ℕ → ℕ → SyncJobType → SyncDb → SyncDb
push_back_sync_jobs seconds now user_id t db = record db {
  jobs =
      map
        (λ j.
          if j.user_id == user_id
            && (same_type j.job_type t
                && (is_waiting j
                    && is_fresh now (policy_of j.job_type db.policies) j.last_success_at))
          then record j { run_after = max j.run_after (now + seconds) }
          else j)
        db.jobs;
}

abbrev pub is_users_account : ℕ → SyncDb → ℕ → Bool
is_users_account user_id db account_id =
    any (λ (a : ExternalAccount). a.id == account_id && a.user_id == user_id) db.accounts

-- The job's row goes with its user or with its account.
abbrev pub is_users_job : ℕ → SyncDb → SyncJob → Bool
is_users_job user_id db j =
    j.user_id == user_id || is_users_account user_id db j.external_account_id

abbrev pub is_users_run : ℕ → SyncDb → SyncRun → Bool
is_users_run user_id db r =
    r.user_id == user_id
    || any (λ (j : SyncJob). j.id == r.sync_job_id && is_users_job user_id db j) db.jobs

abbrev pub is_users_token : ℕ → SyncDb → PushToken → Bool
is_users_token user_id db t =
    any (λ (d : SyncDevice). d.id == t.device_id && d.user_id == user_id) db.devices

-- The user's row and, by ON DELETE CASCADE, the rows that refer to it.
unfoldable pub delete_account : ℕ → SyncDb → SyncDb
delete_account user_id db = record db {
  jobs = filter (λ j. not (is_users_job user_id db j)) db.jobs;
  runs = filter (λ r. not (is_users_run user_id db r)) db.runs;
  accounts = filter (λ (a : ExternalAccount). not (a.user_id == user_id)) db.accounts;
  devices = filter (λ (d : SyncDevice). not (d.user_id == user_id)) db.devices;
  tokens = filter (λ t. not (is_users_token user_id db t)) db.tokens;
  prompts = filter (λ (p : Prompt). not (is_users_account user_id db p.account_id)) db.prompts;
}
