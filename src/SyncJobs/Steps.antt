-- ===== src/SyncJobs/Steps.antt =====
-- The transactions on the sync jobs' tables, of whichever worker, request or operator, in any order. The
-- prompts that an operator's retry queues beside its update are a `changes` step after it.
pub mod Quiet
pub mod Workers
pub mod Provisions
pub mod Requests
pub mod Cases
pub mod Sound
pub mod Claims
pub mod Lost
use tigerduck_backend.Prelude.{ℕ, Bool, Option, none, some, List, String}
use tigerduck_backend.SyncJobs.Job.{
  SyncJobType, LockToken, SyncPolicy, ExternalAccount, SyncDevice, PushToken, Prompt, SyncDb,
  SyncSettings,
}
use tigerduck_backend.SyncJobs.Claim.{recover_stale_jobs, claim_due_job}
use tigerduck_backend.SyncJobs.Runs.{
  Failure, lock_owned_job, finish_after_probe, keep_lock_fresh, handle_moodle_failure,
}
use tigerduck_backend.SyncJobs.Execute.{Stats, count_run}
use tigerduck_backend.SyncJobs.Provision.{ensure_sync_jobs, run_now}
use tigerduck_backend.SyncJobs.Requests.{
  retry_all_moodle, retry_all_jobs, update_credentials, push_back_sync_jobs, delete_account,
}

-- What others change of the tables that no job stands in.
pub record Surroundings : Type 0 where
  pub policies : List SyncPolicy
  pub accounts : List ExternalAccount
  pub devices : List SyncDevice
  pub tokens : List PushToken
  pub prompts : List Prompt

abbrev pub surround : Surroundings → SyncDb → SyncDb
surround o db = record db {
  policies = o.policies;
  accounts = o.accounts;
  devices = o.devices;
  tokens = o.tokens;
  prompts = o.prompts;
}

pub data Step (s : SyncSettings) (db : SyncDb) : SyncDb → Type 0 where
  recovers :
      (other_locks : ℕ → Bool) (cutoff_at now : ℕ)
      → Step s db (recover_stale_jobs s other_locks cutoff_at now db)
  claims :
      (worker : String) (other_locks : ℕ → Bool) (now : ℕ)
      → Step s db (claim_due_job s worker other_locks now db).1
  refreshes : (token : LockToken) (i now : ℕ) → Step s db (keep_lock_fresh token i now db)
  checks : (token : LockToken) (i now : ℕ) → Step s db (lock_owned_job token i now db).1
  counts : (token : LockToken) (stats : Stats) → Step s db (count_run token stats db)
  succeeds : (token : LockToken) (i now : ℕ) → Step s db (finish_after_probe token i now db)
  fails :
      (f : Failure) (resume_at : Option ℕ) (token : LockToken) (i now : ℕ)
      → Step s db (handle_moodle_failure s f resume_at token i now db)
  provisions : (now user_id account_id : ℕ) → Step s db (ensure_sync_jobs now user_id account_id db)
  asks :
      (device : Option ℕ) (user_id : ℕ) (t : SyncJobType) (now : ℕ)
      → Step s db (run_now s device user_id t now db).1
  retries_failed : (now : ℕ) → Step s db (retry_all_moodle now db)
  retries_all : (now : ℕ) → Step s db (retry_all_jobs now db)
  stores :
      (now nonce user_id account_id : ℕ)
      → Step s db (update_credentials now nonce user_id account_id db)
  uploads :
      (seconds now user_id : ℕ) (t : SyncJobType)
      → Step s db (push_back_sync_jobs seconds now user_id t db)
  deletes : (user_id : ℕ) → Step s db (delete_account user_id db)
  changes : (o : Surroundings) → Step s db (surround o db)

pub data Reaches (s : SyncSettings) (db : SyncDb) : SyncDb → Type 0 where
  stays : Reaches s db db
  steps : {mid after : SyncDb} → Reaches s db mid → Step s mid after → Reaches s db after
