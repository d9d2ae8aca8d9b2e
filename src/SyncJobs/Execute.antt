-- ===== src/SyncJobs/Execute.antt =====
-- `_execute_job` of server/syncjobs/executor.py: its transactions in order, what may happen between
-- them, and the handler of each kind of exception. The rows that a result is stored in, the log and
-- the triggers of other devices are not part of the tables here.
use tigerduck_backend.Prelude.{
  ℕ, Bool, true, false, ◌&&◌, ◌||◌, not, Option, none, some, String, if◌then◌else◌,
}
use tigerduck_backend.SyncJobs.Job.{
  SyncJobType, same_type, credential_invalid, school_rate_limited, sync_failed, plain, detailed,
  LockToken, SyncJob, SyncRun, SyncDb, SyncSettings, set_run,
}
use tigerduck_backend.SyncJobs.Runs.{
  Failure, lock_owned_job, mark_succeeded, finish_after_probe, record_failure,
  handle_moodle_failure,
}

-- The exceptions, each with what its handler writes of it: the reason, the first 120 characters of
-- the message, or the name of the type.
pub data Raise : Type 0 where
  credential_rejected : String → Raise
  rate_limited : Raise
  unreachable : String → Raise
  submission_status : Raise
  unexpected : String → Raise

pub record Stats : Type 0 where
  pub fetched_count : ℕ
  pub changed_count : ℕ

-- The answers to the first fetches: a result, with the course list's failure where the job goes on
-- without it; every course lost, with the rows that costs; or a failure.
pub data Fetch : Type 0 where
  answered : Stats → Option Raise → Fetch
  no_course_access : Stats → String → Fetch
  fetch_fails : Raise → Fetch

-- What a run meets. `while_fetching` and `while_probing` are what other transactions do meanwhile.
pub record Answers : Type 0 where
  pub start_fails : Option Raise
  pub credential_nonce : Option ℕ
  pub while_fetching : SyncDb → SyncDb
  pub fetch : Fetch
  pub store_fails : Option Raise
  pub while_probing : SyncDb → SyncDb
  pub probe_fails : Option Raise
  -- when Moodle is back, where `is_moodle_available` says that it is not there
  pub resume_at : Option ℕ
  pub start_time : ℕ
  pub now : ℕ
  pub store_time : ℕ
  pub end_time : ℕ

-- The tables, and whether the worker's budget is paused.
pub record Executed : Type 0 where
  pub db : SyncDb
  pub pauses : Bool

abbrev pub failure_of : Option ℕ → Raise → Failure
failure_of stored (credential_rejected reason) = record {
  error = credential_invalid;
  run_error = detailed credential_invalid reason;
  disable = true;
  keep_retrying = false;
  credential_nonce = stored;
}
failure_of stored rate_limited = record {
  error = school_rate_limited;
  run_error = plain school_rate_limited;
  disable = false;
  keep_retrying = true;
  credential_nonce = none;
}
failure_of stored (unreachable detail) = record {
  error = sync_failed detail;
  run_error = plain (sync_failed detail);
  disable = false;
  keep_retrying = true;
  credential_nonce = none;
}
failure_of stored submission_status = record {
  error = sync_failed "submission_status";
  run_error = plain (sync_failed "submission_status");
  disable = false;
  keep_retrying = false;
  credential_nonce = none;
}
failure_of stored (unexpected name) = record {
  error = sync_failed name;
  run_error = plain (sync_failed name);
  disable = false;
  keep_retrying = false;
  credential_nonce = none;
}

-- Whether the handler asks for the availability windows first.
abbrev pub asks_window : Raise → Bool
asks_window (credential_rejected _) = true
asks_window (unreachable _) = true
asks_window _ = false

abbrev pub is_rate_limited : Raise → Bool
is_rate_limited rate_limited = true
is_rate_limited _ = false

-- The `except` clauses.
unfoldable pub handle :
    SyncSettings → Option ℕ → Option ℕ → LockToken → ℕ → ℕ → SyncDb → Raise → SyncDb
handle s stored resume_at token i now db r =
    if asks_window r
    then handle_moodle_failure s (failure_of stored r) resume_at token i now db
    else record_failure s (failure_of stored r) token i now db

abbrev pub raised : SyncSettings → Answers → LockToken → ℕ → SyncDb → Option ℕ → Raise → Executed
raised s a token i db stored r = record {
  db = handle s stored a.resume_at token i a.end_time db r;
  pauses = is_rate_limited r;
}

-- The course list of an assignments job met the school's 429: the pause comes before the store.
abbrev pub early_pause : SyncJob → Fetch → Bool
early_pause job (answered _ (some r)) =
    not (same_type job.job_type SyncJobType.ntust_courses) && is_rate_limited r
early_pause job _ = false

abbrev pub also_pauses : Bool → Executed → Executed
also_pauses b e = record { db = e.db; pauses = b || e.pauses }

abbrev pub done : SyncDb → Executed
done db = record { db = db; pauses = false }

abbrev pub with_counts : Stats → SyncRun → SyncRun
with_counts stats run = record run {
  fetched_count = some stats.fetched_count;
  changed_count = some stats.changed_count;
}

abbrev pub count_run : LockToken → Stats → SyncDb → SyncDb
count_run token stats db = record db { runs = set_run token.run_id (with_counts stats) db.runs }

-- The probe is over: success, or the course list's failure, raised last.
unfoldable pub after_probe :
    SyncSettings → Answers → LockToken → ℕ → Option Raise → SyncDb → Executed
after_probe s a token i (some r) db = raised s a token i db a.credential_nonce r
after_probe s a token i none db = done (finish_after_probe token i a.now db)

unfoldable pub probe : SyncSettings → Answers → LockToken → ℕ → Option Raise → SyncDb → Executed
unfolding after_probe
probe s a token i course_error db =
    let probed = a.while_probing db in
    elim a.probe_fails [
      | some r ↦ raised s a token i probed a.credential_nonce r
      | none ↦ after_probe s a token i course_error probed
    ]

-- An assignments job goes on to the probe, but not after the school's 429.
abbrev pub after_store :
    SyncSettings → Answers → LockToken → Option Raise → SyncDb → SyncJob → Executed
after_store s a token course_error db job =
    if same_type job.job_type SyncJobType.ntust_courses
    then done (mark_succeeded token a.now job db)
    else elim course_error [
      | none ↦ probe s a token job.id none db
      | some r ↦
          if is_rate_limited r
          then raised s a token job.id db a.credential_nonce r
          else probe s a token job.id (some r) db
    ]

-- The transaction that stores: what it wrote is rolled back where it raises.
abbrev pub store :
    SyncSettings
    → Answers
    → LockToken
    → ℕ
    → Stats
    → Option Raise
    → Option SyncJob × SyncDb
    → Executed
store s a token i stats course_error (none, db) = done db
store s a token i stats course_error (some job, db) = elim a.store_fails [
  | some r ↦ raised s a token i db a.credential_nonce r
  | none ↦ after_store s a token course_error (count_run token stats db) job
]

abbrev pub drop_courses :
    SyncSettings → Answers → LockToken → ℕ → Stats → String → Option SyncJob × SyncDb → Executed
drop_courses s a token i stats detail (none, db) = done db
drop_courses s a token i stats detail (some job, db) =
    raised s a token i (count_run token stats db) a.credential_nonce (unreachable detail)

unfoldable pub after_fetch : SyncSettings → Answers → LockToken → ℕ → SyncDb → Fetch → Executed
after_fetch s a token i db (fetch_fails r) = raised s a token i db a.credential_nonce r
after_fetch s a token i db (no_course_access stats detail) =
    drop_courses s a token i stats detail (lock_owned_job token i a.store_time db)
after_fetch s a token i db (answered stats course_error) =
    store s a token i stats course_error (lock_owned_job token i a.store_time db)

-- The token is read: without the credential's nonce where that fails.
unfoldable pub after_start :
    SyncSettings → Answers → LockToken → ℕ → Option SyncJob × SyncDb → Executed
unfolding after_fetch
after_start s a token i (none, db) = done db
after_start s a token i (some job, db) = elim a.start_fails [
  | some r ↦ raised s a token i db none r
  | none ↦
      also_pauses (early_pause job a.fetch) (after_fetch s a token i (a.while_fetching db) a.fetch)
]

unfoldable pub execute_job : SyncSettings → Answers → LockToken → ℕ → SyncDb → Executed
unfolding after_start
execute_job s a token i db = after_start s a token i (lock_owned_job token i a.start_time db)
