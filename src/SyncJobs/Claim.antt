-- ===== src/SyncJobs/Claim.antt =====
-- Stale recovery and the claim of server/syncjobs/executor.py, each one transaction.
use tigerduck_backend.Prelude.{
  ℕ, suc, ◌+◌, Bool, true, false, ◌&&◌, ◌||◌, not, Option, none, some, List, [], ◌∷◌, ◌++◌, map,
  filter, any, count_if, String, leb, ltb, ◌==◌, if◌then◌else◌,
}
use tigerduck_backend.Prelude.Sorting.{order_by}
use tigerduck_backend.SyncJobs.Job.{
  sync_failed, stale_lock_recovered, same_type, SyncJobStatus, SyncRunStatus, SyncPolicy, SyncJob,
  SyncRun, SyncDevice, PushToken, SyncDb, SyncSettings, is_running, is_waiting, is_open_run,
  set_job,
}

-- running, and locked before the cutoff
abbrev pub is_stale : SyncSettings → ℕ → SyncJob → Bool
is_stale s cutoff_at job =
    is_running job
    && elim job.locked_at [ none ↦ false | some at ↦ ltb (at + s.stale_lock) cutoff_at ]

unfoldable pub recover_job : ℕ → SyncJob → SyncJob
recover_job now job =
    let counted = record job {
      locked_by = none;
      locked_at = none;
      attempts = job.attempts + 1;
      last_failure_at = some now;
      last_error = some (sync_failed "stale_lock");
    } in
    if leb counted.max_attempts counted.attempts
    then record counted { status = SyncJobStatus.failed }
    else record counted { status = SyncJobStatus.pending }

abbrev pub recover_run : ℕ → SyncRun → SyncRun
recover_run now run =
    if is_open_run run
    then record run {
      status = SyncRunStatus.failed;
      error = some stale_lock_recovered;
      finished_at = some now;
    }
    else run

abbrev pub is_taken_back : SyncSettings → (ℕ → Bool) → ℕ → SyncJob → Bool
is_taken_back s other_locks cutoff_at job = is_stale s cutoff_at job && not (other_locks job.id)

-- `other_locks` holds for the rows that another transaction has locked, which the query skips.
unfoldable pub recover_stale_jobs : SyncSettings → (ℕ → Bool) → ℕ → ℕ → SyncDb → SyncDb
unfolding recover_job
recover_stale_jobs s other_locks cutoff_at now db = record db {
  jobs =
      map (λ j. if is_taken_back s other_locks cutoff_at j then recover_job now j else j) db.jobs;
  runs =
      map
        (λ r.
          if any (λ j. is_taken_back s other_locks cutoff_at j && j.id == r.sync_job_id) db.jobs
          then recover_run now r
          else r)
        db.runs;
}

-- SQL `t > cutoff`, the cutoff being `span` ago; a NULL is not.
abbrev pub since : ℕ → ℕ → Option ℕ → Bool
since span now none = false
since span now (some t) = ltb now (t + span)

abbrev pub pushed_lately : SyncSettings → ℕ → ℕ → PushToken → Bool
pushed_lately s now device_id t =
    t.device_id == device_id
    && (t.is_standard && (t.is_active && since s.device_push now t.last_success_at))

abbrev pub is_syncing : SyncSettings → ℕ → List PushToken → ℕ → SyncDevice → Bool
is_syncing s now tokens user_id d =
    d.user_id == user_id
    && (not d.is_deleted
        && (d.cloud_sync_enabled
            && (since s.device_active now d.last_seen_at || any (pushed_lately s now d.id) tokens)))

unfoldable pub has_syncing_device : SyncSettings → ℕ → SyncDb → SyncJob → Bool
has_syncing_device s now db job = any (is_syncing s now db.tokens job.user_id) db.devices

abbrev pub not_before : ℕ → Option ℕ → Bool
not_before now none = true
not_before now (some t) = leb t now

abbrev pub not_past : ℕ → Option ℕ → Bool
not_past now none = true
not_past now (some t) = ltb now t

abbrev pub is_policy_active : ℕ → SyncPolicy → Bool
is_policy_active now p = p.enabled && (not_before now p.active_from && not_past now p.active_until)

abbrev pub has_policy : ℕ → SyncDb → SyncJob → Bool
has_policy now db job =
    any (λ p. same_type p.job_type job.job_type && is_policy_active now p) db.policies

abbrev pub has_running : ℕ → List SyncJob → Bool
has_running user_id jobs = any (λ j. j.user_id == user_id && is_running j) jobs

-- The WHERE of the claim.
unfoldable pub claimable : SyncSettings → ℕ → SyncDb → SyncJob → Bool
unfolding has_syncing_device
claimable s now db job =
    is_waiting job
    && (leb job.run_after now
        && (has_syncing_device s now db job
            && (not (has_running job.user_id db.jobs) && has_policy now db job)))

-- ORDER BY priority, run_after LIMIT 1, over the rows that no other transaction has locked.
unfoldable pub next_due : SyncSettings → (ℕ → Bool) → ℕ → SyncDb → List SyncJob
unfolding claimable
next_due s other_locks now db =
    order_by (λ j. j.priority)
      (order_by (λ j. j.run_after)
        (filter (λ j. claimable s now db j && not (other_locks j.id)) db.jobs))

abbrev pub claimed : String → ℕ → ℕ → SyncJob → SyncJob
claimed worker run_id now job = record job {
  status = SyncJobStatus.running;
  locked_at = some now;
  locked_by = some (record { worker_id = worker; run_id = run_id });
}

abbrev pub open_run : ℕ → SyncJob → SyncRun
open_run i job = record {
  id = i;
  sync_job_id = job.id;
  user_id = job.user_id;
  finished_at = none;
  status = SyncRunStatus.running;
  fetched_count = none;
  changed_count = none;
  error = none;
}

-- The claim of the first of the due jobs: its id and its run, and the tables after it.
abbrev pub claim_first : String → ℕ → SyncDb → List SyncJob → Option (ℕ × ℕ) × SyncDb
claim_first worker now db [] = (none, db)
claim_first worker now db (job ∷ _) = (
  some (job.id, db.next_run),
  record db {
    jobs = set_job job.id (claimed worker db.next_run now) db.jobs;
    runs = db.runs ++ open_run db.next_run job ∷ [];
    next_run = suc db.next_run;
  },
)

abbrev pub count_running : SyncDb → ℕ
count_running db = count_if is_running db.jobs

unfoldable pub claim_due_job :
    SyncSettings → String → (ℕ → Bool) → ℕ → SyncDb → Option (ℕ × ℕ) × SyncDb
unfolding next_due
claim_due_job s worker other_locks now db =
    if leb s.global_concurrency (count_running db)
    then (none, db)
    else claim_first worker now db (next_due s other_locks now db)
