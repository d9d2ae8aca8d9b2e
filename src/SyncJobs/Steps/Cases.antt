-- ===== src/SyncJobs/Steps/Cases.antt =====
-- Each transaction on the sync jobs is a claim or quiet.
use tigerduck_backend.Prelude.{ℕ, ◌≡◌, ◌⊎◌, refl, arith, Bool, String, inl, inr}
use tigerduck_backend.SyncJobs.Job.{SyncDb, SyncSettings, get_account}
use tigerduck_backend.SyncJobs.Steps.{
  Step, recovers, claims, refreshes, checks, counts, succeeds, fails, provisions, asks,
  retries_failed, retries_all, stores, uploads, deletes, changes,
}
use tigerduck_backend.SyncJobs.Claim.{claim_due_job}
use tigerduck_backend.SyncJobs.Requests.{update_credentials}
use tigerduck_backend.SyncJobs.Steps.Quiet.{CalmAll-refl, Quiet, calm}
use tigerduck_backend.SyncJobs.Steps.Workers.{
  recover_stale_jobs-Quiet, keep_lock_fresh-Quiet, lock_owned_job-Quiet, finish_after_probe-Quiet,
  handle_moodle_failure-Quiet,
}
use tigerduck_backend.SyncJobs.Steps.Provisions.{ensure_sync_jobs-Quiet, run_now-Quiet}
use tigerduck_backend.SyncJobs.Steps.Requests.{
  retry_all_moodle-Quiet, retry_all_jobs-Quiet, store_found-Quiet, push_back_sync_jobs-Quiet,
  delete_account-Quiet,
}

-- A step is a claim, or quiet.
pub Step-cases :
    (s : SyncSettings) (db after : SyncDb)
    → Step s db after
    → Quiet db after
      ⊎ ((worker : String) × (other_locks : ℕ → Bool) × (now : ℕ) × (after
            ≡ (claim_due_job s worker other_locks now db).1))
unfolding update_credentials
Step-cases s db _ (recovers other_locks cutoff_at now) =
    inl (recover_stale_jobs-Quiet s other_locks cutoff_at now db)
Step-cases s db _ (claims worker other_locks now) = inr (worker, other_locks, now, refl)
Step-cases s db _ (refreshes token i now) = inl (keep_lock_fresh-Quiet token i now db)
Step-cases s db _ (checks token i now) = inl (lock_owned_job-Quiet token i now db)
Step-cases s db _ (counts token stats) = inl (calm (CalmAll-refl db.jobs) refl (omega arith))
Step-cases s db _ (succeeds token i now) = inl (finish_after_probe-Quiet token i now db)
Step-cases s db _ (fails f resume_at token i now) =
    inl (handle_moodle_failure-Quiet s f resume_at token i now db)
Step-cases s db _ (provisions now user_id account_id) =
    inl (ensure_sync_jobs-Quiet now user_id account_id db)
Step-cases s db _ (asks device user_id t now) = inl (run_now-Quiet s device user_id t now db)
Step-cases s db _ (retries_failed now) = inl (retry_all_moodle-Quiet now db)
Step-cases s db _ (retries_all now) = inl (retry_all_jobs-Quiet now db)
Step-cases s db _ (stores now nonce user_id account_id) =
    inl (store_found-Quiet now nonce user_id db (get_account account_id db.accounts))
Step-cases s db _ (uploads seconds now user_id t) =
    inl (push_back_sync_jobs-Quiet seconds now user_id t db)
Step-cases s db _ (deletes user_id) = inl (delete_account-Quiet user_id db)
Step-cases s db _ (changes o) = inl (calm (CalmAll-refl db.jobs) refl (omega arith))
