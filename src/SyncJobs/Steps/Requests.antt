-- ===== src/SyncJobs/Steps/Requests.antt =====
-- The writes of operators and of the app's other requests are quiet (portal/app/routes/moodle/jobs.py,
-- portal/app/routes/deregister.py, server/routes/auth.py, server/routes/sync/_shared.py).
use tigerduck_backend.Prelude.{
  ℕ, ◌+◌, refl, arith, ◌&&◌, ◌||◌, Option, none, some, ◌==◌, is_some, Bool-cases, inl, inr, max,
  any, not,
}
use tigerduck_backend.SyncJobs.Job.{SyncJobType, SyncJob, ExternalAccount, SyncDb, is_waiting}
use tigerduck_backend.SyncJobs.Provision.{is_disabled}
use tigerduck_backend.SyncJobs.Requests.{
  retried, is_moodle_type, has_stopped, retry_all_moodle, retry_all_jobs, is_active_status,
  is_signed_in, store_found, push_back_sync_jobs, is_users_job, delete_account,
}
use tigerduck_backend.SyncJobs.Steps.Quiet.{
  Calm, Calm-refl, CalmAll-map, CalmAll-refl, Calm-if, Quiet, calm, removes, Quiet-refl,
}

retried-Calm : (now : ℕ) (j : SyncJob) → Calm j (retried now j)
retried-Calm now j = record { same_id = refl; same_user = refl; keeps = inl refl }

pub retry_all_moodle-Quiet : (now : ℕ) (db : SyncDb) → Quiet db (retry_all_moodle now db)
unfolding retry_all_moodle
retry_all_moodle-Quiet now db =
    calm
      (CalmAll-map _
        (λ j.
          Calm-if
            (is_moodle_type j.job_type && (has_stopped j || is_waiting j && is_some j.last_error)) j
            (retried now j) (retried-Calm now j))
        db.jobs)
      refl (omega arith)

pub retry_all_jobs-Quiet : (now : ℕ) (db : SyncDb) → Quiet db (retry_all_jobs now db)
unfolding retry_all_jobs
retry_all_jobs-Quiet now db =
    calm
      (CalmAll-map _
        (λ j.
          Calm-if (is_moodle_type j.job_type && (is_waiting j || has_stopped j)) j (retried now j)
            (retried-Calm now j))
        db.jobs)
      refl (omega arith)

pub store_found-Quiet :
    (now nonce user_id : ℕ) (db : SyncDb) (o : Option ExternalAccount)
    → Quiet db (store_found now nonce user_id db o)
store_found-Quiet now nonce user_id db none = Quiet-refl db
store_found-Quiet now nonce user_id db (some a) =
    elim (Bool-cases (any (is_signed_in user_id) db.devices)) [
      | inl there ↦ rw there (elim (Bool-cases (is_active_status a.credential_status)) [
        | inl valid ↦ rw valid (calm (CalmAll-refl db.jobs) refl (omega arith))
        | inr was_invalid ↦ rw was_invalid (
            calm
              (CalmAll-map _
                (λ j.
                  Calm-if (j.user_id == user_id && is_disabled j) j (retried now j)
                    (retried-Calm now j))
                db.jobs)
              refl (omega arith))
      ])
      | inr gone ↦ rw gone (Quiet-refl db)
    ]

pub push_back_sync_jobs-Quiet :
    (seconds now user_id : ℕ) (t : SyncJobType) (db : SyncDb)
    → Quiet db (push_back_sync_jobs seconds now user_id t db)
unfolding push_back_sync_jobs
push_back_sync_jobs-Quiet seconds now user_id t db =
    calm
      (CalmAll-map _
        (λ j.
          Calm-if _ j (record j { run_after = max j.run_after (now + seconds) })
            (record { same_id = refl; same_user = refl; keeps = (Calm-refl j).keeps }))
        db.jobs)
      refl (omega arith)

pub delete_account-Quiet : (user_id : ℕ) (db : SyncDb) → Quiet db (delete_account user_id db)
unfolding delete_account
delete_account-Quiet user_id db = removes (λ j. not (is_users_job user_id db j)) refl refl refl
