-- ===== src/SyncJobs/Steps/Provisions.antt =====
-- Provisioning and a request for a run are quiet (server/syncjobs/provisioning.py and
-- server/routes/sync_jobs.py).
use tigerduck_backend.Prelude.{
  ℕ, refl, arith, ◌&&◌, Option, none, some, is_some, leb, Bool-cases, inl, inr,
}
use tigerduck_backend.SyncJobs.Job.{
  SyncJobType, SyncJobStatus, SyncJob, ExternalAccount, SyncDb, SyncSettings, policy_of,
}
use tigerduck_backend.SyncJobs.Provision.{
  is_disabled, revive, after_cooling, ask_status, run_with_job, is_job_of, job_of, new_job, revived,
  upsert_job, ensure_sync_jobs, touch_device, cooling, queued, ask_job, ask_found, provision,
  is_credential_active, is_active_opt, run_now,
}
use tigerduck_backend.SyncJobs.Steps.Quiet.{
  Calm, CalmAll-map, CalmAll-refl, Calm-if, Quiet, calm, adds, follows, Quiet-refl, Quiet-set_job,
}

revived-Calm : (now account_id : ℕ) (j : SyncJob) → Calm j (revived now account_id j)
revived-Calm now account_id j =
    Calm-if (is_disabled j) j (revive now account_id j)
      (record { same_id = refl; same_user = refl; keeps = inl refl })

upsert_job-Quiet :
    (now user_id account_id : ℕ) (t : SyncJobType) (db : SyncDb)
    → Quiet db (upsert_job now user_id account_id t db)
unfolding upsert_job
upsert_job-Quiet now user_id account_id t db =
    elim (Bool-cases (is_some (job_of user_id t db.jobs))) [
      | inl there ↦ rw there (
          calm
            (CalmAll-map _
              (λ j.
                Calm-if (is_job_of user_id t j) j (revived now account_id j)
                  (revived-Calm now account_id j))
              db.jobs)
            refl (omega arith))
      | inr missing ↦ rw missing (
          adds (new_job db.next_job now user_id account_id t (policy_of t db.policies)) refl refl
            refl refl refl)
    ]

pub ensure_sync_jobs-Quiet :
    (now user_id account_id : ℕ) (db : SyncDb)
    → Quiet db (ensure_sync_jobs now user_id account_id db)
unfolding ensure_sync_jobs
ensure_sync_jobs-Quiet now user_id account_id db =
    follows (upsert_job-Quiet now user_id account_id SyncJobType.moodle_assignments db)
      (upsert_job-Quiet now user_id account_id SyncJobType.ntust_courses _)

touch_device-Quiet :
    (device : Option ℕ) (user_id now : ℕ) (db : SyncDb)
    → Quiet db (touch_device device user_id now db)
touch_device-Quiet none user_id now db = Quiet-refl db
touch_device-Quiet (some d) user_id now db = calm (CalmAll-refl db.jobs) refl (omega arith)

after_cooling-Quiet :
    (now : ℕ) (start before db : SyncDb) (job : SyncJob) (o : Option ℕ)
    → Quiet start before
    → Quiet start db
    → Quiet start (after_cooling now before db job o).1
after_cooling-Quiet now start before db job (some left) old new = old
after_cooling-Quiet now start before db job none old new = follows new (
    Quiet-set_job db job.id (queued now)
      (λ j. record { same_id = refl; same_user = refl; keeps = inl refl }))

ask_status-Quiet :
    (s : SyncSettings) (now : ℕ) (start before db : SyncDb) (job : SyncJob) (status : SyncJobStatus)
    → Quiet start before
    → Quiet start db
    → Quiet start (ask_status s now before db job status).1
ask_status-Quiet s now start before db job SyncJobStatus.disabled old new = old
ask_status-Quiet s now start before db job SyncJobStatus.running old new = new
ask_status-Quiet s now start before db job SyncJobStatus.failed old new =
    after_cooling-Quiet now start before db job (cooling s now job.manual_requested_at) old new
ask_status-Quiet s now start before db job SyncJobStatus.pending old new =
    elim (Bool-cases (leb job.priority 1 && leb job.run_after now)) [
      | inl first ↦ rw first new
      | inr later ↦ rw later (
          after_cooling-Quiet now start before db job (cooling s now job.manual_requested_at) old
            new)
    ]

ask_found-Quiet :
    (s : SyncSettings) (device : Option ℕ) (user_id now : ℕ) (start db : SyncDb)
    (o : Option SyncJob)
    → Quiet start db
    → Quiet start (ask_found s device user_id now db o).1
unfolding ask_found ask_job
ask_found-Quiet s device user_id now start db none q = q
ask_found-Quiet s device user_id now start db (some job) q =
    ask_status-Quiet s now start db (touch_device device user_id now db) job job.status q
      (follows q (touch_device-Quiet device user_id now db))

provision-Quiet :
    (s : SyncSettings) (device : Option ℕ) (user_id : ℕ) (t : SyncJobType) (now : ℕ) (db : SyncDb)
    (o : Option ExternalAccount)
    → Quiet db (provision s device user_id t now db o).1
unfolding provision
provision-Quiet s device user_id t now db none = Quiet-refl db
provision-Quiet s device user_id t now db (some a) = elim (Bool-cases (is_credential_active a)) [
  | inl live ↦ rw live (
      ask_found-Quiet s device user_id now db (ensure_sync_jobs now user_id a.id db)
        (job_of user_id t (ensure_sync_jobs now user_id a.id db).jobs)
        (ensure_sync_jobs-Quiet now user_id a.id db))
  | inr stale ↦ rw stale (Quiet-refl db)
]

run_with_job-Quiet :
    (s : SyncSettings) (device : Option ℕ) (user_id : ℕ) (t : SyncJobType) (now : ℕ) (db : SyncDb)
    (o : Option SyncJob)
    → Quiet db (run_with_job s device user_id t now db o).1
unfolding run_with_job
run_with_job-Quiet s device user_id t now db none = provision-Quiet s device user_id t now db _
run_with_job-Quiet s device user_id t now db (some job) =
    ask_found-Quiet s device user_id now db db (some job) (Quiet-refl db)

pub run_now-Quiet :
    (s : SyncSettings) (device : Option ℕ) (user_id : ℕ) (t : SyncJobType) (now : ℕ) (db : SyncDb)
    → Quiet db (run_now s device user_id t now db).1
unfolding run_now
run_now-Quiet s device user_id t now db =
    elim (Bool-cases (is_active_opt now (policy_of t db.policies))) [
      | inl live ↦ rw live (run_with_job-Quiet s device user_id t now db (job_of user_id t db.jobs))
      | inr closed ↦ rw closed (Quiet-refl db)
    ]
