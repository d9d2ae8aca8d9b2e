-- ===== src/Tests/SyncJobRuns.antt =====
-- server/syncjobs: two jobs of one user, claimed by a worker that is taken for dead.
use native.Mathlib.Omega.{arith}
use tigerduck_backend.Prelude.{
  Option, List, map, ℕ, ◌+◌, ◌*◌, ◌%◌, ◌≤◌, ◌≡◌, ◌⊎◌, refl, true, false, ◌&&◌, none, some, [], ◌∷◌,
  count_if, leb, ltb, inl,
}
use tigerduck_backend.Prelude.Sorting.{order_by}
use tigerduck_backend.SyncJobs.Job.{
  set_job, SyncJobType, SyncJobStatus, sync_failed, plain, SyncPolicy, LockToken, SyncJob,
  SyncDevice, SyncDb, SyncSettings,
}
use tigerduck_backend.SyncJobs.Claim.{recover_stale_jobs, claim_due_job, count_running}
use tigerduck_backend.SyncJobs.Runs.{
  Failure, lock_owned_job, finish_after_probe, handle_moodle_failure,
}
use tigerduck_backend.SyncJobs.Runs.Retries.{
  IsRetried, SchoolError, school_error, away, school_errors, fail_times, own_errors-end,
  school_errors-IsRetried,
}
use tigerduck_backend.SyncJobs.Execute.{unreachable, handle, Answers, answered, after_fetch}
use tigerduck_backend.SyncJobs.Requests.{retry_all_jobs, push_back_sync_jobs}
use tigerduck_backend.SyncJobs.Requests.PushBack.{
  Upload, EachPutOff, push_back_all, push_back_all-EachPutOff,
}
use tigerduck_backend.SyncJobs.Budget.{fresh, wakes, pauses, run_events}
use tigerduck_backend.SyncJobs.Budget.Spacing.{run_events-rate}
use tigerduck_backend.SyncJobs.Window.{day, in_window, check_maintenance_window}
use tigerduck_backend.SyncJobs.Window.Resume.{IsResume, check_maintenance_window_outcome}
use tigerduck_backend.SyncJobs.Steps.{stays, steps, claims, retries_all}
use tigerduck_backend.SyncJobs.Steps.Sound.{Sound}
use tigerduck_backend.SyncJobs.Steps.Claims.{Reaches-Sound}
use tigerduck_backend.SyncJobs.Steps.Lost.{Lost, Lost-no_write, after_fetch-Lost}

abbrev settings : SyncSettings
settings = record {
  stale_lock = 100;
  global_concurrency = 3;
  device_active = 1000;
  device_push = 1000;
  backoff_base = 10;
  backoff_cap = 60;
  manual_cooldown = 30;
}

abbrev policy : SyncPolicy
policy = record {
  job_type = SyncJobType.moodle_assignments;
  enabled = true;
  default_interval = 500;
  active_from = none;
  active_until = none;
  priority = 50;
  max_attempts = 3;
}

abbrev waiting : SyncJob
waiting = record {
  id = 1;
  user_id = 1;
  external_account_id = 1;
  job_type = SyncJobType.moodle_assignments;
  priority = 50;
  status = SyncJobStatus.pending;
  run_after = 0;
  locked_by = none;
  locked_at = none;
  attempts = 0;
  max_attempts = 3;
  last_success_at = none;
  last_failure_at = none;
  last_error = none;
  manual_requested_at = none;
}

abbrev second_job : SyncJob
second_job = record waiting { id = 2; job_type = SyncJobType.ntust_courses }

abbrev phone : SyncDevice
phone = record {
  id = 1;
  user_id = 1;
  is_deleted = false;
  platform = "ios";
  cloud_sync_enabled = true;
  last_seen_at = some 5;
}

abbrev db : SyncDb
db = record {
  jobs = waiting ∷ second_job ∷ [];
  next_job = 3;
  runs = [];
  next_run = 1;
  policies = policy ∷ record policy { job_type = SyncJobType.ntust_courses } ∷ [];
  accounts = [];
  devices = phone ∷ [];
  tokens = [];
  prompts = [];
}

db-Sound : Sound settings db
db-Sound = record {
  distinct = (((λ e. absurd (omega (arith, e))), tt), (tt, tt));
  below = (omega arith, (omega arith, tt));
  capped = omega arith;
  one_each = tt;
  tokens = (inl refl, (inl refl, tt));
}

-- A second claim finds the user's other job running.
one_at_a_time :
    count_running
      (claim_due_job settings "w"
        (λ i. false)
        11
        (claim_due_job settings "w" (λ i. false) 10 db).1).1
    ≡ 1
unfolding claim_due_job order_by
one_at_a_time = refl

Reaches-Sound_example : Sound settings (
    retry_all_jobs 12
      (claim_due_job settings "w"
        (λ i. false)
        11
        (claim_due_job settings "w" (λ i. false) 10 db).1).1)
Reaches-Sound_example =
    Reaches-Sound settings db
      (retry_all_jobs 12
        (claim_due_job settings "w" (λ i. false) 11
          (claim_due_job settings "w" (λ i. false) 10 db).1).1)
      (steps (steps (steps stays (claims "w" (λ i. false) 10)) (claims "w" (λ i. false) 11))
        (retries_all 12))
      db-Sound

-- The last success was at 100 and the interval is 500, so the upload at 700 does not count.
abbrev succeeded : SyncDb
succeeded = record db {
  jobs = record waiting { last_success_at = some 100; run_after = 600 } ∷ second_job ∷ [];
}

abbrev upload_at : ℕ → Upload
upload_at now = record { now = now; user_id = 1; job_type = SyncJobType.moodle_assignments }

abbrev three_uploads : List Upload
three_uploads = upload_at 200 ∷ upload_at 550 ∷ upload_at 700 ∷ []

put_off_twice :
    map (λ j. j.run_after) (push_back_all 7200 three_uploads succeeded).jobs ≡ 7750 ∷ 0 ∷ []
unfolding push_back_all push_back_sync_jobs
put_off_twice = refl

push_back_all-EachPutOff_example :
    EachPutOff 7200 succeeded.policies three_uploads succeeded.jobs
      (push_back_all 7200 three_uploads succeeded).jobs
push_back_all-EachPutOff_example = push_back_all-EachPutOff 7200 three_uploads succeeded

-- Run 1 was claimed at 10, taken back at 200, and its job claimed again by the same worker.
abbrev taken_back : SyncDb
taken_back =
    recover_stale_jobs settings (λ i. false) 200 200
      (claim_due_job settings "w" (λ i. false) 10 db).1

abbrev token : LockToken
token = record { worker_id = "w"; run_id = 1 }

taken_back-Lost : Lost token 1 taken_back
unfolding recover_stale_jobs claim_due_job order_by
taken_back-Lost = record { opened = omega arith; not_held = (refl, (refl, tt)) }

abbrev failure : Failure
failure = record {
  error = sync_failed "x";
  run_error = plain (sync_failed "x");
  disable = false;
  keep_retrying = false;
  credential_nonce = none;
}

abbrev again : SyncDb
again = (claim_due_job settings "w" (λ i. false) 201 taken_back).1

Lost-no_write_example :
    ((lock_owned_job token 1 202 again).0 ≡ none)
    × (finish_after_probe token 1 202 again ≡ again)
    × (handle_moodle_failure settings failure none token 1 202 again ≡ again)
Lost-no_write_example =
    Lost-no_write settings token 1 taken_back again failure none 202 taken_back-Lost
      (steps stays (claims "w" (λ i. false) 201))

abbrev answers : Answers
answers = record {
  start_fails = none;
  credential_nonce = some 9;
  while_fetching = λ d. d;
  fetch = answered (record { fetched_count = 4; changed_count = 1 }) none;
  store_fails = none;
  while_probing = λ d. d;
  probe_fails = none;
  resume_at = none;
  start_time = 10;
  now = 11;
  store_time = 202;
  end_time = 203;
}

after_fetch-Lost_example :
    (after_fetch settings answers token 1 taken_back answers.fetch).db.jobs ≡ taken_back.jobs
after_fetch-Lost_example =
    after_fetch-Lost settings answers token 1 taken_back answers.fetch taken_back-Lost

own_errors-end_example :
    (fail_times settings (some policy) false (10 ∷ 40 ∷ 80 ∷ []) waiting).status
    ≡ SyncJobStatus.failed
own_errors-end_example =
    own_errors-end settings (some policy) (10 ∷ 40 ∷ 80 ∷ []) waiting refl (omega arith)
      (omega arith)

abbrev school_at : ℕ → Option ℕ → SchoolError
school_at now resume_at = record { now = now; error = sync_failed "502"; resume_at = resume_at }

-- Run 1 has the job when Moodle is away at 10; the third error meets a window that ends at 300.
abbrev running : SyncJob
running = record waiting { status = SyncJobStatus.running; locked_by = some token }

abbrev while_running : SyncDb
while_running = record db { jobs = running ∷ second_job ∷ [] }

school_errors-IsRetried_example :
    ((handle settings none none token 1 10 while_running (unreachable "502")).jobs
      ≡ set_job 1 (school_error settings (some policy) (school_at 10 none)) while_running.jobs)
    × IsRetried settings (some policy) (school_at 90 none) (
        school_errors settings
          (some policy)
          (school_at 10 none ∷ school_at 40 none ∷ school_at 80 (some 300) ∷ school_at 90 none ∷ [])
          running)
school_errors-IsRetried_example =
    school_errors-IsRetried settings none none none token 1 10 while_running (unreachable "502")
      running (school_at 40 none ∷ school_at 80 (some 300) ∷ school_at 90 none ∷ []) away refl refl
      (omega arith)

-- Of requests at 0, 5, 10 and 20 with a spacing of 10 and a pause, those at 0 and 20 go.
two_go :
    run_events (fresh 10) (wakes 0 ∷ wakes 5 ∷ pauses 6 9 ∷ wakes 10 ∷ wakes 20 ∷ []) ≡ 0 ∷ 20 ∷ []
unfolding run_events
two_go = refl

run_events-rate_example :
    count_if
      (λ t. leb 0 t && ltb t (0 + 2 * 10))
      (run_events (fresh 10) (wakes 0 ∷ wakes 5 ∷ wakes 10 ∷ []))
    ≤ 2
run_events-rate_example = run_events-rate 10 (wakes 0 ∷ wakes 5 ∷ wakes 10 ∷ []) 0 2

-- From 23:00 to 02:00, at one in the morning.
check_maintenance_window_outcome_example :
    ((check_maintenance_window 82800 7200 3600 ≡ none)
      × (in_window 82800 7200 (3600 % day) ≡ false))
    ⊎ ((in_window 82800 7200 (3600 % day) ≡ true)
        × (t : ℕ) × (check_maintenance_window 82800 7200 3600 ≡ some t)
        × IsResume 82800 7200 3600 t)
check_maintenance_window_outcome_example =
    check_maintenance_window_outcome 82800 7200 3600
      (record { start_in_day = omega arith; end_in_day = omega arith; whole = refl })
