-- ===== src/Tests/ClaimRuns.antt =====
-- server/push/pipeline.py: a tick over three jobs, one of them left behind by a worker that died.
use native.Mathlib.Omega.{arith}
use tigerduck_backend.Prelude.{
  ℕ, ◌≡◌, ◌+◌, ◌==◌, ◌≤◌, refl, Bool, true, false, ◌&&◌, not, none, some, List, [], ◌∷◌, All,
  if◌then◌else◌, length,
}
use tigerduck_backend.Prelude.Sorting.{order_by}
use tigerduck_backend.Push.Job.{JobStatus, PushJob, is_processing}
use tigerduck_backend.Push.Deliver.{deliver_round}
use tigerduck_backend.Push.Claim.{
  Settings, is_stale, recover_stale_jobs, crash_job, due, claim_due_jobs, outranked,
}
use tigerduck_backend.Push.Claim.Exclusive.{
  HasRoom, crash_job-HasRoom, recover_stale_jobs-HasRoom, deliver_round-HasRoom,
  claim_due_jobs-most_urgent,
}
use tigerduck_backend.Push.Drain.{Worker, Tick, drain, run_batch, run_push_tick, start}
use tigerduck_backend.Push.Drain.Missing.{Below}
use tigerduck_backend.Push.Drain.Ends.{IsDrained, run_push_tick-ends}
use tigerduck_backend.Tests.DeliverRuns.{job, rows, tokens, outside}

abbrev pub settings : Settings
settings = record { stale_lock = 100; retry_round_delay = 60; batch_size = 2 }

abbrev urgent : PushJob
urgent = record job {
  id = 2;
  status = JobStatus.pending;
  priority = 1;
  locked_by = none;
  locked_at = none;
}

abbrev later : PushJob
later = record job {
  id = 3;
  status = JobStatus.pending;
  priority = 50;
  locked_by = none;
  locked_at = none;
}

abbrev jobs : List PushJob
jobs = job ∷ later ∷ urgent ∷ []

abbrev open_row : ℕ → Bool
open_row i = false

abbrev sent_jobs : ℕ → List PushJob → List PushJob
sent_jobs i [] = []
sent_jobs i (j ∷ js) =
    (if j.id == i then record j { status = JobStatus.sent } else j) ∷ sent_jobs i js

-- Every job is sent at once, and nothing else happens.
abbrev worker : Worker
worker = record {
  settings = settings;
  worker_id = "w";
  other_locks = open_row;
  clock = λ i. i + 500;
  process = λ j js. sent_jobs j.id js;
}

-- The recovered job waits for its retry round, the other two are processed.
two_processed : run_push_tick 5 worker jobs ≡ some 2
unfolding run_push_tick claim_due_jobs order_by recover_stale_jobs run_batch outranked
two_processed = refl

sent_jobs-Below : (n i : ℕ) (js : List PushJob) → Below n js → Below n (sent_jobs i js)
sent_jobs-Below n i [] h = tt
sent_jobs-Below n i (j ∷ js) h = ground (arith, sent_jobs-Below n i js h.1)

run_push_tick-ends_example :
    (t : Tick) × (drain 5 worker (start worker jobs) ≡ some t)
    × (run_push_tick 5 worker jobs ≡ some (length t.processed))
    × IsDrained worker t
run_push_tick-ends_example =
    run_push_tick-ends worker 4 jobs 5 (λ j js h. sent_jobs-Below 4 j.id js h) (omega arith)
      (omega arith, (omega arith, (omega arith, tt))) (omega arith)

job-HasRoom : HasRoom job
job-HasRoom = record { within = omega arith; live = λ _. omega arith }

crash_job-HasRoom_example :
    HasRoom (crash_job settings 500 job)
    × (is_processing (crash_job settings 500 job).status ≡ false)
crash_job-HasRoom_example = crash_job-HasRoom settings 500 job job-HasRoom

recover_stale_jobs-HasRoom_example :
    All
      (λ j. HasRoom j × ((is_stale settings 500 j && not (open_row j.id)) ≡ false))
      (recover_stale_jobs settings open_row 500 501 (job ∷ []))
recover_stale_jobs-HasRoom_example =
    recover_stale_jobs-HasRoom settings open_row 500 501 (job ∷ []) (job-HasRoom, tt)

deliver_round-HasRoom_example : HasRoom (deliver_round outside 5 job rows tokens).0
deliver_round-HasRoom_example = deliver_round-HasRoom outside 5 job rows tokens refl job-HasRoom

picked : (claim_due_jobs settings "w" open_row 500 [] jobs).0 ≡ urgent ∷ later ∷ []
unfolding claim_due_jobs order_by
picked = refl

claim_due_jobs-most_urgent_example :
    (due 500 [] urgent ≡ true)
    × All (λ j. (due 500 [] j && not (open_row j.id)) ≡ true → urgent.priority ≤ j.priority) jobs
claim_due_jobs-most_urgent_example =
    claim_due_jobs-most_urgent settings "w" open_row 500 [] jobs urgent (later ∷ []) picked
