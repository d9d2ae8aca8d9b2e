-- ===== src/Push/Drain.antt =====
-- `run_push_tick` of server/push/pipeline.py: recover, then claim and process a batch at a time.
-- `process` is the work on one job, with whatever else happens to the rows meanwhile, and the
-- i-th reading of the clock is `clock i`.
pub mod Missing
pub mod Ends
use tigerduck_backend.Prelude.{
  ℕ, zero, suc, ◌+◌, Bool, true, false, ◌&&◌, not, Option, none, some, List, [], ◌∷◌, map, String,
  if◌then◌else◌, length,
}
use tigerduck_backend.Push.Job.{PushJob}
use tigerduck_backend.Push.Claim.{
  Settings, recover_stale_jobs, claim_due_jobs, outranked, release_claimed, ids_of, member,
}

pub record Worker : Type 0 where
  pub settings : Settings
  pub worker_id : String
  pub other_locks : ℕ → Bool
  pub clock : ℕ → ℕ
  pub process : PushJob → List PushJob → List PushJob

pub record Tick : Type 0 where
  pub jobs : List PushJob
  pub reads : ℕ
  pub processed : List ℕ

-- `processed.add`: a list without repetitions stands for the set.
abbrev pub add : ℕ → List ℕ → List ℕ
add i ids = if member i ids then ids else i ∷ ids

-- One job done.
abbrev pub handle : Worker → PushJob → Tick → Tick
handle w job t = record t { jobs = w.process job t.jobs; processed = add job.id t.processed }

-- The rest of the batch handed back.
abbrev pub yield_rest : Worker → List PushJob → Tick → Tick
yield_rest w rest t = record t {
  jobs = release_claimed w.worker_id (ids_of rest) t.jobs;
  reads = suc t.reads;
}

-- The loop over a batch after its first job: before each one the tick looks for a job that
-- outranks it.
unfoldable pub run_rest : Worker → List PushJob → Tick → Tick
run_rest w [] t = t
run_rest w (job ∷ rest) t =
    let on = run_rest w rest (handle w job (record t { reads = suc t.reads })) in
    if outranked (w.clock t.reads) t.processed job.priority t.jobs
    then yield_rest w (job ∷ rest) t
    else on

-- The first job of a batch always goes.
unfoldable pub run_batch : Worker → List PushJob → Tick → Tick
unfolding run_rest
run_batch w [] t = t
run_batch w (job ∷ rest) t = run_rest w rest (handle w job t)

-- What a claim leaves: the batch, and the tick with the claimed rows.
abbrev pub claim : Worker → Tick → List PushJob × Tick
claim w t =
    let (batch, jobs) =
      claim_due_jobs w.settings w.worker_id w.other_locks (w.clock t.reads) t.processed t.jobs in
    (batch, record t { jobs = jobs; reads = suc t.reads })

-- What follows the claim of a batch: nothing more, or the batch and then `again`.
unfoldable pub after : (Tick → Option Tick) → Worker → Tick → List PushJob → Option Tick
after again w t [] = some t
after again w t (job ∷ rest) = again (run_batch w (job ∷ rest) t)

-- `while True`; `none` means that the fuel ran out.
unfoldable pub drain : ℕ → Worker → Tick → Option Tick
unfolding after
drain zero w t = none
drain (suc fuel) w t = after (drain fuel w) w (claim w t).1 (claim w t).0

-- The tick after recovery, before the first claim.
abbrev pub start : Worker → List PushJob → Tick
start w jobs = record {
  jobs = recover_stale_jobs w.settings w.other_locks (w.clock 0) (w.clock 1) jobs;
  reads = 2;
  processed = [];
}

abbrev pub count_processed : Option Tick → Option ℕ
count_processed none = none
count_processed (some t) = some (length t.processed)

-- The number of jobs processed.
unfoldable pub run_push_tick : ℕ → Worker → List PushJob → Option ℕ
unfolding drain
run_push_tick fuel w jobs = count_processed (drain fuel w (start w jobs))
