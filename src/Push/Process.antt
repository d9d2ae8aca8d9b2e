-- ===== src/Push/Process.antt =====
-- `_process_job` of server/push/pipeline.py: the work on one claimed job, in a transaction that
-- holds its row, and the handler that follows an exception once that has rolled back.
pub mod Released
use tigerduck_backend.Prelude.{
  ℕ, suc, ◌+◌, Bool, true, false, ◌&&◌, ◌||◌, not, Option, none, some, List, [], ◌∷◌, map, find?,
  String, ◌==◌, if◌then◌else◌, is_some,
}
use tigerduck_backend.Push.Job.{JobStatus, PushJob, Delivery, Token, is_processing}
use tigerduck_backend.Push.Deliver.{Outside, Tokens, unlocked, deliver_round}
use tigerduck_backend.Push.Claim.{Settings, crash_job, locked_by}
use tigerduck_backend.Push.Presend.{PresendCheck, AssignmentRow, Ignored, needs_check}
use tigerduck_backend.Push.Hold.{HoldSettings, Held, held_back}
use tigerduck_backend.Push.Db.{PushDb, deliveries_of, has_deliveries}
use tigerduck_backend.Push.Guards.{Facts}
use tigerduck_backend.Push.Materialize.{RoundSettings, Materialized, materialize}

pub record ProcessSettings : Type 0 where
  pub claim : Settings
  pub hold : HoldSettings
  pub round : RoundSettings

-- What the work on one job meets: its check, the rows read again for it, the answers of other
-- modules, the providers, the readings of the clock, and whether anything raises.
pub record Visit : Type 0 where
  pub check : Option PresendCheck
  pub table : List AssignmentRow
  pub ignored : Ignored
  pub facts : Facts
  pub out : Outside
  pub hold_time : ℕ
  pub round_time : ℕ
  pub deliver_time : ℕ
  pub crash_time : ℕ
  pub raises : Bool
  -- what `record_submitted` does to the other rows
  pub record_submitted : PresendCheck → PushDb → PushDb

abbrev pub get_job : ℕ → List PushJob → Option PushJob
get_job i jobs = find? (λ j. j.id == i) jobs

abbrev pub write_rows : ℕ → PushJob → List PushJob → List PushJob
write_rows i job jobs = map (λ j. if j.id == i then job else j) jobs

abbrev pub write_job : ℕ → PushJob → PushDb → PushDb
write_job i job db = record db { jobs = write_rows i job db.jobs }

abbrev pub token_of : List (ℕ × Token) → Tokens
token_of rows i = elim (find? (λ t. t.0 == i) rows) [ none ↦ none | some t ↦ some t.1 ]

abbrev pub store_token : Tokens → ℕ × Token → ℕ × Token
store_token tokens t = elim (tokens t.0) [ none ↦ t | some u ↦ (t.0, u) ]

abbrev pub tail_of : List Delivery → List Delivery
tail_of [] = []
tail_of (d ∷ ds) = ds

abbrev pub head_or : Delivery → List Delivery → Delivery
head_or d [] = d
head_or d (e ∷ es) = e

-- The job's rows, in their order, written back.
unfoldable pub put_rows : ℕ → List Delivery → List (ℕ × Delivery) → List (ℕ × Delivery)
put_rows j ds [] = []
put_rows j ds (r ∷ rs) =
    let rest = put_rows j (if r.0 == j then tail_of ds else ds) rs in
    (if r.0 == j then (r.0, head_or r.1 ds) else r) ∷ rest

-- The delivery round of the job `i`.
unfoldable pub deliver : Visit → ℕ → PushDb → PushJob → PushDb
deliver v i db job =
    let (job', rows, tokens) =
      deliver_round v.out v.deliver_time job (deliveries_of i db.deliveries) (token_of db.tokens) in
    write_job i job' (record db {
      deliveries = put_rows i rows db.deliveries;
      tokens = map (store_token tokens) db.tokens;
    })

abbrev pub after_materialize : Visit → ℕ → Materialized → PushDb
after_materialize v i m = if m.deliver then deliver v i m.db m.job else write_job i m.job m.db

-- Materialized and, where that says so, delivered.
unfoldable pub send_job : ProcessSettings → Visit → PushDb → PushJob → PushDb
send_job s v db job = after_materialize v job.id (materialize v.facts s.round v.round_time db job)

abbrev pub record_for : Visit → Option PresendCheck → PushDb → PushDb
record_for v none db = db
record_for v (some check) db = v.record_submitted check db

abbrev pub after_hold : ProcessSettings → Visit → PushDb → PushJob → Held → PushDb
after_hold s v db job h =
    if h.held
    then write_job job.id h.job (record_for v h.record_submission db)
    else send_job s v db job

-- Back for the next round to check.
abbrev pub missed_check : PushJob → PushJob
missed_check job = unlocked (record job { status = JobStatus.pending })

unfoldable pub with_check :
    ProcessSettings → Visit → PushDb → PushJob → Option PresendCheck → PushDb
unfolding send_job
with_check s v db job (some check) =
    after_hold s v db job (held_back s.hold v.hold_time v.table v.ignored job check)
with_check s v db job none =
    if needs_check v.facts.keys.schedule_prefix job && not (has_deliveries job.id db.deliveries)
    then write_job job.id (missed_check job) db
    else send_job s v db job

-- Not ours any more: stale-recovered, and possibly claimed again.
abbrev pub is_ours : String → PushJob → Bool
is_ours worker job = is_processing job.status && locked_by worker job

unfoldable pub process_found : String → ProcessSettings → Visit → PushDb → PushJob → PushDb
unfolding with_check
process_found worker s v db job =
    if v.raises
    then write_job job.id (crash_job s.claim v.crash_time job) db
    else if not (is_ours worker job)
    then db
    else with_check s v db job v.check

abbrev pub process_row : String → ProcessSettings → Visit → PushDb → Option PushJob → PushDb
process_row worker s v db none = db
process_row worker s v db (some job) = process_found worker s v db job

unfoldable pub process_job : String → ProcessSettings → Visit → ℕ → PushDb → PushDb
unfolding process_found
process_job worker s v i db = process_row worker s v db (get_job i db.jobs)
