-- ===== src/Push/Hold.antt =====
-- `_settle` and `_held_back` of server/push/pipeline.py: what a pre-send verdict does to its job.
-- The write of a submission (`record_submitted`) is handed on as the check it is for.
pub mod Verdicts
pub mod Waiting
use tigerduck_backend.Prelude.{
  ℕ, ◌+◌, Bool, true, false, ◌&&◌, not, Option, none, some, List, String, leb, ltb, get_or,
  if◌then◌else◌,
}
use tigerduck_backend.Push.Job.{JobStatus, PushJob}
use tigerduck_backend.Push.Deliver.{unlocked}
use tigerduck_backend.Push.Presend.{
  Verdict, PresendCheck, AssignmentRow, Ignored, gone_for, recheck_rows,
}

unfoldable pub settle : JobStatus → String → ℕ → PushJob → PushJob
settle JobStatus.cancelled error now job =
    unlocked (record job {
      status = JobStatus.cancelled;
      last_error = some error;
      cancelled_at = some now;
    })
settle status error now job = unlocked (record job { status = status; last_error = some error })

-- Back to pending until `at`, without spending an attempt.
abbrev pub put_back : ℕ → PushJob → PushJob
put_back at job = unlocked (record job { status = JobStatus.pending; available_at = at })

pub record HoldSettings : Type 0 where
  pub presend_grace : ℕ
  pub presend_retry : ℕ

-- Whether the job is held, the job, and a submission to write back.
pub record Held : Type 0 where
  pub held : Bool
  pub job : PushJob
  pub record_submission : Option PresendCheck

abbrev pub past_grace : PresendCheck → PresendCheck
past_grace check = record (gone_for "past_grace") {
  moodle_assignment_id = check.moodle_assignment_id;
}

abbrev pub is_send : Verdict → Bool
is_send Verdict.send = true
is_send _ = false

-- A `send` stands only if the rows still say so, and within the grace.
unfoldable pub final_check :
    HoldSettings → ℕ → List AssignmentRow → Ignored → PushJob → PresendCheck → PresendCheck
final_check s now table ignored job check =
    let again =
      if is_send check.verdict then get_or (recheck_rows job table ignored now) check else check in
    if is_send again.verdict && leb (job.fire_at + s.presend_grace) now
    then past_grace again
    else again

-- The verdict, acted on.
unfoldable pub act_on : HoldSettings → ℕ → PushJob → PresendCheck → Verdict → Held
unfolding settle
act_on s now job check Verdict.send = record { held = false; job = job; record_submission = none }
act_on s now job check Verdict.submitted = record {
  held = true;
  job = settle JobStatus.cancelled "submitted_before_send" now job;
  record_submission = some check;
}
act_on s now job check Verdict.gone = record {
  held = true;
  job = settle JobStatus.cancelled "stale_before_send" now job;
  record_submission = none;
}
act_on s now job check Verdict.unverified = record {
  held = true;
  job =
      if ltb now (job.fire_at + s.presend_grace)
      then put_back (now + s.presend_retry) job
      else settle JobStatus.cancelled "unverified_before_send" now job;
  record_submission = none;
}

unfoldable pub held_back :
    HoldSettings → ℕ → List AssignmentRow → Ignored → PushJob → PresendCheck → Held
unfolding final_check act_on
held_back s now table ignored job check =
    let final = final_check s now table ignored job check in act_on s now job final final.verdict
