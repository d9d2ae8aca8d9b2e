-- ===== src/Tests/PresendRuns.antt =====
-- server/push/presend.py, server/push/client_versions.py and server/academic_calendar/terms.py, and the
-- hold of server/push/pipeline.py: a reminder of an assignment that is open until 1000 seconds.
use tigerduck_backend.Prelude.{ℕ, ◌+◌, ◌*◌, ◌≤◌, ◌≡◌, ◌⊎◌, refl, true, false, none, some, [], ◌∷◌}
use tigerduck_backend.Push.Job.{JobStatus, PushJob}
use tigerduck_backend.Push.Deliver.{unlocked}
use tigerduck_backend.Push.Claim.{due}
use tigerduck_backend.Push.Versions.{parse_app_version}
use tigerduck_backend.Push.Versions.Parse.{written, parse_app_version-written}
use tigerduck_backend.Push.Presend.{
  Verdict, PresendCheck, AssignmentRow, Ignored, MoodleBreaker, timed_out, check_before_send,
  unverified_for, assignment_id, needs_check, rows_verdict, ask_moodle,
}
use tigerduck_backend.Push.Presend.Breaker.{Asked, run_checks, run_checks-one_call}
use tigerduck_backend.Push.Provider.{is_prefix}
use tigerduck_backend.Push.Hold.{HoldSettings, held_back}
use tigerduck_backend.Push.Hold.Verdicts.{IsCleared, IsHeld, held_back_outcome}
use tigerduck_backend.Push.Hold.Waiting.{PutBack, filed, put_back, PutBack-bounded}
use tigerduck_backend.Calendar.{SemesterTerm, current_term}
use tigerduck_backend.Calendar.Current.{IsCurrent, current_term_lem}
use tigerduck_backend.Tests.DeliverRuns.{job}

-- "2.10-x" behind a blank
parse_app_version-written_example :
    parse_app_version (
      some (
        written
          (32 ∷ [])
          (record { first = 50; rest = [] })
          (record { first = 49; rest = 48 ∷ [] } ∷ [])
          (45 ∷ 120 ∷ [])))
    ≡ some (2 ∷ 10 ∷ [])
parse_app_version-written_example =
    parse_app_version-written (32 ∷ []) (record { first = 50; rest = [] })
      (record { first = 49; rest = 48 ∷ [] } ∷ []) (45 ∷ 120 ∷ []) (refl, tt) (refl, tt)
      ((refl, (refl, tt)), tt) (refl, refl)

abbrev spring : SemesterTerm
spring = record { code = "1132"; code_rank = 2; start_date = 100; end_date = 200 }

abbrev autumn : SemesterTerm
autumn = record { code = "1141"; code_rank = 3; start_date = 300; end_date = 400 }

-- In the break between them, the spring term.
break_keeps_spring : current_term 250 (spring ∷ autumn ∷ []) ≡ some spring
unfolding current_term
break_keeps_spring = refl

current_term_lem_example :
    (t : SemesterTerm) × (current_term 250 (spring ∷ autumn ∷ []) ≡ some t)
    × IsCurrent 250 (spring ∷ autumn ∷ []) t
current_term_lem_example = current_term_lem 250 spring (autumn ∷ [])

abbrev million : ℕ
million = 1000000

abbrev pub reminder : PushJob
reminder = record job {
  channel = "assignment";
  scenario = "reminder_1h";
  fire_at = 100 * million;
  available_at = 100 * million;
  payload = record job.payload { moodle_assignment_id = some 7; due_epoch = some 1000 };
}

abbrev pub assignment : AssignmentRow
assignment = record {
  user_id = 1;
  moodle_course_id = 3;
  moodle_assignment_id = 7;
  course_no = some "CS";
  due_at = some (1000 * million);
  extension_due_at = none;
  provider_is_submitted = false;
  provider_submitted_at = none;
  deleted_at = none;
  local_status = none;
}

abbrev pub nothing_ignored : Ignored
nothing_ignored = record { course_ids = []; course_nos = [] }

abbrev pub hold_settings : HoldSettings
hold_settings = record { presend_grace = 60 * million; presend_retry = 20 * million }

abbrev pub send_check : PresendCheck
send_check = record {
  verdict = Verdict.send;
  reason = "moodle";
  moodle_assignment_id = some 7;
  submitted_at = none;
}

held_back_outcome_example :
    let h =
      held_back hold_settings
        (110 * million)
        (assignment ∷ [])
        nothing_ignored
        reminder
        send_check in
    ((h.held ≡ false)
      × IsCleared hold_settings (110 * million) (assignment ∷ []) nothing_ignored reminder h)
    ⊎ ((h.held ≡ true) × IsHeld hold_settings (110 * million) reminder h)
held_back_outcome_example =
    held_back_outcome hold_settings (110 * million) (assignment ∷ []) nothing_ignored reminder
      send_check

abbrev waiting : PushJob
waiting = unlocked (record reminder { status = JobStatus.pending })

abbrev waiting_on : PushJob
waiting_on = record waiting { available_at = 130 * million }

-- Moodle has not answered at 110 seconds.
put_back_once : PutBack hold_settings "w" waiting waiting_on 1
unfolding held_back due
put_back_once =
    put_back filed (110 * million) [] (assignment ∷ []) nothing_ignored (unverified_for "timeout")
      refl waiting_on refl refl refl

PutBack-bounded_example :
    (1 * hold_settings.presend_retry ≤ hold_settings.presend_grace + hold_settings.presend_retry)
    × (waiting_on.attempts ≡ waiting.attempts)
PutBack-bounded_example = PutBack-bounded hold_settings "w" waiting waiting_on 1 put_back_once

abbrev asked : Asked
asked = record {
  job = some reminder;
  has_deliveries = false;
  table = assignment ∷ [];
  ignored = nothing_ignored;
  now = 110 * million;
  access = record { configured = true; credential_invalid = none; reply = timed_out };
}

abbrev closed : MoodleBreaker
closed = record { opened_by = none; answered = false }

-- The second check finds the breaker open.
one_of_two_asks : (run_checks (λ d. "schedule:") "w" (asked ∷ asked ∷ []) closed).calls ≡ 1
unfolding run_checks check_before_send needs_check assignment_id is_prefix rows_verdict ask_moodle
one_of_two_asks = refl

run_checks-one_call_example :
    let after = run_checks (λ d. "schedule:") "w" (asked ∷ asked ∷ []) closed in
    (after.calls ≤ 1) × (after.side_by_side ≡ [])
run_checks-one_call_example =
    run_checks-one_call (λ d. "schedule:") "w" (asked ∷ asked ∷ []) closed (refl, (refl, tt)) refl

-- Once Moodle has answered, both run side by side.
none_in_order :
    (run_checks
      (λ d. "schedule:")
      "w"
      (asked ∷ asked ∷ [])
      (record { opened_by = none; answered = true })).side_by_side
    ≡ asked ∷ asked ∷ []
unfolding run_checks
none_in_order = refl
