-- ===== src/Push/Presend.antt =====
-- server/push/presend.py: is an assignment still open right before a job of it is sent. Moodle's
-- answer, or the way the call failed, is a parameter; times are microseconds, epochs seconds.
pub mod Open
pub mod Breaker
use tigerduck_backend.Prelude.{
  ℕ, ◌+◌, ◌*◌, ◌-◌, ◌/◌, max, Bool, true, false, ◌&&◌, ◌||◌, not, Option, none, some, List, [], ◌∷◌,
  map, filter, any, find?, is_some, String, str_eq, leb, ltb, ◌==◌, if◌then◌else◌, get_or,
}
use tigerduck_backend.Push.Job.{PushJob, is_processing}
use tigerduck_backend.Push.Claim.{locked_by}
use tigerduck_backend.Push.Provider.{codes, is_prefix}
use tigerduck_backend.Push.Versions.{is_digit}

pub data Verdict : Type 0 where
  send submitted gone unverified : Verdict

pub record PresendCheck : Type 0 where
  pub verdict : Verdict
  pub reason : String
  pub moodle_assignment_id : Option ℕ
  pub submitted_at : Option ℕ

-- A row of user_assignments, with the mark of its override.
pub record AssignmentRow : Type 0 where
  pub user_id : ℕ
  pub moodle_course_id : ℕ
  pub moodle_assignment_id : ℕ
  pub course_no : Option String
  pub due_at : Option ℕ
  pub extension_due_at : Option ℕ
  pub provider_is_submitted : Bool
  pub provider_submitted_at : Option ℕ
  pub deleted_at : Option ℕ
  pub local_status : Option String

-- What `ignored_courses` gives for a user.
pub record Ignored : Type 0 where
  pub course_ids : List ℕ
  pub course_nos : List String

pub record MoodleBreaker : Type 0 where
  pub opened_by : Option String
  pub answered : Bool

-- `FetchedSubmission`
pub record Answer : Type 0 where
  pub is_submitted : Bool
  pub answer_submitted_at : Option ℕ
  pub submissions_enabled : Bool
  pub locked : Bool
  pub extension : Option ℕ

pub data Reply : Type 0 where
  timed_out unavailable rate_limited token_invalid refused failed no_answer : Reply
  answered_with : Answer → Reply

abbrev pub reminder_channel : String
reminder_channel = "assignment"

abbrev pub schedule_channel : String
schedule_channel = "schedule"

abbrev pub is_reminder : PushJob → Bool
is_reminder job = str_eq job.channel reminder_channel

abbrev pub opt_eq : Option String → String → Bool
opt_eq none t = false
opt_eq (some s) t = str_eq s t

abbrev pub is_activity_end : PushJob → Bool
is_activity_end job = opt_eq job.payload.kind "live_activity_end"

-- `device_prefix` is `schedule_prefix`, the front of the keys that `/schedule/sync` writes.
unfoldable pub needs_check : (ℕ → String) → PushJob → Bool
needs_check device_prefix job =
    if is_reminder job
    then is_prefix (codes "reminder_") (codes job.scenario)
    else elim job.device_id [
      | none ↦ false
      | some device ↦
          str_eq job.channel schedule_channel
          && (str_eq job.scenario "assignmentUrgent"
              && (not (is_activity_end job)
                  && is_prefix (codes (device_prefix device)) (codes job.dedupe_key)))
    ]

-- The digits of a text, as `int` reads them.
abbrev pub read_digits : ℕ → List ℕ → Option ℕ
read_digits n [] = some n
read_digits n (c ∷ cs) =
    let rest = read_digits (n * 10 + (c - 48)) cs in if is_digit c then rest else none

abbrev pub int_of : List ℕ → Option ℕ
int_of [] = none
int_of (c ∷ cs) = read_digits 0 (c ∷ cs)

unfoldable pub assignment_id : PushJob → Option ℕ
assignment_id job =
    if is_reminder job
    then job.payload.moodle_assignment_id
    else elim job.payload.source_id [ none ↦ none | some text ↦ int_of (codes text) ]

abbrev pub second : ℕ
second = 1_000_000

-- `int(t.timestamp())`
abbrev pub epoch : ℕ → ℕ
epoch t = t / second

unfoldable pub assignment_rows : ℕ → ℕ → List AssignmentRow → List AssignmentRow
assignment_rows user i rows = filter (λ r. r.user_id == user && r.moodle_assignment_id == i) rows

abbrev pub is_alive : AssignmentRow → Bool
is_alive r = not (is_some r.deleted_at)

abbrev pub latest_due : List AssignmentRow → Option ℕ
latest_due [] = none
latest_due (r ∷ rs) = elim r.due_at [
  | none ↦ latest_due rs
  | some t ↦ some (max (epoch t) (get_or (latest_due rs) (epoch t)))
]

unfoldable pub due_epoch : PushJob → List AssignmentRow → Option ℕ
due_epoch job alive =
    if is_reminder job
    then job.payload.due_epoch
    else elim job.payload.countdown_target [ none ↦ latest_due alive | some t ↦ some t ]

-- `EXCLUDED_LOCAL_STATUSES`
abbrev pub is_marked : AssignmentRow → Bool
is_marked r =
    opt_eq r.local_status "locally_completed"
    || (opt_eq r.local_status "ignored" || opt_eq r.local_status "archived")

unfoldable pub in_ignored_course : Ignored → AssignmentRow → Bool
in_ignored_course i r =
    any (λ c. c == r.moodle_course_id) i.course_ids
    || (r.moodle_course_id == 0 && any (λ c. opt_eq r.course_no c) i.course_nos)

abbrev pub is_at : Option ℕ → Option ℕ → Bool
is_at due none = false
is_at due (some t) = elim due [ none ↦ false | some d ↦ epoch t == d ]

-- The due time has come.
abbrev pub has_passed : Option ℕ → ℕ → Bool
has_passed none now = false
has_passed (some d) now = leb (d * second) now

abbrev pub gone_for : String → PresendCheck
gone_for reason = record {
  verdict = Verdict.gone;
  reason = reason;
  moodle_assignment_id = none;
  submitted_at = none;
}

abbrev pub unverified_for : String → PresendCheck
unverified_for reason = record {
  verdict = Verdict.unverified;
  reason = reason;
  moodle_assignment_id = none;
  submitted_at = none;
}

abbrev pub submitted_by : String → ℕ → Option ℕ → PresendCheck
submitted_by source i at = record {
  verdict = Verdict.submitted;
  reason = source;
  moodle_assignment_id = some i;
  submitted_at = at;
}

-- Once no row is submitted: what the marks and the due times say.
unfoldable pub open_verdict :
    PushJob → List AssignmentRow → Option ℕ → Ignored → ℕ → Option PresendCheck
unfolding in_ignored_course
open_verdict job rows due ignored now =
    let alive = filter is_alive rows in
    if any is_marked rows
    then some (gone_for "marked")
    else if any (in_ignored_course ignored) rows
    then some (gone_for "course_ignored")
    else if not (any (λ r. true) alive)
    then some (gone_for "no_row")
    else if (is_reminder job || is_some due) && not (any (λ r. is_at due r.due_at) alive)
    then some (gone_for "due_changed")
    else if has_passed due now
    then some (gone_for "due_passed")
    else none

unfoldable pub database_verdict :
    PushJob → ℕ → List AssignmentRow → Option ℕ → Ignored → ℕ → Option PresendCheck
unfolding open_verdict
database_verdict job i rows due ignored now = elim (find? (λ r. r.provider_is_submitted) rows) [
  | some r ↦ some (submitted_by "database" i r.provider_submitted_at)
  | none ↦ open_verdict job rows due ignored now
]

-- The rows' verdict, the due time, and whether that is an extension a row stores.
unfoldable pub rows_verdict :
    PushJob → ℕ → List AssignmentRow → Ignored → ℕ → Option PresendCheck × (Option ℕ × Bool)
unfolding assignment_rows due_epoch database_verdict
rows_verdict job i table ignored now =
    let rows = assignment_rows job.user_id i table in
    let alive = filter is_alive rows in
    let due = due_epoch job alive in
    (
      database_verdict job i rows due ignored now,
      (due, any (λ r. is_at due r.extension_due_at) alive),
    )

unfoldable pub recheck_assignment :
    PushJob → List AssignmentRow → Ignored → ℕ → Option ℕ → Option PresendCheck
unfolding rows_verdict
recheck_assignment job table ignored now none = some (gone_for "no_assignment_id")
recheck_assignment job table ignored now (some i) = (rows_verdict job i table ignored now).0

unfoldable pub recheck_rows : PushJob → List AssignmentRow → Ignored → ℕ → Option PresendCheck
unfolding assignment_id recheck_assignment
recheck_rows job table ignored now = recheck_assignment job table ignored now (assignment_id job)

-- The extension of the answer is later than the time the job is due at.
abbrev pub extended_past : Option ℕ → Option ℕ → Bool
extended_past none due = false
extended_past (some e) none = true
extended_past (some e) (some d) = ltb d (epoch e)

-- The extension that the job counts to is not there any more.
abbrev pub withdrawn : Option ℕ → Option ℕ → Bool
withdrawn none due = true
withdrawn (some e) none = false
withdrawn (some e) (some d) = ltb (epoch e) d

unfoldable pub answer_verdict : ℕ → Option ℕ → Bool → Answer → PresendCheck
answer_verdict i due extended a =
    if a.is_submitted
    then submitted_by "moodle" i a.answer_submitted_at
    else if not a.submissions_enabled
    then gone_for "submissions_disabled"
    else if a.locked
    then gone_for "locked"
    else if extended_past a.extension due
    then gone_for "extension"
    else if extended && withdrawn a.extension due
    then gone_for "extension_withdrawn"
    else record {
      verdict = Verdict.send;
      reason = "moodle";
      moodle_assignment_id = some i;
      submitted_at = none;
    }

abbrev pub open_breaker : String → MoodleBreaker → PresendCheck × MoodleBreaker
open_breaker reason b = (unverified_for reason, record b { opened_by = some reason })

unfoldable pub ask_moodle :
    ℕ → Option ℕ → Bool → Reply → MoodleBreaker → PresendCheck × MoodleBreaker
unfolding answer_verdict
ask_moodle i due extended timed_out b = open_breaker "timeout" b
ask_moodle i due extended unavailable b = open_breaker "unavailable" b
ask_moodle i due extended rate_limited b = open_breaker "rate_limited" b
ask_moodle i due extended token_invalid b = (unverified_for "token_invalid", b)
ask_moodle i due extended refused b = (unverified_for "refused", b)
ask_moodle i due extended failed b = (unverified_for "error", b)
ask_moodle i due extended no_answer b = (unverified_for "no_answer", b)
ask_moodle i due extended (answered_with a) b = (answer_verdict i due extended a, b)

-- What the worker has for a check: a cipher and a fetcher, and the user's token or why there is none.
pub record Access : Type 0 where
  pub configured : Bool
  pub credential_invalid : Option String
  pub reply : Reply

-- A check, the breaker after it, and the calls of Moodle it made.
pub record Checked : Type 0 where
  pub check : Option PresendCheck
  pub breaker : MoodleBreaker
  pub calls : ℕ

abbrev pub unasked : Option PresendCheck → MoodleBreaker → Checked
unasked check b = record { check = check; breaker = b; calls = 0 }

abbrev pub after_call : PresendCheck × MoodleBreaker → Checked
after_call (check, b) = record {
  check = some check;
  breaker = record b { answered = b.answered || not (is_some b.opened_by) };
  calls = 1;
}

unfoldable pub ask_with : Reply → ℕ → Option ℕ → Bool → MoodleBreaker → Option String → Checked
ask_with reply i due extended b (some reason) = unasked (some (unverified_for reason)) b
ask_with reply i due extended b none = after_call (ask_moodle i due extended reply b)

-- The rows did not settle it.
unfoldable pub check_moodle : Access → ℕ → Option ℕ → Bool → MoodleBreaker → Checked
unfolding ask_with
check_moodle access i due extended b =
    if is_some b.opened_by
    then unasked (some (unverified_for "breaker_open")) b
    else if not access.configured
    then unasked (some (unverified_for "moodle_unconfigured")) b
    else ask_with access.reply i due extended b access.credential_invalid

unfoldable pub check_settled :
    Access → ℕ → Option ℕ → Bool → MoodleBreaker → Option PresendCheck → Checked
unfolding check_moodle
check_settled access i due extended b (some check) = unasked (some check) b
check_settled access i due extended b none = check_moodle access i due extended b

unfoldable pub check_assignment :
    Access → PushJob → List AssignmentRow → Ignored → ℕ → MoodleBreaker → Option ℕ → Checked
unfolding check_settled
check_assignment access job table ignored now b none =
    unasked (some (gone_for "no_assignment_id")) b
check_assignment access job table ignored now b (some i) =
    let (settled, (due, extended)) = rows_verdict job i table ignored now in
    check_settled access i due extended b settled

-- `has_deliveries` of the job as it is read here.
unfoldable pub check_before_send :
    (ℕ → String)
    → String
    → Access
    → Option PushJob
    → Bool
    → List AssignmentRow
    → Ignored
    → ℕ
    → MoodleBreaker
    → Checked
unfolding check_assignment
check_before_send device_prefix worker access none has_deliveries table ignored now b =
    unasked none b
check_before_send device_prefix worker access (some job) has_deliveries table ignored now b =
    if is_processing job.status
      && (locked_by worker job && (needs_check device_prefix job && not has_deliveries))
    then check_assignment access job table ignored now b (assignment_id job)
    else unasked none b
