-- ===== src/Push/Guards.antt =====
-- The ends of `_materialize` before it looks for tokens, in server/push/pipeline.py, and
-- `_held_by_course_changes`. What other modules answer for the job is in `Facts`.
use tigerduck_backend.Prelude.{
  ℕ, ◌+◌, ◌*◌, min, Bool, true, false, ◌&&◌, ◌||◌, not, Option, none, some, String, str_eq, ltb,
  if◌then◌else◌, is_some,
}
use tigerduck_backend.Push.Job.{JobStatus, Payload, PushJob}
use tigerduck_backend.Push.Presend.{opt_eq, is_activity_end, schedule_channel, second}
use tigerduck_backend.Push.Hold.{settle, put_back}
use tigerduck_backend.Push.Db.{PushDb, has_deliveries, last_sync_trigger_sent, registered}
use tigerduck_backend.Push.Countdown.{Keys}
use tigerduck_backend.Calendar.{classes_quiet}

-- A class or its reminder, asked again: the check failed, the class is off or moved, or the payload
-- as it is now and how much later the start is.
pub data Recheck : Type 0 where
  check_failed class_off : Recheck
  class_on : Payload → ℕ → Recheck

pub record Facts : Type 0 where
  -- `announced_while_sessionless`, and `send_after` for it
  pub announced_at : Option ℕ
  pub send_after : ℕ → Option ℕ
  -- `_class_day`
  pub class_day : ℕ
  -- `recheck_class_reminder` and `recheck_class_start`
  pub recheck_class : PushJob → Recheck
  pub keys : Keys

abbrev pub course_channel : String
course_channel = "course"

abbrev pub bulletin_channel : String
bulletin_channel = "bulletin"

abbrev pub sync_trigger_gap : ℕ
sync_trigger_gap = 20 * 60 * second

abbrev pub held_start_recheck : ℕ
held_start_recheck = 5 * 60 * second

abbrev pub is_device_channel : PushJob → Bool
is_device_channel job = str_eq job.channel schedule_channel || str_eq job.channel "custom"

abbrev pub is_activity : PushJob → Bool
is_activity job = str_eq job.channel schedule_channel

-- `_CLASS_SCENARIOS`
abbrev pub is_class : PushJob → Bool
is_class job = str_eq job.scenario "classPreparing" || str_eq job.scenario "inClass"

abbrev pub is_session_reauth : PushJob → Bool
is_session_reauth job = str_eq job.scenario "reauth_required" && opt_eq job.payload.reason "session"

abbrev pub is_sync_trigger : PushJob → Bool
is_sync_trigger job = str_eq job.scenario "sync_trigger"

-- Why a round ends here. `skips_pending` is the update of the job's pending deliveries that goes
-- with a stale reauth push.
pub data Ending : Type 0 where
  -- return True: the round goes on to deliver what is there
  to_delivery : Ending
  cancels : String → Ending
  fails_with : String → Ending
  skips_pending : String → Ending
  waits_until : ℕ → Ending

-- On with the job, its payload perhaps written anew, or the end.
pub data Step : Type 0 where
  onward : PushJob → Step
  ends : Ending → Step

abbrev pub then_step : Step → (PushJob → Step) → Step
then_step (ends e) next = ends e
then_step (onward job) next = next job

abbrev pub end_if : Bool → Ending → PushJob → Step
end_if true e job = ends e
end_if false e job = onward job

unfoldable pub device_gone : PushDb → PushJob → Step
device_gone db job =
    if not (is_some job.device_id) && is_device_channel job
    then ends (if has_deliveries job.id db.deliveries then to_delivery else cancels "device_gone")
    else onward job

-- `and job.device_id is not None`
abbrev pub announced : Facts → PushJob → Option ℕ
announced f job = elim job.device_id [ none ↦ none | some d ↦ f.announced_at ]

abbrev pub reauth_after : Facts → PushJob → Option ℕ → Step
reauth_after f job none = ends (skips_pending "stale_before_send")
reauth_after f job (some at) = elim (f.send_after at) [
  | none ↦ onward job
  | some wait ↦ ends (waits_until wait)
]

unfoldable pub session_reauth : Facts → PushJob → Step
session_reauth f job =
    if is_session_reauth job then reauth_after f job (announced f job) else onward job

abbrev pub course_step : ℕ → PushJob → Recheck → Step
course_step now job check_failed = ends (cancels "unverified_before_send")
course_step now job class_off = ends (cancels "class_changed")
course_step now job (class_on payload delay) =
    if ltb now (job.fire_at + delay)
    then ends (waits_until (min (job.fire_at + delay) (now + held_start_recheck)))
    else onward (record job { payload = payload })

unfoldable pub held_by_course_changes : Facts → ℕ → PushJob → Step
held_by_course_changes f now job = course_step now job (f.recheck_class job)

-- A class start: the day, the course changes, and after them the registration.
abbrev pub already_running : Facts → ℕ → PushDb → PushJob → String → Bool
already_running f now db job activity = elim job.device_id [
  | none ↦ false
  | some d ↦ registered f.keys.end_key now job.user_id d activity db
]

unfoldable pub activity_registered : Facts → ℕ → PushDb → String → PushJob → Step
activity_registered f now db activity job =
    end_if (not (has_deliveries job.id db.deliveries) && already_running f now db job activity)
      (cancels "activity_already_running") job

abbrev pub quiet_day : Facts → PushDb → PushJob → Option String
quiet_day f db job = classes_quiet job.user_id f.class_day db.terms db.holidays db.holiday_overrides

abbrev pub class_start : Facts → ℕ → PushDb → PushJob → Option String → Step
class_start f now db job (some reason) =
    if has_deliveries job.id db.deliveries then onward job else ends (cancels reason)
class_start f now db job none =
    if has_deliveries job.id db.deliveries then onward job else held_by_course_changes f now job

-- A start is not sent for an activity that would be wrong or is there.
unfoldable pub activity_start : Facts → ℕ → PushDb → String → PushJob → Step
unfolding held_by_course_changes activity_registered
activity_start f now db activity job =
    then_step (if is_class job then class_start f now db job (quiet_day f db job) else onward job)
      (activity_registered f now db activity)

abbrev pub activity_id_of : PushJob → Option String
activity_id_of job = elim job.payload.activity_id [
  | none ↦ none
  | some i ↦ if str_eq i "" then none else some i
]

abbrev pub activity_with : Facts → ℕ → PushDb → PushJob → Option String → Step
activity_with f now db job none = ends (fails_with "missing_activity_id")
activity_with f now db job (some activity) =
    if is_activity_end job then onward job else activity_start f now db activity job

unfoldable pub activity : Facts → ℕ → PushDb → PushJob → Step
unfolding activity_start
activity f now db job =
    if is_activity job then activity_with f now db job (activity_id_of job) else onward job

unfoldable pub course_reminder : Facts → ℕ → PushDb → PushJob → Step
unfolding held_by_course_changes
course_reminder f now db job =
    if str_eq job.channel course_channel && not (has_deliveries job.id db.deliveries)
    then held_by_course_changes f now job
    else onward job

abbrev pub paced_from : PushJob → Option ℕ → Step
paced_from job none = onward job
paced_from job (some last) = ends (waits_until (last + sync_trigger_gap))

unfoldable pub sync_trigger : ℕ → PushDb → PushJob → Step
sync_trigger now db job =
    if is_sync_trigger job && not (opt_eq job.payload.source "portal_force")
    then paced_from job (last_sync_trigger_sent sync_trigger_gap now job db)
    else onward job

-- The ends of the round, in their order.
unfoldable pub guards : Facts → ℕ → PushDb → PushJob → Step
unfolding device_gone session_reauth activity course_reminder sync_trigger
guards f now db job = then_step (device_gone db job) (λ j. then_step (session_reauth f j) (λ k.
    then_step (activity f now db k)
      (λ l. then_step (course_reminder f now db l) (sync_trigger now db))))

-- The job as an end leaves it.
unfoldable pub end_job : ℕ → Ending → PushJob → PushJob
unfolding settle
end_job now to_delivery job = job
end_job now (cancels error) job = settle JobStatus.cancelled error now job
end_job now (fails_with error) job = settle JobStatus.failed error now job
end_job now (skips_pending error) job = settle JobStatus.cancelled error now job
end_job now (waits_until at) job = put_back at job
