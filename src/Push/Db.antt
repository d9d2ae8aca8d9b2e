-- ===== src/Push/Db.antt =====
-- The tables that a delivery round reads (server/auth/models), and the queries on them that several
-- parts of server/push/pipeline.py share.
use tigerduck_backend.Prelude.{
  ℕ, ◌+◌, max, Bool, true, false, ◌&&◌, not, Option, none, some, List, [], ◌∷◌, map, filter, any,
  String, str_eq, ltb, ◌==◌, get_or,
}
use tigerduck_backend.Push.Job.{
  JobStatus, TokenKind, standard, push_to_start, live_activity_update, PushJob, Delivery, Token,
  is_sent, is_pending_job,
}
use tigerduck_backend.Calendar.{SemesterTerm, Holiday, HolidayOverride}

pub record UserDevice : Type 0 where
  pub id : ℕ
  pub user_id : ℕ
  pub deleted_at : Option ℕ
  pub platform : String
  pub app_version : Option (List ℕ)
  pub cloud_sync_enabled : Bool
  pub sync_assignment_reminders : Bool
  pub bulletin_push_enabled : Bool

-- A delivery stands with the id of its job, a token with its own.
pub record PushDb : Type 0 where
  pub jobs : List PushJob
  pub deliveries : List (ℕ × Delivery)
  pub tokens : List (ℕ × Token)
  pub devices : List UserDevice
  pub next_delivery : ℕ
  pub terms : List SemesterTerm
  pub holidays : List Holiday
  pub holiday_overrides : List HolidayOverride

abbrev pub same_kind : TokenKind → TokenKind → Bool
same_kind standard standard = true
same_kind push_to_start push_to_start = true
same_kind live_activity_update live_activity_update = true
same_kind _ _ = false

-- `PUSH_JOB_DEDUPE_ACTIVE_WHERE`
abbrev pub is_dedupe_active : JobStatus → Bool
is_dedupe_active JobStatus.failed = false
is_dedupe_active JobStatus.cancelled = false
is_dedupe_active _ = true

abbrev pub snd_of : ℕ × Delivery → Delivery
snd_of (j, d) = d

-- The deliveries of a job.
unfoldable pub deliveries_of : ℕ → List (ℕ × Delivery) → List Delivery
deliveries_of j rows = map snd_of (filter (λ r. r.0 == j) rows)

unfoldable pub has_deliveries : ℕ → List (ℕ × Delivery) → Bool
has_deliveries j rows = any (λ r. r.0 == j) rows

abbrev pub job_is : (PushJob → Bool) → ℕ → List PushJob → Bool
job_is p i jobs = any (λ j. j.id == i && p j) jobs

abbrev pub max_time : List (Option ℕ) → Option ℕ
max_time [] = none
max_time (none ∷ ts) = max_time ts
max_time (some t ∷ ts) = some (max t (get_or (max_time ts) t))

abbrev pub sent_after : ℕ → ℕ → Delivery → Bool
sent_after gap now d =
    is_sent d.status && elim d.sent_at [ none ↦ false | some t ↦ ltb now (t + gap) ]

-- When another of the user's sync triggers reached a device within the gap.
unfoldable pub last_sync_trigger_sent : ℕ → ℕ → PushJob → PushDb → Option ℕ
last_sync_trigger_sent gap now job db =
    let other = λ (j : PushJob).
      j.user_id == job.user_id
      && (str_eq j.scenario "sync_trigger"
          && (not (j.id == job.id) && is_dedupe_active j.status)) in
    max_time (
      map (λ r. r.1.sent_at)
        (filter (λ r. job_is other r.0 db.jobs && sent_after gap now r.1) db.deliveries))

-- The device has registered the activity, and its countdown has not passed: the end job waits.
unfoldable pub registered : (ℕ → String → String) → ℕ → ℕ → ℕ → String → PushDb → Bool
registered end_key now user device activity db =
    any
      (λ j.
        j.user_id == user
        && (str_eq j.dedupe_key (end_key device activity)
            && (is_pending_job j.status && ltb now j.fire_at)))
      db.jobs
