-- ===== src/Push/Materialize.antt =====
-- `_materialize` of server/push/pipeline.py: one delivery row for each token that a job may reach.
pub mod Reach
pub mod Unique
use tigerduck_backend.Prelude.{
  ℕ, suc, ◌+◌, ◌*◌, max, Bool, true, false, ◌&&◌, ◌||◌, not, Option, none, some, List, [], ◌∷◌,
  ◌++◌, map, filter, any, String, str_eq, leb, ltb, ◌==◌, if◌then◌else◌, is_some,
}
use tigerduck_backend.Push.Job.{
  JobStatus, DeliveryStatus, TokenKind, standard, push_to_start, live_activity_update, PushJob,
  Delivery, Token, is_active, is_pending,
}
use tigerduck_backend.Push.Deliver.{skipped}
use tigerduck_backend.Push.Hold.{settle, put_back}
use tigerduck_backend.Push.Presend.{is_reminder, is_activity_end, opt_eq, second}
use tigerduck_backend.Push.Versions.{is_apple_handheld, schedules_reminders_locally}
use tigerduck_backend.Push.Db.{UserDevice, PushDb, same_kind, has_deliveries}
use tigerduck_backend.Push.Countdown.{Starts, no_starts, countdown_starts}
use tigerduck_backend.Push.Guards.{
  Facts, Ending, to_delivery, cancels, fails_with, skips_pending, waits_until, Step, onward, ends,
  guards, end_job, is_activity, is_sync_trigger, course_channel, bulletin_channel,
}

pub record RoundSettings : Type 0 where
  pub countdown_window : ℕ
  pub presend_grace : ℕ

abbrev pub countdown_wait_until : ℕ
countdown_wait_until = 30 * second

abbrev pub countdown_wait : ℕ
countdown_wait = 60 * second

abbrev pub target_kind : PushJob → TokenKind
target_kind job =
    if is_activity job
    then if is_activity_end job then live_activity_update else push_to_start
    else standard

abbrev pub equals_if_some : Option ℕ → ℕ → Bool
equals_if_some none i = true
equals_if_some (some j) i = i == j

abbrev pub member_if_some : Option (List ℕ) → ℕ → Bool
member_if_some none i = true
member_if_some (some ids) i = any (λ j. j == i) ids

abbrev pub in_force : ℕ → Option ℕ → Bool
in_force now none = true
in_force now (some t) = ltb now t

abbrev pub implies : Bool → Bool → Bool
implies a b = not a || b

-- The WHERE of the token query, the joined device being that of the token.
unfoldable pub selects : ℕ → PushJob → Token → UserDevice → Bool
selects now job t d =
    (d.user_id == job.user_id && not (is_some d.deleted_at))
    && ((same_kind t.token_kind (target_kind job)
          && (is_active t.status && in_force now t.expires_at))
        && (equals_if_some job.device_id d.id
            && (implies (is_activity job && is_activity_end job)
                  (opt_eq job.payload.activity_id t.scope_key)
                && (implies (is_sync_trigger job) d.cloud_sync_enabled
                    && (implies (is_reminder job) (
                          d.cloud_sync_enabled
                          && (d.sync_assignment_reminders && is_apple_handheld d.platform))
                        && (implies (str_eq job.channel course_channel)
                              (is_apple_handheld d.platform)
                            && implies (str_eq job.channel bulletin_channel) (
                                d.bulletin_push_enabled
                                && member_if_some job.payload.target_device_ids d.id)))))))

-- A token that the query gives, with its id and device.
pub record Row : Type 0 where
  pub token_id : ℕ
  pub token : Token
  pub device : UserDevice

abbrev pub join_device : ℕ → PushJob → ℕ × Token → List UserDevice → List Row
join_device now job t [] = []
join_device now job t (d ∷ ds) =
    let rest = join_device now job t ds in
    if d.id == t.1.device_id && selects now job t.1 d
    then record { token_id = t.0; token = t.1; device = d } ∷ rest
    else rest

unfoldable pub token_rows : ℕ → PushJob → List (ℕ × Token) → List UserDevice → List Row
unfolding selects
token_rows now job [] devices = []
token_rows now job (t ∷ ts) devices = join_device now job t devices ++ token_rows now job ts devices

abbrev pub keeps_own_reminders : UserDevice → Bool
keeps_own_reminders d = schedules_reminders_locally d.platform d.app_version

abbrev pub on_list : List (ℕ × ℕ) → ℕ → Bool
on_list ds i = any (λ d. d.0 == i) ds

-- The rows that the loop leaves out before it looks at the countdown.
abbrev pub takes_push : PushJob → Row → Bool
takes_push job r =
    not (str_eq r.device.platform "macos") && not (is_reminder job && keeps_own_reminders r.device)

abbrev pub is_source : PushJob → ℕ → Bool
is_source job i =
    is_sync_trigger job && elim job.payload.source_device_id [ none ↦ false | some s ↦ s == i ]

-- The rows that get a delivery.
unfoldable pub chosen : PushJob → Starts → Row → Bool
chosen job s r =
    takes_push job r && (not (on_list s.covered r.device.id) && not (is_source job r.device.id))

abbrev pub is_left_out : PushJob → Starts → Row → Bool
is_left_out job s r = takes_push job r && on_list s.covered r.device.id

abbrev pub delivery_for : ℕ → ℕ → Row → Delivery
delivery_for i now r = record {
  id = i;
  device_id = some r.token.device_id;
  push_token_id = some r.token_id;
  provider = r.token.provider;
  token_kind = r.token.token_kind;
  token_hash = r.token.token_hash;
  scope_key = r.token.scope_key;
  status = DeliveryStatus.pending;
  attempts = 0;
  max_attempts = 3;
  provider_message_id = none;
  failure_code = none;
  failure_message = none;
  sent_at = none;
  next_retry_at = now;
}

-- The key of the unique index, within a job.
abbrev pub same_key : Delivery → Delivery → Bool
same_key a b =
    str_eq a.token_hash b.token_hash
    && (same_kind a.token_kind b.token_kind && str_eq a.scope_key b.scope_key)

abbrev pub has_key : ℕ → Delivery → List (ℕ × Delivery) → Bool
has_key j d rows = any (λ r. r.0 == j && same_key r.1 d) rows

-- One row of the INSERT with ON CONFLICT DO NOTHING: the rows and the next id after it.
abbrev pub insert_row : ℕ → ℕ → Row → List (ℕ × Delivery) × ℕ → List (ℕ × Delivery) × ℕ
insert_row now j r (rows, next) =
    let d = delivery_for next now r in
    ((if has_key j d rows then rows else rows ++ (j, d) ∷ []), suc next)

unfoldable pub insert_rows : ℕ → ℕ → List Row → List (ℕ × Delivery) × ℕ → List (ℕ × Delivery) × ℕ
insert_rows now j [] acc = acc
insert_rows now j (r ∷ rs) acc = insert_rows now j rs (insert_row now j r acc)

-- What `_materialize` returns, with the job and the tables.
pub record Materialized : Type 0 where
  pub deliver : Bool
  pub job : PushJob
  pub db : PushDb

abbrev pub skip_pending : String → ℕ → List (ℕ × Delivery) → List (ℕ × Delivery)
skip_pending code j rows =
    map (λ r. if r.0 == j && is_pending r.1.status then (r.0, skipped code r.1) else r) rows

unfoldable pub end_round : ℕ → PushJob → PushDb → Ending → Materialized
end_round now job db to_delivery = record { deliver = true; job = job; db = db }
end_round now job db (skips_pending error) = record {
  deliver = false;
  job = end_job now (skips_pending error) job;
  db = record db { deliveries = skip_pending error job.id db.deliveries };
}
end_round now job db e = record { deliver = false; job = end_job now e job; db = db }

abbrev pub latest : List (ℕ × ℕ) → ℕ
latest [] = 0
latest (d ∷ ds) = max d.1 (latest ds)

-- Close to the countdown's start, not waited for yet, and with time for the round after the wait.
unfoldable pub waits_for_countdown : RoundSettings → ℕ → PushJob → Starts → Bool
waits_for_countdown s now job starts =
    any (λ d. true) starts.waiting
    && (ltb now (latest starts.waiting + countdown_wait_until)
        && (ltb job.available_at (job.fire_at + countdown_wait)
            && ltb (now + 2 * countdown_wait) (job.fire_at + s.presend_grace)))

-- The countdown starts that concern a reminder's rows.
abbrev pub starts_for : Facts → RoundSettings → ℕ → PushJob → PushDb → List Row → Starts
starts_for f s now job db rows =
    if is_reminder job
    then countdown_starts f.keys s.countdown_window now
        (map (λ r. r.device.id) (filter (λ r. not (keeps_own_reminders r.device)) rows)) job db
    else no_starts

-- The rows are known, and the starts for them.
unfoldable pub fill : RoundSettings → ℕ → PushJob → PushDb → List Row → Starts → Materialized
fill s now job db rows starts =
    let first_round = not (has_deliveries job.id db.deliveries) in
    let values = filter (chosen job starts) rows in
    let (deliveries, next) = insert_rows now job.id values (db.deliveries, db.next_delivery) in
    if first_round && waits_for_countdown s now job starts
    then record { deliver = false; job = put_back (now + countdown_wait) job; db = db }
    else if any (λ r. true) values
    then record {
      deliver = true;
      job = job;
      db = record db { deliveries = deliveries; next_delivery = next };
    }
    else if first_round && any (is_left_out job starts) rows
    then record {
      deliver = false;
      job = settle JobStatus.cancelled "countdown_start_sent" now job;
      db = db;
    }
    else record { deliver = true; job = job; db = db }

unfoldable pub reach : Facts → RoundSettings → ℕ → PushJob → PushDb → Materialized
reach f s now job db =
    let rows = token_rows now job db.tokens db.devices in
    fill s now job db rows (starts_for f s now job db rows)

abbrev pub materialize_step : Facts → RoundSettings → ℕ → PushDb → PushJob → Step → Materialized
materialize_step f s now db job (ends e) = end_round now job db e
materialize_step f s now db job (onward next) = reach f s now next db

unfoldable pub materialize : Facts → RoundSettings → ℕ → PushDb → PushJob → Materialized
materialize f s now db job = materialize_step f s now db job (guards f now db job)
