-- ===== src/Push/Countdown.antt =====
-- `_countdown_starts` of server/push/pipeline.py: the devices that the countdown start of a
-- reminder's assignment has reached. The key shapes of server/push/dedupe.py are parameters.
use tigerduck_backend.Prelude.{
  ℕ, ◌+◌, Bool, false, ◌&&◌, Option, none, some, List, [], ◌∷◌, filter, any, String, str_eq, leb,
  ◌==◌, if◌then◌else◌, get_last?,
}
use tigerduck_backend.Push.Job.{PushJob, Delivery, is_sent, is_processing}
use tigerduck_backend.Push.Presend.{assignment_id}
use tigerduck_backend.Push.Db.{PushDb, is_dedupe_active, job_is, registered}

pub record Keys : Type 0 where
  -- `schedule_prefix`
  pub schedule_prefix : ℕ → String
  -- `schedule_key` of an assignment's countdown, by device and assignment
  pub start_key : ℕ → ℕ → String
  -- `activity_end_key`
  pub end_key : ℕ → String → String
  -- `activity_id` of an assignment's countdown
  pub countdown_activity : ℕ → String

-- The device's start of the assignment went out, or is still retrying.
abbrev pub is_start : Keys → ℕ → PushJob → ℕ → PushJob → Bool
is_start keys i job device j =
    j.user_id == job.user_id
    && (str_eq j.dedupe_key (keys.start_key device i) && is_dedupe_active j.status)

abbrev pub reached : ℕ → ℕ → Delivery → Bool
reached window fire_at d =
    is_sent d.status && elim d.sent_at [ none ↦ false | some t ↦ leb fire_at (t + window) ]

abbrev pub to_device : ℕ → Delivery → Bool
to_device device d = elim d.device_id [ none ↦ false | some i ↦ i == device ]

abbrev pub sent_time : Option (ℕ × Delivery) → Option ℕ
sent_time none = none
sent_time (some r) = r.1.sent_at

-- When a start of one of the devices reached `device`: the last row that says so.
unfoldable pub start_sent : Keys → ℕ → ℕ → List ℕ → PushJob → PushDb → ℕ → Option ℕ
start_sent keys window i devices job db device = sent_time (
    get_last? (
      filter
        (λ r.
          to_device device r.1
          && (reached window job.fire_at r.1
              && job_is (λ j. any (λ d. is_start keys i job d j) devices) r.0 db.jobs))
        db.deliveries))

-- A start that another tick is still delivering.
unfoldable pub in_flight : Keys → ℕ → ℕ → PushJob → PushDb → ℕ → Bool
in_flight keys window i job db device =
    any
      (λ j.
        j.user_id == job.user_id
        && (str_eq j.dedupe_key (keys.start_key device i)
            && (is_processing j.status && leb job.fire_at (j.fire_at + window))))
      db.jobs

-- A device the start went out to, with the time: its activity is registered, or not yet.
pub record Starts : Type 0 where
  pub covered : List (ℕ × ℕ)
  pub waiting : List (ℕ × ℕ)

abbrev pub no_starts : Starts
no_starts = record { covered = []; waiting = [] }

abbrev pub add_start : Bool → ℕ × ℕ → Starts → Starts
add_start registered_there d s =
    if registered_there
    then record s { covered = d ∷ s.covered }
    else record s { waiting = d ∷ s.waiting }

-- The starts of one device, before those of the others.
abbrev pub start_of : Keys → ℕ → ℕ → ℕ → List ℕ → PushJob → PushDb → ℕ → Starts → Starts
start_of keys window now i devices job db device rest =
    elim (start_sent keys window i devices job db device) [
      | some t ↦
          add_start (registered keys.end_key now job.user_id device (keys.countdown_activity i) db)
            (device, t) rest
      | none ↦
          if in_flight keys window i job db device
          then record rest { waiting = (device, now) ∷ rest.waiting }
          else rest
    ]

abbrev pub starts_of : Keys → ℕ → ℕ → ℕ → List ℕ → PushJob → PushDb → List ℕ → Starts
starts_of keys window now i devices job db [] = no_starts
starts_of keys window now i devices job db (d ∷ ds) =
    start_of keys window now i devices job db d (starts_of keys window now i devices job db ds)

unfoldable pub countdown_starts : Keys → ℕ → ℕ → List ℕ → PushJob → PushDb → Starts
unfolding start_sent in_flight
countdown_starts keys window now devices job db =
    if window == 0 then no_starts else elim (assignment_id job) [
      | none ↦ no_starts
      | some i ↦ starts_of keys window now i devices job db devices
    ]
