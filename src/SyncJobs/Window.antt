-- ===== src/SyncJobs/Window.antt =====
-- The maintenance windows: `_check_maintenance_window` and `is_moodle_available` of
-- server/syncjobs/availability.py, and `_in_maintenance_window` of server/syncjobs/executor.py.
-- A time counts the seconds of the zone's clock, which has no summer time, from a midnight.
pub mod Resume
use tigerduck_backend.Prelude.{
  ℕ, ◌+◌, ◌-◌, ◌*◌, ◌/◌, ◌%◌, Bool, true, false, ◌&&◌, ◌||◌, Option, none, some, leb, ltb,
  if◌then◌else◌,
}

abbrev pub day : ℕ
day = 86400

-- Whether a time of day lies in the window, which may wrap past midnight.
unfoldable pub in_window : ℕ → ℕ → ℕ → Bool
in_window start end_at t =
    if leb start end_at then leb start t && ltb t end_at else leb start t || ltb t end_at

-- `replace(second=0, microsecond=0)` drops the seconds of the window's end.
abbrev pub whole_minutes : ℕ → ℕ
whole_minutes t = t / 60 * 60

-- `start` and `end_at` are seconds of the day; the result is when the window ends.
unfoldable pub check_maintenance_window : ℕ → ℕ → ℕ → Option ℕ
unfolding in_window
check_maintenance_window start end_at now =
    let end_dt = now - now % day + whole_minutes end_at in
    if in_window start end_at (now % day)
    then some (if leb end_dt now then end_dt + day else end_dt)
    else none

-- The time that an operator suspended Moodle until.
abbrev pub manual_suspend_until : ℕ → Option ℕ → Option ℕ
manual_suspend_until now none = none
manual_suspend_until now (some until) = if ltb now until then some until else none

abbrev pub or_else : Option ℕ → Option ℕ → Option ℕ
or_else none o = o
or_else (some t) o = some t

-- When Moodle is back; `none` while it is there. Settings that are no times have no window.
unfoldable pub is_moodle_available : Option ℕ → Option (ℕ × ℕ) → ℕ → Option ℕ
unfolding check_maintenance_window
is_moodle_available suspended window now =
    or_else (manual_suspend_until now suspended) (elim window [
      | none ↦ none
      | some (start, end_at) ↦ check_maintenance_window start end_at now
    ])

-- Of the worker's own window, with minutes of the day for `start` and `end_at`.
unfoldable pub in_maintenance_window : Option (ℕ × ℕ) → ℕ → Bool
unfolding in_window
in_maintenance_window none now = false
in_maintenance_window (some (start, end_at)) now = in_window start end_at (now % day / 60)
