-- ===== src/Tests/MaterializeRuns.antt =====
-- server/push/pipeline.py: the work on one job, from its claim to its deliveries.
use tigerduck_backend.Prelude.{◌≡◌, refl, true, false, none, [], ◌∷◌, length}
use tigerduck_backend.Push.Db.{UserDevice, PushDb, has_deliveries}
use tigerduck_backend.Push.Countdown.{Keys}
use tigerduck_backend.Push.Guards.{Facts, check_failed}
use tigerduck_backend.Push.Materialize.{
  RoundSettings, reach, materialize, fill, waits_for_countdown, token_rows, chosen, insert_rows,
}
use tigerduck_backend.Push.Materialize.Reach.{AddsTargets, reach-AddsTargets}
use tigerduck_backend.Push.Materialize.Unique.{DistinctRows, materialize-DistinctRows}
use tigerduck_backend.Push.Process.{ProcessSettings, Visit, process_job}
use tigerduck_backend.Push.Process.Released.{FreeAt, process_job-FreeAt}
use tigerduck_backend.Tests.DeliverRuns.{job, token, outside}
use tigerduck_backend.Tests.ClaimRuns.{settings}
use tigerduck_backend.Tests.PresendRuns.{nothing_ignored, hold_settings}

abbrev keys : Keys
keys = record {
  schedule_prefix = λ d. "schedule:";
  start_key = λ d a. "start";
  end_key = λ d a. "end";
  countdown_activity = λ a. "countdown";
}

abbrev facts : Facts
facts = record {
  announced_at = none;
  send_after = λ t. none;
  class_day = 0;
  recheck_class = λ j. check_failed;
  keys = keys;
}

abbrev round_settings : RoundSettings
round_settings = record { countdown_window = 0; presend_grace = 60 }

abbrev phone : UserDevice
phone = record {
  id = 1;
  user_id = 1;
  deleted_at = none;
  platform = "ios";
  app_version = none;
  cloud_sync_enabled = true;
  sync_assignment_reminders = true;
  bulletin_push_enabled = true;
}

abbrev mac : UserDevice
mac = record phone { id = 2; platform = "macos" }

abbrev db : PushDb
db = record {
  jobs = job ∷ [];
  deliveries = [];
  tokens = (11, token 1) ∷ (12, token 2) ∷ [];
  devices = phone ∷ mac ∷ [];
  next_delivery = 1;
  terms = [];
  holidays = [];
  holiday_overrides = [];
}

-- The phone gets a delivery, the Mac none.
one_delivery : length (reach facts round_settings 5 job db).db.deliveries ≡ 1
unfolding reach fill has_deliveries waits_for_countdown token_rows chosen insert_rows
one_delivery = refl

reach-AddsTargets_example : AddsTargets 5 job db (reach facts round_settings 5 job db).db.deliveries
reach-AddsTargets_example = reach-AddsTargets facts round_settings 5 job db

materialize-DistinctRows_example :
    DistinctRows (materialize facts round_settings 5 db job).db.deliveries
materialize-DistinctRows_example = materialize-DistinctRows facts round_settings 5 db job tt

abbrev visit : Visit
visit = record {
  check = none;
  table = [];
  ignored = nothing_ignored;
  facts = facts;
  out = outside;
  hold_time = 5;
  round_time = 5;
  deliver_time = 5;
  crash_time = 5;
  raises = false;
  record_submitted = λ c d. d;
}

abbrev process_settings : ProcessSettings
process_settings = record { claim = settings; hold = hold_settings; round = round_settings }

process_job-FreeAt_example : FreeAt 1 (process_job "w" process_settings visit 1 db)
process_job-FreeAt_example = process_job-FreeAt "w" process_settings visit db 1 job refl refl
