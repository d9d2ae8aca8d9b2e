-- ===== src/Tests/DeliverRuns.antt =====
-- server/push/pipeline.py: two phones, one of which the provider has dropped.
use native.Mathlib.Omega.{arith}
use tigerduck_backend.Prelude.{
  ℕ, ◌≡◌, ◌⊎◌, refl, true, false, none, some, List, [], ◌∷◌, if◌then◌else◌, ◌==◌,
}
use tigerduck_backend.Push.Job.{
  JobStatus, DeliveryStatus, Payload, PushJob, Delivery, Token, standard, active, apns,
}
use tigerduck_backend.Push.Provider.{is_unregistered}
use tigerduck_backend.Push.Deliver.{Outside, Tokens, send_one, attempt_due, deliver_round}
use tigerduck_backend.Push.Deliver.Rounds.{
  IsFinished, IsWaiting, run_rounds, run_rounds-IsFinished, deliver_round_outcome,
}
use tigerduck_backend.Push.Deliver.Done.{KeepsDone, deliver_round-KeepsDone}

abbrev no_payload : Payload
no_payload = record {
  title = some "t";
  body = some "b";
  kind = none;
  reason = none;
  source = none;
  activity_id = none;
  source_device_id = none;
  target_device_ids = none;
  countdown_target = none;
  moodle_assignment_id = none;
  due_epoch = none;
  source_id = none;
}

abbrev pub job : PushJob
job = record {
  id = 1;
  user_id = 1;
  device_id = none;
  channel = "system";
  scenario = "sync_trigger";
  fire_at = 0;
  available_at = 0;
  priority = 100;
  dedupe_key = "sync";
  payload = no_payload;
  status = JobStatus.processing;
  attempts = 0;
  max_attempts = 3;
  locked_at = some 0;
  locked_by = some "w";
  last_error = none;
  sent_at = none;
  cancelled_at = none;
}

abbrev pub row : ℕ → Delivery
row i = record {
  id = i;
  device_id = some i;
  push_token_id = some i;
  provider = apns;
  token_kind = standard;
  token_hash = "h";
  scope_key = "";
  status = DeliveryStatus.pending;
  attempts = 0;
  max_attempts = 3;
  provider_message_id = none;
  failure_code = none;
  failure_message = none;
  sent_at = none;
  next_retry_at = 0;
}

abbrev pub token : ℕ → Token
token i = record {
  device_id = i;
  provider = apns;
  token_kind = standard;
  token_hash = "h";
  scope_key = "";
  status = active;
  expires_at = none;
  last_success_at = none;
  last_failure_at = none;
  last_failure_code = none;
}

-- The second phone's token is answered with 410.
abbrev pub outside : Outside
outside = record {
  localized = λ j d. j.payload;
  send = λ now j p d t. (
    some (record {
      success = if t.device_id == 2 then false else true;
      status = if t.device_id == 2 then "410" else "200";
      description = none;
      notification_id = none;
    }),
    "",
  );
  retry_round_delay = 60;
}

abbrev pub rows : List Delivery
rows = row 1 ∷ row 2 ∷ []

abbrev pub tokens : Tokens
tokens i = some (token i)

-- One phone got it, the other's token is gone.
partly_sent : (deliver_round outside 5 job rows tokens).0.status ≡ JobStatus.partial_failed
unfolding deliver_round send_one is_unregistered
partly_sent = refl

run_rounds-IsFinished_example :
    let r = run_rounds outside "w" (λ t. t) 3 5 job rows tokens in IsFinished r.0 r.1
run_rounds-IsFinished_example =
    run_rounds-IsFinished outside "w" (λ t. t) (λ t. omega arith) 3 5 job rows tokens (omega arith)
      (omega arith) (omega arith)

deliver_round_outcome_example :
    let r = deliver_round outside 5 job rows tokens in
    (IsFinished r.0 r.1 ⊎ IsWaiting 60 5 (attempt_due outside 5 job rows tokens).0 job r.0 r.1)
    × (r.0.locked_by ≡ none)
    × (r.0.locked_at ≡ none)
deliver_round_outcome_example = deliver_round_outcome outside 5 job rows tokens

deliver_round-KeepsDone_example : KeepsDone rows (deliver_round outside 5 job rows tokens).1
deliver_round-KeepsDone_example = deliver_round-KeepsDone outside 5 job rows tokens
