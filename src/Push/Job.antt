-- ===== src/Push/Job.antt =====
-- server/auth/models/push.py: jobs, deliveries and tokens of the push pipeline, with the columns
-- that the pipeline reads or writes. Ids and times are numbers.
use tigerduck_backend.Prelude.{ℕ, Bool, true, false, Option, List, String}

pub data JobStatus : Type 0 where
  pending processing sent partial_failed failed cancelled : JobStatus

pub data DeliveryStatus : Type 0 where
  pending sent failed skipped : DeliveryStatus

pub data TokenStatus : Type 0 where
  active invalidated expired : TokenStatus

pub data Provider : Type 0 where
  apns fcm : Provider

pub data TokenKind : Type 0 where
  standard push_to_start live_activity_update : TokenKind

-- The keys of a job's JSON payload that the pipeline itself reads.
pub record Payload : Type 0 where
  pub title : Option String
  pub body : Option String
  pub kind : Option String
  pub reason : Option String
  pub source : Option String
  pub activity_id : Option String
  pub source_device_id : Option ℕ
  pub target_device_ids : Option (List ℕ)
  -- in seconds, as `_to_unix_seconds` reads it
  pub countdown_target : Option ℕ
  pub moodle_assignment_id : Option ℕ
  pub due_epoch : Option ℕ
  pub source_id : Option String

pub record PushJob : Type 0 where
  pub id : ℕ
  pub user_id : ℕ
  pub device_id : Option ℕ
  pub channel : String
  pub scenario : String
  pub fire_at : ℕ
  pub available_at : ℕ
  pub priority : ℕ
  pub dedupe_key : String
  pub payload : Payload
  pub status : JobStatus
  pub attempts : ℕ
  pub max_attempts : ℕ
  pub locked_at : Option ℕ
  pub locked_by : Option String
  pub last_error : Option String
  pub sent_at : Option ℕ
  pub cancelled_at : Option ℕ

pub record Delivery : Type 0 where
  pub id : ℕ
  pub device_id : Option ℕ
  pub push_token_id : Option ℕ
  pub provider : Provider
  pub token_kind : TokenKind
  pub token_hash : String
  pub scope_key : String
  pub status : DeliveryStatus
  pub attempts : ℕ
  pub max_attempts : ℕ
  pub provider_message_id : Option String
  pub failure_code : Option String
  pub failure_message : Option String
  pub sent_at : Option ℕ
  pub next_retry_at : ℕ

pub record Token : Type 0 where
  pub device_id : ℕ
  pub provider : Provider
  pub token_kind : TokenKind
  pub token_hash : String
  pub scope_key : String
  pub status : TokenStatus
  pub expires_at : Option ℕ
  pub last_success_at : Option ℕ
  pub last_failure_at : Option ℕ
  pub last_failure_code : Option String

abbrev pub is_pending : DeliveryStatus → Bool
is_pending pending = true
is_pending _ = false

abbrev pub is_sent : DeliveryStatus → Bool
is_sent sent = true
is_sent _ = false

abbrev pub is_failed : DeliveryStatus → Bool
is_failed failed = true
is_failed _ = false

abbrev pub is_active : TokenStatus → Bool
is_active active = true
is_active _ = false

abbrev pub is_processing : JobStatus → Bool
is_processing processing = true
is_processing _ = false

abbrev pub is_pending_job : JobStatus → Bool
is_pending_job pending = true
is_pending_job _ = false

-- Neither waiting for a round nor in one.
abbrev pub is_settled : JobStatus → Bool
is_settled pending = false
is_settled processing = false
is_settled _ = true
