-- ===== src/Auth/Session.antt =====
-- The rows of auth_sessions (server/auth/models/device.py) and their updates. Times and ids are
-- numbers; a row's id is its place in the order of insertion.
use tigerduck_backend.Prelude.{
  ℕ, Bool, true, false, not, Option, some, List, map, String, ◌==◌, find?, is_some, if◌then◌else◌,
}

pub data RevokedReason : Type 0 where
  logged_out rotated superseded reuse_detected expired admin_revoked credential_revoked :
      RevokedReason

pub record AuthSession : Type 0 where
  pub id : ℕ
  pub user_id : ℕ
  pub device_id : Option ℕ
  pub refresh_token_hash : String
  pub expires_at : ℕ
  pub revoked_at : Option ℕ
  pub revoked_reason : Option RevokedReason
  pub replaced_by_session_id : Option ℕ
  pub reuse_detected_at : Option ℕ
  pub last_used_at : ℕ
  pub first_used_at : Option ℕ
  pub rerotated_at : Option ℕ

-- The sessions, newest insertion first, the sequence behind their ids, and the users that are active.
pub record Db : Type 0 where
  pub sessions : List AuthSession
  pub next_id : ℕ
  pub user_active : ℕ → Bool

abbrev pub is_live : AuthSession → Bool
is_live s = not (is_some s.revoked_at)

abbrev pub is_rotated : Option RevokedReason → Bool
is_rotated (some rotated) = true
is_rotated _ = false

-- `_REPLACED_REASONS`
abbrev pub is_replaced : Option RevokedReason → Bool
is_replaced (some rotated) = true
is_replaced (some superseded) = true
is_replaced _ = false

-- `session.get(AuthSession, id)`
abbrev pub get : ℕ → List AuthSession → Option AuthSession
get i rows = find? (λ s. s.id == i) rows

-- A change of the rows that pass a test.
abbrev pub update :
    (AuthSession → Bool) → (AuthSession → AuthSession) → List AuthSession → List AuthSession
update p f rows = map (λ s. if p s then f s else s) rows

abbrev pub has_id : ℕ → AuthSession → Bool
has_id i s = s.id == i
