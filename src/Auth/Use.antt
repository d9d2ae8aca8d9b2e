-- ===== src/Auth/Use.antt =====
-- `require_user` and the first use of a session (server/auth/dependencies.py), and `logout`
-- (server/auth/service.py). The claims of the access token are those its signature vouches for.
-- Each call is one transaction: the second look at a session, under its lock, sees what the first did.
pub mod Settled
pub mod Logout
pub mod Later
use tigerduck_backend.Prelude.{
  ℕ, Bool, true, false, ◌&&◌, not, Option, none, some, List, [], ◌∷◌, map, String, ◌==◌, is_some,
  if◌then◌else◌,
}
use tigerduck_backend.Auth.Session.{AuthSession, logged_out, Db, is_live, get, update, has_id}
use tigerduck_backend.Auth.Contest.{settle_contest}

pub record Claims : Type 0 where
  pub user_id : ℕ
  pub session_id : ℕ
  pub device_id : Option ℕ

pub data Admission : Type 0 where
  admitted : Claims → Db → Admission
  rejected : String → Db → Admission

abbrev pub mark_first_use : ℕ → AuthSession → AuthSession
mark_first_use now s = if is_some s.first_used_at then s else record s { first_used_at = some now }

-- The session is live, and its locks are held: the contest is settled where there is one.
unfoldable pub record_first_use : ℕ → AuthSession → List AuthSession → List AuthSession
record_first_use now s rows =
    update (has_id s.id) (mark_first_use now)
      (if is_some s.replaced_by_session_id then settle_contest s.id now rows else rows)

-- What follows the lookup of the session that the claims name.
unfoldable pub admit_session : ℕ → Claims → Db → Option AuthSession → Admission
admit_session now claims db none = rejected "session_revoked" db
admit_session now claims db (some s) =
    if is_some s.revoked_at
    then rejected "session_revoked" db
    else if not (s.user_id == claims.user_id)
    then rejected "session_user_mismatch" db
    else if not (db.user_active claims.user_id)
    then rejected "session_revoked" db
    else if is_some s.first_used_at
    then admitted claims db
    else admitted claims (record db { sessions = record_first_use now s db.sessions })

-- Without its device part, `_bring_back`.
unfoldable pub require_user : ℕ → Option Claims → Db → Admission
unfolding admit_session
require_user now none db = rejected "invalid_access_token" db
require_user now (some claims) db = admit_session now claims db (get claims.session_id db.sessions)

unfoldable pub logout : ℕ → ℕ → List AuthSession → List AuthSession
logout now i rows =
    update (λ s. has_id i s && is_live s)
      (λ s. record s {
        revoked_at = some now;
        revoked_reason = some logged_out;
        last_used_at = now;
      })
      rows
