-- ===== src/Auth/Use/Logout.antt =====
-- What a logout leaves of the session's tokens.
use tigerduck_backend.Prelude.{
  ℕ, ◌≡◌, ◌∙◌, refl, ap, arith, true, false, ◌&&◌, Option, none, some, List, String, if◌then◌else◌,
}
use tigerduck_backend.Auth.Session.{AuthSession, logged_out, Db, is_live, get, has_id}
use tigerduck_backend.Auth.Contest.Ring.{get-id}
use tigerduck_backend.Auth.Refresh.{AuthSettings, refresh_session, may_rotate_again, get_successor}
use tigerduck_backend.Auth.Refresh.Safety.{is_replied, refresh_session-is_replied}
use tigerduck_backend.Auth.Refresh.Retry.{get-map}
use tigerduck_backend.Auth.Use.{logout}

abbrev pub logged_out_at : ℕ → AuthSession → AuthSession
logged_out_at now s = record s {
  revoked_at = some now;
  revoked_reason = some logged_out;
  last_used_at = now;
}

never_again :
    (s : AuthSession) (successor : Option AuthSession) (now : ℕ)
    → may_rotate_again (logged_out_at now s) successor ≡ false
never_again s none now = refl
never_again s (some t) now = refl

-- A live session that logs out is revoked for it, and no refresh of its token is answered from then
-- on, whatever happens to the other sessions.
pub logout-refresh_refused :
    (now i : ℕ) (rows : List AuthSession) (s : AuthSession) (c : AuthSettings) (later : ℕ)
    (token : String) (db : Db)
    → get i rows ≡ some s
    → is_live s ≡ true
    → (get i (logout now i rows) ≡ some (logged_out_at now s))
      × (is_replied (refresh_session c later token (logged_out_at now s) db) ≡ false)
unfolding logout
logout-refresh_refused now i rows s c later token db e live =
    let g = λ (r : AuthSession). if has_id i r && is_live r then logged_out_at now r else r in
    let mine : (has_id i s && is_live s) ≡ true = ground (arith, get-id i rows s e) in
    let same : g s ≡ logged_out_at now s = rw mine refl in
    (
      get-map i g rows s (λ r. ground arith) e ∙ ap some same,
      refresh_session-is_replied c later token (logged_out_at now s) db
          ∙ ground (arith, never_again s (get_successor (logged_out_at now s) db.sessions) now),
    )
