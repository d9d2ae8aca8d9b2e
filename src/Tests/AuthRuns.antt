-- ===== src/Tests/AuthRuns.antt =====
-- server/auth: a token whose reply was lost, its second rotation, and the use that ends it.
use native.Mathlib.Omega.{arith}
use tigerduck_backend.Prelude.{◌↔◌, ◌≡◌, refl, true, false, none, some, [], ◌∷◌, All}
use tigerduck_backend.Prelude.Sorting.{order_by}
use tigerduck_backend.Auth.Session.{AuthSession, get, rotated, Db}
use tigerduck_backend.Auth.Contest.{linked_ids}
use tigerduck_backend.Auth.Contest.Ring.{IsSound}
use tigerduck_backend.Auth.Refresh.{
  AuthSettings, refresh_session, refresh, rotate, rotate_again, cut_ring, handle_revoked_reuse,
  db_of,
}
use tigerduck_backend.Auth.Refresh.Safety.{is_replied, MayReply, refresh_session_replies}
use tigerduck_backend.Auth.Refresh.Soundness.{IsSoundDb, refresh_session-IsSound}
use tigerduck_backend.Auth.Refresh.Retry.{refresh_session-retry}
use tigerduck_backend.Auth.Use.{Claims, admitted, require_user, record_first_use, logout}
use tigerduck_backend.Auth.Use.Logout.{logged_out_at, logout-refresh_refused}
use tigerduck_backend.Auth.Use.Settled.{WasUsed, require_user-WasUsed}
use tigerduck_backend.Auth.Use.Later.{at_once, followed, refreshes, require_user-reuse_refused}

abbrev settings : AuthSettings
settings = record {
  configured = true;
  hash_refresh_token = λ t. t;
  sign = λ p. "jwt";
  refresh_token_ttl = 1000;
  access_token_ttl = 10;
  reuse_grace = 30;
}

abbrev fresh : AuthSession
fresh = record {
  id = 1;
  user_id = 7;
  device_id = none;
  refresh_token_hash = "new";
  expires_at = 1000;
  revoked_at = none;
  revoked_reason = none;
  replaced_by_session_id = none;
  reuse_detected_at = none;
  last_used_at = 5;
  first_used_at = none;
  rerotated_at = none;
}

abbrev replaced : AuthSession
replaced = record fresh {
  id = 0;
  refresh_token_hash = "old";
  revoked_at = some 5;
  revoked_reason = some rotated;
  replaced_by_session_id = some 1;
  first_used_at = some 5;
}

abbrev db : Db
db = record { sessions = fresh ∷ replaced ∷ []; next_id = 2; user_active = λ u. true }

-- The client never got its new token: it gets another, and two live sessions stand in a ring.
abbrev recovered : Db
recovered = db_of (refresh settings 8 "newer" "old" db)

ring_of_two : linked_ids recovered.sessions 2 ≡ 1 ∷ 2 ∷ []
unfolding refresh refresh_session handle_revoked_reuse rotate_again rotate cut_ring linked_ids
    order_by
ring_of_two = refl

db-IsSoundDb : IsSoundDb db
db-IsSoundDb = record {
  distinct = ((ground arith, tt), (tt, tt));
  rows = (ground arith, (ground arith, tt));
}

refresh_session_replies_example :
    (is_replied (refresh_session settings 8 "newer" replaced db) ≡ true) ↔ MayReply 8 replaced db
refresh_session_replies_example = refresh_session_replies settings 8 "newer" replaced db

refresh_session-IsSound_example :
    let after = db_of (refresh_session settings 8 "newer" replaced db) in
    All (IsSound after.next_id) after.sessions
refresh_session-IsSound_example =
    refresh_session-IsSound settings 8 "newer" replaced db db-IsSoundDb

abbrev claims : Claims
claims = record { user_id = 7; session_id = 1; device_id = none }

abbrev used_db : Db
used_db = record db { sessions = record fresh { first_used_at = some 9 } ∷ replaced ∷ [] }

let_in : require_user 9 (some claims) db ≡ admitted claims used_db
unfolding require_user record_first_use
let_in = refl

require_user-WasUsed_example : All (λ r. IsSound used_db.next_id r × WasUsed 1 r) used_db.sessions
require_user-WasUsed_example = require_user-WasUsed 9 claims claims db used_db db-IsSoundDb let_in

-- A refresh of the used session comes in between.
abbrev rotated_db : Db
rotated_db =
    db_of (refresh_session settings 11 "next" (record fresh { first_used_at = some 9 }) used_db)

require_user-reuse_refused_example :
    is_replied (refresh_session settings 12 "newer" replaced rotated_db) ≡ false
require_user-reuse_refused_example =
    require_user-reuse_refused settings 9 12 "newer" claims claims db used_db rotated_db replaced
      db-IsSoundDb let_in
      (followed at_once (refreshes settings 11 "next" (record fresh { first_used_at = some 9 })))
      refl refl

abbrev signed_in : AuthSession
signed_in = record fresh { id = 0; refresh_token_hash = "old" }

abbrev one_session : Db
one_session = record { sessions = signed_in ∷ []; next_id = 1; user_active = λ u. true }

refresh_session-retry_example :
    let db' = db_of (refresh_session settings 5 "new" signed_in one_session) in
    (old' : AuthSession) × (get 0 db'.sessions ≡ some old')
    × (is_replied (refresh_session settings 8 "newer" old' db') ≡ true)
refresh_session-retry_example =
    refresh_session-retry settings 5 8 "new" "newer" signed_in one_session refl (omega arith) refl
      refl (omega arith) (omega arith)

logout-refresh_refused_example :
    (get 0 (logout 6 0 one_session.sessions) ≡ some (logged_out_at 6 signed_in))
    × (is_replied (refresh_session settings 8 "newer" (logged_out_at 6 signed_in) one_session)
        ≡ false)
logout-refresh_refused_example =
    logout-refresh_refused 6 0 one_session.sessions signed_in settings 8 "newer" one_session refl
      refl
