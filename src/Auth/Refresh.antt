-- ===== src/Auth/Refresh.antt =====
-- `refresh` of server/auth/service.py and what it calls. The random token, the HMAC, the signature
-- and the settings are parameters; each call is one transaction, under the locks it takes first.
pub mod Safety
pub mod Rotations
pub mod Soundness
pub mod Retry
use tigerduck_backend.Prelude.{
  ℕ, suc, ◌+◌, ◌-◌, ◌≡◌, Bool, true, false, ◌&&◌, ◌||◌, not, Option, none, some, List, [], ◌∷◌,
  ◌++◌, map, String, str_eq, leb, ltb, ◌==◌, filter, find?, drop, take, length, is_some, get_or,
  if◌then◌else◌,
}
use tigerduck_backend.Prelude.Sorting.{order_by}
use tigerduck_backend.Auth.Session.{
  AuthSession, RevokedReason, rotated, expired, Db, is_live, is_rotated, is_replaced, get, update,
  has_id,
}
use tigerduck_backend.Auth.Contest.{linked_ids, supersede, settle_contest}

pub record AccessPayload : Type 0 where
  pub sub : ℕ
  pub sid : ℕ
  pub did : Option ℕ
  pub iat : ℕ
  pub exp : ℕ

pub record AuthSettings : Type 0 where
  -- the two secrets are set
  pub configured : Bool
  pub hash_refresh_token : String → String
  pub sign : AccessPayload → String
  pub refresh_token_ttl : ℕ
  pub access_token_ttl : ℕ
  pub reuse_grace : ℕ

pub record RefreshResult : Type 0 where
  pub access_token : String
  pub refresh_token : String
  pub expires_in : ℕ

-- What is committed, with the reply or with the detail of the HTTP error.
pub data Outcome : Type 0 where
  replied : RefreshResult → Db → Outcome
  refused : String → Db → Outcome

abbrev pub issue_access_token : AuthSettings → AuthSession → ℕ → ℕ → String
issue_access_token c s sid now = c.sign (record {
  sub = s.user_id;
  sid = sid;
  did = s.device_id;
  iat = now;
  exp = now + c.access_token_ttl;
})

abbrev pub new_session : AuthSettings → ℕ → String → ℕ → AuthSession → AuthSession
new_session c now token i old = record {
  id = i;
  user_id = old.user_id;
  device_id = old.device_id;
  refresh_token_hash = c.hash_refresh_token token;
  expires_at = now + c.refresh_token_ttl;
  revoked_at = none;
  revoked_reason = none;
  replaced_by_session_id = none;
  reuse_detected_at = none;
  last_used_at = now;
  first_used_at = none;
  rerotated_at = none;
}

abbrev pub rotated_into : ℕ → ℕ → AuthSession → AuthSession
rotated_into now i s = record s {
  revoked_at = some now;
  revoked_reason = some rotated;
  replaced_by_session_id = some i;
  last_used_at = now;
  first_used_at = some (get_or s.first_used_at now);
}

-- The rows that the rotation starts from.
abbrev pub settled_rows : ℕ → AuthSession → List AuthSession → List AuthSession
settled_rows now old rows =
    if is_live old && is_some old.replaced_by_session_id
    then settle_contest old.id now rows
    else rows

unfoldable pub rotate : AuthSettings → ℕ → String → AuthSession → Db → RefreshResult × Db
rotate c now token old db = (
  record {
    access_token = issue_access_token c old db.next_id now;
    refresh_token = token;
    expires_in = c.access_token_ttl;
  },
  record db {
    sessions =
        new_session c now token db.next_id old
        ∷ update (has_id old.id) (rotated_into now db.next_id) (settled_rows now old db.sessions);
    next_id = suc db.next_id;
  },
)

abbrev pub unused_sessions_kept : ℕ
unused_sessions_kept = 16

-- Live, and nothing has used it.
abbrev pub may_rotate_again : AuthSession → Option AuthSession → Bool
may_rotate_again token none = false
may_rotate_again token (some successor) =
    is_rotated token.revoked_reason && (is_live successor && not (is_some successor.first_used_at))

abbrev pub points_at : Option ℕ → AuthSession → AuthSession
points_at i s = record s { replaced_by_session_id = i }

abbrev pub get_head : List ℕ → ℕ → ℕ
get_head [] i = i
get_head (j ∷ js) i = j

-- The rows once the replacement has joined the ring after the successor.
abbrev pub join_ring : ℕ → AuthSession → List AuthSession → List AuthSession
join_ring i successor rows = update (has_id successor.id) (points_at (some i)) (
    update (has_id i) (points_at (some (get_or successor.replaced_by_session_id successor.id)))
      rows)

-- The oldest beyond the kept ones go, and the ring is closed without them.
unfoldable pub cut_ring : ℕ → ℕ → List AuthSession → List AuthSession
cut_ring i now rows =
    let ring = order_by (λ (j : ℕ). j) (linked_ids rows i) in
    let extra = length ring - unused_sessions_kept in
    if ltb unused_sessions_kept (length ring)
    then supersede (take extra ring) i now
        (update (has_id i) (points_at (some (get_head (drop extra ring) i))) rows)
    else rows

unfoldable pub rotate_again :
    AuthSettings → ℕ → String → AuthSession → AuthSession → Db → RefreshResult × Db
rotate_again c now token old successor db =
    let (result, next) = rotate c now token old db in
    (
      result,
      record next {
        sessions =
            update (has_id old.id) (λ s. record s { rerotated_at = some now })
              (cut_ring db.next_id now (join_ring db.next_id successor next.sessions));
      },
    )

abbrev pub answered : RefreshResult × Db → Outcome
answered (result, db) = replied result db

-- A token that lost: a late one is marked.
abbrev pub refuse_reuse : AuthSettings → ℕ → AuthSession → Db → Outcome
refuse_reuse c now old db =
    if ltb now (get_or old.revoked_at now + c.reuse_grace)
    then refused "session_revoked" db
    else refused "session_revoked" (record db {
      sessions =
          update (has_id old.id) (λ s. record s { reuse_detected_at = some now }) db.sessions;
    })

abbrev pub get_successor : AuthSession → List AuthSession → Option AuthSession
get_successor old rows = elim old.replaced_by_session_id [ none ↦ none | some i ↦ get i rows ]

abbrev pub rotate_successor :
    AuthSettings → ℕ → String → AuthSession → Option AuthSession → Db → Outcome
rotate_successor c now token old none db = refuse_reuse c now old db
rotate_successor c now token old (some successor) db =
    if leb old.expires_at now
    then refused "refresh_token_expired" db
    else answered (rotate_again c now token old successor db)

unfoldable pub handle_revoked_reuse : AuthSettings → ℕ → String → AuthSession → Db → Outcome
handle_revoked_reuse c now token old db =
    let successor = get_successor old db.sessions in
    if not (is_replaced old.revoked_reason)
    then refused "session_revoked" db
    else if may_rotate_again old successor
    then rotate_successor c now token old successor db
    else refuse_reuse c now old db

-- A session in a ring stays live.
abbrev pub expire : ℕ → AuthSession → Db → Outcome
expire now old db =
    if is_some old.replaced_by_session_id
    then refused "refresh_token_expired" db
    else refused "refresh_token_expired" (record db {
      sessions =
          update (has_id old.id)
            (λ s. record s { revoked_at = some now; revoked_reason = some expired }) db.sessions;
    })

-- The refresh of the session that the token belongs to.
unfoldable pub refresh_session : AuthSettings → ℕ → String → AuthSession → Db → Outcome
refresh_session c now token old db =
    if not (db.user_active old.user_id)
    then refused "session_revoked" db
    else if is_some old.revoked_at
    then handle_revoked_reuse c now token old db
    else if leb old.expires_at now
    then expire now old db
    else answered (rotate c now token old db)

abbrev pub db_of : Outcome → Db
db_of (replied r db) = db
db_of (refused detail db) = db

unfoldable pub refresh_found : AuthSettings → ℕ → String → Db → Option AuthSession → Outcome
refresh_found c now token db none = refused "invalid_refresh_token" db
refresh_found c now token db (some old) = refresh_session c now token old db

unfoldable pub refresh : AuthSettings → ℕ → String → String → Db → Outcome
unfolding refresh_found
refresh c now token refresh_token db =
    if not c.configured
    then refused "auth_not_configured" db
    else refresh_found c now token db
        (find? (λ s. str_eq s.refresh_token_hash (c.hash_refresh_token refresh_token)) db.sessions)
