-- ===== src/Auth/Use/Later.antt =====
-- The use of a session stays on record, whatever transactions on the sessions follow.
use tigerduck_backend.Prelude.{
  ◌&&◌, ℕ, suc, ◌<◌, ◌+◌, ◌≡◌, refl, ◌∙◌, subst, arith, false, Option, none, some, List, ◌∷◌,
  String, ◌==◌, leb, ltb, length, is_some, get_or, All, All-map, Bool-cases, inl, inr,
}
use tigerduck_backend.Prelude.Sorting.{order_by}
use tigerduck_backend.Auth.Session.{AuthSession, Db, is_live, is_replaced, get, update, has_id}
use tigerduck_backend.Auth.Contest.{
  settle_contest, supersede, loses_to, superseded_by, leave_ring, linked_ids,
}
use tigerduck_backend.Auth.Contest.Ring.{IsSound, update-All, get-All, get-id}
use tigerduck_backend.Auth.Refresh.{
  AuthSettings, refresh_session, may_rotate_again, get_successor, settled_rows, rotate,
  rotate_again, rotate_successor, rotated_into, cut_ring, points_at, refuse_reuse,
  handle_revoked_reuse, expire, db_of, unused_sessions_kept,
}
use tigerduck_backend.Auth.Refresh.Safety.{is_replied, refresh_session-is_replied}
use tigerduck_backend.Auth.Refresh.Soundness.{IsSoundDb}
use tigerduck_backend.Auth.Use.{
  Claims, Admission, admitted, rejected, mark_first_use, record_first_use, admit_session,
  require_user, logout,
}
use tigerduck_backend.Auth.Use.Settled.{WasUsed, admitted_db, require_user-WasUsed, successor_used}

-- One transaction on the sessions: a refresh, the check of an access token, a logout, or a login,
-- which adds a row under the next id.
pub data Transaction (db : Db) : Db → Type 0 where
  refreshes :
      (c : AuthSettings) (now : ℕ) (token : String) (old : AuthSession)
      → Transaction db (db_of (refresh_session c now token old db))
  checks :
      (now : ℕ) (claims : Option Claims) → Transaction db (admitted_db (require_user now claims db))
  logs_out : (now i : ℕ) → Transaction db (record db { sessions = logout now i db.sessions })
  logs_in :
      (s : AuthSession)
      → s.id ≡ db.next_id
      → Transaction db (record db { sessions = s ∷ db.sessions; next_id = suc db.next_id })

pub data Leads (db : Db) : Db → Type 0 where
  at_once : Leads db db
  followed : {mid after : Db} → Leads db mid → Transaction mid after → Leads db after

-- The id is given out, and no row of it is without its use.
record UseStands (i : ℕ) (db : Db) : Type 0 where
  given : i < db.next_id
  used : All (WasUsed i) db.sessions

module _ (i : ℕ) where
  settle_contest-WasUsed :
      (winner now : ℕ) (rows : List AuthSession)
      → All (WasUsed i) rows
      → All (WasUsed i) (settle_contest winner now rows)
  unfolding settle_contest
  settle_contest-WasUsed winner now rows h =
      update-All (WasUsed i) (loses_to _) (superseded_by winner now) _ (λ s l k. k)
        (update-All (WasUsed i) (has_id winner) leave_ring rows (λ s l k. k) h)

  settled_rows-WasUsed :
      (now : ℕ) (old : AuthSession) (rows : List AuthSession)
      → All (WasUsed i) rows
      → All (WasUsed i) (settled_rows now old rows)
  settled_rows-WasUsed now old rows h =
      elim (Bool-cases (is_live old && is_some old.replaced_by_session_id)) [
        | inl ring ↦ rw ring (settle_contest-WasUsed old.id now rows h)
        | inr alone ↦ rw alone h
      ]

  rotate-UseStands :
      (c : AuthSettings) (now : ℕ) (token : String) (old : AuthSession) (db : Db)
      → UseStands i db
      → UseStands i (rotate c now token old db).1
  unfolding rotate
  rotate-UseStands c now token old db h = record {
    given = omega (arith, h.given);
    used = (
      (λ e. absurd (omega (arith, h.given, e))),
      update-All (WasUsed i) (has_id old.id) (rotated_into now db.next_id) _ (λ s l k. λ same. refl)
          (settled_rows-WasUsed now old db.sessions h.used),
    );
  }

  cut_ring-WasUsed :
      (j now : ℕ) (rows : List AuthSession)
      → All (WasUsed i) rows
      → All (WasUsed i) (cut_ring j now rows)
  unfolding cut_ring supersede
  cut_ring-WasUsed j now rows h =
      elim (Bool-cases
        (ltb unused_sessions_kept (length (order_by (λ (k : ℕ). k) (linked_ids rows j))))) [
          | inl long ↦ rw long (
              update-All (WasUsed i) (loses_to _) (superseded_by j now) _ (λ s l k. k)
                (update-All (WasUsed i) (has_id j) (points_at _) rows (λ s l k. k) h))
          | inr short ↦ rw short h
        ]

  rotate_again-UseStands :
      (c : AuthSettings) (now : ℕ) (token : String) (old successor : AuthSession) (db : Db)
      → UseStands i db
      → UseStands i (rotate_again c now token old successor db).1
  unfolding rotate_again
  rotate_again-UseStands c now token old successor db h =
      let next = rotate-UseStands c now token old db h in
      record {
        given = next.given;
        used =
            update-All (WasUsed i) (has_id old.id) (λ s. record s { rerotated_at = some now }) _
              (λ s l k. k)
              (cut_ring-WasUsed db.next_id now _ (
                update-All (WasUsed i) (has_id successor.id) (points_at _) _ (λ s l k. k)
                  (update-All (WasUsed i) (has_id db.next_id) (points_at _) _ (λ s l k. k)
                    next.used)));
      }

  refuse_reuse-UseStands :
      (c : AuthSettings) (now : ℕ) (old : AuthSession) (db : Db)
      → UseStands i db
      → UseStands i (db_of (refuse_reuse c now old db))
  refuse_reuse-UseStands c now old db h =
      elim (Bool-cases (ltb now (get_or old.revoked_at now + c.reuse_grace))) [
        | inl soon ↦ rw soon h
        | inr late ↦ rw late (record {
          given = h.given;
          used = update-All (WasUsed i) (has_id old.id) _ db.sessions (λ s l k. k) h.used;
        })
      ]

  rotate_successor-UseStands :
      (c : AuthSettings) (now : ℕ) (token : String) (old : AuthSession) (o : Option AuthSession)
      (db : Db)
      → UseStands i db
      → UseStands i (db_of (rotate_successor c now token old o db))
  rotate_successor-UseStands c now token old none db h = refuse_reuse-UseStands c now old db h
  rotate_successor-UseStands c now token old (some s) db h =
      elim (Bool-cases (leb old.expires_at now)) [
        | inl late ↦ rw late h
        | inr early ↦ rw early (rotate_again-UseStands c now token old s db h)
      ]

  handle_revoked_reuse-UseStands :
      (c : AuthSettings) (now : ℕ) (token : String) (old : AuthSession) (db : Db)
      → UseStands i db
      → UseStands i (db_of (handle_revoked_reuse c now token old db))
  unfolding handle_revoked_reuse
  handle_revoked_reuse-UseStands c now token old db h =
      elim (Bool-cases (is_replaced old.revoked_reason)) [
        | inr r ↦ rw r h
        | inl r ↦ elim (Bool-cases (may_rotate_again old (get_successor old db.sessions))) [
          | inl m ↦ rw r (
              rw m
                (rotate_successor-UseStands c now token old (get_successor old db.sessions) db h))
          | inr n ↦ rw r (rw n (refuse_reuse-UseStands c now old db h))
        ]
      ]

  expire-UseStands :
      (now : ℕ) (old : AuthSession) (db : Db)
      → UseStands i db
      → UseStands i (db_of (expire now old db))
  expire-UseStands now old db h = elim (Bool-cases (is_some old.replaced_by_session_id)) [
    | inl ring ↦ rw ring h
    | inr alone ↦ rw alone (record {
      given = h.given;
      used = update-All (WasUsed i) (has_id old.id) _ db.sessions (λ s l k. k) h.used;
    })
  ]

  refresh_session-UseStands :
      (c : AuthSettings) (now : ℕ) (token : String) (old : AuthSession) (db : Db)
      → UseStands i db
      → UseStands i (db_of (refresh_session c now token old db))
  unfolding refresh_session
  refresh_session-UseStands c now token old db h = elim (Bool-cases (db.user_active old.user_id)) [
    | inr inactive ↦ rw inactive h
    | inl active ↦ elim (Bool-cases (is_some old.revoked_at)) [
      | inl dead ↦ rw active (rw dead (handle_revoked_reuse-UseStands c now token old db h))
      | inr live ↦ elim (Bool-cases (leb old.expires_at now)) [
        | inl late ↦ rw active (rw live (rw late (expire-UseStands now old db h)))
        | inr early ↦ rw active (rw live (rw early (rotate-UseStands c now token old db h)))
      ]
    ]
  ]

  record_first_use-WasUsed :
      (now : ℕ) (s : AuthSession) (rows : List AuthSession)
      → All (WasUsed i) rows
      → All (WasUsed i) (record_first_use now s rows)
  unfolding record_first_use
  record_first_use-WasUsed now s rows h = elim (Bool-cases (is_some s.replaced_by_session_id)) [
    | inl ring ↦
        rw ring (marked (settle_contest s.id now rows) (settle_contest-WasUsed s.id now rows h))
    | inr alone ↦ rw alone (marked rows h)
  ]
    where
      marked :
          (rs : List AuthSession)
          → All (WasUsed i) rs
          → All (WasUsed i) (update (has_id s.id) (mark_first_use now) rs)
      marked rs k =
          update-All (WasUsed i) (has_id s.id) (mark_first_use now) rs
            (λ r l u. elim (Bool-cases (is_some r.first_used_at)) [
              | inl used ↦ rw used u
              | inr fresh ↦ rw fresh (λ same. refl)
            ])
            k

  admit_session-UseStands :
      (now : ℕ) (claims : Claims) (db : Db) (o : Option AuthSession)
      → UseStands i db
      → UseStands i (admitted_db (admit_session now claims db o))
  unfolding admit_session
  admit_session-UseStands now claims db none h = h
  admit_session-UseStands now claims db (some s) h = elim (Bool-cases (is_some s.revoked_at)) [
    | inl dead ↦ rw dead h
    | inr live ↦ elim (Bool-cases (s.user_id == claims.user_id)) [
      | inr other ↦ rw live (rw other h)
      | inl own ↦ elim (Bool-cases (db.user_active claims.user_id)) [
        | inr inactive ↦ rw live (rw own (rw inactive h))
        | inl active ↦ elim (Bool-cases (is_some s.first_used_at)) [
          | inl used ↦ rw live (rw own (rw active (rw used h)))
          | inr fresh ↦ rw live (
              rw own (
                rw active (
                  rw fresh (record {
                    given = h.given;
                    used = record_first_use-WasUsed now s db.sessions h.used;
                  }))))
        ]
      ]
    ]
  ]

  logout-WasUsed :
      (now j : ℕ) (rows : List AuthSession)
      → All (WasUsed i) rows
      → All (WasUsed i) (logout now j rows)
  unfolding logout
  logout-WasUsed now j rows h = update-All (WasUsed i) _ _ rows (λ s l k. k) h

  Transaction-UseStands :
      (db after : Db) → Transaction db after → UseStands i db → UseStands i after
  unfolding require_user
  Transaction-UseStands db _ (refreshes c now token old) h =
      refresh_session-UseStands c now token old db h
  Transaction-UseStands db _ (checks now none) h = h
  Transaction-UseStands db _ (checks now (some claims)) h =
      admit_session-UseStands now claims db (get claims.session_id db.sessions) h
  Transaction-UseStands db _ (logs_out now j) h = record {
    given = h.given;
    used = logout-WasUsed now j db.sessions h.used;
  }
  Transaction-UseStands db _ (logs_in s e) h = record {
    given = omega (arith, h.given);
    used = ((λ same. absurd (omega (arith, h.given, e, same))), h.used);
  }

  Leads-UseStands : (db after : Db) → Leads db after → UseStands i db → UseStands i after
  Leads-UseStands db _ at_once h = h
  Leads-UseStands db _ (followed {mid} {after} r t) h =
      Transaction-UseStands mid after t (Leads-UseStands db mid r h)

-- The id of an admitted session is given out.
abbrev Given : ℕ → Admission → Type 0
Given i (admitted claims db) = i < db.next_id
Given i (rejected detail db) = Unit

admit_session-Given :
    (now : ℕ) (claims : Claims) (db : Db) (found : Option AuthSession)
    → IsSoundDb db
    → get claims.session_id db.sessions ≡ found
    → Given claims.session_id (admit_session now claims db found)
unfolding admit_session
admit_session-Given now claims db none h e = tt
admit_session-Given now claims db (some s) h e =
    let sound = get-All (IsSound db.next_id) claims.session_id db.sessions s h.rows e in
    let lt : claims.session_id < db.next_id =
      subst (λ j. j < db.next_id) (get-id claims.session_id db.sessions s e) sound.id_given in
    elim (Bool-cases (is_some s.revoked_at)) [
      | inl dead ↦ rw dead tt
      | inr live ↦ elim (Bool-cases (s.user_id == claims.user_id)) [
        | inr other ↦ rw live (rw other tt)
        | inl own ↦ elim (Bool-cases (db.user_active claims.user_id)) [
          | inr inactive ↦ rw live (rw own (rw inactive tt))
          | inl active ↦ elim (Bool-cases (is_some s.first_used_at)) [
            | inl used ↦ rw live (rw own (rw active (rw used lt)))
            | inr fresh ↦ rw live (rw own (rw active (rw fresh lt)))
          ]
        ]
      ]
    ]

require_user-UseStands :
    (now : ℕ) (claims claims' : Claims) (db db' : Db)
    → IsSoundDb db
    → require_user now (some claims) db ≡ admitted claims' db'
    → UseStands claims.session_id db'
unfolding require_user
require_user-UseStands now claims claims' db db' h e = record {
  given =
      subst (Given claims.session_id) e
        (admit_session-Given now claims db (get claims.session_id db.sessions) h refl);
  used = All-map (λ r k. k.1) db'.sessions (require_user-WasUsed now claims claims' db db' h e);
}

-- Once an access token of a session has been accepted, a refresh of the revoked token that points to
-- that session as its successor is refused, at any time and after any refreshes, checks of access
-- tokens, logins and logouts in between.
pub require_user-reuse_refused :
    (c : AuthSettings) (now later : ℕ) (token : String) (claims claims' : Claims)
    (db db' after : Db) (old : AuthSession)
    → IsSoundDb db
    → require_user now (some claims) db ≡ admitted claims' db'
    → Leads db' after
    → is_live old ≡ false
    → old.replaced_by_session_id ≡ some claims.session_id
    → is_replied (refresh_session c later token old after) ≡ false
require_user-reuse_refused c now later token claims claims' db db' after old h e r dead next =
    let stands =
      Leads-UseStands claims.session_id db' after r
        (require_user-UseStands now claims claims' db db' h e) in
    let never = successor_used old claims.session_id after.sessions stands.used next in
    refresh_session-is_replied c later token old after ∙ ground (arith, never)
