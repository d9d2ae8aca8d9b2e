-- ===== src/Auth/Refresh/Safety.antt =====
-- What a refresh answers, and what it leaves of the sessions.
use tigerduck_backend.Prelude.{
  ℕ, ◌+◌, ◌≡◌, refl, arith, Bool, true, false, ◌&&◌, ◌||◌, Option, none, some, String, leb, ltb,
  get_or, Bool-cases, inl, inr, ◌<◌, ◌↔◌, ◌⊎◌, List, is_some, Option-cases, subst, sym, ap, ◌∙◌,
  ltb→lt, lt→ltb,
}
use tigerduck_backend.Auth.Session.{
  RevokedReason, logged_out, rotated, superseded, reuse_detected, expired, admin_revoked,
  credential_revoked, AuthSession, Db, is_live, is_rotated, is_replaced, get,
}
use tigerduck_backend.Auth.Refresh.{
  AuthSettings, Outcome, replied, refused, rotate_successor, may_rotate_again, get_successor,
  handle_revoked_reuse, refresh_session, refuse_reuse,
}

abbrev pub is_replied : Outcome → Bool
is_replied (replied r db) = true
is_replied (refused detail db) = false

refuse_reuse-refused :
    (c : AuthSettings) (now : ℕ) (old : AuthSession) (db : Db)
    → is_replied (refuse_reuse c now old db) ≡ false
refuse_reuse-refused c now old db =
    elim (Bool-cases (ltb now (get_or old.revoked_at now + c.reuse_grace))) [
      | inl t ↦ rw t refl
      | inr f ↦ rw f refl
    ]

rotate_successor-replies :
    (c : AuthSettings) (now : ℕ) (token : String) (old : AuthSession)
    (successor : Option AuthSession) (db : Db)
    → may_rotate_again old successor ≡ true
    → is_replied (rotate_successor c now token old successor db) ≡ ltb now old.expires_at
rotate_successor-replies c now token old none db m = absurd (cc)
rotate_successor-replies c now token old (some s) db m =
    elim (Bool-cases (leb old.expires_at now)) [
      | inl t ↦ rw t (ground arith)
      | inr f ↦ rw f (ground arith)
    ]

may_rotate_again-replaced :
    (old : AuthSession) (successor : Option AuthSession)
    → may_rotate_again old successor ≡ true
    → is_replaced old.revoked_reason ≡ true
may_rotate_again-replaced old none m = absurd (cc)
may_rotate_again-replaced old (some s) m = ground arith

handle_revoked_reuse-replies :
    (c : AuthSettings) (now : ℕ) (token : String) (old : AuthSession) (db : Db)
    → is_replied (handle_revoked_reuse c now token old db)
      ≡ (ltb now old.expires_at && may_rotate_again old (get_successor old db.sessions))
unfolding handle_revoked_reuse
handle_revoked_reuse-replies c now token old db =
    elim (Bool-cases (may_rotate_again old (get_successor old db.sessions))) [
      | inl m ↦
          let r = may_rotate_again-replaced old (get_successor old db.sessions) m in
          let go = rotate_successor-replies c now token old (get_successor old db.sessions) db m in
          rw r (rw m (ground (arith, go)))
      | inr n ↦ elim (Bool-cases (is_replaced old.revoked_reason)) [
        | inl r ↦ rw r (rw n (ground (arith, refuse_reuse-refused c now old db)))
        | inr r ↦ rw r (rw n (ground arith))
      ]
    ]

-- The answer as a test, in the terms of the code.
pub refresh_session-is_replied :
    (c : AuthSettings) (now : ℕ) (token : String) (old : AuthSession) (db : Db)
    → is_replied (refresh_session c now token old db) ≡ (
        db.user_active old.user_id
        && (ltb now old.expires_at
            && (is_live old || may_rotate_again old (get_successor old db.sessions))))
unfolding refresh_session
refresh_session-is_replied c now token old db =
    ground (arith, handle_revoked_reuse-replies c now token old db)

-- A row of the session that replaced a token.
pub record IsUnusedSuccessor (rows : List AuthSession) (old s : AuthSession) : Type 0 where
  pub rotated_away : old.revoked_reason ≡ some rotated
  pub id : ℕ
  pub replaced_by : old.replaced_by_session_id ≡ some id
  pub stored : get id rows ≡ some s
  pub live : s.revoked_at ≡ none
  pub unused : s.first_used_at ≡ none

-- What a refresh of the session `old` needs.
pub record MayReply (now : ℕ) (old : AuthSession) (db : Db) : Type 0 where
  pub active : db.user_active old.user_id ≡ true
  pub unexpired : now < old.expires_at
  pub session : (old.revoked_at ≡ none) ⊎ ((s : AuthSession) × IsUnusedSuccessor db.sessions old s)

none_of : {A : Type 0} (o : Option A) → is_some o ≡ false → o ≡ none
none_of none h = refl
none_of (some a) h = absurd (cc)

is_rotated-rotated : (r : Option RevokedReason) → is_rotated r ≡ true → r ≡ some rotated
is_rotated-rotated none h = absurd (cc)
is_rotated-rotated (some rotated) h = refl
is_rotated-rotated (some logged_out) h = absurd (cc)
is_rotated-rotated (some superseded) h = absurd (cc)
is_rotated-rotated (some reuse_detected) h = absurd (cc)
is_rotated-rotated (some expired) h = absurd (cc)
is_rotated-rotated (some admin_revoked) h = absurd (cc)
is_rotated-rotated (some credential_revoked) h = absurd (cc)

get_successor-get :
    (old : AuthSession) (rows : List AuthSession) (o : Option ℕ)
    → old.replaced_by_session_id ≡ o
    → get_successor old rows ≡ elim o [ none ↦ none | some j ↦ get j rows ]
get_successor-get old rows o e =
    ap (λ (r : Option ℕ). elim r [ none ↦ none | some j ↦ get j rows ]) e

may_rotate_again-IsUnusedSuccessor :
    (old : AuthSession) (rows : List AuthSession)
    → may_rotate_again old (get_successor old rows) ≡ true
    → (s : AuthSession) × IsUnusedSuccessor rows old s
may_rotate_again-IsUnusedSuccessor old rows h = elim (Option-cases old.replaced_by_session_id) [
  | inl e ↦ absurd (
      let m : false ≡ true =
        subst (λ o. may_rotate_again old o ≡ true) (get_successor-get old rows none e) h in
      cc)
  | inr (i, e) ↦
      let m =
        subst (λ o. may_rotate_again old o ≡ true) (get_successor-get old rows (some i) e) h in
      elim (Option-cases (get i rows)) [
        | inl gone ↦
            absurd (let m' : false ≡ true = subst (λ o. may_rotate_again old o ≡ true) gone m in cc)
        | inr (s, found) ↦
            let m' = subst (λ o. may_rotate_again old o ≡ true) found m in
            (
              s,
              record {
                rotated_away = is_rotated-rotated old.revoked_reason (ground (arith, m'));
                id = i;
                replaced_by = e;
                stored = found;
                live = none_of s.revoked_at (ground (arith, m'));
                unused = none_of s.first_used_at (ground (arith, m'));
              },
            )
      ]
]

IsUnusedSuccessor-may_rotate_again :
    (old s : AuthSession) (rows : List AuthSession)
    → IsUnusedSuccessor rows old s
    → may_rotate_again old (get_successor old rows) ≡ true
IsUnusedSuccessor-may_rotate_again old s rows u =
    subst (λ o. may_rotate_again old o ≡ true)
      (sym (get_successor-get old rows (some u.id) u.replaced_by ∙ u.stored))
      (rw u.rotated_away (rw u.live (rw u.unused refl)))

-- A refresh is answered with tokens exactly when the user is active, the token has not expired, and
-- its session is live or was rotated into a session that is stored, live and has not been used.
pub refresh_session_replies :
    (c : AuthSettings) (now : ℕ) (token : String) (old : AuthSession) (db : Db)
    → (is_replied (refresh_session c now token old db) ≡ true) ↔ MayReply now old db
refresh_session_replies c now token old db = (
  λ e.
      let h = sym (refresh_session-is_replied c now token old db) ∙ e in
      record {
        active = ground (arith, h);
        unexpired = ltb→lt now old.expires_at (ground (arith, h));
        session = elim (Option-cases old.revoked_at) [
          | inl live ↦ inl live
          | inr (t, dead) ↦
              inr (may_rotate_again-IsUnusedSuccessor old db.sessions (ground (arith, h, dead)))
        ];
      },
  λ m.
      refresh_session-is_replied c now token old db
      ∙ rw m.active (
          rw (lt→ltb now old.expires_at m.unexpired) (elim m.session [
            | inl live ↦ rw live refl
            | inr (s, u) ↦
                rw (IsUnusedSuccessor-may_rotate_again old s db.sessions u) (ground arith)
          ])),
)
