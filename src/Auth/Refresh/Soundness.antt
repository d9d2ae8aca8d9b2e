-- ===== src/Auth/Refresh/Soundness.antt =====
-- A refresh keeps the columns of every session in agreement.
use tigerduck_backend.Prelude.{
  ℕ, ◌+◌, ◌≡◌, ap, arith, true, false, Option, none, some, String, leb, ltb, subst, sym, is_some,
  get_or, All, Bool-cases, Option-cases, inl, inr,
}
use tigerduck_backend.Auth.Session.{AuthSession, Db, is_replaced, get, has_id}
use tigerduck_backend.Auth.Contest.Ring.{
  IsSound, MayJoin, DistinctIds, update-All, get-MayJoin, get-id,
}
use tigerduck_backend.Auth.Refresh.{
  AuthSettings, Outcome, rotate, rotate_again, rotate_successor, may_rotate_again, get_successor,
  handle_revoked_reuse, refresh_session, expire, refuse_reuse, answered, db_of,
}
use tigerduck_backend.Auth.Refresh.Rotations.{rotate-IsSound, rotate_again-IsSound}

-- The rows of a database that agree: no shared id, and each row sound.
pub record IsSoundDb (db : Db) : Type 0 where
  pub distinct : DistinctIds db.sessions
  pub rows : All (IsSound db.next_id) db.sessions

abbrev KeepsSound : Outcome → Type 0
KeepsSound o = All (IsSound (db_of o).next_id) (db_of o).sessions

rotate-KeepsSound :
    (c : AuthSettings) (now : ℕ) (token : String) (old : AuthSession) (db : Db)
    → IsSoundDb db
    → KeepsSound (answered (rotate c now token old db))
unfolding rotate
rotate-KeepsSound c now token old db h = rotate-IsSound c now token old db h.rows

rotate_again-KeepsSound :
    (c : AuthSettings) (now : ℕ) (token : String) (old successor : AuthSession) (db : Db)
    → IsSoundDb db
    → All (MayJoin successor.id) db.sessions
    → KeepsSound (answered (rotate_again c now token old successor db))
unfolding rotate_again rotate
rotate_again-KeepsSound c now token old successor db h k =
    rotate_again-IsSound c now token old successor db h.rows k

rotate_successor-IsSound :
    (c : AuthSettings) (now : ℕ) (token : String) (old : AuthSession) (db : Db) (i : ℕ)
    (successor : Option AuthSession)
    → IsSoundDb db
    → get i db.sessions ≡ successor
    → may_rotate_again old successor ≡ true
    → KeepsSound (rotate_successor c now token old successor db)
rotate_successor-IsSound c now token old db i none h e m = absurd (cc)
rotate_successor-IsSound c now token old db i (some s) h e m =
    elim (Bool-cases (leb old.expires_at now)) [
      | inl late ↦ rw late h.rows
      | inr early ↦
          let q = get-id i db.sessions s e in
          let open_row = get-MayJoin i db.sessions s h.distinct e (ground arith) in
          rw early (
            rotate_again-KeepsSound c now token old s db h
              (subst (λ k. All (MayJoin k) db.sessions) (sym q) open_row))
    ]

refuse_reuse-IsSound :
    (c : AuthSettings) (now : ℕ) (old : AuthSession) (db : Db)
    → IsSoundDb db
    → KeepsSound (refuse_reuse c now old db)
refuse_reuse-IsSound c now old db h =
    elim (Bool-cases (ltb now (get_or old.revoked_at now + c.reuse_grace))) [
      | inl soon ↦ rw soon h.rows
      | inr later ↦ rw later (
          update-All (IsSound db.next_id) (has_id old.id)
            (λ s. record s { reuse_detected_at = some now }) db.sessions (λ s l k. ground arith)
            h.rows)
    ]

get_successor-IsSound :
    (c : AuthSettings) (now : ℕ) (token : String) (old : AuthSession) (db : Db)
    → IsSoundDb db
    → may_rotate_again old (get_successor old db.sessions) ≡ true
    → KeepsSound (rotate_successor c now token old (get_successor old db.sessions) db)
get_successor-IsSound c now token old db h m = elim (Option-cases old.replaced_by_session_id) [
  | inl e ↦ absurd (
      let nobody : get_successor old db.sessions ≡ none =
        ap (λ (r : Option ℕ). elim r [ none ↦ none | some j ↦ get j db.sessions ]) e in
      let m' : false ≡ true = subst (λ o. may_rotate_again old o ≡ true) nobody m in cc)
  | inr (i, e) ↦
      let same : get_successor old db.sessions ≡ get i db.sessions =
        ap (λ (r : Option ℕ). elim r [ none ↦ none | some j ↦ get j db.sessions ]) e in
      rotate_successor-IsSound c now token old db i (get_successor old db.sessions) h (sym same) m
]

handle_revoked_reuse-IsSound :
    (c : AuthSettings) (now : ℕ) (token : String) (old : AuthSession) (db : Db)
    → IsSoundDb db
    → KeepsSound (handle_revoked_reuse c now token old db)
unfolding handle_revoked_reuse
handle_revoked_reuse-IsSound c now token old db h =
    elim (Bool-cases (is_replaced old.revoked_reason)) [
      | inl r ↦ elim (Bool-cases (may_rotate_again old (get_successor old db.sessions))) [
        | inl m ↦ rw r (rw m (get_successor-IsSound c now token old db h m))
        | inr n ↦ rw r (rw n (refuse_reuse-IsSound c now old db h))
      ]
      | inr r ↦ rw r h.rows
    ]

expire-IsSound :
    (now : ℕ) (old : AuthSession) (db : Db) → IsSoundDb db → KeepsSound (expire now old db)
expire-IsSound now old db h = elim (Bool-cases (is_some old.replaced_by_session_id)) [
  | inl ring ↦ rw ring h.rows
  | inr alone ↦
      rw alone (
        update-All (IsSound db.next_id) (has_id old.id) _ db.sessions (λ s l k. ground arith)
          h.rows)
]

-- A refresh, replied or refused, leaves every session sound: a reason stands exactly on a revoked
-- row, a live row of a ring is unused, a rotated row has been used, and ids stay below the next one.
pub refresh_session-IsSound :
    (c : AuthSettings) (now : ℕ) (token : String) (old : AuthSession) (db : Db)
    → IsSoundDb db
    → let after = db_of (refresh_session c now token old db) in
      All (IsSound after.next_id) after.sessions
unfolding refresh_session
refresh_session-IsSound c now token old db h = elim (Bool-cases (db.user_active old.user_id)) [
  | inr gone ↦ rw gone h.rows
  | inl active ↦ elim (Bool-cases (is_some old.revoked_at)) [
    | inl dead ↦ rw active (rw dead (handle_revoked_reuse-IsSound c now token old db h))
    | inr live ↦ elim (Bool-cases (leb old.expires_at now)) [
      | inl late ↦ rw active (rw live (rw late (expire-IsSound now old db h)))
      | inr early ↦ rw active (rw live (rw early (rotate-KeepsSound c now token old db h)))
    ]
  ]
]
