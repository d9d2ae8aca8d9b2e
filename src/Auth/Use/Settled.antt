-- ===== src/Auth/Use/Settled.antt =====
-- What the use of a session leaves: the token before it is refused from then on.
use tigerduck_backend.Prelude.{
  ℕ, ◌≡◌, refl, ◌∙◌, sym, ap, subst, arith, true, false, Option, none, some, List, [], ◌∷◌, ◌==◌,
  is_some, if◌then◌else◌, All, All-map, Bool-cases, Option-cases, inl, inr,
}
use tigerduck_backend.Auth.Session.{AuthSession, Db, get, update, has_id}
use tigerduck_backend.Auth.Contest.{settle_contest}
use tigerduck_backend.Auth.Contest.Ring.{
  IsSound, IsAlone, settle_contest-IsSound, settle_contest-IsAlone, get_unique, get-All, get-id,
}
use tigerduck_backend.Auth.Refresh.{may_rotate_again, get_successor}
use tigerduck_backend.Auth.Refresh.Soundness.{IsSoundDb}
use tigerduck_backend.Auth.Use.{
  Claims, Admission, admitted, rejected, mark_first_use, record_first_use, admit_session,
  require_user,
}

abbrev pub admitted_db : Admission → Db
admitted_db (admitted claims db) = db
admitted_db (rejected detail db) = db

mark_first_use-used :
    (now : ℕ) (s : AuthSession) → is_some (mark_first_use now s).first_used_at ≡ true
mark_first_use-used now s = ground arith

abbrev pub WasUsed : ℕ → AuthSession → Type 0
WasUsed i s = s.id ≡ i → is_some s.first_used_at ≡ true

-- The rows that the first use of a live, unused session starts from: it stands in no ring of them.
contest_rows : ℕ → AuthSession → List AuthSession → List AuthSession
contest_rows now s rows =
    if is_some s.replaced_by_session_id then settle_contest s.id now rows else rows

contest_rows-IsSound :
    (next now : ℕ) (s : AuthSession) (rows : List AuthSession)
    → All (IsSound next) rows
    → All (IsSound next) (contest_rows now s rows)
unfolding contest_rows
contest_rows-IsSound next now s rows h = elim (Bool-cases (is_some s.replaced_by_session_id)) [
  | inl ring ↦ rw ring (settle_contest-IsSound next s.id now rows h)
  | inr alone ↦ rw alone h
]

contest_rows-IsAlone :
    (now : ℕ) (s : AuthSession) (rows : List AuthSession)
    → All (λ r. r.id ≡ s.id → r ≡ s) rows
    → All (IsAlone s.id) (contest_rows now s rows)
unfolding contest_rows
contest_rows-IsAlone now s rows only = elim (Bool-cases (is_some s.replaced_by_session_id)) [
  | inl ring ↦ rw ring (settle_contest-IsAlone s.id now rows)
  | inr alone ↦
      let none_next : s.replaced_by_session_id ≡ none = ground arith in
      rw alone (
        All-map
          (λ r one. λ same _.
            subst (λ (x : AuthSession). x.replaced_by_session_id ≡ none) (sym (one same)) none_next)
          rows only)
]

mark_first_use-IsSound :
    (next i now : ℕ) (rows : List AuthSession)
    → All (IsSound next) rows
    → All (IsAlone i) rows
    → All (λ r. IsSound next r × WasUsed i r) (update (has_id i) (mark_first_use now) rows)
mark_first_use-IsSound next i now [] h k = tt
mark_first_use-IsSound next i now (r ∷ rows) h k =
    (ground (arith, h.0, k.0), mark_first_use-IsSound next i now rows h.1 k.1)

record_first_use-IsSound :
    (now : ℕ) (s : AuthSession) (db : Db)
    → IsSoundDb db
    → get s.id db.sessions ≡ some s
    → All (λ r. IsSound db.next_id r × WasUsed s.id r) (record_first_use now s db.sessions)
unfolding record_first_use contest_rows
record_first_use-IsSound now s db h e =
    mark_first_use-IsSound db.next_id s.id now (contest_rows now s db.sessions)
      (contest_rows-IsSound db.next_id now s db.sessions h.rows)
      (contest_rows-IsAlone now s db.sessions (get_unique s.id db.sessions s h.distinct e))

-- What is asked of an admission: sound rows, and the session's use on record.
abbrev pub Settles : ℕ → Admission → Type 0
Settles i (admitted claims db) = All (λ r. IsSound db.next_id r × WasUsed i r) db.sessions
Settles i (rejected detail db) = Unit

used_row-Settles :
    (i : ℕ) (claims : Claims) (s : AuthSession) (db : Db)
    → IsSoundDb db
    → get i db.sessions ≡ some s
    → is_some s.first_used_at ≡ true
    → Settles i (admitted claims db)
used_row-Settles i claims s db h e used =
    both db.sessions h.rows (get_unique i db.sessions s h.distinct e)
  where
    both :
        (rows : List AuthSession)
        → All (IsSound db.next_id) rows
        → All (λ r. r.id ≡ i → r ≡ s) rows
        → All (λ r. IsSound db.next_id r × WasUsed i r) rows
    both [] a b = tt
    both (r ∷ rows) a b = (
      (
        a.0,
        λ same. subst (λ (x : AuthSession). is_some x.first_used_at ≡ true) (sym (b.0 same)) used,
      ),
      both rows a.1 b.1,
    )

admit_session-Settles :
    (now : ℕ) (claims : Claims) (db : Db) (found : Option AuthSession)
    → IsSoundDb db
    → get claims.session_id db.sessions ≡ found
    → Settles claims.session_id (admit_session now claims db found)
unfolding admit_session
admit_session-Settles now claims db none h e = tt
admit_session-Settles now claims db (some s) h e = elim (Bool-cases (is_some s.revoked_at)) [
  | inl dead ↦ rw dead tt
  | inr live ↦ elim (Bool-cases (s.user_id == claims.user_id)) [
    | inr other ↦ rw live (rw other tt)
    | inl own ↦ elim (Bool-cases (db.user_active claims.user_id)) [
      | inr inactive ↦ rw live (rw own (rw inactive tt))
      | inl active ↦ elim (Bool-cases (is_some s.first_used_at)) [
        | inl used ↦
            rw live (
              rw own
                (rw active (rw used (used_row-Settles claims.session_id claims s db h e used))))
        | inr fresh ↦
            let q = get-id claims.session_id db.sessions s e in
            let first =
              record_first_use-IsSound now s db h
                (subst (λ i. get i db.sessions ≡ some s) (sym q) e) in
            rw live (
              rw own (
                rw active (
                  rw fresh (
                    subst
                      (λ i.
                        All (λ r. IsSound db.next_id r × WasUsed i r)
                          (record_first_use now s db.sessions))
                      q first))))
      ]
    ]
  ]
]

-- Whoever the check of an access token lets in has the use of its session on record, and the
-- sessions are sound after it as they were before.
pub require_user-WasUsed :
    (now : ℕ) (claims claims' : Claims) (db db' : Db)
    → IsSoundDb db
    → require_user now (some claims) db ≡ admitted claims' db'
    → All (λ r. IsSound db'.next_id r × WasUsed claims.session_id r) db'.sessions
unfolding require_user
require_user-WasUsed now claims claims' db db' h e =
    subst (Settles claims.session_id) e
      (admit_session-Settles now claims db (get claims.session_id db.sessions) h refl)

pub successor_used :
    (old : AuthSession) (i : ℕ) (rows : List AuthSession)
    → All (λ r. WasUsed i r) rows
    → old.replaced_by_session_id ≡ some i
    → may_rotate_again old (get_successor old rows) ≡ false
successor_used old i rows h e = elim (Option-cases (get i rows)) [
  | inl gone ↦ subst (λ o. may_rotate_again old o ≡ false) (sym (same ∙ gone)) refl
  | inr (s, found) ↦
      let used : is_some s.first_used_at ≡ true =
        get-All (WasUsed i) i rows s h found (get-id i rows s found) in
      subst (λ o. may_rotate_again old o ≡ false) (sym (same ∙ found)) (ground arith)
]
  where
    same : get_successor old rows ≡ get i rows
    same = ap (λ (r : Option ℕ). elim r [ none ↦ none | some j ↦ get j rows ]) e
