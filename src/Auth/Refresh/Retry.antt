-- ===== src/Auth/Refresh/Retry.antt =====
-- A client that lost the reply to its refresh gets another.
use tigerduck_backend.Prelude.{
  ℕ, ◌<◌, ◌≡◌, ◌∙◌, refl, sym, ap, subst, arith, Bool, true, false, ◌&&◌, not, some, List, [], ◌∷◌,
  map, filter, String, ltb, lt→ltb, leb, ◌==◌, is_some, if◌then◌else◌, Bool-cases, inl, inr,
}
use tigerduck_backend.Auth.Session.{AuthSession, Db, is_live, get, has_id}
use tigerduck_backend.Auth.Contest.{
  settle_contest, supersede, loses_to, superseded_by, leave_ring, linked_ids,
}
use tigerduck_backend.Auth.Contest.Ring.{get-id}
use tigerduck_backend.Auth.Refresh.{
  AuthSettings, refresh_session, rotate, new_session, rotated_into, settled_rows, may_rotate_again,
  get_successor, db_of, answered,
}
use tigerduck_backend.Auth.Refresh.Safety.{is_replied, refresh_session-is_replied}

-- A row is found after a change of the rows that keeps ids, as the change leaves it.
pub get-map :
    (i : ℕ) (g : AuthSession → AuthSession) (rows : List AuthSession) (s : AuthSession)
    → ((r : AuthSession) → (g r).id ≡ r.id)
    → get i rows ≡ some s
    → get i (map g rows) ≡ some (g s)
get-map i g [] s same e = absurd (cc)
get-map i g (r ∷ rows) s same e = elim (Bool-cases (r.id == i)) [
  | inl here ↦
      let e' : some r ≡ some s = rw here at e in
      let q : r ≡ s = cc in
      let t : ((g r).id == i) ≡ true = subst (λ k. (k == i) ≡ true) (sym (same r)) here in
      rw t (ap (λ x. some (g x)) q)
  | inr other ↦
      let e' : get i rows ≡ some s = rw other at e in
      let t : ((g r).id == i) ≡ false = subst (λ k. (k == i) ≡ false) (sym (same r)) other in
      rw t (get-map i g rows s same e')
]

-- The user and the expiry of a row stay.
record Stays (s s' : AuthSession) : Type 0 where
  owner : s'.user_id ≡ s.user_id
  expiry : s'.expires_at ≡ s.expires_at

settle_contest-get :
    (i winner now : ℕ) (rows : List AuthSession) (s : AuthSession)
    → get i rows ≡ some s
    → (s' : AuthSession) × (get i (settle_contest winner now rows) ≡ some s') × Stays s s'
unfolding settle_contest supersede
settle_contest-get i winner now rows s e =
    let left =
      get-map i (λ r. if has_id winner r then leave_ring r else r) rows s (λ r. ground arith) e in
    let rivals = filter (λ j. not (j == winner)) (linked_ids rows winner) in
    let g = λ (r : AuthSession). if loses_to rivals r then superseded_by winner now r else r in
    (
      _,
      get-map i g _ _ (λ r. ground arith) left,
      record { owner = ground arith; expiry = ground arith },
    )

settled_rows-get :
    (i now : ℕ) (old : AuthSession) (rows : List AuthSession) (s : AuthSession)
    → get i rows ≡ some s
    → (s' : AuthSession) × (get i (settled_rows now old rows) ≡ some s') × Stays s s'
settled_rows-get i now old rows s e =
    elim (Bool-cases (is_live old && is_some old.replaced_by_session_id)) [
      | inl t ↦ rw t (settle_contest-get i old.id now rows s e)
      | inr f ↦ rw f (s, e, record { owner = refl; expiry = refl })
    ]

-- The row of a rotated token, as a retry finds it: it may be rotated again.
record IsRetry (old old' : AuthSession) (rows : List AuthSession) : Type 0 where
  found : get old.id rows ≡ some old'
  stays : Stays old old'
  unused : may_rotate_again old' (get_successor old' rows) ≡ true

get-head :
    (i : ℕ) (s : AuthSession) (rows : List AuthSession) → s.id ≡ i → get i (s ∷ rows) ≡ some s
get-head i s rows e = let t : (s.id == i) ≡ true = ground (arith, e) in rw t refl

get-tail :
    (i : ℕ) (s : AuthSession) (rows : List AuthSession) → i < s.id → get i (s ∷ rows) ≡ get i rows
get-tail i s rows lt = let f : (s.id == i) ≡ false = ground (arith, lt) in rw f refl

rotate-IsRetry :
    (c : AuthSettings) (now : ℕ) (token : String) (old : AuthSession) (db : Db)
    → get old.id db.sessions ≡ some old
    → old.id < db.next_id
    → (old' : AuthSession) × IsRetry old old' (rotate c now token old db).1.sessions
unfolding rotate
rotate-IsRetry c now token old db e low =
    let (s, found, stays) = settled_rows-get old.id now old db.sessions old e in
    let g = λ (r : AuthSession). if has_id old.id r then rotated_into now db.next_id r else r in
    let new = new_session c now token db.next_id old in
    let rows = map g (settled_rows now old db.sessions) in
    let changed = get-map old.id g (settled_rows now old db.sessions) s (λ r. ground arith) found in
    let mine : has_id old.id s ≡ true =
      ground (arith, get-id old.id (settled_rows now old db.sessions) s found) in
    let same : g s ≡ rotated_into now db.next_id s = rw mine refl in
    let head = get-head db.next_id new rows refl in
    (
      rotated_into now db.next_id s,
      record {
        found = get-tail old.id new rows low ∙ (changed ∙ ap some same);
        stays = record { owner = stays.owner; expiry = stays.expiry };
        unused =
            subst (λ o. may_rotate_again (rotated_into now db.next_id s) o ≡ true) (sym head) refl;
      },
    )

if_false : {A : Type 0} {b : Bool} (x y : A) → b ≡ false → (if b then x else y) ≡ y
if_false x y f = rw f refl

refresh_session-live :
    (c : AuthSettings) (now : ℕ) (token : String) (old : AuthSession) (db : Db)
    → db.user_active old.user_id ≡ true
    → is_live old ≡ true
    → now < old.expires_at
    → refresh_session c now token old db ≡ answered (rotate c now token old db)
unfolding refresh_session
refresh_session-live c now token old db active live early =
    let held : is_some old.revoked_at ≡ false = ground arith in
    let time : leb old.expires_at now ≡ false = ground arith in
    rw active (if_false _ _ held ∙ if_false _ _ time)

rotate-users :
    (c : AuthSettings) (now : ℕ) (token : String) (old : AuthSession) (db : Db)
    → (rotate c now token old db).1.user_active ≡ db.user_active
unfolding rotate
rotate-users c now token old db = refl

-- A client that presents its token again, having lost the reply to the refresh of its live session,
-- gets a reply, as long as the token has not expired and its user is active.
pub refresh_session-retry :
    (c : AuthSettings) (now later : ℕ) (token token' : String) (old : AuthSession) (db : Db)
    → get old.id db.sessions ≡ some old
    → old.id < db.next_id
    → db.user_active old.user_id ≡ true
    → is_live old ≡ true
    → now < old.expires_at
    → later < old.expires_at
    → let db' = db_of (refresh_session c now token old db) in
      (old' : AuthSession) × (get old.id db'.sessions ≡ some old')
      × (is_replied (refresh_session c later token' old' db') ≡ true)
refresh_session-retry c now later token token' old db e low active live early in_time =
    let next = (rotate c now token old db).1 in
    let (old', retry) = rotate-IsRetry c now token old db e low in
    let still : next.user_active old'.user_id ≡ true =
      subst (λ (f : ℕ → Bool). f old'.user_id ≡ true) (sym (rotate-users c now token old db))
        (subst (λ u. db.user_active u ≡ true) (sym retry.stays.owner) active) in
    let open_time : ltb later old'.expires_at ≡ true =
      lt→ltb later old'.expires_at (subst (λ t. later < t) (sym retry.stays.expiry) in_time) in
    let again : is_replied (refresh_session c later token' old' next) ≡ true =
      refresh_session-is_replied c later token' old' next
      ∙ ground (arith, still, open_time, retry.unused) in
    subst
      (λ o.
        (s : AuthSession) × (get old.id (db_of o).sessions ≡ some s)
        × (is_replied (refresh_session c later token' s (db_of o)) ≡ true))
      (sym (refresh_session-live c now token old db active live early)) (old', retry.found, again)
