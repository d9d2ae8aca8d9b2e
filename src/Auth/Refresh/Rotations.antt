-- ===== src/Auth/Refresh/Rotations.antt =====
-- A rotation, the first or a later one, keeps every row sound.
use tigerduck_backend.Prelude.{
  ℕ, suc, ◌≡◌, refl, arith, true, ◌&&◌, Option, none, some, List, [], ◌∷◌, String, ltb, is_some,
  get_or, All, All-map, Bool-cases, inl, inr, length,
}
use tigerduck_backend.Prelude.Sorting.{order_by}
use tigerduck_backend.Auth.Session.{AuthSession, Db, is_live, update, has_id}
use tigerduck_backend.Auth.Contest.{linked_ids}
use tigerduck_backend.Auth.Contest.Ring.{
  IsSound, MayJoin, update-All, settle_contest-IsSound, settle_contest-MayJoin, supersede-IsSound,
}
use tigerduck_backend.Auth.Refresh.{
  AuthSettings, rotate, rotate_again, new_session, rotated_into, settled_rows, join_ring, cut_ring,
  unused_sessions_kept, points_at,
}

new_session-IsSound :
    (c : AuthSettings) (now : ℕ) (token : String) (i : ℕ) (old : AuthSession)
    → IsSound (suc i) (new_session c now token i old)
new_session-IsSound c now token i old = ground arith

IsSound-suc : {next : ℕ} (s : AuthSession) → IsSound next s → IsSound (suc next) s
IsSound-suc s h = ground arith

settled_rows-IsSound :
    (next now : ℕ) (old : AuthSession) (rows : List AuthSession)
    → All (IsSound next) rows
    → All (IsSound next) (settled_rows now old rows)
settled_rows-IsSound next now old rows h =
    elim (Bool-cases (is_live old && is_some old.replaced_by_session_id)) [
      | inl t ↦ rw t (settle_contest-IsSound next old.id now rows h)
      | inr f ↦ rw f h
    ]

settled_rows-MayJoin :
    (i now : ℕ) (old : AuthSession) (rows : List AuthSession)
    → All (MayJoin i) rows
    → All (MayJoin i) (settled_rows now old rows)
settled_rows-MayJoin i now old rows h =
    elim (Bool-cases (is_live old && is_some old.replaced_by_session_id)) [
      | inl t ↦ rw t (settle_contest-MayJoin i old.id now rows h)
      | inr f ↦ rw f h
    ]

pub rotate-IsSound :
    (c : AuthSettings) (now : ℕ) (token : String) (old : AuthSession) (db : Db)
    → All (IsSound db.next_id) db.sessions
    → All (IsSound (suc db.next_id)) (rotate c now token old db).1.sessions
unfolding rotate
rotate-IsSound c now token old db h = (
  new_session-IsSound c now token db.next_id old,
  update-All (IsSound (suc db.next_id)) (has_id old.id) (rotated_into now db.next_id) _
      (λ s l k. ground arith)
      (All-map (λ s k. IsSound-suc s k) _ (settled_rows-IsSound db.next_id now old db.sessions h)),
)

rotate-MayJoin :
    (i : ℕ) (c : AuthSettings) (now : ℕ) (token : String) (old : AuthSession) (db : Db)
    → All (MayJoin i) db.sessions
    → All (MayJoin i) (rotate c now token old db).1.sessions
unfolding rotate
rotate-MayJoin i c now token old db h = (
  λ _ _. refl,
  update-All (MayJoin i) (has_id old.id) (rotated_into now db.next_id) _ (λ s l k. ground arith)
      (settled_rows-MayJoin i now old db.sessions h),
)

IsSound-MayJoin : (next : ℕ) (s : AuthSession) → IsSound next s → MayJoin next s
IsSound-MayJoin next s h e l = absurd (ground arith)

-- A sound row, and one that may join a ring if it is `i` or `j`.
record IsReady (next i j : ℕ) (s : AuthSession) : Type 0 where
  sound : IsSound next s
  first : MayJoin i s
  second : MayJoin j s

IsReady-All :
    (next i j : ℕ) (rows : List AuthSession)
    → All (IsSound next) rows
    → All (MayJoin i) rows
    → All (MayJoin j) rows
    → All (IsReady next i j) rows
IsReady-All next i j [] a b c = tt
IsReady-All next i j (s ∷ rows) a b c =
    (record { sound = a.0; first = b.0; second = c.0 }, IsReady-All next i j rows a.1 b.1 c.1)

points_at-IsSound :
    (next : ℕ) (t : Option ℕ) (s : AuthSession)
    → IsSound next s
    → (is_live s ≡ true → s.first_used_at ≡ none)
    → IsSound next (points_at t s)
points_at-IsSound next t s h k = ground (arith, k)

module _ (next i j : ℕ) (t : Option ℕ) (rows : List AuthSession)
    (h : All (IsReady next i j) rows) where
  point_first-IsReady : All (IsReady next i j) (update (has_id i) (points_at t) rows)
  point_first-IsReady =
      update-All (IsReady next i j) (has_id i) (points_at t) rows
        (λ s l k. record {
          sound = points_at-IsSound next t s k.sound (k.first (ground arith));
          first = k.first;
          second = k.second;
        })
        h

  point_second-IsReady : All (IsReady next i j) (update (has_id j) (points_at t) rows)
  point_second-IsReady =
      update-All (IsReady next i j) (has_id j) (points_at t) rows
        (λ s l k. record {
          sound = points_at-IsSound next t s k.sound (k.second (ground arith));
          first = k.first;
          second = k.second;
        })
        h

cut_ring-IsSound :
    (next i j now : ℕ) (rows : List AuthSession)
    → All (IsReady next i j) rows
    → All (IsSound next) (cut_ring i now rows)
unfolding cut_ring
cut_ring-IsSound next i j now rows h =
    elim (Bool-cases
      (ltb unused_sessions_kept (length (order_by (λ (j : ℕ). j) (linked_ids rows i))))) [
        | inl long ↦ rw long (
            supersede-IsSound next _ i now _
              (All-map (λ s k. k.sound) _ (point_first-IsReady next i j _ rows h)))
        | inr short ↦ rw short (All-map (λ s k. k.sound) rows h)
      ]

pub rotate_again-IsSound :
    (c : AuthSettings) (now : ℕ) (token : String) (old successor : AuthSession) (db : Db)
    → All (IsSound db.next_id) db.sessions
    → All (MayJoin successor.id) db.sessions
    → All (IsSound (suc db.next_id)) (rotate_again c now token old successor db).1.sessions
unfolding rotate_again
rotate_again-IsSound c now token old successor db h k =
    let next = (rotate c now token old db).1.sessions in
    let ready =
      IsReady-All (suc db.next_id) db.next_id successor.id next
        (rotate-IsSound c now token old db h)
        (rotate-MayJoin db.next_id c now token old db
          (All-map (λ s q. IsSound-MayJoin db.next_id s q) db.sessions h))
        (rotate-MayJoin successor.id c now token old db k) in
    let joined : All (IsReady (suc db.next_id) db.next_id successor.id)
        (join_ring db.next_id successor next) =
      point_second-IsReady (suc db.next_id) db.next_id successor.id (some db.next_id)
        (update (has_id db.next_id)
          (points_at (some (get_or successor.replaced_by_session_id successor.id))) next)
        (point_first-IsReady (suc db.next_id) db.next_id successor.id
          (some (get_or successor.replaced_by_session_id successor.id)) next ready) in
    update-All (IsSound (suc db.next_id)) (has_id old.id)
      (λ s. record s { rerotated_at = some now }) _ (λ s l q. ground arith)
      (cut_ring-IsSound (suc db.next_id) db.next_id successor.id now
        (join_ring db.next_id successor next) joined)
