-- ===== src/Auth/Contest/Ring.antt =====
-- What the updates of a contest do to each row.
use tigerduck_backend.Prelude.{
  ℕ, ◌==◌, ◌≡◌, ◌<◌, subst, sym, arith, Bool, true, none, some, List, [], ◌∷◌, is_some, All,
  All-map, Bool-cases, inl, inr,
}
use tigerduck_backend.Prelude.Sorting.{DistinctKeys}
use tigerduck_backend.Auth.Session.{AuthSession, is_live, is_rotated, get, update, has_id}
use tigerduck_backend.Auth.Contest.{loses_to, superseded_by, supersede, leave_ring, settle_contest}

-- A session's columns agree: a reason stands exactly on a revoked row, a row in a ring is unused
-- while it is live, and a rotated one has been used.
pub record IsSound (next : ℕ) (s : AuthSession) : Type 0 where
  pub id_given : s.id < next
  pub reason : is_some s.revoked_reason ≡ is_some s.revoked_at
  pub ring_unused :
      is_live s ≡ true → is_some s.replaced_by_session_id ≡ true → s.first_used_at ≡ none
  pub rotated_used : is_rotated s.revoked_reason ≡ true → is_some s.first_used_at ≡ true

module _ {κ} (P : AuthSession → Type κ) where
  pub update-All :
      (p : AuthSession → Bool) (f : AuthSession → AuthSession) (rows : List AuthSession)
      → ((s : AuthSession) → p s ≡ true → P s → P (f s))
      → All P rows
      → All P (update p f rows)
  update-All p f [] keeps h = tt
  update-All p f (s ∷ rows) keeps h = (
    elim (Bool-cases (p s)) [ inl t ↦ rw t (keeps s t h.0) | inr n ↦ rw n h.0 ],
    update-All p f rows keeps h.1,
  )

pub supersede-IsSound :
    (next : ℕ) (ids : List ℕ) (winner now : ℕ) (rows : List AuthSession)
    → All (IsSound next) rows
    → All (IsSound next) (supersede ids winner now rows)
unfolding supersede
supersede-IsSound next ids winner now rows h =
    update-All (IsSound next) (loses_to ids) (superseded_by winner now) rows (λ s l k. ground arith)
      h

pub settle_contest-IsSound :
    (next winner now : ℕ) (rows : List AuthSession)
    → All (IsSound next) rows
    → All (IsSound next) (settle_contest winner now rows)
unfolding settle_contest
settle_contest-IsSound next winner now rows h =
    supersede-IsSound next _ winner now _
      (update-All (IsSound next) (has_id winner) leave_ring rows (λ s l k. ground arith) h)

-- The row `i` may join a ring: it is unused while it is live.
abbrev pub MayJoin : ℕ → AuthSession → Type 0
MayJoin i s = s.id ≡ i → is_live s ≡ true → s.first_used_at ≡ none

pub settle_contest-MayJoin :
    (i winner now : ℕ) (rows : List AuthSession)
    → All (MayJoin i) rows
    → All (MayJoin i) (settle_contest winner now rows)
unfolding settle_contest supersede
settle_contest-MayJoin i winner now rows h =
    update-All (MayJoin i) (loses_to _) (superseded_by winner now) _ (λ s l k. ground arith)
      (update-All (MayJoin i) (has_id winner) leave_ring rows (λ s l k. ground arith) h)

-- Ids are not shared: the row that an id fetches is the only one with it.
abbrev pub DistinctIds : List AuthSession → Type 0
DistinctIds rows = DistinctKeys (λ s. s.id) rows

pub get_unique :
    (i : ℕ) (rows : List AuthSession) (s : AuthSession)
    → DistinctIds rows
    → get i rows ≡ some s
    → All (λ r. r.id ≡ i → r ≡ s) rows
get_unique i [] s d e = tt
get_unique i (r ∷ rows) s d e = elim (Bool-cases (r.id == i)) [
  | inl same ↦
      let e' : some r ≡ some s = rw same at e in
      let q : r ≡ s = cc in ((λ _. q), All-map (λ y ne. λ e2. absurd (ground (arith, ne))) rows d.0)
  | inr other ↦
      let e' : get i rows ≡ some s = rw other at e in
      ((λ e2. absurd (ground arith)), get_unique i rows s d.1 e')
]

pub get-MayJoin :
    (i : ℕ) (rows : List AuthSession) (s : AuthSession)
    → DistinctIds rows
    → get i rows ≡ some s
    → s.first_used_at ≡ none
    → All (MayJoin i) rows
get-MayJoin i rows s d e u =
    All-map
      (λ r only. λ same _. subst (λ (x : AuthSession). x.first_used_at ≡ none) (sym (only same)) u)
      rows (get_unique i rows s d e)

pub get-id : (i : ℕ) (rows : List AuthSession) (s : AuthSession) → get i rows ≡ some s → s.id ≡ i
get-id i [] s e = absurd (cc)
get-id i (r ∷ rows) s e = elim (Bool-cases (r.id == i)) [
  | inl same ↦
      let e' : some r ≡ some s = rw same at e in
      let q : r ≡ s = cc in subst (λ (x : AuthSession). x.id ≡ i) q (ground arith)
  | inr other ↦ get-id i rows s (let e' : get i rows ≡ some s = rw other at e in e')
]

module _ {κ} (P : AuthSession → Type κ) where
  pub get-All :
      (i : ℕ) (rows : List AuthSession) (s : AuthSession) → All P rows → get i rows ≡ some s → P s
  get-All i [] s h e = absurd (cc)
  get-All i (r ∷ rows) s h e = elim (Bool-cases (r.id == i)) [
    | inl same ↦ let e' : some r ≡ some s = rw same at e in let q : r ≡ s = cc in subst P q h.0
    | inr other ↦ get-All i rows s h.1 (let e' : get i rows ≡ some s = rw other at e in e')
  ]

-- The row `i` stands in no ring.
abbrev pub IsAlone : ℕ → AuthSession → Type 0
IsAlone i s = s.id ≡ i → is_live s ≡ true → s.replaced_by_session_id ≡ none

pub settle_contest-IsAlone :
    (winner now : ℕ) (rows : List AuthSession)
    → All (IsAlone winner) (settle_contest winner now rows)
unfolding settle_contest supersede
settle_contest-IsAlone winner now rows =
    update-All (IsAlone winner) (loses_to _) (superseded_by winner now) _ (λ s l k. ground arith)
      (left rows)
  where
    left : (rows : List AuthSession) → All (IsAlone winner) (update (has_id winner) leave_ring rows)
    left [] = tt
    left (r ∷ rows) = (ground arith, left rows)
