-- ===== src/Sync/Changelog/Ordering.antt =====
-- Concurrent writers of the log. A transaction holds its user's row lock from its first append to
-- its end, so at most one is open for each user; the sequence hands out revisions at the insert,
-- and readers see what was committed.
use tigerduck_backend.Prelude.{
  ℕ, ◌<◌, ◌≤◌, ◌≡◌, ◌≢◌, refl, sym, ◌∙◌, ◌⊎◌, subst, Option, none, some, List, [], ◌∷◌, ◌++◌, arith,
  ◌==◌, if◌then◌else◌, Bool-cases, inl, inr,
}
use native.Mathlib.Decide.{ℕ_discrete}
use tigerduck_backend.Sync.Changelog.{Db, Change, append_change}
use tigerduck_backend.Sync.Changelog.Consistency.{current_of, current-append_change}

-- The appends of a transaction, in order, as its commit shows them.
unfoldable pub append_all : ℕ → List (ℕ × Change) → Db → Db
append_all user [] db = db
append_all user ((rev', c) ∷ rest) db = append_all user rest (append_change rev' user c none db).1

pub record World : Type 0 where
  pub db : Db
  pub last_value : ℕ
  pub pending : ℕ → Option (List (ℕ × Change))

abbrev pub set_pending :
    ℕ
    → Option (List (ℕ × Change))
    → (ℕ → Option (List (ℕ × Change)))
    → ℕ
    → Option (List (ℕ × Change))
set_pending user p old u = if u == user then p else old u

pub data Step (w w' : World) : Type 0 where
  begin :
      (user : ℕ)
      → w.pending user ≡ none
      → w' ≡ record w { pending = set_pending user (some []) w.pending }
      → Step w w'
  insert :
      (user rev' : ℕ) (c : Change) (p : List (ℕ × Change))
      → w.pending user ≡ some p
      → w.last_value < rev'
      → w' ≡ record w {
        last_value = rev';
        pending = set_pending user (some (p ++ (rev', c) ∷ [])) w.pending;
      }
      → Step w w'
  commit :
      (user : ℕ) (p : List (ℕ × Change))
      → w.pending user ≡ some p
      → w' ≡ record w { db = append_all user p w.db; pending = set_pending user none w.pending }
      → Step w w'
  rollback :
      (user : ℕ) (p : List (ℕ × Change))
      → w.pending user ≡ some p
      → w' ≡ record w { pending = set_pending user none w.pending }
      → Step w w'

pub data Steps (w : World) : World → Type 0 where
  here : Steps w w
  next : {w' w'' : World} → Steps w w' → Step w' w'' → Steps w w''

-- The revisions of a transaction rise from its user's watermark up to the sequence's value.
abbrev pub Rises : ℕ → ℕ → List (ℕ × Change) → Type 0
Rises low high [] = low ≤ high
Rises low high ((r, c) ∷ rest) = (low < r) × Rises r high rest

pub record IsOrdered (w : World) : Type 0 where
  pub below : (u : ℕ) → current_of (w.db.states u) ≤ w.last_value
  pub rises :
      (u : ℕ) (p : List (ℕ × Change))
      → w.pending u ≡ some p
      → Rises (current_of (w.db.states u)) w.last_value p

Rises-insert :
    (low high rev' : ℕ) (c : Change) (p : List (ℕ × Change))
    → Rises low high p
    → high < rev'
    → Rises low rev' (p ++ (rev', c) ∷ [])
Rises-insert low high rev' c [] h lt = (omega arith, omega arith)
Rises-insert low high rev' c ((r, d) ∷ p) h lt = (h.0, Rises-insert r high rev' c p h.1 lt)

Rises-weaken :
    (low high high' : ℕ) (p : List (ℕ × Change))
    → Rises low high p
    → high ≤ high'
    → Rises low high' p
Rises-weaken low high high' [] h le = omega arith
Rises-weaken low high high' ((r, d) ∷ p) h le = (h.0, Rises-weaken r high high' p h.1 le)

-- a commit leaves other users' watermarks alone
pub current-append_all_ne :
    (user v : ℕ) (p : List (ℕ × Change)) (db : Db)
    → v ≢ user
    → current_of ((append_all user p db).states v) ≡ current_of (db.states v)
unfolding append_all
current-append_all_ne user v [] db h = refl
current-append_all_ne user v ((r, c) ∷ p) db h =
    current-append_all_ne user v p (append_change r user c none db).1 h
    ∙ ground (arith, current-append_change r user c db v)

-- its own user's watermark moves up, within what the sequence has handed out
pub current-append_all :
    (user high : ℕ) (p : List (ℕ × Change)) (db : Db)
    → Rises (current_of (db.states user)) high p
    → (current_of (db.states user) ≤ current_of ((append_all user p db).states user))
      × (current_of ((append_all user p db).states user) ≤ high)
unfolding append_all
current-append_all user high [] db h = omega arith
current-append_all user high ((r, c) ∷ p) db h =
    let moved : current_of ((append_change r user c none db).1.states user) ≡ r =
      ground (arith, current-append_change r user c db user) in
    let ih = current-append_all user high p (append_change r user c none db).1 (rw moved h.1) in
    omega (arith, ih, moved, h.0)

-- what the update at `user` shows at `u`
set_pending_cases :
    (user : ℕ) (p : Option (List (ℕ × Change))) (old : ℕ → Option (List (ℕ × Change))) (u : ℕ)
    (q : List (ℕ × Change))
    → set_pending user p old u ≡ some q
    → (user ≡ u) × (p ≡ some q) ⊎ (u ≢ user) × (old u ≡ some q)
set_pending_cases user p old u q e = elim (Bool-cases (u == user)) [
  | inl same ↦ inl (ground arith, ground arith)
  | inr other ↦ inr (ground arith, ground arith)
]

some-eq : {p q : List (ℕ × Change)} → some p ≡ some q → p ≡ q
some-eq e = cc

module _ {w : World} (h : IsOrdered w) (user : ℕ) where
  -- the lock's transaction begins or ends without a write
  set_pending-IsOrdered :
      (p : Option (List (ℕ × Change)))
      → (p ≡ none) ⊎ (p ≡ some [])
      → IsOrdered (record w { pending = set_pending user p w.pending })
  set_pending-IsOrdered p small = record {
    below = h.below;
    rises = λ u q e. elim (set_pending_cases user p w.pending u q e) [
      | inl (same, held) ↦ subst (Rises _ w.last_value) (empty q held small) (h.below u)
      | inr (other, held) ↦ h.rises u q held
    ];
  }
    where
      empty : (q : List (ℕ × Change)) → p ≡ some q → (p ≡ none) ⊎ (p ≡ some []) → [] ≡ q
      empty q held (inl e) = cc
      empty q held (inr e) = cc

  insert-IsOrdered :
      (rev' : ℕ) (c : Change) (p : List (ℕ × Change))
      → w.pending user ≡ some p
      → w.last_value < rev'
      → IsOrdered (record w {
        last_value = rev';
        pending = set_pending user (some (p ++ (rev', c) ∷ [])) w.pending;
      })
  insert-IsOrdered rev' c p held lt = record {
    below = λ u. omega (arith, h.below u);
    rises = λ u q e. elim (set_pending_cases user (some (p ++ (rev', c) ∷ [])) w.pending u q e) [
      | inl (same, new) ↦
          subst (λ v. Rises (current_of (w.db.states v)) rev' q) same
            (subst (Rises _ rev') (some-eq new)
              (Rises-insert _ w.last_value rev' c p (h.rises user p held) lt))
      | inr (other, old) ↦ Rises-weaken _ w.last_value rev' q (h.rises u q old) (omega arith)
    ];
  }

  commit-IsOrdered :
      (p : List (ℕ × Change))
      → w.pending user ≡ some p
      → IsOrdered
          (record w { db = append_all user p w.db; pending = set_pending user none w.pending })
  commit-IsOrdered p held =
      let moved = current-append_all user w.last_value p w.db (h.rises user p held) in
      record {
        below = λ u. elim (ℕ_discrete user u) [
          | yes same ↦
              subst (λ v. current_of ((append_all user p w.db).states v) ≤ w.last_value) same
                moved.1
          | no other ↦
              omega (arith, h.below u, current-append_all_ne user u p w.db (λ e. other (sym e)))
        ];
        rises = λ u q e. elim (set_pending_cases user none w.pending u q e) [
          | inl (same, new) ↦ absurd (cc)
          | inr (other, old) ↦ rw (current-append_all_ne user u p w.db other) (h.rises u q old)
        ];
      }

-- Each step keeps the order.
pub Step-IsOrdered : {w w' : World} → Step w w' → IsOrdered w → IsOrdered w'
Step-IsOrdered (begin user free e) h =
    subst IsOrdered (sym e) (set_pending-IsOrdered h user (some []) (inr refl))
Step-IsOrdered (insert user rev' c p held lt e) h =
    subst IsOrdered (sym e) (insert-IsOrdered h user rev' c p held lt)
Step-IsOrdered (commit user p held e) h = subst IsOrdered (sym e) (commit-IsOrdered h user p held)
Step-IsOrdered (rollback user p held e) h =
    subst IsOrdered (sym e) (set_pending-IsOrdered h user none (inl refl))
