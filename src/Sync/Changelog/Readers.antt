-- ===== src/Sync/Changelog/Readers.antt =====
-- Readers beside concurrent writers: what a client has read up to a watermark is never added to.
use tigerduck_backend.Prelude.{
  ℕ, ◌<◌, ◌≤◌, ◌≡◌, refl, sym, ap, ◌∙◌, Bool, ◌&&◌, subst, none, List, [], ◌∷◌, ◌++◌, arith, ltb,
  leb, ◌==◌, Bool-cases, inl, inr, filter, filter-append, filter-filter, filter_congr,
  filter_congr_All, filter_none, All, All-map,
}
use native.Mathlib.Decide.{ℕ_discrete}
use native.Mathlib.Nat.{le_trans}
use mathlib.Core.List.{append-nil}
use tigerduck_backend.Prelude.Sorting.{
  DistinctKeys, Ascending, order_by, filter-order_by, order_by-Ascending,
}
use tigerduck_backend.Sync.Changelog.{LogRow, Db, Change, log_row, select_changes, append_change}
use tigerduck_backend.Sync.Changelog.Paging.{rev}
use tigerduck_backend.Sync.Changelog.Consistency.{
  current_of, log-append_change, current-append_change,
}
use tigerduck_backend.Sync.Changelog.Ordering.{
  append_all, World, Step, begin, insert, commit, rollback, Steps, here, next, Rises, IsOrdered,
  Step-IsOrdered, current-append_all_ne, current-append_all,
}

module _ (v c : ℕ) where
  -- the user's rows at or below `c`
  abbrev seen : LogRow → Bool
  seen r = r.user_id == v && leb (rev r) c

  seen-append_change :
      (user r : ℕ) (d : Change) (db : Db)
      → c ≤ current_of (db.states v)
      → current_of (db.states user) < r
      → filter seen (append_change r user d none db).1.log ≡ filter seen db.log
  seen-append_change user r d db low lt =
      rw (log-append_change r user d db)
        (filter-append seen db.log _ ∙ rw (unseen (ℕ_discrete user v)) (append-nil _))
    where
      unseen : Dec (user ≡ v) → filter seen (log_row r user d ∷ []) ≡ []
      unseen (yes same) = let le : c ≤ current_of (db.states user) = rw same low in ground arith
      unseen (no other) = ground arith

  seen-append_all :
      (user high : ℕ) (p : List (ℕ × Change)) (db : Db)
      → c ≤ current_of (db.states v)
      → Rises (current_of (db.states user)) high p
      → filter seen (append_all user p db).log ≡ filter seen db.log
  unfolding append_all
  seen-append_all user high [] db low h = refl
  seen-append_all user high ((r, d) ∷ p) db low h =
      let moved : current_of ((append_change r user d none db).1.states user) ≡ r =
        ground (arith, current-append_change r user d db user) in
      seen-append_all user high p (append_change r user d none db).1 (still (ℕ_discrete v user))
        (rw moved h.1)
      ∙ seen-append_change user r d db low h.0
    where
      still : Dec (v ≡ user) → c ≤ current_of ((append_change r user d none db).1.states v)
      still (yes same) =
          let le : c ≤ current_of (db.states user) =
            subst (λ z. c ≤ current_of (db.states z)) same low in
          ground (arith, current-append_change r user d db v, h.0)
      still (no other) = ground (arith, current-append_change r user d db v)

  -- one step adds no row that a reader of the watermark `c` should have seen
  seen-Step :
      {w w' : World}
      → Step w w'
      → IsOrdered w
      → c ≤ current_of (w.db.states v)
      → (filter seen w'.db.log ≡ filter seen w.db.log) × (c ≤ current_of (w'.db.states v))
  seen-Step (begin user free e) h low = (ap (λ (x : World). filter seen x.db.log) e, rw e low)
  seen-Step (insert user rev' d p held lt e) h low =
      (ap (λ (x : World). filter seen x.db.log) e, rw e low)
  seen-Step (rollback user p held e) h low = (ap (λ (x : World). filter seen x.db.log) e, rw e low)
  seen-Step {w} (commit user p held e) h low =
      let up = current-append_all user w.last_value p w.db (h.rises user p held) in
      (
        ap (λ (x : World). filter seen x.db.log) e
            ∙ seen-append_all user w.last_value p w.db low (h.rises user p held),
        rw e (elim (ℕ_discrete v user) [
          | yes same ↦ le_trans low (
              subst
                (λ z. current_of (w.db.states z) ≤ current_of ((append_all user p w.db).states z))
                (sym same) up.0)
          | no other ↦ rw (current-append_all_ne user v p w.db other) low
        ]),
      )

  seen-Steps :
      {w w' : World}
      → Steps w w'
      → IsOrdered w
      → c ≤ current_of (w.db.states v)
      → (filter seen w'.db.log ≡ filter seen w.db.log)
        × (c ≤ current_of (w'.db.states v))
        × IsOrdered w'
  seen-Steps here h low = (refl, low, h)
  seen-Steps (next steps step) h low =
      let (same, low', h') = seen-Steps steps h low in
      let (same', low'') = seen-Step step h' low' in (same' ∙ same, low'', Step-IsOrdered step h')

module _ (v since c c' : ℕ) (low : since ≤ c) (up : c ≤ c') where
  abbrev between : ℕ → ℕ → LogRow → Bool
  between a b r = r.user_id == v && (ltb a (rev r) && leb (rev r) b)

  -- in ascending rows, those up to `c` come before those past it
  split_at :
      (l : List LogRow)
      → Ascending rev l
      → filter (between since c') l ≡ filter (between since c) l ++ filter (between c c') l
  split_at [] s = refl
  split_at (x ∷ xs) s = elim (Bool-cases (leb (rev x) c)) [
    | inl le ↦ ground (arith, split_at xs s.1)
    | inr gt ↦
        let past : All (λ y. c < rev y) (x ∷ xs) =
          (ground arith, All-map {P = λ y. rev x < rev y} (λ y lt. ground arith) xs s.0) in
        filter_congr_All (between since c') (between c c') (x ∷ xs)
          (All-map {P = λ y. c < rev y} (λ y lt. ground arith) (x ∷ xs) past)
        ∙ ap (λ l. l ++ filter (between c c') (x ∷ xs))
            (sym (
              filter_none (between since c) (x ∷ xs)
                (All-map {P = λ y. c < rev y} (λ y lt. ground arith) (x ∷ xs) past)))
  ]

select_changes-split :
    (v since c c' : ℕ)
    → since ≤ c
    → c ≤ c'
    → (log : List LogRow) → DistinctKeys rev log
    → select_changes v since c' log ≡ select_changes v since c log ++ select_changes v c c' log
unfolding select_changes
select_changes-split v since c c' low up log d =
    split_at v since c c' low up (order_by rev log) (order_by-Ascending rev log d)

-- rows that agree up to `c` give the same read up to `c`
select_changes-seen :
    (v since c : ℕ) (log log' : List LogRow)
    → DistinctKeys rev log
    → DistinctKeys rev log'
    → filter (seen v c) log' ≡ filter (seen v c) log
    → select_changes v since c log' ≡ select_changes v since c log
unfolding select_changes
select_changes-seen v since c log log' d d' same =
    sorted_last log' d'
    ∙ ap (λ l. order_by rev (filter (λ r. ltb since (rev r)) l)) same
    ∙ sym (sorted_last log d)
  where
    sorted_last :
        (l : List LogRow)
        → DistinctKeys rev l
        → filter
            (λ r. r.user_id == v && (ltb since r.revision && leb r.revision c))
            (order_by rev l)
          ≡ order_by rev (filter (λ r. ltb since (rev r)) (filter (seen v c) l))
    sorted_last l dl =
        filter-order_by rev _ l dl
        ∙ ap (order_by rev)
            (sym (filter-filter _ (seen v c) l ∙ filter_congr l (λ r. ground arith)))

-- A client that has read up to its user's watermark and later reads on from there has, whatever
-- transactions began, inserted, committed or rolled back in between, the rows of one read made now.
pub reads_skip_nothing :
    {w w' : World} (v since : ℕ)
    → IsOrdered w
    → Steps w w'
    → DistinctKeys rev w.db.log
    → DistinctKeys rev w'.db.log
    → since ≤ current_of (w.db.states v)
    → select_changes v since (current_of (w'.db.states v)) w'.db.log
      ≡ select_changes v since (current_of (w.db.states v)) w.db.log
        ++ select_changes v (current_of (w.db.states v)) (current_of (w'.db.states v)) w'.db.log
reads_skip_nothing {w} {w'} v since h steps d d' le =
    let c = current_of (w.db.states v) in
    let (same, grown, _) = seen-Steps v c steps h (omega arith) in
    select_changes-split v since c (current_of (w'.db.states v)) le grown w'.db.log d'
    ∙ ap (λ l. l ++ select_changes v c (current_of (w'.db.states v)) w'.db.log)
        (select_changes-seen v since c w.db.log w'.db.log d d' same)
