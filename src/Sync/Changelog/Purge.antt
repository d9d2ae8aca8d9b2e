-- ===== src/Sync/Changelog/Purge.antt =====
-- The whole purge: the loop over the users' watermarks.
use tigerduck_backend.Prelude.{
  ℕ, ◌+◌, ◌≤◌, ◌≡◌, subst, refl, ap, ◌∙◌, false, ◌&&◌, Option, List, [], ◌∷◌, arith, ltb, ◌==◌,
  if◌then◌else◌, Bool-cases, Option-cases, inl, inr, All, get_or, All-map,
}
use tigerduck_backend.Prelude.Sorting.{DistinctKeys}
use native.Mathlib.Nat.{le_trans}
use tigerduck_backend.Sync.Changelog.{
  LogRow, SyncState, Db, revision_expired, read_changes, purge_user, purge_loop, watermark,
  watermarks, group_users, purge_expired_changelog,
}
use tigerduck_backend.Sync.Changelog.Paging.{rev}
use tigerduck_backend.Sync.Changelog.Consistency.{
  IsConsistent, current_of, compacted_of, purged, current-purge_user, purge_user-IsConsistent,
}
use tigerduck_backend.Sync.Changelog.Retention.{
  Agrees, read_changes-eq, purge_user-Agrees, compacted_grows, DistinctKeys-purge_user,
}

-- two purges in a row
Agrees-trans :
    (a b c : Db) (v since limit : ℕ)
    → compacted_of (b.states v) ≤ compacted_of (c.states v)
    → Agrees a b v since limit
    → Agrees b c v since limit
    → Agrees a c v since limit
Agrees-trans a b c v since limit grows (inl e) (inl f) = inl (f ∙ e)
Agrees-trans a b c v since limit grows (inr h) (inl f) = inr (omega arith)
Agrees-trans a b c v since limit grows _ (inr h) = inr h

purge_loop-grows :
    (ws : List (ℕ × ℕ)) (total : ℕ) (db : Db) (v : ℕ)
    → compacted_of (db.states v) ≤ compacted_of ((purge_loop ws (total, db)).1.states v)
unfolding purge_loop
purge_loop-grows [] total db v = omega arith
purge_loop-grows ((u, m) ∷ ws) total db v =
    le_trans (compacted_grows u m db v)
      (purge_loop-grows ws (total + (purge_user u m db).0) (purged u m db) v)

purge_loop-Agrees :
    (ws : List (ℕ × ℕ)) (total : ℕ) (db : Db) (v since limit : ℕ)
    → DistinctKeys rev db.log
    → Agrees db (purge_loop ws (total, db)).1 v since limit
unfolding purge_loop
purge_loop-Agrees [] total db v since limit d = inl refl
purge_loop-Agrees ((u, m) ∷ ws) total db v since limit d =
    Agrees-trans db (purged u m db) _ v since limit
      (purge_loop-grows ws (total + (purge_user u m db).0) (purged u m db) v)
      (purge_user-Agrees u m db v since limit d)
      (purge_loop-Agrees ws (total + (purge_user u m db).0) (purged u m db) v since limit
        (DistinctKeys-purge_user u m db d))

not_early :
    (db db' : Db) (v since limit : ℕ)
    → Agrees db db' v since limit
    → ltb since (compacted_of (db'.states v)) ≡ false
    → read_changes db' v since limit ≡ read_changes db v since limit
not_early db db' v since limit (inl same) late = same
not_early db db' v since limit (inr early) late = absurd (ground arith)

-- After the purge a read below the user's compacted revision is a 410, and any other read is
-- answered as it was before the purge.
pub purge_expired_changelog-no_gap :
    (cutoff : ℕ) (db : Db) (v since limit : ℕ)
    → DistinctKeys rev db.log
    → let db' = (purge_expired_changelog cutoff db).1 in
      read_changes db' v since limit ≡ (
        if ltb since (compacted_of (db'.states v))
        then revision_expired (compacted_of (db'.states v)) (current_of (db'.states v))
        else read_changes db v since limit)
unfolding purge_expired_changelog
purge_expired_changelog-no_gap cutoff db v since limit d =
    let db' = (purge_loop (watermarks cutoff db.log (group_users db.log)) (0, db)).1 in
    elim (Bool-cases (ltb since (compacted_of (db'.states v)))) [
      | inl early ↦ rw early (read_changes-eq db' v since limit ∙ rw early refl)
      | inr late ↦ rw late (
          not_early db db' v since limit
            (purge_loop-Agrees (watermarks cutoff db.log (group_users db.log)) 0 db v since limit d)
            late)
    ]

-- a user's watermark is the revision of one of the rows
watermark-le :
    (cutoff user : ℕ) (log : List LogRow) (st : ℕ → Option SyncState)
    → All (λ r. rev r ≤ current_of (st r.user_id)) log
    → get_or (watermark cutoff user log) 0 ≤ current_of (st user)
unfolding watermark
watermark-le cutoff user [] st h = omega arith
watermark-le cutoff user (r ∷ rs) st h =
    elim (Bool-cases (r.user_id == user && ltb r.created_at cutoff)) [
      | inl old ↦
          let same : r.user_id ≡ user = ground arith in
          let fits : rev r ≤ current_of (st user) =
            subst (λ u. rev r ≤ current_of (st u)) same h.0 in
          rw old (omega (arith, watermark-le cutoff user rs st h.1))
      | inr young ↦ rw young (watermark-le cutoff user rs st h.1)
    ]

abbrev MarksFit : Db → List (ℕ × ℕ) → Type 0
MarksFit db ws = All (λ w. w.1 ≤ current_of (db.states w.0)) ws

watermarks-MarksFit :
    (cutoff : ℕ) (db : Db) (us : List ℕ)
    → All (λ r. rev r ≤ current_of (db.states r.user_id)) db.log
    → MarksFit db (watermarks cutoff db.log us)
unfolding watermarks
watermarks-MarksFit cutoff db [] h = tt
watermarks-MarksFit cutoff db (u ∷ us) h = elim (Option-cases (watermark cutoff u db.log)) [
  | inl e ↦ rw (e, watermarks) (watermarks-MarksFit cutoff db us h)
  | inr (m, e) ↦
      rw (e, watermarks)
        (
          omega (arith, watermark-le cutoff u db.log db.states h, ap (λ o. get_or o 0) e),
          watermarks-MarksFit cutoff db us h,
        )
]

purge_loop-IsConsistent :
    (ws : List (ℕ × ℕ)) (total : ℕ) (db : Db)
    → MarksFit db ws
    → IsConsistent db
    → IsConsistent (purge_loop ws (total, db)).1
unfolding purge_loop
purge_loop-IsConsistent [] total db m h = h
purge_loop-IsConsistent ((u, m) ∷ ws) total db fit h =
    purge_loop-IsConsistent ws (total + (purge_user u m db).0) (purged u m db)
      (All-map {P = λ (w : ℕ × ℕ). w.1 ≤ current_of (db.states w.0)}
        (λ w le. rw (current-purge_user u m db w.0) le) ws fit.1)
      (purge_user-IsConsistent u m db fit.0 h)

-- The purge keeps the log consistent.
pub purge_expired_changelog-IsConsistent :
    (cutoff : ℕ) (db : Db) → IsConsistent db → IsConsistent (purge_expired_changelog cutoff db).1
unfolding purge_expired_changelog
purge_expired_changelog-IsConsistent cutoff db h =
    purge_loop-IsConsistent (watermarks cutoff db.log (group_users db.log)) 0 db
      (watermarks-MarksFit cutoff db (group_users db.log) h.below) h
