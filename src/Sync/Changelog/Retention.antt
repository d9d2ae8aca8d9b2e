-- ===== src/Sync/Changelog/Retention.antt =====
-- What a purge does to the reads: made after it they are as before or answered with 410, and made
-- across it they skip the purged rows.
use tigerduck_backend.Prelude.{
  ℕ, ◌<◌, ◌≤◌, ◌≡◌, ◌≢◌, ltb→lt, refl, sym, ap, ◌∙◌, Bool, ◌&&◌, ◌⊎◌, some, List, arith, ltb, leb,
  ◌==◌, if◌then◌else◌, Bool-cases, Option-cases, inl, inr, filter, filter-filter, filter_congr, max,
  le→ltb_false,
}
use tigerduck_backend.Prelude.Sorting.{DistinctKeys, order_by, filter-order_by}
use native.Mathlib.Nat.{le_trans}
use tigerduck_backend.Sync.Changelog.{
  LogRow, SyncState, Db, page, revision_expired, select_changes, make_page, read_changes_from,
  read_changes,
}
use tigerduck_backend.Sync.Changelog.Paging.{rev}
use tigerduck_backend.Sync.Changelog.Consistency.{
  current_of, compacted_of, purged, kept, log-purge_user, current-purge_user, compacted-purge_user,
  DistinctKeys-filter,
}

module _ (user since current : ℕ) where
  abbrev wanted : LogRow → Bool
  wanted r = r.user_id == user && (ltb since r.revision && leb r.revision current)

  -- rows that no read wants make no difference to it
  select_changes-filter :
      (keep : LogRow → Bool) (log : List LogRow)
      → DistinctKeys rev log
      → ((r : LogRow) → (keep r && wanted r) ≡ wanted r)
      → select_changes user since current (filter keep log) ≡ select_changes user since current log
  unfolding select_changes
  select_changes-filter keep log d same =
      ap (filter wanted) (sym (filter-order_by rev keep log d))
      ∙ filter-filter wanted keep (order_by rev log)
      ∙ filter_congr (order_by rev log) same

-- a read is a 410 below the compacted revision, and a page of the wanted rows from there on
pub read_changes-eq :
    (db : Db) (v since limit : ℕ)
    → read_changes db v since limit ≡ (
        if ltb since (compacted_of (db.states v))
        then revision_expired (compacted_of (db.states v)) (current_of (db.states v))
        else page (
            make_page limit
              (current_of (db.states v))
              (select_changes v since (current_of (db.states v)) db.log)))
unfolding read_changes
read_changes-eq db v since limit = elim (Option-cases (db.states v)) [
  | inl e ↦ rw e refl
  | inr (s, e) ↦ rw e refl
]

-- after the purge: the same answer, or a 410 because `since` lies in the purged part
abbrev pub Agrees : Db → Db → ℕ → ℕ → ℕ → Type 0
Agrees db db' v since limit =
    (read_changes db' v since limit ≡ read_changes db v since limit)
    ⊎ (since < compacted_of (db'.states v))

module _ (user mark : ℕ) (db : Db) where
  abbrev pub after : Db
  after = purged user mark db

  -- no wanted row is deleted
  kept_wanted :
      (v since current : ℕ)
      → (v ≢ user) ⊎ ((current ≡ 0) ⊎ (mark ≤ since))
      → (r : LogRow) → (kept user mark db r && wanted v since current r) ≡ wanted v since current r
  kept_wanted v since current h r = ground arith

  select_unchanged :
      (v since : ℕ)
      → DistinctKeys rev db.log
      → (v ≢ user) ⊎ ((current_of (db.states v) ≡ 0) ⊎ (mark ≤ since))
      → select_changes v since (current_of (after.states v)) after.log
        ≡ select_changes v since (current_of (db.states v)) db.log
  select_unchanged v since d h = rw (current-purge_user user mark db v) (
      rw (log-purge_user user mark db) (
        select_changes-filter v since (current_of (db.states v)) (kept user mark db) db.log d
          (kept_wanted v since (current_of (db.states v)) h)))

  pub compacted_grows : (v : ℕ) → compacted_of (db.states v) ≤ compacted_of (after.states v)
  compacted_grows v = ground (arith, compacted-purge_user user mark db v)

  purged_part :
      (v since : ℕ)
      → compacted_of (after.states v) ≤ since
      → (v ≢ user) ⊎ ((current_of (db.states v) ≡ 0) ⊎ (mark ≤ since))
  purged_part v since h = elim (Option-cases (db.states v)) [
    | inl e ↦ inr (inl (rw e refl))
    | inr (s, e) ↦ ground (arith, compacted-purge_user user mark db v)
  ]

  pub purge_user-Agrees :
      (v since limit : ℕ) → DistinctKeys rev db.log → Agrees db after v since limit
  purge_user-Agrees v since limit d =
      elim (Bool-cases (ltb since (compacted_of (after.states v)))) [
        | inl early ↦ inr (ltb→lt _ _ early)
        | inr late ↦
            let c : compacted_of (after.states v) ≤ since = ground arith in
            inl (
              read_changes-eq after v since limit
              ∙ rw
                  (
                    le→ltb_false _ since c,
                    select_unchanged v since d (purged_part v since c),
                    current-purge_user user mark db v,
                  )
                  (sym (
                    read_changes-eq db v since limit
                    ∙ rw (le→ltb_false _ since (le_trans (compacted_grows v) c)) refl)))
      ]

  -- A read whose first query ran before the purge and whose second ran after it answers with a page
  -- that starts past the purged revisions: no 410, and nothing says that changes were left out.
  pub read-purge_gap :
      (s : SyncState) (since limit : ℕ)
      → DistinctKeys rev db.log
      → s.compacted_revision ≤ since
      → read_changes_from (some s) after.log user since limit
        ≡ page (
            make_page limit s.current_revision
              (select_changes user (max since mark) s.current_revision db.log))
  unfolding read_changes_from select_changes
  read-purge_gap s since limit d c = rw (le→ltb_false s.compacted_revision since c) (
      ap (λ l. page (make_page limit s.current_revision l))
        (ap (λ l. filter (wanted user since s.current_revision) (order_by rev l))
            (log-purge_user user mark db)
          ∙ ap (filter (wanted user since s.current_revision))
              (sym (filter-order_by rev (kept user mark db) db.log d))
          ∙ filter-filter _ _ (order_by rev db.log)
          ∙ filter_congr (order_by rev db.log) (λ r. ground arith)))

  pub DistinctKeys-purge_user : DistinctKeys rev db.log → DistinctKeys rev after.log
  DistinctKeys-purge_user d =
      rw (log-purge_user user mark db) (DistinctKeys-filter (kept user mark db) db.log d)
