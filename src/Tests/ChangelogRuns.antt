-- ===== src/Tests/ChangelogRuns.antt =====
-- server/sync/changelog.py and retention.py on a log of two users.
use native.Mathlib.Omega.{arith}
use tigerduck_backend.Prelude.{
  ℕ, ◌≡◌, refl, none, some, [], ◌∷◌, ◌++◌, map, max, if◌then◌else◌, ltb,
}
use tigerduck_backend.Prelude.Sorting.{order_by, DistinctKeys}
use tigerduck_backend.Sync.Changelog.Paging.{rev}
use tigerduck_backend.Sync.Changelog.{
  SyncState, Db, Change, log_row, change_entry, page, revision_expired, select_changes, make_page,
  append_change, read_changes, read_changes_from, purge_user, purge_expired_changelog,
}
use tigerduck_backend.Sync.Changelog.Paging.{pull, pull_complete}
use tigerduck_backend.Sync.Changelog.Consistency.{
  IsAppended, IsConsistent, current_of, compacted_of, append_change-IsConsistent,
}
use tigerduck_backend.Sync.Changelog.Retention.{read-purge_gap}
use tigerduck_backend.Sync.Changelog.Purge.{
  purge_expired_changelog-no_gap, purge_expired_changelog-IsConsistent,
}
use tigerduck_backend.Sync.Changelog.Ordering.{
  World, Steps, here, next, begin, insert, commit, IsOrdered, set_pending, append_all,
}
use tigerduck_backend.Sync.Changelog.Readers.{reads_skip_nothing}

abbrev edit : ℕ → Change
edit t = record {
  entity_type = "course";
  entity_id = "CS101";
  operation = "upsert";
  payload = none;
  device_id = none;
  created_at = t;
}

-- User 1 has the revisions 3, 5 and 8, user 2 the revision 4; the watermarks are 8 and 4.
abbrev sample : Db
sample = record {
  states = λ u.
      if ltb 2 u
      then none
      else some (record { current_revision = if ltb u 2 then 8 else 4; compacted_revision = 0 });
  log =
      log_row 3 1 (edit 10)
      ∷ log_row 5 1 (edit 20)
      ∷ log_row 4 2 (edit 15)
      ∷ log_row 8 1 (edit 30)
      ∷ [];
}

abbrev state_1 : SyncState
state_1 = record { current_revision = 8; compacted_revision = 0 }

pull_complete_example :
    pull 4 sample 1 2 3 ≡ some (map change_entry (select_changes 1 3 8 sample.log), 8)
unfolding select_changes order_by
pull_complete_example =
    pull_complete sample 1 1 state_1 refl (omega arith) 4 3 (omega arith) (omega arith)

read-purge_gap_example :
    read_changes_from (some state_1) (purge_user 1 5 sample).1.log 1 0 10
    ≡ page (make_page 10 8 (select_changes 1 (max 0 5) 8 sample.log))
read-purge_gap_example = read-purge_gap 1 5 sample state_1 0 10 (omega arith) (omega arith)

purge_expired_changelog-no_gap_example :
    let db' = (purge_expired_changelog 25 sample).1 in
    read_changes db' 1 6 10 ≡ (
      if ltb 6 (compacted_of (db'.states 1))
      then revision_expired (compacted_of (db'.states 1)) (current_of (db'.states 1))
      else read_changes sample 1 6 10)
purge_expired_changelog-no_gap_example =
    purge_expired_changelog-no_gap 25 sample 1 6 10 (omega arith)

abbrev start : Db
start = record { states = λ u. none; log = [] }

start-IsConsistent : IsConsistent start
start-IsConsistent = record { below = tt; compacted = λ u. omega arith; distinct = tt }

append_change-IsConsistent_example :
    IsAppended 3 1 (edit 10) start (append_change 3 1 (edit 10) none start).1
    × IsConsistent (append_change 3 1 (edit 10) none start).1
append_change-IsConsistent_example =
    append_change-IsConsistent 3 1 (edit 10) start tt (omega arith) start-IsConsistent

purge_expired_changelog-IsConsistent_example :
    IsConsistent (purge_expired_changelog 25 (append_change 3 1 (edit 10) none start).1).1
purge_expired_changelog-IsConsistent_example =
    purge_expired_changelog-IsConsistent 25 (append_change 3 1 (edit 10) none start).1
      (append_change-IsConsistent 3 1 (edit 10) start tt (omega arith) start-IsConsistent).1

-- User 1 takes the lock, inserts the revision 3 and commits.
abbrev idle : World
idle = record { db = start; last_value = 0; pending = λ u. none }

abbrev begun : World
begun = record idle { pending = set_pending 1 (some []) idle.pending }

abbrev inserted : World
inserted = record begun {
  last_value = 3;
  pending = set_pending 1 (some ((3, edit 10) ∷ [])) begun.pending;
}

abbrev committed : World
committed = record inserted {
  db = append_all 1 ((3, edit 10) ∷ []) start;
  pending = set_pending 1 none inserted.pending;
}

life : Steps idle committed
life =
    next (next (next here (begin 1 refl refl)) (insert 1 3 (edit 10) [] refl (omega arith) refl))
      (commit 1 ((3, edit 10) ∷ []) refl refl)

idle-IsOrdered : IsOrdered idle
idle-IsOrdered = record { below = λ u. omega arith; rises = λ u p e. absurd (cc) }

committed-distinct : DistinctKeys rev committed.db.log
unfolding append_all append_change
committed-distinct = omega arith

reads_skip_nothing_example :
    select_changes 1 0 (current_of (committed.db.states 1)) committed.db.log
    ≡ select_changes 1 0 (current_of (idle.db.states 1)) idle.db.log
      ++ select_changes 1
          (current_of (idle.db.states 1))
          (current_of (committed.db.states 1))
          committed.db.log
reads_skip_nothing_example =
    reads_skip_nothing {w = idle} {w' = committed} 1 0 idle-IsOrdered life tt committed-distinct
      (omega arith)
