-- ===== src/Sync/Changelog.antt =====
-- server/sync/changelog.py and server/sync/retention.py: the per-user change log, its watermark,
-- the paged reads and the retention purge. Revisions, users and times are numbers; `rev` is the
-- value that the `revision` column's sequence hands out at the insert.
pub mod Paging
pub mod Consistency
pub mod Retention
pub mod Purge
pub mod Ordering
pub mod Readers
use tigerduck_backend.Prelude.{
  ℕ, suc, ◌≤◌, ◌+◌, ◌≡◌, Bool, true, false, ◌&&◌, Option, none, some, List, [], ◌∷◌, ◌++◌, map,
  String, max, ltb, leb, ◌==◌, if◌then◌else◌, get_or, length, take, filter, any, count_if,
  get_last?,
}
use mathlib.Core.Option
use tigerduck_backend.Prelude.Sorting.{order_by}

-- A row of `user_change_log`.
pub record LogRow : Type 0 where
  pub revision : ℕ
  pub user_id : ℕ
  pub entity_type : String
  pub entity_id : String
  pub operation : String
  pub payload : Option String
  pub device_id : Option ℕ
  pub created_at : ℕ

-- A row of `user_sync_state`.
pub record SyncState : Type 0 where
  pub current_revision : ℕ
  pub compacted_revision : ℕ

pub record Db : Type 0 where
  pub states : ℕ → Option SyncState
  pub log : List LogRow

-- The column defaults of a new `user_sync_state` row.
abbrev pub new_state : SyncState
new_state = record { current_revision = 0; compacted_revision = 0 }

unfoldable pub set_state : ℕ → SyncState → Db → Db
set_state user s db = record db { states = λ u. if u == user then some s else db.states u }

-- INSERT … ON CONFLICT DO NOTHING, then the row under its lock.
unfoldable pub lock_sync_state : ℕ → Db → SyncState × Db
unfolding set_state
lock_sync_state user db = elim (db.states user) [
  | none ↦ (new_state, set_state user new_state db)
  | some s ↦ (s, db)
]

-- What the caller of `append_change` supplies for the new row.
pub record Change : Type 0 where
  pub entity_type : String
  pub entity_id : String
  pub operation : String
  pub payload : Option String
  pub device_id : Option ℕ
  pub created_at : ℕ

abbrev pub log_row : ℕ → ℕ → Change → LogRow
log_row rev user c = record {
  revision = rev;
  user_id = user;
  entity_type = c.entity_type;
  entity_id = c.entity_id;
  operation = c.operation;
  payload = c.payload;
  device_id = c.device_id;
  created_at = c.created_at;
}

-- `locked_state or await lock_sync_state(session, user_id)`
unfoldable pub locked_or : Option SyncState → ℕ → Db → SyncState × Db
unfolding lock_sync_state
locked_or (some s) user db = (s, db)
locked_or none user db = lock_sync_state user db

-- `locked_state` is the row that the caller has locked already.
unfoldable pub append_change : ℕ → ℕ → Change → Option SyncState → Db → ℕ × Db
unfolding locked_or set_state
append_change rev user c locked_state db =
    let (state, db') = locked_or locked_state user db in
    (
      rev,
      set_state user (record state { current_revision = rev })
          (record db' { log = db'.log ++ log_row rev user c ∷ [] }),
    )

pub record ChangeEntry : Type 0 where
  pub revision : ℕ
  pub entity_type : String
  pub entity_id : String
  pub operation : String
  pub payload : Option String

pub record ChangePage : Type 0 where
  pub changes : List ChangeEntry
  pub current_revision : ℕ
  pub returned_until_revision : ℕ
  pub has_more : Bool

-- `RevisionExpired` is the exception that the API answers with 410.
pub data ReadResult : Type 0 where
  page : ChangePage → ReadResult
  revision_expired : ℕ → ℕ → ReadResult

abbrev pub change_entry : LogRow → ChangeEntry
change_entry r = record {
  revision = r.revision;
  entity_type = r.entity_type;
  entity_id = r.entity_id;
  operation = r.operation;
  payload = r.payload;
}

-- The rows of the second query, before its LIMIT.
unfoldable pub select_changes : ℕ → ℕ → ℕ → List LogRow → List LogRow
select_changes user since current log =
    filter (λ r. r.user_id == user && (ltb since r.revision && leb r.revision current))
      (order_by (λ r. r.revision) log)

-- `changes[-1].revision if has_more and changes else current`
unfoldable pub returned_until : Bool → List LogRow → ℕ → ℕ
returned_until has_more rows current =
    if has_more then elim (get_last? rows) [ none ↦ current | some r ↦ r.revision ] else current

unfoldable pub make_page : ℕ → ℕ → List LogRow → ChangePage
unfolding returned_until
make_page limit current selected =
    let fetched = take (suc limit) selected in
    let has_more = ltb limit (length fetched) in
    let rows = take limit fetched in
    record {
      changes = map change_entry rows;
      current_revision = current;
      returned_until_revision = returned_until has_more rows current;
      has_more = has_more;
    }

-- `read_changes` makes two queries: the state row first, the log rows after it. The first
-- argument is what the first query saw, and `log` what the second one reads.
unfoldable pub read_changes_from : Option SyncState → List LogRow → ℕ → ℕ → ℕ → ReadResult
read_changes_from state log user since limit =
    let s = get_or state new_state in
    if ltb since s.compacted_revision
    then revision_expired s.compacted_revision s.current_revision
    else page
        (make_page limit s.current_revision (select_changes user since s.current_revision log))

-- Both queries on one state of the database.
unfoldable pub read_changes : Db → ℕ → ℕ → ℕ → ReadResult
unfolding read_changes_from
read_changes db user since limit = read_changes_from (db.states user) db.log user since limit

-- retention.py: the largest revision of a user's rows created before the cutoff.
unfoldable pub watermark : ℕ → ℕ → List LogRow → Option ℕ
watermark cutoff user [] = none
watermark cutoff user (r ∷ rs) =
    let rest = watermark cutoff user rs in
    if r.user_id == user && ltb r.created_at cutoff
    then some (max r.revision (get_or rest 0))
    else rest

-- The body of the purge loop for one user: the delete and the bump of `compacted_revision`.
unfoldable pub purge_user : ℕ → ℕ → Db → ℕ × Db
unfolding set_state
purge_user user mark db =
    let old = λ (r : LogRow). r.user_id == user && leb r.revision mark in
    let deleted = record db { log = filter (λ r. if old r then false else true) db.log } in
    (
      count_if old db.log,
      elim (db.states user) [
        | none ↦ deleted
        | some s ↦
            set_state user (record s { compacted_revision = max s.compacted_revision mark }) deleted
      ],
    )

-- The loop over the watermarks, which the first query has read.
unfoldable pub purge_loop : List (ℕ × ℕ) → ℕ × Db → ℕ × Db
unfolding purge_user
purge_loop [] (total, db) = (total, db)
purge_loop ((user, mark) ∷ rest) (total, db) =
    let (n, db') = purge_user user mark db in purge_loop rest (total + n, db')

-- `GROUP BY user_id`: each user with a row, once.
unfoldable pub group_users : List LogRow → List ℕ
group_users [] = []
group_users (r ∷ rs) =
    let rest = group_users rs in if any (λ u. u == r.user_id) rest then rest else r.user_id ∷ rest

-- The first query: a watermark for each user who has an expired row.
unfoldable pub watermarks : ℕ → List LogRow → List ℕ → List (ℕ × ℕ)
unfolding watermark
watermarks cutoff log [] = []
watermarks cutoff log (u ∷ us) =
    let rest = watermarks cutoff log us in
    elim (watermark cutoff u log) [ none ↦ rest | some mark ↦ (u, mark) ∷ rest ]

-- The number of rows deleted, and the database that the commit leaves.
unfoldable pub purge_expired_changelog : ℕ → Db → ℕ × Db
unfolding watermarks group_users purge_loop
purge_expired_changelog cutoff db =
    purge_loop (watermarks cutoff db.log (group_users db.log)) (0, db)
