-- ===== src/Sync/Changelog/Consistency.antt =====
-- What holds of the log and the state rows between transactions: every row stands at or below its
-- user's watermark, and a revision names one row.
use tigerduck_backend.Prelude.{
  ℕ, ◌≤◌, ◌≡◌, ◌≢◌, refl, Bool, true, false, ◌&&◌, Option, is_some, none, some, List, [], ◌∷◌, ◌++◌,
  arith, leb, ◌==◌, if◌then◌else◌, All, All-append, All-map, All-filter, filter, max,
}
use tigerduck_backend.Prelude.Sorting.{DistinctKeys}
use tigerduck_backend.Sync.Changelog.{
  LogRow, SyncState, Db, Change, log_row, append_change, purge_user,
}
use tigerduck_backend.Sync.Changelog.Paging.{rev}

-- A user's watermark and the end of the part that was purged.
abbrev pub current_of : Option SyncState → ℕ
current_of none = 0
current_of (some s) = s.current_revision

abbrev pub compacted_of : Option SyncState → ℕ
compacted_of none = 0
compacted_of (some s) = s.compacted_revision

pub record IsConsistent (db : Db) : Type 0 where
  pub below : All (λ r. rev r ≤ current_of (db.states r.user_id)) db.log
  pub compacted : (u : ℕ) → compacted_of (db.states u) ≤ current_of (db.states u)
  pub distinct : DistinctKeys rev db.log

DistinctKeys-append :
    (l : List LogRow) (x : LogRow)
    → All (λ r. rev r ≢ rev x) l
    → DistinctKeys rev l
    → DistinctKeys rev (l ++ x ∷ [])
DistinctKeys-append [] x h d = (tt, tt)
DistinctKeys-append (y ∷ ys) x h d =
    (All-append (λ z. rev y ≢ rev z) ys (x ∷ []) d.0 (h.0, tt), DistinctKeys-append ys x h.1 d.1)

pub DistinctKeys-filter :
    (p : LogRow → Bool) (l : List LogRow) → DistinctKeys rev l → DistinctKeys rev (filter p l)
DistinctKeys-filter p [] d = tt
DistinctKeys-filter p (y ∷ ys) d =
    ground (arith, DistinctKeys-filter p ys d.1, All-filter (λ z. rev y ≢ rev z) p ys d.0)

module _ (rev' user : ℕ) (c : Change) (db : Db) where
  abbrev pub appended : Db
  appended = (append_change rev' user c none db).1

  pub log-append_change : appended.log ≡ db.log ++ log_row rev' user c ∷ []
  unfolding append_change
  log-append_change = ground arith

  pub current-append_change :
      (v : ℕ)
      → current_of (appended.states v) ≡ (if v == user then rev' else current_of (db.states v))
  unfolding append_change
  current-append_change v = ground arith

  compacted-append_change : (v : ℕ) → compacted_of (appended.states v) ≡ compacted_of (db.states v)
  unfolding append_change
  compacted-append_change v = ground arith

  appended-IsConsistent :
      All (λ r. rev r ≢ rev') db.log
      → current_of (db.states user) ≤ rev'
      → IsConsistent db
      → IsConsistent appended
  appended-IsConsistent fresh grows h = record {
    below = rw log-append_change (
        All-append (λ r. rev r ≤ current_of (appended.states r.user_id)) db.log _
          (All-map {P = λ r. rev r ≤ current_of (db.states r.user_id)}
            (λ r le. ground (arith, current-append_change r.user_id)) db.log h.below)
          (ground (arith, current-append_change user), tt));
    compacted =
        λ v. ground (arith, current-append_change v, compacted-append_change v, h.compacted v);
    distinct =
        rw log-append_change (DistinctKeys-append db.log (log_row rev' user c) fresh h.distinct);
  }

-- What an append does: the change is one row more at the end of the log, at a revision that becomes
-- its user's watermark; no other user's watermark moves, and no mark of what was purged.
pub record IsAppended (rev' user : ℕ) (c : Change) (db after : Db) : Type 0 where
  pub row : LogRow
  pub log : after.log ≡ db.log ++ row ∷ []
  pub key : (row.revision ≡ rev') × (row.user_id ≡ user)
  pub entity : (row.entity_type ≡ c.entity_type) × (row.entity_id ≡ c.entity_id)
  pub change : (row.operation ≡ c.operation) × (row.payload ≡ c.payload)
  pub origin : (row.device_id ≡ c.device_id) × (row.created_at ≡ c.created_at)
  pub watermark : current_of (after.states user) ≡ rev'
  pub others :
      (v : ℕ) → current_of (after.states v) ≡ (if v == user then rev' else current_of (db.states v))
  pub compacted : (v : ℕ) → compacted_of (after.states v) ≡ compacted_of (db.states v)

-- With a revision that no row has and that is not below the user's watermark, an append adds the
-- change as one row at the end of the log, makes the revision the user's watermark, leaves the other
-- watermarks and all marks of what was purged, and keeps every row at or below its user's watermark.
pub append_change-IsConsistent :
    (rev' user : ℕ) (c : Change) (db : Db)
    → All (λ r. rev r ≢ rev') db.log
    → current_of (db.states user) ≤ rev'
    → IsConsistent db
    → IsAppended rev' user c db (append_change rev' user c none db).1
      × IsConsistent (append_change rev' user c none db).1
append_change-IsConsistent rev' user c db fresh grows h = (
  record {
    row = log_row rev' user c;
    log = log-append_change rev' user c db;
    key = (refl, refl);
    entity = (refl, refl);
    change = (refl, refl);
    origin = (refl, refl);
    watermark = ground (arith, current-append_change rev' user c db user);
    others = current-append_change rev' user c db;
    compacted = compacted-append_change rev' user c db;
  },
  appended-IsConsistent rev' user c db fresh grows h,
)

module _ (user mark : ℕ) (db : Db) where
  abbrev pub purged : Db
  purged = (purge_user user mark db).1

  abbrev pub kept : LogRow → Bool
  kept r = if r.user_id == user && leb r.revision mark then false else true

  pub log-purge_user : purged.log ≡ filter kept db.log
  unfolding purge_user
  log-purge_user = ground arith

  pub current-purge_user : (v : ℕ) → current_of (purged.states v) ≡ current_of (db.states v)
  unfolding purge_user
  current-purge_user v = ground arith

  pub compacted-purge_user :
      (v : ℕ)
      → compacted_of (purged.states v) ≡ (
          if v == user && is_some (db.states v)
          then max (compacted_of (db.states v)) mark
          else compacted_of (db.states v))
  unfolding purge_user
  compacted-purge_user v = ground arith

  pub purge_user-IsConsistent :
      mark ≤ current_of (db.states user) → IsConsistent db → IsConsistent purged
  purge_user-IsConsistent m h = record {
    below = rw log-purge_user (
        All-filter (λ r. rev r ≤ current_of (purged.states r.user_id)) kept db.log
          (All-map {P = λ r. rev r ≤ current_of (db.states r.user_id)}
            (λ r le. ground (arith, current-purge_user r.user_id)) db.log h.below));
    compacted = λ v. ground (arith, current-purge_user v, compacted-purge_user v, h.compacted v);
    distinct = rw log-purge_user (DistinctKeys-filter kept db.log h.distinct);
  }
