-- ===== src/Auth/Contest.antt =====
-- `_linked_ids`, `_supersede` and `settle_contest` of server/auth/service.py: the ring of live
-- sessions that rotations of one token left, and its end when one of them is used.
pub mod Ring
use tigerduck_backend.Prelude.{
  ℕ, zero, suc, ◌==◌, Bool, true, false, ◌&&◌, not, Option, none, some, List, [], ◌∷◌, map, filter,
  any, length, is_some, if◌then◌else◌,
}
use tigerduck_backend.Auth.Session.{AuthSession, superseded, is_live, get, update, has_id}

abbrev pub member : ℕ → List ℕ → Bool
member i ids = any (λ j. j == i) ids

-- The recursive part of the query: on from the session `i`, while the sessions are live. UNION drops
-- a row that is there already, so the walk ends where it meets itself.
unfoldable pub follow : ℕ → List AuthSession → List ℕ → Option ℕ → List ℕ
follow fuel rows seen none = seen
follow zero rows seen (some i) = seen
follow (suc fuel) rows seen (some i) = elim (get i rows) [
  | none ↦ seen
  | some s ↦
      let onward =
        follow fuel rows (i ∷ seen) (if is_live s then s.replaced_by_session_id else none) in
      if member i seen then seen else onward
]

-- One step for each row is enough.
unfoldable pub linked_ids : List AuthSession → ℕ → List ℕ
unfolding follow
linked_ids rows i = elim (get i rows) [
  | none ↦ []
  | some s ↦ follow (length rows) rows (i ∷ []) s.replaced_by_session_id
]

-- The rows that `_supersede` revokes.
abbrev pub loses_to : List ℕ → AuthSession → Bool
loses_to ids s = member s.id ids && (is_live s && not (is_some s.first_used_at))

abbrev pub superseded_by : ℕ → ℕ → AuthSession → AuthSession
superseded_by winner now s = record s {
  revoked_at = some now;
  revoked_reason = some superseded;
  replaced_by_session_id = some winner;
}

unfoldable pub supersede : List ℕ → ℕ → ℕ → List AuthSession → List AuthSession
supersede ids winner now rows = update (loses_to ids) (superseded_by winner now) rows

abbrev pub leave_ring : AuthSession → AuthSession
leave_ring s = record s { replaced_by_session_id = none }

unfoldable pub settle_contest : ℕ → ℕ → List AuthSession → List AuthSession
unfolding supersede
settle_contest winner now rows =
    let rivals = filter (λ i. not (i == winner)) (linked_ids rows winner) in
    supersede rivals winner now (update (has_id winner) leave_ring rows)
