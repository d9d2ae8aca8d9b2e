-- ===== src/Push/Presend/Open.antt =====
-- What it takes for the rows to let a job through.
use tigerduck_backend.Prelude.{
  ℕ, ◌≡◌, refl, arith, Bool, true, false, ◌&&◌, ◌||◌, not, Option, none, some, List, filter, any,
  find?, is_some, if◌then◌else◌, All, any-All, find?-All, Option-cases, inl, inr,
}
use tigerduck_backend.Push.Job.{PushJob}
use tigerduck_backend.Push.Presend.{
  PresendCheck, AssignmentRow, Ignored, is_reminder, assignment_id, assignment_rows, is_alive,
  due_epoch, is_marked, in_ignored_course, is_at, has_passed, open_verdict, database_verdict,
  submitted_by, rows_verdict, recheck_rows, recheck_assignment,
}

-- The user's rows of the assignment show it open at `now`, and due when the job says.
pub record IsOpen (job : PushJob) (rows : List AssignmentRow) (ignored : Ignored) (now : ℕ)
    : Type 0 where
  pub unsubmitted : All (λ r. r.provider_is_submitted ≡ false) rows
  pub unmarked : All (λ r. is_marked r ≡ false) rows
  pub heeded : All (λ r. in_ignored_course ignored r ≡ false) rows
  pub kept : any (λ r. true) (filter is_alive rows) ≡ true
  pub due_stands :
      (not (is_reminder job || is_some (due_epoch job (filter is_alive rows)))
        || any (λ r. is_at (due_epoch job (filter is_alive rows)) r.due_at) (filter is_alive rows))
      ≡ true
  pub ahead : has_passed (due_epoch job (filter is_alive rows)) now ≡ false

not-false : (b : Bool) → not b ≡ false → b ≡ true
not-false b h = ground arith

and_not : (a b : Bool) → (a && not b) ≡ false → (not a || b) ≡ true
and_not a b h = ground arith

-- A test that would have ended the search did not hold.
if_none :
    (b : Bool) (x : PresendCheck) (rest : Option PresendCheck)
    → (if b then some x else rest) ≡ none
    → (b ≡ false) × (rest ≡ none)
if_none true x rest h = absurd (cc)
if_none false x rest h = (refl, h)

open_verdict-IsOpen :
    (job : PushJob) (rows : List AssignmentRow) (ignored : Ignored) (now : ℕ)
    → find? (λ r. r.provider_is_submitted) rows ≡ none
    → open_verdict job rows (due_epoch job (filter is_alive rows)) ignored now ≡ none
    → IsOpen job rows ignored now
unfolding open_verdict
open_verdict-IsOpen job rows ignored now none_submitted h =
    let (marked, h1) = if_none _ _ _ h in
    let (heed, h2) = if_none _ _ _ h1 in
    let (gone, h3) = if_none _ _ _ h2 in
    let (moved, h4) = if_none _ _ _ h3 in
    let (past, h5) = if_none _ _ _ h4 in
    record {
      unsubmitted = find?-All (λ r. r.provider_is_submitted) rows none_submitted;
      unmarked = any-All is_marked rows marked;
      heeded = any-All (in_ignored_course ignored) rows heed;
      kept = not-false _ gone;
      due_stands = and_not _ _ moved;
      ahead = past;
    }

database_verdict-IsOpen :
    (job : PushJob) (i : ℕ) (rows : List AssignmentRow) (ignored : Ignored) (now : ℕ)
    → database_verdict job i rows (due_epoch job (filter is_alive rows)) ignored now ≡ none
    → IsOpen job rows ignored now
unfolding database_verdict
database_verdict-IsOpen job i rows ignored now h =
    elim (Option-cases (find? (λ r. r.provider_is_submitted) rows)) [
      | inl clear ↦ open_verdict-IsOpen job rows ignored now clear (open_case _ clear h)
      | inr (r, found) ↦ absurd (found_case _ r found h)
    ]
  where
    verdict : Option AssignmentRow → Option PresendCheck
    verdict o = elim o [
      | some r ↦ some (submitted_by "database" i r.provider_submitted_at)
      | none ↦ open_verdict job rows (due_epoch job (filter is_alive rows)) ignored now
    ]

    open_case :
        (o : Option AssignmentRow)
        → o ≡ none
        → verdict o ≡ none
        → open_verdict job rows (due_epoch job (filter is_alive rows)) ignored now ≡ none
    open_case none e k = k
    open_case (some r) e k = absurd (cc)

    found_case : (o : Option AssignmentRow) (r : AssignmentRow) → o ≡ some r → verdict o ≡ none → ⊥
    found_case none r e k = absurd (cc)
    found_case (some s) r e k = absurd (cc)

recheck_assignment-IsOpen :
    (job : PushJob) (table : List AssignmentRow) (ignored : Ignored) (now : ℕ) (found : Option ℕ)
    → assignment_id job ≡ found
    → recheck_assignment job table ignored now found ≡ none
    → (i : ℕ) × (assignment_id job ≡ some i)
      × IsOpen job (assignment_rows job.user_id i table) ignored now
unfolding recheck_assignment rows_verdict
recheck_assignment-IsOpen job table ignored now none e h = absurd (cc)
recheck_assignment-IsOpen job table ignored now (some i) e h =
    (i, e, database_verdict-IsOpen job i (assignment_rows job.user_id i table) ignored now h)

-- A job that the rows let through is of an assignment that they show open.
pub recheck_rows-IsOpen :
    (job : PushJob) (table : List AssignmentRow) (ignored : Ignored) (now : ℕ)
    → recheck_rows job table ignored now ≡ none
    → (i : ℕ) × (assignment_id job ≡ some i)
      × IsOpen job (assignment_rows job.user_id i table) ignored now
unfolding recheck_rows
recheck_rows-IsOpen job table ignored now h =
    recheck_assignment-IsOpen job table ignored now (assignment_id job) refl h
