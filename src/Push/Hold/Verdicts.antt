-- ===== src/Push/Hold/Verdicts.antt =====
-- A checked job goes out only while its assignment is open, and a held one does not wait for ever.
use tigerduck_backend.Prelude.{
  ℕ, ◌+◌, ◌<◌, ◌≡◌, ◌⊎◌, refl, subst, sym, arith, Bool, true, false, ◌&&◌, not, Option, none, some,
  List, find?, filter, leb, get_or, if◌then◌else◌, Bool-cases, inl, inr,
}
use tigerduck_backend.Push.Job.{JobStatus, PushJob}
use tigerduck_backend.Push.Presend.{
  Verdict, PresendCheck, AssignmentRow, Ignored, assignment_id, assignment_rows, recheck_rows,
  open_verdict, database_verdict, submitted_by, recheck_assignment, rows_verdict, due_epoch,
  is_alive,
}
use tigerduck_backend.Push.Presend.Open.{IsOpen, recheck_rows-IsOpen}
use tigerduck_backend.Push.Hold.{
  HoldSettings, Held, settle, past_grace, final_check, act_on, held_back, is_send,
}

-- Sent on as it was, with the assignment open and the copy still right.
pub record IsCleared (s : HoldSettings) (now : ℕ) (table : List AssignmentRow) (ignored : Ignored)
    (job : PushJob) (h : Held) : Type 0 where
  pub untouched : h.job ≡ job
  pub in_grace : now < job.fire_at + s.presend_grace
  pub assignment :
      (i : ℕ) × (assignment_id job ≡ some i)
      × IsOpen job (assignment_rows job.user_id i table) ignored now

-- Cancelled, or back to pending for the retry while the grace lasts; never still claimed.
pub record IsHeld (s : HoldSettings) (now : ℕ) (job : PushJob) (h : Held) : Type 0 where
  pub attempts : h.job.attempts ≡ job.attempts
  pub filed_for : h.job.fire_at ≡ job.fire_at
  pub released : (h.job.locked_by ≡ none) × (h.job.locked_at ≡ none)
  pub fate :
      (h.job.status ≡ JobStatus.cancelled)
      ⊎ ((h.job.status ≡ JobStatus.pending)
          × (h.job.available_at ≡ now + s.presend_retry)
          × (now < job.fire_at + s.presend_grace))

act_on-IsHeld :
    (s : HoldSettings) (now : ℕ) (job : PushJob) (check : PresendCheck) (v : Verdict)
    → (act_on s now job check v).held ≡ true
    → IsHeld s now job (act_on s now job check v)
unfolding act_on settle
act_on-IsHeld s now job check Verdict.send h = absurd (cc)
act_on-IsHeld s now job check Verdict.submitted h = ground arith
act_on-IsHeld s now job check Verdict.gone h = ground arith
act_on-IsHeld s now job check Verdict.unverified h = ground arith

act_on-send :
    (s : HoldSettings) (now : ℕ) (job : PushJob) (check : PresendCheck) (v : Verdict)
    → (act_on s now job check v).held ≡ false
    → (v ≡ Verdict.send) × ((act_on s now job check v).job ≡ job)
unfolding act_on
act_on-send s now job check Verdict.send h = (refl, refl)
act_on-send s now job check Verdict.submitted h = absurd (cc)
act_on-send s now job check Verdict.gone h = absurd (cc)
act_on-send s now job check Verdict.unverified h = absurd (cc)

-- The rows never say `send` by themselves.
abbrev stops : Option PresendCheck → Bool
stops none = true
stops (some c) = not (is_send c.verdict)

open_verdict-Stops :
    (job : PushJob) (rows : List AssignmentRow) (due : Option ℕ) (ignored : Ignored) (now : ℕ)
    → stops (open_verdict job rows due ignored now) ≡ true
unfolding open_verdict
open_verdict-Stops job rows due ignored now = ground arith

database_verdict-Stops :
    (job : PushJob) (i : ℕ) (rows : List AssignmentRow) (due : Option ℕ) (ignored : Ignored)
    (now : ℕ)
    → stops (database_verdict job i rows due ignored now) ≡ true
unfolding database_verdict
database_verdict-Stops job i rows due ignored now =
    found (find? (λ r. r.provider_is_submitted) rows)
  where
    found :
        (o : Option AssignmentRow)
        → stops (elim o [
          | some r ↦ some (submitted_by "database" i r.provider_submitted_at)
          | none ↦ open_verdict job rows due ignored now
        ])
          ≡ true
    found none = open_verdict-Stops job rows due ignored now
    found (some r) = refl

recheck_assignment-Stops :
    (job : PushJob) (table : List AssignmentRow) (ignored : Ignored) (now : ℕ) (i : Option ℕ)
    → stops (recheck_assignment job table ignored now i) ≡ true
unfolding recheck_assignment rows_verdict
recheck_assignment-Stops job table ignored now none = refl
recheck_assignment-Stops job table ignored now (some i) =
    let rows = assignment_rows job.user_id i table in
    database_verdict-Stops job i rows (due_epoch job (filter is_alive rows)) ignored now

recheck_rows-Stops :
    (job : PushJob) (table : List AssignmentRow) (ignored : Ignored) (now : ℕ)
    → stops (recheck_rows job table ignored now) ≡ true
unfolding recheck_rows
recheck_rows-Stops job table ignored now =
    recheck_assignment-Stops job table ignored now (assignment_id job)

still_send :
    (o : Option PresendCheck) (check : PresendCheck)
    → stops o ≡ true
    → is_send (get_or o check).verdict ≡ true
    → o ≡ none
still_send none check h e = refl
still_send (some c) check h e = absurd (ground arith)

grace_cases :
    (again : PresendCheck) (late : Bool)
    → is_send (if is_send again.verdict && late then past_grace again else again).verdict ≡ true
    → (is_send again.verdict ≡ true) × (late ≡ false)
grace_cases again true h = absurd (ground arith)
grace_cases again false h = ground arith

recheck_cases :
    (check fresh : PresendCheck)
    → is_send (if is_send check.verdict then fresh else check).verdict ≡ true
    → (is_send check.verdict ≡ true) × (is_send fresh.verdict ≡ true)
recheck_cases check fresh h = elim (Bool-cases (is_send check.verdict)) [
  | inl send ↦ (send, (let k : is_send fresh.verdict ≡ true = rw send at h in k))
  | inr stop ↦ absurd (let k : is_send check.verdict ≡ true = rw stop at h in cc)
]

-- What lets a check through at the end: the rows settle nothing, and the grace lasts.
final_check-send :
    (s : HoldSettings) (now : ℕ) (table : List AssignmentRow) (ignored : Ignored) (job : PushJob)
    (check : PresendCheck)
    → is_send (final_check s now table ignored job check).verdict ≡ true
    → (recheck_rows job table ignored now ≡ none) × (now < job.fire_at + s.presend_grace)
unfolding final_check
final_check-send s now table ignored job check h =
    let again =
      if is_send check.verdict then get_or (recheck_rows job table ignored now) check else check in
    let (passes, in_time) = grace_cases again (leb (job.fire_at + s.presend_grace) now) h in
    let (sent, still) =
      recheck_cases check (get_or (recheck_rows job table ignored now) check) passes in
    (
      still_send (recheck_rows job table ignored now) check
          (recheck_rows-Stops job table ignored now) still,
      ground (arith, in_time),
    )

-- A job with a verdict goes out only as it is, within the grace after its fire time, and only while
-- the rows read under its lock show the assignment open: not submitted, not marked, not ignored, and
-- due in the future. Otherwise it is held: it is cancelled or, while the grace lasts, put back to
-- pending for the retry, and in either case it is released and no attempt is spent.
pub held_back_outcome :
    (s : HoldSettings) (now : ℕ) (table : List AssignmentRow) (ignored : Ignored) (job : PushJob)
    (check : PresendCheck)
    → let h = held_back s now table ignored job check in
      ((h.held ≡ false) × IsCleared s now table ignored job h)
      ⊎ ((h.held ≡ true) × IsHeld s now job h)
unfolding held_back
held_back_outcome s now table ignored job check =
    let final = final_check s now table ignored job check in
    elim (Bool-cases (act_on s now job final final.verdict).held) [
      | inl held ↦ inr (held, act_on-IsHeld s now job final final.verdict held)
      | inr e ↦
          let (v, same) = act_on-send s now job final final.verdict e in
          let (rows, grace) =
            final_check-send s now table ignored job check
              (subst (λ w. is_send w ≡ true) (sym v) refl) in
          inl (
            e,
            record {
              untouched = same;
              in_grace = grace;
              assignment = recheck_rows-IsOpen job table ignored now rows;
            },
          )
    ]
