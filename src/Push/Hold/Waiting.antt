-- ===== src/Push/Hold/Waiting.antt =====
-- How often a job without a verdict is put back.
use tigerduck_backend.Prelude.{
  ℕ, zero, suc, ◌+◌, ◌*◌, ◌<◌, ◌≤◌, ◌≡◌, refl, subst, sym, ap, ◌∙◌, ◌⊎◌, arith, true, List, String,
  inl, inr,
}
use tigerduck_backend.Push.Job.{JobStatus, PushJob}
use tigerduck_backend.Push.Claim.{due, claimed_by}
use tigerduck_backend.Push.Presend.{PresendCheck, AssignmentRow, Ignored}
use tigerduck_backend.Push.Hold.{HoldSettings, held_back}
use tigerduck_backend.Push.Hold.Verdicts.{IsHeld, held_back_outcome}

-- A job that was claimed when due and put back for its verdict, a number of times in a row.
pub data PutBack (s : HoldSettings) (worker : String) (first : PushJob) : PushJob → ℕ → Type 0 where
  filed : PutBack s worker first first 0
  put_back :
      {job : PushJob} {n : ℕ}
      → PutBack s worker first job n
      → (now : ℕ) (skip : List ℕ) (table : List AssignmentRow) (ignored : Ignored)
        (check : PresendCheck)
      → due now skip job ≡ true
      → (next : PushJob)
      → (held_back s now table ignored (claimed_by worker now job) check).held ≡ true
      → (held_back s now table ignored (claimed_by worker now job) check).job ≡ next
      → next.status ≡ JobStatus.pending
      → PutBack s worker first next (suc n)

-- What holds of a job that was put back `n` times.
record Waits (s : HoldSettings) (first job : PushJob) (n : ℕ) : Type 0 where
  filed_for : job.fire_at ≡ first.fire_at
  attempts : job.attempts ≡ first.attempts
  waited : 0 < n → first.fire_at + n * s.presend_retry ≤ job.available_at
  bounded : 0 < n → job.available_at < first.fire_at + s.presend_grace + s.presend_retry

due-times :
    (now : ℕ) (skip : List ℕ) (job : PushJob)
    → due now skip job ≡ true
    → (job.fire_at ≤ now) × (job.available_at ≤ now)
unfolding due
due-times now skip job h = ground arith

waited_on :
    (f a now r n : ℕ) → (0 < n → f + n * r ≤ a) → a ≤ now → f ≤ now → f + suc n * r ≤ now + r
waited_on f a now r zero h le lf = omega (arith, lf)
waited_on f a now r (suc n) h le lf = omega (arith, h (omega arith), le)

not_cancelled : (status : JobStatus) → status ≡ JobStatus.pending → status ≡ JobStatus.cancelled → ⊥
not_cancelled JobStatus.pending p c = absurd (cc)
not_cancelled JobStatus.processing p c = absurd (cc)
not_cancelled JobStatus.sent p c = absurd (cc)
not_cancelled JobStatus.partial_failed p c = absurd (cc)
not_cancelled JobStatus.failed p c = absurd (cc)
not_cancelled JobStatus.cancelled p c = absurd (cc)

retry_fate :
    (s : HoldSettings) (now : ℕ) (first job next : PushJob) (n : ℕ)
    → Waits s first job n
    → job.fire_at ≤ now
    → job.available_at ≤ now
    → (held : PushJob) → held ≡ next
    → next.fire_at ≡ job.fire_at
    → next.attempts ≡ job.attempts
    → next.status ≡ JobStatus.pending
    → (held.status ≡ JobStatus.cancelled)
      ⊎ ((held.status ≡ JobStatus.pending)
          × (held.available_at ≡ now + s.presend_retry)
          × (now < job.fire_at + s.presend_grace))
    → Waits s first next (suc n)
retry_fate s now first job next n w f a held e filed_for attempts pending (inl c) =
    absurd (not_cancelled held.status (ap (λ (j : PushJob). j.status) e ∙ pending) c)
retry_fate s now first job next n w f a held e filed_for attempts pending (inr (p, at, early)) =
    let at' : next.available_at ≡ now + s.presend_retry =
      sym (ap (λ (j : PushJob). j.available_at) e) ∙ at in
    record {
      filed_for = filed_for ∙ w.filed_for;
      attempts = attempts ∙ w.attempts;
      waited = λ _. omega (
        arith,
        at',
        waited_on first.fire_at job.available_at now s.presend_retry n w.waited a
            (omega (arith, w.filed_for, f)),
      );
      bounded = λ _. omega (arith, at', early, w.filed_for);
    }

held_job-IsHeld :
    (s : HoldSettings) (now : ℕ) (table : List AssignmentRow) (ignored : Ignored) (job : PushJob)
    (check : PresendCheck)
    → (held_back s now table ignored job check).held ≡ true
    → IsHeld s now job (held_back s now table ignored job check)
held_job-IsHeld s now table ignored job check h =
    elim (held_back_outcome s now table ignored job check) [
      | inl (out, _) ↦ absurd (cc)
      | inr (_, held) ↦ held
    ]

-- One round more: the fate of a held job that is pending is the retry.
IsHeld-Waits :
    (s : HoldSettings) (now : ℕ) (worker : String) (first job next : PushJob) (n : ℕ)
    (skip : List ℕ)
    → Waits s first job n
    → due now skip job ≡ true
    → (table : List AssignmentRow) (ignored : Ignored) (check : PresendCheck)
    → (held_back s now table ignored (claimed_by worker now job) check).held ≡ true
    → (held_back s now table ignored (claimed_by worker now job) check).job ≡ next
    → next.status ≡ JobStatus.pending
    → Waits s first next (suc n)
IsHeld-Waits s now worker first job next n skip w d table ignored check held e pending =
    let held_job = held_job-IsHeld s now table ignored (claimed_by worker now job) check held in
    let (f, a) = due-times now skip job d in
    let h = held_back s now table ignored (claimed_by worker now job) check in
    retry_fate s now first job next n w f a h.job e
      (subst (λ k. k ≡ job.fire_at) (ap (λ (j : PushJob). j.fire_at) e) held_job.filed_for)
      (subst (λ k. k ≡ job.attempts) (ap (λ (j : PushJob). j.attempts) e) held_job.attempts) pending
      held_job.fate

PutBack-Waits :
    (s : HoldSettings) (worker : String) (first job : PushJob) (n : ℕ)
    → PutBack s worker first job n
    → Waits s first job n
PutBack-Waits s worker first job n filed = record {
  filed_for = refl;
  attempts = refl;
  waited = λ h. absurd (omega (arith, h));
  bounded = λ h. absurd (omega (arith, h));
}
PutBack-Waits s worker first job n
      (put_back {job = old} {n = m} before now skip table ignored check d next held e pending) =
    IsHeld-Waits s now worker first old next m skip (PutBack-Waits s worker first old m before) d
      table ignored check held e pending

-- A job whose verdict never comes is put back `n` times only while `n` retries fit in the grace and
-- one retry more, and the waiting spends none of its attempts.
pub PutBack-bounded :
    (s : HoldSettings) (worker : String) (first job : PushJob) (n : ℕ)
    → PutBack s worker first job n
    → (n * s.presend_retry ≤ s.presend_grace + s.presend_retry) × (job.attempts ≡ first.attempts)
PutBack-bounded s worker first job zero p = (omega arith, refl_attempts)
  where
    refl_attempts : job.attempts ≡ first.attempts
    refl_attempts = (PutBack-Waits s worker first job zero p).attempts
PutBack-bounded s worker first job (suc n) p =
    let w = PutBack-Waits s worker first job (suc n) p in
    (omega (arith, w.waited (omega arith), w.bounded (omega arith)), w.attempts)
