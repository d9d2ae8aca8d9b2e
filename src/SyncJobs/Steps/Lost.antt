-- ===== src/SyncJobs/Steps/Lost.antt =====
-- A run that has lost its job never has it again, and writes to no job.
use tigerduck_backend.Prelude.{
  ℕ, ◌<◌, ◌≡◌, refl, ap, sym, subst, ◌∙◌, arith, Bool, true, false, ◌&&◌, Option, none, some, List,
  [], ◌∷◌, String, str_eq, ◌==◌, All, All-append, All-filter, Bool-cases, inl, inr,
}
use tigerduck_backend.SyncJobs.Job.{
  LockToken, SyncJob, SyncDb, SyncSettings, is_running, get_job, set_job,
}
use tigerduck_backend.SyncJobs.Claim.{claimed}
use tigerduck_backend.SyncJobs.Runs.{
  Failure, holds, owned, on_owned, lock_owned_job, mark_succeeded, finish_after_probe, fail_job,
  record_failure, wait_out, handle_moodle_failure,
}
use tigerduck_backend.SyncJobs.Execute.{
  Raise, Fetch, answered, no_course_access, fetch_fails, Answers, failure_of, handle, asks_window,
  after_fetch,
}
use tigerduck_backend.SyncJobs.Steps.{Step, Reaches, stays, steps}
use tigerduck_backend.SyncJobs.Steps.Cases.{Step-cases}
use tigerduck_backend.SyncJobs.Steps.Quiet.{Calm, CalmAll, Quiet, calm, adds, removes, follows}
use tigerduck_backend.SyncJobs.Steps.Claims.{claim_due_job-cases}

-- The job, as this run's claim left it.
abbrev pub is_held : LockToken → ℕ → SyncJob → Bool
is_held token i j = j.id == i && (is_running j && holds token j)

abbrev pub NotHeld : LockToken → ℕ → List SyncJob → Type 0
NotHeld token i jobs = All (λ j. is_held token i j ≡ false) jobs

-- The run was opened, and no row is its own any more.
pub record Lost (token : LockToken) (i : ℕ) (db : SyncDb) : Type 0 where
  pub opened : token.run_id < db.next_run
  pub not_held : NotHeld token i db.jobs

Calm-not_held :
    (token : LockToken) (i : ℕ) (j k : SyncJob)
    → Calm j k
    → is_held token i j ≡ false
    → is_held token i k ≡ false
Calm-not_held token i j k c h = elim c.keeps [
  | inl idle ↦ rw idle (and_false (k.id == i))
  | inr (before, after, same) ↦
      subst
        (λ o.
          (k.id == i
            && (is_running k && elim o [
              | none ↦ false
              | some t ↦ str_eq t.worker_id token.worker_id && t.run_id == token.run_id
            ]))
          ≡ false)
        (sym same)
        (subst (λ n. (n == i && (is_running k && holds token j)) ≡ false) (sym c.same_id)
          (subst (λ b. (j.id == i && (b && holds token j)) ≡ false) (before ∙ sym after) h))
]
  where
    and_false : (b : Bool) → (b && false) ≡ false
    and_false true = refl
    and_false false = refl

CalmAll-NotHeld :
    (token : LockToken) (i : ℕ) (js ks : List SyncJob)
    → CalmAll js ks
    → NotHeld token i js
    → NotHeld token i ks
CalmAll-NotHeld token i [] [] c h = tt
CalmAll-NotHeld token i [] (k ∷ ks) c h = absurd c
CalmAll-NotHeld token i (j ∷ js) [] c h = tt
CalmAll-NotHeld token i (j ∷ js) (k ∷ ks) c h =
    (Calm-not_held token i j k c.0 h.0, CalmAll-NotHeld token i js ks c.1 h.1)

Lost-Quiet :
    (token : LockToken) (i : ℕ) (db after : SyncDb)
    → Quiet db after
    → Lost token i db
    → Lost token i after
Lost-Quiet token i _ _ (calm {db} {after} c runs next_id) h = record {
  opened = omega (arith, runs, h.opened);
  not_held = CalmAll-NotHeld token i db.jobs after.jobs c h.not_held;
}
Lost-Quiet token i _ _ (adds {db} {after} k id idle jobs runs next_id) h = record {
  opened = omega (arith, runs, h.opened);
  not_held = subst (NotHeld token i) (sym jobs) (
      All-append (λ j. is_held token i j ≡ false) db.jobs (k ∷ []) h.not_held
        (rw idle (ground arith), tt));
}
Lost-Quiet token i _ _ (removes {db} {after} keep jobs runs next_id) h = record {
  opened = omega (arith, runs, h.opened);
  not_held =
      subst (NotHeld token i) (sym jobs)
        (All-filter (λ j. is_held token i j ≡ false) keep db.jobs h.not_held);
}
Lost-Quiet token i _ _ (follows {db} {mid} {after} q r) h =
    Lost-Quiet token i mid after r (Lost-Quiet token i db mid q h)

claimed-NotHeld :
    (token : LockToken) (worker : String) (i job_id run_id now : ℕ) (js : List SyncJob)
    → token.run_id < run_id
    → NotHeld token i js
    → NotHeld token i (set_job job_id (claimed worker run_id now) js)
claimed-NotHeld token worker i job_id run_id now [] lt h = tt
claimed-NotHeld token worker i job_id run_id now (j ∷ js) lt h = (
  elim (Bool-cases (j.id == job_id)) [
    | inl here ↦ rw here (newer (j.id == i) (str_eq worker token.worker_id))
    | inr away ↦ rw away h.0
  ],
  claimed-NotHeld token worker i job_id run_id now js lt h.1,
)
  where
    other : (run_id == token.run_id) ≡ false
    other = ground arith

    newer : (a b : Bool) → (a && (true && (b && run_id == token.run_id))) ≡ false
    newer true true = other
    newer true false = refl
    newer false b = refl

Step-Lost :
    (s : SyncSettings) (token : LockToken) (i : ℕ) (db after : SyncDb)
    → Step s db after
    → Lost token i db
    → Lost token i after
Step-Lost s token i db after step h = elim (Step-cases s db after step) [
  | inl quiet ↦ Lost-Quiet token i db after quiet h
  | inr (worker, other_locks, now, e) ↦ elim (claim_due_job-cases s worker other_locks now db) [
    | inl same ↦ subst (Lost token i) (sym (e ∙ same)) h
    | inr (job, p, lt, same) ↦ subst (Lost token i) (sym (e ∙ same)) (record {
      opened = omega (arith, h.opened);
      not_held = claimed-NotHeld token worker i job.id db.next_run now db.jobs h.opened h.not_held;
    })
  ]
]

Reaches-Lost :
    (s : SyncSettings) (token : LockToken) (i : ℕ) (db after : SyncDb)
    → Reaches s db after
    → Lost token i db
    → Lost token i after
Reaches-Lost s token i db _ stays h = h
Reaches-Lost s token i db _ (steps {mid} {after} r step) h =
    Step-Lost s token i mid after step (Reaches-Lost s token i db mid r h)

NotHeld-owned :
    (token : LockToken) (i : ℕ) (js : List SyncJob)
    → NotHeld token i js
    → owned token (get_job i js) ≡ false
NotHeld-owned token i [] h = refl
NotHeld-owned token i (j ∷ js) h = elim (Bool-cases (j.id == i)) [
  | inl here ↦ rw here (subst (λ b. (b && (is_running j && holds token j)) ≡ false) here h.0)
  | inr away ↦ rw away (NotHeld-owned token i js h.1)
]

on_owned-lost :
    (token : LockToken) (o : Option SyncJob) (f : SyncJob → SyncDb) (db : SyncDb)
    → owned token o ≡ false
    → on_owned token o f db ≡ db
on_owned-lost token none f db e = refl
on_owned-lost token (some job) f db e = rw e refl

handle_moodle_failure-Lost :
    (s : SyncSettings) (f : Failure) (resume_at : Option ℕ) (token : LockToken) (i now : ℕ)
    (db : SyncDb)
    → Lost token i db
    → handle_moodle_failure s f resume_at token i now db ≡ db
unfolding handle_moodle_failure record_failure
handle_moodle_failure-Lost s f none token i now db h =
    on_owned-lost token (get_job i db.jobs) (fail_job s f token now db) db
      (NotHeld-owned token i db.jobs h.not_held)
handle_moodle_failure-Lost s f (some resume_at) token i now db h =
    on_owned-lost token (get_job i db.jobs) (wait_out f.error token resume_at now db) db
      (NotHeld-owned token i db.jobs h.not_held)

lock_owned_job-Lost :
    (token : LockToken) (i now : ℕ) (db : SyncDb)
    → Lost token i db
    → ((lock_owned_job token i now db).0 ≡ none)
      × ((lock_owned_job token i now db).1.jobs ≡ db.jobs)
unfolding lock_owned_job
lock_owned_job-Lost token i now db h = rw (NotHeld-owned token i db.jobs h.not_held) (refl, refl)

-- Once a run has lost its job, then after whatever transactions follow, a claim of the same job by a
-- worker of the same name included, it neither gets the job back, nor records a success or a failure.
pub Lost-no_write :
    (s : SyncSettings) (token : LockToken) (i : ℕ) (db after : SyncDb) (f : Failure)
    (resume_at : Option ℕ) (now : ℕ)
    → Lost token i db
    → Reaches s db after
    → ((lock_owned_job token i now after).0 ≡ none)
      × (finish_after_probe token i now after ≡ after)
      × (handle_moodle_failure s f resume_at token i now after ≡ after)
unfolding finish_after_probe
Lost-no_write s token i db after f resume_at now lost r =
    let h = Reaches-Lost s token i db after r lost in
    (
      (lock_owned_job-Lost token i now after h).0,
      on_owned-lost token (get_job i after.jobs) (λ job. mark_succeeded token now job after) after
          (NotHeld-owned token i after.jobs h.not_held),
      handle_moodle_failure-Lost s f resume_at token i now after h,
    )

handle-Lost :
    (s : SyncSettings) (credential resume_at : Option ℕ) (token : LockToken) (i now : ℕ)
    (db : SyncDb) (r : Raise)
    → Lost token i db
    → handle s credential resume_at token i now db r ≡ db
unfolding handle record_failure
handle-Lost s credential resume_at token i now db r h = elim (Bool-cases (asks_window r)) [
  | inl asks ↦
      rw asks (handle_moodle_failure-Lost s (failure_of credential r) resume_at token i now db h)
  | inr goes ↦ rw goes (
      on_owned-lost token (get_job i db.jobs) (fail_job s (failure_of credential r) token now db) db
        (NotHeld-owned token i db.jobs h.not_held))
]

-- A run that lost its job while Moodle answered changes no job in the rest of its work, whether the
-- answer is a result, a refusal or a failure of any kind.
pub after_fetch-Lost :
    (s : SyncSettings) (a : Answers) (token : LockToken) (i : ℕ) (db : SyncDb) (fetched : Fetch)
    → Lost token i db
    → (after_fetch s a token i db fetched).db.jobs ≡ db.jobs
unfolding after_fetch lock_owned_job
after_fetch-Lost s a token i db (fetch_fails r) h =
    ap (λ d. d.jobs) (handle-Lost s a.credential_nonce a.resume_at token i a.end_time db r h)
after_fetch-Lost s a token i db (no_course_access stats detail) h =
    rw (NotHeld-owned token i db.jobs h.not_held) refl
after_fetch-Lost s a token i db (answered stats course_error) h =
    rw (NotHeld-owned token i db.jobs h.not_held) refl
