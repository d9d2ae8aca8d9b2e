-- ===== src/SyncJobs/Steps/Claims.antt =====
-- A claim keeps the tables sound, so every sequence of transactions does.
use tigerduck_backend.Prelude.{
  ℕ, suc, ◌<◌, ◌≡◌, ◌≢◌, ◌⊎◌, refl, ap, sym, subst, ◌∙◌, arith, Bool, true, false, ◌&&◌, not, List,
  [], ◌∷◌, filter, count_if, String, leb, ◌==◌, if◌then◌else◌, All, In, In-All, Bool-cases, inl,
  inr,
}
use tigerduck_backend.Prelude.Sorting.{order_by-All, DistinctKeys}
use tigerduck_backend.SyncJobs.Job.{
  SyncJobStatus, SyncJob, SyncDb, SyncSettings, is_running, is_waiting, set_job,
}
use tigerduck_backend.SyncJobs.Claim.{
  claimable, next_due, claimed, claim_first, claim_due_job, count_running, has_running, has_policy,
  has_syncing_device,
}
use tigerduck_backend.SyncJobs.Steps.{Step, Reaches, stays, steps}
use tigerduck_backend.SyncJobs.Steps.Cases.{Step-cases}
use tigerduck_backend.SyncJobs.Steps.Sound.{
  Sound, OneEach, OneOf, Others, with_first, with_first-rest, HasToken, Sound-Quiet,
}

-- The one row that a claim changes.
abbrev pub Target : ℕ → ℕ → List SyncJob → Type 0
Target i u [] = ⊥
Target i u (j ∷ js) =
    ((j.id ≡ i) × (j.user_id ≡ u) × (is_running j ≡ false) × All (λ k. i ≢ k.id) js)
    ⊎ ((i ≢ j.id) × Target i u js)

In-Target :
    (job : SyncJob) (js : List SyncJob)
    → DistinctKeys (λ j. j.id) js
    → is_running job ≡ false
    → In job js
    → Target job.id job.user_id js
In-Target job [] d idle h = absurd h
In-Target job (j ∷ js) d idle (inl e) = inl (
  ap (λ k. k.id) (sym e),
  ap (λ k. k.user_id) (sym e),
  subst (λ k. is_running k ≡ false) e idle,
  subst (λ k. All (λ m. k.id ≢ m.id) js) (sym e) d.0,
)
In-Target job (j ∷ js) d idle (inr h) =
    inr ((λ e. In-All (λ m. j.id ≢ m.id) job js d.0 h (sym e)), In-Target job js d.1 idle h)

module _ (worker : String) (run_id now i u : ℕ) where
  abbrev set_claimed : List SyncJob → List SyncJob
  set_claimed js = set_job i (claimed worker run_id now) js

  same_id : (a b : ℕ) → a ≡ b → (a == b) ≡ true
  same_id a b e = ground arith

  other_id : (a b : ℕ) → b ≢ a → (a == b) ≡ false
  other_id a b ne = ground arith

  set_away : (js : List SyncJob) → All (λ k. i ≢ k.id) js → set_claimed js ≡ js
  set_away [] h = refl
  set_away (j ∷ js) h = rw (other_id j.id i h.0) (ap (λ xs. j ∷ xs) (set_away js h.1))

  set_ids :
      (a : ℕ) (js : List SyncJob) → All (λ k. a ≢ k.id) js → All (λ k. a ≢ k.id) (set_claimed js)
  set_ids a [] h = tt
  set_ids a (j ∷ js) h = (
    elim (Bool-cases (j.id == i)) [ inl here ↦ rw here h.0 | inr away ↦ rw away h.0 ],
    set_ids a js h.1,
  )

  set_distinct :
      (js : List SyncJob) → DistinctKeys (λ j. j.id) js → DistinctKeys (λ j. j.id) (set_claimed js)
  set_distinct [] h = tt
  set_distinct (j ∷ js) h = elim (Bool-cases (j.id == i)) [
    | inl here ↦ rw here (set_ids j.id js h.0, set_distinct js h.1)
    | inr away ↦ rw away (set_ids j.id js h.0, set_distinct js h.1)
  ]

  set_below :
      (n : ℕ) (js : List SyncJob) → All (λ j. j.id < n) js → All (λ j. j.id < n) (set_claimed js)
  set_below n [] h = tt
  set_below n (j ∷ js) h = (
    elim (Bool-cases (j.id == i)) [ inl here ↦ rw here h.0 | inr away ↦ rw away h.0 ],
    set_below n js h.1,
  )

  set_tokens :
      (js : List SyncJob) → All (HasToken run_id) js → All (HasToken (suc run_id)) (set_claimed js)
  set_tokens [] h = tt
  set_tokens (j ∷ js) h = (
    elim (Bool-cases (j.id == i)) [
      | inl here ↦ rw here (inr (record { worker_id = worker; run_id = run_id }, refl, omega arith))
      | inr away ↦
          rw away
            (elim h.0 [ inl idle ↦ inl idle | inr (t, e, lt) ↦ inr (t, e, omega (arith, lt)) ])
    ],
    set_tokens js h.1,
  )

  set_count :
      (js : List SyncJob)
      → Target i u js
      → count_if is_running (set_claimed js) ≡ suc (count_if is_running js)
  set_count [] h = absurd h
  set_count (j ∷ js) (inl (e, user, idle, rest)) =
      rw (same_id j.id i e) (rw idle (ap (λ xs. suc (count_if is_running xs)) (set_away js rest)))
  set_count (j ∷ js) (inr (ne, h)) =
      rw (other_id j.id i ne) (counted (is_running j) (set_count js h))
    where
      counted :
          (b : Bool)
          → count_if is_running (set_claimed js) ≡ suc (count_if is_running js)
          → (if b
              then suc (count_if is_running (set_claimed js))
              else count_if is_running (set_claimed js))
            ≡ suc (if b then suc (count_if is_running js) else count_if is_running js)
      counted true e = ap (λ n. suc n) e
      counted false e = e

  -- Where no job of the user runs, its claimed one is alone.
  set_users :
      (v : ℕ) (js : List SyncJob)
      → v ≢ u
      → Target i u js
      → Others v (filter is_running js)
      → Others v (filter is_running (set_claimed js))
  set_users v [] ne t h = absurd t
  set_users v (j ∷ js) ne (inl (e, user, idle, rest)) h = rw (same_id j.id i e) (
    (λ same. ne (same ∙ user)),
    subst (λ xs. Others v (filter is_running xs)) (sym (set_away js rest))
        (with_first-rest (is_running j) v j (filter is_running js) h),
  )
  set_users v (j ∷ js) ne (inr (away, t)) h = rw (other_id j.id i away) (
      both (is_running j) h
        (set_users v js ne t (with_first-rest (is_running j) v j (filter is_running js) h)))
    where
      both :
          (b : Bool)
          → Others v (with_first b j (filter is_running js))
          → Others v (filter is_running (set_claimed js))
          → Others v (with_first b j (filter is_running (set_claimed js)))
      both true h rest = (h.0, rest)
      both false h rest = rest

  set_claimed-OneEach :
      (js : List SyncJob)
      → Target i u js
      → Others u (filter is_running js)
      → OneEach js
      → OneEach (set_claimed js)
  set_claimed-OneEach [] t o h = absurd t
  set_claimed-OneEach (j ∷ js) (inl (e, user, idle, rest)) o h = rw (same_id j.id i e) (
    subst (λ v. Others v (filter is_running (set_claimed js))) (sym user)
        (subst (λ xs. Others u (filter is_running xs)) (sym (set_away js rest))
          (with_first-rest (is_running j) u j (filter is_running js) o)),
    subst OneEach (sym (set_away js rest)) (tail (is_running j) h),
  )
    where
      tail : (b : Bool) → OneOf (with_first b j (filter is_running js)) → OneEach js
      tail true h = h.1
      tail false h = h
  set_claimed-OneEach (j ∷ js) (inr (away, t)) o h = rw (other_id j.id i away) (
      both (is_running j) o h (
        set_claimed-OneEach js t (with_first-rest (is_running j) u j (filter is_running js) o)
          (tail (is_running j) h)))
    where
      tail : (b : Bool) → OneOf (with_first b j (filter is_running js)) → OneEach js
      tail true h = h.1
      tail false h = h

      both :
          (b : Bool)
          → Others u (with_first b j (filter is_running js))
          → OneOf (with_first b j (filter is_running js))
          → OneEach (set_claimed js)
          → OneOf (with_first b j (filter is_running (set_claimed js)))
      both true o h rest = (set_users j.user_id js (λ e. o.0 (sym e)) t h.0, rest)
      both false o h rest = rest

-- What the claim picks.
pub record IsPicked (s : SyncSettings) (db : SyncDb) (job : SyncJob) : Type 0 where
  pub stored : In job db.jobs
  pub idle : is_running job ≡ false
  pub alone : has_running job.user_id db.jobs ≡ false

abbrev pub after_claim : String → ℕ → SyncJob → SyncDb → SyncDb
after_claim worker now job db = (claim_first worker now db (job ∷ [])).1

and_left : (a b : Bool) → (a && b) ≡ true → a ≡ true
and_left true b h = refl
and_left false b h = h

and_right : (a b : Bool) → (a && b) ≡ true → b ≡ true
and_right true b h = h
and_right false b h = absurd (cc)

waiting-idle : (job : SyncJob) → is_waiting job ≡ true → is_running job ≡ false
waiting-idle job h = by_status job.status h
  where
    by_status :
        (st : SyncJobStatus)
        → elim st [ SyncJobStatus.pending ↦ true | _ ↦ false ] ≡ true
        → elim st [ SyncJobStatus.running ↦ true | _ ↦ false ] ≡ false
    by_status SyncJobStatus.pending h = refl
    by_status SyncJobStatus.running h = absurd (cc)
    by_status SyncJobStatus.failed h = refl
    by_status SyncJobStatus.disabled h = refl

claimable-IsPicked :
    (s : SyncSettings) (now : ℕ) (db : SyncDb) (job : SyncJob)
    → In job db.jobs
    → claimable s now db job ≡ true
    → IsPicked s db job
unfolding claimable
claimable-IsPicked s now db job h e =
    let late = and_right (is_waiting job) _ e in
    let seen = and_right (leb job.run_after now) _ late in
    let free =
      and_left (not (has_running job.user_id db.jobs)) (has_policy now db job)
        (and_right (has_syncing_device s now db job) _ seen) in
    record {
      stored = h;
      idle = waiting-idle job (and_left (is_waiting job) _ e);
      alone = ground (arith, free);
    }

filter-IsPicked :
    (s : SyncSettings) (other_locks : ℕ → Bool) (now : ℕ) (db : SyncDb) (js : List SyncJob)
    → ((j : SyncJob) → In j js → In j db.jobs)
    → All (IsPicked s db) (filter (λ j. claimable s now db j && not (other_locks j.id)) js)
filter-IsPicked s other_locks now db [] h = tt
filter-IsPicked s other_locks now db (j ∷ js) h =
    elim (Bool-cases (claimable s now db j && not (other_locks j.id))) [
      | inl takes ↦ rw takes (
        claimable-IsPicked s now db j (h j (inl refl))
            (and_left (claimable s now db j) (not (other_locks j.id)) takes),
        filter-IsPicked s other_locks now db js (λ k i. h k (inr i)),
      )
      | inr leaves ↦ rw leaves (filter-IsPicked s other_locks now db js (λ k i. h k (inr i)))
    ]

pub claim_due_job-cases :
    (s : SyncSettings) (worker : String) (other_locks : ℕ → Bool) (now : ℕ) (db : SyncDb)
    → ((claim_due_job s worker other_locks now db).1 ≡ db)
      ⊎ ((job : SyncJob) × IsPicked s db job
          × (count_running db < s.global_concurrency)
          × ((claim_due_job s worker other_locks now db).1 ≡ after_claim worker now job db))
unfolding claim_due_job next_due
claim_due_job-cases s worker other_locks now db =
    elim (Bool-cases (leb s.global_concurrency (count_running db))) [
      | inl full ↦ inl (rw full refl)
      | inr room ↦ rw room (picked (next_due s other_locks now db) all_picked (ground arith))
    ]
  where
    all_picked : All (IsPicked s db) (next_due s other_locks now db)
    all_picked =
        order_by-All (λ j. j.priority) (IsPicked s db) _
          (order_by-All (λ j. j.run_after) (IsPicked s db) _
            (filter-IsPicked s other_locks now db db.jobs (λ j i. i)))

    picked :
        (due : List SyncJob)
        → All (IsPicked s db) due
        → count_running db < s.global_concurrency
        → ((claim_first worker now db due).1 ≡ db)
          ⊎ ((job : SyncJob) × IsPicked s db job
              × (count_running db < s.global_concurrency)
              × ((claim_first worker now db due).1 ≡ after_claim worker now job db))
    picked [] h lt = inl refl
    picked (job ∷ due) h lt = inr (job, h.0, lt, refl)

has_running-Others :
    (u : ℕ) (js : List SyncJob) → has_running u js ≡ false → Others u (filter is_running js)
has_running-Others u [] h = tt
has_running-Others u (j ∷ js) h = elim (Bool-cases (is_running j)) [
  | inl runs ↦
      rw runs
        ((λ e. absurd (ground (arith, h, runs, e))), has_running-Others u js (ground (arith, h)))
  | inr idle ↦ rw idle (has_running-Others u js (ground (arith, h)))
]

Sound-claimed :
    (s : SyncSettings) (worker : String) (now : ℕ) (job : SyncJob) (db : SyncDb)
    → IsPicked s db job
    → count_running db < s.global_concurrency
    → Sound s db
    → Sound s (after_claim worker now job db)
Sound-claimed s worker now job db p lt h =
    let target = In-Target job db.jobs h.distinct p.idle p.stored in
    record {
      distinct = set_distinct worker db.next_run now job.id job.user_id db.jobs h.distinct;
      below = set_below worker db.next_run now job.id job.user_id db.next_job db.jobs h.below;
      capped =
          omega (arith, set_count worker db.next_run now job.id job.user_id db.jobs target, lt);
      one_each =
          set_claimed-OneEach worker db.next_run now job.id job.user_id db.jobs target
            (has_running-Others job.user_id db.jobs p.alone) h.one_each;
      tokens = set_tokens worker db.next_run now job.id job.user_id db.jobs h.tokens;
    }

Step-Sound : (s : SyncSettings) (db after : SyncDb) → Step s db after → Sound s db → Sound s after
Step-Sound s db after step h = elim (Step-cases s db after step) [
  | inl quiet ↦ Sound-Quiet s db after quiet h
  | inr (worker, other_locks, now, e) ↦ elim (claim_due_job-cases s worker other_locks now db) [
    | inl same ↦ subst (Sound s) (sym (e ∙ same)) h
    | inr (job, p, lt, same) ↦
        subst (Sound s) (sym (e ∙ same)) (Sound-claimed s worker now job db p lt h)
  ]
]

-- Whatever transactions of workers, requests and operators come, in any order, the tables stay so where
-- they were so: no more jobs run than the global cap, no user has two running at once, job ids are
-- distinct, and each running job is locked under the token of a run that was opened.
pub Reaches-Sound :
    (s : SyncSettings) (db after : SyncDb) → Reaches s db after → Sound s db → Sound s after
Reaches-Sound s db _ stays h = h
Reaches-Sound s db _ (steps {mid} {after} r step) h =
    Step-Sound s mid after step (Reaches-Sound s db mid r h)
