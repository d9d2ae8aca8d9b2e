-- ===== src/SyncJobs/Steps/Sound.antt =====
-- What holds of the jobs' tables whatever transactions come: no more jobs run than the cap, one of a
-- user at a time, each under the token of a run that was opened for it.
use tigerduck_backend.Prelude.{
  ℕ, suc, ◌≤◌, ◌<◌, ◌≡◌, ◌≢◌, ◌⊎◌, refl, ap, sym, subst, ◌∙◌, arith, Bool, true, false, some, List,
  [], ◌∷◌, ◌++◌, filter, count_if, if◌then◌else◌, Bool-cases, All, All-map, All-append, All-filter,
  inl, inr,
}
use tigerduck_backend.Prelude.Sorting.{DistinctKeys}
use tigerduck_backend.SyncJobs.Job.{LockToken, SyncJob, SyncDb, SyncSettings, is_running}
use tigerduck_backend.SyncJobs.Claim.{count_running}
use tigerduck_backend.SyncJobs.Steps.Quiet.{CalmAll, Quiet, calm, adds, removes, follows}

-- Of the jobs that run, no two belong to one user.
abbrev pub OneEach : List SyncJob → Type 0
OneEach jobs = DistinctKeys (λ j. j.user_id) (filter is_running jobs)

abbrev pub HasToken : ℕ → SyncJob → Type 0
HasToken next_run j =
    (is_running j ≡ false) ⊎ ((t : LockToken) × (j.locked_by ≡ some t) × (t.run_id < next_run))

pub record Sound (s : SyncSettings) (db : SyncDb) : Type 0 where
  pub distinct : DistinctKeys (λ j. j.id) db.jobs
  pub below : All (λ j. j.id < db.next_job) db.jobs
  pub capped : count_running db ≤ s.global_concurrency
  pub one_each : OneEach db.jobs
  pub tokens : All (HasToken db.next_run) db.jobs

-- Along a calm change.
CalmAll-ids :
    (i : ℕ) (js ks : List SyncJob) → CalmAll js ks → All (λ j. i ≢ j.id) js → All (λ k. i ≢ k.id) ks
CalmAll-ids i [] [] c h = tt
CalmAll-ids i [] (k ∷ ks) c h = absurd c
CalmAll-ids i (j ∷ js) [] c h = tt
CalmAll-ids i (j ∷ js) (k ∷ ks) c h = ((λ e. h.0 (e ∙ c.0.same_id)), CalmAll-ids i js ks c.1 h.1)

CalmAll-distinct :
    (js ks : List SyncJob)
    → CalmAll js ks
    → DistinctKeys (λ j. j.id) js
    → DistinctKeys (λ j. j.id) ks
CalmAll-distinct [] [] c h = tt
CalmAll-distinct [] (k ∷ ks) c h = absurd c
CalmAll-distinct (j ∷ js) [] c h = tt
CalmAll-distinct (j ∷ js) (k ∷ ks) c h = (
  subst (λ i. All (λ m. i ≢ m.id) ks) (sym c.0.same_id) (CalmAll-ids j.id js ks c.1 h.0),
  CalmAll-distinct js ks c.1 h.1,
)

CalmAll-below :
    (n m : ℕ) (js ks : List SyncJob)
    → n ≤ m
    → CalmAll js ks
    → All (λ j. j.id < n) js
    → All (λ k. k.id < m) ks
CalmAll-below n m [] [] le c h = tt
CalmAll-below n m [] (k ∷ ks) le c h = absurd c
CalmAll-below n m (j ∷ js) [] le c h = tt
CalmAll-below n m (j ∷ js) (k ∷ ks) le c h =
    (omega (arith, le, h.0, c.0.same_id), CalmAll-below n m js ks le c.1 h.1)

CalmAll-tokens :
    (n : ℕ) (js ks : List SyncJob) → CalmAll js ks → All (HasToken n) js → All (HasToken n) ks
CalmAll-tokens n [] [] c h = tt
CalmAll-tokens n [] (k ∷ ks) c h = absurd c
CalmAll-tokens n (j ∷ js) [] c h = tt
CalmAll-tokens n (j ∷ js) (k ∷ ks) c h = (token c.0.keeps h.0, CalmAll-tokens n js ks c.1 h.1)
  where
    token :
        (is_running k ≡ false)
          ⊎ ((is_running j ≡ true) × (is_running k ≡ true) × (k.locked_by ≡ j.locked_by))
        → HasToken n j
        → HasToken n k
    token (inl e) t = inl e
    token (inr (before, after, same)) (inl e) = absurd (cc)
    token (inr (before, after, same)) (inr (t, e, lt)) = inr (t, same ∙ e, lt)

CalmAll-count :
    (js ks : List SyncJob) → CalmAll js ks → count_if is_running ks ≤ count_if is_running js
CalmAll-count [] [] c = omega arith
CalmAll-count [] (k ∷ ks) c = absurd c
CalmAll-count (j ∷ js) [] c = ground arith
CalmAll-count (j ∷ js) (k ∷ ks) c = counted c.0.keeps (CalmAll-count js ks c.1)
  where
    counted :
        (is_running k ≡ false)
          ⊎ ((is_running j ≡ true) × (is_running k ≡ true) × (k.locked_by ≡ j.locked_by))
        → count_if is_running ks ≤ count_if is_running js
        → count_if is_running (k ∷ ks) ≤ count_if is_running (j ∷ js)
    counted (inl e) le = rw e (at_most (is_running j) le)
      where
        at_most :
            (b : Bool)
            → count_if is_running ks ≤ count_if is_running js
            → count_if is_running ks
              ≤ (if b then suc (count_if is_running js) else count_if is_running js)
        at_most true le = omega arith
        at_most false le = le
    counted (inr (before, after, same)) le = rw before (rw after (omega arith))

abbrev pub Others : ℕ → List SyncJob → Type 0
Others u xs = All (λ j. u ≢ j.user_id) xs

abbrev pub with_first : Bool → SyncJob → List SyncJob → List SyncJob
with_first b j xs = if b then j ∷ xs else xs

pub with_first-rest :
    (b : Bool) (u : ℕ) (j : SyncJob) (xs : List SyncJob)
    → Others u (with_first b j xs)
    → Others u xs
with_first-rest true u j xs h = h.1
with_first-rest false u j xs h = h

CalmAll-users :
    (u : ℕ) (js ks : List SyncJob)
    → CalmAll js ks
    → Others u (filter is_running js)
    → Others u (filter is_running ks)
CalmAll-users u [] [] c h = tt
CalmAll-users u [] (k ∷ ks) c h = absurd c
CalmAll-users u (j ∷ js) [] c h = tt
CalmAll-users u (j ∷ js) (k ∷ ks) c h =
    let rest =
      CalmAll-users u js ks c.1 (with_first-rest (is_running j) u j (filter is_running js) h) in
    elim c.0.keeps [
      | inl e ↦ rw e rest
      | inr (before, after, same) ↦ rw after (
        (λ e.
            (subst (λ b. Others u (with_first b j (filter is_running js))) before h).0
              (e ∙ c.0.same_user)),
        rest,
      )
    ]

abbrev pub OneOf : List SyncJob → Type 0
OneOf xs = DistinctKeys (λ j. j.user_id) xs

with_first-OneOf :
    (b : Bool) (j : SyncJob) (xs : List SyncJob) → OneOf (with_first b j xs) → OneOf xs
with_first-OneOf true j xs h = h.1
with_first-OneOf false j xs h = h

CalmAll-OneEach : (js ks : List SyncJob) → CalmAll js ks → OneEach js → OneEach ks
CalmAll-OneEach [] [] c h = tt
CalmAll-OneEach [] (k ∷ ks) c h = absurd c
CalmAll-OneEach (j ∷ js) [] c h = tt
CalmAll-OneEach (j ∷ js) (k ∷ ks) c h =
    let rest =
      CalmAll-OneEach js ks c.1 (with_first-OneOf (is_running j) j (filter is_running js) h) in
    elim c.0.keeps [
      | inl e ↦ rw e rest
      | inr (before, after, same) ↦ rw after (
        subst (λ u. Others u (filter is_running ks)) (sym c.0.same_user)
            (CalmAll-users j.user_id js ks c.1
              (subst (λ b. OneOf (with_first b j (filter is_running js))) before h).0),
        rest,
      )
    ]

-- A new job at the end.
DistinctKeys-append :
    (n : ℕ) (js : List SyncJob) (k : SyncJob)
    → k.id ≡ n
    → All (λ j. j.id < n) js
    → DistinctKeys (λ j. j.id) js
    → DistinctKeys (λ j. j.id) (js ++ k ∷ [])
DistinctKeys-append n [] k e b h = (tt, tt)
DistinctKeys-append n (j ∷ js) k e b h = (
  All-append (λ m. j.id ≢ m.id) js (k ∷ []) h.0 ((λ same. omega (arith, b.0, e, same)), tt),
  DistinctKeys-append n js k e b.1 h.1,
)

filter-append_none :
    (js : List SyncJob) (k : SyncJob)
    → is_running k ≡ false
    → filter is_running (js ++ k ∷ []) ≡ filter is_running js
filter-append_none [] k e = rw e refl
filter-append_none (j ∷ js) k e = ap (with_first (is_running j) j) (filter-append_none js k e)

count-append_none :
    (js : List SyncJob) (k : SyncJob)
    → is_running k ≡ false
    → count_if is_running (js ++ k ∷ []) ≡ count_if is_running js
count-append_none [] k e = rw e refl
count-append_none (j ∷ js) k e =
    ap (λ n. if is_running j then suc n else n) (count-append_none js k e)

Sound-added :
    (s : SyncSettings) (db after : SyncDb) (k : SyncJob)
    → k.id ≡ db.next_job
    → is_running k ≡ false
    → after.jobs ≡ db.jobs ++ k ∷ []
    → after.next_run ≡ db.next_run
    → after.next_job ≡ suc db.next_job
    → Sound s db
    → Sound s after
Sound-added s db after k id idle jobs runs next_id h = record {
  distinct =
      subst (DistinctKeys (λ j. j.id)) (sym jobs)
        (DistinctKeys-append db.next_job db.jobs k id h.below h.distinct);
  below = subst (All (λ j. j.id < after.next_job)) (sym jobs) (
      All-append (λ j. j.id < after.next_job) db.jobs (k ∷ [])
        (All-map {P = λ j. j.id < db.next_job} {Q = λ j. j.id < after.next_job}
          (λ j lt. omega (arith, lt, next_id)) db.jobs h.below)
        (omega (arith, id, next_id), tt));
  capped =
      subst (λ js. count_if is_running js ≤ s.global_concurrency) (sym jobs)
        (subst (λ n. n ≤ s.global_concurrency) (sym (count-append_none db.jobs k idle)) h.capped);
  one_each =
      subst OneEach (sym jobs) (subst OneOf (sym (filter-append_none db.jobs k idle)) h.one_each);
  tokens = subst (All (HasToken after.next_run)) (sym jobs) (
      All-append (HasToken after.next_run) db.jobs (k ∷ [])
        (subst (λ n. All (HasToken n) db.jobs) (sym runs) h.tokens) (inl idle, tt));
}

-- Some jobs gone.
DistinctKeys-filter :
    (key : SyncJob → ℕ) (keep : SyncJob → Bool) (js : List SyncJob)
    → DistinctKeys key js
    → DistinctKeys key (filter keep js)
DistinctKeys-filter key keep [] h = tt
DistinctKeys-filter key keep (j ∷ js) h = elim (Bool-cases (keep j)) [
  | inl stay ↦
      rw stay (All-filter (λ k. key j ≢ key k) keep js h.0, DistinctKeys-filter key keep js h.1)
  | inr gone ↦ rw gone (DistinctKeys-filter key keep js h.1)
]

filter_swap :
    (p q : SyncJob → Bool) (js : List SyncJob) → filter p (filter q js) ≡ filter q (filter p js)
filter_swap p q [] = refl
filter_swap p q (j ∷ js) = ground (arith, filter_swap p q js)

count_if-filter :
    (p q : SyncJob → Bool) (js : List SyncJob) → count_if p (filter q js) ≤ count_if p js
count_if-filter p q [] = omega arith
count_if-filter p q (j ∷ js) = ground (arith, count_if-filter p q js)

Sound-removed :
    (s : SyncSettings) (db after : SyncDb) (keep : SyncJob → Bool)
    → after.jobs ≡ filter keep db.jobs
    → after.next_run ≡ db.next_run
    → after.next_job ≡ db.next_job
    → Sound s db
    → Sound s after
Sound-removed s db after keep jobs runs next_id h = record {
  distinct =
      subst (DistinctKeys (λ j. j.id)) (sym jobs)
        (DistinctKeys-filter (λ j. j.id) keep db.jobs h.distinct);
  below = subst (All (λ j. j.id < after.next_job)) (sym jobs) (
      subst (λ n. All (λ j. j.id < n) (filter keep db.jobs)) (sym next_id)
        (All-filter (λ j. j.id < db.next_job) keep db.jobs h.below));
  capped =
      subst (λ js. count_if is_running js ≤ s.global_concurrency) (sym jobs)
        (omega (arith, count_if-filter is_running keep db.jobs, h.capped));
  one_each = subst OneEach (sym jobs) (
      subst OneOf (filter_swap keep is_running db.jobs)
        (DistinctKeys-filter (λ j. j.user_id) keep (filter is_running db.jobs) h.one_each));
  tokens = subst (All (HasToken after.next_run)) (sym jobs) (
      subst (λ n. All (HasToken n) (filter keep db.jobs)) (sym runs)
        (All-filter (HasToken db.next_run) keep db.jobs h.tokens));
}

pub Sound-Quiet :
    (s : SyncSettings) (db after : SyncDb) → Quiet db after → Sound s db → Sound s after
Sound-Quiet s _ _ (calm {db} {after} c runs next_id) h = record {
  distinct = CalmAll-distinct db.jobs after.jobs c h.distinct;
  below = CalmAll-below db.next_job after.next_job db.jobs after.jobs next_id c h.below;
  capped = omega (arith, CalmAll-count db.jobs after.jobs c, h.capped);
  one_each = CalmAll-OneEach db.jobs after.jobs c h.one_each;
  tokens =
      subst (λ n. All (HasToken n) after.jobs) (sym runs)
        (CalmAll-tokens db.next_run db.jobs after.jobs c h.tokens);
}
Sound-Quiet s _ _ (adds {db} {after} k id idle jobs runs next_id) h =
    Sound-added s db after k id idle jobs runs next_id h
Sound-Quiet s _ _ (removes {db} {after} keep jobs runs next_id) h =
    Sound-removed s db after keep jobs runs next_id h
Sound-Quiet s _ _ (follows {db} {mid} {after} q r) h =
    Sound-Quiet s mid after r (Sound-Quiet s db mid q h)
