-- ===== src/SyncJobs/Steps/Quiet.antt =====
-- Every transaction but a claim is quiet: no job of it starts to run or changes hands, new jobs have
-- new ids, and jobs may go.
use tigerduck_backend.Prelude.{
  ℕ, suc, ◌≤◌, ◌≡◌, ◌⊎◌, refl, ap, sym, subst, ◌∙◌, arith, Bool, true, false, List, [], ◌∷◌, ◌++◌,
  map, filter, ◌==◌, if◌then◌else◌, Bool-cases, inl, inr,
}
use tigerduck_backend.SyncJobs.Job.{SyncJob, SyncDb, is_running, set_job}

-- A job before and after.
pub record Calm (j k : SyncJob) : Type 0 where
  pub same_id : k.id ≡ j.id
  pub same_user : k.user_id ≡ j.user_id
  pub keeps :
      (is_running k ≡ false)
      ⊎ ((is_running j ≡ true) × (is_running k ≡ true) × (k.locked_by ≡ j.locked_by))

pub Calm-refl : (j : SyncJob) → Calm j j
Calm-refl j = record { same_id = refl; same_user = refl; keeps = by_running (is_running j) refl }
  where
    by_running :
        (b : Bool)
        → is_running j ≡ b
        → (is_running j ≡ false)
          ⊎ ((is_running j ≡ true) × (is_running j ≡ true) × (j.locked_by ≡ j.locked_by))
    by_running true e = inr (e, e, refl)
    by_running false e = inl e

abbrev pub CalmAll : List SyncJob → List SyncJob → Type 0
CalmAll [] [] = Unit
CalmAll [] (k ∷ ks) = ⊥
CalmAll (j ∷ js) [] = ⊥
CalmAll (j ∷ js) (k ∷ ks) = Calm j k × CalmAll js ks

pub CalmAll-map :
    (g : SyncJob → SyncJob)
    → ((j : SyncJob) → Calm j (g j))
    → (js : List SyncJob) → CalmAll js (map g js)
CalmAll-map g c [] = tt
CalmAll-map g c (j ∷ js) = (c j, CalmAll-map g c js)

pub CalmAll-refl : (js : List SyncJob) → CalmAll js js
CalmAll-refl [] = tt
CalmAll-refl (j ∷ js) = (Calm-refl j, CalmAll-refl js)

pub Calm-if : (b : Bool) (j k : SyncJob) → Calm j k → Calm j (if b then k else j)
Calm-if true j k c = c
Calm-if false j k c = Calm-refl j

pub CalmAll-set_job :
    (i : ℕ) (f : SyncJob → SyncJob)
    → ((j : SyncJob) → Calm j (f j))
    → (js : List SyncJob) → CalmAll js (set_job i f js)
CalmAll-set_job i f c js =
    CalmAll-map (λ j. if j.id == i then f j else j) (λ j. Calm-if (j.id == i) j (f j) (c j)) js

-- Two changes of the same job, which together are calm.
pub CalmAll-set_twice :
    (i : ℕ) (f g : SyncJob → SyncJob)
    → ((j : SyncJob) → (f j).id ≡ j.id)
    → ((j : SyncJob) → Calm j (g (f j)))
    → (js : List SyncJob) → CalmAll js (set_job i g (set_job i f js))
CalmAll-set_twice i f g same c [] = tt
CalmAll-set_twice i f g same c (j ∷ js) = (
  elim (Bool-cases (j.id == i)) [
    | inl here ↦ rw here (
        subst (λ b. Calm j (if b then g (f j) else f j)) {x = true}
          (sym (ap (λ n. n == i) (same j) ∙ here)) (c j))
    | inr away ↦ rw away (rw away (Calm-refl j))
  ],
  CalmAll-set_twice i f g same c js,
)

pub data Quiet : SyncDb → SyncDb → Type 0 where
  calm :
      {db after : SyncDb}
      → CalmAll db.jobs after.jobs
      → after.next_run ≡ db.next_run
      → db.next_job ≤ after.next_job
      → Quiet db after
  adds :
      {db after : SyncDb} (job : SyncJob)
      → job.id ≡ db.next_job
      → is_running job ≡ false
      → after.jobs ≡ db.jobs ++ job ∷ []
      → after.next_run ≡ db.next_run
      → after.next_job ≡ suc db.next_job
      → Quiet db after
  removes :
      {db after : SyncDb} (keep : SyncJob → Bool)
      → after.jobs ≡ filter keep db.jobs
      → after.next_run ≡ db.next_run
      → after.next_job ≡ db.next_job
      → Quiet db after
  follows : {db mid after : SyncDb} → Quiet db mid → Quiet mid after → Quiet db after

pub Quiet-refl : (db : SyncDb) → Quiet db db
Quiet-refl db = calm (CalmAll-refl db.jobs) refl (omega arith)

-- A change of the jobs alone, one at a time.
pub Quiet-set_job :
    (db : SyncDb) (i : ℕ) (f : SyncJob → SyncJob)
    → ((j : SyncJob) → Calm j (f j))
    → Quiet db (record db { jobs = set_job i f db.jobs })
Quiet-set_job db i f c = calm (CalmAll-set_job i f c db.jobs) refl (omega arith)
