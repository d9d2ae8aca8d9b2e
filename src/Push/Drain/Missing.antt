-- ===== src/Push/Drain/Missing.antt =====
-- How many jobs a tick has still to process, and that the claims and releases keep the ids.
use tigerduck_backend.Prelude.{
  ℕ, zero, suc, ◌<◌, ◌≤◌, ◌≡◌, subst, sym, Bool, false, List, [], ◌∷◌, map, arith, String, ◌==◌,
  if◌then◌else◌, Bool-cases, inl, inr, All,
}
use tigerduck_backend.Push.Job.{PushJob}
use tigerduck_backend.Push.Claim.{
  Settings, member, release_claimed, recover_stale_jobs, recover_job, spend_attempt,
}
use tigerduck_backend.Push.Drain.{add}

-- how many of the ids below `n` are not in the list
abbrev pub missing : ℕ → List ℕ → ℕ
missing zero ids = 0
missing (suc n) ids = if member n ids then missing n ids else suc (missing n ids)

pub missing_le : (n : ℕ) (ids : List ℕ) → missing n ids ≤ n
missing_le zero ids = omega arith
missing_le (suc n) ids = ground (arith, missing_le n ids)

pub missing-cons : (n i : ℕ) (ids : List ℕ) → missing n (i ∷ ids) ≤ missing n ids
missing-cons zero i ids = omega arith
missing-cons (suc n) i ids = ground (arith, missing-cons n i ids)

pub missing_fresh :
    (n i : ℕ) (ids : List ℕ) → i < n → member i ids ≡ false → missing n (i ∷ ids) < missing n ids
missing_fresh zero i ids b f = omega arith
missing_fresh (suc n) i ids b f = elim (Bool-cases (i == n)) [
  | inl same ↦
      let q : i ≡ n = ground arith in
      let old : member n ids ≡ false = subst (λ k. member k ids ≡ false) q f in
      rw same (rw old (omega (arith, missing-cons n i ids)))
  | inr other ↦
      let lower : i < n = ground arith in rw other (ground (arith, missing_fresh n i ids lower f))
]

pub missing-add : (n i : ℕ) (ids : List ℕ) → missing n (add i ids) ≤ missing n ids
missing-add n i ids = elim (Bool-cases (member i ids)) [
  | inl old ↦ rw old (omega arith)
  | inr fresh ↦ rw fresh (missing-cons n i ids)
]

abbrev pub Below : ℕ → List PushJob → Type 0
Below n jobs = All (λ j. j.id < n) jobs

-- Rows are changed, not renamed.
pub map-Below :
    (n : ℕ) (f : PushJob → PushJob) (jobs : List PushJob)
    → ((j : PushJob) → (f j).id ≡ j.id)
    → Below n jobs
    → Below n (map f jobs)
map-Below n f [] same h = tt
map-Below n f (j ∷ js) same h = (subst (λ k. k < n) (sym (same j)) h.0, map-Below n f js same h.1)

pub release_claimed-Below :
    (n : ℕ) (worker : String) (ids : List ℕ) (jobs : List PushJob)
    → Below n jobs
    → Below n (release_claimed worker ids jobs)
unfolding release_claimed
release_claimed-Below n worker ids jobs h = map-Below n _ jobs (λ j. ground arith) h

pub recover_stale_jobs-Below :
    (n : ℕ) (s : Settings) (locks : ℕ → Bool) (a b : ℕ) (jobs : List PushJob)
    → Below n jobs
    → Below n (recover_stale_jobs s locks a b jobs)
unfolding recover_stale_jobs recover_job spend_attempt
recover_stale_jobs-Below n s locks a b jobs h = map-Below n _ jobs (λ j. ground arith) h
