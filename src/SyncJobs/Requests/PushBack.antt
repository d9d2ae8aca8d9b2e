-- ===== src/SyncJobs/Requests/PushBack.antt =====
-- How far uploads of the app put off the server's own run (`_push_back_sync_jobs` of
-- server/routes/sync/_shared.py).
use tigerduck_backend.Prelude.{
  false, All, ℕ, ◌+◌, ◌≤◌, ◌≡◌, ◌⊎◌, max, refl, subst, ◌∙◌, arith, Bool, true, ◌&&◌, Option, none,
  some, List, [], ◌∷◌, map, ◌==◌, if◌then◌else◌, Bool-cases, inl, inr,
}
use tigerduck_backend.SyncJobs.Job.{
  SyncJobType, same_type, SyncPolicy, SyncJob, SyncDb, is_waiting, policy_of,
}
use tigerduck_backend.SyncJobs.Requests.{is_fresh, push_back_sync_jobs}

-- One upload of a client.
pub record Upload : Type 0 where
  pub now : ℕ
  pub user_id : ℕ
  pub job_type : SyncJobType

unfoldable pub push_back_all : ℕ → List Upload → SyncDb → SyncDb
unfolding push_back_sync_jobs
push_back_all seconds [] db = db
push_back_all seconds (u ∷ us) db =
    push_back_all seconds us (push_back_sync_jobs seconds u.now u.user_id u.job_type db)

-- `seconds` past the time when a run is due after the last success; nothing where there was none, or no
-- policy.
abbrev pub put_off_limit : ℕ → Option SyncPolicy → Option ℕ → ℕ
put_off_limit seconds (some p) (some last) = last + p.default_interval + seconds
put_off_limit seconds _ _ = 0

-- The upload brought what the pending job's next run would fetch, and the interval had not passed.
abbrev pub is_held_by : List SyncPolicy → Upload → SyncJob → Bool
is_held_by policies u j =
    j.user_id == u.user_id
    && (same_type j.job_type u.job_type
        && (is_waiting j && is_fresh u.now (policy_of j.job_type policies) j.last_success_at))

-- A job before and after the uploads: nothing but a pending job's time moves, never forward, not past
-- that limit, and at least `seconds` past each upload that holds it.
pub record IsPutOff (seconds : ℕ) (policies : List SyncPolicy) (us : List Upload) (j k : SyncJob)
    : Type 0 where
  pub time : ℕ
  pub same : k ≡ record j { run_after = time }
  pub pending : (is_waiting j ≡ true) ⊎ (time ≡ j.run_after)
  pub not_sooner : j.run_after ≤ time
  pub not_late :
      time
      ≤ max j.run_after (put_off_limit seconds (policy_of j.job_type policies) j.last_success_at)
  pub held : All (λ u. (is_held_by policies u j ≡ false) ⊎ (u.now + seconds ≤ time)) us

abbrev pub EachPutOff : ℕ → List SyncPolicy → List Upload → List SyncJob → List SyncJob → Type 0
EachPutOff seconds policies us [] [] = Unit
EachPutOff seconds policies us [] (k ∷ ks) = ⊥
EachPutOff seconds policies us (j ∷ js) [] = ⊥
EachPutOff seconds policies us (j ∷ js) (k ∷ ks) =
    IsPutOff seconds policies us j k × EachPutOff seconds policies us js ks

IsPutOff-refl :
    (seconds : ℕ) (policies : List SyncPolicy) (j : SyncJob) → IsPutOff seconds policies [] j j
IsPutOff-refl seconds policies j = record {
  time = j.run_after;
  same = refl;
  pending = inr refl;
  not_sooner = omega arith;
  not_late = omega arith;
  held = tt;
}

IsPutOff-trans :
    (seconds : ℕ) (policies : List SyncPolicy) (u : Upload) (us : List Upload) (j k l : SyncJob)
    → IsPutOff seconds policies (u ∷ []) j k
    → IsPutOff seconds policies us k l
    → IsPutOff seconds policies (u ∷ us) j l
IsPutOff-trans seconds policies u us j k l p q =
    let r = subst (λ m. IsPutOff seconds policies us m l) p.same q in
    record {
      time = r.time;
      same = r.same;
      pending = either p.pending r.pending;
      not_sooner = omega (arith, p.not_sooner, r.not_sooner);
      not_late = omega (arith, p.not_late, r.not_late);
      held = (kept p.time r.time r.not_sooner p.held.0, r.held);
    }
  where
    either :
        {time last : ℕ}
        → (is_waiting j ≡ true) ⊎ (time ≡ j.run_after)
        → (is_waiting j ≡ true) ⊎ (last ≡ time)
        → (is_waiting j ≡ true) ⊎ (last ≡ j.run_after)
    either (inl w) _ = inl w
    either (inr e) (inl w) = inl w
    either (inr e) (inr f) = inr (f ∙ e)

    kept :
        (time last : ℕ)
        → time ≤ last
        → (is_held_by policies u j ≡ false) ⊎ (u.now + seconds ≤ time)
        → (is_held_by policies u j ≡ false) ⊎ (u.now + seconds ≤ last)
    kept time last le (inl free) = inl free
    kept time last le (inr lt) = inr (omega arith)

is_fresh-put_off_limit :
    (seconds now : ℕ) (policy : Option SyncPolicy) (last : Option ℕ)
    → is_fresh now policy last ≡ true
    → now + seconds ≤ put_off_limit seconds policy last
is_fresh-put_off_limit seconds now none last h = absurd (ground arith)
is_fresh-put_off_limit seconds now (some p) none h = absurd (ground arith)
is_fresh-put_off_limit seconds now (some p) (some last) h = ground arith

EachPutOff-refl :
    (seconds : ℕ) (policies : List SyncPolicy) (js : List SyncJob)
    → EachPutOff seconds policies [] js js
EachPutOff-refl seconds policies [] = tt
EachPutOff-refl seconds policies (j ∷ js) =
    (IsPutOff-refl seconds policies j, EachPutOff-refl seconds policies js)

EachPutOff-map :
    (seconds : ℕ) (policies : List SyncPolicy) (us : List Upload) (g : SyncJob → SyncJob)
    → ((j : SyncJob) → IsPutOff seconds policies us j (g j))
    → (js : List SyncJob) → EachPutOff seconds policies us js (map g js)
EachPutOff-map seconds policies us g h [] = tt
EachPutOff-map seconds policies us g h (j ∷ js) = (h j, EachPutOff-map seconds policies us g h js)

EachPutOff-trans :
    (seconds : ℕ) (policies : List SyncPolicy) (u : Upload) (us : List Upload)
    (js ks ls : List SyncJob)
    → EachPutOff seconds policies (u ∷ []) js ks
    → EachPutOff seconds policies us ks ls
    → EachPutOff seconds policies (u ∷ us) js ls
EachPutOff-trans seconds policies u us [] [] [] p q = tt
EachPutOff-trans seconds policies u us [] [] (l ∷ ls) p q = absurd q
EachPutOff-trans seconds policies u us [] (k ∷ ks) ls p q = absurd p
EachPutOff-trans seconds policies u us (j ∷ js) [] ls p q = absurd p
EachPutOff-trans seconds policies u us (j ∷ js) (k ∷ ks) [] p q = absurd q
EachPutOff-trans seconds policies u us (j ∷ js) (k ∷ ks) (l ∷ ls) p q = (
  IsPutOff-trans seconds policies u us j k l p.0 q.0,
  EachPutOff-trans seconds policies u us js ks ls p.1 q.1,
)

push_back_sync_jobs-EachPutOff :
    (seconds : ℕ) (u : Upload) (db : SyncDb)
    → EachPutOff seconds db.policies
        (u ∷ [])
        db.jobs
        (push_back_sync_jobs seconds u.now u.user_id u.job_type db).jobs
unfolding push_back_sync_jobs
push_back_sync_jobs-EachPutOff seconds u db =
    EachPutOff-map seconds db.policies (u ∷ []) _ one db.jobs
  where
    one :
        (j : SyncJob)
        → IsPutOff seconds db.policies (u ∷ []) j (
            if is_held_by db.policies u j
            then record j { run_after = max j.run_after (u.now + seconds) }
            else j)
    one j = elim (Bool-cases (is_held_by db.policies u j)) [
      | inr free ↦ rw free (record {
        time = j.run_after;
        same = refl;
        pending = inr refl;
        not_sooner = omega arith;
        not_late = omega arith;
        held = (inl free, tt);
      })
      | inl moved ↦ rw moved (record {
        time = max j.run_after (u.now + seconds);
        same = refl;
        pending = inl (ground arith);
        not_sooner = omega arith;
        not_late =
            let soon =
              is_fresh-put_off_limit seconds u.now (policy_of j.job_type db.policies)
                j.last_success_at (ground arith) in
            omega (arith, soon);
        held = (inr (omega arith), tt);
      })
    ]

-- However many uploads come, at whatever times: only a pending job's time moves, never forward, and never
-- more than `seconds` past its policy's interval after the last success, unless it stood later already;
-- and it stands at least `seconds` past each upload of its user and type that came within the interval.
pub push_back_all-EachPutOff :
    (seconds : ℕ) (us : List Upload) (db : SyncDb)
    → EachPutOff seconds db.policies us db.jobs (push_back_all seconds us db).jobs
unfolding push_back_all
push_back_all-EachPutOff seconds [] db = EachPutOff-refl seconds db.policies db.jobs
push_back_all-EachPutOff seconds (u ∷ us) db =
    let mid = push_back_sync_jobs seconds u.now u.user_id u.job_type db in
    EachPutOff-trans seconds db.policies u us db.jobs mid.jobs (push_back_all seconds us mid).jobs
      (push_back_sync_jobs-EachPutOff seconds u db) (push_back_all-EachPutOff seconds us mid)
