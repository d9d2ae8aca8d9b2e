-- ===== src/Push/Drain/Ends.antt =====
-- The loop of `run_push_tick` ends: every claim that is not empty processes a job the tick has not
-- processed yet.
use tigerduck_backend.Prelude.{
  ℕ, zero, suc, ◌<◌, ◌≤◌, ◌≡◌, refl, subst, ap, sym, Bool, true, false, ◌&&◌, not, some, List, [],
  ◌∷◌, arith, String, ◌∙◌, Bool-cases, inl, inr, All, All-filter, All_of_filter, filter, take-head,
  take-nil, All-map, length, List-cases,
}
use tigerduck_backend.Prelude.Sorting.{order_by, order_by-All, All_of_order_by}
use tigerduck_backend.Push.Job.{PushJob}
use tigerduck_backend.Push.Claim.{
  Settings, due, select_due, claim_due_jobs, outranked, member, ids_of, update_ids, claimed_by,
}
use tigerduck_backend.Push.Claim.Exclusive.{claim_due_jobs-most_urgent}
use tigerduck_backend.Push.Drain.{
  Worker, Tick, handle, add, run_rest, run_batch, claim, after, drain, run_push_tick, start,
  count_processed,
}
use tigerduck_backend.Push.Drain.Missing.{
  missing, missing_le, missing_fresh, missing-add, Below, map-Below, release_claimed-Below,
  recover_stale_jobs-Below,
}

module _ (w : Worker) (n : ℕ)
    (keeps : (job : PushJob) (jobs : List PushJob)
      → Below n jobs
      → Below n (w.process job jobs)) where
  run_rest-missing :
      (rest : List PushJob) (t : Tick)
      → Below n t.jobs
      → Below n (run_rest w rest t).jobs
        × (missing n (run_rest w rest t).processed ≤ missing n t.processed)
  unfolding run_rest
  run_rest-missing [] t h = (h, omega arith)
  run_rest-missing (job ∷ rest) t h =
      elim (Bool-cases (outranked (w.clock t.reads) t.processed job.priority t.jobs)) [
        | inl higher ↦
            rw higher
              (release_claimed-Below n w.worker_id (ids_of (job ∷ rest)) t.jobs h, omega arith)
        | inr none_above ↦
            let t' = handle w job (record t { reads = suc t.reads }) in
            let (b, m) = run_rest-missing rest t' (keeps job t.jobs h) in
            rw none_above (b, omega (arith, m, missing-add n job.id t.processed))
      ]

  -- A batch that starts with a fresh job leaves fewer of the ids below `n` to process.
  run_batch-missing :
      (job : PushJob) (rest : List PushJob) (t : Tick)
      → Below n t.jobs
      → job.id < n
      → member job.id t.processed ≡ false
      → Below n (run_batch w (job ∷ rest) t).jobs
        × (missing n (run_batch w (job ∷ rest) t).processed < missing n t.processed)
  unfolding run_batch
  run_batch-missing job rest t h b f =
      let (k, m) = run_rest-missing rest (handle w job t) (keeps job t.jobs h) in
      let first : missing n (add job.id t.processed) < missing n t.processed =
        rw f (missing_fresh n job.id t.processed b f) in
      (k, omega (arith, m, first))

  claim-Below : (t : Tick) → Below n t.jobs → Below n (claim w t).1.jobs
  unfolding claim_due_jobs
  claim-Below t h = map-Below n _ t.jobs (λ j. ground arith) h

-- What a claim picks are rows.
claim_due_jobs-first_Below :
    (n : ℕ) (s : Settings) (worker : String) (locks : ℕ → Bool) (now : ℕ) (skip : List ℕ)
    (jobs : List PushJob) (first : PushJob) (rest : List PushJob)
    → Below n jobs
    → (claim_due_jobs s worker locks now skip jobs).0 ≡ first ∷ rest
    → first.id < n
unfolding claim_due_jobs select_due
claim_due_jobs-first_Below n s worker locks now skip jobs first rest h e =
    let P = λ (j : PushJob). j.id < n in
    let open_rows = filter (λ (j : PushJob). due now skip j && not (locks j.id)) jobs in
    let by_time = order_by (λ (j : PushJob). j.fire_at) open_rows in
    let (w, all) = take-head s.batch_size (order_by (λ (j : PushJob). j.priority) by_time) e in
    (subst (All P) all (
      order_by-All (λ j. j.priority) P by_time
        (order_by-All (λ j. j.fire_at) P open_rows (All-filter P _ jobs h)))).0

-- With room in a batch, an empty claim means that no row could have been taken.
claim_due_jobs-none :
    (s : Settings) (worker : String) (locks : ℕ → Bool) (now : ℕ) (skip : List ℕ)
    (jobs : List PushJob)
    → 0 < s.batch_size
    → (claim_due_jobs s worker locks now skip jobs).0 ≡ []
    → All (λ j. (due now skip j && not (locks j.id)) ≡ false) jobs
unfolding claim_due_jobs select_due
claim_due_jobs-none s worker locks now skip jobs room e =
    let p = λ (j : PushJob). due now skip j && not (locks j.id) in
    let by_time = order_by (λ (j : PushJob). j.fire_at) (filter p jobs) in
    let nothing : order_by (λ (j : PushJob). j.priority) by_time ≡ [] =
      take-nil s.batch_size _ room e in
    All-map (λ j no. ground (arith, no)) jobs
      (All_of_filter (λ j. p j ≡ false) p jobs
        (All_of_order_by (λ j. j.fire_at) (λ j. p j ≡ false) (filter p jobs)
          (All_of_order_by (λ j. j.priority) (λ j. p j ≡ false) by_time
            (subst (All (λ j. p j ≡ false)) (sym nothing) tt))))

-- The tick is over: the last claim, at the last reading of the clock, found nothing it could take.
pub record IsDrained (w : Worker) (t : Tick) : Type 0 where
  pub last_read : ℕ
  pub counted : t.reads ≡ suc last_read
  pub nothing_due :
      All (λ j. (due (w.clock last_read) t.processed j && not (w.other_locks j.id)) ≡ false) t.jobs

update_ids-none : (f : PushJob → PushJob) (jobs : List PushJob) → update_ids [] f jobs ≡ jobs
update_ids-none f [] = refl
update_ids-none f (j ∷ js) = ap (λ r. j ∷ r) (update_ids-none f js)

claim-IsDrained :
    (w : Worker) (t : Tick)
    → 0 < w.settings.batch_size
    → (claim w t).0 ≡ []
    → IsDrained w (claim w t).1
unfolding claim_due_jobs
claim-IsDrained w t room e = record {
  last_read = t.reads;
  counted = refl;
  nothing_due = rw e (
      subst (All (λ j. (due (w.clock t.reads) t.processed j && not (w.other_locks j.id)) ≡ false))
        (sym (update_ids-none (claimed_by w.worker_id (w.clock t.reads)) t.jobs))
        (claim_due_jobs-none w.settings w.worker_id w.other_locks (w.clock t.reads) t.processed
          t.jobs room e));
}

due-fresh :
    (now : ℕ) (skip : List ℕ) (job : PushJob) → due now skip job ≡ true → member job.id skip ≡ false
unfolding due
due-fresh now skip job h = ground arith

module _ (w : Worker) (n : ℕ)
    (keeps : (job : PushJob) (jobs : List PushJob) → Below n jobs → Below n (w.process job jobs))
    (room : 0 < w.settings.batch_size) where
  pub drain-IsDrained :
      (fuel : ℕ) (t : Tick)
      → Below n t.jobs
      → missing n t.processed < fuel
      → (t' : Tick) × (drain fuel w t ≡ some t') × IsDrained w t'
  unfolding drain after
  drain-IsDrained zero t h enough = absurd (omega arith)
  drain-IsDrained (suc fuel) t h enough = elim (List-cases (claim w t).0) [
    | inl e ↦
        ((claim w t).1, ap (after (drain fuel w) w (claim w t).1) e, claim-IsDrained w t room e)
    | inr (job, rest, e) ↦
        let urgent =
          claim_due_jobs-most_urgent w.settings w.worker_id w.other_locks (w.clock t.reads)
            t.processed t.jobs job rest e in
        let fresh : member job.id t.processed ≡ false =
          due-fresh (w.clock t.reads) t.processed job urgent.0 in
        let low =
          claim_due_jobs-first_Below n w.settings w.worker_id w.other_locks (w.clock t.reads)
            t.processed t.jobs job rest h e in
        let (below, less) =
          run_batch-missing w n keeps job rest (claim w t).1 (claim-Below w n keeps t h) low
            fresh in
        let (t', ended, drained) =
          drain-IsDrained fuel (run_batch w (job ∷ rest) (claim w t).1) below
            (omega (arith, less, enough)) in
        (t', (ap (after (drain fuel w) w (claim w t).1) e ∙ ended), drained)
  ]

-- A tick over rows whose ids stay below `n` returns, given more fuel than `n`: it counts the jobs it
-- processed, and its last claim found no pending job that was due, not yet processed and unlocked.
pub run_push_tick-ends :
    (w : Worker) (n : ℕ) (jobs : List PushJob) (fuel : ℕ)
    → ((job : PushJob) (rows : List PushJob) → Below n rows → Below n (w.process job rows))
    → 0 < w.settings.batch_size
    → Below n jobs
    → n < fuel
    → (t : Tick) × (drain fuel w (start w jobs) ≡ some t)
      × (run_push_tick fuel w jobs ≡ some (length t.processed))
      × IsDrained w t
unfolding run_push_tick
run_push_tick-ends w n jobs fuel keeps room h enough =
    let below =
      recover_stale_jobs-Below n w.settings w.other_locks (w.clock 0) (w.clock 1) jobs h in
    let (t, ended, drained) =
      drain-IsDrained w n keeps room fuel (start w jobs) below
        (omega (arith, missing_le n [], enough)) in
    (t, ended, ap count_processed ended, drained)
