-- ===== src/Push/Deliver/Rounds.antt =====
-- The outcome of a delivery round for its job, and that the rounds of a job come to an end.
use tigerduck_backend.Prelude.{
  ℕ, zero, suc, ◌+◌, ◌<◌, ◌≤◌, ◌≡◌, ◌⊎◌, refl, true, ◌&&◌, none, some, List, [], ◌∷◌, map, String,
  arith, leb, ltb, ◌==◌, if◌then◌else◌, Bool-cases, inl, inr, All-map,
}
use tigerduck_backend.Push.Job.{
  JobStatus, PushJob, Delivery, is_pending, is_sent, is_failed, is_settled,
}
use tigerduck_backend.Push.Deliver.{
  Outside, Tokens, count_status, give_up, finish_round, attempt_due, deliver_round,
}
use tigerduck_backend.Push.Deliver.Rows.{
  AllDue, pending_count, attempt_due-FollowsAll, FollowsAll-AllDue, attempt_due-pos,
}

-- The status that a job's finished deliveries make: no demotion by skipped ones.
abbrev pub expected : List Delivery → JobStatus
expected ds =
    if ltb 0 (count_status is_sent ds)
    then (if count_status is_failed ds == 0 then JobStatus.sent else JobStatus.partial_failed)
    else JobStatus.failed

-- The job is finished, with no delivery left pending.
pub record IsFinished (job : PushJob) (ds : List Delivery) : Type 0 where
  pub no_pending : pending_count ds ≡ 0
  pub verdict : job.status ≡ expected ds

-- The job goes back for another round, `delay` after this one. The attempt is spent unless this was
-- the last one and nothing was tried.
pub record IsWaiting (delay now attempted : ℕ) (job job' : PushJob) (ds : List Delivery)
    : Type 0 where
  pub some_pending : 0 < pending_count ds
  pub status : job'.status ≡ JobStatus.pending
  pub later : job'.available_at ≡ now + delay
  pub spent :
      (job'.attempts ≡ job.attempts + 1) × (job.attempts + 1 < job.max_attempts)
      ⊎ (job'.attempts ≡ job.attempts) × (attempted ≡ 0) × (job.max_attempts ≤ job.attempts + 1)

give_up-none_pending : (ds : List Delivery) → pending_count (map give_up ds) ≡ 0
give_up-none_pending [] = refl
give_up-none_pending (d ∷ ds) = ground (arith, give_up-none_pending ds)

finish_round_outcome :
    (out : Outside) (now : ℕ) (job : PushJob) (attempted : ℕ) (ds : List Delivery)
    → let r = finish_round out now job attempted ds in
      (IsFinished r.0 r.1 ⊎ IsWaiting out.retry_round_delay now attempted job r.0 r.1)
      × (r.0.locked_by ≡ none)
      × (r.0.locked_at ≡ none)
      × (r.0.max_attempts ≡ job.max_attempts)
unfolding finish_round
finish_round_outcome out now job attempted ds = elim (Bool-cases (pending_count ds == 0)) [
  | inl clear ↦ rw clear (
    inl (record { no_pending = ground arith; verdict = ground arith }),
    ground arith,
    ground arith,
    ground arith,
  )
  | inr open_rows ↦
      rw open_rows (elim (Bool-cases (attempted == 0 && leb job.max_attempts (job.attempts + 1))) [
        | inl idle ↦ rw idle (inr (ground arith), ground arith, ground arith, ground arith)
        | inr busy ↦ rw busy (elim (Bool-cases (ltb (job.attempts + 1) job.max_attempts)) [
          | inl again ↦ rw again (inr (ground arith), ground arith, ground arith, ground arith)
          | inr last ↦ rw last (
            inl (record { no_pending = give_up-none_pending ds; verdict = ground arith }),
            ground arith,
            ground arith,
            ground arith,
          )
        ])
      ])
]

give_up-AllDue : (t : ℕ) (ds : List Delivery) → AllDue t ds → AllDue t (map give_up ds)
give_up-AllDue t [] a = tt
give_up-AllDue t (d ∷ ds) a = (ground (arith, a.0), give_up-AllDue t ds a.1)

finish_round-AllDue :
    (out : Outside) (now : ℕ) (job : PushJob) (attempted t : ℕ) (ds : List Delivery)
    → AllDue t ds
    → AllDue t (finish_round out now job attempted ds).1
unfolding finish_round
finish_round-AllDue out now job attempted t ds a = ground (arith, a, give_up-AllDue t ds a)

AllDue-later : (t u : ℕ) (ds : List Delivery) → t ≤ u → AllDue t ds → AllDue u ds
AllDue-later t u ds le =
    All-map {P = λ d. is_pending d.status ≡ true → d.next_retry_at ≤ t}
      (λ d h p. omega (arith, h p)) ds

fewer_pending :
    (out : Outside) (now : ℕ) (job : PushJob) (attempted : ℕ) (ds : List Delivery)
    → pending_count (finish_round out now job attempted ds).1 ≤ pending_count ds
unfolding finish_round
fewer_pending out now job attempted ds = ground (arith, give_up-none_pending ds)

-- A round over due rows: the job is finished, or waits with one more attempt spent and its rows due
-- when it is.
record Round (delay now : ℕ) (job job' : PushJob) (ds' : List Delivery) : Type 0 where
  outcome :
      IsFinished job' ds'
      ⊎ (job'.status ≡ JobStatus.pending)
        × (job'.available_at ≡ now + delay)
        × (job'.attempts ≡ job.attempts + 1)
        × (job.attempts + 1 < job.max_attempts)
  due : AllDue (now + delay) ds'
  same_max : job'.max_attempts ≡ job.max_attempts

spent_one :
    {delay now : ℕ} {job job' : PushJob} {ds : List Delivery} (attempted : ℕ)
    → 0 < attempted
    → IsWaiting delay now attempted job job' ds
    → IsFinished job' ds
      ⊎ (job'.status ≡ JobStatus.pending)
        × (job'.available_at ≡ now + delay)
        × (job'.attempts ≡ job.attempts + 1)
        × (job.attempts + 1 < job.max_attempts)
spent_one attempted some_tried waits = elim waits.spent [
  | inl (used, left) ↦ inr (waits.status, waits.later, used, left)
  | inr (_, idle, _) ↦ absurd (omega arith)
]

deliver_round-Round :
    (out : Outside) (now : ℕ) (job : PushJob) (ds : List Delivery) (tokens : Tokens)
    → AllDue now ds
    → let r = deliver_round out now job ds tokens in Round out.retry_round_delay now job r.0 r.1
unfolding deliver_round
deliver_round-Round out now job [] tokens a = record {
  outcome = inl (record { no_pending = refl; verdict = refl });
  due = tt;
  same_max = refl;
}
deliver_round-Round out now job (d ∷ ds) tokens a =
    let pass = attempt_due out now job (d ∷ ds) tokens in
    let (outcome, _, _, same) = finish_round_outcome out now job pass.0 pass.1 in
    record {
      outcome = elim outcome [
        | inl finished ↦ inl finished
        | inr waits ↦
            let tried : 0 < pass.0 =
              attempt_due-pos out now job (d ∷ ds) tokens a
                (omega (arith, waits.some_pending, fewer_pending out now job pass.0 pass.1)) in
            spent_one pass.0 tried waits
      ];
      due = finish_round-AllDue out now job pass.0 (now + out.retry_round_delay) pass.1 (
          FollowsAll-AllDue out.retry_round_delay now (d ∷ ds) pass.1
            (attempt_due-FollowsAll out now job (d ∷ ds) tokens) a);
      same_max = same;
    }

-- A job on its way through its rounds: claimed again once it is available, `when` saying how late.
abbrev pub claimed : ℕ → String → PushJob → PushJob
claimed now worker job = record job {
  status = JobStatus.processing;
  locked_by = some worker;
  locked_at = some now;
}

unfoldable pub run_rounds :
    Outside
    → String
    → (ℕ → ℕ)
    → ℕ
    → ℕ
    → PushJob
    → List Delivery
    → Tokens
    → PushJob × List Delivery × Tokens
run_rounds out worker when zero now job ds tokens = (job, ds, tokens)
run_rounds out worker when (suc fuel) now job ds tokens =
    let r = deliver_round out now (claimed now worker job) ds tokens in
    let rest = run_rounds out worker when fuel (when r.0.available_at) r.0 r.1 r.2 in
    if is_settled r.0.status then r else rest

pub finished_settled :
    (job : PushJob) (ds : List Delivery) → IsFinished job ds → is_settled job.status ≡ true
finished_settled job ds h = rw h.verdict (ground arith)

module _ (out : Outside) (worker : String) (when : ℕ → ℕ) (late : (t : ℕ) → t ≤ when t) where
  -- However the provider answers, `max_attempts` rounds finish the job and all its deliveries.
  pub run_rounds-IsFinished :
      (fuel now : ℕ) (job : PushJob) (ds : List Delivery) (tokens : Tokens)
      → job.attempts < job.max_attempts
      → job.max_attempts ≤ job.attempts + fuel
      → AllDue now ds
      → let r = run_rounds out worker when fuel now job ds tokens in IsFinished r.0 r.1
  unfolding run_rounds
  run_rounds-IsFinished zero now job ds tokens left enough a = absurd (omega arith)
  run_rounds-IsFinished (suc fuel) now job ds tokens left enough a =
      let r = deliver_round out now (claimed now worker job) ds tokens in
      let round = deliver_round-Round out now (claimed now worker job) ds tokens a in
      elim round.outcome [
        | inl finished ↦ rw (finished_settled r.0 r.1 finished) finished
        | inr (pending, later, used, more) ↦ rw pending (
            run_rounds-IsFinished fuel (when r.0.available_at) r.0 r.1 r.2
              (omega (arith, round.same_max)) (omega (arith, round.same_max))
              (AllDue-later _ _ r.1 (omega (arith, late r.0.available_at)) round.due))
      ]

-- A round releases the job: it is finished with the status that its deliveries make, or it waits.
pub deliver_round_outcome :
    (out : Outside) (now : ℕ) (job : PushJob) (ds : List Delivery) (tokens : Tokens)
    → let r = deliver_round out now job ds tokens in
      (IsFinished r.0 r.1
        ⊎ IsWaiting out.retry_round_delay now (attempt_due out now job ds tokens).0 job r.0 r.1)
      × (r.0.locked_by ≡ none)
      × (r.0.locked_at ≡ none)
unfolding deliver_round
deliver_round_outcome out now job [] tokens =
    (inl (record { no_pending = refl; verdict = refl }), refl, refl)
deliver_round_outcome out now job (d ∷ ds) tokens =
    let pass = attempt_due out now job (d ∷ ds) tokens in
    let (outcome, by, at, _) = finish_round_outcome out now job pass.0 pass.1 in (outcome, by, at)
