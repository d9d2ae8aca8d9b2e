-- ===== src/Push/Process/Released.antt =====
-- A job that was worked on is not left claimed.
use tigerduck_backend.Prelude.{
  leb, ℕ, ◌+◌, ◌≡◌, ◌⊎◌, refl, sym, subst, Bool, true, false, ◌&&◌, not, Option, none, some, List,
  [], ◌∷◌, String, ◌==◌, if◌then◌else◌, All, Bool-cases, inl, inr, any, filter,
}
use tigerduck_backend.Push.Job.{JobStatus, PushJob, is_processing, is_settled}
use tigerduck_backend.Push.Deliver.{deliver_round}
use tigerduck_backend.Push.Deliver.Rounds.{finished_settled, deliver_round_outcome}
use tigerduck_backend.Push.Claim.{Settings, crash_job, spend_attempt, locked_by}
use tigerduck_backend.Push.Presend.{PresendCheck, needs_check}
use tigerduck_backend.Push.Hold.{Held, settle, held_back}
use tigerduck_backend.Push.Hold.Verdicts.{held_back_outcome}
use tigerduck_backend.Push.Db.{PushDb, has_deliveries, deliveries_of}
use tigerduck_backend.Push.Countdown.{Starts}
use tigerduck_backend.Push.Guards.{
  Facts, Ending, to_delivery, cancels, fails_with, skips_pending, waits_until, Step, onward, ends,
  guards, end_job,
}
use tigerduck_backend.Push.Materialize.{
  Row, RoundSettings, Materialized, end_round, fill, reach, materialize, materialize_step,
  token_rows, starts_for, chosen, is_left_out, waits_for_countdown,
}
use tigerduck_backend.Push.Process.{
  ProcessSettings, Visit, get_job, write_rows, write_job, token_of, deliver, after_materialize,
  send_job, after_hold, missed_check, record_for, with_check, is_ours, process_found, process_row,
  process_job,
}

-- The job is unlocked, and ended or waiting for another round.
pub record IsFree (j : PushJob) : Type 0 where
  pub unlocked_by : j.locked_by ≡ none
  pub unlocked_at : j.locked_at ≡ none
  pub moved_on : (is_settled j.status ≡ true) ⊎ (j.status ≡ JobStatus.pending)

ended :
    {j : PushJob} → j.locked_by ≡ none → j.locked_at ≡ none → is_settled j.status ≡ true → IsFree j
ended by at h = record { unlocked_by = by; unlocked_at = at; moved_on = inl h }

put_off :
    {j : PushJob}
    → j.locked_by ≡ none
    → j.locked_at ≡ none
    → j.status ≡ JobStatus.pending
    → IsFree j
put_off by at h = record { unlocked_by = by; unlocked_at = at; moved_on = inr h }

-- So it is for every row with the id.
abbrev pub FreeAt : ℕ → PushDb → Type 0
FreeAt i db = All (λ j. ((j.id == i) ≡ false) ⊎ IsFree j) db.jobs

write_rows-IsFree :
    (i : ℕ) (job : PushJob) (jobs : List PushJob)
    → IsFree job
    → All (λ j. ((j.id == i) ≡ false) ⊎ IsFree j) (write_rows i job jobs)
write_rows-IsFree i job [] h = tt
write_rows-IsFree i job (j ∷ js) h = elim (Bool-cases (j.id == i)) [
  | inl same ↦ rw same (inr h, write_rows-IsFree i job js h)
  | inr other ↦ rw other (inl other, write_rows-IsFree i job js h)
]

settle_cancelled-IsFree :
    (error : String) (now : ℕ) (job : PushJob) → IsFree (settle JobStatus.cancelled error now job)
unfolding settle
settle_cancelled-IsFree error now job = ended refl refl refl

settle_failed-IsFree :
    (error : String) (now : ℕ) (job : PushJob) → IsFree (settle JobStatus.failed error now job)
unfolding settle
settle_failed-IsFree error now job = ended refl refl refl

-- Materialization that does not lead to a delivery has released the job.
abbrev FreeUnless : Materialized → Type 0
FreeUnless m = (m.deliver ≡ true) ⊎ IsFree m.job

end_round-free :
    (now : ℕ) (job : PushJob) (db : PushDb) (e : Ending) → FreeUnless (end_round now job db e)
unfolding end_round end_job
end_round-free now job db to_delivery = inl refl
end_round-free now job db (cancels error) = inr (settle_cancelled-IsFree error now job)
end_round-free now job db (fails_with error) = inr (settle_failed-IsFree error now job)
end_round-free now job db (skips_pending error) = inr (settle_cancelled-IsFree error now job)
end_round-free now job db (waits_until at) = inr (put_off refl refl refl)

fill-free :
    (s : RoundSettings) (now : ℕ) (job : PushJob) (db : PushDb) (rows : List Row) (starts : Starts)
    → FreeUnless (fill s now job db rows starts)
unfolding fill
fill-free s now job db rows starts =
    let first_round = not (has_deliveries job.id db.deliveries) in
    let values = filter (chosen job starts) rows in
    elim (Bool-cases (first_round && waits_for_countdown s now job starts)) [
      | inl waits ↦ rw waits (inr (put_off refl refl refl))
      | inr goes ↦ elim (Bool-cases (any (λ r. true) values)) [
        | inl some_row ↦ rw goes (rw some_row (inl refl))
        | inr none_row ↦ elim (Bool-cases (first_round && any (is_left_out job starts) rows)) [
          | inl out ↦
              rw goes (
                rw none_row (rw out (inr (settle_cancelled-IsFree "countdown_start_sent" now job))))
          | inr in_all ↦ rw goes (rw none_row (rw in_all (inl refl)))
        ]
      ]
    ]

materialize_step-free :
    (f : Facts) (s : RoundSettings) (now : ℕ) (db : PushDb) (job : PushJob) (step : Step)
    → FreeUnless (materialize_step f s now db job step)
unfolding reach
materialize_step-free f s now db job (ends e) = end_round-free now job db e
materialize_step-free f s now db job (onward next) =
    let rows = token_rows now next db.tokens db.devices in
    fill-free s now next db rows (starts_for f s now next db rows)

deliver-free : (v : Visit) (i : ℕ) (db : PushDb) (job : PushJob) → FreeAt i (deliver v i db job)
unfolding deliver
deliver-free v i db job =
    let (job', rows, tokens) =
      deliver_round v.out v.deliver_time job (deliveries_of i db.deliveries) (token_of db.tokens) in
    let done =
      deliver_round_outcome v.out v.deliver_time job (deliveries_of i db.deliveries)
        (token_of db.tokens) in
    write_rows-IsFree i job' db.jobs (elim done.0 [
      | inl finished ↦ ended done.1 done.2 (finished_settled job' rows finished)
      | inr later ↦ put_off done.1 done.2 later.status
    ])

after_materialize-free :
    (v : Visit) (i : ℕ) (m : Materialized) → FreeUnless m → FreeAt i (after_materialize v i m)
after_materialize-free v i m h = elim (Bool-cases m.deliver) [
  | inl goes ↦ rw goes (deliver-free v i m.db m.job)
  | inr stays ↦ rw stays (write_rows-IsFree i m.job m.db.jobs (freed h stays))
]
  where
    freed : FreeUnless m → m.deliver ≡ false → IsFree m.job
    freed (inl e) stays = absurd (cc)
    freed (inr f) stays = f

send_job-free :
    (s : ProcessSettings) (v : Visit) (db : PushDb) (job : PushJob)
    → FreeAt job.id (send_job s v db job)
unfolding send_job materialize
send_job-free s v db job =
    after_materialize-free v job.id (materialize v.facts s.round v.round_time db job) (
      materialize_step-free v.facts s.round v.round_time db job
        (guards v.facts v.round_time db job))

after_hold-free :
    (s : ProcessSettings) (v : Visit) (db : PushDb) (job : PushJob) (h : Held)
    → (h.held ≡ false) ⊎ IsFree h.job
    → FreeAt job.id (after_hold s v db job h)
after_hold-free s v db job h f = elim (Bool-cases h.held) [
  | inl held ↦
      rw held
        (write_rows-IsFree job.id h.job (record_for v h.record_submission db).jobs (freed f held))
  | inr sent ↦ rw sent (send_job-free s v db job)
]
  where
    freed : (h.held ≡ false) ⊎ IsFree h.job → h.held ≡ true → IsFree h.job
    freed (inl e) held = absurd (cc)
    freed (inr f) held = f

with_check-free :
    (s : ProcessSettings) (v : Visit) (db : PushDb) (job : PushJob) (check : Option PresendCheck)
    → FreeAt job.id (with_check s v db job check)
unfolding with_check
with_check-free s v db job (some check) =
    after_hold-free s v db job (held_back s.hold v.hold_time v.table v.ignored job check)
      (elim (held_back_outcome s.hold v.hold_time v.table v.ignored job check) [
        | inl sent ↦ inl sent.0
        | inr held ↦ inr (elim held.1.fate [
          | inl cancelled ↦ ended held.1.released.0 held.1.released.1 (rw cancelled refl)
          | inr pending ↦ put_off held.1.released.0 held.1.released.1 pending.0
        ])
      ])
with_check-free s v db job none =
    elim (Bool-cases
      (needs_check v.facts.keys.schedule_prefix job && not (has_deliveries job.id db.deliveries))) [
        | inl missed ↦
            rw missed (write_rows-IsFree job.id (missed_check job) db.jobs (put_off refl refl refl))
        | inr goes ↦ rw goes (send_job-free s v db job)
      ]

spend_attempt-IsFree :
    (again : ℕ) (error : String) (job : PushJob) → IsFree (spend_attempt again error job)
unfolding spend_attempt
spend_attempt-IsFree again error job = elim (Bool-cases (leb job.max_attempts (job.attempts + 1))) [
  | inl out ↦ rw out (ended refl refl refl)
  | inr more ↦ rw more (put_off refl refl refl)
]

crash_job-IsFree :
    (s : Settings) (now : ℕ) (job : PushJob)
    → is_processing job.status ≡ true
    → IsFree (crash_job s now job)
unfolding crash_job
crash_job-IsFree s now job h =
    rw h (spend_attempt-IsFree (now + s.retry_round_delay) "pipeline_crash" job)

process_found-free :
    (worker : String) (s : ProcessSettings) (v : Visit) (db : PushDb) (job : PushJob)
    → is_ours worker job ≡ true
    → FreeAt job.id (process_found worker s v db job)
unfolding process_found
process_found-free worker s v db job ours = elim (Bool-cases v.raises) [
  | inl fails ↦ rw fails (
      write_rows-IsFree job.id (crash_job s.claim v.crash_time job) db.jobs (
        crash_job-IsFree s.claim v.crash_time job
          (and_left (is_processing job.status) (locked_by worker job) ours)))
  | inr works ↦
      subst
        (λ b. FreeAt job.id (
          if b
          then write_job job.id (crash_job s.claim v.crash_time job) db
          else if not (is_ours worker job)
          then db
          else with_check s v db job v.check))
        (sym works) (rw ours (with_check-free s v db job v.check))
]
  where
    and_left : (a b : Bool) → (a && b) ≡ true → a ≡ true
    and_left true b h = refl
    and_left false b h = h

-- Whatever the visit meets, an exception included, the worker's own job is not left in processing: its
-- row is unlocked, and it is settled (sent, sent in part, failed or cancelled) or back to pending.
pub process_job-FreeAt :
    (worker : String) (s : ProcessSettings) (v : Visit) (db : PushDb) (i : ℕ) (job : PushJob)
    → get_job i db.jobs ≡ some job
    → is_ours worker job ≡ true
    → FreeAt job.id (process_job worker s v i db)
unfolding process_job
process_job-FreeAt worker s v db i job found ours =
    subst (λ row. FreeAt job.id (process_row worker s v db row)) (sym found)
      (process_found-free worker s v db job ours)

-- A job that another worker holds, or that is no longer claimed, is left as it is, with every row,
-- unless the visit raises.
pub process_job-not_ours :
    (worker : String) (s : ProcessSettings) (v : Visit) (db : PushDb) (i : ℕ) (job : PushJob)
    → get_job i db.jobs ≡ some job
    → is_ours worker job ≡ false
    → v.raises ≡ false
    → process_job worker s v i db ≡ db
unfolding process_job process_found
process_job-not_ours worker s v db i job found other works =
    subst (λ row. process_row worker s v db row ≡ db) (sym found) (rw works (rw other refl))
