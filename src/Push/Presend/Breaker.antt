-- ===== src/Push/Presend/Breaker.antt =====
-- An outage of Moodle costs a push tick one call.
use tigerduck_backend.Prelude.{
  subst, sym, ℕ, zero, suc, ◌+◌, ◌≤◌, ◌≡◌, refl, arith, Bool, true, false, ◌&&◌, not, Option, none,
  some, List, [], ◌∷◌, is_some, String, if◌then◌else◌, All, Bool-cases, inl, inr,
}
use tigerduck_backend.Push.Job.{PushJob, is_processing}
use tigerduck_backend.Push.Claim.{locked_by}
use tigerduck_backend.Push.Presend.{
  PresendCheck, AssignmentRow, Ignored, MoodleBreaker, Reply, timed_out, unavailable, rate_limited,
  Access, Checked, unasked, after_call, ask_moodle, check_moodle, check_assignment,
  check_before_send, ask_with, check_settled, needs_check, assignment_id, rows_verdict,
}

-- A failure that every other call would meet as well.
abbrev pub is_outage : Reply → Bool
is_outage timed_out = true
is_outage unavailable = true
is_outage rate_limited = true
is_outage _ = false

-- What a check reads: the job, whether it has deliveries, the tables, the clock and Moodle.
pub record Asked : Type 0 where
  pub job : Option PushJob
  pub has_deliveries : Bool
  pub table : List AssignmentRow
  pub ignored : Ignored
  pub now : ℕ
  pub access : Access

abbrev pub check_one : (ℕ → String) → String → Asked → MoodleBreaker → Checked
check_one device_prefix worker a b =
    check_before_send device_prefix worker a.access a.job a.has_deliveries a.table a.ignored a.now b

-- What a batch's checks come to: the calls of those that went one after the other, the breaker after
-- them, and the checks that are left to run side by side.
pub record Checks : Type 0 where
  pub calls : ℕ
  pub breaker : MoodleBreaker
  pub side_by_side : List Asked

abbrev pub add_call : ℕ → Checks → Checks
add_call n c = record c { calls = n + c.calls }

-- `_start_checks`: in claim order until Moodle has answered, the rest from there a few at a time. The
-- answer is looked for again under the lock, before each check.
unfoldable pub run_checks : (ℕ → String) → String → List Asked → MoodleBreaker → Checks
run_checks device_prefix worker [] b = record { calls = 0; breaker = b; side_by_side = [] }
run_checks device_prefix worker (a ∷ rest) b =
    let c = check_one device_prefix worker a b in
    let after = run_checks device_prefix worker rest c.breaker in
    if b.answered
    then record { calls = 0; breaker = b; side_by_side = a ∷ rest }
    else add_call c.calls after

-- With the breaker open nothing is asked, and with it shut an outage opens it.
record Spends (b : MoodleBreaker) (c : Checked) : Type 0 where
  one : c.calls ≤ 1
  shut : is_some b.opened_by ≡ true → (c.calls ≡ 0) × (is_some c.breaker.opened_by ≡ true)
  opens : c.calls ≡ 1 → is_some c.breaker.opened_by ≡ true
  unanswered : b.answered ≡ false → c.breaker.answered ≡ false

unasked-Spends : (check : Option PresendCheck) (b : MoodleBreaker) → Spends b (unasked check b)
unasked-Spends check b = record {
  one = omega arith;
  shut = λ h. (refl, h);
  opens = λ h. absurd (omega (arith, h));
  unanswered = λ h. h;
}

outage-Spends :
    (i : ℕ) (due : Option ℕ) (extended : Bool) (r : Reply) (b : MoodleBreaker)
    → is_outage r ≡ true
    → is_some b.opened_by ≡ false
    → Spends b (after_call (ask_moodle i due extended r b))
unfolding ask_moodle
outage-Spends i due extended timed_out b h shut = ground arith
outage-Spends i due extended unavailable b h shut = ground arith
outage-Spends i due extended rate_limited b h shut = ground arith
outage-Spends i due extended _ b h shut = absurd (cc)

ask_with-Spends :
    (r : Reply) (i : ℕ) (due : Option ℕ) (extended : Bool) (b : MoodleBreaker)
    (invalid : Option String)
    → is_outage r ≡ true
    → is_some b.opened_by ≡ false
    → Spends b (ask_with r i due extended b invalid)
unfolding ask_with
ask_with-Spends r i due extended b (some reason) out shut = unasked-Spends _ b
ask_with-Spends r i due extended b none out shut = outage-Spends i due extended r b out shut

check_moodle-Spends :
    (access : Access) (i : ℕ) (due : Option ℕ) (extended : Bool) (b : MoodleBreaker)
    → is_outage access.reply ≡ true
    → Spends b (check_moodle access i due extended b)
unfolding check_moodle
check_moodle-Spends access i due extended b out = elim (Bool-cases (is_some b.opened_by)) [
  | inl opened ↦ rw opened (unasked-Spends _ b)
  | inr shut ↦ elim (Bool-cases access.configured) [
    | inr bare ↦ rw shut (rw bare (unasked-Spends _ b))
    | inl set ↦
        rw shut (
          rw set (ask_with-Spends access.reply i due extended b access.credential_invalid out shut))
  ]
]

check_settled-Spends :
    (access : Access) (i : ℕ) (due : Option ℕ) (extended : Bool) (b : MoodleBreaker)
    (settled : Option PresendCheck)
    → is_outage access.reply ≡ true
    → Spends b (check_settled access i due extended b settled)
unfolding check_settled
check_settled-Spends access i due extended b (some check) out = unasked-Spends _ b
check_settled-Spends access i due extended b none out =
    check_moodle-Spends access i due extended b out

check_assignment-Spends :
    (access : Access) (job : PushJob) (table : List AssignmentRow) (ignored : Ignored) (now : ℕ)
    (b : MoodleBreaker) (found : Option ℕ)
    → is_outage access.reply ≡ true
    → Spends b (check_assignment access job table ignored now b found)
unfolding check_assignment
check_assignment-Spends access job table ignored now b none out = unasked-Spends _ b
check_assignment-Spends access job table ignored now b (some i) out =
    let (settled, (due, extended)) = rows_verdict job i table ignored now in
    check_settled-Spends access i due extended b settled out

check_before_send-Spends :
    (device_prefix : ℕ → String) (worker : String) (a : Asked) (b : MoodleBreaker)
    (job : Option PushJob)
    → is_outage a.access.reply ≡ true
    → Spends b (
        check_before_send device_prefix worker a.access job a.has_deliveries a.table a.ignored a.now
          b)
unfolding check_before_send
check_before_send-Spends device_prefix worker a b none out = unasked-Spends _ b
check_before_send-Spends device_prefix worker a b (some job) out =
    elim (Bool-cases (
      is_processing job.status
      && (locked_by worker job && (needs_check device_prefix job && not a.has_deliveries)))) [
        | inl t ↦
            rw t (
              check_assignment-Spends a.access job a.table a.ignored a.now b (assignment_id job)
                out)
        | inr f ↦ rw f (unasked-Spends _ b)
      ]

one_of_two : (c r : ℕ) → c ≤ 1 → r ≤ 1 → (c ≡ 1 → r ≡ 0) → c + r ≤ 1
one_of_two zero r hc hr h = omega (arith, hr)
one_of_two (suc zero) r hc hr h = omega (arith, h refl)
one_of_two (suc (suc c)) r hc hr h = absurd (omega (arith, hc))

abbrev CostsOne : MoodleBreaker → Checks → Type 0
CostsOne b c = (c.calls ≤ 1) × (is_some b.opened_by ≡ true → c.calls ≡ 0) × (c.side_by_side ≡ [])

run_checks-calls :
    (device_prefix : ℕ → String) (worker : String) (checks : List Asked) (b : MoodleBreaker)
    → All (λ a. is_outage a.access.reply ≡ true) checks
    → b.answered ≡ false
    → CostsOne b (run_checks device_prefix worker checks b)
unfolding run_checks
run_checks-calls device_prefix worker [] b h u = (omega arith, (λ _. refl), refl)
run_checks-calls device_prefix worker (a ∷ rest) b h u =
    let s = check_before_send-Spends device_prefix worker a b a.job h.0 in
    let c = check_one device_prefix worker a b in
    let (most, shut, none_left) =
      run_checks-calls device_prefix worker rest c.breaker h.1 (s.unanswered u) in
    subst
      (λ t. CostsOne b (
        if t
        then record { calls = 0; breaker = b; side_by_side = a ∷ rest }
        else add_call c.calls (run_checks device_prefix worker rest c.breaker)))
      (sym u)
      (
        one_of_two c.calls _ s.one most (λ e. shut (s.opens e)),
        (λ opened. omega (arith, (s.shut opened).0, shut (s.shut opened).1)),
        none_left,
      )

-- While Moodle is down and has not answered in this tick, the checks of a batch go one after the other
-- to the last and make one call of it at most, however many jobs they check and whatever the rows say,
-- and none where the breaker is open from before.
pub run_checks-one_call :
    (device_prefix : ℕ → String) (worker : String) (checks : List Asked) (b : MoodleBreaker)
    → All (λ a. is_outage a.access.reply ≡ true) checks
    → b.answered ≡ false
    → let after = run_checks device_prefix worker checks b in
      (after.calls ≤ (if is_some b.opened_by then 0 else 1)) × (after.side_by_side ≡ [])
run_checks-one_call device_prefix worker checks b h u =
    let (most, shut, none_left) = run_checks-calls device_prefix worker checks b h u in
    (
      elim (Bool-cases (is_some b.opened_by)) [
        | inl opened ↦ rw opened (omega (arith, shut opened))
        | inr closed ↦ rw closed most
      ],
      none_left,
    )
