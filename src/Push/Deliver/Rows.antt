-- ===== src/Push/Deliver/Rows.antt =====
-- What one pass over a job's deliveries does to each of them.
use tigerduck_backend.Prelude.{
  ℕ, ◌+◌, ◌<◌, ◌≤◌, ◌≡◌, ◌⊎◌, refl, subst, true, false, Option, none, some, List, [], ◌∷◌, arith,
  leb, Bool-cases, inl, inr, All, count_if,
}
use tigerduck_backend.Push.Job.{PushJob, Delivery, Token, is_pending}
use tigerduck_backend.Push.Deliver.{
  Outside, Tokens, send_with, send_one, lookup_token, is_due, attempt_one, attempt_due,
}

-- `e` is what became of `d`: a row that was not pending is as it was; one that is pending still
-- either waits for its time or has used one more attempt, has some left, and waits a round.
pub record Follows (delay now : ℕ) (d e : Delivery) : Type 0 where
  pub kept : is_pending d.status ≡ false → e ≡ d
  pub most : e.attempts ≤ d.attempts + 1
  pub same_max : e.max_attempts ≡ d.max_attempts
  pub waits :
      is_pending e.status ≡ true
      → (leb d.next_retry_at now ≡ false) × (e ≡ d)
        ⊎ (e.next_retry_at ≡ now + delay)
          × (e.attempts ≡ d.attempts + 1)
          × (e.attempts < e.max_attempts)

module _ (out : Outside) (now : ℕ) (job : PushJob) where
  abbrev Row : Delivery → Delivery → Type 0
  Row = Follows out.retry_round_delay now

  send_with-Row :
      (d : Delivery) (tokens : Tokens) (t : Option (ℕ × Token))
      → is_pending d.status ≡ true
      → Row d (send_with out now job d tokens t).0
  unfolding send_with
  send_with-Row d tokens none h = ground arith
  send_with-Row d tokens (some (i, t)) h = ground arith

  send_one-Row :
      (d : Delivery) (tokens : Tokens)
      → is_pending d.status ≡ true
      → Row d (send_one out now job d tokens).0
  unfolding send_one
  send_one-Row d tokens h = send_with-Row d tokens (lookup_token d.push_token_id tokens) h

  attempt_one-Row : (d : Delivery) (tokens : Tokens) → Row d (attempt_one out now job d tokens).0
  attempt_one-Row d tokens = elim (Bool-cases (is_due now d)) [
    | inl due ↦ rw due (send_one-Row d tokens (ground arith))
    | inr not_due ↦ rw not_due record {
      kept = λ _. refl;
      most = omega arith;
      same_max = refl;
      waits = λ p. inl (ground arith, refl);
    }
  ]

-- The same rows, in the same order, each following its own.
abbrev pub FollowsAll : ℕ → ℕ → List Delivery → List Delivery → Type 0
FollowsAll delay now [] [] = Unit
FollowsAll delay now [] (e ∷ es) = ⊥
FollowsAll delay now (d ∷ ds) [] = ⊥
FollowsAll delay now (d ∷ ds) (e ∷ es) = Follows delay now d e × FollowsAll delay now ds es

-- Every pending row's retry time has come by `t`.
abbrev pub AllDue : ℕ → List Delivery → Type 0
AllDue t ds = All (λ d. is_pending d.status ≡ true → d.next_retry_at ≤ t) ds

abbrev pub pending_count : List Delivery → ℕ
pending_count ds = count_if (λ d. is_pending d.status) ds

pub attempt_due-FollowsAll :
    (out : Outside) (now : ℕ) (job : PushJob) (ds : List Delivery) (tokens : Tokens)
    → FollowsAll out.retry_round_delay now ds (attempt_due out now job ds tokens).1
unfolding attempt_due
attempt_due-FollowsAll out now job [] tokens = tt
attempt_due-FollowsAll out now job (d ∷ ds) tokens = (
  attempt_one-Row out now job d tokens,
  attempt_due-FollowsAll out now job ds (attempt_one out now job d tokens).1,
)

-- what follows due rows is due one delay later
pub FollowsAll-AllDue :
    (delay now : ℕ) (ds es : List Delivery)
    → FollowsAll delay now ds es
    → AllDue now ds
    → AllDue (now + delay) es
FollowsAll-AllDue delay now [] [] f a = tt
FollowsAll-AllDue delay now [] (e ∷ es) f a = absurd f
FollowsAll-AllDue delay now (d ∷ ds) [] f a = absurd f
FollowsAll-AllDue delay now (d ∷ ds) (e ∷ es) f a = (
  λ p. elim (f.0.waits p) [
    | inl (late, same) ↦ absurd (ground (arith, a.0 (rw (← same) p)))
    | inr (when, used, left) ↦ omega arith
  ],
  FollowsAll-AllDue delay now ds es f.1 a.1,
)

attempt_due-idle :
    (out : Outside) (now : ℕ) (job : PushJob) (d : Delivery) (ds : List Delivery) (tokens : Tokens)
    → is_due now d ≡ false
    → attempt_due out now job (d ∷ ds) tokens ≡ (
      (attempt_due out now job ds tokens).0,
      d ∷ (attempt_due out now job ds tokens).1,
      (attempt_due out now job ds tokens).2,
    )
unfolding attempt_due
attempt_due-idle out now job d ds tokens h = rw h refl

-- a pass over due rows that leaves one pending has attempted one
pub attempt_due-pos :
    (out : Outside) (now : ℕ) (job : PushJob) (ds : List Delivery) (tokens : Tokens)
    → AllDue now ds
    → 0 < pending_count (attempt_due out now job ds tokens).1
    → 0 < (attempt_due out now job ds tokens).0
unfolding attempt_due
attempt_due-pos out now job [] tokens a h = absurd (omega arith)
attempt_due-pos out now job (d ∷ ds) tokens a h = elim (Bool-cases (is_due now d)) [
  | inl due ↦ rw due (omega arith)
  | inr not_due ↦
      let idle : is_pending d.status ≡ false = ground (arith, a.0) in
      let step = attempt_due-idle out now job d ds tokens not_due in
      let more : 0 < pending_count (d ∷ (attempt_due out now job ds tokens).1) =
        subst (λ (x : ℕ × List Delivery × Tokens). 0 < pending_count x.1) step h in
      rw not_due (attempt_due-pos out now job ds tokens a.1 (rw idle at more))
]
