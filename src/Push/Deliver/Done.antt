-- ===== src/Push/Deliver/Done.antt =====
-- What a delivery round does to the rows that are done.
use tigerduck_backend.Prelude.{ℕ, ◌+◌, ◌≤◌, ◌≡◌, refl, false, List, [], ◌∷◌, map, arith}
use tigerduck_backend.Push.Job.{PushJob, Delivery, is_pending}
use tigerduck_backend.Push.Deliver.{
  Outside, Tokens, give_up, finish_round, attempt_due, deliver_round,
}
use tigerduck_backend.Push.Deliver.Rows.{FollowsAll, attempt_due-FollowsAll}

-- Row by row: a delivery that was not pending is as it was, and no row is added or lost.
abbrev pub KeepsDone : List Delivery → List Delivery → Type 0
KeepsDone [] [] = Unit
KeepsDone [] (e ∷ es) = ⊥
KeepsDone (d ∷ ds) [] = ⊥
KeepsDone (d ∷ ds) (e ∷ es) =
    (is_pending d.status ≡ false → e ≡ d) × (e.attempts ≤ d.attempts + 1) × KeepsDone ds es

keeps_done : (delay now : ℕ) (ds es : List Delivery) → FollowsAll delay now ds es → KeepsDone ds es
keeps_done delay now [] [] f = tt
keeps_done delay now [] (e ∷ es) f = absurd f
keeps_done delay now (d ∷ ds) [] f = absurd f
keeps_done delay now (d ∷ ds) (e ∷ es) f = (f.0.kept, f.0.most, keeps_done delay now ds es f.1)

give_up-keeps : (ds es : List Delivery) → KeepsDone ds es → KeepsDone ds (map give_up es)
give_up-keeps [] [] f = tt
give_up-keeps [] (e ∷ es) f = absurd f
give_up-keeps (d ∷ ds) [] f = absurd f
give_up-keeps (d ∷ ds) (e ∷ es) f = (
  λ done. let same : e ≡ d = f.0 done in rw same (rw done refl),
  ground (arith, f.1),
  give_up-keeps ds es f.2,
)

finish_round-keeps :
    (out : Outside) (now : ℕ) (job : PushJob) (attempted : ℕ) (ds es : List Delivery)
    → KeepsDone ds es
    → KeepsDone ds (finish_round out now job attempted es).1
unfolding finish_round
finish_round-keeps out now job attempted ds es f = ground (arith, f, give_up-keeps ds es f)

-- A delivery that was sent, failed or skipped is never touched again, and a pending one is tried at
-- most once in a round.
pub deliver_round-KeepsDone :
    (out : Outside) (now : ℕ) (job : PushJob) (ds : List Delivery) (tokens : Tokens)
    → KeepsDone ds (deliver_round out now job ds tokens).1
unfolding deliver_round
deliver_round-KeepsDone out now job [] tokens = tt
deliver_round-KeepsDone out now job (d ∷ ds) tokens =
    let pass = attempt_due out now job (d ∷ ds) tokens in
    finish_round-keeps out now job pass.0 (d ∷ ds) pass.1 (
      keeps_done out.retry_round_delay now (d ∷ ds) pass.1
        (attempt_due-FollowsAll out now job (d ∷ ds) tokens))
