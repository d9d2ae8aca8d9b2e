-- ===== src/Tests/LimiterRuns.antt =====
-- server/auth/rate_limit.py: two attempts in ten seconds, for two keys.
use native.Mathlib.Omega.{arith}
use tigerduck_backend.Prelude.{ℕ, ◌≡◌, refl, true, false, List, [], ◌∷◌}
use tigerduck_backend.Auth.Limiter.{new_limiter, allow, record_attempt, reset}
use tigerduck_backend.Auth.Limiter.History.{
  Call, ask_call, record_call, reset_call, run, expected, limiter_answers,
}

abbrev calls : List (ℕ × Call)
calls =
    (1, record_call "a")
    ∷ (2, record_call "a")
    ∷ (3, ask_call "a")
    ∷ (3, ask_call "b")
    ∷ (11, ask_call "a")
    ∷ (12, record_call "a")
    ∷ (13, reset_call "a")
    ∷ (14, ask_call "a")
    ∷ []

answers : run calls (new_limiter 2 10) ≡ false ∷ true ∷ true ∷ true ∷ []
unfolding run allow record_attempt reset
answers = refl

limiter_answers_example : run calls (new_limiter 2 10) ≡ expected 2 10 calls (λ k. [])
limiter_answers_example = limiter_answers 2 10 calls (
  omega arith,
  (
    omega arith,
    (omega arith, (omega arith, (omega arith, (omega arith, (omega arith, (omega arith, tt)))))),
  ),
)
