-- ===== src/SyncJobs/Budget.antt =====
-- `RequestBudget` of server/syncjobs/budget.py. A time is a reading of the monotonic clock, in a unit
-- that the spacing `60 / per_minute` is a whole number of; minus infinity is `none`.
pub mod Spacing
use tigerduck_backend.Prelude.{
  ℕ, ◌+◌, ◌-◌, max, Bool, true, false, Option, none, some, List, [], ◌∷◌, leb, ltb, if◌then◌else◌,
}

pub record RequestBudget : Type 0 where
  pub spacing : ℕ
  pub last_at : Option ℕ
  pub resume_at : Option ℕ

abbrev pub fresh : ℕ → RequestBudget
fresh spacing = record { spacing = spacing; last_at = none; resume_at = none }

abbrev pub before : ℕ → Option ℕ → Bool
before now none = false
before now (some t) = ltb now t

unfoldable pub paused : ℕ → RequestBudget → Bool
paused now b = before now b.resume_at

unfoldable pub pause : ℕ → ℕ → RequestBudget → RequestBudget
pause now seconds b = record b {
  resume_at = some (elim b.resume_at [ none ↦ now + seconds | some t ↦ max t (now + seconds) ]);
}

-- `max(resume_at, last_at + spacing)`; zero stands for minus infinity, which no reading is below.
unfoldable pub ready_at : RequestBudget → ℕ
ready_at b =
    max (elim b.resume_at [ none ↦ 0 | some t ↦ t ])
      (elim b.last_at [ none ↦ 0 | some t ↦ t + b.spacing ])

-- One turn of the loop of `acquire`, at a reading of the clock: the request goes, or it sleeps.
unfoldable pub try_acquire : ℕ → RequestBudget → Bool × RequestBudget
unfolding ready_at
try_acquire now b =
    if leb (ready_at b) now then (true, record b { last_at = some now }) else (false, b)

-- The turns of all waiting requests, in the order they happen, and the pauses between them.
pub data Event : Type 0 where
  wakes : ℕ → Event
  pauses : ℕ → ℕ → Event

-- The times of the requests that go.
unfoldable pub run_events : RequestBudget → List Event → List ℕ
unfolding pause try_acquire
run_events b [] = []
run_events b (wakes now ∷ es) =
    let turn = try_acquire now b in
    let rest = run_events turn.1 es in if turn.0 then now ∷ rest else rest
run_events b (pauses now seconds ∷ es) = run_events (pause now seconds b) es
