-- ===== src/Auth/Limiter.antt =====
-- `SlidingWindowLimiter` of server/auth/rate_limit.py. Times are numbers of one clock, which is read
-- once by each operation and passed to it.
pub mod Window
pub mod History
use tigerduck_backend.Prelude.{
  ℕ, ◌+◌, Bool, true, false, Option, none, some, List, [], ◌∷◌, ◌++◌, String, str_eq, leb, ltb,
  length, get_or, get_last?, if◌then◌else◌,
}

pub record Limiter : Type 0 where
  pub max_attempts : ℕ
  pub window : ℕ
  -- the buckets, none for a key that is not there
  pub attempts : String → Option (List ℕ)
  pub next_sweep : ℕ

-- `__init__`
abbrev pub new_limiter : ℕ → ℕ → Limiter
new_limiter most window = record {
  max_attempts = most;
  window = window;
  attempts = λ k. none;
  next_sweep = 0;
}

abbrev pub bucket_of : Option (List ℕ) → List ℕ
bucket_of none = []
bucket_of (some b) = b

-- An empty bucket is not kept.
abbrev pub keep : List ℕ → Option (List ℕ)
keep [] = none
keep (t ∷ ts) = some (t ∷ ts)

abbrev pub set : String → Option (List ℕ) → (String → Option (List ℕ)) → String → Option (List ℕ)
set key b attempts k = if str_eq k key then b else attempts k

-- `popleft` while the oldest attempt has left the window
unfoldable pub drop_expired : ℕ → ℕ → List ℕ → List ℕ
drop_expired window now [] = []
drop_expired window now (t ∷ ts) =
    let rest = drop_expired window now ts in if leb (t + window) now then rest else t ∷ ts

unfoldable pub prune : String → ℕ → Limiter → List ℕ × Limiter
unfolding drop_expired
prune key now l =
    let bucket = drop_expired l.window now (bucket_of (l.attempts key)) in
    (bucket, record l { attempts = set key (keep bucket) l.attempts })

unfoldable pub allow : String → ℕ → Limiter → Bool × Limiter
unfolding prune
allow key now l = let (bucket, l') = prune key now l in (ltb (length bucket) l.max_attempts, l')

-- `not b or b[-1] <= cutoff`
abbrev pub has_left : ℕ → ℕ → List ℕ → Bool
has_left window now b = elim (get_last? b) [ none ↦ true | some t ↦ leb (t + window) now ]

abbrev pub sweep_bucket : ℕ → ℕ → Option (List ℕ) → Option (List ℕ)
sweep_bucket window now none = none
sweep_bucket window now (some b) = if has_left window now b then none else some b

unfoldable pub sweep : ℕ → Limiter → Limiter
sweep now l = if ltb now l.next_sweep then l else record l {
  next_sweep = now + l.window;
  attempts = λ k. sweep_bucket l.window now (l.attempts k);
}

-- `record` of the source
unfoldable pub record_attempt : String → ℕ → Limiter → Limiter
unfolding sweep
record_attempt key now l =
    let l' = sweep now l in
    record l' { attempts = set key (some (bucket_of (l'.attempts key) ++ now ∷ [])) l'.attempts }

unfoldable pub reset : String → Limiter → Limiter
reset key l = record l { attempts = set key none l.attempts }
