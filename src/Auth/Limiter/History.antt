-- ===== src/Auth/Limiter/History.antt =====
-- The limiter over any run of calls answers as the plain history of attempts does.
use tigerduck_backend.Prelude.{
  ℕ, ◌≤◌, ◌≡◌, ◌∙◌, refl, sym, ap, subst, arith, Bool, Option, none, some, List, [], ◌∷◌, ◌++◌,
  String, str_eq, eq_iff, ltb, length, if◌then◌else◌, Bool-cases, inl, inr,
}
use tigerduck_backend.Auth.Limiter.{
  Limiter, new_limiter, bucket_of, keep, set, drop_expired, prune, allow, has_left, sweep_bucket,
  sweep, record_attempt, reset,
}
use tigerduck_backend.Auth.Limiter.Window.{
  recent, Covers, allow-recent, Covers-later, drop_expired-Covers, has_left-none, append-Covers,
}

pub data Call : Type 0 where
  ask_call record_call reset_call : String → Call

-- The attempts of each key since its last reset.
abbrev pub History : Type 0
History = String → List ℕ

abbrev pub set_history : String → List ℕ → History → History
set_history key ts h k = if str_eq k key then ts else h k

-- Every bucket covers its history.
abbrev pub Agrees : ℕ → Limiter → History → Type 0
Agrees now l h = (k : String) → Covers l.window now (bucket_of (l.attempts k)) (h k)

empty-Covers : (window now : ℕ) → Covers window now [] []
empty-Covers window now = record { ordered = tt; past = tt; same = λ later le. refl }

keep-bucket : (b : List ℕ) → bucket_of (keep b) ≡ b
keep-bucket [] = refl
keep-bucket (t ∷ ts) = refl

set-Covers :
    (window now : ℕ) (key : String) (b : Option (List ℕ)) (ts : List ℕ)
    (attempts : String → Option (List ℕ)) (h : History)
    → Covers window now (bucket_of b) ts
    → ((k : String) → Covers window now (bucket_of (attempts k)) (h k))
    → (k : String) → Covers window now (bucket_of (set key b attempts k)) (set_history key ts h k)
set-Covers window now key b ts attempts h new old k = elim (Bool-cases (str_eq k key)) [
  | inl same ↦ rw same new
  | inr other ↦ rw other (old k)
]

sweep-Agrees : (now : ℕ) (l : Limiter) (h : History) → Agrees now l h → Agrees now (sweep now l) h
unfolding sweep
sweep-Agrees now l h a k = elim (Bool-cases (ltb now l.next_sweep)) [
  | inl soon ↦ rw soon (a k)
  | inr due ↦ rw due (swept (l.attempts k) (a k))
]
  where
    swept :
        (b : Option (List ℕ))
        → Covers l.window now (bucket_of b) (h k)
        → Covers l.window now (bucket_of (sweep_bucket l.window now b)) (h k)
    swept none c = c
    swept (some b) c = elim (Bool-cases (has_left l.window now b)) [
      | inl gone ↦ rw gone (record {
        ordered = tt;
        past = tt;
        same = λ later le.
            sym (has_left-none l.window now later b le c.ordered gone) ∙ c.same later le;
      })
      | inr held ↦ rw held c
    ]

unfoldable pub run : List (ℕ × Call) → Limiter → List Bool
run [] l = []
run ((now, ask_call key) ∷ calls) l = (allow key now l).0 ∷ run calls (allow key now l).1
run ((now, record_call key) ∷ calls) l = run calls (record_attempt key now l)
run ((now, reset_call key) ∷ calls) l = run calls (reset key l)

-- The same calls on the history alone: fewer attempts in the window than allowed.
unfoldable pub expected : ℕ → ℕ → List (ℕ × Call) → History → List Bool
expected most window [] h = []
expected most window ((now, ask_call key) ∷ calls) h =
    ltb (length (recent window now (h key))) most ∷ expected most window calls h
expected most window ((now, record_call key) ∷ calls) h =
    expected most window calls (set_history key (h key ++ now ∷ []) h)
expected most window ((now, reset_call key) ∷ calls) h =
    expected most window calls (set_history key [] h)

-- The clock does not run backwards.
abbrev pub InOrder : ℕ → List (ℕ × Call) → Type 0
InOrder start [] = Unit
InOrder start ((now, call) ∷ calls) = (start ≤ now) × InOrder now calls

-- A limiter with its settings, in agreement with the history.
record IsFor (most window now : ℕ) (l : Limiter) (h : History) : Type 0 where
  limit : l.max_attempts ≡ most
  span : l.window ≡ window
  agrees : Agrees now l h

allow-IsFor :
    (most window now : ℕ) (key : String) (l : Limiter) (h : History)
    → IsFor most window now l h
    → IsFor most window now (allow key now l).1 h
unfolding allow prune
allow-IsFor most window now key l h f = record {
  limit = f.limit;
  span = f.span;
  agrees = λ k. elim (Bool-cases (str_eq k key)) [
    | inl same ↦
        let bucket = drop_expired l.window now (bucket_of (l.attempts key)) in
        let pruned =
          drop_expired-Covers l.window now (bucket_of (l.attempts key)) (h key) (f.agrees key) in
        let kept : Covers l.window now (bucket_of (keep bucket)) (h key) =
          subst (λ b. Covers l.window now b (h key)) (sym (keep-bucket bucket)) pruned in
        let q : k ≡ key = ground (arith, eq_iff k key) in
        rw same (subst (λ j. Covers l.window now (bucket_of (keep bucket)) (h j)) (sym q) kept)
    | inr other ↦ rw other (f.agrees k)
  ];
}

sweep-IsFor :
    (most window now : ℕ) (l : Limiter) (h : History)
    → IsFor most window now l h
    → IsFor most window now (sweep now l) h
unfolding sweep
sweep-IsFor most window now l h f = record {
  limit = elim (Bool-cases (ltb now l.next_sweep)) [ inl t ↦ rw t f.limit | inr n ↦ rw n f.limit ];
  span = elim (Bool-cases (ltb now l.next_sweep)) [ inl t ↦ rw t f.span | inr n ↦ rw n f.span ];
  agrees = sweep-Agrees now l h f.agrees;
}

record_attempt-IsFor :
    (most window now : ℕ) (key : String) (l : Limiter) (h : History)
    → IsFor most window now l h
    → IsFor most window now (record_attempt key now l) (set_history key (h key ++ now ∷ []) h)
unfolding record_attempt
record_attempt-IsFor most window now key l h f =
    let l' = sweep now l in
    let s = sweep-IsFor most window now l h f in
    record {
      limit = s.limit;
      span = s.span;
      agrees =
          set-Covers l'.window now key (some (bucket_of (l'.attempts key) ++ now ∷ []))
            (h key ++ now ∷ []) l'.attempts h
            (append-Covers l'.window now (bucket_of (l'.attempts key)) (h key) (s.agrees key))
            s.agrees;
    }

reset-IsFor :
    (most window now : ℕ) (key : String) (l : Limiter) (h : History)
    → IsFor most window now l h
    → IsFor most window now (reset key l) (set_history key [] h)
unfolding reset
reset-IsFor most window now key l h f = record {
  limit = f.limit;
  span = f.span;
  agrees = set-Covers l.window now key none [] l.attempts h (empty-Covers l.window now) f.agrees;
}

IsFor-later :
    (most window now later : ℕ) (l : Limiter) (h : History)
    → now ≤ later
    → IsFor most window now l h
    → IsFor most window later l h
IsFor-later most window now later l h le f = record {
  limit = f.limit;
  span = f.span;
  agrees = λ k. Covers-later l.window now later (bucket_of (l.attempts k)) (h k) le (f.agrees k);
}

run-expected :
    (most window start : ℕ) (calls : List (ℕ × Call)) (l : Limiter) (h : History)
    → IsFor most window start l h
    → InOrder start calls
    → run calls l ≡ expected most window calls h
unfolding run expected
run-expected most window start [] l h f o = refl
run-expected most window start ((now, ask_call key) ∷ calls) l h f o =
    let g = IsFor-later most window start now l h o.0 f in
    let answer : (allow key now l).0 ≡ ltb (length (recent window now (h key))) most =
      allow-recent key now l (h key) (g.agrees key)
      ∙ (ap (λ w. ltb (length (recent w now (h key))) l.max_attempts) g.span
          ∙ ap (λ m. ltb (length (recent window now (h key))) m) g.limit) in
    ap (λ b. b ∷ run calls (allow key now l).1) answer
    ∙ ap (λ r. ltb (length (recent window now (h key))) most ∷ r)
        (run-expected most window now calls (allow key now l).1 h
          (allow-IsFor most window now key l h g) o.1)
run-expected most window start ((now, record_call key) ∷ calls) l h f o =
    run-expected most window now calls (record_attempt key now l)
      (set_history key (h key ++ now ∷ []) h)
      (record_attempt-IsFor most window now key l h (IsFor-later most window start now l h o.0 f))
      o.1
run-expected most window start ((now, reset_call key) ∷ calls) l h f o =
    run-expected most window now calls (reset key l) (set_history key [] h)
      (reset-IsFor most window now key l h (IsFor-later most window start now l h o.0 f)) o.1

-- Over any calls in the order of the clock, a new limiter allows an attempt exactly when fewer than
-- `most` attempts of that key, counted since its last reset, fall in the window: what is pruned and
-- swept away never changes an answer.
pub limiter_answers :
    (most window : ℕ) (calls : List (ℕ × Call))
    → InOrder 0 calls
    → run calls (new_limiter most window) ≡ expected most window calls (λ k. [])
limiter_answers most window calls o =
    run-expected most window 0 calls (new_limiter most window) (λ k. [])
      (record { limit = refl; span = refl; agrees = λ k. empty-Covers window 0 }) o
