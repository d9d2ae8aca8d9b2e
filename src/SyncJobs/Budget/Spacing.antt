-- ===== src/SyncJobs/Budget/Spacing.antt =====
-- How often requests go, and that none goes during a pause.
use tigerduck_backend.Prelude.{
  ℕ, zero, suc, ◌+◌, ◌*◌, ◌≤◌, ◌<◌, ◌≡◌, max, refl, arith, true, ◌&&◌, Option, none, some, List, [],
  ◌∷◌, leb, ltb, All, count_if, Bool-cases, inl, inr, ltb→lt, leb→le, subst, sym,
}
use tigerduck_backend.SyncJobs.Budget.{
  RequestBudget, fresh, ready_at, pause, Event, wakes, pauses, run_events,
}

-- Each time is at least the spacing after the one before it.
abbrev Spaced : ℕ → Option ℕ → List ℕ → Type 0
Spaced sp o [] = Unit
Spaced sp none (t ∷ ts) = Spaced sp (some t) ts
Spaced sp (some l) (t ∷ ts) = (l + sp ≤ t) × Spaced sp (some t) ts

Spaced-first :
    (sp : ℕ) (o : Option ℕ) (t : ℕ) (ts : List ℕ)
    → elim o [ none ↦ 0 | some l ↦ l + sp ] ≤ t
    → Spaced sp (some t) ts
    → Spaced sp o (t ∷ ts)
Spaced-first sp none t ts le h = h
Spaced-first sp (some l) t ts le h = (le, h)

run_events-Spaced :
    (b : RequestBudget) (es : List Event) → Spaced b.spacing b.last_at (run_events b es)
unfolding run_events
run_events-Spaced b [] = tt
run_events-Spaced b (pauses now seconds ∷ es) = run_events-Spaced (pause now seconds b) es
run_events-Spaced b (wakes now ∷ es) = elim (Bool-cases (leb (ready_at b) now)) [
  | inl ready ↦ rw ready (
      Spaced-first b.spacing b.last_at now _ (ground (arith))
        (run_events-Spaced (record b { last_at = some now }) es))
  | inr waits ↦ rw waits (run_events-Spaced b es)
]

-- Of times a spacing apart, the first after `l`, few lie below a limit close to `l`.
count_below :
    (sp l limit n : ℕ) (ts : List ℕ)
    → Spaced sp (some l) ts
    → limit ≤ l + (sp + n * sp)
    → count_if (λ t. ltb t limit) ts ≤ n
count_below sp l limit n [] h le = ground arith
count_below sp l limit n (t ∷ ts) h le = elim (Bool-cases (ltb t limit)) [
  | inl below ↦ rw below (taken n (λ m. count_below sp t limit m ts h.1) le (ltb→lt t limit below))
  | inr above ↦ rw above (count_below sp t limit n ts h.1 (ground (arith, h.0)))
]
  where
    taken :
        (m : ℕ)
        → ((k : ℕ) → limit ≤ t + (sp + k * sp) → count_if (λ t. ltb t limit) ts ≤ k)
        → limit ≤ l + (sp + m * sp)
        → t < limit
        → suc (count_if (λ t. ltb t limit) ts) ≤ m
    taken zero rest le below = absurd (omega (arith, h.0))
    taken (suc m) rest le below = omega (arith, rest m (omega (arith, h.0)))

count_span-below :
    (from limit : ℕ) (ts : List ℕ)
    → count_if (λ t. leb from t && ltb t limit) ts ≤ count_if (λ t. ltb t limit) ts
count_span-below from limit [] = ground arith
count_span-below from limit (t ∷ ts) = ground (arith, count_span-below from limit ts)

-- In a span of `n` spacings, `n` times at most.
count_span :
    (sp from n : ℕ) (o : Option ℕ) (ts : List ℕ)
    → Spaced sp o ts
    → count_if (λ t. leb from t && ltb t (from + n * sp)) ts ≤ n
count_span sp from n o [] h = ground arith
count_span sp from n o (t ∷ ts) h = elim (Bool-cases (leb from t && ltb t (from + n * sp))) [
  | inl inside ↦ rw inside (taken n inside)
  | inr out ↦ rw out (count_span sp from n (some t) ts (Spaced-rest o h))
]
  where
    Spaced-rest : (o : Option ℕ) → Spaced sp o (t ∷ ts) → Spaced sp (some t) ts
    Spaced-rest none h = h
    Spaced-rest (some l) h = h.1

    taken :
        (m : ℕ)
        → (leb from t && ltb t (from + m * sp)) ≡ true
        → suc (count_if (λ t. leb from t && ltb t (from + m * sp)) ts) ≤ m
    taken zero inside = absurd (ground arith)
    taken (suc m) inside =
        let limit = from + suc m * sp in
        ground (
          arith,
          count_span-below from limit ts,
          count_below sp t limit m ts (Spaced-rest o h) (ground arith),
        )

-- However the requests of all jobs wake and whatever pauses come between, no span of `n` spacings
-- sees more than `n` requests go: with a spacing of `60 / per_minute` seconds, no minute sees more
-- than `per_minute`.
pub run_events-rate :
    (spacing : ℕ) (es : List Event) (from n : ℕ)
    → count_if (λ t. leb from t && ltb t (from + n * spacing)) (run_events (fresh spacing) es) ≤ n
run_events-rate spacing es from n =
    count_span spacing from n none (run_events (fresh spacing) es)
      (run_events-Spaced (fresh spacing) es)

-- Every request from here on goes at `t` or later.
run_events-after :
    (b : RequestBudget) (es : List Event) (t u : ℕ)
    → b.resume_at ≡ some u
    → t ≤ u
    → All (λ s. t ≤ s) (run_events b es)
unfolding run_events
run_events-after b [] t u e le = tt
run_events-after b (pauses now seconds ∷ es) t u e le =
    run_events-after (pause now seconds b) es t (max u (now + seconds)) (rw e refl) (omega arith)
run_events-after b (wakes now ∷ es) t u e le = elim (Bool-cases (leb (ready_at b) now)) [
  | inl ready ↦
      rw ready (late ready, run_events-after (record b { last_at = some now }) es t u e le)
  | inr waits ↦ rw waits (run_events-after b es t u e le)
]
  where
    waited :
        leb (ready_at b) now ≡ true
        → leb (max u (elim b.last_at [ none ↦ 0 | some l ↦ l + b.spacing ])) now ≡ true
    waited =
        subst
          (λ o.
            leb
                (max (elim o [ none ↦ 0 | some t ↦ t ])
                  (elim b.last_at [ none ↦ 0 | some l ↦ l + b.spacing ]))
                now
              ≡ true
            → leb (max u (elim b.last_at [ none ↦ 0 | some l ↦ l + b.spacing ])) now ≡ true)
          (sym e) (λ h. h)

    late : leb (ready_at b) now ≡ true → t ≤ now
    late ready = omega (
      arith,
      leb→le (max u (elim b.last_at [ none ↦ 0 | some l ↦ l + b.spacing ])) now (waited ready),
    )

-- After a pause no request goes before its end, whatever other pauses follow.
pub pause-holds_back :
    (b : RequestBudget) (now seconds : ℕ) (es : List Event)
    → All (λ t. now + seconds ≤ t) (run_events (pause now seconds b) es)
unfolding pause
pause-holds_back b now seconds es = by_pause b.resume_at refl
  where
    by_pause :
        (o : Option ℕ)
        → b.resume_at ≡ o
        → All (λ t. now + seconds ≤ t) (run_events (pause now seconds b) es)
    by_pause none e =
        run_events-after (pause now seconds b) es (now + seconds) (now + seconds) (rw e refl)
          (omega arith)
    by_pause (some u) e =
        run_events-after (pause now seconds b) es (now + seconds) (max u (now + seconds))
          (rw e refl) (omega arith)
