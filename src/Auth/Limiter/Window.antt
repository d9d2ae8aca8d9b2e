-- ===== src/Auth/Limiter/Window.antt =====
-- The limiter against its history: what it drops has left the window for good.
use tigerduck_backend.Prelude.{
  ℕ, ◌+◌, ◌≤◌, ◌≡◌, ◌∙◌, refl, sym, ap, subst, arith, true, false, List, [], ◌∷◌, ◌++◌, String, leb,
  ltb, length, filter, filter-append, filter-filter, filter_congr, All-filter, All, All-map,
  All-append, Bool-cases, inl, inr,
}
use tigerduck_backend.Auth.Limiter.{Limiter, bucket_of, drop_expired, allow, has_left}

-- the attempts still in the window at `now`
abbrev pub recent : ℕ → ℕ → List ℕ → List ℕ
recent window now ts = filter (λ t. ltb now (t + window)) ts

abbrev pub Ordered : List ℕ → Type 0
Ordered [] = Unit
Ordered (t ∷ ts) = All (λ u. t ≤ u) ts × Ordered ts

-- A bucket holds the attempts of its history that may still count, in order.
pub record Covers (window now : ℕ) (bucket history : List ℕ) : Type 0 where
  pub ordered : Ordered bucket
  pub past : All (λ t. t ≤ now) bucket
  pub same : (later : ℕ) → now ≤ later → recent window later bucket ≡ recent window later history

recent_all :
    (window now : ℕ) (ts : List ℕ)
    → All (λ u. ltb now (u + window) ≡ true) ts
    → recent window now ts ≡ ts
recent_all window now [] h = refl
recent_all window now (t ∷ ts) h = ground (arith, recent_all window now ts h.1, h.0)

drop_expired-recent :
    (window now : ℕ) (ts : List ℕ) → Ordered ts → drop_expired window now ts ≡ recent window now ts
unfolding drop_expired
drop_expired-recent window now [] h = refl
drop_expired-recent window now (t ∷ ts) h = elim (Bool-cases (leb (t + window) now)) [
  | inl old ↦
      let f : ltb now (t + window) ≡ false = ground arith in
      rw old (rw f (drop_expired-recent window now ts h.1))
  | inr young ↦
      let f : ltb now (t + window) ≡ true = ground arith in
      let all = recent_all window now ts (All-map (λ u le. ground arith) ts h.0) in
      rw young (rw f (ap (λ r. t ∷ r) (sym all)))
]

-- Asked for a key whose bucket covers its history, the limiter says whether fewer attempts than
-- allowed fall in the window, and the bucket it leaves covers the history.
pub allow-recent :
    (key : String) (now : ℕ) (l : Limiter) (history : List ℕ)
    → Covers l.window now (bucket_of (l.attempts key)) history
    → (allow key now l).0 ≡ ltb (length (recent l.window now history)) l.max_attempts
unfolding allow
allow-recent key now l history h =
    ap (λ ts. ltb (length ts) l.max_attempts)
      (drop_expired-recent l.window now (bucket_of (l.attempts key)) h.ordered
        ∙ h.same now (omega arith))

pub Covers-later :
    (window now later : ℕ) (bucket history : List ℕ)
    → now ≤ later
    → Covers window now bucket history
    → Covers window later bucket history
Covers-later window now later bucket history le h = record {
  ordered = h.ordered;
  past = All-map (λ t p. omega (arith, le, p)) bucket h.past;
  same = λ t far. h.same t (omega (arith, le, far));
}

recent-recent :
    (window now later : ℕ) (ts : List ℕ)
    → now ≤ later
    → recent window later (recent window now ts) ≡ recent window later ts
recent-recent window now later ts le =
    filter-filter (λ t. ltb later (t + window)) (λ t. ltb now (t + window)) ts
    ∙ filter_congr ts (λ t. ground (arith, le))

Ordered-recent : (window now : ℕ) (ts : List ℕ) → Ordered ts → Ordered (recent window now ts)
Ordered-recent window now [] h = tt
Ordered-recent window now (t ∷ ts) h = elim (Bool-cases (ltb now (t + window))) [
  | inl young ↦
      rw young (
        All-filter (λ u. t ≤ u) (λ u. ltb now (u + window)) ts h.0,
        Ordered-recent window now ts h.1,
      )
  | inr old ↦ rw old (Ordered-recent window now ts h.1)
]

-- Pruning keeps what may still count.
pub drop_expired-Covers :
    (window now : ℕ) (bucket history : List ℕ)
    → Covers window now bucket history
    → Covers window now (drop_expired window now bucket) history
drop_expired-Covers window now bucket history h =
    subst (λ b. Covers window now b history) (sym (drop_expired-recent window now bucket h.ordered))
      (record {
        ordered = Ordered-recent window now bucket h.ordered;
        past = All-filter (λ t. t ≤ now) (λ t. ltb now (t + window)) bucket h.past;
        same = λ later le. recent-recent window now later bucket le ∙ h.same later le;
      })

first_gone :
    (window later u : ℕ) (us : List ℕ)
    → recent window later (u ∷ us) ≡ []
    → ltb later (u + window) ≡ false
first_gone window later u us e = elim (Bool-cases (ltb later (u + window))) [
  | inl young ↦ absurd (let e' : u ∷ recent window later us ≡ [] = rw young at e in cc)
  | inr old ↦ old
]

pub has_left-none :
    (window now later : ℕ) (ts : List ℕ)
    → now ≤ later
    → Ordered ts
    → has_left window now ts ≡ true
    → recent window later ts ≡ []
has_left-none window now later [] le o e = refl
has_left-none window now later (t ∷ []) le o e = ground (arith, e)
has_left-none window now later (t ∷ u ∷ us) le o e =
    let rest = has_left-none window now later (u ∷ us) le o.1 e in
    let gone : ltb later (t + window) ≡ false =
      ground (arith, first_gone window later u us rest, o.0.0) in
    rw gone rest

Ordered-append :
    (ts : List ℕ) (now : ℕ) → Ordered ts → All (λ t. t ≤ now) ts → Ordered (ts ++ now ∷ [])
Ordered-append [] now o p = (tt, tt)
Ordered-append (t ∷ ts) now o p =
    (All-append (λ u. t ≤ u) ts (now ∷ []) o.0 (p.0, tt), Ordered-append ts now o.1 p.1)

pub append-Covers :
    (window now : ℕ) (bucket history : List ℕ)
    → Covers window now bucket history
    → Covers window now (bucket ++ now ∷ []) (history ++ now ∷ [])
append-Covers window now bucket history h = record {
  ordered = Ordered-append bucket now h.ordered h.past;
  past = All-append (λ t. t ≤ now) bucket (now ∷ []) h.past (omega arith, tt);
  same = λ later le.
      let p = λ (t : ℕ). ltb later (t + window) in
      filter-append p bucket (now ∷ [])
      ∙ (ap (λ r. r ++ recent window later (now ∷ [])) (h.same later le)
          ∙ sym (filter-append p history (now ∷ [])));
}
