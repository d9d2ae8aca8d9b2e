-- ===== src/Calendar/Current.antt =====
-- The current term is the one that began last, or the first of all.
use tigerduck_backend.Prelude.{
  ℕ, ◌<◌, ◌≤◌, ◌≡◌, refl, subst, sym, arith, true, ◌&&◌, ◌||◌, Option, none, some, List, [], ◌∷◌,
  filter, leb, leb→le, ltb, ◌==◌, All, All-map, All_of_filter, filter-All, Bool-cases, Option-cases,
  inl, inr, ◌⊎◌,
}
use native.Mathlib.Nat.{le_refl}
use tigerduck_backend.Calendar.{
  SemesterTerm, later_term, earlier_term, first_by, or_else, current_term,
}

first_by-none :
    (choose : SemesterTerm → SemesterTerm → SemesterTerm) (ts : List SemesterTerm)
    → first_by choose ts ≡ none
    → ts ≡ []
first_by-none choose [] h = refl
first_by-none choose (t ∷ ts) h = elim (Option-cases (first_by choose ts)) [
  | inl e ↦ absurd (let k : some t ≡ none = rw e at h in cc)
  | inr (u, e) ↦ absurd (let k : some (choose t u) ≡ none = rw e at h in cc)
]

-- A choice that keeps `R` to both of its rows picks one that has it to all.
module _ (choose : SemesterTerm → SemesterTerm → SemesterTerm)
    (R : SemesterTerm → SemesterTerm → Type 0) (left : (t u : SemesterTerm) → R (choose t u) t)
    (right : (t u v : SemesterTerm) → R u v → R (choose t u) v)
    (same : (t : SemesterTerm) → R t t) where
  first_by-All :
      (ts : List SemesterTerm) (t : SemesterTerm) → first_by choose ts ≡ some t → All (R t) ts
  first_by-All [] t h = tt
  first_by-All (a ∷ ts) t h = elim (Option-cases (first_by choose ts)) [
    | inl e ↦
        let k : some a ≡ some t = rw e at h in
        let q : a ≡ t = cc in
        let none_left = first_by-none choose ts e in
        (subst (λ x. R x a) q (same a), subst (All (R t)) (sym none_left) tt)
    | inr (u, e) ↦
        let k : some (choose a u) ≡ some t = rw e at h in
        let q : choose a u ≡ t = cc in
        (
          subst (λ x. R x a) q (left a u),
          All-map (λ v r. subst (λ x. R x v) q (right a u v r)) ts (first_by-All ts u e),
        )
  ]

  first_by-picked :
      (P : SemesterTerm → Type 0)
      → ((t u : SemesterTerm) → P t → P u → P (choose t u))
      → (ts : List SemesterTerm) (t : SemesterTerm) → All P ts
      → first_by choose ts ≡ some t
      → P t
  first_by-picked P keeps [] t a h = absurd (cc)
  first_by-picked P keeps (s ∷ ts) t a h = elim (Option-cases (first_by choose ts)) [
    | inl e ↦ let k : some s ≡ some t = rw e at h in let q : s ≡ t = cc in subst P q a.0
    | inr (u, e) ↦
        let k : some (choose s u) ≡ some t = rw e at h in
        let q : choose s u ≡ t = cc in
        subst P q (keeps s u a.0 (first_by-picked P keeps ts u a.1 e))
  ]

abbrev Later : SemesterTerm → SemesterTerm → Type 0
Later t u = u.start_date ≤ t.start_date

abbrev Earlier : SemesterTerm → SemesterTerm → Type 0
Earlier t u = t.start_date ≤ u.start_date

later_term-picked :
    (P : SemesterTerm → Type 0) (t u : SemesterTerm) → P t → P u → P (later_term t u)
later_term-picked P t u p q =
    elim (Bool-cases (
      ltb t.start_date u.start_date
      || (t.start_date == u.start_date && ltb t.code_rank u.code_rank))) [
        | inl e ↦ rw e q
        | inr e ↦ rw e p
      ]

later_term-left : (t u : SemesterTerm) → Later (later_term t u) t
later_term-left t u = ground arith

later_term-right : (t u v : SemesterTerm) → Later u v → Later (later_term t u) v
later_term-right t u v r = ground (arith, r)

earlier_term-left : (t u : SemesterTerm) → Earlier (earlier_term t u) t
earlier_term-left t u = ground arith

earlier_term-right : (t u v : SemesterTerm) → Earlier u v → Earlier (earlier_term t u) v
earlier_term-right t u v r = ground (arith, r)

-- The term of the last beginning, or the one of the first while none has begun.
abbrev pub IsCurrent : ℕ → List SemesterTerm → SemesterTerm → Type 0
IsCurrent today terms t =
    ((t.start_date ≤ today)
      × All (λ u. (today < u.start_date) ⊎ (u.start_date ≤ t.start_date)) terms)
    ⊎ (All (λ u. today < u.start_date) terms × All (λ u. t.start_date ≤ u.start_date) terms)

or_else-cases :
    (a b : Option SemesterTerm) (t : SemesterTerm)
    → or_else a b ≡ some t
    → (a ≡ some t) ⊎ ((a ≡ none) × (b ≡ some t))
or_else-cases none b t h = inr (refl, h)
or_else-cases (some s) b t h = inl h

or_else-none : (a b : Option SemesterTerm) → or_else a b ≡ none → b ≡ none
or_else-none none b h = h
or_else-none (some s) b h = absurd (cc)

none_current :
    (today : ℕ) (terms : List SemesterTerm) → current_term today terms ≡ none → terms ≡ []
unfolding current_term
none_current today terms h = first_by-none earlier_term terms (or_else-none _ _ h)

begun_or_ahead :
    (today : ℕ) (t u : SemesterTerm)
    → (leb u.start_date today ≡ true → u.start_date ≤ t.start_date)
    → (today < u.start_date) ⊎ (u.start_date ≤ t.start_date)
begun_or_ahead today t u begun = elim (Bool-cases (leb u.start_date today)) [
  | inl on ↦ inr (begun on)
  | inr not_yet ↦ inl (ground arith)
]

ahead : (today : ℕ) (u : SemesterTerm) → (leb u.start_date today ≡ true → ⊥) → today < u.start_date
ahead today u begun = elim (Bool-cases (leb u.start_date today)) [
  | inl on ↦ absurd (begun on)
  | inr not_yet ↦ ground arith
]

current_term-IsCurrent :
    (today : ℕ) (terms : List SemesterTerm) (t : SemesterTerm)
    → current_term today terms ≡ some t
    → IsCurrent today terms t
unfolding current_term
current_term-IsCurrent today terms t h =
    let p = λ (u : SemesterTerm). leb u.start_date today in
    elim (or_else-cases (first_by later_term (filter p terms)) (first_by earlier_term terms) t h) [
      | inl e ↦
          let last =
            first_by-All later_term Later later_term-left later_term-right
              (λ u. le_refl u.start_date) (filter p terms) t e in
          let now_on : leb t.start_date today ≡ true =
            first_by-picked later_term Later later_term-left later_term-right
              (λ u. le_refl u.start_date) (λ u. p u ≡ true) (later_term-picked (λ u. p u ≡ true))
              (filter p terms) t (filter-All p terms) e in
          inl (
            leb→le t.start_date today now_on,
            All-map (λ u begun. begun_or_ahead today t u begun) terms
                (All_of_filter (Later t) p terms last),
          )
      | inr (none_begun, e) ↦ inr (
        All-map (λ u begun. ahead today u begun) terms
            (All_of_filter (λ u. ⊥) p terms
              (subst (All (λ u. ⊥)) (sym (first_by-none later_term (filter p terms) none_begun))
                tt)),
        first_by-All earlier_term Earlier earlier_term-left earlier_term-right
            (λ u. le_refl u.start_date) terms t e,
      )
    ]

-- Once a term is published there is a current one. It is the term that began last, in a break after
-- it as well; only while none has begun is it the earliest of all.
pub current_term_lem :
    (today : ℕ) (first : SemesterTerm) (rest : List SemesterTerm)
    → (t : SemesterTerm) × (current_term today (first ∷ rest) ≡ some t)
      × IsCurrent today (first ∷ rest) t
current_term_lem today first rest = elim (Option-cases (current_term today (first ∷ rest))) [
  | inl e ↦ absurd (nonempty e)
  | inr (t, e) ↦ (t, e, current_term-IsCurrent today (first ∷ rest) t e)
]
  where
    nonempty : current_term today (first ∷ rest) ≡ none → ⊥
    nonempty e = absurd (let k : first ∷ rest ≡ [] = none_current today (first ∷ rest) e in cc)
