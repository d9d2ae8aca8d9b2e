-- ===== src/Prelude/Lists.antt =====
-- Lists measured and filtered by Boolean tests and native numbers, under the library's names.
use Prim.Native.Nat.{ℕ, zero, suc, ◌+◌, ◌-◌, ◌≤◌, ◌<◌, min}
use mathlib.Core.Path.{◌≡◌, refl, ap, sym, subst, fun_ext}
use mathlib.Core.Bool.{Bool, true, false, ◌&&◌, ◌||◌}
use mathlib.Core.Option.{Option, none, some}
use mathlib.Core.List.{List, [], ◌∷◌, ◌++◌}
use native.Mathlib.Omega.{arith}
use mathlib.Core.Logic.{inl, inr, ◌⊎◌}
use tigerduck_backend.Prelude.Tests.{Bool-cases, if◌then◌else◌}

module _ {ℓ} {A : Type ℓ} where
  abbrev pub length : List A → ℕ
  length [] = 0
  length (x ∷ xs) = suc (length xs)

  abbrev pub take : ℕ → List A → List A
  take zero xs = []
  take (suc n) [] = []
  take (suc n) (x ∷ xs) = x ∷ take n xs

  abbrev pub drop : ℕ → List A → List A
  drop zero xs = xs
  drop (suc n) [] = []
  drop (suc n) (x ∷ xs) = drop n xs

  abbrev pub filter : (A → Bool) → List A → List A
  filter p [] = []
  filter p (x ∷ xs) = let rest = filter p xs in if p x then x ∷ rest else rest

  -- how many entries pass a test
  abbrev pub count_if : (A → Bool) → List A → ℕ
  count_if p [] = 0
  count_if p (x ∷ xs) = let rest = count_if p xs in if p x then suc rest else rest

  abbrev pub any : (A → Bool) → List A → Bool
  any p [] = false
  any p (x ∷ xs) = p x || any p xs

  abbrev pub find? : (A → Bool) → List A → Option A
  find? p [] = none
  find? p (x ∷ xs) = let rest = find? p xs in if p x then some x else rest

  abbrev pub get_last? : List A → Option A
  get_last? [] = none
  get_last? (x ∷ []) = some x
  get_last? (x ∷ y ∷ xs) = get_last? (y ∷ xs)

  abbrev pub All {κ} : (A → Type κ) → List A → Type κ
  All P [] = Unit
  All P (x ∷ xs) = P x × All P xs

module _ {ℓ} {A : Type ℓ} where
  pub length-append : (xs ys : List A) → length (xs ++ ys) ≡ length xs + length ys
  length-append [] ys = omega arith
  length-append (x ∷ xs) ys = omega (arith, length-append xs ys)

  pub take-append-drop : (n : ℕ) (xs : List A) → take n xs ++ drop n xs ≡ xs
  take-append-drop zero xs = refl
  take-append-drop (suc n) [] = refl
  take-append-drop (suc n) (x ∷ xs) = ap (◌∷◌ x) (take-append-drop n xs)

  pub take_of_length-le : {n : ℕ} (l : List A) → length l ≤ n → take n l ≡ l
  take_of_length-le {n = zero} [] short = refl
  take_of_length-le {n = zero} (a ∷ l) short = absurd (omega arith)
  take_of_length-le {n = suc k} [] short = refl
  take_of_length-le {n = suc k} (a ∷ l) short =
      let rest : take k l ≡ l = take_of_length-le {n = k} l (omega arith) in rw rest

  pub filter-append :
      (p : A → Bool) (xs ys : List A) → filter p (xs ++ ys) ≡ filter p xs ++ filter p ys
  filter-append p [] ys = refl
  filter-append p (x ∷ xs) ys = ground (arith, filter-append p xs ys)

  pub filter-filter :
      (p q : A → Bool) (xs : List A) → filter p (filter q xs) ≡ filter (λ x. q x && p x) xs
  filter-filter p q [] = refl
  filter-filter p q (x ∷ xs) = ground (arith, filter-filter p q xs)

  pub filter_congr :
      {p q : A → Bool} (xs : List A) → ((x : A) → p x ≡ q x) → filter p xs ≡ filter q xs
  filter_congr xs h = ap (λ (f : A → Bool). filter f xs) (fun_ext h)

  pub filter_congr_All :
      (p q : A → Bool) (xs : List A) → All (λ x. p x ≡ q x) xs → filter p xs ≡ filter q xs
  filter_congr_All p q [] h = refl
  filter_congr_All p q (x ∷ xs) h = ground (arith, h.0, filter_congr_All p q xs h.1)

  pub filter_none : (p : A → Bool) (xs : List A) → All (λ x. p x ≡ false) xs → filter p xs ≡ []
  filter_none p [] h = refl
  filter_none p (x ∷ xs) h = ground (arith, h.0, filter_none p xs h.1)

  pub filter_of_All : (p : A → Bool) (xs : List A) → All (λ x. p x ≡ true) xs → filter p xs ≡ xs
  filter_of_All p [] h = refl
  filter_of_All p (x ∷ xs) h = ground (arith, h.0, filter_of_All p xs h.1)

  -- what passes the filter passes its test
  pub filter-All : (p : A → Bool) (xs : List A) → All (λ x. p x ≡ true) (filter p xs)
  filter-All p [] = tt
  filter-All p (x ∷ xs) = ground (arith, filter-All p xs)

  pub take-take-suc : (n : ℕ) (xs : List A) → take n (take (suc n) xs) ≡ take n xs
  take-take-suc zero xs = refl
  take-take-suc (suc n) [] = refl
  take-take-suc (suc n) (x ∷ xs) = ap (◌∷◌ x) (take-take-suc n xs)

  pub length-take : (n : ℕ) (xs : List A) → length (take n xs) ≡ min n (length xs)
  length-take zero xs = omega arith
  length-take (suc n) [] = omega arith
  length-take (suc n) (x ∷ xs) = omega (arith, length-take n xs)

  pub length-drop : (n : ℕ) (xs : List A) → length (drop n xs) ≡ length xs - n
  length-drop zero xs = omega arith
  length-drop (suc n) [] = omega arith
  length-drop (suc n) (x ∷ xs) = omega (arith, length-drop n xs)

  -- a list cut after its first entry still has a last one
  pub get_last?-take :
      (n : ℕ) (x : A) (xs : List A) → (a : A) × (get_last? (take (suc n) (x ∷ xs)) ≡ some a)
  get_last?-take zero x xs = (x, refl)
  get_last?-take (suc n) x [] = (x, refl)
  get_last?-take (suc n) x (y ∷ ys) = get_last?-take n y ys

  module _ {κ} (P : A → Type κ) where
    pub All-get_last?-take :
        (n : ℕ) (xs : List A) {a : A} → All P xs → get_last? (take n xs) ≡ some a → P a
    All-get_last?-take zero xs h e = cc
    All-get_last?-take (suc n) [] h e = cc
    All-get_last?-take (suc zero) (x ∷ xs) {a} h e = let q : x ≡ a = cc in subst P q h.0
    All-get_last?-take (suc (suc n)) (x ∷ []) {a} h e = let q : x ≡ a = cc in subst P q h.0
    All-get_last?-take (suc (suc n)) (x ∷ y ∷ ys) h e = All-get_last?-take (suc n) (y ∷ ys) h.1 e

  pub take-nil : (n : ℕ) (xs : List A) → 0 < n → take n xs ≡ [] → xs ≡ []
  take-nil zero xs room e = absurd (omega arith)
  take-nil (suc n) [] room e = refl
  take-nil (suc n) (x ∷ xs) room e = absurd (cc)

  pub take-head :
      (n : ℕ) (xs : List A) {a : A} {r : List A} → take n xs ≡ a ∷ r → (w : List A) × (xs ≡ a ∷ w)
  take-head zero xs e = absurd (cc)
  take-head (suc n) [] e = absurd (cc)
  take-head (suc n) (x ∷ xs) e = (xs, ap (λ y. y ∷ xs) (cc))

  module _ {κ} (P : A → Type κ) where
    -- what holds of the rows that pass holds of each row if it passes
    pub All_of_filter :
        (p : A → Bool) (xs : List A) → All P (filter p xs) → All (λ x. p x ≡ true → P x) xs
    All_of_filter p [] h = tt
    All_of_filter p (x ∷ xs) h = elim (Bool-cases (p x)) [
      | inl t ↦
          let h' : P x × All P (filter p xs) = rw t at h in (λ _. h'.0, All_of_filter p xs h'.1)
      | inr f ↦
          let h' : All P (filter p xs) = rw f at h in
          (λ t. absurd (ground arith), All_of_filter p xs h')
    ]

    pub All-filter : (p : A → Bool) (xs : List A) → All P xs → All P (filter p xs)
    All-filter p [] h = tt
    All-filter p (x ∷ xs) h = ground (arith, All-filter p xs h.1)

    pub All-append : (xs ys : List A) → All P xs → All P ys → All P (xs ++ ys)
    All-append [] ys hx hy = hy
    All-append (x ∷ xs) ys hx hy = (hx.0, All-append xs ys hx.1 hy)

  module _ {κ υ} {P : A → Type κ} {Q : A → Type υ} (f : (a : A) → P a → Q a) where
    pub All-map : (xs : List A) → All P xs → All Q xs
    All-map [] h = tt
    All-map (x ∷ xs) h = (f x h.0, All-map xs h.1)

  pub List-cases : (xs : List A) → (xs ≡ []) ⊎ ((x : A) × (rest : List A) × (xs ≡ x ∷ rest))
  List-cases [] = inl refl
  List-cases (x ∷ xs) = inr (x, xs, refl)

  -- no entry passes a test that none was found for
  pub any-All : (p : A → Bool) (xs : List A) → any p xs ≡ false → All (λ x. p x ≡ false) xs
  any-All p [] h = tt
  any-All p (x ∷ xs) h = ground (arith, any-All p xs)

  pub find?-All : (p : A → Bool) (xs : List A) → find? p xs ≡ none → All (λ x. p x ≡ false) xs
  find?-All p [] h = tt
  find?-All p (x ∷ xs) h = ground (arith, find?-All p xs)

module _ {A : Type 0} where
  -- an entry of a list
  abbrev pub In : A → List A → Type 0
  In x [] = ⊥
  In x (y ∷ ys) = (x ≡ y) ⊎ In x ys

  pub In-append_left : (x : A) (xs ys : List A) → In x xs → In x (xs ++ ys)
  In-append_left x [] ys h = absurd h
  In-append_left x (y ∷ xs) ys (inl e) = inl e
  In-append_left x (y ∷ xs) ys (inr h) = inr (In-append_left x xs ys h)

  pub In-append_right : (x : A) (xs ys : List A) → In x ys → In x (xs ++ ys)
  In-append_right x [] ys h = h
  In-append_right x (y ∷ xs) ys h = inr (In-append_right x xs ys h)

  module _ {κ} (P : A → Type κ) where
    -- what holds of each entry holds of all
    pub All_of_In : (xs : List A) → ((x : A) → In x xs → P x) → All P xs
    All_of_In [] h = tt
    All_of_In (x ∷ xs) h = (h x (inl refl), All_of_In xs (λ y i. h y (inr i)))

    pub In-All : (x : A) (xs : List A) → All P xs → In x xs → P x
    In-All x [] h i = absurd i
    In-All x (y ∷ xs) h (inl e) = subst P (sym e) h.0
    In-All x (y ∷ xs) h (inr i) = In-All x xs h.1 i
