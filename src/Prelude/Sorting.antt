-- ===== src/Prelude/Sorting.antt =====
-- `ORDER BY key` of a query, as a stable insertion sort on a number.
use Prim.Native.Nat.{ℕ, ◌≤◌, ◌<◌}
use mathlib.Core.Logic.{◌≢◌, inl, inr}
use mathlib.Core.List.{List, [], ◌∷◌}
use mathlib.Core.Path.{◌≡◌, refl, ◌∙◌}
use mathlib.Core.Bool.{Bool}
use native.Mathlib.Omega.{arith}
use tigerduck_backend.Prelude.Tests.{leb, leb→le, Bool-cases, if◌then◌else◌}
use tigerduck_backend.Prelude.Lists.{All, All-map, All-filter, filter}

module _ {ℓ} {A : Type ℓ} (key : A → ℕ) where
  unfoldable pub insert_by : A → List A → List A
  insert_by x [] = x ∷ []
  insert_by x (y ∷ ys) =
      let rest = insert_by x ys in if leb (key x) (key y) then x ∷ y ∷ ys else y ∷ rest

  unfoldable pub order_by : List A → List A
  unfolding insert_by
  order_by [] = []
  order_by (x ∷ xs) = insert_by x (order_by xs)

  -- each entry's key is below all later keys
  abbrev pub Ascending : List A → Type 0
  Ascending [] = Unit
  Ascending (x ∷ xs) = All (λ y. key x < key y) xs × Ascending xs

  -- no two entries share a key
  abbrev pub DistinctKeys : List A → Type 0
  DistinctKeys [] = Unit
  DistinctKeys (x ∷ xs) = All (λ y. key x ≢ key y) xs × DistinctKeys xs

  module _ {κ} (P : A → Type κ) where
    insert_by-All : (x : A) (xs : List A) → P x → All P xs → All P (insert_by x xs)
    unfolding insert_by
    insert_by-All x [] p h = (p, tt)
    insert_by-All x (y ∷ ys) p h = ground (arith, insert_by-All x ys p h.1)

    pub order_by-All : (xs : List A) → All P xs → All P (order_by xs)
    unfolding order_by
    order_by-All [] h = tt
    order_by-All (x ∷ xs) h = insert_by-All x (order_by xs) h.0 (order_by-All xs h.1)

  insert_by-Ascending :
      (x : A) (ys : List A)
      → All (λ y. key x ≢ key y) ys
      → Ascending ys
      → Ascending (insert_by x ys)
  unfolding insert_by
  insert_by-Ascending x [] h s = (tt, tt)
  insert_by-Ascending x (y ∷ ys) h s = elim (Bool-cases (leb (key x) (key y))) [
    | inl le ↦ rw le (
      (ground (arith, h.0), All-map {P = λ z. key y < key z} (λ z lt. ground (arith, h.0)) ys s.0),
      s,
    )
    | inr gt ↦ rw gt (
      insert_by-All (λ z. key y < key z) x ys (ground arith) s.0,
      insert_by-Ascending x ys h.1 s.1,
    )
  ]

  -- sorting by a unique key leaves the rows strictly ascending
  pub order_by-Ascending : (xs : List A) → DistinctKeys xs → Ascending (order_by xs)
  unfolding order_by
  order_by-Ascending [] h = tt
  order_by-Ascending (x ∷ xs) h =
      insert_by-Ascending x (order_by xs) (order_by-All (λ y. key x ≢ key y) xs h.0)
        (order_by-Ascending xs h.1)

  pub filter-Ascending : (p : A → Bool) (xs : List A) → Ascending xs → Ascending (filter p xs)
  filter-Ascending p [] s = tt
  filter-Ascending p (x ∷ xs) s =
      ground (arith, filter-Ascending p xs s.1, All-filter (λ y. key x < key y) p xs s.0)

  insert_by_le : (x : A) (ys : List A) → All (λ y. key x ≤ key y) ys → insert_by x ys ≡ x ∷ ys
  unfolding insert_by
  insert_by_le x [] h = refl
  insert_by_le x (y ∷ ys) h = ground (arith, h.0)

  filter-insert_by :
      (p : A → Bool) (x : A) (ys : List A)
      → Ascending ys
      → filter p (insert_by x ys) ≡ (if p x then insert_by x (filter p ys) else filter p ys)
  unfolding insert_by
  filter-insert_by p x [] s = refl
  filter-insert_by p x (y ∷ ys) s = elim (Bool-cases (leb (key x) (key y))) [
    | inl le ↦
        let above : All (λ z. key x ≤ key z) (y ∷ ys) = (
          leb→le _ _ le,
          All-map {P = λ z. key y < key z} (λ z lt. omega (arith, leb→le _ _ le)) ys s.0,
        ) in
        rw le (
          ground (
            arith,
            insert_by_le x (filter p (y ∷ ys)) (All-filter (λ z. key x ≤ key z) p (y ∷ ys) above),
          ))
    | inr gt ↦ rw gt (ground (arith, filter-insert_by p x ys s.1))
  ]

  -- a filter before the sort or after it
  pub filter-order_by :
      (p : A → Bool) (xs : List A)
      → DistinctKeys xs
      → filter p (order_by xs) ≡ order_by (filter p xs)
  unfolding order_by
  filter-order_by p [] d = refl
  filter-order_by p (x ∷ xs) d =
      filter-insert_by p x (order_by xs) (order_by-Ascending xs d.1)
      ∙ ground (arith, filter-order_by p xs d.1)

  abbrev pub Sorted : List A → Type 0
  Sorted [] = Unit
  Sorted (x ∷ xs) = All (λ y. key x ≤ key y) xs × Sorted xs

  insert_by-Sorted : (x : A) (ys : List A) → Sorted ys → Sorted (insert_by x ys)
  unfolding insert_by
  insert_by-Sorted x [] s = (tt, tt)
  insert_by-Sorted x (y ∷ ys) s = elim (Bool-cases (leb (key x) (key y))) [
    | inl le ↦ rw le (
      (
        leb→le _ _ le,
        All-map {P = λ z. key y ≤ key z} (λ z yz. omega (arith, leb→le _ _ le)) ys s.0,
      ),
      s,
    )
    | inr gt ↦
        rw gt
          (insert_by-All (λ z. key y ≤ key z) x ys (ground arith) s.0, insert_by-Sorted x ys s.1)
  ]

  -- whatever the keys, the rows come out in order
  pub order_by-Sorted : (xs : List A) → Sorted (order_by xs)
  unfolding order_by
  order_by-Sorted [] = tt
  order_by-Sorted (x ∷ xs) = insert_by-Sorted x (order_by xs) (order_by-Sorted xs)

  module _ {κ} (P : A → Type κ) where
    All_of_insert_by : (x : A) (ys : List A) → All P (insert_by x ys) → P x × All P ys
    unfolding insert_by
    All_of_insert_by x [] h = h
    All_of_insert_by x (y ∷ ys) h = elim (Bool-cases (leb (key x) (key y))) [
      | inl le ↦ rw le at h
      | inr gt ↦
          let h' : P y × All P (insert_by x ys) = rw gt at h in
          let (px, rest) = All_of_insert_by x ys h'.1 in (px, (h'.0, rest))
    ]

    -- what holds of the sorted rows holds of the rows
    pub All_of_order_by : (xs : List A) → All P (order_by xs) → All P xs
    unfolding order_by
    All_of_order_by [] h = tt
    All_of_order_by (x ∷ xs) h =
        let (px, rest) = All_of_insert_by x (order_by xs) h in (px, All_of_order_by xs rest)
