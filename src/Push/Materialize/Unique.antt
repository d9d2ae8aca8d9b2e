-- ===== src/Push/Materialize/Unique.antt =====
-- The unique index of push_deliveries: one delivery of a job for each token and scope.
use tigerduck_backend.Prelude.{
  ℕ, suc, ◌≡◌, refl, subst, sym, Bool, true, false, ◌&&◌, not, List, [], ◌∷◌, ◌++◌, map, filter,
  any, String, ◌==◌, if◌then◌else◌, All, All-append, any-All, Bool-cases, inl, inr,
}
use tigerduck_backend.Push.Job.{PushJob, Delivery, is_pending}
use tigerduck_backend.Push.Deliver.{skipped}
use tigerduck_backend.Push.Db.{PushDb, has_deliveries}
use tigerduck_backend.Push.Countdown.{Starts}
use tigerduck_backend.Push.Guards.{
  Facts, Ending, to_delivery, cancels, fails_with, skips_pending, waits_until, Step, onward, ends,
  guards,
}
use tigerduck_backend.Push.Materialize.{
  Row, RoundSettings, Materialized, same_key, has_key, delivery_for, insert_rows, skip_pending,
  end_round, fill, reach, materialize, materialize_step, token_rows, starts_for, chosen,
  waits_for_countdown, is_left_out,
}

-- The two rows would collide on the index.
abbrev pub collides : ℕ × Delivery → ℕ × Delivery → Bool
collides a b = a.0 == b.0 && same_key a.1 b.1

abbrev pub DistinctRows : List (ℕ × Delivery) → Type 0
DistinctRows [] = Unit
DistinctRows (r ∷ rs) = All (λ e. collides r e ≡ false) rs × DistinctRows rs

DistinctRows-append :
    (rows : List (ℕ × Delivery)) (e : ℕ × Delivery)
    → DistinctRows rows
    → All (λ r. collides r e ≡ false) rows
    → DistinctRows (rows ++ e ∷ [])
DistinctRows-append [] e d h = (tt, tt)
DistinctRows-append (r ∷ rows) e d h = (
  All-append (λ x. collides r x ≡ false) rows (e ∷ []) d.0 (h.0, tt),
  DistinctRows-append rows e d.1 h.1,
)

insert_rows-DistinctRows :
    (now j : ℕ) (rs : List Row) (rows : List (ℕ × Delivery)) (next : ℕ)
    → DistinctRows rows
    → DistinctRows (insert_rows now j rs (rows, next)).0
unfolding insert_rows
insert_rows-DistinctRows now j [] rows next h = h
insert_rows-DistinctRows now j (r ∷ rs) rows next h =
    insert_rows-DistinctRows now j rs _ (suc next)
      (one (has_key j (delivery_for next now r) rows) refl)
  where
    one :
        (b : Bool)
        → has_key j (delivery_for next now r) rows ≡ b
        → DistinctRows (if b then rows else rows ++ (j, delivery_for next now r) ∷ [])
    one true e = h
    one false e =
        DistinctRows-append rows (j, delivery_for next now r) h
          (any-All (λ x. x.0 == j && same_key x.1 (delivery_for next now r)) rows e)

-- A change of the rows that keeps their keys.
abbrev KeepsKeys : (ℕ × Delivery → ℕ × Delivery) → Type 0
KeepsKeys g = (a b : ℕ × Delivery) → collides (g a) (g b) ≡ collides a b

map-DistinctRows :
    (g : ℕ × Delivery → ℕ × Delivery) (rows : List (ℕ × Delivery))
    → KeepsKeys g
    → DistinctRows rows
    → DistinctRows (map g rows)
map-DistinctRows g [] k h = tt
map-DistinctRows g (r ∷ rows) k h = (apart rows h.0, map-DistinctRows g rows k h.1)
  where
    apart :
        (es : List (ℕ × Delivery))
        → All (λ e. collides r e ≡ false) es
        → All (λ e. collides (g r) e ≡ false) (map g es)
    apart [] a = tt
    apart (e ∷ es) a = (subst (λ b. b ≡ false) (sym (k r e)) a.0, apart es a.1)

skipped-collides :
    (code : String) (x y : Bool) (a b : ℕ × Delivery)
    → collides (if x then (a.0, skipped code a.1) else a) (if y then (b.0, skipped code b.1) else b)
      ≡ collides a b
skipped-collides code true true a b = refl
skipped-collides code true false a b = refl
skipped-collides code false true a b = refl
skipped-collides code false false a b = refl

skip_pending-DistinctRows :
    (code : String) (j : ℕ) (rows : List (ℕ × Delivery))
    → DistinctRows rows
    → DistinctRows (skip_pending code j rows)
skip_pending-DistinctRows code j rows h =
    map-DistinctRows (λ r. if r.0 == j && is_pending r.1.status then (r.0, skipped code r.1) else r)
      rows
      (λ a b.
        skipped-collides code (a.0 == j && is_pending a.1.status)
          (b.0 == j && is_pending b.1.status) a b)
      h

abbrev Keeps : Materialized → Type 0
Keeps m = DistinctRows m.db.deliveries

fill-DistinctRows :
    (s : RoundSettings) (now : ℕ) (job : PushJob) (db : PushDb) (rows : List Row) (starts : Starts)
    → DistinctRows db.deliveries
    → Keeps (fill s now job db rows starts)
unfolding fill
fill-DistinctRows s now job db rows starts h =
    let first_round = not (has_deliveries job.id db.deliveries) in
    let values = filter (chosen job starts) rows in
    elim (Bool-cases (first_round && waits_for_countdown s now job starts)) [
      | inl waits ↦ rw waits h
      | inr goes ↦ elim (Bool-cases (any (λ r. true) values)) [
        | inl some_row ↦ rw goes (
            rw some_row
              (insert_rows-DistinctRows now job.id values db.deliveries db.next_delivery h))
        | inr none_row ↦ elim (Bool-cases (first_round && any (is_left_out job starts) rows)) [
          | inl out ↦ rw goes (rw none_row (rw out h))
          | inr in_all ↦ rw goes (rw none_row (rw in_all h))
        ]
      ]
    ]

end_round-DistinctRows :
    (now : ℕ) (job : PushJob) (db : PushDb) (e : Ending)
    → DistinctRows db.deliveries
    → Keeps (end_round now job db e)
unfolding end_round
end_round-DistinctRows now job db to_delivery h = h
end_round-DistinctRows now job db (cancels error) h = h
end_round-DistinctRows now job db (fails_with error) h = h
end_round-DistinctRows now job db (skips_pending error) h =
    skip_pending-DistinctRows error job.id db.deliveries h
end_round-DistinctRows now job db (waits_until at) h = h

materialize_step-DistinctRows :
    (f : Facts) (s : RoundSettings) (now : ℕ) (db : PushDb) (job : PushJob) (step : Step)
    → DistinctRows db.deliveries
    → Keeps (materialize_step f s now db job step)
unfolding reach
materialize_step-DistinctRows f s now db job (ends e) h = end_round-DistinctRows now job db e h
materialize_step-DistinctRows f s now db job (onward next) h =
    let rows = token_rows now next db.tokens db.devices in
    fill-DistinctRows s now next db rows (starts_for f s now next db rows) h

-- However often a job is materialized, and whatever tokens are added in between, no two deliveries
-- of a job share a token and a scope.
pub materialize-DistinctRows :
    (f : Facts) (s : RoundSettings) (now : ℕ) (db : PushDb) (job : PushJob)
    → DistinctRows db.deliveries
    → DistinctRows (materialize f s now db job).db.deliveries
unfolding materialize
materialize-DistinctRows f s now db job h =
    materialize_step-DistinctRows f s now db job (guards f now db job) h
