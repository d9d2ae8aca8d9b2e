-- ===== src/Calendar.antt =====
-- server/academic_calendar/terms.py, and `_classes_quiet` of server/push/pipeline.py: the days on
-- which classes meet. A day is its number; a zone's clock is read outside.
pub mod Current
use tigerduck_backend.Prelude.{
  ℕ, Bool, true, false, ◌&&◌, ◌||◌, not, Option, none, some, List, [], ◌∷◌, map, filter, any, take,
  String, leb, ltb, ◌==◌, if◌then◌else◌,
}
use tigerduck_backend.Prelude.Sorting.{order_by}

-- A row of semester_terms. `code_rank` is the place of the code in the order of the codes.
pub record SemesterTerm : Type 0 where
  pub code : String
  pub code_rank : ℕ
  pub start_date : ℕ
  pub end_date : ℕ

pub record Holiday : Type 0 where
  pub id : ℕ
  pub start_date : ℕ
  pub end_date : ℕ

-- A row of user_holiday_overrides.
pub record HolidayOverride : Type 0 where
  pub user_id : ℕ
  pub holiday_id : ℕ
  pub notify : Bool

-- [0-9]{3}[12H]
abbrev pub is_digit_code : ℕ → Bool
is_digit_code c = leb 48 c && leb c 57

unfoldable pub is_term_code : List ℕ → Bool
is_term_code (a ∷ b ∷ c ∷ d ∷ []) =
    is_digit_code a && (is_digit_code b && (is_digit_code c && (d == 49 || (d == 50 || d == 72))))
is_term_code _ = false

-- The later of two terms in ORDER BY start_date DESC, code DESC: of equal ones, the first.
abbrev pub later_term : SemesterTerm → SemesterTerm → SemesterTerm
later_term a b =
    if ltb a.start_date b.start_date
      || (a.start_date == b.start_date && ltb a.code_rank b.code_rank)
    then b
    else a

-- The earlier of two in ORDER BY start_date, code DESC.
abbrev pub earlier_term : SemesterTerm → SemesterTerm → SemesterTerm
earlier_term a b =
    if ltb b.start_date a.start_date
      || (a.start_date == b.start_date && ltb a.code_rank b.code_rank)
    then b
    else a

-- The first row of an ORDER BY, by a choice between two rows.
abbrev pub first_by :
    (SemesterTerm → SemesterTerm → SemesterTerm) → List SemesterTerm → Option SemesterTerm
first_by choose [] = none
first_by choose (t ∷ ts) = elim (first_by choose ts) [ none ↦ some t | some u ↦ some (choose t u) ]

abbrev pub or_else : Option SemesterTerm → Option SemesterTerm → Option SemesterTerm
or_else (some t) other = some t
or_else none other = other

unfoldable pub current_term : ℕ → List SemesterTerm → Option SemesterTerm
current_term today terms =
    or_else (first_by later_term (filter (λ t. leb t.start_date today) terms))
      (first_by earlier_term terms)

abbrev pub runs_on : ℕ → SemesterTerm → Bool
runs_on day t = leb t.start_date day && leb day t.end_date

unfoldable pub outside_term : ℕ → List SemesterTerm → Bool
outside_term day [] = false
outside_term day (t ∷ ts) = not (any (runs_on day) (t ∷ ts))

-- Why no class meets for the user on the day.
unfoldable pub classes_quiet :
    ℕ → ℕ → List SemesterTerm → List Holiday → List HolidayOverride → Option String
unfolding outside_term
classes_quiet user day terms holidays overrides =
    let covering = filter (λ h. leb h.start_date day && leb day h.end_date) holidays in
    let opted_in =
      any (λ o. o.user_id == user && (o.notify && any (λ h. h.id == o.holiday_id) covering))
        overrides in
    if outside_term day terms
    then some "outside_term"
    else if any (λ h. true) covering && not opted_in
    then some "holiday"
    else none
