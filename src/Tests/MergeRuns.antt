-- ===== src/Tests/MergeRuns.antt =====
-- server/sync/merge.py on concrete edits.
use native.Mathlib.Omega.{arith}
use native.Mathlib.Decide.{ℕ_discrete}
use tigerduck_backend.Prelude.{
  ℕ, ◌<◌, ◌+◌, ◌≡◌, ◌↔◌, refl, inr, true, not, ◌&&◌, Option, none, some, [], ◌∷◌, ◌++◌, str_eq,
  if◌then◌else◌, get_or,
}
use tigerduck_backend.Sync.Merge.{
  ℤ, clock_ahead, edit_time, max_clock_skew, Field, NameOverride, clamp_ts, loses,
  apply_course_name, set_locale_less_name,
}
use tigerduck_backend.Sync.Merge.Edits.{Edit, apply_edits, won, latest_wins, edit_time-clock_ahead}
use tigerduck_backend.Sync.Merge.Names.{
  name_in, stamp_in, IsLatest, apply_course_name-locale, apply_course_name-IsLatest,
  set_locale_less_name-both,
}

abbrev blank : Field ℕ
blank = record { value = 0; updated_at = none; device_id = none }

-- The edit made at the time `t` arrives at 100.
abbrev made : ℕ → ℕ → Edit ℕ
made v t = record { value = v; client_ts = t; device_id = some v; now = 100 }

latest_wins_example :
    apply_edits ℕ_discrete true blank ((made 7 20 ∷ []) ++ made 8 40 ∷ made 9 30 ∷ [])
    ≡ won ℕ_discrete true (made 8 40) blank
unfolding clamp_ts
latest_wins_example =
    latest_wins ℕ_discrete true (made 7 20 ∷ []) (made 9 30 ∷ []) (made 8 40) blank (omega arith) tt
      (omega arith)

edit_time-clock_ahead_example : (edit_time (some 6_000_000) 0 none ≡ clock_ahead) ↔ (
    (◌≡◌ {A = Option ℤ} none none)
    × ((c : ℕ) × (some 6_000_000 ≡ some c) × (0 + max_clock_skew < c)))
edit_time-clock_ahead_example = edit_time-clock_ahead (some 6_000_000) 0 none

abbrev unnamed : NameOverride
unnamed = record {
  custom_names = none;
  custom_names_updated_at = none;
  custom_name_updated_at = none;
  custom_name_device_id = none;
}

apply_course_name-locale_example :
    let wins =
      str_eq "zh" "zh" && not (loses (clamp_ts 5 9 max_clock_skew) (stamp_in "zh" unnamed)) in
    let named = apply_course_name unnamed "zh" "X" 5 none 9 in
    (name_in "zh" named.0 ≡ (if wins then some "X" else name_in "zh" unnamed))
    × (stamp_in "zh" named.0
        ≡ (if wins then some (clamp_ts 5 9 max_clock_skew) else stamp_in "zh" unnamed))
apply_course_name-locale_example = apply_course_name-locale unnamed "zh" "X" 5 9 none "zh"

unnamed-IsLatest : IsLatest unnamed
unnamed-IsLatest = record { at_locale = λ j t e. absurd (cc) }

apply_course_name-IsLatest_example : IsLatest (apply_course_name unnamed "zh" "X" 5 none 9).0
apply_course_name-IsLatest_example =
    apply_course_name-IsLatest unnamed "zh" "X" 5 9 none unnamed-IsLatest

set_locale_less_name-both_example :
    let o' = (set_locale_less_name unnamed (some "X") 5 none 9).0 in
    (name_in "en" o' ≡ some (get_or (some "X") ""))
    × (stamp_in "en" o' ≡ some (clamp_ts 5 9 max_clock_skew))
set_locale_less_name-both_example =
    set_locale_less_name-both unnamed (some "X") 5 9 none "en" (inr refl) refl
