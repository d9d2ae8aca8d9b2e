-- ===== src/SyncJobs/Window/Resume.antt =====
-- When a window that holds Moodle back ends.
use tigerduck_backend.Prelude.{
  ℕ, ◌+◌, ◌-◌, ◌%◌, ◌≤◌, ◌<◌, ◌≡◌, refl, arith, true, false, none, some, leb, if◌then◌else◌,
  Bool-cases, inl, inr, ◌⊎◌, leb→le, subst,
}
use tigerduck_backend.SyncJobs.Window.{day, in_window, whole_minutes, check_maintenance_window}

-- A window whose end is a whole minute of the day.
pub record IsWindow (start end_at : ℕ) : Type 0 where
  pub start_in_day : start < day
  pub end_in_day : end_at < day
  pub whole : whole_minutes end_at ≡ end_at

-- The time of day that a window ends is not in it.
in_window-end : (start end_at : ℕ) → in_window start end_at end_at ≡ false
unfolding in_window
in_window-end start end_at = ground arith

-- A time that ends the hold: later, within a day, at the window's end and so out of the window.
pub record IsResume (start end_at now resume_at : ℕ) : Type 0 where
  pub later : now < resume_at
  pub within_day : resume_at ≤ now + day
  pub at_end : resume_at % day ≡ end_at
  pub out : in_window start end_at (resume_at % day) ≡ false

end_dt-IsResume :
    (start end_at now : ℕ)
    → IsWindow start end_at
    → let end_dt = now - now % day + whole_minutes end_at in
      IsResume start end_at now (if leb end_dt now then end_dt + day else end_dt)
end_dt-IsResume start end_at now w =
    rw w.whole (elim (Bool-cases (leb (now - now % day + end_at) now)) [
      | inl past ↦ rw past (record {
        later = omega (arith, w.end_in_day);
        within_day = omega (arith, leb→le (now - now % day + end_at) now past);
        at_end = omega (arith, w.end_in_day);
        out =
            subst (λ t. in_window start end_at t ≡ false) {x = end_at} (omega (arith, w.end_in_day))
              (in_window-end start end_at);
      })
      | inr ahead ↦ rw ahead (record {
        later = ground (arith, ahead);
        within_day = omega (arith, w.end_in_day);
        at_end = omega (arith, w.end_in_day);
        out =
            subst (λ t. in_window start end_at t ≡ false) {x = end_at} (omega (arith, w.end_in_day))
              (in_window-end start end_at);
      })
    ])

-- The window answers `none` exactly outside it. Inside, the answer is a time later than now and at most
-- a day away, at which the clock reads the window's end and is out of the window, also for a window
-- that wraps past midnight. Its start and end are times of a day, and the end is a whole minute.
pub check_maintenance_window_outcome :
    (start end_at now : ℕ)
    → IsWindow start end_at
    → ((check_maintenance_window start end_at now ≡ none)
        × (in_window start end_at (now % day) ≡ false))
      ⊎ ((in_window start end_at (now % day) ≡ true)
          × (t : ℕ) × (check_maintenance_window start end_at now ≡ some t)
          × IsResume start end_at now t)
unfolding check_maintenance_window
check_maintenance_window_outcome start end_at now w =
    elim (Bool-cases (in_window start end_at (now % day))) [
      | inl inside ↦ inr (inside, _, rw inside refl, end_dt-IsResume start end_at now w)
      | inr out ↦ inl (rw out refl, out)
    ]
