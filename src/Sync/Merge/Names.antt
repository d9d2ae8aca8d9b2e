-- ===== src/Sync/Merge/Names.antt =====
-- Each locale of a course name is a field of its own.
use tigerduck_backend.Prelude.{
  ℕ, ◌≤◌, ◌≡◌, ◌⊎◌, refl, Bool, false, not, ◌&&◌, Option, none, some, String, arith, eq_iff, str_eq,
  get_or, if◌then◌else◌, Bool-cases, inl, inr,
}
use tigerduck_backend.Sync.Merge.{
  NameOverride, empty, apply_course_name, set_locale_less_name, clamp_ts, max_clock_skew, loses,
  name_differs, latest,
}

-- The name and the stamp that a locale has.
abbrev pub name_in : String → NameOverride → Option String
name_in locale o = (get_or o.custom_names empty) locale

abbrev pub stamp_in : String → NameOverride → Option ℕ
stamp_in locale o = (get_or o.custom_names_updated_at empty) locale

same_name : (old : Option String) (name : String) → name_differs old name ≡ false → old ≡ some name
same_name none name h = cc
same_name (some old) name h = ground (arith, eq_iff old name)

module _ (o : NameOverride) (locale name : String) (client_ts now : ℕ) (device_id : Option ℕ) where
  abbrev named : NameOverride × Bool
  named = apply_course_name o locale name client_ts device_id now

  abbrev effective : ℕ
  effective = clamp_ts client_ts now max_clock_skew

  -- In the edited locale the name and the stamp move exactly when the stamp beats the stored one;
  -- every other locale keeps both.
  pub apply_course_name-locale :
      (j : String)
      → let wins = str_eq locale j && not (loses effective (stamp_in locale o)) in
        (name_in j named.0 ≡ (if wins then some name else name_in j o))
        × (stamp_in j named.0 ≡ (if wins then some effective else stamp_in j o))
  unfolding apply_course_name
  apply_course_name-locale j = elim (Bool-cases (loses effective (stamp_in locale o))) [
    | inl lost ↦ rw lost (elim (Bool-cases (str_eq locale j)) [
      | inl e ↦ rw e (refl, refl)
      | inr e ↦ rw e (refl, refl)
    ])
    | inr won ↦ rw won (elim (Bool-cases (name_differs (name_in locale o) name)) [
      | inl new ↦ rw new (ground arith, ground arith)
      | inr old ↦
          rw old
            (ground (arith, eq_iff locale j, same_name (name_in locale o) name old), ground arith)
    ])
  ]

  apply_course_name-stamps :
      (named.0.custom_name_updated_at ≡ (
        if loses effective (stamp_in locale o)
        then o.custom_name_updated_at
        else latest o.custom_name_updated_at effective))
  unfolding apply_course_name
  apply_course_name-stamps = ground arith

abbrev pub AtMost : ℕ → Option ℕ → Type 0
AtMost t none = ⊥
AtMost t (some p) = t ≤ p

-- `custom_name_updated_at` is no earlier than any locale's stamp
pub record IsLatest (o : NameOverride) : Type 0 where
  pub at_locale : (j : String) (t : ℕ) → stamp_in j o ≡ some t → AtMost t o.custom_name_updated_at

AtMost-latest : (t e : ℕ) (p : Option ℕ) → (t ≡ e) ⊎ AtMost t p → AtMost t (latest p e)
AtMost-latest t e none (inl q) = omega arith
AtMost-latest t e none (inr h) = absurd h
AtMost-latest t e (some p) (inl q) = ground arith
AtMost-latest t e (some p) (inr h) = ground arith

-- An edit keeps `custom_name_updated_at` at or past every locale's stamp.
pub apply_course_name-IsLatest :
    (o : NameOverride) (locale name : String) (client_ts now : ℕ) (device_id : Option ℕ)
    → IsLatest o
    → IsLatest (apply_course_name o locale name client_ts device_id now).0
apply_course_name-IsLatest o locale name client_ts now device_id h = record {
  at_locale = λ j t stored.
      at j t stored (apply_course_name-locale o locale name client_ts now device_id j).1;
}
  where
    at :
        (j : String) (t : ℕ)
        → stamp_in j (apply_course_name o locale name client_ts device_id now).0 ≡ some t
        → stamp_in j (apply_course_name o locale name client_ts device_id now).0 ≡ (
            if str_eq locale j
              && not (loses (clamp_ts client_ts now max_clock_skew) (stamp_in locale o))
            then some (clamp_ts client_ts now max_clock_skew)
            else stamp_in j o)
        → AtMost t
            (apply_course_name o locale name client_ts device_id now).0.custom_name_updated_at
    at j t stored eq =
        rw (apply_course_name-stamps o locale name client_ts now device_id)
          (elim (Bool-cases (loses (clamp_ts client_ts now max_clock_skew) (stamp_in locale o))) [
            | inl lost ↦ rw lost (h.at_locale j t (ground (arith, eq)))
            | inr won ↦ rw won (
                AtMost-latest t (clamp_ts client_ts now max_clock_skew) o.custom_name_updated_at
                  (elim (Bool-cases (str_eq locale j)) [
                    | inl here ↦ inl (ground (arith, eq))
                    | inr there ↦ inr (h.at_locale j t (ground (arith, eq)))
                  ]))
          ])

-- A name with no locale is the name in both locales, at its stamp, when that beats both stored ones.
pub set_locale_less_name-both :
    (o : NameOverride) (name : Option String) (client_ts now : ℕ) (device_id : Option ℕ)
    (j : String)
    → (j ≡ "zh") ⊎ (j ≡ "en")
    → loses (clamp_ts client_ts now max_clock_skew) (stamp_in j o) ≡ false
    → let o' = (set_locale_less_name o name client_ts device_id now).0 in
      (name_in j o' ≡ some (get_or name ""))
      × (stamp_in j o' ≡ some (clamp_ts client_ts now max_clock_skew))
unfolding set_locale_less_name
set_locale_less_name-both o name client_ts now device_id j (inl zh) wins =
    let n : String = get_or name "" in
    let first = apply_course_name-locale o "zh" n client_ts now device_id "zh" in
    let mid = (apply_course_name o "zh" n client_ts device_id now).0 in
    let second = apply_course_name-locale mid "en" n client_ts now device_id "zh" in
    rw zh (ground (arith, first.0, second.0, zh), ground (arith, first.1, second.1, zh))
set_locale_less_name-both o name client_ts now device_id j (inr en) wins =
    let n : String = get_or name "" in
    let first = apply_course_name-locale o "zh" n client_ts now device_id "en" in
    let mid = (apply_course_name o "zh" n client_ts device_id now).0 in
    let second = apply_course_name-locale mid "en" n client_ts now device_id "en" in
    rw en (
      ground (arith, first.0, first.1, second.0, en),
      ground (arith, first.0, first.1, second.1, en),
    )
