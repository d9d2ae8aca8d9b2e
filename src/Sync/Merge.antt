-- ===== src/Sync/Merge.antt =====
-- server/sync/merge.py: per-field last-writer-wins. A time is a clock value, the microseconds since
-- the Unix epoch, so `to_clock` and `from_clock` are the identity; a device is a number.
pub mod Edits
pub mod Names
use tigerduck_backend.Prelude.{
  ℕ, zero, suc, ◌+◌, ◌-◌, ◌*◌, ◌/◌, ◌≡◌, Bool, true, false, ◌||◌, not, Option, none, some, String,
  min, max, ltb, leb, if◌then◌else◌, get_or, str_eq,
}
use mathlib.Core.Bool.{decide}

abbrev pub max_clock_skew : ℕ
max_clock_skew = 5_000_000

abbrev pub max_edit_age : ℕ
max_edit_age = 365 * 86_400_000_000

-- One millisecond.
abbrev pub ms : ℕ
ms = 1000

-- `negsuc n` is -(n + 1).
pub data ℤ : Type 0 where
  pos : ℕ → ℤ
  negsuc : ℕ → ℤ

-- max(age_ms, 0)
abbrev pub floor_zero : ℤ → ℕ
floor_zero (pos n) = n
floor_zero (negsuc _) = 0

unfoldable pub clamp_ts : ℕ → ℕ → ℕ → ℕ
clamp_ts client_ts now skew = min client_ts (now + skew)

pub data Stamp : Type 0 where
  at : ℕ → Stamp
  clock_ahead : Stamp

-- The age is held to `max_edit_age`, so `now - age` stays past the epoch for every `now` from 1971
-- on; 409 `clock_ahead` is the constructor of that name.
unfoldable pub edit_time : Option ℕ → ℕ → Option ℤ → Stamp
edit_time clock now (some age_ms) = at (now - min (floor_zero age_ms) (max_edit_age / ms) * ms)
edit_time none now none = at now
edit_time (some clock) now none = if ltb (now + max_clock_skew) clock then clock_ahead else at clock

-- 422 `hlc_required` is `false`.
unfoldable pub require_stamp : Bool → Option ℕ → Option ℤ → Bool
require_stamp true none none = false
require_stamp _ _ _ = true

-- The triplet `<field>`, `<field>_updated_at`, `<field>_device_id`.
pub record Field {ℓ} (A : Type ℓ) : Type ℓ where
  pub value : A
  pub updated_at : Option ℕ
  pub device_id : Option ℕ

-- The clamped stamp does not beat the stored one.
abbrev pub loses : ℕ → Option ℕ → Bool
loses effective none = false
loses effective (some stored) = leb effective stored

module _ {ℓ} {A : Type ℓ} (same : Discrete A) where
  -- `has_device` is `hasattr(entity, device_field)`.
  unfoldable pub apply_field : Bool → Field A → A → ℕ → Option ℕ → ℕ → Field A × Bool
  unfolding clamp_ts
  apply_field has_device f value client_ts device_id now =
      let effective = clamp_ts client_ts now max_clock_skew in
      if loses effective f.updated_at then (f, false) else (
        record {
          value = value;
          updated_at = some effective;
          device_id = if has_device then device_id else f.device_id;
        },
        not (decide (same f.value value)),
      )

abbrev pub Dict {ℓ} : Type ℓ → Type ℓ
Dict V = String → Option V

abbrev pub set_key {ℓ} : {V : Type ℓ} → String → V → Dict V → Dict V
set_key k v d j = if str_eq k j then some v else d j

-- The columns of a course override that hold its name in each locale.
pub record NameOverride : Type 0 where
  pub custom_names : Option (Dict String)
  pub custom_names_updated_at : Option (Dict ℕ)
  pub custom_name_updated_at : Option ℕ
  pub custom_name_device_id : Option ℕ

abbrev pub empty {ℓ} : {V : Type ℓ} → Dict V
empty _ = none

-- names.get(locale) != name
abbrev pub name_differs : Option String → String → Bool
name_differs none name = true
name_differs (some old) name = not (str_eq old name)

-- The latest stamp of any locale.
abbrev pub latest : Option ℕ → ℕ → Option ℕ
latest none effective = some effective
latest (some previous) effective = if ltb previous effective then some effective else some previous

unfoldable pub apply_course_name :
    NameOverride → String → String → ℕ → Option ℕ → ℕ → NameOverride × Bool
unfolding clamp_ts
apply_course_name o locale name client_ts device_id now =
    let effective = clamp_ts client_ts now max_clock_skew in
    let stamps = get_or o.custom_names_updated_at empty in
    let names = get_or o.custom_names empty in
    let changed = name_differs (names locale) name in
    if loses effective (stamps locale) then (o, false) else (
      record {
        custom_names = if changed then some (set_key locale name names) else o.custom_names;
        custom_names_updated_at = some (set_key locale effective stamps);
        custom_name_updated_at = latest o.custom_name_updated_at effective;
        custom_name_device_id = device_id;
      },
      changed,
    )

unfoldable pub set_locale_less_name :
    NameOverride → Option String → ℕ → Option ℕ → ℕ → NameOverride × Bool
set_locale_less_name o name client_ts device_id now =
    let (zh, changed_zh) = apply_course_name o "zh" (get_or name "") client_ts device_id now in
    let (en, changed_en) = apply_course_name zh "en" (get_or name "") client_ts device_id now in
    (en, changed_zh || changed_en)
