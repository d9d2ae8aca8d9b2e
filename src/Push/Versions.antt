-- ===== src/Push/Versions.antt =====
-- server/push/client_versions.py: which apps schedule their assignment reminders themselves. A text
-- is the list of its codes, and a digit one of ASCII.
use tigerduck_backend.Prelude.{
  ℕ, ◌+◌, ◌-◌, ◌*◌, Bool, true, false, ◌&&◌, ◌||◌, not, Option, none, some, List, [], ◌∷◌, String,
  str_eq, leb, ltb, ◌==◌, if◌then◌else◌,
}
use tigerduck_backend.Push.Deliver.{is_space}
use tigerduck_backend.Push.Provider.{codes}
pub mod Parse

abbrev pub is_digit : ℕ → Bool
is_digit c = leb 48 c && leb c 57

-- The number read so far, on through the dotted integers that lead the text.
unfoldable pub parse_parts : ℕ → List ℕ → List ℕ
parse_parts n [] = n ∷ []
parse_parts n (c ∷ []) = if is_digit c then (n * 10 + (c - 48)) ∷ [] else n ∷ []
parse_parts n (c ∷ d ∷ cs) =
    let on = parse_parts (n * 10 + (c - 48)) (d ∷ cs) in
    let next = n ∷ parse_parts (d - 48) cs in
    if is_digit c then on else if c == 46 && is_digit d then next else n ∷ []

-- `raw.strip()`, of which the regular expression sees only the front
unfoldable pub strip_front : List ℕ → List ℕ
strip_front [] = []
strip_front (c ∷ cs) = let rest = strip_front cs in if is_space c then rest else c ∷ cs

abbrev pub parse_front : List ℕ → Option (List ℕ)
parse_front [] = none
parse_front (c ∷ cs) = if is_digit c then some (parse_parts (c - 48) cs) else none

unfoldable pub parse_app_version : Option (List ℕ) → Option (List ℕ)
unfolding parse_parts strip_front
parse_app_version none = none
parse_app_version (some raw) = parse_front (strip_front raw)

-- The order of tuples.
unfoldable pub version_lt : List ℕ → List ℕ → Bool
version_lt [] [] = false
version_lt [] (y ∷ ys) = true
version_lt (x ∷ xs) [] = false
version_lt (x ∷ xs) (y ∷ ys) = ltb x y || (x == y && version_lt xs ys)

abbrev pub backend_reminders_min_version : List ℕ
backend_reminders_min_version = 2 ∷ 1 ∷ 0 ∷ []

abbrev pub is_apple_handheld : String → Bool
is_apple_handheld platform = str_eq platform "ios" || str_eq platform "ipados"

abbrev pub before_backend_reminders : Option (List ℕ) → Bool
before_backend_reminders none = true
before_backend_reminders (some v) = version_lt v backend_reminders_min_version

unfoldable pub schedules_reminders_locally : String → Option (List ℕ) → Bool
unfolding parse_app_version version_lt
schedules_reminders_locally platform app_version =
    not (is_apple_handheld platform) || before_backend_reminders (parse_app_version app_version)
