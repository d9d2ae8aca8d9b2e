-- ===== src/Push/Versions/Parse.antt =====
-- The parser of app versions against the versions as they are written.
use tigerduck_backend.Prelude.{
  ℕ, ◌+◌, ◌-◌, ◌*◌, ◌≡◌, ◌∙◌, refl, ap, arith, true, false, ◌&&◌, ◌||◌, not, none, some, List, [],
  ◌∷◌, ◌++◌, map, ◌==◌, All, String,
}
use tigerduck_backend.Push.Deliver.{is_space}
use tigerduck_backend.Push.Versions.{
  is_digit, parse_parts, strip_front, parse_front, parse_app_version, version_lt,
  schedules_reminders_locally, backend_reminders_min_version, is_apple_handheld,
}

-- A number that is written on from `n`.
abbrev pub read : ℕ → List ℕ → ℕ
read n [] = n
read n (c ∷ cs) = read (n * 10 + (c - 48)) cs

-- A part as it is written: its first digit and the rest of them.
pub record Part : Type 0 where
  pub first : ℕ
  pub rest : List ℕ

abbrev pub IsPart : Part → Type 0
IsPart p = (is_digit p.first ≡ true) × All (λ c. is_digit c ≡ true) p.rest

abbrev pub value : Part → ℕ
value p = read (p.first - 48) p.rest

-- The parts after the first, each behind a dot, and what follows them.
abbrev pub dotted : List Part → List ℕ → List ℕ
dotted [] tail = tail
dotted (p ∷ ps) tail = 46 ∷ p.first ∷ (p.rest ++ dotted ps tail)

-- A tail that does not go on with the version: no digit, and no dot before one.
abbrev pub Ends : List ℕ → Type 0
Ends [] = Unit
Ends (c ∷ []) = is_digit c ≡ false
Ends (c ∷ d ∷ cs) = (is_digit c ≡ false) × ((c == 46 && is_digit d) ≡ false)

parse_parts-end : (n : ℕ) (tail : List ℕ) → Ends tail → parse_parts n tail ≡ n ∷ []
unfolding parse_parts
parse_parts-end n [] h = refl
parse_parts-end n (c ∷ []) h = rw h refl
parse_parts-end n (c ∷ d ∷ cs) h = rw (h.0, h.1) refl

parse_parts-digit :
    (n c : ℕ) (cs : List ℕ)
    → is_digit c ≡ true
    → parse_parts n (c ∷ cs) ≡ parse_parts (n * 10 + (c - 48)) cs
unfolding parse_parts
parse_parts-digit n c [] h = rw h refl
parse_parts-digit n c (d ∷ cs) h = rw h refl

parse_parts-dot :
    (n d : ℕ) (cs : List ℕ)
    → is_digit d ≡ true
    → parse_parts n (46 ∷ d ∷ cs) ≡ n ∷ parse_parts (d - 48) cs
unfolding parse_parts
parse_parts-dot n d cs h = rw h refl

parse_parts-digits :
    (n : ℕ) (ds rest : List ℕ)
    → All (λ c. is_digit c ≡ true) ds
    → parse_parts n (ds ++ rest) ≡ parse_parts (read n ds) rest
parse_parts-digits n [] rest h = refl
parse_parts-digits n (c ∷ ds) rest h =
    parse_parts-digit n c (ds ++ rest) h.0 ∙ parse_parts-digits (n * 10 + (c - 48)) ds rest h.1

parse_parts-dotted :
    (n : ℕ) (ps : List Part) (tail : List ℕ)
    → All IsPart ps
    → Ends tail
    → parse_parts n (dotted ps tail) ≡ n ∷ map value ps
parse_parts-dotted n [] tail h e = parse_parts-end n tail e
parse_parts-dotted n (p ∷ ps) tail h e =
    parse_parts-dot n p.first (p.rest ++ dotted ps tail) h.0.0
    ∙ ap (λ r. n ∷ r)
        (parse_parts-digits (p.first - 48) p.rest (dotted ps tail) h.0.1
          ∙ parse_parts-dotted (value p) ps tail h.1 e)

-- A version as it is written: blanks, the parts with dots between them, and a tail.
abbrev pub written : List ℕ → Part → List Part → List ℕ → List ℕ
written blanks p ps tail = blanks ++ (p.first ∷ (p.rest ++ dotted ps tail))

strip_front-blanks :
    (blanks cs : List ℕ)
    → All (λ c. is_space c ≡ true) blanks
    → strip_front (blanks ++ cs) ≡ strip_front cs
unfolding strip_front
strip_front-blanks [] cs h = refl
strip_front-blanks (b ∷ bs) cs h = rw h.0 (strip_front-blanks bs cs h.1)

digit_no_space : (c : ℕ) → is_digit c ≡ true → is_space c ≡ false
digit_no_space c h = ground arith

strip_front-digit : (c : ℕ) (cs : List ℕ) → is_digit c ≡ true → strip_front (c ∷ cs) ≡ c ∷ cs
unfolding strip_front
strip_front-digit c cs h = rw (digit_no_space c h) refl

-- A version is read back as the numbers it is written with, whatever blanks stand before it and
-- whatever build or flavor tag comes after it.
pub parse_app_version-written :
    (blanks : List ℕ) (p : Part) (ps : List Part) (tail : List ℕ)
    → All (λ c. is_space c ≡ true) blanks
    → IsPart p
    → All IsPart ps
    → Ends tail
    → parse_app_version (some (written blanks p ps tail)) ≡ some (map value (p ∷ ps))
unfolding parse_app_version
parse_app_version-written blanks p ps tail b hp hps e =
    let text = p.first ∷ (p.rest ++ dotted ps tail) in
    ap parse_front
      (strip_front-blanks blanks text b ∙ strip_front-digit p.first (p.rest ++ dotted ps tail) hp.0)
    ∙ front
  where
    front : parse_front (p.first ∷ (p.rest ++ dotted ps tail)) ≡ some (map value (p ∷ ps))
    front =
        let digits = parse_parts-digits (p.first - 48) p.rest (dotted ps tail) hp.1 in
        let rest = parse_parts-dotted (value p) ps tail hps e in rw hp.0 (ap some (digits ∙ rest))

-- An iPhone or iPad that reports a version written so is sent assignment reminders exactly when the
-- version is at least 2.1.0; a device that reports none, or that is no iPhone or iPad, is not.
pub schedules_reminders_locally-written :
    (platform : String) (blanks : List ℕ) (p : Part) (ps : List Part) (tail : List ℕ)
    → All (λ c. is_space c ≡ true) blanks
    → IsPart p
    → All IsPart ps
    → Ends tail
    → (schedules_reminders_locally platform (some (written blanks p ps tail)) ≡ (
        not (is_apple_handheld platform)
        || version_lt (map value (p ∷ ps)) backend_reminders_min_version))
      × (schedules_reminders_locally platform none ≡ true)
unfolding schedules_reminders_locally
schedules_reminders_locally-written platform blanks p ps tail b hp hps e =
    (rw (parse_app_version-written blanks p ps tail b hp hps e) refl, ground arith)
