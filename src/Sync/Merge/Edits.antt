-- ===== src/Sync/Merge/Edits.antt =====
-- Edits of one field: the latest stamp wins in any order, and a replay changes nothing.
use tigerduck_backend.Prelude.{
  ℕ, ◌+◌, ◌<◌, ◌≤◌, ◌≡◌, refl, ◌∙◌, ap, ◌↔◌, Bool-cases, inl, inr, le→leb, lt→ltb, Bool, false, not,
  Option, none, some, List, [], ◌∷◌, ◌++◌, arith, if◌then◌else◌, All,
}
use mathlib.Core.Bool.{decide}
use tigerduck_backend.Sync.Merge.{
  ℤ, clock_ahead, edit_time, clamp_ts, max_clock_skew, Field, loses, apply_field,
}

-- An edit as it reaches the server: its `now` is its own arrival.
pub record Edit {ℓ} (A : Type ℓ) : Type ℓ where
  pub value : A
  pub client_ts : ℕ
  pub device_id : Option ℕ
  pub now : ℕ

abbrev pub stamp {ℓ} : {A : Type ℓ} → Edit A → ℕ
stamp e = clamp_ts e.client_ts e.now max_clock_skew

-- `s` is later than the stored stamp
abbrev pub After : ℕ → Option ℕ → Type 0
After s none = Unit
After s (some t) = t < s

module _ {ℓ} {A : Type ℓ} (same : Discrete A) (has_device : Bool) where
  unfoldable pub apply_edits : Field A → List (Edit A) → Field A
  apply_edits f [] = f
  apply_edits f (e ∷ es) =
      apply_edits (apply_field same has_device f e.value e.client_ts e.device_id e.now).0 es

  abbrev pub won : Edit A → Field A → Field A
  won e f = record {
    value = e.value;
    updated_at = some (stamp e);
    device_id = if has_device then e.device_id else f.device_id;
  }

  abbrev applied : Field A → Edit A → Field A × Bool
  applied f e = apply_field same has_device f e.value e.client_ts e.device_id e.now

  -- an edit no later than the stored stamp changes nothing, so a replay changes nothing
  pub apply_field_lost :
      (f : Field A) (e : Edit A) (s : ℕ)
      → f.updated_at ≡ some s
      → stamp e ≤ s
      → applied f e ≡ (f, false)
  unfolding apply_field
  apply_field_lost f e s stored le = rw stored (rw (le→leb (stamp e) s le))

  loses-false : (s : ℕ) (o : Option ℕ) → After s o → loses s o ≡ false
  loses-false s none h = refl
  loses-false s (some t) h = ground arith

  pub apply_field_won :
      (f : Field A) (e : Edit A)
      → After (stamp e) f.updated_at
      → applied f e ≡ (won e f, not (decide (same f.value e.value)))
  unfolding apply_field
  apply_field_won f e h = rw (loses-false (stamp e) f.updated_at h)

  apply_edits_kept :
      (es : List (Edit A)) (f : Field A) (s : ℕ)
      → f.updated_at ≡ some s
      → All (λ d. stamp d ≤ s) es
      → apply_edits f es ≡ f
  unfolding apply_edits
  apply_edits_kept [] f s e h = refl
  apply_edits_kept (d ∷ es) f s e h =
      rw (apply_field_lost f d s e h.0) (apply_edits_kept es f s e h.1)

  -- an edit leaves the stored stamp below every later one
  After-applied :
      (s : ℕ) (f : Field A) (d : Edit A)
      → stamp d < s
      → After s f.updated_at
      → After s (applied f d).0.updated_at
  unfolding apply_field
  After-applied s f d lt h = elim (Bool-cases (loses (stamp d) f.updated_at)) [
    | inl l ↦ rw l h
    | inr w ↦ rw w lt
  ]

  won-applied : (e d : Edit A) (f : Field A) → won e (applied f d).0 ≡ won e f
  unfolding apply_field
  won-applied e d f = ground arith

  -- Of edits to one field the one with the latest clamped stamp wins, wherever it arrives: those
  -- before it have earlier stamps, as has the field, and those after it no later ones.
  pub latest_wins :
      (before after : List (Edit A)) (e : Edit A) (f : Field A)
      → All (λ d. stamp d < stamp e) before
      → After (stamp e) f.updated_at
      → All (λ d. stamp d ≤ stamp e) after
      → apply_edits f (before ++ e ∷ after) ≡ won e f
  unfolding apply_edits
  latest_wins [] after e f b h a =
      ap (λ (x : Field A × Bool). apply_edits x.0 after) (apply_field_won f e h)
      ∙ apply_edits_kept after (won e f) (stamp e) refl a
  latest_wins (d ∷ before) after e f b h a =
      latest_wins before after e (applied f d).0 b.1 (After-applied (stamp e) f d b.0 h) a
      ∙ won-applied e d f

-- A stamp is refused exactly when it is sent without an age and is past `now` by more than the skew.
pub edit_time-clock_ahead :
    (clock : Option ℕ) (now : ℕ) (age_ms : Option ℤ)
    → (edit_time clock now age_ms ≡ clock_ahead)
      ↔ ((age_ms ≡ none) × ((c : ℕ) × (clock ≡ some c) × (now + max_clock_skew < c)))
unfolding edit_time
edit_time-clock_ahead none now none = (λ e. cc, λ h. cc)
edit_time-clock_ahead (some c) now none = (
  λ e. (refl, (c, refl, ground arith)),
  λ h. let lt : now + max_clock_skew < c = ground (arith, h.1.1, h.1.2) in rw (lt→ltb _ c lt),
)
edit_time-clock_ahead clock now (some a) = (λ e. cc, λ h. cc)
