-- ===== src/Push/Provider.antt =====
-- What a provider's answer says of a token: `_is_unregistered` of server/push/pipeline.py,
-- `is_dead_fcm_token` of server/push/fcm_client.py and `SendResult` of server/push/apns_client.py.
-- `lower` and `upper` fold the ASCII letters, in which the providers write their codes.
use Prim.Native.Char.{code}
use tigerduck_backend.Prelude.{
  ℕ, ◌+◌, ◌-◌, Bool, true, false, ◌&&◌, ◌||◌, Option, List, [], ◌∷◌, String, leb, ◌==◌,
  if◌then◌else◌, get_or, map,
}

pub record SendResult : Type 0 where
  pub success : Bool
  pub status : String
  pub description : Option String
  pub notification_id : Option String

abbrev pub codes : String → List ℕ
codes String.[] = []
codes (String.◌∷◌ c s) = code c ∷ codes s

unfoldable pub lower : String → List ℕ
lower s = map (λ c. if leb 65 c && leb c 90 then c + 32 else c) (codes s)

unfoldable pub upper : String → List ℕ
upper s = map (λ c. if leb 97 c && leb c 122 then c - 32 else c) (codes s)

unfoldable pub same_codes : List ℕ → List ℕ → Bool
same_codes [] [] = true
same_codes (x ∷ xs) (y ∷ ys) = x == y && same_codes xs ys
same_codes _ _ = false

unfoldable pub is_prefix : List ℕ → List ℕ → Bool
is_prefix [] ys = true
is_prefix (x ∷ xs) [] = false
is_prefix (x ∷ xs) (y ∷ ys) = x == y && is_prefix xs ys

-- needle in text
unfoldable pub is_infix : List ℕ → List ℕ → Bool
unfolding is_prefix
is_infix needle [] = is_prefix needle []
is_infix needle (y ∷ ys) = is_prefix needle (y ∷ ys) || is_infix needle ys

unfoldable pub is_dead_fcm_token : Option String → Option String → Bool
unfolding lower upper same_codes is_infix
is_dead_fcm_token status description =
    let s = upper (get_or status "") in
    let named = is_infix (codes "registration token") (lower (get_or description "")) in
    (same_codes s (codes "UNREGISTERED") || same_codes s (codes "SENDER_ID_MISMATCH"))
    || (same_codes s (codes "INVALID_ARGUMENT") && named)

unfoldable pub is_unregistered : Option String → Option String → Bool
unfolding lower same_codes is_dead_fcm_token
is_unregistered status description =
    let d = lower (get_or description "") in
    same_codes (lower (get_or status "")) (codes "410")
    || ((same_codes d (codes "baddevicetoken") || same_codes d (codes "unregistered"))
        || is_dead_fcm_token status description)
