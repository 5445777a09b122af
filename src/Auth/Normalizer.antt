-- ===== src/Auth/Normalizer.antt =====
-- apps/im-server/src/modules/auth/services/identity-normalizer.service.ts. The API admits ASCII
-- addresses only, so that toLowerCase() changes A to Z.
pub mod Idempotent
pub mod Canonical
use slowchat.Base.{
  ℕ, Bool, true, false, ◌+◌, ◌&&◌, ◌||◌, leb, ◌==◌, List, [], ◌∷◌, length, if◌then◌else◌, map,
}
use slowchat.Base.Action.{Result, ok, err, app_error, validation_error}
use slowchat.Model.{Text, AuthIdentity, IdentityType}

-- WhiteSpace and LineTerminator of ECMAScript.
abbrev pub is_space : ℕ → Bool
is_space c =
    (leb 9 c && leb c 13)
    || c == 32
    || c == 160
    || c == 5760
    || (leb 8192 c && leb c 8202)
    || c == 8232
    || c == 8233
    || c == 8239
    || c == 8287
    || c == 12288
    || c == 65279

unfoldable pub trim_start : Text → Text
trim_start [] = []
trim_start (c ∷ cs) = let rest = trim_start cs in if is_space c then rest else c ∷ cs

-- A space is dropped if nothing but spaces follows.
abbrev pub keep : ℕ → Text → Text
keep c [] = if is_space c then [] else c ∷ []
keep c (d ∷ ds) = c ∷ d ∷ ds

unfoldable pub trim_end : Text → Text
trim_end [] = []
trim_end (c ∷ cs) = keep c (trim_end cs)

unfoldable pub trim : Text → Text
unfolding trim_start trim_end
trim t = trim_end (trim_start t)

abbrev pub lower : ℕ → ℕ
lower c = if leb 65 c && leb c 90 then c + 32 else c

unfoldable pub to_lower_case : Text → Text
to_lower_case [] = []
to_lower_case (c ∷ cs) = lower c ∷ to_lower_case cs

abbrev is_digit : ℕ → Bool
is_digit c = leb 48 c && leb c 57

abbrev pub all_digits : Text → Bool
all_digits [] = true
all_digits (c ∷ cs) = let rest = all_digits cs in if is_digit c then rest else false

-- [1-9]\d{7,14}
abbrev is_subscriber : Text → Bool
is_subscriber [] = false
is_subscriber (c ∷ cs) =
    leb 49 c && leb c 57 && all_digits cs && leb 7 (length cs) && leb (length cs) 14

-- /^\+[1-9]\d{7,14}$/
abbrev pub is_e164 : Text → Bool
is_e164 [] = false
is_e164 (c ∷ cs) = c == 43 && is_subscriber cs

unfoldable pub normalize : AuthIdentity → Result AuthIdentity
unfolding trim to_lower_case
normalize identity = elim identity.type [
  | IdentityType.phone ↦
      let value = trim identity.value in
      if is_e164 value
      then ok (record { type = IdentityType.phone; value = value })
      else err (app_error validation_error 400)
  | IdentityType.email ↦
      ok (record { type = IdentityType.email; value = to_lower_case (trim identity.value) })
]
