-- ===== src/Auth/Normalizer/Canonical.antt =====
-- apps/im-server/src/modules/auth/services/identity-normalizer.service.ts: what is made of an address
-- and of a number, by a description without the functions that make it.
use slowchat.Base.{
  ℕ, ◌+◌, ◌≤◌, ◌<◌, ◌≡◌, refl, Bool, true, not, [], ◌∷◌, ◌++◌, arith, All, ◌⊎◌, inl, inr,
  Bool-cases, if◌then◌else◌,
}
use slowchat.Base.Action.{ok, err, app_error, validation_error}
use slowchat.Model.{Text, AuthIdentity, IdentityType}
use slowchat.Auth.Normalizer.{
  is_space, trim_start, keep, trim_end, trim, lower, to_lower_case, is_e164, normalize,
}
use slowchat.Auth.Normalizer.Idempotent.{
  starts_plain, trim_start-plain, trim_end-plain, normalize-normalize,
}

-- The last code unit, if there is one, is no space.
abbrev ends_plain : Text → Bool
ends_plain [] = true
ends_plain (c ∷ []) = not (is_space c)
ends_plain (c ∷ d ∷ ds) = ends_plain (d ∷ ds)

abbrev AreSpaces : Text → Type 0
AreSpaces t = All (λ c. is_space c ≡ true) t

-- The core is the text without the spaces at both ends.
abbrev pub IsCore : Text → Text → Type 0
IsCore t core =
    (before : Text) × (after : Text) × (t ≡ before ++ (core ++ after))
    × AreSpaces before
    × AreSpaces after
    × (starts_plain core ≡ true)
    × (ends_plain core ≡ true)

-- The second text is the first with small letters for the capitals A to Z.
abbrev pub IsLowered : Text → Text → Type 0
IsLowered [] [] = Unit
IsLowered [] (b ∷ ys) = ⊥
IsLowered (a ∷ xs) [] = ⊥
IsLowered (a ∷ xs) (b ∷ ys) =
    ((65 ≤ a) × (a ≤ 90) × (b ≡ a + 32) ⊎ (a < 65 ⊎ 90 < a) × (b ≡ a)) × IsLowered xs ys

abbrev pub email : Text → AuthIdentity
email value = record { type = IdentityType.email; value = value }

abbrev pub phone : Text → AuthIdentity
phone value = record { type = IdentityType.phone; value = value }

trim_start-split : (t : Text) → (before : Text) × (t ≡ before ++ trim_start t) × AreSpaces before
unfolding trim_start
trim_start-split [] = ([], refl, tt)
trim_start-split (c ∷ cs) = elim (Bool-cases (is_space c)) [
  | inl e ↦
      let (before, same, spaces) = trim_start-split cs in
      (c ∷ before, ground (arith, same), (e, spaces))
  | inr e ↦ ([], ground arith, tt)
]

keep-split :
    (c : ℕ) (r after cs : Text)
    → cs ≡ r ++ after
    → AreSpaces after
    → (after' : Text) × ((c ∷ cs) ≡ keep c r ++ after') × AreSpaces after'
keep-split c [] after cs same spaces = elim (Bool-cases (is_space c)) [
  | inl e ↦ (c ∷ after, ground (arith, same), (e, spaces))
  | inr e ↦ (after, ground (arith, same), spaces)
]
keep-split c (d ∷ ds) after cs same spaces = (after, cc, spaces)

trim_end-split : (t : Text) → (after : Text) × (t ≡ trim_end t ++ after) × AreSpaces after
unfolding trim_end
trim_end-split [] = ([], refl, tt)
trim_end-split (c ∷ cs) =
    let (after, same, spaces) = trim_end-split cs in keep-split c (trim_end cs) after cs same spaces

keep-ends : (c : ℕ) (r : Text) → ends_plain r ≡ true → ends_plain (keep c r) ≡ true
keep-ends c [] h = ground arith
keep-ends c (d ∷ ds) h = h

trim_end-ends : (t : Text) → ends_plain (trim_end t) ≡ true
unfolding trim_end
trim_end-ends [] = refl
trim_end-ends (c ∷ cs) = keep-ends c (trim_end cs) (trim_end-ends cs)

trim-IsCore : (t : Text) → IsCore t (trim t)
unfolding trim
trim-IsCore t =
    let (before, front, spaces) = trim_start-split t in
    let (after, back, spaces') = trim_end-split (trim_start t) in
    (
      before,
      after,
      cc,
      spaces,
      spaces',
      trim_end-plain (trim_start t) (trim_start-plain t),
      trim_end-ends (trim_start t),
    )

lower-cases : (c : ℕ) → (65 ≤ c) × (c ≤ 90) × (lower c ≡ c + 32) ⊎ (c < 65 ⊎ 90 < c) × (lower c ≡ c)
lower-cases c = ground arith

to_lower_case-IsLowered : (t : Text) → IsLowered t (to_lower_case t)
unfolding to_lower_case
to_lower_case-IsLowered [] = tt
to_lower_case-IsLowered (c ∷ cs) = (lower-cases c, to_lower_case-IsLowered cs)

-- An address or a number is normalized by its core, which is the text without the spaces at both
-- ends: an address to its core with small letters for the capitals A to Z, which is then normalized
-- to itself; a number to its core if this is an E.164 number, and otherwise it is refused with
-- VALIDATION_ERROR (400).
pub normalize_lem :
    (value : Text)
    → (core : Text) × IsCore value core
      × ((lowered : Text) × IsLowered core lowered
          × (normalize (email value) ≡ ok (email lowered))
          × (normalize (email lowered) ≡ ok (email lowered)))
      × (normalize (phone value)
          ≡ (if is_e164 core then ok (phone core) else err (app_error validation_error 400)))
unfolding normalize
normalize_lem value = (
  trim value,
  trim-IsCore value,
  (
    to_lower_case (trim value),
    to_lower_case-IsLowered (trim value),
    refl,
    normalize-normalize (email value) (email (to_lower_case (trim value))) refl,
  ),
  refl,
)
