-- ===== src/Auth/Normalizer/Idempotent.antt =====
-- apps/im-server/src/modules/auth/services/identity-normalizer.service.ts: to normalize twice is to
-- normalize once.
use slowchat.Base.{
  ℕ, ◌≡◌, refl, ap, ◌∙◌, Bool, true, false, not, [], ◌∷◌, arith, Bool-cases, inl, inr,
}
use slowchat.Base.Action.{ok}
use slowchat.Model.{Text, AuthIdentity, IdentityType}
use slowchat.Auth.Normalizer.{
  is_space, trim_start, keep, trim_end, trim, lower, to_lower_case, is_e164, normalize,
}

-- The first code unit, if there is one, is no space.
abbrev pub starts_plain : Text → Bool
starts_plain [] = true
starts_plain (c ∷ _) = not (is_space c)

pub trim_start-plain : (t : Text) → starts_plain (trim_start t) ≡ true
unfolding trim_start
trim_start-plain [] = refl
trim_start-plain (c ∷ cs) = elim (Bool-cases (is_space c)) [
  | inl e ↦ rw e (trim_start-plain cs)
  | inr e ↦ ground arith
]

trim_start-id : (t : Text) → starts_plain t ≡ true → trim_start t ≡ t
unfolding trim_start
trim_start-id [] h = refl
trim_start-id (c ∷ cs) h = elim (Bool-cases (is_space c)) [
  | inl e ↦ absurd (ground arith)
  | inr e ↦ rw e refl
]

keep-plain : (c : ℕ) (r : Text) → is_space c ≡ false → starts_plain (keep c r) ≡ true
keep-plain c [] e = ground arith
keep-plain c (d ∷ ds) e = ground arith

pub trim_end-plain : (t : Text) → starts_plain t ≡ true → starts_plain (trim_end t) ≡ true
unfolding trim_end
trim_end-plain [] h = refl
trim_end-plain (c ∷ cs) h = elim (Bool-cases (is_space c)) [
  | inl e ↦ absurd (ground arith)
  | inr e ↦ keep-plain c (trim_end cs) e
]

trim_end-keep : (c : ℕ) (r : Text) → trim_end r ≡ r → trim_end (keep c r) ≡ keep c r
unfolding trim_end
trim_end-keep c [] h = elim (Bool-cases (is_space c)) [ inl e ↦ rw e refl | inr e ↦ rw (e, e) refl ]
trim_end-keep c (d ∷ ds) h = ap (keep c) h

trim_end-twice : (t : Text) → trim_end (trim_end t) ≡ trim_end t
unfolding trim_end
trim_end-twice [] = refl
trim_end-twice (c ∷ cs) = trim_end-keep c (trim_end cs) (trim_end-twice cs)

trim-twice : (t : Text) → trim (trim t) ≡ trim t
unfolding trim
trim-twice t =
    ap trim_end
      (trim_start-id (trim_end (trim_start t)) (trim_end-plain (trim_start t) (trim_start-plain t)))
    ∙ trim_end-twice (trim_start t)

-- A to Z and a to z are no spaces.
is_space-lower : (c : ℕ) → is_space (lower c) ≡ is_space c
is_space-lower c = ground arith

lower-twice : (c : ℕ) → lower (lower c) ≡ lower c
lower-twice c = ground arith

to_lower_case-twice : (t : Text) → to_lower_case (to_lower_case t) ≡ to_lower_case t
unfolding to_lower_case
to_lower_case-twice [] = refl
to_lower_case-twice (c ∷ cs) = cong₂ (lower-twice c) (to_lower_case-twice cs)
  where
    cong₂ : {a b : ℕ} {s t : Text} → a ≡ b → s ≡ t → (a ∷ s) ≡ (b ∷ t)
    cong₂ p q = cc

trim_start-lower : (t : Text) → trim_start (to_lower_case t) ≡ to_lower_case (trim_start t)
unfolding trim_start to_lower_case
trim_start-lower [] = refl
trim_start-lower (c ∷ cs) = elim (Bool-cases (is_space c)) [
  | inl e ↦ rw (is_space-lower c, e) (trim_start-lower cs)
  | inr e ↦ rw (is_space-lower c, e) refl
]

keep-lower : (c : ℕ) (r : Text) → keep (lower c) (to_lower_case r) ≡ to_lower_case (keep c r)
unfolding to_lower_case
keep-lower c [] = elim (Bool-cases (is_space c)) [
  | inl e ↦ rw (is_space-lower c, e) refl
  | inr e ↦ rw (is_space-lower c, e) refl
]
keep-lower c (d ∷ ds) = refl

trim_end-lower : (t : Text) → trim_end (to_lower_case t) ≡ to_lower_case (trim_end t)
unfolding trim_end to_lower_case
trim_end-lower [] = refl
trim_end-lower (c ∷ cs) = ap (keep (lower c)) (trim_end-lower cs) ∙ keep-lower c (trim_end cs)

trim-lower : (t : Text) → trim (to_lower_case t) ≡ to_lower_case (trim t)
unfolding trim
trim-lower t = ap trim_end (trim_start-lower t) ∙ trim_end-lower (trim_start t)

-- An identity that was normalized is normalized to itself.
pub normalize-normalize :
    (identity normal : AuthIdentity) → normalize identity ≡ ok normal → normalize normal ≡ ok normal
unfolding normalize
normalize-normalize identity normal done = finish identity.type refl
  where
    value : Text
    value = trim identity.value

    finish : (type : IdentityType) → identity.type ≡ type → normalize normal ≡ ok normal
    finish IdentityType.email e =
        let made : normal ≡ record { type = IdentityType.email; value = to_lower_case value } =
          ground arith in
        let again : to_lower_case (trim (to_lower_case value)) ≡ to_lower_case value =
          ap to_lower_case (trim-lower value ∙ ap to_lower_case (trim-twice identity.value))
          ∙ to_lower_case-twice value in
        ground (arith, again)
    finish IdentityType.phone e = elim (Bool-cases (is_e164 value)) [
      | inr bad ↦ absurd (ground arith)
      | inl good ↦
          let made : normal ≡ record { type = IdentityType.phone; value = value } = ground arith in
          ground (arith, trim-twice identity.value)
    ]
