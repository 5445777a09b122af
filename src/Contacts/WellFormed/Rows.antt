-- ===== src/Contacts/WellFormed/Rows.antt =====
-- What the statements of the contact commands do to the rows that a test finds.
use slowchat.Base.{
  ◌≡◌, refl, Bool, true, false, ◌||◌, List, [], ◌∷◌, arith, any, reject, upsert, update_where,
  Bool-cases, inl, inr,
}
use slowchat.Base.Rows.{AtMostOne, AtMostOne-append, upsert-new}
use slowchat.Base.Saves.{any-upsert}

module _ {A : Type 0} where
  pub any-same : (p q : A → Bool) (xs : List A) → ((x : A) → p x ≡ q x) → any p xs ≡ any q xs
  any-same p q [] h = refl
  any-same p q (x ∷ xs) h = ground (arith, h x, any-same p q xs h)

  -- A test on the key of a row.
  pub any-upsert_key :
      (same : A → A → Bool) (p : A → Bool) (r : A) (xs : List A)
      → ((x : A) → same r x ≡ true → p x ≡ p r)
      → any p (upsert same r xs) ≡ (p r || any p xs)
  any-upsert_key same p r [] h = ground arith
  any-upsert_key same p r (x ∷ xs) h = ground (arith, h x, any-upsert_key same p r xs h)

  pub any-reject_apart :
      (p q : A → Bool) (xs : List A)
      → ((x : A) → p x ≡ true → q x ≡ false)
      → any p (reject q xs) ≡ any p xs
  any-reject_apart p q [] h = refl
  any-reject_apart p q (x ∷ xs) h = ground (arith, h x, any-reject_apart p q xs h)

  pub any-reject_within :
      (p q : A → Bool) (xs : List A)
      → ((x : A) → p x ≡ true → q x ≡ true)
      → any p (reject q xs) ≡ false
  any-reject_within p q [] h = refl
  any-reject_within p q (x ∷ xs) h = ground (arith, h x, any-reject_within p q xs h)

  pub any-reject_none :
      (p q : A → Bool) (xs : List A) → any p xs ≡ false → any p (reject q xs) ≡ false
  any-reject_none p q [] h = refl
  any-reject_none p q (x ∷ xs) h = ground (arith, any-reject_none p q xs)

  -- The saved row does not pass.
  pub AtMostOne-upsert_off :
      (same : A → A → Bool) (p : A → Bool) (r : A) (xs : List A)
      → p r ≡ false
      → AtMostOne p xs
      → AtMostOne p (upsert same r xs)
  AtMostOne-upsert_off same p r [] off u = ((λ _. refl), tt)
  AtMostOne-upsert_off same p r (x ∷ xs) off u = elim (Bool-cases (same r x)) [
    | inl e ↦ rw e ((λ h. absurd (ground arith)), u.1)
    | inr e ↦
        rw e ((λ h. any-upsert same p r xs off (u.0 h)), AtMostOne-upsert_off same p r xs off u.1)
  ]

  any-update_off :
      (p q : A → Bool) (f : A → A) (xs : List A)
      → ((x : A) → q x ≡ true → p (f x) ≡ false)
      → any p xs ≡ false
      → any p (update_where q f xs) ≡ false
  any-update_off p q f [] off h = refl
  any-update_off p q f (x ∷ xs) off h = ground (arith, off x, any-update_off p q f xs off)

  -- The rows that are changed do not pass afterwards.
  pub AtMostOne-update_off :
      (p q : A → Bool) (f : A → A) (xs : List A)
      → ((x : A) → q x ≡ true → p (f x) ≡ false)
      → AtMostOne p xs
      → AtMostOne p (update_where q f xs)
  AtMostOne-update_off p q f [] off u = tt
  AtMostOne-update_off p q f (x ∷ xs) off u = (
    (λ h. elim (Bool-cases (q x)) [
      | inl e ↦ absurd (ground (arith, off x e))
      | inr e ↦ any-update_off p q f xs off (u.0 (ground arith))
    ]),
    AtMostOne-update_off p q f xs off u.1,
  )

  pub AtMostOne-upsert_new :
      (same : A → A → Bool) (p : A → Bool) (r : A) (xs : List A)
      → any (same r) xs ≡ false
      → (p r ≡ true → any p xs ≡ false)
      → AtMostOne p xs
      → AtMostOne p (upsert same r xs)
  AtMostOne-upsert_new same p r xs fresh h u =
      rw (upsert-new same r xs fresh) (AtMostOne-append p r xs h u)
