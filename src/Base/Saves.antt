-- ===== src/Base/Saves.antt =====
-- Laws of a save: what the row of a key is afterwards.
use mathlib.Core.Path.{◌≡◌, refl, sym, ◌∙◌}
use mathlib.Core.Logic.{inl, inr}
use mathlib.Core.Bool.{Bool, true, false}
use mathlib.Core.Option.{Option, none, some}
use mathlib.Core.List.{List, [], ◌∷◌}
use native.Mathlib.Omega.{arith}
use slowchat.Base.Tests.{Bool-cases, if◌then◌else◌}
use slowchat.Base.Lists.{upsert, update_where, any, All, first}
use slowchat.Base.Rows.{AtMostOne, any-false, first-none}

module _ {A : Type 0} where
  -- After a save the row of its key is the saved one; other rows are as they were.
  pub first-upsert :
      (same : A → A → Bool) (p : A → Bool) (r : A) (xs : List A)
      → ((x : A) → same r x ≡ p x)
      → p r ≡ true
      → first p (upsert same r xs) ≡ some r
  first-upsert same p r [] h e = ground arith
  first-upsert same p r (x ∷ xs) h e = ground (arith, h x, first-upsert same p r xs h e)

  pub any-upsert :
      (same : A → A → Bool) (q : A → Bool) (r : A) (xs : List A)
      → q r ≡ false
      → any q xs ≡ false
      → any q (upsert same r xs) ≡ false
  any-upsert same q r [] h e = ground arith
  any-upsert same q r (x ∷ xs) h e = ground (arith, any-upsert same q r xs h)

  pub AtMostOne-upsert :
      (same : A → A → Bool) (p : A → Bool) (r : A) (xs : List A)
      → ((x : A) → same r x ≡ true → p r ≡ p x)
      → ((x : A) → same r x ≡ false → p r ≡ true → p x ≡ false)
      → AtMostOne p xs
      → AtMostOne p (upsert same r xs)
  AtMostOne-upsert same p r [] hit miss u = ((λ _. refl), tt)
  AtMostOne-upsert same p r (x ∷ xs) hit miss u = elim (Bool-cases (same r x)) [
    | inl e ↦ rw e ((λ pr. u.0 (sym (hit x e) ∙ pr)), u.1)
    | inr e ↦ rw e (
      (λ px.
          any-upsert same p r xs
            (elim (Bool-cases (p r)) [ inl pr ↦ cc (miss x e pr, px) | inr pr ↦ pr ]) (u.0 px)),
      AtMostOne-upsert same p r xs hit miss u.1,
    )
  ]

  pub All-upsert :
      (P : A → Type 0) (same : A → A → Bool) (r : A) (xs : List A)
      → P r
      → All P xs
      → All P (upsert same r xs)
  All-upsert P same r [] pr h = (pr, tt)
  All-upsert P same r (x ∷ xs) pr h = elim (Bool-cases (same r x)) [
    | inl e ↦ rw e (pr, h.1)
    | inr e ↦ rw e (h.0, All-upsert P same r xs pr h.1)
  ]

  pub update_where-none :
      (p : A → Bool) (f : A → A) (xs : List A) → any p xs ≡ false → update_where p f xs ≡ xs
  update_where-none p f [] h = refl
  update_where-none p f (x ∷ xs) h = ground (arith, update_where-none p f xs)

  -- To save the changed row of a key is to update the row that has the key.
  pub upsert-update_where :
      (same : A → A → Bool) (p key : A → Bool) (f : A → A) (y : A) (xs : List A)
      → ((x : A) → same (f y) x ≡ key x)
      → ((x : A) → p x ≡ true → key x ≡ true)
      → p y ≡ true
      → AtMostOne key xs
      → first key xs ≡ some y
      → upsert same (f y) xs ≡ update_where p f xs
  upsert-update_where same p key f y [] h narrow py u found = cc
  upsert-update_where same p key f y (x ∷ xs) h narrow py u found = elim (Bool-cases (key x)) [
    | inl e ↦
        let none_left = update_where-none p f xs (any-false key p xs narrow (u.0 e)) in
        let here : x ≡ y = ground arith in ground (arith, h x, none_left)
    | inr e ↦
        let rest = upsert-update_where same p key f y xs h narrow py u.1 (ground arith) in
        ground (arith, h x, narrow x, rest)
  ]

  -- If the row of a key does not pass a test for which it must have the key, none passes.
  pub any-of_first :
      (p key : A → Bool) (y : A) (xs : List A)
      → ((x : A) → p x ≡ true → key x ≡ true)
      → p y ≡ false
      → AtMostOne key xs
      → first key xs ≡ some y
      → any p xs ≡ false
  any-of_first p key y [] narrow py u found = refl
  any-of_first p key y (x ∷ xs) narrow py u found = elim (Bool-cases (key x)) [
    | inl e ↦
        let none_left = any-false key p xs narrow (u.0 e) in
        let here : x ≡ y = ground arith in ground arith
    | inr e ↦
        let rest = any-of_first p key y xs narrow py u.1 (ground arith) in ground (arith, narrow x)
  ]

  abbrev pub that_passes : (A → Bool) → Option A → Option A
  that_passes p none = none
  that_passes p (some x) = if p x then some x else none

  -- Where a test asks for the key, the search for it looks at the row of the key only.
  pub first-narrower :
      (p key : A → Bool) (xs : List A)
      → ((x : A) → p x ≡ true → key x ≡ true)
      → AtMostOne key xs
      → first p xs ≡ that_passes p (first key xs)
  first-narrower p key [] narrow u = refl
  first-narrower p key (x ∷ xs) narrow u = elim (Bool-cases (key x)) [
    | inl e ↦
        let none_left = first-none p xs (any-false key p xs narrow (u.0 e)) in
        ground (arith, narrow x)
    | inr e ↦ ground (arith, narrow x, first-narrower p key xs narrow u.1)
  ]

  -- A save of a row that does not pass, in the place of none that does, leaves the search as it was.
  pub first-upsert_other :
      (same : A → A → Bool) (p : A → Bool) (r : A) (xs : List A)
      → p r ≡ false
      → ((x : A) → same r x ≡ true → p x ≡ false)
      → first p (upsert same r xs) ≡ first p xs
  first-upsert_other same p r [] e h = ground arith
  first-upsert_other same p r (x ∷ xs) e h = ground (arith, h x, first-upsert_other same p r xs e h)
