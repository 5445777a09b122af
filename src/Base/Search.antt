-- ===== src/Base/Search.antt =====
-- What a search over the rows of a table finds.
use mathlib.Core.Path.{◌≡◌, refl, subst}
use mathlib.Core.Logic.{inl, inr}
use mathlib.Core.Bool.{Bool, true, false}
use mathlib.Core.Option.{none, some}
use mathlib.Core.List.{List, [], ◌∷◌}
use native.Mathlib.Omega.{arith}
use slowchat.Base.Tests.{if◌then◌else◌, Bool-cases}
use slowchat.Base.Lists.{reject, update_where, select, any, first, Among, All}

module _ {Row : Type 0} (p : Row → Bool) where
  pub any_of_first-none : (rows : List Row) → first p rows ≡ none → any p rows ≡ false
  any_of_first-none [] h = refl
  any_of_first-none (x ∷ xs) h = ground (arith, any_of_first-none xs)

  pub passes_of_first : (rows : List Row) (r : Row) → first p rows ≡ some r → p r ≡ true
  passes_of_first [] r h = cc
  passes_of_first (x ∷ xs) r h = ground (arith, passes_of_first xs r)

  pub Among-of_first : (rows : List Row) (r : Row) → first p rows ≡ some r → Among r rows
  Among-of_first [] r h = cc
  Among-of_first (x ∷ xs) r h = ground (arith, Among-of_first xs r)

  pub of_select :
      (rows : List Row) (r : Row) → Among r (select p rows) → Among r rows × (p r ≡ true)
  of_select [] r a = absurd a
  of_select (x ∷ xs) r a =
      let ih = of_select xs r in
      elim (Bool-cases (p x)) [
        | inl e ↦ kept ih e (subst (λ b. Among r (if b then x ∷ select p xs else select p xs)) e a)
        | inr e ↦
            let found =
              ih (subst (λ b. Among r (if b then x ∷ select p xs else select p xs)) e a) in
            (inr found.0, found.1)
      ]
    where
      kept :
          (Among r (select p xs) → Among r xs × (p r ≡ true))
          → p x ≡ true
          → Among r (x ∷ select p xs)
          → Among r (x ∷ xs) × (p r ≡ true)
      kept ih e (inl h) = (inl h, ground (arith, e, h))
      kept ih e (inr h) = (inr (ih h).0, (ih h).1)

module _ {A : Type 0} where
  pub any-reject : (p : A → Bool) (xs : List A) → any p (reject p xs) ≡ false
  any-reject p [] = refl
  any-reject p (x ∷ xs) = ground (arith, any-reject p xs)

  -- The rows that pass are changed so that they do not.
  pub any-update_away :
      (p : A → Bool) (f : A → A) (xs : List A)
      → ((x : A) → p (f x) ≡ false)
      → any p (update_where p f xs) ≡ false
  any-update_away p f [] h = refl
  any-update_away p f (x ∷ xs) h = ground (arith, h x, any-update_away p f xs h)

  pub Among-select :
      (p : A → Bool) (r : A) (xs : List A) → Among r xs → p r ≡ true → Among r (select p xs)
  Among-select p r [] a e = absurd a
  Among-select p r (x ∷ xs) (inl h) e = ground arith
  Among-select p r (x ∷ xs) (inr a) e = ground (arith, Among-select p r xs a e)

  pub All-of_Among : (P : A → Type 0) (xs : List A) → ((x : A) → Among x xs → P x) → All P xs
  All-of_Among P [] h = tt
  All-of_Among P (x ∷ xs) h = (h x (inl refl), All-of_Among P xs (λ y a. h y (inr a)))
