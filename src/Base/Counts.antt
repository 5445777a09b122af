-- ===== src/Base/Counts.antt =====
-- Counts of rows: what a save does to the number of rows that pass a test.
use Prim.Native.Nat.{ℕ, ◌+◌}
use mathlib.Core.Path.{◌≡◌, refl, ap}
use mathlib.Core.Logic.{inl, inr}
use mathlib.Core.Bool.{Bool, true, false}
use mathlib.Core.Option.{Option, none, some}
use mathlib.Core.List.{List, [], ◌∷◌}
use native.Mathlib.Omega.{arith}
use slowchat.Base.Tests.{if◌then◌else◌, Bool-cases}
use slowchat.Base.Lists.{count_where, update_where, upsert, any, All, first, Among}
use slowchat.Base.Rows.{AtMostOne}

module _ {A : Type 0} where
  -- 1 for a row that passes.
  abbrev pub passing : (A → Bool) → Option A → ℕ
  passing p none = 0
  passing p (some x) = if p x then 1 else 0

  -- A save puts its row in the place of the first row with its key.
  pub count_where-upsert :
      (p : A → Bool) (same : A → A → Bool) (r : A) (xs : List A)
      → count_where p (upsert same r xs) + passing p (first (same r) xs)
        ≡ count_where p xs + passing p (some r)
  count_where-upsert p same r [] = ground arith
  count_where-upsert p same r (x ∷ xs) = ground (arith, count_where-upsert p same r xs)

  pub All-of_others :
      (P Q : A → Type 0) (p : A → Bool) (xs : List A)
      → ((x : A) → p x ≡ false → P x → Q x)
      → any p xs ≡ false
      → All P xs
      → All Q xs
  All-of_others P Q p [] f h all = tt
  All-of_others P Q p (x ∷ xs) f h all =
      (f x (ground arith) all.0, All-of_others P Q p xs f (ground arith) all.1)

  -- What holds of the saved row, and of every row with another key, holds after the save.
  pub All-upsert_others :
      (P Q : A → Type 0) (same : A → A → Bool) (r : A) (xs : List A)
      → Q r
      → ((x : A) → same r x ≡ false → P x → Q x)
      → AtMostOne (same r) xs
      → All P xs
      → All Q (upsert same r xs)
  All-upsert_others P Q same r [] new others one all = (new, tt)
  All-upsert_others P Q same r (x ∷ xs) new others one all = elim (Bool-cases (same r x)) [
    | inl e ↦ rw e (new, All-of_others P Q (same r) xs others (one.0 e) all.1)
    | inr e ↦ rw e (others x e all.0, All-upsert_others P Q same r xs new others one.1 all.1)
  ]

  -- The first row of a key does not pass, if no row passes that has the key.
  pub passing_of_first :
      (p key both : A → Bool) (xs : List A)
      → ((x : A) → key x ≡ true → p x ≡ true → both x ≡ true)
      → any both xs ≡ false
      → passing p (first key xs) ≡ 0
  passing_of_first p key both [] h e = refl
  passing_of_first p key both (x ∷ xs) h e = ground (arith, h x, passing_of_first p key both xs h)

  pub Among-upsert : (same : A → A → Bool) (r : A) (xs : List A) → Among r (upsert same r xs)
  Among-upsert same r [] = inl refl
  Among-upsert same r (x ∷ xs) = elim (Bool-cases (same r x)) [
    | inl e ↦ rw e (inl refl)
    | inr e ↦ rw e (inr (Among-upsert same r xs))
  ]

  pub Among-update_where :
      (p : A → Bool) (f : A → A) (r : A) (xs : List A)
      → Among r xs
      → Among (if p r then f r else r) (update_where p f xs)
  Among-update_where p f r [] a = a
  Among-update_where p f r (x ∷ xs) (inl e) = inl (ap (λ y. if p y then f y else y) e)
  Among-update_where p f r (x ∷ xs) (inr a) = inr (Among-update_where p f r xs a)

  pub count_where-update_where :
      (p : A → Bool) (f : A → A) (xs : List A)
      → ((x : A) → p (f x) ≡ false)
      → count_where p (update_where p f xs) ≡ 0
  count_where-update_where p f [] h = refl
  count_where-update_where p f (x ∷ xs) h = ground (arith, h x, count_where-update_where p f xs h)

  pub count_where-first :
      (p q : A → Bool) (xs : List A) → count_where p xs ≡ 0 → passing p (first q xs) ≡ 0
  count_where-first p q [] h = refl
  count_where-first p q (x ∷ xs) h = ground (arith, count_where-first p q xs)
