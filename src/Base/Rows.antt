-- ===== src/Base/Rows.antt =====
-- Laws of the rows of a table: at most one row passes a test on a key, and what the row of a key is
-- after each statement.
use mathlib.Core.Path.{◌≡◌, refl, sym, subst, ◌∙◌}
use mathlib.Core.Logic.{inl, inr}
use mathlib.Core.Bool.{Bool, true, false}
use mathlib.Core.Option
use mathlib.Core.Option.{Option, none, some}
use mathlib.Core.List.{List, [], ◌∷◌, ◌++◌}
use native.Mathlib.Omega.{arith}
use slowchat.Base.Tests.{if◌then◌else◌, Bool-cases, Option-cases}
use slowchat.Base.Lists.{update_where, upsert, any, All, first, Among}
use slowchat.Base.Database.{Database}

module _ {A : Type 0} where
  -- At most one row passes: after the first that does, none does.
  abbrev pub AtMostOne : (A → Bool) → List A → Type 0
  AtMostOne p [] = Unit
  AtMostOne p (x ∷ xs) = (p x ≡ true → any p xs ≡ false) × AtMostOne p xs

  pub any-Among : (p : A → Bool) (r : A) (xs : List A) → Among r xs → p r ≡ true → any p xs ≡ true
  any-Among p r [] h e = absurd h
  any-Among p r (x ∷ xs) (inl h) e = ground arith
  any-Among p r (x ∷ xs) (inr h) e = ground (arith, any-Among p r xs h e)

  pub first-Among :
      (p : A → Bool) (r : A) (xs : List A)
      → AtMostOne p xs
      → Among r xs
      → p r ≡ true
      → first p xs ≡ some r
  first-Among p r [] u h e = absurd h
  first-Among p r (x ∷ xs) u (inl h) e = ground arith
  first-Among p r (x ∷ xs) u (inr h) e =
      ground (arith, first-Among p r xs u.1 h e, any-Among p r xs h e)

  pub first-none : (p : A → Bool) (xs : List A) → any p xs ≡ false → first p xs ≡ none
  first-none p [] h = refl
  first-none p (x ∷ xs) h = ground (arith, first-none p xs)

  pub All-Among : (P : A → Type 0) (r : A) (xs : List A) → All P xs → Among r xs → P r
  All-Among P r [] h a = absurd a
  All-Among P r (x ∷ xs) h (inl e) = subst P e h.0
  All-Among P r (x ∷ xs) h (inr a) = All-Among P r xs h.1 a

  pub AtMostOne-of_none : (p : A → Bool) (xs : List A) → any p xs ≡ false → AtMostOne p xs
  AtMostOne-of_none p [] h = tt
  AtMostOne-of_none p (x ∷ xs) h = ground (arith, AtMostOne-of_none p xs)

  -- An update that keeps the test commutes with the search.
  pub first-update_where :
      (p q : A → Bool) (f : A → A) (xs : List A)
      → ((x : A) → p (f x) ≡ p x)
      → first p (update_where q f xs) ≡ Option.map (λ x. if q x then f x else x) (first p xs)
  first-update_where p q f [] h = refl
  first-update_where p q f (x ∷ xs) h = ground (arith, h x, first-update_where p q f xs h)

  pub any-update_where :
      (p q : A → Bool) (f : A → A) (xs : List A)
      → ((x : A) → p (f x) ≡ p x)
      → any p (update_where q f xs) ≡ any p xs
  any-update_where p q f [] h = refl
  any-update_where p q f (x ∷ xs) h = ground (arith, h x, any-update_where p q f xs h)

  pub AtMostOne-update_where :
      (p q : A → Bool) (f : A → A) (xs : List A)
      → ((x : A) → p (f x) ≡ p x)
      → AtMostOne p xs
      → AtMostOne p (update_where q f xs)
  AtMostOne-update_where p q f [] h u = tt
  AtMostOne-update_where p q f (x ∷ xs) h u =
      ground (arith, h x, any-update_where p q f xs h, AtMostOne-update_where p q f xs h u.1)

  -- A row with a new key is added at the end.
  pub upsert-new :
      (same : A → A → Bool) (r : A) (xs : List A)
      → any (same r) xs ≡ false
      → upsert same r xs ≡ xs ++ r ∷ []
  upsert-new same r [] h = refl
  upsert-new same r (x ∷ xs) h = ground (arith, upsert-new same r xs)

  pub first-append_new :
      (p : A → Bool) (r : A) (xs : List A)
      → any p xs ≡ false
      → p r ≡ true
      → first p (xs ++ r ∷ []) ≡ some r
  first-append_new p r [] h e = ground arith
  first-append_new p r (x ∷ xs) h e = ground (arith, first-append_new p r xs)

  pub AtMostOne-append_new :
      (p : A → Bool) (r : A) (xs : List A) → any p xs ≡ false → AtMostOne p (xs ++ r ∷ [])
  AtMostOne-append_new p r [] h = ((λ _. refl), tt)
  AtMostOne-append_new p r (x ∷ xs) h =
      ((λ e. ground arith), AtMostOne-append_new p r xs (ground arith))

  pub All-append : (P : A → Type 0) (xs ys : List A) → All P xs → All P ys → All P (xs ++ ys)
  All-append P [] ys hx hy = hy
  All-append P (x ∷ xs) ys hx hy = (hx.0, All-append P xs ys hx.1 hy)

  pub All-map : (P Q : A → Type 0) (xs : List A) → ((x : A) → P x → Q x) → All P xs → All Q xs
  All-map P Q [] f h = tt
  All-map P Q (x ∷ xs) f h = (f x h.0, All-map P Q xs f h.1)

  pub All-update_where :
      (P Q : A → Type 0) (p : A → Bool) (f : A → A) (xs : List A)
      → ((x : A) → P x → p x ≡ true → Q (f x))
      → ((x : A) → P x → p x ≡ false → Q x)
      → All P xs
      → All Q (update_where p f xs)
  All-update_where P Q p f [] hit miss h = tt
  All-update_where P Q p f (x ∷ xs) hit miss h = (
    elim (Bool-cases (p x)) [ inl e ↦ rw e (hit x h.0 e) | inr e ↦ rw e (miss x h.0 e) ],
    All-update_where P Q p f xs hit miss h.1,
  )

  -- Where at most one row passes, `findOneBy` is the search.
  pub find_one-first :
      (db : Database) (p : A → Bool) (xs : List A) → AtMostOne p xs → db.find_one p xs ≡ first p xs
  find_one-first db p xs u = elim (Option-cases (db.find_one p xs)) [
    | inl e ↦ e ∙ sym (first-none p xs (db.find_one_none p xs e))
    | inr (r, e) ↦
        e ∙ sym (first-Among p r xs u (db.find_one_among p xs r e) (db.find_one_some p xs r e))
  ]

module _ {A : Type 0} where
  pub any-false :
      (p q : A → Bool) (xs : List A)
      → ((x : A) → q x ≡ true → p x ≡ true)
      → any p xs ≡ false
      → any q xs ≡ false
  any-false p q [] imp h = refl
  any-false p q (x ∷ xs) imp h = ground (arith, imp x, any-false p q xs imp)

  -- A test that asks for more passes at most one row too.
  pub AtMostOne-narrower :
      (p q : A → Bool) (xs : List A)
      → ((x : A) → q x ≡ true → p x ≡ true)
      → AtMostOne p xs
      → AtMostOne q xs
  AtMostOne-narrower p q [] imp u = tt
  AtMostOne-narrower p q (x ∷ xs) imp u =
      ((λ e. any-false p q xs imp (u.0 (imp x e))), AtMostOne-narrower p q xs imp u.1)

  pub any-append :
      (p : A → Bool) (xs ys : List A)
      → any p xs ≡ false
      → any p ys ≡ false
      → any p (xs ++ ys) ≡ false
  any-append p [] ys h k = k
  any-append p (x ∷ xs) ys h k = ground (arith, any-append p xs ys)

  -- At most one row passes still, after a row is added, if no row passed before or the new does not.
  pub AtMostOne-append :
      (p : A → Bool) (r : A) (xs : List A)
      → (p r ≡ true → any p xs ≡ false)
      → AtMostOne p xs
      → AtMostOne p (xs ++ r ∷ [])
  AtMostOne-append p r [] h u = ((λ _. refl), tt)
  AtMostOne-append p r (x ∷ xs) h u = (
    λ e. elim (Bool-cases (p r)) [
      | inl pr ↦ ground (arith, h pr)
      | inr pr ↦ any-append p xs (r ∷ []) (u.0 e) (ground arith)
    ],
    AtMostOne-append p r xs (λ pr. ground (arith, h pr)) u.1,
  )

  pub All-of_none :
      (P : A → Type 0) (p : A → Bool) (xs : List A)
      → ((x : A) → p x ≡ false → P x)
      → any p xs ≡ false
      → All P xs
  All-of_none P p [] f h = tt
  All-of_none P p (x ∷ xs) f h = (f x (ground arith), All-of_none P p xs f (ground arith))

  pub any_of_All :
      (P : A → Type 0) (p : A → Bool) (xs : List A)
      → ((x : A) → P x → p x ≡ false)
      → All P xs
      → any p xs ≡ false
  any_of_All P p [] f h = refl
  any_of_All P p (x ∷ xs) f h = ground (arith, f x h.0, any_of_All P p xs f h.1)

  -- Where at most one row passes, every row that passes is the one that is among them.
  pub All-only :
      (p : A → Bool) (r : A) (xs : List A)
      → AtMostOne p xs
      → Among r xs
      → p r ≡ true
      → All (λ x. p x ≡ true → x ≡ r) xs
  All-only p r [] u a e = tt
  All-only p r (x ∷ xs) u (inl h) e = (
    (λ _. h),
    All-of_none (λ y. p y ≡ true → y ≡ r) p xs (λ y no_y yes_y. cc)
        (u.0 (subst (λ y. p y ≡ true) (sym h) e)),
  )
  All-only p r (x ∷ xs) u (inr a) e =
      ((λ px. cc (any-Among p r xs a e, u.0 px)), All-only p r xs u.1 a e)
