-- ===== src/Base/Check.antt =====
-- Checks in a row: the first that throws ends the row.
use slowchat.Base.Tests.{if◌then◌else◌}
use mathlib.Core.Bool.{Bool}
use mathlib.Core.Option.{Option, none, some}
use Prim.Native.Nat.{ℕ}
use slowchat.Base.Action.{Check, ok, err, Error, ErrorCode, app_error}

module _ {S A : Type 0} where
  abbrev pub pure : A → Check S A
  pure a s = ok a

  abbrev pub asks : (S → A) → Check S A
  asks f s = ok (f s)

  -- if (!value) throw new AppError(code, …, status)
  abbrev pub or_throw : Option A → ErrorCode → ℕ → Check S A
  or_throw none code status s = err (app_error code status)
  or_throw (some a) code status s = ok a

  abbrev pub or_raise : Option A → Error → Check S A
  or_raise none e s = err e
  or_raise (some a) e s = ok a

module _ {S : Type 0} where
  -- if (test) throw new AppError(code, …, status)
  abbrev pub throw_if : Bool → ErrorCode → ℕ → Check S Unit
  throw_if test code status s = if test then err (app_error code status) else ok tt

module _ {S A B : Type 0} where
  infixl 5 ◌>>=◌ ◌>>◌
  abbrev pub ◌>>=◌ : Check S A → (A → Check S B) → Check S B
  ◌>>=◌ m f s = elim (m s) [ ok a ↦ f a s | err e ↦ err e ]

  abbrev pub ◌>>◌ : Check S A → Check S B → Check S B
  m >> k = m >>= λ _. k
