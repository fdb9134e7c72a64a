-- ===== src/Base/Run.antt =====
-- A call of a Go function over a state it may change: it returns a value, returns an error, or
-- panics, and what it changed stays changed.
pub mod Triple
pub mod Inversion
pub mod Keeps
pub mod Succeeds
pub mod Returns
use mathlib.Core.Logic.{◌⊎◌, inl, inr}
use mathlib.Core.Option.{Option, none, some}
use sso_operator.Base.Text.{Str}

-- An `error`. `fault` is one that code outside the repository made, with the reason and the text
-- it carries; `message` is `errors.New` and `fmt.Errorf`; `wrap` is `errors.Wrap` of an error.
pub data Error : Type 0 where
  fault : Str → Str → Error
  message : Str → Error
  wrap : Error → Str → Error

-- What a call of code outside the repository gives back.
pub data Reply (A : Type 0) : Type 0 where
  reply : A → Reply A
  failed : Error → Reply A

pub data Outcome (A : Type 0) : Type 0 where
  ok : A → Outcome A
  err : Error → Outcome A
  panic : Outcome A

abbrev pub Run : Type 0 → Type 0 → Type 0
Run S A = S → Outcome A × S

-- A request to code outside the repository.
abbrev pub Call : Type 0 → Type 0 → Type 0
Call S A = S → Reply A × S

abbrev pub outcome : {A : Type 0} → Reply A → Outcome A
outcome (reply a) = ok a
outcome (failed e) = err e

abbrev result_of : {A : Type 0} → Outcome A → Outcome (A ⊎ Error)
result_of (ok a) = ok (inl a)
result_of (err e) = ok (inr e)
result_of panic = panic

module _ {S A : Type 0} where
  abbrev pub pure : A → Run S A
  pure a s = (ok a, s)

  abbrev pub raise : Error → Run S A
  raise e s = (err e, s)

  abbrev pub crash : Run S A
  crash s = (panic, s)

  abbrev pub call : Call S A → Run S A
  call c s = let (r, s') = c s in (outcome r, s')

  -- A dereference, which panics at nil.
  abbrev pub deref : Option A → Run S A
  deref none = crash
  deref (some a) = pure a

  abbrev handle_error : Outcome A → (Error → Run S A) → Run S A
  handle_error (ok a) h s = (ok a, s)
  handle_error (err e) h s = h e s
  handle_error panic h s = (panic, s)

  -- `if err != nil { … }`
  abbrev pub catch : Run S A → (Error → Run S A) → Run S A
  catch m h s = let (r, s') = m s in handle_error r h s'

  -- `value, err := …`, looked at later.
  abbrev pub try : Run S A → Run S (A ⊎ Error)
  try m s = let (r, s') = m s in (result_of r, s')

  -- `if err != nil { return errors.Wrap(err, text) }`
  abbrev pub wrap_err : Str → Run S A → Run S A
  wrap_err text m = catch m (λ e. raise (wrap e text))

module _ {S A B : Type 0} where
  abbrev continue : Outcome A → (A → Run S B) → Run S B
  continue (ok a) f s = f a s
  continue (err e) f s = (err e, s)
  continue panic f s = (panic, s)

  infixl 5 ◌>>=◌ ◌>>◌
  abbrev pub ◌>>=◌ : Run S A → (A → Run S B) → Run S B
  ◌>>=◌ m f s = let (r, s') = m s in continue r f s'

  abbrev pub ◌>>◌ : Run S A → Run S B → Run S B
  m >> k = m >>= λ _. k
