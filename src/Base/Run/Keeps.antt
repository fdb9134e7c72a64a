-- ===== src/Base/Run/Keeps.antt =====
-- Rules for what a run leaves true of the state however it ends: with a value, an error or a panic.
use mathlib.Core.Path.{◌≡◌, refl}
use mathlib.Core.Bool.{Bool, true, false}
use mathlib.Core.Option.{Option, none, some}
use sso_operator.Base.Tests.{if◌then◌else◌}
use sso_operator.Base.Text.{Str}
use sso_operator.Base.Run.{
  Error, Outcome, ok, err, panic, Run, Call, call, wrap_err, deref, pure, raise, catch,
  handle_error, continue, ◌>>=◌,
}

module _ {S : Type 0} where
  pub record Keeps {A : Type 0} (I : S → Type 0) (m : Run S A) : Type 0 where
    pub at : (s : S) → I s → I (m s).1

module _ {S A : Type 0} {I : S → Type 0} where
  pub Keeps-pure : (a : A) → Keeps I (pure a)
  Keeps-pure a = record { at = λ s h. h }

  pub Keeps-raise : (e : Error) → Keeps {A = A} I (raise e)
  Keeps-raise e = record { at = λ s h. h }

  pub Keeps-call : (q : Call S A) → ((s : S) → I s → I (q s).1) → Keeps I (call q)
  Keeps-call q h = record { at = h }

  pub Keeps-catch :
      (m : Run S A) (k : Error → Run S A)
      → Keeps I m
      → ((e : Error) → Keeps I (k e))
      → Keeps I (catch m k)
  Keeps-catch m k km kk = record { at = λ s h. go (m s).0 (m s).1 (km.at s h) }
    where
      go : (o : Outcome A) (t : S) → I t → I (handle_error o k t).1
      go (ok a) t h = h
      go (err e) t h = (kk e).at t h
      go panic t h = h

  pub Keeps-wrap_err : (text : Str) (m : Run S A) → Keeps I m → Keeps I (wrap_err text m)
  Keeps-wrap_err text m km = Keeps-catch m _ km (λ e. record { at = λ s h. h })

  pub Keeps-if : (b : Bool) (m n : Run S A) → Keeps I m → Keeps I n → Keeps I (if b then m else n)
  Keeps-if true m n km kn = km
  Keeps-if false m n km kn = kn

module _ {S A B : Type 0} {I : S → Type 0} where
  -- The rest of the run may use that the first part returned its value.
  pub Keeps-bind_ok :
      (m : Run S A) (f : A → Run S B)
      → Keeps I m
      → ((a : A) (s t : S) → I s → m s ≡ (ok a, t) → I t → I (f a t).1)
      → Keeps I (m >>= f)
  Keeps-bind_ok m f km kf = record { at = λ s h. go s h (m s).0 (m s).1 refl (km.at s h) }
    where
      go : (s : S) → I s → (o : Outcome A) (t : S) → m s ≡ (o, t) → I t → I (continue o f t).1
      go s i (ok a) t e h = kf a s t i e h
      go s i (err x) t e h = h
      go s i panic t e h = h

  pub Keeps-bind :
      (m : Run S A) (f : A → Run S B) → Keeps I m → ((a : A) → Keeps I (f a)) → Keeps I (m >>= f)
  Keeps-bind m f km kf = Keeps-bind_ok m f km (λ a s t i e h. (kf a).at t h)

  -- A dereference at nil ends the run.
  pub Keeps-deref :
      (o : Option A) (f : A → Run S B)
      → ((a : A) → o ≡ some a → Keeps I (f a))
      → Keeps I (deref o >>= f)
  Keeps-deref none f k = record { at = λ s h. h }
  Keeps-deref (some a) f k = record { at = λ s h. (k a refl).at s h }
