-- ===== src/Base/Run/Returns.antt =====
-- Rules for runs that return a value or an error and do not panic, and the ruleset that applies them.
use mathlib.Core.Path.{◌≡◌, refl}
use mathlib.Core.Logic.{◌≢◌}
use mathlib.Core.Bool.{Bool, true, false}
use mathlib.Core.Option.{Option, some}
use sso_operator.Base.Tests.{if◌then◌else◌}
use sso_operator.Base.Text.{Str}
use sso_operator.Base.Run.{
  Error, Outcome, ok, err, panic, Reply, reply, failed, Run, Call, call, outcome, result_of, pure,
  raise, deref, catch, handle_error, try, wrap_err, continue, ◌>>=◌,
}

module _ {S A : Type 0} where
  pub record Returns (m : Run S A) : Type 0 where
    pub at : (s : S) → (m s).0 ≢ panic

module _ {S A : Type 0} where
  pub Returns-pure : (a : A) → Returns {S = S} (pure a)
  Returns-pure a = record { at = λ s. λ e. cc }

  pub Returns-raise : (e : Error) → Returns {S = S} {A = A} (raise e)
  Returns-raise e = record { at = λ s. λ p. cc }

  pub Returns-call : (q : Call S A) → Returns (call q)
  Returns-call q = record { at = λ s. go (q s).0 }
    where
      go : (r : Reply A) → outcome r ≢ panic
      go (reply a) e = cc
      go (failed x) e = cc

  pub Returns-catch :
      (m : Run S A) (k : Error → Run S A)
      → Returns m
      → ((e : Error) → Returns (k e))
      → Returns (catch m k)
  Returns-catch m k rm rk = record { at = λ s. go (m s).0 (m s).1 (rm.at s) }
    where
      go : (o : Outcome A) (t : S) → o ≢ panic → (handle_error o k t).0 ≢ panic
      go (ok a) t n = n
      go (err e) t n = (rk e).at t
      go panic t n = n

  pub Returns-wrap_err : (text : Str) (m : Run S A) → Returns m → Returns (wrap_err text m)
  Returns-wrap_err text m rm = Returns-catch m _ rm (λ e. Returns-raise _)

  pub Returns-try : (m : Run S A) → Returns m → Returns (try m)
  Returns-try m rm = record { at = λ s. go (m s).0 (rm.at s) }
    where
      go : (o : Outcome A) → o ≢ panic → result_of o ≢ panic
      go (ok a) n e = cc
      go (err x) n e = cc
      go panic n e = n refl

  pub Returns-if : (b : Bool) (m n : Run S A) → Returns m → Returns n → Returns (if b then m else n)
  Returns-if true m n rm rn = rm
  Returns-if false m n rm rn = rn

  pub Returns-deref : {o : Option A} (a : A) → o ≡ some a → Returns {S = S} (deref o)
  Returns-deref {o} a e = rw e (Returns-pure a)

module _ {S A B : Type 0} where
  -- The rest of the run may use that the first part returned its value.
  pub Returns-bind_ok :
      (m : Run S A) (f : A → Run S B)
      → Returns m
      → ((a : A) (s t : S) → m s ≡ (ok a, t) → Returns (f a))
      → Returns (m >>= f)
  Returns-bind_ok m f rm rf = record { at = λ s. go s (m s).0 (m s).1 refl (rm.at s) }
    where
      go : (s : S) (o : Outcome A) (t : S) → m s ≡ (o, t) → o ≢ panic → (continue o f t).0 ≢ panic
      go s (ok a) t e n = (rf a s t e).at t
      go s (err x) t e n = λ p. cc
      go s panic t e n = λ p. n refl

  pub Returns-bind :
      (m : Run S A) (f : A → Run S B) → Returns m → ((a : A) → Returns (f a)) → Returns (m >>= f)
  Returns-bind m f rm rf = Returns-bind_ok m f rm (λ a s t e. rf a)

pub ruleset returns_rules = (
  Returns-pure, Returns-raise, Returns-call, Returns-wrap_err, Returns-catch, Returns-try,
  Returns-if, Returns-bind,
)
