-- ===== src/Base/Run/Triple.antt =====
-- Hoare rules for runs: a precondition, what holds when a value comes back, and what holds when an
-- error comes back. Nothing is said of a panic.
use mathlib.Core.Bool.{Bool, true, false}
use mathlib.Core.Option.{Option, none, some}
use sso_operator.Base.Tests.{if◌then◌else◌}
use sso_operator.Base.Text.{Str}
use mathlib.Core.Path.{◌≡◌, refl, subst}
use sso_operator.Base.Run.{
  Error, Outcome, ok, err, panic, Reply, reply, failed, Run, Call, call, outcome, wrap, wrap_err,
  deref, pure, raise, catch, handle_error, continue, ◌>>=◌,
}

module _ {S A : Type 0} where
  abbrev pub Post : (A → S → Type 0) → (Error → S → Type 0) → Outcome A → S → Type 0
  Post Q E (ok a) t = Q a t
  Post Q E (err e) t = E e t
  Post Q E panic t = Unit {0}

  pub record Triple (Pre : S → Type 0) (m : Run S A) (Q : A → S → Type 0) (E : Error → S → Type 0)
      : Type 0 where
    pub at : (s : S) → Pre s → Post Q E (m s).0 (m s).1

module _ {S A B : Type 0} where
  pub Triple-bind :
      {Pre : S → Type 0} {R : A → S → Type 0} {Q : B → S → Type 0} {E : Error → S → Type 0}
      (m : Run S A) (f : A → Run S B)
      → Triple Pre m R E
      → ((a : A) → Triple (R a) (f a) Q E)
      → Triple Pre (m >>= f) Q E
  Triple-bind {Pre} {R} {Q} {E} m f tm tf = record { at = λ s h. go (m s).0 (m s).1 (tm.at s h) }
    where
      go : (o : Outcome A) (t : S) → Post R E o t → Post Q E (continue o f t).0 (continue o f t).1
      go (ok a) t h = (tf a).at t h
      go (err e) t h = h
      go panic t h = tt

module _ {S A : Type 0} where
  pub Triple-catch :
      {Pre : S → Type 0} {Q : A → S → Type 0} {R E : Error → S → Type 0} (m : Run S A)
      (k : Error → Run S A)
      → Triple Pre m Q R
      → ((e : Error) → Triple (R e) (k e) Q E)
      → Triple Pre (catch m k) Q E
  Triple-catch {Pre} {Q} {R} {E} m k tm tk = record { at = λ s h. go (m s).0 (m s).1 (tm.at s h) }
    where
      go :
          (o : Outcome A) (t : S)
          → Post Q R o t
          → Post Q E (handle_error o k t).0 (handle_error o k t).1
      go (ok a) t h = h
      go (err e) t h = (tk e).at t h
      go panic t h = tt

  pub Triple-pure :
      {Q : A → S → Type 0} {E : Error → S → Type 0} (a : A) → Triple (Q a) (pure a) Q E
  Triple-pure a = record { at = λ s h. h }

  pub Triple-raise :
      {Q : A → S → Type 0} {E : Error → S → Type 0} (e : Error) → Triple (E e) (raise e) Q E
  Triple-raise e = record { at = λ s h. h }

  -- From the triple of a run that returned, and of one that failed, to what holds after it.
  pub Triple-ok :
      {Pre : S → Type 0} {Q : A → S → Type 0} {E : Error → S → Type 0} (m : Run S A)
      → Triple Pre m Q E
      → (s t : S) {a : A} → m s ≡ (ok a, t)
      → Pre s
      → Q a t
  Triple-ok {Q} {E} m tm s t {a} h p = subst (λ (x : Outcome A × S). Post Q E x.0 x.1) h (tm.at s p)

  pub Triple-err :
      {Pre : S → Type 0} {Q : A → S → Type 0} {E : Error → S → Type 0} (m : Run S A)
      → Triple Pre m Q E
      → (s t : S) {e : Error} → m s ≡ (err e, t)
      → Pre s
      → E e t
  Triple-err {Q} {E} m tm s t {e} h p =
      subst (λ (x : Outcome A × S). Post Q E x.0 x.1) h (tm.at s p)

module _ {S A : Type 0} where
  -- A request: what holds after each of its answers.
  pub Triple-call :
      {Pre : S → Type 0} {Q : A → S → Type 0} {E : Error → S → Type 0} (q : Call S A)
      → ((s t : S) (a : A) → Pre s → q s ≡ (reply a, t) → Q a t)
      → ((s t : S) (e : Error) → Pre s → q s ≡ (failed e, t) → E e t)
      → Triple Pre (call q) Q E
  Triple-call {Pre} {Q} {E} q answered refused = record { at = λ s h. go s h (q s).0 (q s).1 refl }
    where
      go : (s : S) → Pre s → (r : Reply A) (t : S) → q s ≡ (r, t) → Post Q E (outcome r) t
      go s h (reply a) t e = answered s t a h e
      go s h (failed x) t e = refused s t x h e

  -- Where the error's own value does not matter, wrapping it changes nothing.
  pub Triple-wrap_err :
      {Pre : S → Type 0} {Q : A → S → Type 0} {E : S → Type 0} (text : Str) (m : Run S A)
      → Triple Pre m Q (λ _. E)
      → Triple Pre (wrap_err text m) Q (λ _. E)
  Triple-wrap_err {E} text m tm = Triple-catch m _ tm (λ e. Triple-raise {E = λ _. E} (wrap e text))

  pub Triple-deref :
      {Q : A → S → Type 0} {E : Error → S → Type 0} {Pre : S → Type 0} (o : Option A)
      → ((a : A) (s : S) → o ≡ some a → Pre s → Q a s)
      → Triple Pre (deref o) Q E
  Triple-deref none h = record { at = λ s p. tt }
  Triple-deref (some a) h = record { at = λ s p. h a s refl p }

  pub Post-map :
      {Q Q' : A → S → Type 0} {E E' : Error → S → Type 0}
      → ((a : A) (s : S) → Q' a s → Q a s)
      → ((e : Error) (s : S) → E' e s → E e s)
      → (o : Outcome A) (t : S) → Post Q' E' o t
      → Post Q E o t
  Post-map hq he (ok a) t h = hq a t h
  Post-map hq he (err e) t h = he e t h
  Post-map hq he panic t h = tt

  pub Triple-weaken :
      {Pre Pre' : S → Type 0} {Q Q' : A → S → Type 0} {E E' : Error → S → Type 0} (m : Run S A)
      → ((s : S) → Pre s → Pre' s)
      → ((a : A) (s : S) → Q' a s → Q a s)
      → ((e : Error) (s : S) → E' e s → E e s)
      → Triple Pre' m Q' E'
      → Triple Pre m Q E
  Triple-weaken {Q} {Q'} {E} {E'} m hp hq he tm = record {
    at = λ s p.
        Post-map {Q = Q} {Q' = Q'} {E = E} {E' = E'} hq he (m s).0 (m s).1 (tm.at s (hp s p));
  }

  pub Triple-if :
      {Pre : S → Type 0} {Q : A → S → Type 0} {E : Error → S → Type 0} (b : Bool) (m n : Run S A)
      → Triple Pre m Q E
      → Triple Pre n Q E
      → Triple Pre (if b then m else n) Q E
  Triple-if true m n tm tn = tm
  Triple-if false m n tm tn = tn

  -- A fact that stands beside the precondition.
  pub Triple-fact :
      {F : Type 0} {Pre : S → Type 0} {Q : A → S → Type 0} {E : Error → S → Type 0} (m : Run S A)
      → (F → Triple Pre m Q E)
      → Triple (λ s. F × Pre s) m Q E
  Triple-fact m tm = record { at = λ s h. (tm h.0).at s h.1 }

  -- A run that can neither return nor fail panics.
  pub Triple-panic :
      {Pre : S → Type 0} (m : Run S A)
      → Triple Pre m (λ _ _. ⊥) (λ _ _. ⊥)
      → (s : S) → Pre s
      → (m s).0 ≡ panic
  Triple-panic m tm s h = go (m s).0 (m s).1 (tm.at s h)
    where
      go : (o : Outcome A) (t : S) → Post {A = A} (λ _ (_ : S). ⊥) (λ _ _. ⊥) o t → o ≡ panic
      go (ok a) t p = absurd p
      go (err e) t p = absurd p
      go panic t p = refl

  -- Of every run.
  pub Triple-any :
      {Pre : S → Type 0} (m : Run S A) → Triple Pre m (λ _ _. Unit {0}) (λ _ _. Unit {0})
  Triple-any m = record { at = λ s h. go (m s).0 (m s).1 }
    where
      go : (o : Outcome A) (t : S) → Post {A = A} (λ _ (_ : S). Unit {0}) (λ _ _. Unit {0}) o t
      go (ok a) t = tt
      go (err e) t = tt
      go panic t = tt
