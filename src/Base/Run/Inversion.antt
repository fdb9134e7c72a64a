-- ===== src/Base/Run/Inversion.antt =====
-- What a run that returned says of its parts.
use mathlib.Core.Path.{◌≡◌, refl, ◌∙◌}
use mathlib.Core.Logic.{◌⊎◌, inl, inr}
use mathlib.Core.Option.{Option, none, some}
use native.Mathlib.Omega.{arith}
use sso_operator.Base.Text.{Str}
use sso_operator.Base.Run.{
  Error, Reply, reply, failed, Outcome, ok, err, panic, Run, Call, pure, call, catch, try, wrap_err,
  deref, outcome, handle_error, continue, ◌>>=◌,
}

module _ {S A : Type 0} where
  pub call-ok : (q : Call S A) (s t : S) {a : A} → call q s ≡ (ok a, t) → q s ≡ (reply a, t)
  call-ok q s t {a} h = go (q s).0 (q s).1 h
    where
      go :
          (r : Reply A) (u : S)
          → ◌≡◌ {A = Outcome A × S} (outcome r, u) (ok a, t)
          → ◌≡◌ {A = Reply A × S} (r, u) (reply a, t)
      go (reply b) u k = ground arith
      go (failed e) u k = ground arith

  pub pure-ok : (a : A) (s t : S) {b : A} → pure a s ≡ (ok b, t) → (a ≡ b) × (s ≡ t)
  pure-ok a s t h = ground arith

  pub catch-ok :
      (m : Run S A) (h : Error → Run S A) (s t : S) {a : A}
      → catch m h s ≡ (ok a, t)
      → (m s ≡ (ok a, t)) ⊎ ((e : Error) × (u : S) × (m s ≡ (err e, u)) × (h e u ≡ (ok a, t)))
  catch-ok m h s t {a} k = go (m s).0 (m s).1 refl k
    where
      go :
          (o : Outcome A) (u : S)
          → m s ≡ (o, u)
          → handle_error o h u ≡ (ok a, t)
          → (m s ≡ (ok a, t)) ⊎ ((e : Error) × (u : S) × (m s ≡ (err e, u)) × (h e u ≡ (ok a, t)))
      go (ok b) u p k = inl (p ∙ k)
      go (err e) u p k = inr (e, u, p, k)
      go panic u p k = cc

  pub wrap_err-ok :
      (text : Str) (m : Run S A) (s t : S) {a : A} → wrap_err text m s ≡ (ok a, t) → m s ≡ (ok a, t)
  wrap_err-ok text m s t {a} h = elim (catch-ok m _ s t h) [ inl k ↦ k | inr (e, u, p, k) ↦ cc ]

  -- A request whose error is wrapped.
  pub wrap_err-call-ok :
      (text : Str) (q : Call S A) (s t : S) {a : A}
      → wrap_err text (call q) s ≡ (ok a, t)
      → q s ≡ (reply a, t)
  wrap_err-call-ok text q s t h = call-ok q s t (wrap_err-ok text (call q) s t h)

  pub deref-ok : (o : Option A) (s t : S) {a : A} → deref o s ≡ (ok a, t) → (o ≡ some a) × (s ≡ t)
  deref-ok none s t h = ground arith
  deref-ok (some b) s t h = ground arith

module _ {S A B : Type 0} where
  pub bind-ok :
      (m : Run S A) (f : A → Run S B) (s t : S) {b : B}
      → (m >>= f) s ≡ (ok b, t)
      → (a : A) × (u : S) × (m s ≡ (ok a, u)) × (f a u ≡ (ok b, t))
  bind-ok m f s t {b} h = go (m s).0 (m s).1 refl h
    where
      go :
          (o : Outcome A) (u : S)
          → m s ≡ (o, u)
          → continue o f u ≡ (ok b, t)
          → (a : A) × (u : S) × (m s ≡ (ok a, u)) × (f a u ≡ (ok b, t))
      go (ok a) u p k = (a, u, p, k)
      go (err e) u p k = cc
      go panic u p k = cc

  -- A request whose answer is looked at later either answered or failed.
  pub try-call-ok :
      (q : Call S A) (f : A ⊎ Error → Run S B) (s t : S) {b : B}
      → (try (call q) >>= f) s ≡ (ok b, t)
      → ((a : A) × (u : S) × (q s ≡ (reply a, u)) × (f (inl a) u ≡ (ok b, t)))
        ⊎ ((e : Error) × (u : S) × (q s ≡ (failed e, u)) × (f (inr e) u ≡ (ok b, t)))
  try-call-ok q f s t {b} h = go (q s).0 (q s).1 refl h
    where
      go :
          (r : Reply A) (u : S)
          → q s ≡ (r, u)
          → (try (λ v. (outcome r, v)) >>= f) u ≡ (ok b, t)
          → ((a : A) × (u : S) × (q s ≡ (reply a, u)) × (f (inl a) u ≡ (ok b, t)))
            ⊎ ((e : Error) × (u : S) × (q s ≡ (failed e, u)) × (f (inr e) u ≡ (ok b, t)))
      go (reply a) u p k = inl (a, u, p, k)
      go (failed e) u p k = inr (e, u, p, k)
