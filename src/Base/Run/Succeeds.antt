-- ===== src/Base/Run/Succeeds.antt =====
-- Rules for runs that return a value: from the states of one predicate they end with no error and no
-- panic, in a state of another.
use mathlib.Core.Path.{◌≡◌, refl}
use mathlib.Core.Logic.{◌⊎◌, inl, inr}
use mathlib.Core.Bool.{Bool, true, false}
use mathlib.Core.Option.{Option, some}
use sso_operator.Base.Tests.{if◌then◌else◌}
use sso_operator.Base.Text.{Str}
use sso_operator.Base.Run.{
  Error, Outcome, ok, err, panic, Reply, reply, failed, Run, Call, call, outcome, pure, deref,
  catch, handle_error, try, wrap_err, continue, ◌>>=◌,
}

module _ {S A : Type 0} where
  abbrev pub Returned : (A → Type 0) → (S → Type 0) → Outcome A → S → Type 0
  Returned Q Post (ok a) t = Q a × Post t
  Returned Q Post (err e) t = ⊥
  Returned Q Post panic t = ⊥

  pub record Succeeds (Pre Post : S → Type 0) (m : Run S A) (Q : A → Type 0) : Type 0 where
    pub at : (s : S) → Pre s → Returned Q Post (m s).0 (m s).1

  abbrev pub Answered : (A → Type 0) → (Error → Type 0) → (S → Type 0) → Reply A → S → Type 0
  Answered Q E Post (reply a) t = Q a × Post t
  Answered Q E Post (failed e) t = E e × Post t

  -- A request: what its answer and its error are like.
  pub record Answers (Pre Post : S → Type 0) (q : Call S A) (Q : A → Type 0) (E : Error → Type 0)
      : Type 0 where
    pub at : (s : S) → Pre s → Answered Q E Post (q s).0 (q s).1

  -- It answers, and nothing is said of the answer.
  abbrev pub Replies : (S → Type 0) → Call S A → Type 0
  Replies I q = Answers I I q (λ _. Unit {0}) (λ _. ⊥)

module _ {S A B : Type 0} {Pre I Post : S → Type 0} where
  pub Succeeds-bind :
      {R : A → Type 0} {Q : B → Type 0} (m : Run S A) (f : A → Run S B)
      → Succeeds Pre I m R
      → ((a : A) → R a → Succeeds I Post (f a) Q)
      → Succeeds Pre Post (m >>= f) Q
  Succeeds-bind {R} {Q} m f sm sf = record { at = λ s h. go (m s).0 (m s).1 (sm.at s h) }
    where
      go :
          (o : Outcome A) (t : S)
          → Returned R I o t
          → Returned Q Post (continue o f t).0 (continue o f t).1
      go (ok a) t (r, h) = (sf a r).at t h
      go (err e) t h = absurd h
      go panic t h = absurd h

module _ {S A : Type 0} {I : S → Type 0} {Q : A → Type 0} where
  pub Succeeds-pure : (a : A) → Q a → Succeeds I I (pure a) Q
  Succeeds-pure a q = record { at = λ s h. (q, h) }

  pub Succeeds-deref : {o : Option A} (a : A) → o ≡ some a → Q a → Succeeds I I (deref o) Q
  Succeeds-deref {o} a e q = rw e (Succeeds-pure a q)

module _ {S A : Type 0} {Pre Post : S → Type 0} where
  pub Succeeds-catch :
      {Q : A → Type 0} (m : Run S A) (k : Error → Run S A)
      → Succeeds Pre Post m Q
      → Succeeds Pre Post (catch m k) Q
  Succeeds-catch {Q} m k sm = record { at = λ s h. go (m s).0 (m s).1 (sm.at s h) }
    where
      go :
          (o : Outcome A) (t : S)
          → Returned Q Post o t
          → Returned Q Post (handle_error o k t).0 (handle_error o k t).1
      go (ok a) t h = h
      go (err e) t h = absurd h
      go panic t h = absurd h

  pub Succeeds-wrap_err :
      {Q : A → Type 0} (text : Str) (m : Run S A)
      → Succeeds Pre Post m Q
      → Succeeds Pre Post (wrap_err text m) Q
  Succeeds-wrap_err text m sm = Succeeds-catch m _ sm

  pub Succeeds-call :
      {Q : A → Type 0} (q : Call S A) → Answers Pre Post q Q (λ _. ⊥) → Succeeds Pre Post (call q) Q
  Succeeds-call {Q} q answers = record { at = λ s h. go (q s).0 (q s).1 (answers.at s h) }
    where
      go : (r : Reply A) (t : S) → Answered Q (λ _. ⊥) Post r t → Returned Q Post (outcome r) t
      go (reply a) t h = h
      go (failed e) t h = absurd h.0

  -- A request that may fail, where what follows its error succeeds.
  pub Succeeds-catch_call :
      {Q : A → Type 0} {E : Error → Type 0} (q : Call S A) (k : Error → Run S A)
      → Answers Pre Post q Q E
      → ((e : Error) → E e → Succeeds Post Post (k e) Q)
      → Succeeds Pre Post (catch (call q) k) Q
  Succeeds-catch_call {Q} {E} q k answers sk = record {
    at = λ s h. go (q s).0 (q s).1 (answers.at s h);
  }
    where
      go :
          (r : Reply A) (t : S)
          → Answered Q E Post r t
          → Returned Q Post (handle_error (outcome r) k t).0 (handle_error (outcome r) k t).1
      go (reply a) t h = h
      go (failed e) t h = (sk e h.0).at t h.1

  -- The same, where the answer is looked at before the error is.
  pub Succeeds-catch_map :
      {B : Type 0} {Q : A → Type 0} {E : Error → Type 0} {R : B → Type 0} (q : Call S A) (f : A → B)
      (k : Error → Run S B)
      → Answers Pre Post q Q E
      → ((a : A) → Q a → R (f a))
      → ((e : Error) → E e → Succeeds Post Post (k e) R)
      → Succeeds Pre Post (catch (call q >>= λ a. pure (f a)) k) R
  Succeeds-catch_map {B} {Q} {E} {R} q f k answers answered refused = record {
    at = λ s h. go (q s).0 (q s).1 (answers.at s h);
  }
    where
      go :
          (r : Reply A) (t : S)
          → Answered Q E Post r t
          → Returned R Post
              (catch ((λ u. (outcome r, u)) >>= λ a. pure (f a)) k t).0
              (catch ((λ u. (outcome r, u)) >>= λ a. pure (f a)) k t).1
      go (reply a) t h = (answered a h.0, h.1)
      go (failed e) t h = (refused e h.0).at t h.1

  -- A request whose answer is looked at later.
  pub Succeeds-try :
      {Q : A → Type 0} {E : Error → Type 0} {B : Type 0} {R : B → Type 0} (q : Call S A)
      (f : A ⊎ Error → Run S B)
      → Answers Pre Post q Q E
      → ((a : A) → Q a → Succeeds Post Post (f (inl a)) R)
      → ((e : Error) → E e → Succeeds Post Post (f (inr e)) R)
      → Succeeds Pre Post (try (call q) >>= f) R
  Succeeds-try {Q} {E} {B} {R} q f answers answered refused = record {
    at = λ s h. go (q s).0 (q s).1 (answers.at s h);
  }
    where
      go :
          (r : Reply A) (t : S)
          → Answered Q E Post r t
          → Returned R Post
              ((try (λ u. (outcome r, u)) >>= f) t).0
              ((try (λ u. (outcome r, u)) >>= f) t).1
      go (reply a) t h = (answered a h.0).at t h.1
      go (failed e) t h = (refused e h.0).at t h.1

  pub Succeeds-if :
      {Q : A → Type 0} (b : Bool) (m n : Run S A)
      → Succeeds Pre Post m Q
      → Succeeds Pre Post n Q
      → Succeeds Pre Post (if b then m else n) Q
  Succeeds-if true m n sm sn = sm
  Succeeds-if false m n sm sn = sn

  pub Succeeds-weaken :
      {Q R : A → Type 0} (m : Run S A)
      → ((a : A) → Q a → R a)
      → Succeeds Pre Post m Q
      → Succeeds Pre Post m R
  Succeeds-weaken {Q} {R} m k sm = record { at = λ s h. go (m s).0 (m s).1 (sm.at s h) }
    where
      go : (o : Outcome A) (t : S) → Returned Q Post o t → Returned R Post o t
      go (ok a) t h = (k a h.0, h.1)
      go (err e) t h = absurd h
      go panic t h = absurd h

  -- The run, with its value and its last state.
  pub Succeeds-run :
      {Q : A → Type 0} (m : Run S A)
      → Succeeds Pre Post m Q
      → (s : S) → Pre s
      → (a : A) × (t : S) × (m s ≡ (ok a, t)) × Q a × Post t
  Succeeds-run {Q} m sm s p = go (m s).0 (m s).1 refl (sm.at s p)
    where
      go :
          (o : Outcome A) (u : S)
          → m s ≡ (o, u)
          → Returned Q Post o u
          → (a : A) × (t : S) × (m s ≡ (ok a, t)) × Q a × Post t
      go (ok a) u e h = (a, u, e, h.0, h.1)
      go (err x) u e h = absurd h
      go panic u e h = absurd h
