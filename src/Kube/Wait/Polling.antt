-- ===== src/Kube/Wait/Polling.antt =====
-- What `wait.Poll` and `wait.PollImmediate` of k8s.io/apimachinery do, as a relation: they try the
-- condition again and again, and the cluster goes its own way between two tries.
use sso_operator.Base.{ℕ, ◌≡◌, ap, ◌∙◌, Bool, true, false}
use sso_operator.Base.Run.{Error, Outcome, ok, err, panic, Run}
use sso_operator.Platform.{Platform}

module _ {S : Type 0} (condition : Run S Bool) where
  -- The condition is tried at `s`, or at a later state; the poll ends by the condition's word, or
  -- gives up with an error.
  pub data Polls (r : Outcome (Unit {0})) (t : S) : S → Type 0 where
    passed : {s : S} → condition s ≡ (ok true, t) → r ≡ ok tt → Polls r t s
    refused : {s : S} (e : Error) → condition s ≡ (err e, t) → r ≡ err e → Polls r t s
    crashed : {s : S} → condition s ≡ (panic, t) → r ≡ panic → Polls r t s
    gave_up : {s : S} (e : Error) → r ≡ err e → Polls r t s
    sleeps : {s u : S} → Polls r t u → Polls r t s
    again : {s u v : S} → condition s ≡ (ok false, u) → Polls r t v → Polls r t s

  -- A poll that returns with no error has seen the condition hold, in the end.
  pub Polls-ok :
      {r : Outcome (Unit {0})} {t s : S}
      → Polls r t s
      → r ≡ ok tt
      → (u : S) × (condition u ≡ (ok true, t))
  Polls-ok (passed {s} h e) k = (s, h)
  Polls-ok (refused e h p) k = cc
  Polls-ok (crashed h p) k = cc
  Polls-ok (gave_up e p) k = cc
  Polls-ok (sleeps p) k = Polls-ok p k
  Polls-ok (again h p) k = Polls-ok p k

module _ (P : Platform) where
  open P use {Cluster, poll, poll_immediate}

  -- The documented behaviour of the two polls.
  pub record PollsSoundly : Type 0 where
    pub polls :
        (interval timeout : ℕ) (condition : Run Cluster Bool) (c : Cluster)
        → Polls condition
            (poll interval timeout condition c).0
            (poll interval timeout condition c).1
            c
    pub polls_immediate :
        (interval timeout : ℕ) (condition : Run Cluster Bool) (c : Cluster)
        → Polls condition
            (poll_immediate interval timeout condition c).0
            (poll_immediate interval timeout condition c).1
            c

  module _ (sound : PollsSoundly) (interval timeout : ℕ) (condition : Run Cluster Bool) where
    pub poll-ok :
        (c c' : Cluster)
        → poll interval timeout condition c ≡ (ok tt, c')
        → (u : Cluster) × (condition u ≡ (ok true, c'))
    poll-ok c c' h =
        let (u, k) =
          Polls-ok condition (sound.polls interval timeout condition c) (ap (λ x. x.0) h) in
        (u, k ∙ ap (λ (x : Outcome (Unit {0}) × Cluster). (ok true, x.1)) h)

    pub poll_immediate-ok :
        (c c' : Cluster)
        → poll_immediate interval timeout condition c ≡ (ok tt, c')
        → (u : Cluster) × (condition u ≡ (ok true, c'))
    poll_immediate-ok c c' h =
        let (u, k) =
          Polls-ok condition (sound.polls_immediate interval timeout condition c)
            (ap (λ x. x.0) h) in
        (u, k ∙ ap (λ (x : Outcome (Unit {0}) × Cluster). (ok true, x.1)) h)
