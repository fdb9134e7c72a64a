-- ===== src/Operator/Handler/Refinement.antt =====
-- The handler against the registry of clients.
use sso_operator.Base.{
  ◌≡◌, ◌≢◌, refl, ap, sym, subst, Bool, true, false, ◌&&◌, inl, inr, Option, none, some, List, [],
  ◌∷◌, if◌then◌else◌,
}
use sso_operator.Base.Text.{Str, same}
use sso_operator.Base.Run.{Outcome, ok, err, panic}
use sso_operator.Base.Run.Keeps.{Keeps, Keeps-bind, Keeps-wrap_err}
use sso_operator.Objects.{OidcClient}
use sso_operator.Api.{Sso}
use sso_operator.Platform.{Platform}
use sso_operator.Dex.View.{View, DexLaws}
use sso_operator.Proxy.Resources.{convert_hosts_to_redirect_urls}
use sso_operator.Operator.Config.{Handler}
use sso_operator.Operator.Registry.{
  SameBut, Asked, passes, cleans, serves, Ended, returned, errored, panicked, Effect, idle,
  unchanged, registers, undone, removes, leaves, strands, Trace, none_yet, and_then,
}
use sso_operator.Operator.Handler.{
  World, Event, EventObject, sso_object, other_object, clean_up, initialize, handle_sso, handle,
}
use sso_operator.Operator.Handler.Creation.{AfterSuccess}
use sso_operator.Operator.Handler.Events.{Provisioned, CleanedUp, handle-settles, handle-restores}
use sso_operator.Operator.Handler.Foreign.{Is, in_cluster-Keeps, clean_up-Is}
use sso_operator.Operator.Handler.History.{handles, changes, History, start, next, handle-Stays}

convert-ne :
    (hosts : List Str) (urls : List Str)
    → hosts ≢ []
    → urls ≡ convert_hosts_to_redirect_urls hosts
    → urls ≢ []
unfolding convert_hosts_to_redirect_urls
convert-ne [] urls h e = absurd (h refl)
convert-ne (host ∷ hosts) urls h e = λ k. cc

-- What an event asks for: one about a deleted resource that was initialized, to clean up the client of
-- its status; another about an SSO resource, to serve it; any other, nothing.
abbrev pub asks : Bool → EventObject → Asked
asks deleted other_object = passes
asks deleted (sso_object sso) =
    if deleted && sso.status.initialized then cleans sso.status.client_id else serves

abbrev pub ended_of : Outcome (Unit {0}) → Ended
ended_of (ok done) = returned
ended_of (err e) = errored
ended_of panic = panicked

-- What the events of a history asked for and how they were handled, the latest first.
abbrev pub labels : (P : Platform) {w v : World P} → History P w v → List (Asked × Ended)
labels P start = []
labels P (next {u = u} r (handles h event e)) =
    (asks event.deleted event.object, ended_of (handle P h event u).0) ∷ labels P r
labels P (next r (changes e)) = labels P r

module _ (P : Platform) (nil : (text : Str) → P.wrapf_nil text ≡ none) (clients : View P)
    (laws : DexLaws P clients) where
  module _ (h : Handler) (deleted : Bool) (sso : Sso) where
    abbrev asked : Event
    asked = record { deleted = deleted; object = sso_object sso }

    -- A clean-up, however it ends.
    clean_up-elsewhere :
        (deleted && sso.status.initialized) ≡ true
        → (j : Str) (x : Option OidcClient) → same j sso.status.client_id ≡ false
        → Keeps (Is P clients laws j x) (handle P h asked)
    unfolding handle handle_sso
    clean_up-elsewhere gone j x other =
        Keeps-bind _ _ (Keeps-wrap_err _ _ (in_cluster-Keeps P clients laws j x _))
          (by_branch (deleted && sso.status.initialized) gone)
      where
        by_branch :
            (b : Bool)
            → b ≡ true
            → (account : Str)
            → Keeps
                (Is P clients laws j x)
                (if b then clean_up P sso account else initialize P h sso account)
        by_branch true e account = clean_up-Is P clients laws j x sso account other
        by_branch false e account = cc

    success-Effect :
        (w v : World P)
        → AfterSuccess P nil clients laws sso w.dex v
        → Effect serves returned (clients w.dex) (clients v.dex)
    success-Effect w v
          (
            c,
            d',
            created,
            absent,
            elsewhere,
            (hosts, some_host, ((k, there, urls), agrees)),
            stored,
          ) =
        registers c.id k absent there (convert-ne hosts k.redirect_uris some_host urls) elsewhere

    Provisioned-Effect :
        (w v : World P)
        → Provisioned P nil clients laws sso w.dex v
        → Effect serves returned (clients w.dex) (clients v.dex)
    Provisioned-Effect w v (inl e) = unchanged (λ j. ap (λ d. clients d j) e)
    Provisioned-Effect w v (inr success) = success-Effect w v success

    cleaned_elsewhere :
        (w v : World P) (o : Outcome (Unit {0}))
        → (deleted && sso.status.initialized) ≡ true
        → handle P h asked w ≡ (o, v)
        → SameBut sso.status.client_id (clients w.dex) (clients v.dex)
    cleaned_elsewhere w v o gone q j other =
        subst (λ (r : Outcome (Unit {0}) × World P). clients r.1.dex j ≡ clients w.dex j) q
          ((clean_up-elsewhere gone j (clients w.dex j) other).at w refl)

    -- An event that asks for a clean-up.
    cleaned-Effect :
        (w v : World P) (o : Outcome (Unit {0}))
        → (deleted && sso.status.initialized) ≡ true
        → handle P h asked w ≡ (o, v)
        → Effect (cleans sso.status.client_id) (ended_of o) (clients w.dex) (clients v.dex)
    cleaned-Effect w v (ok done) gone q = removes (
        subst
          (λ b.
            if b
            then CleanedUp P nil clients laws sso w.dex v
            else Provisioned P nil clients laws sso w.dex v)
          gone (handle-settles P nil clients laws sso w.dex h deleted w v refl q))
    cleaned-Effect w v (err x) gone q = leaves (λ e. cc) (cleaned_elsewhere w v (err x) gone q)
    cleaned-Effect w v panic gone q = leaves (λ e. cc) (cleaned_elsewhere w v panic gone q)

    none_lost :
        (w v : World P) (o : Outcome (Unit {0}))
        → (deleted && sso.status.initialized) ≡ false
        → handle P h asked w ≡ (o, v)
        → (j : Str) (k : OidcClient) → clients w.dex j ≡ some k
        → clients v.dex j ≡ some k
    none_lost w v o live q j k old =
        subst (λ (r : Outcome (Unit {0}) × World P). clients r.1.dex j ≡ some k) q
          ((handle-Stays P nil clients laws j k h deleted (sso_object sso) (λ gone. cc)).at w old)

    -- Any other event.
    live-Effect :
        (w v : World P) (o : Outcome (Unit {0}))
        → (deleted && sso.status.initialized) ≡ false
        → handle P h asked w ≡ (o, v)
        → Effect serves (ended_of o) (clients w.dex) (clients v.dex)
    live-Effect w v (ok done) live q = Provisioned-Effect w v (
        subst
          (λ b.
            if b
            then CleanedUp P nil clients laws sso w.dex v
            else Provisioned P nil clients laws sso w.dex v)
          live (handle-settles P nil clients laws sso w.dex h deleted w v refl q))
    live-Effect w v (err x) live q =
        elim (handle-restores P nil clients laws sso w.dex h deleted w v x refl q) [
          | inl restored ↦ undone restored
          | inr in_doubt ↦ strands (λ e. cc) (none_lost w v (err x) live q)
        ]
    live-Effect w v panic live q = strands (λ e. cc) (none_lost w v panic live q)

  handle-Effect :
      (h : Handler) (deleted : Bool) (object : EventObject) (w : World P)
      → Effect
          (asks deleted object)
          (ended_of (handle P h (record { deleted = deleted; object = object }) w).0)
          (clients w.dex)
          (clients (handle P h (record { deleted = deleted; object = object }) w).1.dex)
  unfolding handle
  handle-Effect h deleted other_object w = idle (λ j. refl)
  handle-Effect h deleted (sso_object sso) w = by_branch (deleted && sso.status.initialized) refl
    where
      by_branch :
          (b : Bool)
          → (deleted && sso.status.initialized) ≡ b
          → Effect
              (if b then cleans sso.status.client_id else serves)
              (ended_of (handle P h (record { deleted = deleted; object = sso_object sso }) w).0)
              (clients w.dex)
              (clients (handle P h (record { deleted = deleted; object = sso_object sso }) w).1.dex)
      by_branch true gone = cleaned-Effect h deleted sso w _ _ gone refl
      by_branch false live = live-Effect h deleted sso w _ _ live refl

  -- Where dex keeps `DexLaws` and wrapping a nil error gives nil: over any history of events, handled
  -- with no error, with an error or with a panic, and of changes of the cluster, dex's clients go
  -- through a trace of the registry, with one effect for each event, of what it asks for and how it
  -- ended. An event about a deleted and initialized resource that is handled with no error removes
  -- the client of the resource's status and no other, and one that is not leaves all but that client
  -- as they were. Any other event about an SSO resource leaves the registry as it was or registers
  -- one client under a new id and with a redirect URL, if it is handled with no error; with an error
  -- it leaves the registry as it was, or loses no client; with a panic it loses no client. An event
  -- about another object is handled with no error and leaves the registry as it was.
  pub History-Trace :
      {w v : World P} (r : History P w v) → Trace (clients w.dex) (labels P r) (clients v.dex)
  History-Trace start = none_yet (λ j. refl)
  History-Trace (next {u = u} r (handles h event e)) = and_then (History-Trace r) (
      subst
        (λ z.
          Effect (asks event.deleted event.object) (ended_of (handle P h event u).0) (clients u.dex)
            (clients z.dex))
        (sym e) (handle-Effect h event.deleted event.object u))
  History-Trace {w = w} (next r (changes e)) =
      subst (λ d. Trace (clients w.dex) (labels P r) (clients d)) (sym e) (History-Trace r)
