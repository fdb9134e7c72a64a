-- ===== src/Operator/Handler/History.antt =====
-- Any number of events, with changes of the cluster between them.
use sso_operator.Base.{
  ◌≡◌, refl, ap, ◌∙◌, Bool, true, false, ◌&&◌, Option, none, some, [], arith, if◌then◌else◌,
}
use sso_operator.Base.Text.{Str, same, same_iff}
use sso_operator.Base.Run.Keeps.{
  Keeps, Keeps-bind, Keeps-bind_ok, Keeps-catch, Keeps-wrap_err, Keeps-pure,
}
use sso_operator.Base.Run.Triple.{Triple-ok, Triple-wrap_err}
use sso_operator.Objects.{OidcClient}
use sso_operator.Api.{Sso}
use sso_operator.Platform.{Platform}
use sso_operator.Dex.View.{View, DexLaws}
use sso_operator.Dex.Foreign.{create_client-Keeps}
use sso_operator.Operator.Config.{Handler}
use sso_operator.Operator.Handler.{
  World, Event, EventObject, sso_object, other_object, clean_up, unless_initialized, initialize,
  handle_sso, handle,
}
use sso_operator.Operator.Handler.Rollback.{in_dex-Triple}
use sso_operator.Operator.Handler.Creation.{CreatedOrNil, create_client-Triple}
use sso_operator.Operator.Handler.Foreign.{
  Is, in_cluster-Keeps, in_dex-Keeps, provision-Is, clean_up-Is,
}

-- The event does not ask for the clean-up of the resource with this client.
abbrev pub SparesObject : Str → Bool → EventObject → Type 0
SparesObject j deleted other_object = Unit {0}
SparesObject j deleted (sso_object sso) =
    (deleted && sso.status.initialized) ≡ true → same j sso.status.client_id ≡ false

abbrev pub Spares : Str → Event → Type 0
Spares j event = SparesObject j event.deleted event.object

module _ (P : Platform) where
  -- What happens to the operator's world: a handler, one of any start of the operator, handles an
  -- event and ends in any way; or the cluster changes, by others or by the time.
  pub data Step (w v : World P) : Type 0 where
    handles : (h : Handler) (event : Event) → v ≡ (handle P h event w).1 → Step w v
    changes : v.dex ≡ w.dex → Step w v

  pub data History (w : World P) : World P → Type 0 where
    start : History w w
    next : {u v : World P} → History w u → Step u v → History w v

  abbrev pub StepSpares : (j : Str) {w v : World P} → Step w v → Type 0
  StepSpares j (handles h event e) = Spares j event
  StepSpares j (changes e) = Unit {0}

  -- No event of the history asks for the clean-up of the resource with this client.
  abbrev pub HistorySpares : (j : Str) {w v : World P} → History w v → Type 0
  HistorySpares j start = Unit {0}
  HistorySpares j (next r s) = HistorySpares j r × StepSpares j s

  module _ (nil : (text : Str) → P.wrapf_nil text ≡ none) (clients : View P)
      (laws : DexLaws P clients) (j : Str) (k : OidcClient) where
    abbrev Stays : World P → Type 0
    Stays = Is P clients laws j (some k)

    -- Where a client was created, its id is not one that dex had.
    new_id :
        (sso : Sso) (client : Option OidcClient) (w v : World P)
        → clients w.dex j ≡ some k
        → CreatedOrNil P nil clients laws sso w.dex client v.dex
        → (c : OidcClient) → client ≡ some c
        → same j c.id ≡ false
    new_id sso none w v old created c e = cc
    new_id sso (some new) w v old (resp, q, fresh, there) c e =
        let (absent, _) = laws.creates _ new w.dex v.dex resp q fresh there in
        ground (arith, same_iff j c.id)

    unless_initialized-Stays :
        (h : Handler) (sso : Sso) (account : Str) (initialized : Bool)
        → Keeps Stays (unless_initialized P h sso account initialized)
    unfolding unless_initialized
    unless_initialized-Stays h sso account true = Keeps-pure tt
    unless_initialized-Stays h sso account false =
        Keeps-bind_ok _ _
          (Keeps-wrap_err _ _ (
            in_dex-Keeps P clients laws j (some k) _
              (create_client-Keeps P clients laws j k _ [] false sso.meta.name [])))
          λ client w v old e kept.
            (provision-Is P clients laws j (some k) client
                (new_id sso client w v old (
                  Triple-ok _
                    (Triple-wrap_err _ _
                      (in_dex-Triple P _ (create_client-Triple P nil clients laws sso w.dex)))
                    w v e refl))
                h sso account).at
              v kept

    initialize-Stays :
        (h : Handler) (sso : Sso) (account : Str) → Keeps Stays (initialize P h sso account)
    unfolding initialize
    initialize-Stays h sso account =
        Keeps-bind _ _
          (Keeps-catch _ _ (in_cluster-Keeps P clients laws j (some k) _) (λ e. Keeps-pure false))
          (λ initialized. unless_initialized-Stays h sso account initialized)

    handle_sso-Stays :
        (h : Handler) (deleted : Bool) (sso : Sso)
        → SparesObject j deleted (sso_object sso)
        → Keeps Stays (handle_sso P h deleted sso)
    unfolding handle_sso
    handle_sso-Stays h deleted sso spares =
        Keeps-bind _ _ (Keeps-wrap_err _ _ (in_cluster-Keeps P clients laws j (some k) _))
          (by_branch (deleted && sso.status.initialized) spares)
      where
        by_branch :
            (b : Bool)
            → (b ≡ true → same j sso.status.client_id ≡ false)
            → (account : Str)
            → Keeps Stays (if b then clean_up P sso account else initialize P h sso account)
        by_branch true other account =
            clean_up-Is P clients laws j (some k) sso account (other refl)
        by_branch false other account = initialize-Stays h sso account

    pub handle-Stays :
        (h : Handler) (deleted : Bool) (object : EventObject)
        → SparesObject j deleted object
        → Keeps Stays (handle P h (record { deleted = deleted; object = object }))
    unfolding handle
    handle-Stays h deleted other_object spares = Keeps-pure tt
    handle-Stays h deleted (sso_object sso) spares = handle_sso-Stays h deleted sso spares

    Step-Stays : {w v : World P} (s : Step w v) → StepSpares j s → Stays w → Stays v
    Step-Stays (handles h event e) spares old =
        rw e ((handle-Stays h event.deleted event.object spares).at _ old)
    Step-Stays (changes e) spares old = ap (λ d. clients d j) e ∙ old

    -- Where dex keeps `DexLaws` and wrapping a nil error gives nil: over any history of events,
    -- handled with no error, with an error or with a panic, by any handlers, and of changes of the
    -- cluster, a client that dex had at the start is there at the end as it was, unless an event of
    -- the history is about a deleted and initialized resource whose status has that client's id.
    pub History-Stays :
        {w v : World P} (r : History w v)
        → HistorySpares j r
        → clients w.dex j ≡ some k
        → clients v.dex j ≡ some k
    History-Stays start spares old = old
    History-Stays (next r s) spares old = Step-Stays s spares.1 (History-Stays r spares.0 old)
