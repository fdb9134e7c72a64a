-- ===== src/Operator/Handler/Returning.antt =====
-- Where the handler does not panic.
use sso_operator.Base.{◌≢◌, refl, Bool, true, false, Option, none, some, List, [], ◌∷◌}
use sso_operator.Base.Text.{Str}
use sso_operator.Base.Run.{panic, wrap_err}
use sso_operator.Base.Run.Triple.{Triple, Triple-wrap_err, Triple-ok}
use sso_operator.Base.Run.Returns.{Returns, Returns-wrap_err, Returns-bind_ok, returns_rules}
use sso_operator.Objects.{OidcClient}
use sso_operator.Api.{Sso}
use sso_operator.Platform.{Platform}
use sso_operator.Dex
use sso_operator.Dex.{client_of}
use sso_operator.Kube.Wait.Polling.{PollsSoundly}
use sso_operator.Kube.Returning.{
  is_sso_initialized-Returns, find_ingress_hosts-Returns, ensure_cluster_role_binding-Returns,
}
use sso_operator.Proxy.Deploy.{Proxy, deploy}
use sso_operator.Proxy.Resources.{fake_redirect_url}
use sso_operator.Proxy.Returning.{ServicesHavePorts, deploy-Returns, update-Returns}
use sso_operator.Proxy.Returning.StringData.{HasStringData, KeepsStringData, deploy-HasStringData}
use sso_operator.Proxy.Returning.Exposing.{MarshalsPlainly, expose-Returns, cleanup-Returns}
use sso_operator.Operator.Config.{Handler}
use sso_operator.Operator.Handler.Rollback.{in_dex-Triple}
use sso_operator.Operator.Handler.{
  World, Event, EventObject, sso_object, other_object, in_cluster, in_dex, delete_client, or_delete,
  expose_unless_skipped, require_hosts, provision, clean_up, unless_initialized, initialize,
  handle_sso, handle,
}
use sso_operator.Operator.Handler.Asking.{
  CreatesClients, in_cluster-Returns, in_cluster-Triple, in_dex-Returns, update_client-Returns,
  delete_client-Returns, or_delete-Returns, or_delete-Triple, create_client-Triple,
  create_client-Returns,
}

module _ (P : Platform) (sound : PollsSoundly P) (ports : ServicesHavePorts P)
    (keeps : KeepsStringData P) (plainly : MarshalsPlainly P) (creates : CreatesClients P)
    (h : Handler) where
  exposed-Returns :
      (sso : Sso) (c : OidcClient) (proxy : Proxy) (account : Str)
      → Returns (expose_unless_skipped P sso (some c) proxy account)
  unfolding expose_unless_skipped
  exposed-Returns sso c proxy account =
      search (returns_rules, or_delete-Returns, in_cluster-Returns, expose-Returns P sound) depth 8

  require_hosts-Returns :
      (c : OidcClient) (app_name : Str) (found : List Str)
      → Returns (require_hosts P (some c) app_name found)
  unfolding require_hosts delete_client
  require_hosts-Returns c app_name [] =
      search (returns_rules, in_dex-Returns, delete_client-Returns) depth 10
  require_hosts-Returns c app_name (host ∷ hosts) = search returns_rules

  -- The proxy that `provision` goes on with.
  deployed-Triple :
      (sso : Sso) (c : OidcClient) (text : Str)
      → Triple
          (λ _. Unit {0})
          (or_delete P
            (some c)
            text
            (in_cluster P (deploy P sso (some c) h.operator_config.cookie_key)))
          (λ proxy _. HasStringData proxy.secret)
          (λ _ _. Unit {0})
  deployed-Triple sso c text = or_delete-Triple P c text _ (
      in_cluster-Triple P (deploy P sso (some c) h.operator_config.cookie_key)
        (deploy-HasStringData P keeps sso (some c) h.operator_config.cookie_key))

  provision-Returns :
      (sso : Sso) (account : Str) (c : OidcClient) → Returns (provision P h sso account (some c))
  unfolding provision
  provision-Returns sso account c =
      Returns-bind_ok _ _
        (or_delete-Returns P c _ _ (
          in_cluster-Returns P _ (deploy-Returns P sound ports sso c h.operator_config.cookie_key)))
        λ proxy w w' e.
          let n : HasStringData proxy.secret = Triple-ok _ (deployed-Triple sso c _) w w' e tt in
          search
            (
              returns_rules,
              or_delete-Returns,
              in_cluster-Returns,
              in_dex-Returns,
              exposed-Returns,
              find_ingress_hosts-Returns,
              require_hosts-Returns,
              update_client-Returns,
              update-Returns P sound ports,
            )
            depth 24

  clean_up-Returns : (sso : Sso) (account : Str) → Returns (clean_up P sso account)
  unfolding clean_up
  clean_up-Returns sso account =
      search
        (
          returns_rules,
          in_cluster-Returns,
          in_dex-Returns,
          cleanup-Returns P sound plainly,
          delete_client-Returns,
        )
        depth 8

  pointed-Returns :
      (sso : Sso) (account : Str) (pointer : Option OidcClient)
      → pointer ≢ none
      → Returns (provision P h sso account pointer)
  pointed-Returns sso account none n = absurd (n refl)
  pointed-Returns sso account (some c) n = provision-Returns sso account c

  new_client-Triple :
      (sso : Sso) (text : Str)
      → Triple
          (λ _. Unit {0})
          (wrap_err text
            (in_dex P (Dex.create_client P (fake_redirect_url ∷ []) [] false sso.meta.name [])))
          (λ o _. o ≢ none)
          (λ _ _. Unit {0})
  new_client-Triple sso text =
      Triple-wrap_err _ _ (in_dex-Triple P _ (create_client-Triple P creates _ _ _ _))

  unless_initialized-Returns :
      (sso : Sso) (account : Str) (initialized : Bool)
      → Returns (unless_initialized P h sso account initialized)
  unfolding unless_initialized
  unless_initialized-Returns sso account true = search returns_rules
  unless_initialized-Returns sso account false =
      Returns-bind_ok _ (provision P h sso account)
        (Returns-wrap_err _ _ (in_dex-Returns P _ (create_client-Returns P creates _ _ _ _)))
        λ pointer w w' e.
          pointed-Returns sso account pointer (Triple-ok _ (new_client-Triple sso _) w w' e tt)

  initialize-Returns : (sso : Sso) (account : Str) → Returns (initialize P h sso account)
  unfolding initialize
  initialize-Returns sso account =
      search
        (returns_rules, in_cluster-Returns, is_sso_initialized-Returns, unless_initialized-Returns)
        depth 8

  handle_sso-Returns : (deleted : Bool) (sso : Sso) → Returns (handle_sso P h deleted sso)
  unfolding handle_sso
  handle_sso-Returns deleted sso =
      search
        (
          returns_rules, in_cluster-Returns, ensure_cluster_role_binding-Returns, clean_up-Returns,
          initialize-Returns,
        )
        depth 8

  -- Where a poll panics only by its condition, each listed service has a port, a secret that is created
  -- with string data is answered with string data, dex answers the request for a client with a new one, and no error of YAML counts as Already Exists, however it is
  -- wrapped: an event of any kind is handled, in any state, without a panic.
  pub handle_returns : (event : Event) (w : World P) → (handle P h event w).0 ≢ panic
  unfolding handle
  handle_returns event w = by_object event.object
    where
      by_object :
          (object : EventObject)
          → (handle P h (record { deleted = event.deleted; object = object }) w).0 ≢ panic
      by_object other_object = λ e. cc
      by_object (sso_object sso) = (handle_sso-Returns event.deleted sso).at w
