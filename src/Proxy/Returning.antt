-- ===== src/Proxy/Returning.antt =====
-- `Deploy` and `Update` of pkg/proxy: where they panic.
pub mod Exposing
pub mod StringData
use sso_operator.Base.{
  ◌≡◌, ◌≢◌, refl, ap, false, Option, none, some, List, [], ◌∷◌, find_first, Option-cases, inl, inr,
}
use sso_operator.Base.Text.{Str, str, same}
use sso_operator.Base.Run.{Error, Call, reply, failed, wrap}
use sso_operator.Base.Run.Triple.{
  Triple, Triple-catch, Triple-any, Triple-bind, Triple-call, Triple-wrap_err, Triple-ok,
}
use sso_operator.Base.Run.Returns.{
  Returns, Returns-deref, Returns-bind_ok, Returns-bind, Returns-wrap_err, Returns-call, Returns-if,
  returns_rules,
}
use sso_operator.Objects.{
  Deployment, Secret, OidcClient, Service, StrMap, ConfigMap, Container, Job,
}
use sso_operator.Api.{Sso}
use sso_operator.Platform.{Platform, ExposeConfig}
use sso_operator.Kube.Wait.Polling.{PollsSoundly}
use sso_operator.Kube.Returning.{
  get_clientset-Returns, wait_for_service-Returns, wait_for_pods-Returns,
  wait_for_job_complete-Returns,
}
use sso_operator.Proxy.Names.Bounds.{build_name_bounds}
use sso_operator.Proxy.Upstream.{
  is_named, first_port, find_service, service_or, get_upstream_url, get_app_name, walk,
}
use sso_operator.Proxy.Resources.{
  named, proxy_container, checked_config, proxy_config, proxy_secret, compute_secret_version,
}
use sso_operator.Proxy.Deploy.{
  Proxy, create_or_keep, deploy_secret, deploy_deployment, await_proxy, deploy,
}
use sso_operator.Proxy.Update.{update_proxy_secret, update_deployments, update}
use sso_operator.Proxy.Expose.{
  expose_config_of, expose_container, cleanup_container, create_job, render_expose_config,
  expose_config_map, start_job, store_expose_map, expose, store_cleanup_map, build_cleanup_map,
  cleanup,
}

module _ {S : Type 0} where
  pub named-Returns : (name suffix : Str) → Returns {S = S} (named name suffix)
  named-Returns name suffix = let (r, e, _) = build_name_bounds name suffix in Returns-deref r e

  proxy_container-Returns :
      (sso : Sso) (version : Str) → Returns {S = S} (proxy_container sso version)
  unfolding proxy_container
  proxy_container-Returns sso version = search (returns_rules, named-Returns)

  checked_config-Returns :
      (sso : Sso) (c : OidcClient) (urls : List Str) (secret upstream : Str)
      → Returns {S = S} (checked_config sso c urls secret upstream)
  unfolding checked_config
  checked_config-Returns sso c [] secret upstream = search returns_rules
  checked_config-Returns sso c (url ∷ urls) secret upstream = search returns_rules

module _ (P : Platform) where
  -- Each service that is listed has a port.
  abbrev pub ServicesHavePorts : Type 0
  ServicesHavePorts =
      (k : P.Clientset) (ns name : Str) (l : List Service) (service : Service) (s t : P.Cluster)
      → P.list_services k ns s ≡ (reply l, t)
      → find_first (is_named name) l ≡ some service
      → first_port service.ports ≢ none

  walk-Returns : (m : StrMap) → Returns (walk P m)
  walk-Returns m = record { at = λ s e. cc }

  service_or-Returns : (name ns : Str) (o : Option Service) → Returns (service_or P name ns o)
  service_or-Returns name ns (some service) = search returns_rules
  service_or-Returns name ns none = search returns_rules

  find_service-Returns : (name ns : Str) → Returns (find_service P name ns)
  unfolding find_service
  find_service-Returns name ns = search (returns_rules, get_clientset-Returns, service_or-Returns)

  module _ (ports : ServicesHavePorts) where
    service_or-Triple :
        (name ns : Str) (o : Option Service)
        → Triple
            (λ (s : P.Cluster).
              (service : Service) → o ≡ some service → first_port service.ports ≢ none)
            (service_or P name ns o)
            (λ service _. first_port service.ports ≢ none)
            (λ _ _. Unit {0})
    service_or-Triple name ns (some service) = record { at = λ s h. h service refl }
    service_or-Triple name ns none = record { at = λ s h. tt }

    find_service-Triple :
        (name ns : Str)
        → Triple
            (λ _. Unit {0})
            (find_service P name ns)
            (λ service _. first_port service.ports ≢ none)
            (λ _ _. Unit {0})
    unfolding find_service
    find_service-Triple name ns = Triple-bind _ _ (Triple-any _) λ k.
        Triple-bind _ _
          (Triple-wrap_err _ _ (
            Triple-call (P.list_services k ns)
              (λ s t l u p service e. ports k ns name l service s t p e) (λ s t e u p. tt)))
          (λ l. service_or-Triple name ns (find_first (is_named name) l))

    get_upstream_url-Returns : (name ns : Str) → Returns (get_upstream_url P name ns)
    unfolding get_upstream_url
    get_upstream_url-Returns name ns =
        Returns-bind_ok _ _ (find_service-Returns name ns) λ service s t h.
          elim (Option-cases (first_port service.ports)) [
            | inl e ↦ absurd (Triple-ok _ (find_service-Triple name ns) s t h tt e)
            | inr (port, e) ↦ Returns-bind _ _ (Returns-deref port e) (λ p. search returns_rules)
          ]

  get_app_name-Returns : (name ns : Str) → Returns (get_app_name P name ns)
  unfolding get_app_name
  get_app_name-Returns name ns = search (returns_rules, find_service-Returns, walk-Returns)

  compute_secret_version-Returns : (secret : Secret) → Returns (compute_secret_version P secret)
  unfolding compute_secret_version
  compute_secret_version-Returns secret = record { at = λ s e. cc }

  create_or_keep-Returns :
      {A : Type 0} (create : A → Call P.Cluster A) (text : Str) (o : A)
      → Returns (create_or_keep P create text o)
  unfolding create_or_keep
  create_or_keep-Returns create text o = search returns_rules

  deploy_deployment-Returns :
      (sso : Sso) (app_name : Str) (secret : Secret)
      → Returns (deploy_deployment P sso app_name secret)
  unfolding deploy_deployment
  deploy_deployment-Returns sso app_name secret = search (
    returns_rules, compute_secret_version-Returns, named-Returns, proxy_container-Returns,
    create_or_keep-Returns,
  )

  update_deployments-Returns :
      (name version : Str) (deployments : List Deployment)
      → Returns (update_deployments P name version deployments)
  unfolding update_deployments
  update_deployments-Returns name version [] = search returns_rules
  update_deployments-Returns name version (d ∷ deployments) =
      Returns-if (same d.meta.name name) _ _
        (Returns-bind _ _ (Returns-wrap_err _ _ (Returns-call _))
          (λ d'. update_deployments-Returns name version deployments))
        (update_deployments-Returns name version deployments)

module _ (P : Platform) (sound : PollsSoundly P) where
  await_proxy-Returns : (sso : Sso) → Returns (await_proxy P sso)
  unfolding await_proxy
  await_proxy-Returns sso = search (
    returns_rules,
    get_clientset-Returns,
    wait_for_service-Returns P sound,
    wait_for_pods-Returns P sound,
  )

  module _ (ports : ServicesHavePorts P) where
    proxy_config-Returns :
        (sso : Sso) (client : OidcClient) (secret : Str)
        → Returns (proxy_config P sso (some client) secret)
    unfolding proxy_config
    proxy_config-Returns sso client secret =
        search (returns_rules, get_upstream_url-Returns P ports, checked_config-Returns)

    proxy_secret-Returns :
        (sso : Sso) (client : OidcClient) (secret : Str) (ls : StrMap)
        → Returns (proxy_secret P sso (some client) secret ls)
    unfolding proxy_secret
    proxy_secret-Returns sso client secret ls =
        search (returns_rules, proxy_config-Returns, named-Returns)

    deploy_secret-Returns :
        (sso : Sso) (client : OidcClient) (secret app_name : Str)
        → Returns (deploy_secret P sso (some client) secret app_name)
    unfolding deploy_secret
    deploy_secret-Returns sso client secret app_name =
        search (returns_rules, proxy_secret-Returns, create_or_keep-Returns)

    pub deploy-Returns :
        (sso : Sso) (client : OidcClient) (secret : Str)
        → Returns (deploy P sso (some client) secret)
    unfolding deploy
    deploy-Returns sso client secret =
        search
          (
            returns_rules, get_app_name-Returns, deploy_secret-Returns, deploy_deployment-Returns,
            create_or_keep-Returns, await_proxy-Returns,
          )
          depth 12

    update_proxy_secret-Returns :
        (old : Secret) (sso : Sso) (client : OidcClient) (secret : Str)
        → old.string_data ≢ none
        → Returns (update_proxy_secret P old sso (some client) secret)
    unfolding update_proxy_secret
    update_proxy_secret-Returns old sso client secret n =
        Returns-bind _ _ (Returns-wrap_err _ _ (proxy_config-Returns sso client secret)) λ config.
          elim (Option-cases old.string_data) [
            | inl e ↦ absurd (n e)
            | inr (m, e) ↦ Returns-bind _ _ (Returns-deref m e) (λ entries. search returns_rules)
          ]

    pub update-Returns :
        (proxy : Proxy) (sso : Sso) (client : OidcClient) (secret : Str)
        → proxy.secret.string_data ≢ none
        → Returns (update P proxy sso (some client) secret)
    unfolding update
    update-Returns proxy sso client secret n =
        Returns-bind _ _
          (Returns-wrap_err _ _ (update_proxy_secret-Returns proxy.secret sso client secret n))
          λ stored.
            search
              (
                returns_rules,
                get_clientset-Returns,
                compute_secret_version-Returns,
                update_deployments-Returns,
                wait_for_pods-Returns P sound,
              )
              depth 12
