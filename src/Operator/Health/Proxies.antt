-- ===== src/Operator/Health/Proxies.antt =====
-- The deployment and the update of a proxy on a healthy cluster.
use sso_operator.Base.{◌≡◌, ◌≢◌, refl, true, inl, inr, Option-cases, none, some, List, [], ◌∷◌}
use sso_operator.Base.Text.{Str, same}
use sso_operator.Base.Run.{Call}
use sso_operator.Base.Run.Succeeds.{
  Succeeds, Succeeds-bind, Succeeds-pure, Succeeds-wrap_err, Succeeds-call, Succeeds-catch_call,
  Succeeds-deref, Succeeds-if, Answers,
}
use sso_operator.Objects.{Deployment, Secret, OidcClient, StrMap}
use sso_operator.Api.{Sso}
use sso_operator.Platform.{Platform}
use sso_operator.Proxy.Names.Bounds.{build_name_bounds}
use sso_operator.Proxy.Upstream.{
  find_service, get_upstream_url, get_app_name, walk, choose_app_name, label_values,
}
use sso_operator.Proxy.Resources.{
  named, proxy_container, checked_config, proxy_config, proxy_secret, compute_secret_version,
}
use sso_operator.Proxy.Deploy.{
  Proxy, create_or_keep, deploy_secret, deploy_deployment, await_proxy, deploy,
}
use sso_operator.Proxy.Update.{update_proxy_secret, update_deployments, update}
use sso_operator.Operator.Health.{Healthy, Anything}
use sso_operator.Operator.Health.Cluster.{
  get_clientset-Succeeds, wait_for_service-Succeeds, wait_for_pods-Succeeds,
}

module _ {S : Type 0} {I : S → Type 0} where
  pub named-Succeeds : (name suffix : Str) → Succeeds I I (named name suffix) Anything
  named-Succeeds name suffix =
      let (r, e, _) = build_name_bounds name suffix in Succeeds-deref r e tt

  proxy_container-Succeeds :
      (sso : Sso) (version : Str) → Succeeds I I (proxy_container sso version) Anything
  unfolding proxy_container
  proxy_container-Succeeds sso version =
      Succeeds-bind _ _ (named-Succeeds sso.meta.name []) (λ n _. Succeeds-pure _ tt)

module _ (P : Platform) (I Ready : P.Cluster → Type 0) (role : Str) (sso : Sso)
    (good : Healthy P I Ready role sso) where
  find_service-Succeeds :
      Succeeds I I
        (find_service P sso.spec.upstream_service sso.meta.namespace)
        (λ s. s ≡ good.service)
  unfolding find_service
  find_service-Succeeds =
      Succeeds-bind _ _ (Succeeds-wrap_err _ _ (get_clientset-Succeeds P I Ready role sso good))
        λ k _.
          Succeeds-bind _ _ (Succeeds-wrap_err _ _ (Succeeds-call _ (good.lists_services k)))
            (λ l e. rw e (Succeeds-pure good.service refl))

  get_upstream_url-Succeeds :
      Succeeds I I (get_upstream_url P sso.spec.upstream_service sso.meta.namespace) Anything
  unfolding get_upstream_url
  get_upstream_url-Succeeds = Succeeds-bind _ _ find_service-Succeeds λ s e. rw e (
      Succeeds-bind {R = Anything} _ _ (Succeeds-deref good.port good.has_port tt)
        (λ p _. Succeeds-pure _ tt))

  get_app_name-Succeeds :
      Succeeds I I
        (get_app_name P sso.spec.upstream_service sso.meta.namespace)
        (λ a. a ≡ good.app_name)
  unfolding get_app_name
  get_app_name-Succeeds =
      Succeeds-bind _ _ find_service-Succeeds
        (λ s e. rw e (Succeeds-bind _ _ walked (λ m h. Succeeds-pure _ h)))
    where
      walked :
          Succeeds I I
            (walk P good.service.meta.labels)
            (λ m. choose_app_name good.service.meta.name (label_values m []) ≡ good.app_name)
      walked = record { at = λ c h. (good.names_app c h, good.ranges _ c h) }

  compute_secret_version-Succeeds :
      (secret : Secret) → Succeeds I I (compute_secret_version P secret) Anything
  unfolding compute_secret_version
  compute_secret_version-Succeeds secret = record { at = λ c h. (tt, good.ranges _ c h) }

  module _ (client : OidcClient) (some_url : client.redirect_uris ≢ []) (cookie_secret : Str) where
    checked_config-Succeeds :
        (urls : List Str) (upstream : Str)
        → urls ≢ []
        → Succeeds I I (checked_config sso client urls cookie_secret upstream) Anything
    unfolding checked_config
    checked_config-Succeeds [] upstream n = absurd (n refl)
    checked_config-Succeeds (url ∷ urls) upstream n = rw good.secure (Succeeds-pure _ tt)

    proxy_config-Succeeds : Succeeds I I (proxy_config P sso (some client) cookie_secret) Anything
    unfolding proxy_config
    proxy_config-Succeeds =
        Succeeds-bind _ _ (Succeeds-wrap_err _ _ get_upstream_url-Succeeds)
          (λ u _. checked_config-Succeeds client.redirect_uris u some_url)

    proxy_secret-Succeeds :
        (ls : StrMap)
        → Succeeds I I
            (proxy_secret P sso (some client) cookie_secret ls)
            (λ secret. secret.string_data ≢ none)
    unfolding proxy_secret
    proxy_secret-Succeeds ls =
        Succeeds-bind _ _ (Succeeds-wrap_err _ _ proxy_config-Succeeds) λ c _.
          Succeeds-bind _ _ (named-Succeeds sso.meta.name _) (λ n _. Succeeds-pure _ (λ e. cc))

  create_or_keep-Succeeds :
      {A : Type 0} {Q : A → Type 0} (create : A → Call P.Cluster A) (text : Str) (o : A)
      → Answers I I (create o) Q (λ e. P.is_already_exists e ≡ true)
      → Q o
      → Succeeds I I (create_or_keep P create text o) Q
  unfolding create_or_keep
  create_or_keep-Succeeds create text o h q =
      Succeeds-catch_call (create o) _ h (λ e there. rw there (Succeeds-pure o q))

  await_proxy-Succeeds : Succeeds I I (await_proxy P sso) Anything
  unfolding await_proxy
  await_proxy-Succeeds =
      Succeeds-bind _ _ (Succeeds-wrap_err _ _ (get_clientset-Succeeds P I Ready role sso good))
        λ k _.
          Succeeds-bind _ _
            (Succeeds-wrap_err _ _ (wait_for_service-Succeeds P I Ready role sso good k _ _ _ _))
            λ _ _. Succeeds-wrap_err _ _ (wait_for_pods-Succeeds P I Ready role sso good k _ _ _)

  deploy_deployment-Succeeds :
      (app_name : Str) (secret : Secret)
      → Succeeds I I (deploy_deployment P sso app_name secret) Anything
  unfolding deploy_deployment
  deploy_deployment-Succeeds app_name secret =
      Succeeds-bind _ _ (compute_secret_version-Succeeds secret) λ v _.
        Succeeds-bind _ _ (named-Succeeds sso.meta.name []) λ n _.
          Succeeds-bind _ _ (proxy_container-Succeeds sso v) λ c _.
            Succeeds-bind _ _ (named-Succeeds sso.meta.name _)
              (λ s _. create_or_keep-Succeeds _ _ _ (good.creates_deployment _) tt)

  module _ (client : OidcClient) (some_url : client.redirect_uris ≢ []) (cookie_secret : Str) where
    deploy_secret-Succeeds :
        (app_name : Str)
        → Succeeds I I
            (deploy_secret P sso (some client) cookie_secret app_name)
            (λ secret. secret.string_data ≢ none)
    unfolding deploy_secret
    deploy_secret-Succeeds app_name =
        Succeeds-bind _ _
          (Succeeds-wrap_err _ _ (proxy_secret-Succeeds client some_url cookie_secret _))
          (λ built n. create_or_keep-Succeeds _ _ _ (good.creates_secret _ n) n)

    pub deploy-Succeeds :
        Succeeds I I
          (deploy P sso (some client) cookie_secret)
          (λ p. (p.app_name ≡ good.app_name) × (p.secret.string_data ≢ none))
    unfolding deploy
    deploy-Succeeds = Succeeds-bind _ _ (Succeeds-wrap_err _ _ get_app_name-Succeeds) λ a e.
        Succeeds-bind _ _ (deploy_secret-Succeeds a) λ secret n.
          Succeeds-bind _ _ (deploy_deployment-Succeeds a secret) λ d _.
            Succeeds-bind _ _ (create_or_keep-Succeeds _ _ _ (good.creates_service _) tt)
              λ s _. Succeeds-bind _ _ await_proxy-Succeeds (λ _ _. Succeeds-pure _ (e, n))

    update_proxy_secret-Succeeds :
        (secret : Secret)
        → secret.string_data ≢ none
        → Succeeds I I (update_proxy_secret P secret sso (some client) cookie_secret) Anything
    unfolding update_proxy_secret
    update_proxy_secret-Succeeds secret n =
        Succeeds-bind _ _
          (Succeeds-wrap_err _ _ (proxy_config-Succeeds client some_url cookie_secret))
          λ config _. elim (Option-cases secret.string_data) [
            | inl e ↦ absurd (n e)
            | inr (m, e) ↦
                Succeeds-bind {R = Anything} _ _ (Succeeds-deref m e tt)
                  (λ entries _. Succeeds-wrap_err _ _ (Succeeds-call _ (good.updates_secret _)))
          ]

    update_deployments-Succeeds :
        (name version : Str) (deployments : List Deployment)
        → Succeeds I I (update_deployments P name version deployments) Anything
    unfolding update_deployments
    update_deployments-Succeeds name version [] = Succeeds-pure tt tt
    update_deployments-Succeeds name version (d ∷ deployments) =
        Succeeds-if (same d.meta.name name) _ _
          (Succeeds-bind _ _ (Succeeds-wrap_err _ _ (Succeeds-call _ (good.updates_deployment _)))
            (λ d' _. update_deployments-Succeeds name version deployments))
          (update_deployments-Succeeds name version deployments)

    pub update-Succeeds :
        (proxy : Proxy)
        → proxy.secret.string_data ≢ none
        → Succeeds I I (update P proxy sso (some client) cookie_secret) Anything
    unfolding update
    update-Succeeds proxy n =
        Succeeds-bind _ _ (Succeeds-wrap_err _ _ (update_proxy_secret-Succeeds proxy.secret n))
          λ secret _.
            Succeeds-bind _ _
              (Succeeds-wrap_err _ _ (get_clientset-Succeeds P I Ready role sso good))
              λ k _.
                Succeeds-bind _ _
                  (Succeeds-wrap_err _ _ (Succeeds-call _ (good.lists_deployments k _)))
                  λ ds _. Succeeds-bind _ _ (compute_secret_version-Succeeds secret) λ v _.
                    Succeeds-bind _ _ (update_deployments-Succeeds _ v ds) λ _ _.
                      Succeeds-wrap_err _ _ (wait_for_pods-Succeeds P I Ready role sso good k _ _ _)
