-- ===== src/Proxy/Returning/StringData.antt =====
-- `Deploy` of pkg/proxy/proxy.go: the string data of the proxy's secret.
use sso_operator.Base.{◌≡◌, ◌≢◌, subst, none, Option}
use sso_operator.Base.Text.{Str}
use sso_operator.Base.Run.{reply, ok, wrap_err}
use sso_operator.Base.Run.Inversion.{pure-ok, bind-ok, wrap_err-ok}
use sso_operator.Base.Run.Triple.{Triple, Triple-call, Triple-catch, Triple-if, Triple-ok}
use sso_operator.Objects.{Secret, OidcClient, StrMap}
use sso_operator.Api.{Sso}
use sso_operator.Platform.{Platform}
use sso_operator.Proxy.Resources.{
  named, proxy_config, proxy_secret, labels, owned_by, config_secret_name,
}
use sso_operator.Proxy.Upstream.{get_app_name}
use sso_operator.Proxy.Deploy.{
  Proxy, create_or_keep, deploy_secret, deploy_deployment, service_of, await_proxy, deploy,
}

-- The map of the string data is not nil.
abbrev pub HasStringData : Secret → Type 0
HasStringData secret = secret.string_data ≢ none

module _ (P : Platform) where
  -- A secret that is created with string data is answered with string data.
  abbrev pub KeepsStringData : Type 0
  KeepsStringData =
      (o o' : Secret) (s t : P.Cluster)
      → P.sdk_create_secret o s ≡ (reply o', t)
      → HasStringData o
      → HasStringData o'

  module _ (keeps : KeepsStringData) (sso : Sso) (client : Option OidcClient) (key : Str) where
    proxy_secret-HasStringData :
        (ls : StrMap) (c c' : P.Cluster) (secret : Secret)
        → proxy_secret P sso client key ls c ≡ (ok secret, c')
        → HasStringData secret
    unfolding proxy_secret
    proxy_secret-HasStringData ls c c' secret h =
        let (config, u, p, q) = bind-ok (wrap_err _ (proxy_config P sso client key)) _ c c' h in
        let (name, v, r, t) = bind-ok (named sso.meta.name config_secret_name) _ u c' q in
        subst HasStringData (pure-ok _ v c' t).0 (λ e. cc)

    create_or_keep-Triple :
        (text : Str) (o : Secret)
        → HasStringData o
        → Triple
            (λ _. Unit {0})
            (create_or_keep P (P.sdk_create_secret) text o)
            (λ secret _. HasStringData secret)
            (λ _ _. Unit {0})
    unfolding create_or_keep
    create_or_keep-Triple text o n =
        Triple-catch _ _
          (Triple-call (P.sdk_create_secret o) (λ s t a h q. keeps o a s t q n) (λ s t e h q. tt))
          λ e.
            Triple-if (P.is_already_exists e) _ _ (record { at = λ s h. n })
              (record { at = λ s h. tt })

    deploy_secret-HasStringData :
        (app_name : Str) (c c' : P.Cluster) (secret : Secret)
        → deploy_secret P sso client key app_name c ≡ (ok secret, c')
        → HasStringData secret
    unfolding deploy_secret
    deploy_secret-HasStringData app_name c c' secret h =
        let (built, u, p, q) =
          bind-ok (wrap_err _ (proxy_secret P sso client key (labels sso app_name))) _ c c' h in
        let n : HasStringData built =
          proxy_secret-HasStringData (labels sso app_name) c u built
            (wrap_err-ok _ (proxy_secret P sso client key (labels sso app_name)) c u p) in
        Triple-ok _ (create_or_keep-Triple _ (record built { meta = owned_by sso built.meta }) n) u
          c' q tt

    pub deploy-HasStringData :
        (c c' : P.Cluster) (proxy : Proxy)
        → deploy P sso client key c ≡ (ok proxy, c')
        → HasStringData proxy.secret
    unfolding deploy
    deploy-HasStringData c c' proxy h =
        let (app, u₁, _, h₁) =
          bind-ok (wrap_err _ (get_app_name P sso.spec.upstream_service sso.meta.namespace)) _ c c'
            h in
        let (secret, u₂, p₂, h₂) = bind-ok (deploy_secret P sso client key app) _ u₁ c' h₁ in
        let (d, u₃, _, h₃) = bind-ok (deploy_deployment P sso app secret) _ u₂ c' h₂ in
        let (s, u₄, _, h₄) =
          bind-ok (create_or_keep P (P.sdk_create_service) _ (service_of sso app)) _ u₃ c' h₃ in
        let (_, u₅, _, h₅) = bind-ok (await_proxy P sso) _ u₄ c' h₄ in
        subst (λ (x : Proxy). HasStringData x.secret) (pure-ok _ u₅ c' h₅).0
          (deploy_secret-HasStringData app u₁ u₂ secret p₂)
