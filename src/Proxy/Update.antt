-- ===== src/Proxy/Update.antt =====
-- `Update` of pkg/proxy/proxy.go.
pub mod Containers
pub mod Versions
use sso_operator.Base.{ℕ, Bool, true, false, Option, some, List, [], ◌∷◌, ◌++◌, map, if◌then◌else◌}
use sso_operator.Base.Text.{Str, str, same}
use sso_operator.Base.Dict.{put}
use sso_operator.Base.Run.{Run, pure, call, deref, wrap_err, ◌>>=◌, ◌>>◌}
use sso_operator.Objects.{
  EnvVar, Container, PodSpec, PodTemplate, Deployment, DeploymentSpec, Secret, OidcClient,
}
use sso_operator.Api.{Sso}
use sso_operator.Platform.{Platform}
use sso_operator.Kube.Client.{get_clientset}
use sso_operator.Kube.Wait.{wait_for_pods_with_label_running}
use sso_operator.Proxy.Resources.{
  proxy_config, compute_secret_version, config_file, secret_version_env,
}
use sso_operator.Proxy.Deploy.{Proxy, sso_selector, ready_timeout}

-- `updateContainer`. The loop variable is a copy of the container, but its `Env` is the same slice,
-- so what the function writes is written to the deployment.
unfoldable pub update_env : Str → List EnvVar → List EnvVar
update_env version [] = []
update_env version (e ∷ env) =
    (if same e.name secret_version_env then record e { value = version } else e)
    ∷ update_env version env

unfoldable pub update_container : Str → Container → Container
unfolding update_env
update_container version c = record c { env = update_env version c.env }

unfoldable pub update_containers : Str → List Container → List Container
unfolding update_container
update_containers version [] = []
update_containers version (c ∷ containers) =
    update_container version c ∷ update_containers version containers

-- The body of the loop at a deployment of the proxy's name, up to `sdk.Update`.
unfoldable pub updated_deployment : Str → Deployment → Deployment
unfolding update_containers
updated_deployment version d = record d {
  type_meta = record { kind = str "Deployment"; api_version = str "apps/v1" };
  spec = record (d.spec) {
    template = record (d.spec.template) {
      spec = record (d.spec.template.spec) {
        containers = update_containers version d.spec.template.spec.containers;
      };
    };
  };
}

module _ (P : Platform) where
  open P use {Cluster, sdk_update_secret, sdk_update_deployment, list_deployments}

  -- A write to a nil map panics.
  unfoldable pub update_proxy_secret : Secret → Sso → Option OidcClient → Str → Run Cluster Secret
  update_proxy_secret secret sso client cookie_secret = do
    config ← wrap_err (str "creating oauth2_proxy config") (proxy_config P sso client cookie_secret)
    entries ← deref secret.string_data
    wrap_err (str "updating oauth2_proxy secret") (
        call (
          sdk_update_secret
            (record secret { string_data = some (put config_file config entries) })))

  unfoldable pub update_deployments : Str → Str → List Deployment → Run Cluster (Unit {0})
  update_deployments name version [] = pure tt
  update_deployments name version (d ∷ deployments) =
      let rest = update_deployments name version deployments in
      if same d.meta.name name
      then (do
        wrap_err (str "updating oauth2_proxy deployment")
            (call (sdk_update_deployment (updated_deployment version d)))
        rest)
      else rest

  unfoldable pub update : Proxy → Sso → Option OidcClient → Str → Run Cluster (Unit {0})
  update proxy sso client cookie_secret = do
    secret ←
        wrap_err (str "updating oauth2_proxy secret")
          (update_proxy_secret proxy.secret sso client cookie_secret)
    k8s ← wrap_err (str "getting k8s client") (get_clientset P)
    deployments ←
        wrap_err (str "listing deployments") (call (list_deployments k8s sso.meta.namespace))
    version ← compute_secret_version P secret
    update_deployments proxy.deployment.meta.name version deployments
    wrap_err (str "waiting for SSO proxy") (
        wait_for_pods_with_label_running P k8s sso.meta.namespace (sso_selector P sso)
          ready_timeout)
