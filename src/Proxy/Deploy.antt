-- ===== src/Proxy/Deploy.antt =====
-- `Deploy` of pkg/proxy/proxy.go.
pub mod Running
use sso_operator.Base.{
  ℕ, ◌*◌, Bool, true, false, Option, none, some, List, [], ◌∷◌, ◌++◌, ◌⊎◌, inl, inr, if◌then◌else◌,
}
use sso_operator.Base.Text.{Str, str}
use sso_operator.Base.Run.{Error, Call, Run, pure, raise, call, catch, wrap, wrap_err, ◌>>=◌, ◌>>◌}
use sso_operator.Objects.{
  StrMap, TypeMeta, ObjectMeta, Container, from_secret, PodTemplate, Secret, Deployment, Service,
  OidcClient, no_meta,
}
use sso_operator.Api.{Sso}
use sso_operator.Platform.{Platform}
use sso_operator.Kube.Client.{get_clientset}
use sso_operator.Kube.Wait.{second, minute, wait_for_service, wait_for_pods_with_label_running}
use sso_operator.Proxy.Resources.{
  labels, service_annotations, owned_by, named, proxy_container, proxy_secret,
  compute_secret_version, config_volume_name, config_secret_name, port_name, proxy_port,
  public_port,
}
use sso_operator.Proxy.Upstream.{get_app_name}

-- `Proxy` keeps the resources created for a proxy.
pub record Proxy : Type 0 where
  pub app_name : Str
  pub secret : Secret
  pub deployment : Deployment
  pub service : Service

abbrev pub create_timeout : ℕ
create_timeout = 60 * second

abbrev pub create_interval_check : ℕ
create_interval_check = 10 * second

abbrev pub ready_timeout : ℕ
ready_timeout = 5 * minute

unfoldable pub pod_template : Sso → Str → Str → Str → Container → PodTemplate
pod_template sso app_name pod_name secret_name container = record {
  meta = record no_meta {
    name = pod_name;
    namespace = sso.meta.namespace;
    labels = labels sso app_name;
  };
  spec = record {
    service_account_name = [];
    containers = container ∷ [];
    volumes = record { name = config_volume_name; source = from_secret secret_name } ∷ [];
    image_pull_secrets = sso.spec.proxy_image_pull_secret ∷ [];
    restart_policy = [];
  };
}

unfoldable pub deployment_of : Sso → Str → Str → PodTemplate → Deployment
deployment_of sso app_name name template = record {
  type_meta = record { kind = str "Deployment"; api_version = str "apps/v1" };
  meta = owned_by sso (record no_meta {
    name = name;
    namespace = sso.meta.namespace;
    labels = labels sso app_name;
  });
  generation = 0;
  spec = record {
    replicas = some 1;
    selector = labels sso app_name;
    template = template;
    strategy = str "RollingUpdate";
    max_unavailable = 1;
    max_surge = 1;
  };
  observed_generation = 0;
  status_replicas = 0;
}

unfoldable pub service_of : Sso → Str → Service
service_of sso app_name = record {
  type_meta = record { kind = str "Service"; api_version = str "v1" };
  meta = owned_by sso (record no_meta {
    name = sso.meta.name;
    namespace = sso.meta.namespace;
    labels = labels sso app_name;
    annotations = service_annotations sso app_name;
  });
  ports =
      record {
        name = port_name;
        protocol = str "TCP";
        port = public_port;
        target_port = proxy_port;
      }
      ∷ [];
  selector = labels sso app_name;
}

module _ (P : Platform) where
  open P use {
    Cluster, is_already_exists, sdk_create_secret, sdk_create_deployment, sdk_create_service,
    label_selector,
  }

  -- `err = sdk.Create(o); if err != nil && !apierrors.IsAlreadyExists(err) { … }`: the object as the
  -- server filled it in, or as it was if there is one already.
  unfoldable pub create_or_keep : {A : Type 0} → (A → Call Cluster A) → Str → A → Run Cluster A
  create_or_keep create text o =
      catch (call (create o)) λ e. if is_already_exists e then pure o else raise (wrap e text)

  unfoldable pub sso_selector : Sso → Str
  sso_selector sso = label_selector ((str "sso", sso.meta.name) ∷ [])

  unfoldable pub deploy_secret : Sso → Option OidcClient → Str → Str → Run Cluster Secret
  deploy_secret sso client cookie_secret app_name = do
    built ←
        wrap_err (str "creating oauth2_proxy config")
          (proxy_secret P sso client cookie_secret (labels sso app_name))
    create_or_keep sdk_create_secret (str "creating oauth2_proxy secret")
        (record built { meta = owned_by sso built.meta })

  unfoldable pub deploy_deployment : Sso → Str → Secret → Run Cluster Deployment
  deploy_deployment sso app_name secret = do
    version ← compute_secret_version P secret
    name ← named sso.meta.name []
    container ← proxy_container sso version
    secret_name ← named sso.meta.name config_secret_name
    create_or_keep sdk_create_deployment (str "creating oauth2_proxy deployment")
        (deployment_of sso app_name name (pod_template sso app_name name secret_name container))

  unfoldable pub await_proxy : Sso → Run Cluster (Unit {0})
  await_proxy sso = do
    client ← wrap_err (str "getting k8s client") (get_clientset P)
    wrap_err (str "wait for service") (
        wait_for_service P client sso.meta.namespace sso.meta.name true create_interval_check
          create_timeout)
    wrap_err (str "waiting for SSO proxy") (
        wait_for_pods_with_label_running P client sso.meta.namespace (sso_selector sso)
          ready_timeout)

  unfoldable pub deploy : Sso → Option OidcClient → Str → Run Cluster Proxy
  deploy sso client cookie_secret = do
    app_name ←
        wrap_err (str "gettting the app name from upstream service labels")
          (get_app_name P sso.spec.upstream_service sso.meta.namespace)
    secret ← deploy_secret sso client cookie_secret app_name
    deployment ← deploy_deployment sso app_name secret
    service ←
        create_or_keep sdk_create_service (str "creating oauth2_proxy service")
          (service_of sso app_name)
    await_proxy sso
    pure (record {
      app_name = app_name;
      secret = secret;
      deployment = deployment;
      service = service;
    })
