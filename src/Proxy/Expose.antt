-- ===== src/Proxy/Expose.antt =====
-- `Expose` and `Cleanup`, pkg/proxy/expose.go: an exposecontroller job behind its config map.
pub mod Steps
pub mod Jobs
pub mod ConfigMaps
use sso_operator.Base.{
  ℕ, ◌*◌, Bool, true, false, Option, none, some, List, [], ◌∷◌, ◌++◌, if◌then◌else◌,
}
use sso_operator.Base.Text.{Str, str}
use sso_operator.Base.Run.{
  Error, Reply, Run, pure, raise, call, outcome, catch, deref, wrap, wrap_err, ◌>>=◌, ◌>>◌,
}
use sso_operator.Objects.{
  TypeMeta, ObjectMeta, EnvVar, VolumeMount, Container, Volume, from_config_map, PodSpec,
  PodTemplate, Job, ConfigMap, no_meta, no_resources,
}
use sso_operator.Api.{Sso}
use sso_operator.Platform.{Platform, ExposeConfig}
use sso_operator.Kube.Client.{get_clientset}
use sso_operator.Kube.Wait.{second, minute, wait_for_job_complete}
use sso_operator.Proxy.Resources.{owned_by, named}

abbrev pub expose_image : Str
expose_image = str "jenkinsxio/exposecontroller" ++ (str ":" ++ str "latest")

abbrev pub expose_config_path : Str
expose_config_path = str "/etc/exposecontoller/config.yml"

abbrev pub expose_config_map_name : Str
expose_config_map_name = str "expose-configmap"

abbrev pub expose_config_volume_name : Str
expose_config_volume_name = str "expose-config"

-- `Expose` and `Cleanup` check every ten seconds, for five and two minutes.
abbrev pub expose_timeout : ℕ
expose_timeout = 5 * minute

abbrev pub cleanup_timeout : ℕ
cleanup_timeout = 2 * minute

abbrev pub check_interval : ℕ
check_interval = 10 * second

unfoldable pub expose_config_of : Sso → Str → ExposeConfig
expose_config_of sso service_name = record {
  domain = sso.spec.domain;
  exposer = str "Ingress";
  path_mode = [];
  http = false;
  tls_acme = true;
  services = service_name ∷ [];
  url_template = sso.spec.url_template;
}

unfoldable pub config_map_of : Sso → Str → ConfigMap
config_map_of sso config = record {
  type_meta = record { kind = str "ConfigMap"; api_version = str "v1" };
  meta = record no_meta { name = expose_config_map_name; namespace = sso.meta.namespace };
  content = (str "config.yml", config) ∷ [];
}

abbrev expose_controller : Str → List Str → Str → Container
expose_controller name args namespace = record {
  name = name;
  image = expose_image;
  image_pull_policy = str "IfNotPresent";
  command = str "/exposecontroller" ∷ [];
  args = args;
  ports = [];
  resources = no_resources;
  volume_mounts =
      record {
        name = expose_config_volume_name;
        read_only = true;
        mount_path = str "/etc/exposecontoller";
      }
      ∷ [];
  env = record { name = str "KUBERNETES_NAMESPACE"; value = namespace } ∷ [];
  liveness_probe = none;
  readiness_probe = none;
}

module _ {S : Type 0} where
  unfoldable pub expose_container : Sso → Run S Container
  expose_container sso = do
    name ← named sso.meta.name (str "expose")
    pure (
        expose_controller name ((str "--config=" ++ expose_config_path) ∷ str "--v" ∷ str "4" ∷ [])
          sso.meta.namespace)

  unfoldable pub cleanup_container : Sso → Str → Run S Container
  cleanup_container sso filter = do
    name ← named sso.meta.name (str "cleanup")
    pure (
        expose_controller name
          ((str "--config=" ++ expose_config_path)
            ∷ str "--cleanup"
            ∷ (str "--filter=" ++ filter)
            ∷ [])
          sso.meta.namespace)

  unfoldable pub create_job : Str → Sso → Str → Container → Run S Job
  create_job name sso service_account container = do
    job_name ← named sso.meta.name name
    let meta : ObjectMeta = record no_meta { name = job_name; namespace = sso.meta.namespace }
    pure (record {
      type_meta = record { kind = str "Job"; api_version = str "batch/v1" };
      meta = meta;
      template = record {
        meta = meta;
        spec = record {
          service_account_name = service_account;
          containers = container ∷ [];
          volumes =
              record {
                name = expose_config_volume_name;
                source = from_config_map expose_config_map_name;
              }
              ∷ [];
          image_pull_secrets = [];
          restart_policy = str "Never";
        };
      };
      conditions = [];
    })

module _ (P : Platform) where
  open P use {
    Cluster, is_already_exists, marshal_expose_config, sdk_create_config_map, sdk_create_job,
    sdk_delete_job, sdk_delete_config_map,
  }

  unfoldable pub render_expose_config : ExposeConfig → Run Cluster Str
  render_expose_config config =
      wrap_err (str "marshaling expose config to YAML")
        (λ c. (outcome (marshal_expose_config config), c))

  unfoldable pub expose_config_map : Sso → Str → Run Cluster ConfigMap
  expose_config_map sso service_name = do
    config ←
        wrap_err (str "rendering expose config")
          (render_expose_config (expose_config_of sso service_name))
    pure (config_map_of sso config)

  -- `err = sdk.Create(job)`: a job that is there already is deleted, and the error comes back.
  unfoldable pub start_job : Str → Str → Job → Run Cluster Job
  start_job text deleting job = catch (call (sdk_create_job job)) λ e.
      if is_already_exists e
      then (do
        wrap_err (text ++ (str ": " ++ deleting)) (call (sdk_delete_job false job))
        raise (wrap e text))
      else raise (wrap e text)

  -- `Expose`: any error but Already Exists stops it.
  unfoldable pub store_expose_map : ConfigMap → Run Cluster ConfigMap
  store_expose_map map = catch (call (sdk_create_config_map map)) λ e.
      if is_already_exists e then pure map else raise (wrap e (str "creating expose config map"))

  unfoldable pub expose : Sso → Str → Str → Run Cluster (Unit {0})
  expose sso service_name service_account = do
    built ← wrap_err (str "building expose config map") (expose_config_map sso service_name)
    map ← store_expose_map (record built { meta = owned_by sso built.meta })
    container ← expose_container sso
    job ← create_job (str "expose") sso service_account container
    started ←
        start_job (str "creating expose job") (str "deleting existing expose job")
          (record job { meta = owned_by sso job.meta })
    client ← wrap_err (str "getting k8s client") (get_clientset P)
    wrap_err (str "waiting for SSO to be exposed") (
        wait_for_job_complete P client sso.meta.namespace started.meta.name check_interval
          expose_timeout)
    wrap_err (str "cleaning up the expose job") (call (sdk_delete_job true started))
    wrap_err (str "cleaning up the expose config map") (call (sdk_delete_config_map map))

  -- `Cleanup`: Already Exists stops it, and it goes on after any other error.
  unfoldable pub store_cleanup_map : ConfigMap → Run Cluster ConfigMap
  store_cleanup_map map = catch (call (sdk_create_config_map map)) λ e.
      if is_already_exists e then raise (wrap e (str "creating cleanup config map")) else pure map

  -- `err != nil && !apierrors.IsAlreadyExists(err)`: after an error for which the test does not
  -- hold, the config map is the nil pointer that came back with it.
  unfoldable pub build_cleanup_map : Sso → Str → Run Cluster (Option ConfigMap)
  build_cleanup_map sso service_name =
      catch (do map ← expose_config_map sso service_name; pure (some map))
        λ e.
          if is_already_exists e
          then pure none
          else raise (wrap e (str "building cleanup config map"))

  unfoldable pub cleanup : Sso → Str → Str → Run Cluster (Unit {0})
  cleanup sso service_name service_account = do
    built ← build_cleanup_map sso service_name
    pointed ← deref built
    map ← store_cleanup_map pointed
    container ← cleanup_container sso service_name
    job ← create_job (str "cleanup") sso service_account container
    started ← start_job (str "creating cleanup job") (str "deleting existing cleanup job") job
    client ← wrap_err (str "getting k8s client") (get_clientset P)
    wrap_err (str "waiting for SSO to be cleaned up") (
        wait_for_job_complete P client sso.meta.namespace started.meta.name check_interval
          cleanup_timeout)
    wrap_err (str "deleting the cleanup job") (call (sdk_delete_job true started))
    wrap_err (str "deleting the cleanup config map") (call (sdk_delete_config_map map))
