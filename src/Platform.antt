-- ===== src/Platform.antt =====
-- Everything outside the repository that the program calls: the Kubernetes API through client-go
-- and the operator SDK, dex's gRPC API, polling, randomness and the file system. It is a parameter
-- of the model. What a proof relies on is stated as a hypothesis where it is used.
use sso_operator.Base.{ℕ, Bool, List, Option}
use sso_operator.Base.Text.{Str}
use sso_operator.Base.Run.{Error, Reply, Run, Call}
use sso_operator.Objects.{
  StrMap, Secret, Service, Deployment, Job, ConfigMap, Pod, Ingress, Endpoints, ClusterRoleBinding,
  ServiceAccount, Crd, WatchEvent, OidcClient, CreateClientResp, UpdateClientReq,
}
use sso_operator.Api.{Sso}
use sso_operator.Client.Rest.{Rest}

-- What `Expose` hands to `yaml.Marshal`, pkg/proxy/expose.go.
pub record ExposeConfig : Type 0 where
  pub domain : Str
  pub exposer : Str
  pub path_mode : Str
  pub http : Bool
  pub tls_acme : Bool
  pub services : List Str
  pub url_template : Str

pub record Platform : Type 1 where
  -- The cluster, with the clock and the source of randomness; and dex.
  pub Cluster : Type 0
  pub Dex : Type 0
  -- k8s.io/apimachinery/pkg/api/errors, and `Error()`
  pub is_not_found : Error → Bool
  pub is_already_exists : Error → Bool
  pub is_timeout : Error → Bool
  pub is_server_timeout : Error → Bool
  pub is_too_many_requests : Error → Bool
  pub is_internal_error : Error → Bool
  pub error_text : Error → Str
  -- `errors.Wrapf(nil, text)` of github.com/pkg/errors
  pub wrapf_nil : Str → Option Error
  -- k8s.io/client-go: the clientsets, and the REST client below the generated clientset
  pub Clientset : Type 0
  pub ApiExtensions : Type 0
  pub rest : Rest Cluster
  pub client_config : Call Cluster rest.Config
  pub new_for_config : rest.Config → Call Cluster Clientset
  pub new_extensions_for_config : rest.Config → Call Cluster ApiExtensions
  -- the API of a clientset; a namespace stands before a name
  pub list_services : Clientset → Str → Call Cluster (List Service)
  pub get_service : Clientset → Str → Str → Call Cluster Service
  pub list_deployments : Clientset → Str → Call Cluster (List Deployment)
  pub list_pods : Clientset → Str → Str → Call Cluster (List Pod)
  pub get_pod : Clientset → Str → Str → Call Cluster Pod
  pub get_job : Clientset → Str → Str → Call Cluster Job
  pub list_ingresses : Clientset → Str → Call Cluster (List Ingress)
  pub list_endpoints : Clientset → Str → Call Cluster (List Endpoints)
  pub list_role_bindings : Clientset → Call Cluster (List ClusterRoleBinding)
  pub update_role_binding : Clientset → ClusterRoleBinding → Call Cluster ClusterRoleBinding
  pub get_service_account : Clientset → Str → Str → Call Cluster ServiceAccount
  pub create_service_account : Clientset → Str → ServiceAccount → Call Cluster ServiceAccount
  pub get_secret : Clientset → Str → Str → Call Cluster Secret
  pub create_secret : Clientset → Str → Secret → Call Cluster Secret
  pub delete_secret : Clientset → Str → Str → Call Cluster (Unit {0})
  pub get_crd : ApiExtensions → Str → Call Cluster Crd
  pub create_crd : ApiExtensions → Crd → Call Cluster Crd
  -- github.com/operator-framework/operator-sdk: `Create` and `Update` fill the object in with the
  -- server's answer; the flag of `Delete` is the option of background propagation
  pub sdk_create_secret : Secret → Call Cluster Secret
  pub sdk_create_deployment : Deployment → Call Cluster Deployment
  pub sdk_create_service : Service → Call Cluster Service
  pub sdk_create_config_map : ConfigMap → Call Cluster ConfigMap
  pub sdk_create_job : Job → Call Cluster Job
  pub sdk_update_secret : Secret → Call Cluster Secret
  pub sdk_update_deployment : Deployment → Call Cluster Deployment
  pub sdk_update_sso : Sso → Call Cluster Sso
  pub sdk_delete_job : Bool → Job → Call Cluster (Unit {0})
  pub sdk_delete_config_map : ConfigMap → Call Cluster (Unit {0})
  -- k8s.io/apimachinery/pkg/util/wait (interval, then timeout, in nanoseconds), labels, watch
  pub poll : ℕ → ℕ → Run Cluster Bool → Run Cluster (Unit {0})
  pub poll_immediate : ℕ → ℕ → Run Cluster Bool → Run Cluster (Unit {0})
  pub label_selector : StrMap → Str
  pub Watch : Type 0
  pub watch_deployments : Clientset → Str → Str → Call Cluster Watch
  pub watch_until : ℕ → Watch → (WatchEvent → Run Cluster Bool) → Run Cluster (Unit {0})
  -- the order in which `range` walks a map this time
  pub range_map : StrMap → Cluster → StrMap × Cluster
  -- crypto/rand, crypto/sha256, encoding/base64, gopkg.in/yaml.v2
  pub random_bytes : ℕ → Call Cluster (List ℕ)
  pub sha256 : Str → List ℕ
  pub base64_url : List ℕ → Str
  pub marshal_expose_config : ExposeConfig → Reply Str
  -- github.com/dexidp/dex/api
  pub dex_create_client : OidcClient → Call Dex CreateClientResp
  pub dex_update_client : UpdateClientReq → Call Dex Bool
  pub dex_delete_client : Str → Call Dex Bool
