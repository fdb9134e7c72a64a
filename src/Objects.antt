-- ===== src/Objects.antt =====
-- The Kubernetes and dex values that the program reads and builds, with the fields it uses. Their
-- Go types stand in k8s.io/api, k8s.io/apimachinery, k8s.io/apiextensions-apiserver and dex's api.
use sso_operator.Base.{ℕ, Bool, List, [], Option}
use sso_operator.Base.Text.{Str}

-- A map from strings to strings. A map that Go walks with `range` comes in any order.
abbrev pub StrMap : Type 0
StrMap = List (Str × Str)

pub record TypeMeta : Type 0 where
  pub kind : Str
  pub api_version : Str

pub record OwnerReference : Type 0 where
  pub api_version : Str
  pub kind : Str
  pub name : Str
  pub uid : Str
  pub controller : Bool

pub record ObjectMeta : Type 0 where
  pub name : Str
  pub namespace : Str
  pub uid : Str
  pub labels : StrMap
  pub annotations : StrMap
  pub owners : List OwnerReference

pub record Resources : Type 0 where
  pub limits : StrMap
  pub requests : StrMap

pub record EnvVar : Type 0 where
  pub name : Str
  pub value : Str

pub record ContainerPort : Type 0 where
  pub name : Str
  pub container_port : ℕ
  pub protocol : Str

pub record VolumeMount : Type 0 where
  pub name : Str
  pub read_only : Bool
  pub mount_path : Str

-- A probe by `HTTPGet`.
pub record Probe : Type 0 where
  pub path : Str
  pub port : ℕ
  pub scheme : Str
  pub initial_delay_seconds : ℕ
  pub timeout_seconds : ℕ
  pub period_seconds : ℕ
  pub failure_threshold : ℕ

pub record Container : Type 0 where
  pub name : Str
  pub image : Str
  pub image_pull_policy : Str
  pub command : List Str
  pub args : List Str
  pub ports : List ContainerPort
  pub resources : Resources
  pub volume_mounts : List VolumeMount
  pub env : List EnvVar
  pub liveness_probe : Option Probe
  pub readiness_probe : Option Probe

pub data VolumeSource : Type 0 where
  from_secret : Str → VolumeSource
  from_config_map : Str → VolumeSource

pub record Volume : Type 0 where
  pub name : Str
  pub source : VolumeSource

pub record PodSpec : Type 0 where
  pub service_account_name : Str
  pub containers : List Container
  pub volumes : List Volume
  pub image_pull_secrets : List Str
  pub restart_policy : Str

pub record PodTemplate : Type 0 where
  pub meta : ObjectMeta
  pub spec : PodSpec

pub record Secret : Type 0 where
  pub type_meta : TypeMeta
  pub meta : ObjectMeta
  pub content : StrMap
  pub string_data : Option StrMap
  pub secret_type : Str

pub record ConfigMap : Type 0 where
  pub type_meta : TypeMeta
  pub meta : ObjectMeta
  pub content : StrMap

pub record DeploymentSpec : Type 0 where
  pub replicas : Option ℕ
  pub selector : StrMap
  pub template : PodTemplate
  pub strategy : Str
  pub max_unavailable : ℕ
  pub max_surge : ℕ

pub record Deployment : Type 0 where
  pub type_meta : TypeMeta
  pub meta : ObjectMeta
  pub generation : ℕ
  pub spec : DeploymentSpec
  pub observed_generation : ℕ
  pub status_replicas : ℕ

pub record ServicePort : Type 0 where
  pub name : Str
  pub protocol : Str
  pub port : ℕ
  pub target_port : ℕ

pub record Service : Type 0 where
  pub type_meta : TypeMeta
  pub meta : ObjectMeta
  pub ports : List ServicePort
  pub selector : StrMap

pub record JobCondition : Type 0 where
  pub condition_type : Str
  pub text : Str

pub record Job : Type 0 where
  pub type_meta : TypeMeta
  pub meta : ObjectMeta
  pub template : PodTemplate
  pub conditions : List JobCondition

pub record ContainerStatus : Type 0 where
  pub name : Str
  pub ready : Bool

pub record Pod : Type 0 where
  pub meta : ObjectMeta
  pub phase : Str
  pub container_statuses : List ContainerStatus

-- The hosts of an ingress's rules, in order.
pub record Ingress : Type 0 where
  pub meta : ObjectMeta
  pub hosts : List Str

-- The number of addresses of each subset, in order.
pub record Endpoints : Type 0 where
  pub meta : ObjectMeta
  pub subsets : List (List Str)

pub record Subject : Type 0 where
  pub kind : Str
  pub name : Str
  pub namespace : Str

pub record ClusterRoleBinding : Type 0 where
  pub meta : ObjectMeta
  pub role_kind : Str
  pub role_name : Str
  pub subjects : List Subject

pub record ServiceAccount : Type 0 where
  pub type_meta : TypeMeta
  pub meta : ObjectMeta

pub record CrdNames : Type 0 where
  pub kind : Str
  pub list_kind : Str
  pub plural : Str
  pub singular : Str
  pub short_names : List Str

pub record Crd : Type 0 where
  pub meta : ObjectMeta
  pub group : Str
  pub version : Str
  pub scope : Str
  pub names : CrdNames

-- An event of a watch: its type, and the deployment it is about if it is about one.
pub record WatchEvent : Type 0 where
  pub event_type : Str
  pub deployment : Option Deployment

-- The OIDC clients of dex, and the requests and answers of its gRPC API.
pub record OidcClient : Type 0 where
  pub id : Str
  pub secret : Str
  pub redirect_uris : List Str
  pub trusted_peers : List Str
  pub is_public : Bool
  pub name : Str
  pub logo_url : Str

pub record CreateClientResp : Type 0 where
  pub already_exists : Bool
  pub client : Option OidcClient

pub record UpdateClientReq : Type 0 where
  pub id : Str
  pub redirect_uris : List Str
  pub trusted_peers : List Str
  pub name : Str
  pub logo_url : Str

abbrev pub no_meta : ObjectMeta
no_meta = record { name = []; namespace = []; uid = []; labels = []; annotations = []; owners = [] }

abbrev pub no_resources : Resources
no_resources = record { limits = []; requests = [] }
