-- ===== src/Client/Rest.antt =====
-- What the typed clientset takes from client-go: the requests of the REST client and its options, over
-- the state of a server.
use sso_operator.Base.{Bool, List, Option}
use sso_operator.Base.Text.{Str}
use sso_operator.Base.Run.{Call}
use sso_operator.Api.{Sso, SsoList}

pub record Rest (Server : Type 0) : Type 1 where
  pub RestClient : Type 0
  pub Request : Type 0
  pub GetOptions : Type 0
  pub ListOptions : Type 0
  pub DeleteOptions : Type 0
  pub PatchType : Type 0
  pub Watch : Type 0
  -- a new request of a verb
  pub get : RestClient → Request
  pub post : RestClient → Request
  pub put : RestClient → Request
  pub delete : RestClient → Request
  pub patch : RestClient → PatchType → Request
  pub namespace : Request → Str → Request
  pub resource : Request → Str → Request
  pub sub_resource : Request → List Str → Request
  pub name : Request → Str → Request
  -- `VersionedParams` of the options of a get and of a listing
  pub get_params : Request → GetOptions → Request
  pub list_params : Request → ListOptions → Request
  -- `Body` of a resource, of the options of a deletion and of bytes
  pub sso_body : Request → Sso → Request
  pub delete_body : Request → Option DeleteOptions → Request
  pub data_body : Request → Str → Request
  -- `Do().Into(…)`, `Do().Error()` and `Watch()`
  pub into_sso : Request → Call Server Sso
  pub into_list : Request → Call Server SsoList
  pub error_of : Request → Call Server (Unit {0})
  pub watch : Request → Call Server Watch
  -- `metav1.ListOptions{}`
  pub no_list_options : ListOptions
  -- the options with `Watch` set
  pub watching : ListOptions → ListOptions
  -- a configuration: its parts that the code reads or sets
  pub RateLimiter : Type 0
  pub Config : Type 0
  pub rate_limiter : Config → Option RateLimiter
  pub has_qps : Config → Bool
  pub token_bucket : Config → RateLimiter
  pub with_rate_limiter : Config → RateLimiter → Config
  pub with_group_version : Config → Str → Str → Config
  pub with_api_path : Config → Str → Config
  pub with_serializer : Config → Config
  pub user_agent : Config → Str
  pub with_user_agent : Config → Str → Config
  pub default_user_agent : Str
  pub Discovery : Type 0
  pub rest_client_for : Config → Call Server RestClient
  pub discovery_for_config : Config → Call Server Discovery
  pub discovery_for_config_or_die : Config → Server → Option Discovery × Server
  pub discovery_of : RestClient → Discovery
