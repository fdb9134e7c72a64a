-- ===== src/Operator/Health.antt =====
-- A cluster and a dex that serve the operator while it provisions one resource.
pub mod Cluster
pub mod Proxies
pub mod Exposing
pub mod Provisioning
use sso_operator.Base.{
  ℕ, ◌≡◌, ◌≢◌, Bool, true, false, Option, none, some, List, [], ◌∷◌, find_first,
}
use sso_operator.Base.Text.{Str, str, has_prefix}
use sso_operator.Base.Run.{Error, Reply, reply, ok, Run}
use sso_operator.Base.Run.Succeeds.{Answers, Replies, Succeeds}
use sso_operator.Objects.{
  StrMap, Secret, Service, ServicePort, Deployment, Job, ConfigMap, Pod, Ingress,
  ClusterRoleBinding, ServiceAccount, OidcClient, CreateClientResp, UpdateClientReq,
}
use sso_operator.Api.{Sso, SsoList}
use sso_operator.Platform.{Platform, ExposeConfig}
use sso_operator.Client.Typed.{list_request}
use sso_operator.Dex.View.{View}
use sso_operator.Kube.Rbac.{is_binding_of}
use sso_operator.Kube.Resources.{initialized_of, hosts_of}
use sso_operator.Kube.Wait.{first_incomplete, all_running}
use sso_operator.Proxy.Upstream.{is_named, first_port, label_values, choose_app_name}
use sso_operator.Operator.Handler.NilClient.{requested}

-- The last argument of `Answers` where the request does not fail.
abbrev pub NoError : Error → Type 0
NoError _ = ⊥

abbrev pub Anything : {A : Type 0} → A → Type 0
Anything _ = Unit {0}

module _ {S : Type 0} where
  -- A poll whose condition can be tried in every state of the first predicate, and holds in those of
  -- the second: the cluster comes to one of the second before the timeout.
  abbrev pub ComesTrue :
      (S → Type 0) → (S → Type 0) → (ℕ → ℕ → Run S Bool → Run S (Unit {0})) → Type 0
  ComesTrue I Ready poll =
      (interval timeout : ℕ) (condition : Run S Bool)
      → Succeeds I I condition Anything
      → Succeeds (λ s. I s × Ready s) I condition (λ b. b ≡ true)
      → Succeeds I I (poll interval timeout condition) Anything

-- The cluster: `I` is of the states that it goes through, `Ready` of those in which what was
-- created runs.
pub record Healthy (P : Platform) (I Ready : P.Cluster → Type 0) (role : Str) (sso : Sso)
    : Type 0 where
  -- the clients
  pub config : Replies I (P.client_config)
  pub clientset : (c : P.rest.Config) → Replies I (P.new_for_config c)
  pub rest_client : (c : P.rest.Config) → Replies I (P.rest.rest_client_for c)
  pub discovery : (c : P.rest.Config) → Replies I (P.rest.discovery_for_config c)
  -- the resource is not listed as initialized
  pub lists_ssos :
      (k : P.rest.RestClient)
      → Answers I I
          (P.rest.into_list (
            list_request
              (P.rest)
              (record { client = k; ns = sso.meta.namespace })
              (P.rest.no_list_options)))
          (λ (l : SsoList). initialized_of sso.meta.name l.items ≡ false)
          NoError
  -- the role has a binding, and accounts can be made
  pub lists_bindings :
      (k : P.Clientset)
      → Answers I I
          (P.list_role_bindings k)
          (λ bs. (b : ClusterRoleBinding) × (find_first (is_binding_of role) bs ≡ some b))
          NoError
  pub binds : (k : P.Clientset) (b : ClusterRoleBinding) → Replies I (P.update_role_binding k b)
  pub finds_account :
      (k : P.Clientset) (ns name : Str)
      → Answers I I (P.get_service_account k ns name) Anything Anything
  pub creates_account :
      (k : P.Clientset) (ns : Str) (a : ServiceAccount)
      → Replies I (P.create_service_account k ns a)
  -- the upstream service, its port and the name of its application; and the order of a `range`
  pub service : Service
  pub port : ServicePort
  pub app_name : Str
  pub lists_services :
      (k : P.Clientset)
      → Answers I I
          (P.list_services k sso.meta.namespace)
          (λ l. find_first (is_named sso.spec.upstream_service) l ≡ some service)
          NoError
  pub has_port : first_port service.ports ≡ some port
  pub names_app :
      (c : P.Cluster)
      → I c
      → choose_app_name service.meta.name (label_values (P.range_map service.meta.labels c).0 [])
        ≡ app_name
  pub ranges : (m : StrMap) (c : P.Cluster) → I c → I (P.range_map m c).1
  -- an ingress of the application, with a host
  pub lists_ingresses :
      (k : P.Clientset)
      → Answers I I
          (P.list_ingresses k sso.meta.namespace)
          (λ l. (host : Str) × (hosts : List Str) × (hosts_of app_name l ≡ some (host ∷ hosts)))
          NoError
  -- what is created may be there already, but for the job; a secret keeps its string data
  pub creates_secret :
      (o : Secret)
      → o.string_data ≢ none
      → Answers I I
          (P.sdk_create_secret o)
          (λ o'. o'.string_data ≢ none)
          (λ e. P.is_already_exists e ≡ true)
  pub creates_deployment :
      (o : Deployment)
      → Answers I I (P.sdk_create_deployment o) Anything (λ e. P.is_already_exists e ≡ true)
  pub creates_service :
      (o : Service)
      → Answers I I (P.sdk_create_service o) Anything (λ e. P.is_already_exists e ≡ true)
  pub creates_config_map :
      (o : ConfigMap)
      → Answers I I (P.sdk_create_config_map o) Anything (λ e. P.is_already_exists e ≡ true)
  pub creates_job : (o : Job) → Replies I (P.sdk_create_job o)
  pub deletes_job : (background : Bool) (o : Job) → Replies I (P.sdk_delete_job background o)
  pub deletes_config_map : (o : ConfigMap) → Replies I (P.sdk_delete_config_map o)
  pub marshals : (x : ExposeConfig) → (text : Str) × (P.marshal_expose_config x ≡ reply text)
  -- the updates; after that of the resource nothing more is asked
  pub updates_secret : (o : Secret) → Replies I (P.sdk_update_secret o)
  pub lists_deployments : (k : P.Clientset) (ns : Str) → Replies I (P.list_deployments k ns)
  pub updates_deployment : (o : Deployment) → Replies I (P.sdk_update_deployment o)
  pub updates_sso : (o : Sso) → Answers I Anything (P.sdk_update_sso o) Anything NoError
  -- the waits
  pub polls : ComesTrue I Ready (P.poll)
  pub polls_immediate : ComesTrue I Ready (P.poll_immediate)
  pub gets_service :
      (k : P.Clientset) (ns name : Str)
      → Answers I I (P.get_service k ns name) Anything (λ e. P.is_not_found e ≡ true)
  pub serves :
      (k : P.Clientset) (ns name : Str)
      → Answers (λ c. I c × Ready c) I (P.get_service k ns name) Anything NoError
  pub lists_pods :
      (k : P.Clientset) (ns selector : Str)
      → Answers I I (P.list_pods k ns selector) Anything Anything
  pub runs_pods :
      (k : P.Clientset) (ns selector : Str)
      → Answers
          (λ c. I c × Ready c)
          I
          (P.list_pods k ns selector)
          (λ l. (p : Pod) × (pods : List Pod) × (l ≡ p ∷ pods) × (all_running l ≡ true))
          NoError
  pub gets_job :
      (k : P.Clientset) (ns name : Str)
      → Answers I I
          (P.get_job k ns name)
          (λ (j : Job). first_incomplete j.conditions ≡ none)
          (λ e. P.is_not_found e ≡ true)
  pub completes_job :
      (k : P.Clientset) (ns name : Str)
      → Answers
          (λ c. I c × Ready c)
          I
          (P.get_job k ns name)
          (λ (j : Job). (j.conditions ≢ []) × (first_incomplete j.conditions ≡ none))
          NoError
  -- the issuer
  pub secure : has_prefix sso.spec.oidc_issuer_url (str "https://") ≡ true

-- Dex: in the states of `New` it makes the client, with a redirect URL, and it finds the clients that
-- it has.
pub record DexHealthy (P : Platform) (clients : View P) (New : P.Dex → Type 0) (sso : Sso)
    : Type 0 where
  pub creates :
      (d : P.Dex)
      → New d
      → (resp : CreateClientResp) × (c : OidcClient) × (d' : P.Dex) × (P.dex_create_client
            (requested sso)
            d
          ≡ (reply resp, d'))
        × (resp.already_exists ≡ false)
        × (resp.client ≡ some c)
        × (c.redirect_uris ≢ [])
  pub finds :
      (req : UpdateClientReq) (d : P.Dex)
      → clients d req.id ≢ none
      → (d' : P.Dex) × (P.dex_update_client req d ≡ (reply false, d'))
