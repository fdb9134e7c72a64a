-- ===== src/Tests/Sample.antt =====
-- A small cluster and a small dex, with the one upstream service, and the resources of the tests.
use sso_operator.Base.{
  ℕ, suc, zero, Bool, true, false, Option, none, some, List, [], ◌∷◌, if◌then◌else◌,
}
use sso_operator.Base.Text.{Str, str, same}
use sso_operator.Base.Run.{Error, fault, reply, failed, Outcome, ok, err, panic, Call}
use sso_operator.Objects.{
  StrMap, TypeMeta, ObjectMeta, Secret, Service, Job, JobCondition, Pod, ClusterRoleBinding,
  OidcClient, CreateClientResp, UpdateClientReq, no_meta,
}
use sso_operator.Api.{Sso}
use sso_operator.Tests.Rests.{rest_listing}
use sso_operator.Platform.{Platform}

abbrev pub no_type : TypeMeta
no_type = record { kind = []; api_version = [] }

abbrev pub web_meta : ObjectMeta
web_meta = record no_meta {
  name = str "web";
  namespace = str "jx";
  labels = (str "app", str "web") ∷ [];
}

abbrev pub web_service : Service
web_service = record {
  type_meta = no_type;
  meta = web_meta;
  ports = record { name = str "http"; protocol = str "TCP"; port = 80; target_port = 8080 } ∷ [];
  selector = [];
}

abbrev pub operator_binding : ClusterRoleBinding
operator_binding = record {
  meta = record no_meta { name = str "operators" };
  role_kind = str "ClusterRole";
  role_name = str "sso-operator";
  subjects = [];
}

abbrev pub ready_pod : Pod
ready_pod = record {
  meta = web_meta;
  phase = str "Running";
  container_statuses = record { name = str "proxy"; ready = true } ∷ [];
}

abbrev pub complete : JobCondition
complete = record { condition_type = str "Complete"; text = [] }

abbrev pub complete_job : Job → Job
complete_job job = record job { conditions = complete ∷ [] }

abbrev pub bare_job : Job
bare_job = record {
  type_meta = no_type;
  meta = web_meta;
  template = record {
    meta = no_meta;
    spec = record {
      service_account_name = [];
      containers = [];
      volumes = [];
      image_pull_secrets = [];
      restart_policy = [];
    };
  };
  conditions = [];
}

abbrev pub refusal : Str → Error
refusal reason = fault reason []

abbrev pub has_reason : Str → Error → Bool
has_reason reason (fault r text) = same r reason
has_reason reason _ = false

-- A poll of one try.
abbrev pub poll_once : {S : Type 0} → Outcome Bool × S → Outcome (Unit {0}) × S
poll_once (ok true, s) = (ok tt, s)
poll_once (ok false, s) = (err (refusal (str "timed out")), s)
poll_once (err e, s) = (err e, s)
poll_once (panic, s) = (panic, s)

abbrev pub answered : {S A : Type 0} → A → Call S A
answered a s = (reply a, s)

abbrev pub create_once : OidcClient → Call (Option OidcClient) CreateClientResp
create_once client none =
    let c : OidcClient = record client { id = str "id-1"; secret = str "s3cret" } in
    (reply (record { already_exists = false; client = some c }), some c)
create_once client (some c) = (reply (record { already_exists = true; client = some c }), some c)

abbrev pub update_stored : UpdateClientReq → Call (Option OidcClient) Bool
update_stored req none = (reply true, none)
update_stored req (some c) =
    if same c.id req.id
    then (
      reply false,
      some (record c {
        redirect_uris = req.redirect_uris;
        trusted_peers = req.trusted_peers;
        name = req.name;
        logo_url = req.logo_url;
      }),
    )
    else (reply true, some c)

abbrev pub delete_stored : Str → Call (Option OidcClient) Bool
delete_stored id none = (reply true, none)
delete_stored id (some c) = if same c.id id then (reply false, none) else (reply true, some c)

abbrev pub secret_with : Option StrMap → Call (Option StrMap) Secret
secret_with none = λ s. (failed (refusal (str "NotFound")), s)
secret_with (some m) = answered (record {
  type_meta = no_type;
  meta = no_meta;
  content = m;
  string_data = none;
  secret_type = [];
})

-- What a platform answers where the tests differ. The last is the error of creating a config map or
-- a job.
pub record Answers : Type 0 where
  pub hosts : List Str
  pub ssos : List Sso
  pub existing : Option Error

abbrev pub answered_or : {S A : Type 0} → Option Error → A → Call S A
answered_or none a = answered a
answered_or (some e) a = λ s. (failed e, s)

abbrev pub zeros : ℕ → List ℕ
zeros zero = []
zeros (suc n) = 0 ∷ zeros n

-- The cluster keeps the operator's secret, and dex one client.
abbrev pub sample : Answers → Platform
sample answers = record {
  Cluster = Option StrMap;
  Dex = Option OidcClient;
  is_not_found = has_reason (str "NotFound");
  is_already_exists = has_reason (str "AlreadyExists");
  is_timeout = has_reason (str "Timeout");
  is_server_timeout = has_reason (str "ServerTimeout");
  is_too_many_requests = has_reason (str "TooManyRequests");
  is_internal_error = has_reason (str "InternalError");
  error_text = λ e. [];
  wrapf_nil = λ text. none;
  Clientset = Unit {0};
  ApiExtensions = Unit {0};
  rest = rest_listing (λ s. answers.ssos);
  client_config = answered tt;
  new_for_config = λ config. answered tt;
  new_extensions_for_config = λ config. answered tt;
  list_services = λ k ns. answered (web_service ∷ []);
  get_service = λ k ns name. answered web_service;
  list_deployments = λ k ns. answered [];
  list_pods = λ k ns selector. answered (ready_pod ∷ []);
  get_pod = λ k ns name. answered ready_pod;
  get_job = λ k ns name. answered (complete_job bare_job);
  list_ingresses = λ k ns. answered (record { meta = web_meta; hosts = answers.hosts } ∷ []);
  list_endpoints =
      λ k ns. answered (record { meta = web_meta; subsets = (str "10.0.0.1" ∷ []) ∷ [] } ∷ []);
  list_role_bindings = λ k. answered (operator_binding ∷ []);
  update_role_binding = λ k b. answered b;
  get_service_account = λ k ns name s. (failed (refusal (str "NotFound")), s);
  create_service_account = λ k ns account. answered account;
  get_secret = λ k ns name s. secret_with s s;
  create_secret = λ k ns secret s. (reply secret, secret.string_data);
  delete_secret = λ k ns name s. (reply tt, none);
  get_crd = λ k name s. (failed (refusal (str "NotFound")), s);
  create_crd = λ k crd. answered crd;
  sdk_create_secret = λ o. answered o;
  sdk_create_deployment = λ o. answered o;
  sdk_create_service = λ o. answered o;
  sdk_create_config_map = λ o. answered_or answers.existing o;
  sdk_create_job = λ o. answered_or answers.existing o;
  sdk_update_secret = λ o. answered o;
  sdk_update_deployment = λ o. answered o;
  sdk_update_sso = λ o. answered o;
  sdk_delete_job = λ background o. answered tt;
  sdk_delete_config_map = λ o. answered tt;
  poll = λ interval timeout condition c. poll_once (condition c);
  poll_immediate = λ interval timeout condition c. poll_once (condition c);
  label_selector = λ labels. [];
  Watch = Unit {0};
  watch_deployments = λ k ns name. answered tt;
  watch_until = λ timeout w condition c. (ok tt, c);
  range_map = λ m c. (m, c);
  random_bytes = λ n. answered (zeros n);
  sha256 = λ s. s;
  base64_url = λ bytes. bytes;
  marshal_expose_config = λ config. reply config.domain;
  dex_create_client = create_once;
  dex_update_client = update_stored;
  dex_delete_client = delete_stored;
}
