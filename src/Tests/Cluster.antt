-- ===== src/Tests/Cluster.antt =====
-- The waits, the role binding, the operator's configuration and its start.
use sso_operator.Base.{IsIn, ◌<◌, ◌≡◌, refl, true, false, none, List, [], ◌∷◌, length, All}
use sso_operator.Base.Text.{Str, str}
use sso_operator.Base.Run.{Reply, reply, ok}
use sso_operator.Objects.{StrMap, Service, Job, JobCondition, ClusterRoleBinding}
use sso_operator.Kube.Client.{get_client_config, get_clientset}
use sso_operator.Kube.Rbac.{
  role_kind, create_service_account_in, with_subject, bind_account, with_binding,
  ensure_cluster_role_binding,
}
use sso_operator.Kube.Rbac.Account.{IsBound, ensure_cluster_role_binding-IsBound}
use sso_operator.Kube.Wait.{
  wait_for_service, wait_for_pods_with_label_running, wait_for_job_complete, wait_for_pod_ready,
  wait_for_service_endpoints_num,
}
use sso_operator.Kube.Wait.Soundness.{Settled, wait_for_service_sound, wait_for_job_complete_sound}
use sso_operator.Operator.Config.{Handler}
use sso_operator.Dex.Connection.{Host}
use sso_operator.CommandLine.{OperatorOptions, Serving}
use sso_operator.Tests.Sample.{sample}
use sso_operator.Tests.Laws.{sample_polls}
use sso_operator.Tests.Values.{plain}

wait_for_service_sound_example :
    (u : _) × (r : Reply Service) × ((sample plain).get_service tt (str "jx") (str "web") u
      ≡ (r, none))
    × Settled (sample plain) true r
unfolding wait_for_service
wait_for_service_sound_example =
    wait_for_service_sound (sample plain) (sample_polls plain) tt (str "jx") (str "web") true 10 60
      none none refl

pods_ran : wait_for_pods_with_label_running (sample plain) tt (str "jx") [] 60 none ≡ (ok tt, none)
unfolding wait_for_pods_with_label_running str
pods_ran = refl

job_ended :
    wait_for_job_complete (sample plain) tt (str "jx") (str "web") 10 60 none ≡ (ok tt, none)
unfolding wait_for_job_complete str
job_ended = refl

wait_for_job_complete_sound_example :
    (u : _) × (job : Job) × ((sample plain).get_job tt (str "jx") (str "web") u ≡ (reply job, none))
    × (0 < length job.conditions)
    × All (λ (cond : JobCondition). cond.condition_type ≡ str "Complete") job.conditions
wait_for_job_complete_sound_example =
    wait_for_job_complete_sound (sample plain) (sample_polls plain) tt (str "jx") (str "web") 10 60
      none none job_ended

pod_came : wait_for_pod_ready (sample plain) tt (str "jx") (str "web") none ≡ (ok tt, none)
unfolding wait_for_pod_ready str
pod_came = refl

endpoints_came :
    wait_for_service_endpoints_num (sample plain) tt (str "jx") (str "web") 1 10 60 none
    ≡ (ok tt, none)
unfolding wait_for_service_endpoints_num str
endpoints_came = refl

bound :
    ensure_cluster_role_binding (sample plain) (str "sso-operator") (str "jx") none
    ≡ (ok (str "sso-operator-sa"), none)
unfolding str get_client_config get_clientset create_service_account_in with_subject bind_account
    with_binding ensure_cluster_role_binding
bound = refl

ensure_cluster_role_binding-IsBound_example :
    (k : _) × (u v : _) × (bindings : List ClusterRoleBinding) × (b : ClusterRoleBinding) × ((sample
          plain).list_role_bindings
        k u
      ≡ (reply bindings, v))
    × IsIn b bindings
    × (b.role_kind ≡ role_kind)
    × (b.role_name ≡ str "sso-operator")
    × IsBound (sample plain) k b (str "jx") (str "sso-operator-sa") v none
ensure_cluster_role_binding-IsBound_example =
    ensure_cluster_role_binding-IsBound (sample plain) (str "sso-operator") (str "jx") none none
      (str "sso-operator-sa") bound

-- The first start makes the key, which the buffer of zeros gives.
abbrev key_zero : Str
key_zero = str "00000000000000000000000000000000"

abbrev stored_secret : StrMap
stored_secret = (str "ssoCookieKey", key_zero) ∷ []

abbrev made_handler : Handler
made_handler = record {
  cluster_role_name = str "sso-operator";
  operator_config = record { cookie_key = key_zero };
}

-- A host with the namespace in the environment and all files there.
abbrev sample_host : Host
sample_host = record {
  getenv = λ variable. str "jx";
  is_missing = λ path. false;
  read_file = λ path. reply path;
  append_certs_from_pem = λ text. true;
  KeyPair = Unit {0};
  load_x509_key_pair = λ crt key. reply tt;
  Conn = Unit {0};
  dial = λ address ca pair. reply tt;
}

abbrev options : OperatorOptions
options = record {
  namespace = [];
  watch_namespace = str "apps";
  dex_grpc_host_and_port = str "dex:5557";
  dex_grpc_client_crt = str "crt";
  dex_grpc_client_key = str "key";
  dex_grpc_client_ca = str "ca";
  cluster_role_name = str "sso-operator";
}

abbrev serving : Serving sample_host
serving = record { dex_client = tt; watched = str "apps"; handler = made_handler }
