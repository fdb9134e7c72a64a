-- ===== src/Tests/Proxies.antt =====
-- The names and the configuration of a proxy, and its deployment.
use sso_operator.Base.{
  ◌≤◌, ◌≡◌, ◌≢◌, ◌↔◌, refl, true, false, Option, none, some, [], ◌∷◌, ◌⊎◌, length, All, arith,
}
use sso_operator.Base.Text.{Str, str, trim_suffix, remove_first, decimal}
use sso_operator.Base.Run.{Error, reply, failed, Outcome, ok, err, wrap}
use sso_operator.Base.Dict.{lookup, NodupKeys}
use sso_operator.Objects.{StrMap, ConfigMap, Container, Deployment, no_meta, no_resources}
use sso_operator.Kube.Client.{get_client_config, get_clientset}
use sso_operator.Kube.Wait.{
  wait_for_service, wait_for_pods_with_label_running, wait_for_job_complete,
}
use sso_operator.Proxy.Names.{build_name, joined, trimmed, finish}
use sso_operator.Proxy.Names.Bounds.{IsOversized, build_name_bounds}
use sso_operator.Proxy.Names.Suffixes.{Fits, suffixes, build_name-Fits}
use sso_operator.Proxy.CookieKey.{generate_cookie_key}
use sso_operator.Proxy.CookieKey.Alphabet.{IsAlphanumeric, generate_cookie_key_lem}
use sso_operator.Proxy.Upstream.{
  find_service, get_upstream_url, get_app_name, choose_app_name, label_values,
}
use sso_operator.Proxy.Upstream.AppName.{app_name_of, get_app_name_lem}
use sso_operator.Proxy.Config.{render_config}
use sso_operator.Proxy.Resources.{
  fake_redirect_url, checked_config, proxy_config, proxy_container, compute_secret_version,
  proxy_secret, config_of,
}
use sso_operator.Proxy.Deploy.{
  Proxy, create_or_keep, deploy_secret, deploy_deployment, service_of, await_proxy, deploy,
  deployment_of, pod_template,
}
use sso_operator.Proxy.Deploy.Running.{PodsRun, deploy-PodsRun}
use sso_operator.Proxy.Update.{updated_deployment}
use sso_operator.Proxy.Update.Containers.{ContainersUpdated, updated_deployment_lem}
use sso_operator.Proxy.Expose.{
  expose_container, create_job, render_expose_config, expose_config_map, start_job,
  store_expose_map, store_cleanup_map, expose, cleanup, cleanup_container, build_cleanup_map,
}
use sso_operator.Proxy.Expose.ConfigMaps.{config_map_errors}
use sso_operator.Proxy.Expose.Jobs.{owned_map, Finished, expose-Finished, cleanup-Finished}
use sso_operator.Tests.Sample.{Answers, sample, web_service, web_meta, refusal, zeros, no_type}
use sso_operator.Tests.Laws.{sample_polls, sample_fills, sample_ranges}
use sso_operator.Tests.Values.{plain, web_sso, web_client}

-- The cases of proxy_test.go.
abbrev name_43 : Str
name_43 = str "aaaaaaaaaa-bbbbbbbbbb-cccccccccc-dddddddddd"

abbrev name_65 : Str
name_65 = str "aaaaaaaaaa-bbbbbbbbbb-cccccccccc-dddddddddd-eeeeeeeeee-ffffffffff"

build_name_43 :
    build_name name_43 (str "suffix")
    ≡ some (str "aaaaaaaaaa-bbbbbbbbbb-cccccccccc-dddddddddd-suffix")
unfolding str build_name joined
build_name_43 = refl

build_name_65 :
    build_name name_65 (str "suffix")
    ≡ some (str "aaaaaaaaaa-bbbbbbbbbb-cccccccccc-dddddddddd-eeeeeeeeee-f-suffix")
unfolding str build_name joined trimmed finish trim_suffix
build_name_65 = refl

build_name_long_suffix :
    build_name (str "name") name_65
    ≡ some (str "name-aaaaaaaaaa-bbbbbbbbbb-cccccccccc-dddddddddd-eeeeeeeeee-fff")
unfolding str build_name joined trimmed finish trim_suffix
build_name_long_suffix = refl

build_name_both :
    build_name name_65 (str "gggggggggg-hhhhhhhhhh-iiiiiiiiii-jjjjjjjjjj-kkkkkkkkkk-llllllllll")
    ≡ some (str "aaaaaaaaaa-bbbbbbbbbb-ccccccccc-gggggggggg-hhhhhhhhhh-iiiiiiiii")
unfolding str build_name joined trimmed finish trim_suffix
build_name_both = refl

build_name_bounds_example :
    (r : Str) × (build_name name_65 name_43 ≡ some r)
    × ((length r ≤ 63) ↔ ¬ IsOversized name_65 name_43)
build_name_bounds_example = build_name_bounds name_65 name_43

build_name-Fits_example : All (Fits name_65) suffixes
build_name-Fits_example = build_name-Fits name_65

-- Text
remove_first_once : remove_first (str "jx-jx-web") (str "jx-") ≡ str "jx-web"
unfolding str remove_first
remove_first_once = refl

decimal_port : decimal 4180 ≡ str "4180"
unfolding str decimal
decimal_port = refl

generate_cookie_key_lem_example :
    ((key : Str) × (generate_cookie_key (sample plain) none ≡ (ok key, none))
      × (length key ≡ 32)
      × All IsAlphanumeric key)
    ⊎ ((e : Error) × (reply (zeros 32) ≡ failed e)
        × (generate_cookie_key (sample plain) none
            ≡ (err (wrap (wrap e (str "generating random")) (str "generating secret")), none)))
generate_cookie_key_lem_example =
    generate_cookie_key_lem (sample plain) (sample_fills plain) none none (reply (zeros 32)) refl

-- The upstream service
found_web : find_service (sample plain) (str "web") (str "jx") none ≡ (ok web_service, none)
unfolding str get_client_config get_clientset find_service
found_web = refl

app_label_there : lookup (str "app") web_service.meta.labels ≢ some []
unfolding str lookup
app_label_there e = ground arith

nodup : NodupKeys web_service.meta.labels
unfolding lookup
nodup = (refl, tt)

get_app_name_lem_example :
    get_app_name (sample plain) (str "web") (str "jx") none
    ≡ (ok (app_name_of (str "web") ((str "app", str "web") ∷ [])), none)
get_app_name_lem_example =
    get_app_name_lem (sample plain) (sample_ranges plain) (str "web") (str "jx") none none
      web_service found_web nodup app_label_there

abbrev config_text : Str
config_text =
    render_config (config_of web_sso web_client (str "key") (str "http://web:80") fake_redirect_url)

-- The deployment
abbrev bare_container : Container
bare_container = record {
  name = str "proxy";
  image = [];
  image_pull_policy = [];
  command = [];
  args = [];
  ports = [];
  resources = no_resources;
  volume_mounts = [];
  env = record { name = str "SECRET_VERSION"; value = str "1" } ∷ [];
  liveness_probe = none;
  readiness_probe = none;
}

abbrev proxied : Outcome Proxy × Option StrMap
proxied = deploy (sample plain) web_sso (some web_client) (str "key") none

abbrev proxy_of : Outcome Proxy × Option StrMap → Proxy
proxy_of (ok proxy, c) = proxy
proxy_of _ = record {
  app_name = [];
  secret = record {
    type_meta = no_type;
    meta = no_meta;
    content = [];
    string_data = none;
    secret_type = [];
  };
  deployment = deployment_of web_sso [] [] (pod_template web_sso [] [] [] bare_container);
  service = web_service;
}

deployed : proxied ≡ (ok (proxy_of proxied), none)
unfolding str get_client_config get_clientset wait_for_service wait_for_pods_with_label_running
    build_name joined trimmed finish find_service get_upstream_url get_app_name choose_app_name
    label_values checked_config proxy_config proxy_container compute_secret_version proxy_secret
    create_or_keep deploy_secret deploy_deployment service_of await_proxy deploy
deployed = refl

deploy-PodsRun_example : PodsRun (sample plain) (sample_polls plain) web_sso none
deploy-PodsRun_example =
    deploy-PodsRun (sample plain) (sample_polls plain) web_sso (some web_client) (str "key") none
      none (proxy_of proxied) deployed

exposed : expose (sample plain) web_sso (str "web-sso") (str "sso-operator-sa") none ≡ (ok tt, none)
unfolding str get_client_config get_clientset wait_for_job_complete build_name joined trimmed finish
    expose_container create_job render_expose_config expose_config_map start_job store_expose_map
    expose
exposed = refl

expose-Finished_example :
    Finished
      (sample plain)
      web_sso
      (str "web-sso")
      (str "expose")
      (owned_map web_sso)
      true
      none
      none
expose-Finished_example =
    expose-Finished (sample plain) (sample_polls plain) web_sso (str "web-sso")
      (str "sso-operator-sa") none none exposed

cleaned_up :
    cleanup (sample plain) web_sso (str "web-sso") (str "sso-operator-sa") none ≡ (ok tt, none)
unfolding str get_client_config get_clientset wait_for_job_complete build_name joined trimmed finish
    cleanup_container create_job render_expose_config expose_config_map start_job build_cleanup_map
    store_cleanup_map cleanup
cleaned_up = refl

cleanup-Finished_example :
    Finished (sample plain) web_sso (str "web-sso") (str "cleanup") (λ m. m) false none none
cleanup-Finished_example =
    cleanup-Finished (sample plain) (sample_polls plain) web_sso (str "web-sso")
      (str "sso-operator-sa") none none cleaned_up

abbrev there : Answers
there = record { hosts = []; ssos = []; existing = some (refusal (str "AlreadyExists")) }

abbrev web_map : ConfigMap
web_map = record { type_meta = no_type; meta = web_meta; content = [] }

config_map_errors_example :
    (((sample there).is_already_exists (refusal (str "AlreadyExists")) ≡ true)
      × (store_expose_map (sample there) web_map none ≡ (ok web_map, none))
      × (store_cleanup_map (sample there) web_map none
          ≡ (err (wrap (refusal (str "AlreadyExists")) (str "creating cleanup config map")), none)))
    ⊎ (((sample there).is_already_exists (refusal (str "AlreadyExists")) ≡ false)
        × (store_expose_map (sample there) web_map none
            ≡ (err (wrap (refusal (str "AlreadyExists")) (str "creating expose config map")), none))
        × (store_cleanup_map (sample there) web_map none ≡ (ok web_map, none)))
config_map_errors_example =
    config_map_errors (sample there) web_map (refusal (str "AlreadyExists")) none none refl

abbrev pub bare_deployment : Deployment
bare_deployment =
    deployment_of web_sso (str "web") (str "web")
      (pod_template web_sso (str "web") (str "web") (str "secret") bare_container)

updated_deployment_lem_example :
    ContainersUpdated
      (str "2")
      bare_deployment.spec.template.spec.containers
      (updated_deployment (str "2") bare_deployment).spec.template.spec.containers
    × (updated_deployment (str "3") (updated_deployment (str "2") bare_deployment)
        ≡ updated_deployment (str "3") bare_deployment)
updated_deployment_lem_example = updated_deployment_lem (str "2") (str "3") bare_deployment
