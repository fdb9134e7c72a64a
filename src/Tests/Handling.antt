-- ===== src/Tests/Handling.antt =====
-- The handler on one resource, and the operator's start.
use sso_operator.Base.{◌≡◌, refl, Bool, true, false, none, some, [], ◌++◌}
use sso_operator.Base.Text.{str, quoted}
use sso_operator.Base.Run.{Error, Outcome, ok, err, panic, message}
use sso_operator.Api.{Sso}
use sso_operator.Kube.Client.{get_client_config, get_clientset, get_jenkins_client}
use sso_operator.Kube.Rbac.{
  create_service_account_in, with_subject, bind_account, with_binding, ensure_cluster_role_binding,
}
use sso_operator.Kube.Resources.{is_sso_initialized, find_ingress_hosts}
use sso_operator.Kube.Wait.{
  wait_for_service, wait_for_pods_with_label_running, wait_for_job_complete,
}
use sso_operator.Dex
use sso_operator.Dex.{create_client, client_of, update_client}
use sso_operator.Proxy.Names.{build_name, joined, trimmed, finish}
use sso_operator.Proxy.Upstream.{
  find_service, get_upstream_url, get_app_name, choose_app_name, label_values,
}
use sso_operator.Proxy.Resources.{
  fake_redirect_url, checked_config, proxy_config, proxy_container, compute_secret_version,
  proxy_secret, convert_hosts_to_redirect_urls,
}
use sso_operator.Proxy.Deploy.{
  create_or_keep, deploy_secret, deploy_deployment, service_of, await_proxy, deploy,
}
use sso_operator.Proxy.Update.{update_proxy_secret, update_deployments, update}
use sso_operator.Proxy.Expose.{
  expose_container, create_job, render_expose_config, expose_config_map, start_job,
  store_expose_map, expose, cleanup_container, build_cleanup_map, store_cleanup_map, cleanup,
}
use sso_operator.Operator.Handler.{
  World, Event, sso_object, delete_client, or_delete, expose_unless_skipped, require_hosts,
  provision, clean_up, unless_initialized, initialize, handle_sso, handle,
}
use sso_operator.Operator.Handler.Creation.{AfterError}
use sso_operator.Operator.Handler.NilClient.{unless_initialized-panics}
use sso_operator.Operator.Handler.Rollback.{Undone, provision-Undone}
use sso_operator.Operator.Handler.Events.{
  Settled, handle-settles, handle-restores, handle-deleted_uninitialized,
}
use sso_operator.Tests.Sample.{Answers, sample}
use sso_operator.Tests.Laws.{sample_clients, sample_dex}
use sso_operator.Tests.Values.{
  plain, no_host, settled, web_sso, initialized_web, sample_handler, web_client, empty_world,
  world_with_client,
}

abbrev event_of : Bool → Sso → Event
event_of deleted sso = record { deleted = deleted; object = sso_object sso }

abbrev handled :
    (answers : Answers)
    → Bool
    → Sso
    → World (sample answers)
    → Outcome (Unit {0}) × World (sample answers)
handled answers deleted sso w = handle (sample answers) sample_handler (event_of deleted sso) w

-- A new resource is provisioned.
abbrev provisioned : World (sample plain)
provisioned = (handled plain false web_sso (empty_world plain)).1

handled_new : handled plain false web_sso (empty_world plain) ≡ (ok tt, provisioned)
unfolding str get_client_config get_clientset get_jenkins_client create_service_account_in
    with_subject bind_account with_binding ensure_cluster_role_binding is_sso_initialized
    find_ingress_hosts wait_for_service wait_for_pods_with_label_running wait_for_job_complete
    create_client client_of update_client build_name joined trimmed finish find_service
    get_upstream_url get_app_name fake_redirect_url checked_config proxy_config proxy_container
    compute_secret_version proxy_secret convert_hosts_to_redirect_urls create_or_keep deploy_secret
    deploy_deployment service_of await_proxy deploy update_proxy_secret update_deployments update
    expose_container create_job render_expose_config expose_config_map start_job store_expose_map
    expose or_delete expose_unless_skipped require_hosts provision unless_initialized initialize
    handle_sso handle choose_app_name label_values
handled_new = refl

-- A resource whose ingress has no host: the client is deleted again.
abbrev no_host_error : Error
no_host_error = message (str "no ingress host found for application " ++ quoted (str "web"))

handled_hostless :
    handled no_host false web_sso (empty_world no_host) ≡ (err no_host_error, empty_world no_host)
unfolding str get_client_config get_clientset get_jenkins_client create_service_account_in
    with_subject bind_account with_binding ensure_cluster_role_binding is_sso_initialized
    find_ingress_hosts wait_for_service wait_for_pods_with_label_running wait_for_job_complete
    create_client client_of update_client build_name joined trimmed finish find_service
    get_upstream_url get_app_name fake_redirect_url checked_config proxy_config proxy_container
    compute_secret_version proxy_secret convert_hosts_to_redirect_urls create_or_keep deploy_secret
    deploy_deployment service_of await_proxy deploy update_proxy_secret update_deployments update
    expose_container create_job render_expose_config expose_config_map start_job store_expose_map
    expose or_delete expose_unless_skipped require_hosts provision delete_client Dex.delete_client
    unless_initialized initialize handle_sso handle choose_app_name label_values
handled_hostless = refl

-- A deleted resource that was initialized: its client is deleted.
handled_deleted :
    handled plain true initialized_web (world_with_client plain) ≡ (ok tt, empty_world plain)
unfolding str get_client_config get_clientset create_service_account_in with_subject bind_account
    with_binding ensure_cluster_role_binding wait_for_job_complete build_name joined trimmed finish
    cleanup_container create_job render_expose_config expose_config_map start_job build_cleanup_map
    store_cleanup_map cleanup Dex.delete_client clean_up handle_sso handle
handled_deleted = refl

handle-settles_example :
    Settled
      (sample plain)
      (λ text. refl)
      (sample_clients plain)
      (sample_dex plain)
      initialized_web
      (some web_client)
      true
      (empty_world plain)
handle-settles_example =
    handle-settles (sample plain) (λ text. refl) (sample_clients plain) (sample_dex plain)
      initialized_web (some web_client) sample_handler true (world_with_client plain)
      (empty_world plain) refl handled_deleted

handle-restores_example :
    AfterError
      (sample no_host)
      (λ text. refl)
      (sample_clients no_host)
      (sample_dex no_host)
      web_sso
      none
      none
handle-restores_example =
    handle-restores (sample no_host) (λ text. refl) (sample_clients no_host) (sample_dex no_host)
      web_sso none sample_handler false (empty_world no_host) (empty_world no_host) no_host_error
      refl handled_hostless

handle-deleted_uninitialized_example :
    handled plain true web_sso (empty_world plain) ≡ handled plain false web_sso (empty_world plain)
handle-deleted_uninitialized_example =
    handle-deleted_uninitialized (sample plain) sample_handler web_sso (empty_world plain) refl

account_bound :
    ensure_cluster_role_binding (sample settled) (str "sso-operator") (str "jx") none
    ≡ (ok (str "sso-operator-sa"), none)
unfolding str get_client_config get_clientset create_service_account_in with_subject bind_account
    with_binding ensure_cluster_role_binding
account_bound = refl

found_initialized : is_sso_initialized (sample settled) web_sso none ≡ (ok true, none)
unfolding str get_client_config get_jenkins_client is_sso_initialized
found_initialized = refl

unless_initialized-panics_example :
    (unless_initialized (sample plain) sample_handler web_sso [] false (world_with_client plain)).0
    ≡ panic
unless_initialized-panics_example =
    unless_initialized-panics (sample plain) (λ text. refl) sample_handler web_sso []
      (world_with_client plain) (some web_client)
      (record { already_exists = true; client = some web_client }) refl refl

-- From the client on.
abbrev published : World (sample plain)
published =
    (provision (sample plain) sample_handler web_sso [] (some web_client)
      (world_with_client plain)).1

published_all :
    provision (sample plain) sample_handler web_sso [] (some web_client) (world_with_client plain)
    ≡ (ok tt, published)
unfolding str get_client_config get_clientset get_jenkins_client create_service_account_in
    with_subject bind_account with_binding ensure_cluster_role_binding is_sso_initialized
    find_ingress_hosts wait_for_service wait_for_pods_with_label_running wait_for_job_complete
    create_client client_of update_client build_name joined trimmed finish find_service
    get_upstream_url get_app_name fake_redirect_url checked_config proxy_config proxy_container
    compute_secret_version proxy_secret convert_hosts_to_redirect_urls create_or_keep deploy_secret
    deploy_deployment service_of await_proxy deploy update_proxy_secret update_deployments update
    expose_container create_job render_expose_config expose_config_map start_job store_expose_map
    expose or_delete expose_unless_skipped require_hosts provision unless_initialized initialize
    handle_sso handle choose_app_name label_values
published_all = refl

published_hostless :
    provision
      (sample no_host)
      sample_handler
      web_sso
      []
      (some web_client)
      (world_with_client no_host)
    ≡ (err no_host_error, empty_world no_host)
unfolding str get_client_config get_clientset get_jenkins_client create_service_account_in
    with_subject bind_account with_binding ensure_cluster_role_binding is_sso_initialized
    find_ingress_hosts wait_for_service wait_for_pods_with_label_running wait_for_job_complete
    create_client client_of update_client build_name joined trimmed finish find_service
    get_upstream_url get_app_name fake_redirect_url checked_config proxy_config proxy_container
    compute_secret_version proxy_secret convert_hosts_to_redirect_urls create_or_keep deploy_secret
    deploy_deployment service_of await_proxy deploy update_proxy_secret update_deployments update
    expose_container create_job render_expose_config expose_config_map start_job store_expose_map
    expose or_delete expose_unless_skipped require_hosts provision delete_client Dex.delete_client
    unless_initialized initialize handle_sso handle choose_app_name label_values
published_hostless = refl

provision-Undone_example :
    Undone (sample no_host) (sample_clients no_host) (str "id-1") (some web_client) none
provision-Undone_example =
    provision-Undone (sample no_host) (sample_clients no_host) (sample_dex no_host) web_client
      (some web_client) sample_handler web_sso [] (world_with_client no_host) (empty_world no_host)
      no_host_error refl published_hostless
