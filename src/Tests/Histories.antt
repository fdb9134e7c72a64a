-- ===== src/Tests/Histories.antt =====
-- The handler over several events.
use sso_operator.Base.{◌≡◌, refl, Bool, true, false, some, [], ◌∷◌}
use sso_operator.Base.Text.{str}
use sso_operator.Api.{Sso}
use sso_operator.Kube.Client.{get_client_config, get_clientset, get_jenkins_client}
use sso_operator.Kube.Rbac.{
  create_service_account_in, with_subject, bind_account, with_binding, ensure_cluster_role_binding,
}
use sso_operator.Kube.Resources.{is_sso_initialized, find_ingress_hosts}
use sso_operator.Kube.Wait.{
  wait_for_service, wait_for_pods_with_label_running, wait_for_job_complete,
}
use sso_operator.Dex
use sso_operator.Dex.{create_client, client_of, update_client}
use sso_operator.Proxy.Names.{build_name, joined, trimmed, finish}
use sso_operator.Proxy.Upstream.{
  find_service, get_upstream_url, get_app_name, choose_app_name, label_values,
}
use sso_operator.Proxy.Resources.{
  fake_redirect_url, checked_config, proxy_config, proxy_container, compute_secret_version,
  proxy_secret, convert_hosts_to_redirect_urls,
}
use sso_operator.Proxy.Deploy.{
  create_or_keep, deploy_secret, deploy_deployment, service_of, await_proxy, deploy,
}
use sso_operator.Proxy.Update.{update_proxy_secret, update_deployments, update}
use sso_operator.Proxy.Expose.{
  expose_container, create_job, render_expose_config, expose_config_map, start_job,
  store_expose_map, expose, cleanup_container, build_cleanup_map, store_cleanup_map, cleanup,
}
use sso_operator.Operator.Handler.{
  World, Event, sso_object, or_delete, expose_unless_skipped, require_hosts, provision, clean_up,
  unless_initialized, initialize, handle_sso, handle,
}
use sso_operator.Operator.Handler.History.{
  handles, changes, History, start, next, HistorySpares, History-Stays,
}
use sso_operator.Operator.Registry.{cleans, serves, returned, Trace}
use sso_operator.Operator.Handler.Refinement.{labels, History-Trace}
use sso_operator.Tests.Sample.{sample}
use sso_operator.Tests.Laws.{sample_clients, sample_dex}
use sso_operator.Tests.Values.{
  plain, web_sso, initialized_web, sample_handler, web_client, empty_world, world_with_client,
}

abbrev event_of : Bool → Sso → Event
event_of deleted sso = record { deleted = deleted; object = sso_object sso }

-- Another resource, with a client that dex does not have.
abbrev other_web : Sso
other_web = record web_sso { status = record { client_id = str "id-2"; initialized = true } }

abbrev after : Event → World (sample plain) → World (sample plain)
after event w = (handle (sample plain) sample_handler event w).1

-- Dex has a client. A new resource is refused one, which ends in a panic; the cluster changes; the
-- other resource is deleted, which ends in an error.
abbrev asked_new : World (sample plain)
asked_new = after (event_of false web_sso) (world_with_client plain)

abbrev changed : World (sample plain)
changed = record asked_new { cluster = some [] }

abbrev asked_other : World (sample plain)
asked_other = after (event_of true other_web) changed

abbrev refused : History (sample plain) (world_with_client plain) asked_other
refused =
    next (next (next start (handles sample_handler (event_of false web_sso) refl)) (changes refl))
      (handles sample_handler (event_of true other_web) refl)

refused_spares : HistorySpares (sample plain) (str "id-1") refused
unfolding str
refused_spares = (((tt, λ e. refl), tt), λ e. refl)

History-Stays_example : sample_clients plain asked_other.dex (str "id-1") ≡ some web_client
unfolding str
History-Stays_example =
    History-Stays (sample plain) (λ text. refl) (sample_clients plain) (sample_dex plain)
      (str "id-1") web_client refused refused_spares refl

-- A resource is provisioned and then deleted.
abbrev gone : World (sample plain)
gone = after (event_of true initialized_web) (after (event_of false web_sso) (empty_world plain))

abbrev lifetime : History (sample plain) (empty_world plain) gone
lifetime =
    next (next start (handles sample_handler (event_of false web_sso) refl))
      (handles sample_handler (event_of true initialized_web) refl)

lifetime_labels :
    labels (sample plain) lifetime ≡ (cleans (str "id-1"), returned) ∷ (serves, returned) ∷ []
unfolding str get_client_config get_clientset get_jenkins_client create_service_account_in
    with_subject bind_account with_binding ensure_cluster_role_binding is_sso_initialized
    find_ingress_hosts wait_for_service wait_for_pods_with_label_running wait_for_job_complete
    create_client client_of update_client build_name joined trimmed finish find_service
    get_upstream_url get_app_name fake_redirect_url checked_config proxy_config proxy_container
    compute_secret_version proxy_secret convert_hosts_to_redirect_urls create_or_keep deploy_secret
    deploy_deployment service_of await_proxy deploy update_proxy_secret update_deployments update
    expose_container create_job render_expose_config expose_config_map start_job store_expose_map
    expose or_delete expose_unless_skipped require_hosts provision unless_initialized initialize
    handle_sso handle choose_app_name label_values cleanup_container build_cleanup_map
    store_cleanup_map cleanup Dex.delete_client clean_up
lifetime_labels = refl

History-Trace_example :
    Trace
      (sample_clients plain (empty_world plain).dex)
      (labels (sample plain) lifetime)
      (sample_clients plain gone.dex)
History-Trace_example =
    History-Trace (sample plain) (λ text. refl) (sample_clients plain) (sample_dex plain) lifetime
