-- ===== src/Tests/Redelivered.antt =====
-- A resource whose event is delivered twice, on a cluster that keeps what is stored.
use sso_operator.Base.{◌≡◌, refl, true, false, Option, none, some, List, [], ◌∷◌, map, arith, subst}
use sso_operator.Base.Text.{Str, str, same_refl}
use sso_operator.Base.Dict.{put}
use sso_operator.Base.Run.{ok, Call, Reply, reply}
use sso_operator.Objects.{StrMap}
use sso_operator.Api.{Sso, SsoList}
use sso_operator.Client.Fake.{zero_sso_list}
use sso_operator.Tests.Rests.{rest_listing}
use sso_operator.Platform.{Platform}
use sso_operator.Dex.View.{DexLaws}
use sso_operator.Kube.Client.{get_client_config, get_clientset, get_jenkins_client}
use sso_operator.Kube.Rbac.{
  create_service_account_in, with_subject, bind_account, with_binding, ensure_cluster_role_binding,
}
use sso_operator.Kube.Resources.{is_sso_initialized, find_ingress_hosts, initialized_of}
use sso_operator.Kube.Wait.{
  wait_for_service, wait_for_pods_with_label_running, wait_for_job_complete,
}
use sso_operator.Dex.{create_client, client_of, update_client}
use sso_operator.Proxy.Names.{build_name, joined, trimmed, finish}
use sso_operator.Proxy.Upstream.{
  find_service, get_upstream_url, get_app_name, choose_app_name, label_values,
}
use sso_operator.Proxy.Resources.{
  fake_redirect_url, checked_config, proxy_config, proxy_container, compute_secret_version,
  proxy_secret, convert_hosts_to_redirect_urls,
}
use sso_operator.Proxy.Deploy.{
  create_or_keep, deploy_secret, deploy_deployment, service_of, await_proxy, deploy,
}
use sso_operator.Proxy.Update.{update_proxy_secret, update_deployments, update}
use sso_operator.Proxy.Expose.{
  expose_container, create_job, render_expose_config, expose_config_map, start_job,
  store_expose_map, expose,
}
use sso_operator.Operator.Handler.{
  World, Event, sso_object, or_delete, expose_unless_skipped, require_hosts, provision,
  unless_initialized, initialize, handle_sso, handle,
}
use sso_operator.Operator.Handler.Redelivery.{KeepsStored, handle-redelivered}
use sso_operator.Tests.Sample.{sample}
use sso_operator.Tests.Laws.{sample_clients, sample_dex}
use sso_operator.Tests.Values.{plain, web_sso, sample_handler, web_client}

-- The resource of an entry of the cluster: a name with the id of a client.
abbrev entry_sso : Str × Str → Sso
entry_sso (name, id) = record web_sso {
  meta = record web_sso.meta { name = name };
  status = record { client_id = id; initialized = true };
}

abbrev ssos_in : Option StrMap → List Sso
ssos_in none = []
ssos_in (some m) = map entry_sso m

abbrev entries_of : Option StrMap → StrMap
entries_of none = []
entries_of (some m) = m

abbrev store : Sso → Call (Option StrMap) Sso
store x s = (reply x, some (put x.meta.name x.status.client_id (entries_of s)))

abbrev storing : Platform
storing = record (sample plain) { rest = rest_listing ssos_in; sdk_update_sso = store }

abbrev KeptIn : Sso → Option StrMap → Type 0
KeptIn x s = initialized_of x.meta.name (ssos_in s) ≡ true

initialized_of-put :
    (name id : Str) (m : StrMap) → initialized_of name (map entry_sso (put name id m)) ≡ true
unfolding initialized_of put
initialized_of-put name id [] = ground (arith, same_refl name)
initialized_of-put name id ((j, v) ∷ m) =
    ground (arith, same_refl name, initialized_of-put name id m)

keeps_stored : KeepsStored storing KeptIn
keeps_stored = record {
  stored = λ x y s s' initialized e. kept x y s s' e;
  served = λ x k l s s' h e. shown x l s s' h e;
  by_config = λ x s h. h;
  by_clientset = λ x c s h. h;
  by_rest = λ x c s h. h;
  by_discovery = λ x c s h. h;
  by_bindings = λ x k s h. h;
  by_binding = λ x k b s h. h;
  by_account = λ x k ns name s h. h;
  by_new_account = λ x k ns a s h. h;
}
  where
    kept : (x y : Sso) (s s' : Option StrMap) → store x s ≡ (reply y, s') → KeptIn x s'
    kept x y s s' e =
        subst (λ p. KeptIn x p.1) e
          (initialized_of-put x.meta.name x.status.client_id (entries_of s))

    shown :
        (x : Sso) (l : SsoList) (s s' : Option StrMap)
        → KeptIn x s
        → ◌≡◌ {A = Reply SsoList × Option StrMap}
            (reply (record zero_sso_list { items = ssos_in s }), s)
            (reply l, s')
        → initialized_of x.meta.name l.items ≡ true
    shown x l s s' h e = cc

storing_dex : DexLaws storing (sample_clients plain)
storing_dex = record {
  creates = (sample_dex plain).creates;
  creates_keep = (sample_dex plain).creates_keep;
  delete_elsewhere = (sample_dex plain).delete_elsewhere;
  deletes = (sample_dex plain).deletes;
  updates = (sample_dex plain).updates;
  update_elsewhere = (sample_dex plain).update_elsewhere;
}

abbrev web_event : Event
web_event = record { deleted = false; object = sso_object web_sso }

abbrev nothing : World storing
nothing = record { cluster = none; dex = none }

-- Behind the first delivery.
abbrev registered : World storing
registered = record {
  cluster = some ((str "web-sso", str "id-1") ∷ []);
  dex = some (record web_client {
    redirect_uris = convert_hosts_to_redirect_urls (str "web.example.com" ∷ []);
  });
}

first_delivery : handle storing sample_handler web_event nothing ≡ (ok tt, registered)
unfolding str get_client_config get_clientset get_jenkins_client create_service_account_in
    with_subject bind_account with_binding ensure_cluster_role_binding is_sso_initialized
    find_ingress_hosts wait_for_service wait_for_pods_with_label_running wait_for_job_complete
    create_client client_of update_client build_name joined trimmed finish find_service
    get_upstream_url get_app_name fake_redirect_url checked_config proxy_config proxy_container
    compute_secret_version proxy_secret convert_hosts_to_redirect_urls create_or_keep deploy_secret
    deploy_deployment service_of await_proxy deploy update_proxy_secret update_deployments update
    expose_container create_job render_expose_config expose_config_map start_job store_expose_map
    expose or_delete expose_unless_skipped require_hosts provision unless_initialized initialize
    handle_sso handle choose_app_name label_values put initialized_of
first_delivery = refl

again_bound :
    ensure_cluster_role_binding storing (str "sso-operator") (str "jx") registered.cluster
    ≡ (ok (str "sso-operator-sa"), registered.cluster)
unfolding str get_client_config get_clientset create_service_account_in with_subject bind_account
    with_binding ensure_cluster_role_binding
again_bound = refl

again_found : is_sso_initialized storing web_sso registered.cluster ≡ (ok true, registered.cluster)
unfolding str get_client_config get_jenkins_client is_sso_initialized initialized_of
again_found = refl

handle-redelivered_example :
    handle storing sample_handler web_event registered ≡ (ok tt, registered)
handle-redelivered_example =
    handle-redelivered storing (λ text. refl) (sample_clients plain) storing_dex KeptIn keeps_stored
      sample_handler sample_handler false web_sso nothing registered registered.cluster
      registered.cluster (str "sso-operator-sa") true refl first_delivery (λ e. cc) again_bound
      again_found
