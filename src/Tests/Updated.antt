-- ===== src/Tests/Updated.antt =====
-- The update of a proxy where the cluster lists its deployment.
use sso_operator.Base.{◌≡◌, refl, none, some, [], ◌∷◌}
use sso_operator.Base.Text.{str}
use sso_operator.Base.Run.{ok}
use sso_operator.Objects.{no_meta}
use sso_operator.Platform.{Platform}
use sso_operator.Kube.Client.{get_client_config, get_clientset}
use sso_operator.Kube.Wait.{wait_for_pods_with_label_running}
use sso_operator.Kube.Wait.Polling.{PollsSoundly}
use sso_operator.Proxy.Upstream.{find_service, get_upstream_url}
use sso_operator.Proxy.Resources.{checked_config, proxy_config, compute_secret_version, owned_by}
use sso_operator.Proxy.Deploy.{Proxy, service_of, deployment_of}
use sso_operator.Proxy.Update.{update_proxy_secret, update_deployments, update}
use sso_operator.Proxy.Update.Versions.{Updated, update-Updated}
use sso_operator.Tests.Sample.{sample, answered, no_type}
use sso_operator.Tests.Laws.{sample_polls}
use sso_operator.Tests.Values.{plain, web_sso, web_client}
use sso_operator.Tests.Proxies.{bare_deployment}

abbrev listing : Platform
listing = record (sample plain) { list_deployments = λ k ns. answered (bare_deployment ∷ []) }

abbrev web_proxy : Proxy
web_proxy = record {
  app_name = str "web";
  secret = record {
    type_meta = no_type;
    meta = no_meta;
    content = [];
    string_data = some [];
    secret_type = [];
  };
  deployment = bare_deployment;
  service = service_of web_sso (str "web");
}

updated : update listing web_proxy web_sso (some web_client) (str "key") none ≡ (ok tt, none)
unfolding str get_client_config get_clientset wait_for_pods_with_label_running find_service
    get_upstream_url checked_config proxy_config compute_secret_version update_proxy_secret
    update_deployments update deployment_of owned_by
updated = refl

listing_polls : PollsSoundly listing
listing_polls = record {
  polls = (sample_polls plain).polls;
  polls_immediate = (sample_polls plain).polls_immediate;
}

update-Updated_example : Updated listing web_proxy web_sso (some web_client) (str "key") none none
unfolding str deployment_of owned_by
update-Updated_example =
    update-Updated listing listing_polls web_proxy web_sso (some web_client) (str "key") none none
      updated
