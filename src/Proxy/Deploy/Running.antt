-- ===== src/Proxy/Deploy/Running.antt =====
-- What `Deploy` has seen when it returns.
use sso_operator.Base.{true, ◌<◌, ◌≡◌, subst, Option, List, length, All}
use sso_operator.Base.Text.{Str}
use sso_operator.Base.Run.{reply, ok, wrap_err}
use sso_operator.Base.Run.Inversion.{pure-ok, bind-ok, wrap_err-ok}
use sso_operator.Objects.{Pod, OidcClient}
use sso_operator.Api.{Sso}
use sso_operator.Platform.{Platform}
use sso_operator.Kube.Client.{get_clientset}
use sso_operator.Kube.Wait.{wait_for_service, wait_for_pods_with_label_running}
use sso_operator.Kube.Wait.Polling.{PollsSoundly}
use sso_operator.Kube.Wait.Soundness.{IsRunning, wait_for_pods_with_label_running_sound}
use sso_operator.Proxy.Upstream.{get_app_name}
use sso_operator.Proxy.Deploy.{
  Proxy, create_or_keep, sso_selector, deploy_secret, deploy_deployment, service_of, await_proxy,
  deploy, create_interval_check, create_timeout, ready_timeout,
}

module _ (P : Platform) (sound : PollsSoundly P) where
  open P use {Cluster, Clientset, list_pods, sdk_create_service}

  -- The last request was a listing of the resource's pods, with one at least, all of them running
  -- and ready.
  abbrev pub PodsRun : Sso → Cluster → Type 0
  PodsRun sso c' =
      (k : Clientset) × (u : Cluster) × (pods : List Pod) × (list_pods k sso.meta.namespace
          (sso_selector P sso) u
        ≡ (reply pods, c'))
      × (0 < length pods)
      × All IsRunning pods

  await_proxy-PodsRun :
      (sso : Sso) (c c' : Cluster) → await_proxy P sso c ≡ (ok tt, c') → PodsRun sso c'
  unfolding await_proxy
  await_proxy-PodsRun sso c c' h =
      let (k, u, p, q) = bind-ok (wrap_err _ (get_clientset P)) _ c c' h in
      let (_, v, r, t) =
        bind-ok
          (wrap_err _ (
            wait_for_service P k sso.meta.namespace sso.meta.name true create_interval_check
              create_timeout))
          _ u c' q in
      let (x, pods, e, n, all) =
        wait_for_pods_with_label_running_sound P sound k sso.meta.namespace (sso_selector P sso)
          ready_timeout v c'
          (wrap_err-ok _
            (wait_for_pods_with_label_running P k sso.meta.namespace (sso_selector P sso)
              ready_timeout)
            v c' t) in
      (k, x, pods, e, n, all)

  -- Where polls try their condition until it holds, fails or they give up (`PollsSoundly`): when
  -- `Deploy` returns with no error, its last request was a listing of the pods with the resource's
  -- label, which had one pod at least, and every pod was Running with all its containers ready.
  pub deploy-PodsRun :
      (sso : Sso) (client : Option OidcClient) (key : Str) (c c' : Cluster) (proxy : Proxy)
      → deploy P sso client key c ≡ (ok proxy, c')
      → PodsRun sso c'
  unfolding deploy
  deploy-PodsRun sso client key c c' proxy h =
      let (app, u₁, _, h₁) =
        bind-ok (wrap_err _ (get_app_name P sso.spec.upstream_service sso.meta.namespace)) _ c c'
          h in
      let (secret, u₂, _, h₂) = bind-ok (deploy_secret P sso client key app) _ u₁ c' h₁ in
      let (d, u₃, _, h₃) = bind-ok (deploy_deployment P sso app secret) _ u₂ c' h₂ in
      let (s, u₄, _, h₄) =
        bind-ok (create_or_keep P sdk_create_service _ (service_of sso app)) _ u₃ c' h₃ in
      let (_, u₅, ran, h₅) = bind-ok (await_proxy P sso) _ u₄ c' h₄ in
      subst (PodsRun sso) (pure-ok _ u₅ c' h₅).1 (await_proxy-PodsRun sso u₄ u₅ ran)
