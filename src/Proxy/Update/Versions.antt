-- ===== src/Proxy/Update/Versions.antt =====
-- The requests of `Update`, and the secret version that it writes to the deployments.
use sso_operator.Base.{
  ◌<◌, ◌≡◌, sym, subst, arith, true, false, inl, inr, Bool-cases, Option, some, List, [], ◌∷◌,
  length, All,
}
use sso_operator.Base.Text.{Str, str, same}
use sso_operator.Base.Dict.{put}
use sso_operator.Base.Run.{reply, ok, call, deref, wrap_err}
use sso_operator.Base.Run.Inversion.{pure-ok, bind-ok, deref-ok, wrap_err-ok, wrap_err-call-ok}
use sso_operator.Objects.{StrMap, Secret, Deployment, Pod, OidcClient}
use sso_operator.Api.{Sso}
use sso_operator.Platform.{Platform}
use sso_operator.Kube.Client.{get_clientset}
use sso_operator.Kube.Wait.{wait_for_pods_with_label_running}
use sso_operator.Kube.Wait.Polling.{PollsSoundly}
use sso_operator.Kube.Wait.Soundness.{IsRunning, wait_for_pods_with_label_running_sound}
use sso_operator.Proxy.Resources.{
  proxy_config, compute_secret_version, config_file, glue, entries_of,
}
use sso_operator.Proxy.Deploy.{Proxy, sso_selector, ready_timeout}
use sso_operator.Proxy.Update.{updated_deployment, update_proxy_secret, update_deployments, update}

module _ (P : Platform) where
  open P use {Cluster, Clientset, sdk_update_secret, sdk_update_deployment, list_deployments}

  -- The requests of a walk over some deployments, from one state to another: each deployment of the
  -- name is sent with the version in its containers, in order, and is answered; no other is.
  pub data Sends (name version : Str) : List Deployment → Cluster → Cluster → Type 0 where
    done : {s : Cluster} → Sends name version [] s s
    sends :
        {d : Deployment} {deployments : List Deployment} {s t u : Cluster} (answer : Deployment)
        → same d.meta.name name ≡ true
        → sdk_update_deployment (updated_deployment version d) s ≡ (reply answer, t)
        → Sends name version deployments t u
        → Sends name version (d ∷ deployments) s u
    passes :
        {d : Deployment} {deployments : List Deployment} {s u : Cluster}
        → same d.meta.name name ≡ false
        → Sends name version deployments s u
        → Sends name version (d ∷ deployments) s u

  -- A run of `Update` from `c` to `c'`, request by request.
  pub record Updated (proxy : Proxy) (sso : Sso) (client : Option OidcClient) (key : Str)
      (c c' : Cluster) : Type 0 where
    -- The text of the configuration, with which the secret is sent.
    pub config : Str
    pub c₁ : Cluster
    pub configured : proxy_config P sso client key c ≡ (ok config, c₁)
    pub entries : StrMap
    pub has_entries : proxy.secret.string_data ≡ some entries
    pub stored : Secret
    pub c₂ : Cluster
    pub secret_sent :
        sdk_update_secret
          (record proxy.secret { string_data = some (put config_file config entries) })
          c₁
        ≡ (reply stored, c₂)
    -- The deployments of the namespace.
    pub k8s : Clientset
    pub c₃ : Cluster
    pub connected : get_clientset P c₂ ≡ (ok k8s, c₃)
    pub deployments : List Deployment
    pub c₄ : Cluster
    pub listed : list_deployments k8s sso.meta.namespace c₃ ≡ (reply deployments, c₄)
    -- The version is that of the secret that the server answered with, in the order of its entries at
    -- this time; the deployments of the proxy's name are sent with it.
    pub c₅ : Cluster
    pub deployments_sent :
        Sends proxy.deployment.meta.name
          (P.base64_url (P.sha256 (glue (P.range_map (entries_of stored.string_data) c₄).0)))
          deployments
          (P.range_map (entries_of stored.string_data) c₄).1
          c₅
    -- The last request listed the resource's pods, one at least, and all of them ran.
    pub u : Cluster
    pub pods : List Pod
    pub pods_listed : P.list_pods k8s sso.meta.namespace (sso_selector P sso) u ≡ (reply pods, c')
    pub some_pod : 0 < length pods
    pub all_run : All IsRunning pods

  update_proxy_secret-ok :
      (old : Secret) (sso : Sso) (client : Option OidcClient) (key : Str) (s s' : Cluster)
      (stored : Secret)
      → update_proxy_secret P old sso client key s ≡ (ok stored, s')
      → (config : Str) × (t : Cluster) × (proxy_config P sso client key s ≡ (ok config, t))
        × (entries : StrMap) × (old.string_data ≡ some entries)
        × (sdk_update_secret (record old { string_data = some (put config_file config entries) }) t
            ≡ (reply stored, s'))
  unfolding update_proxy_secret
  update_proxy_secret-ok old sso client key s s' stored h =
      let (config, t, p, q) =
        bind-ok (wrap_err (str "creating oauth2_proxy config") (proxy_config P sso client key)) _ s
          s' h in
      let (entries, u, r, v) = bind-ok (deref old.string_data) _ t s' q in
      let (there, stays) = deref-ok old.string_data t u r in
      (
        config,
        t,
        wrap_err-ok (str "creating oauth2_proxy config") (proxy_config P sso client key) s t p,
        entries,
        there,
        wrap_err-call-ok (str "updating oauth2_proxy secret")
            (sdk_update_secret (record old { string_data = some (put config_file config entries) }))
            t s'
            (subst
              (λ z.
                wrap_err (str "updating oauth2_proxy secret")
                  (call (
                    sdk_update_secret
                      (record old { string_data = some (put config_file config entries) })))
                  z
                ≡ (ok stored, s'))
              (sym stays) v),
      )

  -- A deployment of the name is sent, and then the rest is.
  sent-ok :
      (name version : Str) (x : Deployment) (deployments : List Deployment) (s s' : Cluster)
      → same x.meta.name name ≡ true
      → update_deployments P name version (x ∷ deployments) s ≡ (ok tt, s')
      → (t : Cluster) × (x' : Deployment) × (sdk_update_deployment (updated_deployment version x) s
          ≡ (reply x', t))
        × (update_deployments P name version deployments t ≡ (ok tt, s'))
  unfolding update_deployments
  sent-ok name version x deployments s s' e h =
      let sending = sdk_update_deployment (updated_deployment version x) in
      let (x', t, p, q) =
        bind-ok (wrap_err (str "updating oauth2_proxy deployment") (call sending)) _ s s'
          (rw e at h) in
      (t, x', wrap_err-call-ok (str "updating oauth2_proxy deployment") sending s t p, q)

  passed-ok :
      (name version : Str) (x : Deployment) (deployments : List Deployment) (s s' : Cluster)
      → same x.meta.name name ≡ false
      → update_deployments P name version (x ∷ deployments) s ≡ (ok tt, s')
      → update_deployments P name version deployments s ≡ (ok tt, s')
  unfolding update_deployments
  passed-ok name version x deployments s s' e h = rw e at h

  none-ok :
      (name version : Str) (s s' : Cluster)
      → update_deployments P name version [] s ≡ (ok tt, s')
      → s ≡ s'
  unfolding update_deployments
  none-ok name version s s' h = (pure-ok tt s s' h).1

  update_deployments-Sends :
      (name version : Str) (deployments : List Deployment) (s s' : Cluster)
      → update_deployments P name version deployments s ≡ (ok tt, s')
      → Sends name version deployments s s'
  update_deployments-Sends name version [] s s' h =
      subst (Sends name version [] s) (none-ok name version s s' h) done
  update_deployments-Sends name version (x ∷ deployments) s s' h =
      elim (Bool-cases (same x.meta.name name)) [
        | inl p ↦
            let (t, answer, q, k) = sent-ok name version x deployments s s' p h in
            sends answer p q (update_deployments-Sends name version deployments t s' k)
        | inr p ↦ passes p (
            update_deployments-Sends name version deployments s s'
              (passed-ok name version x deployments s s' p h))
      ]

  compute_secret_version-ok :
      (secret : Secret) (s s' : Cluster) (version : Str)
      → compute_secret_version P secret s ≡ (ok version, s')
      → (P.base64_url (P.sha256 (glue (P.range_map (entries_of secret.string_data) s).0)) ≡ version)
        × ((P.range_map (entries_of secret.string_data) s).1 ≡ s')
  unfolding compute_secret_version
  compute_secret_version-ok secret s s' version h = (ground arith, ground arith)

  -- Where polls try their condition until it holds, fails or they give up (`PollsSoundly`): when
  -- `Update` returns with no error, `proxyConfig` gave a text; the secret was sent with that text and
  -- answered; a client was made; the deployments of the namespace were listed; those with the name
  -- of the proxy's deployment, and no others, were sent and answered, one after the other, with the
  -- version of the answered secret; and the last request listed the resource's pods, with one at
  -- least, every one Running with all its containers ready.
  pub update-Updated :
      (sound : PollsSoundly P) (proxy : Proxy) (sso : Sso) (client : Option OidcClient) (key : Str)
      (c c' : Cluster)
      → update P proxy sso client key c ≡ (ok tt, c')
      → Updated proxy sso client key c c'
  unfolding update
  update-Updated sound proxy sso client key s s' h =
      let (stored, s₁, p₁, h₁) =
        bind-ok
          (wrap_err (str "updating oauth2_proxy secret")
            (update_proxy_secret P proxy.secret sso client key))
          _ s s' h in
      let (k, s₂, p₂, h₂) =
        bind-ok (wrap_err (str "getting k8s client") (get_clientset P)) _ s₁ s' h₁ in
      let (deployments, s₃, p₃, h₃) =
        bind-ok
          (wrap_err (str "listing deployments") (call (list_deployments k sso.meta.namespace))) _ s₂
          s' h₂ in
      let (version, s₄, p₄, h₄) = bind-ok (compute_secret_version P stored) _ s₃ s' h₃ in
      let (_, s₅, p₅, h₅) =
        bind-ok (update_deployments P proxy.deployment.meta.name version deployments) _ s₄ s' h₄ in
      let (config, t, configured, entries, has_entries, secret_sent) =
        update_proxy_secret-ok proxy.secret sso client key s s₁ stored (
          wrap_err-ok (str "updating oauth2_proxy secret")
            (update_proxy_secret P proxy.secret sso client key) s s₁ p₁) in
      let (is_version, ranged) = compute_secret_version-ok stored s₃ s₄ version p₄ in
      let (u, pods, e, n, all) =
        wait_for_pods_with_label_running_sound P sound k sso.meta.namespace (sso_selector P sso)
          ready_timeout s₅ s'
          (wrap_err-ok _
            (wait_for_pods_with_label_running P k sso.meta.namespace (sso_selector P sso)
              ready_timeout)
            s₅ s' h₅) in
      record {
        config = config;
        c₁ = t;
        configured = configured;
        entries = entries;
        has_entries = has_entries;
        stored = stored;
        c₂ = s₁;
        secret_sent = secret_sent;
        k8s = k;
        c₃ = s₂;
        connected = wrap_err-ok (str "getting k8s client") (get_clientset P) s₁ s₂ p₂;
        deployments = deployments;
        c₄ = s₃;
        listed =
            wrap_err-call-ok (str "listing deployments") (list_deployments k sso.meta.namespace) s₂
              s₃ p₃;
        c₅ = s₅;
        deployments_sent =
            subst
              (λ z.
                Sends proxy.deployment.meta.name z deployments
                  (P.range_map (entries_of stored.string_data) s₃).1 s₅)
              (sym is_version)
              (subst (λ z. Sends proxy.deployment.meta.name version deployments z s₅) (sym ranged)
                (update_deployments-Sends proxy.deployment.meta.name version deployments s₄ s₅ p₅));
        u = u;
        pods = pods;
        pods_listed = e;
        some_pod = n;
        all_run = all;
      }
