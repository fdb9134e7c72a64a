-- ===== src/Tests/Progress.antt =====
-- The small platform is healthy, and the handler provisions a resource on it.
use sso_operator.Base.{
  ◌≡◌, ◌≢◌, refl, arith, inl, inr, Bool-cases, Bool, true, false, Option, none, some, [],
}
use sso_operator.Base.Text.{str, same, same_iff}
use sso_operator.Base.Run.{Call, reply, ok, err, panic, Outcome}
use sso_operator.Base.Run.Succeeds.{Returned, Answers}
use sso_operator.Objects.{OidcClient, CreateClientResp, UpdateClientReq}
use sso_operator.Kube.Wait.{first_incomplete, all_running, all_ready}
use sso_operator.Kube.Resources.{initialized_of, hosts_of}
use sso_operator.Proxy.Upstream.{choose_app_name, label_values}
use sso_operator.Operator.Health.{Healthy, DexHealthy, ComesTrue, Anything}
use sso_operator.Operator.Handler.{World, sso_object, handle}
use sso_operator.Operator.Handler.NilClient.{requested}
use sso_operator.Operator.Handler.Creation.{AfterSuccess}
use sso_operator.Operator.Handler.Progress.{handle-AfterSuccess}
use sso_operator.Platform.{Platform}
use sso_operator.Tests.Sample.{
  sample, poll_once, web_service, ready_pod, update_stored, create_once,
}
use sso_operator.Operator.Handler.Asking.{CreatesClients}
use sso_operator.Operator.Handler.Returning.{handle_returns}
use sso_operator.Proxy.Returning.{ServicesHavePorts}
use sso_operator.Proxy.Returning.StringData.{KeepsStringData}
use sso_operator.Proxy.Returning.Exposing.{MarshalsPlainly}
use sso_operator.Kube.Wait.Polling.{PollsSoundly}
use sso_operator.Tests.Laws.{sample_clients, sample_dex, sample_polls}
use sso_operator.Tests.Values.{plain, web_sso, initialized_web, sample_handler, empty_world}

module _ {S A : Type 0} where
  -- An answer that is there in every state.
  answers :
      {Q : A → Type 0} {E : _ → Type 0} {Pre : S → Type 0} (a : A)
      → Q a
      → Answers Pre Anything (λ s. (reply a, s)) Q E
  answers a q = record { at = λ s h. (q, tt) }

one_try :
    {S : Type 0} → ComesTrue {S = S} Anything Anything (λ interval timeout m s. poll_once (m s))
one_try {S} interval timeout m any ready = record {
  at = λ s h. go (m s).0 (m s).1 (ready.at s (tt, tt));
}
  where
    go :
        (o : Outcome Bool) (t : S)
        → Returned (λ b. b ≡ true) Anything o t
        → Returned Anything Anything (poll_once (o, t)).0 (poll_once (o, t)).1
    go (ok true) t h = (tt, tt)
    go (ok false) t h = cc
    go (err e) t h = absurd h
    go panic t h = absurd h

plain_cluster : Healthy (sample plain) Anything Anything (str "sso-operator") web_sso
unfolding str first_incomplete all_running all_ready initialized_of hosts_of choose_app_name
    label_values
plain_cluster = record {
  config = answers tt tt;
  clientset = λ c. answers tt tt;
  rest_client = λ c. answers tt tt;
  discovery = λ c. answers tt tt;
  lists_ssos = λ k. answers _ refl;
  lists_bindings = λ k. answers _ (_, refl);
  binds = λ k b. answers b tt;
  finds_account = λ k ns name. record { at = λ s h. (tt, tt) };
  creates_account = λ k ns a. answers a tt;
  service = web_service;
  port = record { name = str "http"; protocol = str "TCP"; port = 80; target_port = 8080 };
  app_name = str "web";
  lists_services = λ k. answers _ refl;
  has_port = refl;
  names_app = λ c h. refl;
  ranges = λ m c h. tt;
  lists_ingresses = λ k. answers _ (str "web.example.com", [], refl);
  creates_secret = λ o n. answers o n;
  creates_deployment = λ o. answers o tt;
  creates_service = λ o. answers o tt;
  creates_config_map = λ o. answers o tt;
  creates_job = λ o. answers o tt;
  deletes_job = λ b o. answers tt tt;
  deletes_config_map = λ o. answers tt tt;
  marshals = λ x. (x.domain, refl);
  updates_secret = λ o. answers o tt;
  lists_deployments = λ k ns. answers [] tt;
  updates_deployment = λ o. answers o tt;
  updates_sso = λ o. answers o tt;
  polls = one_try;
  polls_immediate = one_try;
  gets_service = λ k ns name. answers web_service tt;
  serves = λ k ns name. answers web_service tt;
  lists_pods = λ k ns l. answers _ tt;
  runs_pods = λ k ns l. answers _ (ready_pod, [], refl, refl);
  gets_job = λ k ns name. answers _ refl;
  completes_job = λ k ns name. answers _ (λ e. cc, refl);
  secure = refl;
}

plain_dex : DexHealthy (sample plain) (sample_clients plain) (λ d. d ≡ none) web_sso
plain_dex = record { creates = created; finds = found }
  where
    created_client : OidcClient → OidcClient
    created_client c = record c { id = str "id-1"; secret = str "s3cret" }

    created :
        (d : Option OidcClient)
        → d ≡ none
        → (resp : CreateClientResp) × (c : OidcClient) × (d' : Option OidcClient) × (create_once
              (requested web_sso)
              d
            ≡ (reply resp, d'))
          × (resp.already_exists ≡ false)
          × (resp.client ≡ some c)
          × (c.redirect_uris ≢ [])
    created none e = (
      record { already_exists = false; client = some (created_client (requested web_sso)) },
      created_client (requested web_sso),
      some (created_client (requested web_sso)),
      refl,
      refl,
      refl,
      λ p. cc,
    )
    created (some c) e = cc

    found :
        (req : UpdateClientReq) (d : Option OidcClient)
        → sample_clients plain d req.id ≢ none
        → (d' : Option OidcClient) × (update_stored req d ≡ (reply false, d'))
    found req none k = absurd (k refl)
    found req (some c) k = elim (Bool-cases (same c.id req.id)) [
      | inl h ↦ ((update_stored req (some c)).1, rw h refl)
      | inr h ↦ absurd (k (ground (arith, same_iff c.id req.id, same_iff req.id c.id)))
    ]

handle-AfterSuccess_example :
    (w' : World (sample plain)) × (handle
        (sample plain)
        sample_handler
        (record { deleted = false; object = sso_object web_sso })
        (empty_world plain)
      ≡ (ok tt, w'))
    × AfterSuccess
        (sample plain)
        (λ text. refl)
        (sample_clients plain)
        (sample_dex plain)
        web_sso
        none
        w'
handle-AfterSuccess_example =
    handle-AfterSuccess (sample plain) (λ text. refl) (sample_clients plain) (sample_dex plain)
      Anything Anything sample_handler web_sso plain_cluster (λ d. d ≡ none) plain_dex false
      (empty_world plain) refl tt refl

-- A dex that makes a new client each time it is asked.
abbrev create_new : OidcClient → Call (Option OidcClient) CreateClientResp
create_new client d =
    let c : OidcClient = record client { id = str "id-2" } in
    (reply (record { already_exists = false; client = some c }), some c)

abbrev renewing : Platform
renewing = record (sample plain) { dex_create_client = create_new }

renewing_polls : PollsSoundly renewing
renewing_polls = record {
  polls = (sample_polls plain).polls;
  polls_immediate = (sample_polls plain).polls_immediate;
}

renewing_ports : ServicesHavePorts renewing
renewing_ports k ns name l service s t h e n = ground arith

renewing_secrets : KeepsStringData renewing
renewing_secrets o o' s t h n = ground (arith, h, n)

renewing_yaml : MarshalsPlainly renewing
renewing_yaml x e h inner outer = cc

renewing_clients : CreatesClients renewing
renewing_clients c d d' resp h = (ground arith, λ e. ground arith)

handle_returns_example :
    (handle renewing sample_handler
      (record { deleted = true; object = sso_object initialized_web })
      (record { cluster = none; dex = none })).0
    ≢ panic
handle_returns_example =
    handle_returns renewing renewing_polls renewing_ports renewing_secrets renewing_yaml
      renewing_clients sample_handler
      (record { deleted = true; object = sso_object initialized_web })
      (record { cluster = none; dex = none })
