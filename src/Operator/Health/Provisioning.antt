-- ===== src/Operator/Health/Provisioning.antt =====
-- The provisioning of a resource where the cluster and dex are healthy.
use sso_operator.Base.{
  ◌≡◌, ◌≢◌, refl, false, Option, none, some, List, [], ◌∷◌, arith, if◌then◌else◌,
}
use sso_operator.Base.Text.{Str, same, same_iff}
use sso_operator.Base.Run.{Outcome, ok, err, panic, Run}
use sso_operator.Base.Run.Succeeds.{
  Returned, Answers, Succeeds, Succeeds-bind, Succeeds-pure, Succeeds-catch, Succeeds-wrap_err,
  Succeeds-call, Succeeds-if,
}
use sso_operator.Objects.{OidcClient, UpdateClientReq}
use sso_operator.Api.{Sso}
use sso_operator.Platform.{Platform}
use sso_operator.Dex
use sso_operator.Dex.{client_of}
use sso_operator.Dex.View.{View, DexLaws}
use sso_operator.Proxy.Resources.{convert_hosts_to_redirect_urls}
use sso_operator.Proxy.Deploy.{Proxy}
use sso_operator.Operator.Config.{Handler}
use sso_operator.Operator.Health.{Healthy, DexHealthy, NoError, Anything}
use sso_operator.Operator.Health.Cluster.{find_ingress_hosts-Succeeds}
use sso_operator.Operator.Health.Proxies.{deploy-Succeeds, update-Succeeds}
use sso_operator.Operator.Health.Exposing.{expose-Succeeds}
use sso_operator.Operator.Handler.{
  World, in_cluster, in_dex, or_delete, expose_unless_skipped, require_hosts, provision,
  unless_initialized,
}
use sso_operator.Operator.Handler.NilClient.{requested}

convert_hosts-nonempty : (hosts : List Str) → hosts ≢ [] → convert_hosts_to_redirect_urls hosts ≢ []
unfolding convert_hosts_to_redirect_urls
convert_hosts-nonempty [] n e = n refl
convert_hosts-nonempty (host ∷ hosts) n e = cc

module _ (P : Platform) where
  -- The states of the cluster with those of dex.
  abbrev pub Both : (P.Cluster → Type 0) → (P.Dex → Type 0) → World P → Type 0
  Both I D w = I w.cluster × D w.dex

  module _ {A : Type 0} {Q : A → Type 0} where
    in_cluster-Succeeds :
        {I J : P.Cluster → Type 0} (D : P.Dex → Type 0) (m : Run P.Cluster A)
        → Succeeds I J m Q
        → Succeeds (Both I D) (Both J D) (in_cluster P m) Q
    in_cluster-Succeeds {I} {J} D m sm = record {
      at = λ w h. go w h.1 (m w.cluster).0 (m w.cluster).1 (sm.at w.cluster h.0);
    }
      where
        go :
            (w : World P)
            → D w.dex
            → (o : Outcome A) (c : P.Cluster) → Returned Q J o c
            → Returned Q (Both J D) o (record w { cluster = c })
        go w d (ok a) c h = (h.0, (h.1, d))
        go w d (err e) c h = absurd h
        go w d panic c h = absurd h

    in_dex-Succeeds :
        (I : P.Cluster → Type 0) {D E : P.Dex → Type 0} (m : Run (P.Dex) A)
        → Succeeds D E m Q
        → Succeeds (Both I D) (Both I E) (in_dex P m) Q
    in_dex-Succeeds I {D} {E} m sm = record {
      at = λ w h. go w h.0 (m w.dex).0 (m w.dex).1 (sm.at w.dex h.1);
    }
      where
        go :
            (w : World P)
            → I w.cluster
            → (o : Outcome A) (d : P.Dex) → Returned Q E o d
            → Returned Q (Both I E) o (record w { dex = d })
        go w i (ok a) d h = (h.0, (i, h.1))
        go w i (err e) d h = absurd h
        go w i panic d h = absurd h

    or_delete-Succeeds :
        {I J : World P → Type 0} (client : Option OidcClient) (text : Str) (m : Run (World P) A)
        → Succeeds I J m Q
        → Succeeds I J (or_delete P client text m) Q
    unfolding or_delete
    or_delete-Succeeds client text m sm = Succeeds-catch m _ sm

module _ (P : Platform) (I Ready : P.Cluster → Type 0) (h : Handler) (sso : Sso)
    (good : Healthy P I Ready h.cluster_role_name sso) (clients : View P) (New : P.Dex → Type 0)
    (dex : DexHealthy P clients New sso) where
  abbrev role : Str
  role = h.cluster_role_name

  -- Dex has the client of the id.
  abbrev Known : Str → P.Dex → Type 0
  Known id d = clients d id ≢ none

  finds-Answers :
      (req : UpdateClientReq)
      → Answers (Known req.id) Anything (P.dex_update_client req) (λ b. b ≡ false) NoError
  finds-Answers req = record { at = λ d k. let (d', e) = dex.finds req d k in rw e (refl, tt) }

  update_client-Succeeds :
      (id : Str) (urls : List Str)
      → Succeeds
          (Known id)
          Anything
          (Dex.update_client P id urls [] false sso.meta.name [])
          Anything
  unfolding Dex.update_client
  update_client-Succeeds id urls =
      Succeeds-bind _ _ (Succeeds-wrap_err _ _ (Succeeds-call _ (finds-Answers _)))
        (λ b e. rw e (Succeeds-pure tt tt))

  module _ (client : OidcClient) (account : Str) where
    exposed-Succeeds :
        (D : P.Dex → Type 0) (proxy : Proxy)
        → Succeeds
            (Both P I D)
            (Both P I D)
            (expose_unless_skipped P sso (some client) proxy account)
            Anything
    unfolding expose_unless_skipped
    exposed-Succeeds D proxy = Succeeds-if sso.spec.skip_expose_service _ _ (Succeeds-pure tt tt) (
        or_delete-Succeeds P _ _ _
          (in_cluster-Succeeds P _ _ (expose-Succeeds P I Ready role sso good _ account)))

    require_hosts-Succeeds :
        (D : P.Dex → Type 0) (app_name : Str) (found : List Str)
        → found ≢ []
        → Succeeds
            (Both P I D)
            (Both P I D)
            (require_hosts P (some client) app_name found)
            (λ hosts. hosts ≢ [])
    unfolding require_hosts
    require_hosts-Succeeds D app_name [] n = absurd (n refl)
    require_hosts-Succeeds D app_name (host ∷ hosts) n = Succeeds-pure _ n

    provision-Succeeds :
        client.redirect_uris ≢ []
        → Succeeds
            (Both P I (Known client.id))
            (Both P Anything Anything)
            (provision P h sso account (some client))
            Anything
    unfolding provision
    provision-Succeeds some_url =
        Succeeds-bind _ _
          (or_delete-Succeeds P _ _ _
            (in_cluster-Succeeds P _ _ (deploy-Succeeds P I Ready role sso good client some_url _)))
          λ proxy (e, n). Succeeds-bind _ _ (exposed-Succeeds _ proxy) λ _ _.
            Succeeds-bind _ _
              (or_delete-Succeeds P _ _ _ (
                in_cluster-Succeeds P _ _
                  (rw e (find_ingress_hosts-Succeeds P I Ready role sso good))))
              λ found some_found.
                Succeeds-bind _ _ (require_hosts-Succeeds _ _ found some_found) λ hosts some_host.
                  Succeeds-bind _ _
                    (or_delete-Succeeds P _ _ _
                      (in_dex-Succeeds P I _ (update_client-Succeeds client.id _)))
                    λ _ _.
                      Succeeds-bind _ _
                        (or_delete-Succeeds P _ _ _ (
                          in_cluster-Succeeds P _ _ (
                            update-Succeeds P I Ready role sso good _
                              (convert_hosts-nonempty hosts some_host) _ proxy n)))
                        λ _ _.
                          Succeeds-bind _ _
                            (or_delete-Succeeds P _ _ _
                              (in_cluster-Succeeds P _ _ (Succeeds-call _ (good.updates_sso _))))
                            (λ _ _. Succeeds-pure tt tt)

  pub unless_initialized-Succeeds :
      DexLaws P clients
      → (account : Str)
      → Succeeds
          (Both P I New)
          (Both P Anything Anything)
          (unless_initialized P h sso account false)
          Anything
  unfolding unless_initialized Dex.create_client client_of
  unless_initialized-Succeeds laws account = record { at = created }
    where
      known :
          (d' : P.Dex) (c : OidcClient) (o : Option OidcClient)
          → clients d' c.id ≡ (if same c.id c.id then some c else o)
          → Known c.id d'
      known d' c o e p = ground (arith, same_iff c.id c.id)

      created :
          (w : World P)
          → I w.cluster × New w.dex
          → Returned Anything
              (Both P Anything Anything)
              (unless_initialized P h sso account false w).0
              (unless_initialized P h sso account false w).1
      created w (i, new) =
          let (resp, c, d', q, fresh, e, some_url) = dex.creates w.dex new in
          let (_, there) = laws.creates (requested sso) c w.dex d' resp q fresh e in
          rw (q, fresh, e)
            ((provision-Succeeds c account some_url).at (record w { dex = d' })
              (i, known d' c _ (there c.id)))
