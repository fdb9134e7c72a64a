-- ===== src/Operator/Handler/Foreign.antt =====
-- The handler and the clients of dex that are not its own.
use sso_operator.Base.{◌≡◌, false, Option, some, List, [], ◌∷◌}
use sso_operator.Base.Text.{Str, same}
use sso_operator.Base.Run.{Error, Run}
use sso_operator.Base.Run.Keeps.{
  Keeps, Keeps-bind, Keeps-catch, Keeps-wrap_err, Keeps-raise, Keeps-pure, Keeps-deref, Keeps-if,
}
use sso_operator.Objects.{OidcClient}
use sso_operator.Api.{Sso}
use sso_operator.Platform.{Platform}
use sso_operator.Dex.View.{View, DexLaws}
use sso_operator.Dex.Foreign.{delete_client-Keeps, update_client-Keeps}
use sso_operator.Proxy.Deploy.{Proxy}
use sso_operator.Operator.Config.{Handler}
use sso_operator.Operator.Handler.{
  World, in_cluster, in_dex, delete_client, or_delete, expose_unless_skipped, require_hosts,
  provision, clean_up,
}

module _ (P : Platform) (clients : View P) (laws : DexLaws P clients) (j : Str)
    (x : Option OidcClient) where
  -- Under the id dex keeps this, a client or none.
  abbrev pub Is : World P → Type 0
  Is w = clients w.dex j ≡ x

  pub in_cluster-Keeps : {A : Type 0} (m : Run P.Cluster A) → Keeps Is (in_cluster P m)
  in_cluster-Keeps m = record { at = λ w h. h }

  pub in_dex-Keeps :
      {A : Type 0} (m : Run (P.Dex) A) → Keeps (λ d. clients d j ≡ x) m → Keeps Is (in_dex P m)
  in_dex-Keeps m km = record { at = λ w h. km.at w.dex h }

  delete_client-Is :
      {A : Type 0} (id : Str) (cause : Error)
      → same j id ≡ false
      → Keeps Is (delete_client P {A = A} id cause)
  unfolding delete_client
  delete_client-Is id cause other =
      Keeps-bind _ _
        (Keeps-catch _ _ (in_dex-Keeps _ (delete_client-Keeps P clients laws j x id other))
          (λ e. Keeps-raise _))
        (λ _. Keeps-raise cause)

  -- From here on the handler's client has another id, if there is a client.
  module _ (client : Option OidcClient)
      (other : (c : OidcClient) → client ≡ some c → same j c.id ≡ false) where
    or_delete-Is :
        {A : Type 0} (text : Str) (m : Run (World P) A)
        → Keeps Is m
        → Keeps Is (or_delete P client text m)
    unfolding or_delete
    or_delete-Is text m km =
        Keeps-catch _ _ km (λ e. Keeps-deref client _ (λ c p. delete_client-Is c.id _ (other c p)))

    cluster_step :
        {A : Type 0} (text : Str) (m : Run P.Cluster A)
        → Keeps Is (or_delete P client text (in_cluster P m))
    cluster_step text m = or_delete-Is text _ (in_cluster-Keeps m)

    expose-Is :
        (sso : Sso) (proxy : Proxy) (account : Str)
        → Keeps Is (expose_unless_skipped P sso client proxy account)
    unfolding expose_unless_skipped
    expose-Is sso proxy account =
        Keeps-if sso.spec.skip_expose_service _ _ (Keeps-pure tt) (cluster_step _ _)

    require_hosts-Is :
        (app_name : Str) (hosts : List Str) → Keeps Is (require_hosts P client app_name hosts)
    unfolding require_hosts
    require_hosts-Is app_name [] = Keeps-deref client _ (λ c p. delete_client-Is c.id _ (other c p))
    require_hosts-Is app_name (host ∷ hosts) = Keeps-pure _

    pub provision-Is :
        (h : Handler) (sso : Sso) (account : Str) → Keeps Is (provision P h sso account client)
    unfolding provision
    provision-Is h sso account = Keeps-bind _ _ (cluster_step _ _) λ proxy.
        Keeps-bind _ _ (expose-Is sso proxy account) λ _. Keeps-bind _ _ (cluster_step _ _) λ found.
          Keeps-bind _ _ (require_hosts-Is proxy.app_name found) λ hosts.
            Keeps-deref client _ λ c p.
              Keeps-bind _ _
                (or_delete-Is _ _ (
                  in_dex-Keeps _ (
                    update_client-Keeps P clients laws j x c.id (other c p) _ [] false sso.meta.name
                      [])))
                λ _.
                  Keeps-bind _ _ (cluster_step _ _)
                    λ _. Keeps-bind _ _ (cluster_step _ _) λ _. Keeps-pure tt

  -- Cleaning up a resource whose client has another id.
  pub clean_up-Is :
      (sso : Sso) (account : Str)
      → same j sso.status.client_id ≡ false
      → Keeps Is (clean_up P sso account)
  unfolding clean_up
  clean_up-Is sso account other = Keeps-bind _ _ (Keeps-wrap_err _ _ (in_cluster-Keeps _)) λ _.
      Keeps-wrap_err _ _
        (in_dex-Keeps _ (delete_client-Keeps P clients laws j x sso.status.client_id other))
