-- ===== src/Operator/Handler/Progress.antt =====
-- The handler where the cluster and dex are healthy.
use sso_operator.Base.{◌≡◌, refl, subst, ◌∙◌, Bool, false, ◌&&◌, none}
use sso_operator.Base.Text.{Str}
use sso_operator.Base.Run.{ok}
use sso_operator.Base.Run.Triple.{Triple-ok}
use sso_operator.Base.Run.Succeeds.{Succeeds-run}
use sso_operator.Api.{Sso}
use sso_operator.Platform.{Platform}
use sso_operator.Dex.View.{View, DexLaws}
use sso_operator.Kube.Rbac.{ensure_cluster_role_binding}
use sso_operator.Kube.Resources.{is_sso_initialized}
use sso_operator.Operator.Config.{Handler}
use sso_operator.Operator.Health.{Healthy, DexHealthy}
use sso_operator.Operator.Health.Cluster.{
  ensure_cluster_role_binding-Succeeds, is_sso_initialized-Succeeds,
}
use sso_operator.Operator.Health.Provisioning.{unless_initialized-Succeeds}
use sso_operator.Operator.Handler.{
  World, sso_object, unless_initialized, initialize, handle_sso, handle,
}
use sso_operator.Operator.Handler.Creation.{AfterSuccess, unless_initialized-Triple}

module _ (P : Platform) where
  -- The handler up to the request for a new client.
  handle-uninitialized :
      (h : Handler) (deleted : Bool) (sso : Sso) (w : World P) (u v : P.Cluster) (account : Str)
      → (deleted && sso.status.initialized) ≡ false
      → ensure_cluster_role_binding P h.cluster_role_name sso.meta.namespace w.cluster
        ≡ (ok account, u)
      → is_sso_initialized P sso u ≡ (ok false, v)
      → handle P h (record { deleted = deleted; object = sso_object sso }) w
        ≡ unless_initialized P h sso account false (record w { cluster = v })
  unfolding handle handle_sso initialize
  handle-uninitialized h deleted sso w u v account e bound found = rw (bound, e, found) refl

module _ (P : Platform) (nil : (text : Str) → P.wrapf_nil text ≡ none) (clients : View P)
    (laws : DexLaws P clients) (I Ready : P.Cluster → Type 0) (h : Handler) (sso : Sso)
    (good : Healthy P I Ready h.cluster_role_name sso) (New : P.Dex → Type 0)
    (dex : DexHealthy P clients New sso) where
  -- Where the cluster is `Healthy` for the handler's role and the resource, dex is `DexHealthy` and
  -- keeps `DexLaws`, and wrapping a nil error gives nil: an event about a resource that is not both
  -- deleted and initialized, in a state of the healthy cluster and a state in which dex makes new
  -- clients, is handled with no error and no panic, and then the resource is provisioned. Dex has a
  -- client that it did not have before, with the redirect URLs of some hosts, one at least, all other
  -- clients are as they were, and the last request to the cluster stored the resource as initialized
  -- with the client's id.
  pub handle-AfterSuccess :
      (deleted : Bool) (w : World P)
      → (deleted && sso.status.initialized) ≡ false
      → I w.cluster
      → New w.dex
      → (w' : World P) × (handle P h (record { deleted = deleted; object = sso_object sso }) w
          ≡ (ok tt, w'))
        × AfterSuccess P nil clients laws sso (w.dex) w'
  handle-AfterSuccess deleted w e i d =
      let (account, u, bound, _, iu) =
        Succeeds-run _
          (ensure_cluster_role_binding-Succeeds P I Ready h.cluster_role_name sso good
            sso.meta.namespace)
          w.cluster i in
      let (b, v, found, f, iv) =
        Succeeds-run _ (is_sso_initialized-Succeeds P I Ready h.cluster_role_name sso good) u iu in
      let (_, w', done, _, _) =
        Succeeds-run _
          (unless_initialized-Succeeds P I Ready h sso good clients New dex laws account)
          (record w { cluster = v }) (iv, d) in
      let at_once =
        handle-uninitialized P h deleted sso w u v account e bound
          (subst (λ x. is_sso_initialized P sso u ≡ (ok x, v)) f found) in
      (
        w',
        at_once ∙ done,
        Triple-ok _ (unless_initialized-Triple P nil clients laws sso (w.dex) h account)
            (record w { cluster = v }) w' done refl,
      )
