-- ===== src/Operator/Handler/Events.antt =====
-- What one event does to dex, on every branch of the handler.
use sso_operator.Base.{◌≡◌, refl, ap, Bool, true, false, ◌&&◌, ◌⊎◌, inl, inr, none, if◌then◌else◌}
use sso_operator.Base.Text.{Str}
use sso_operator.Base.Run.{Error, ok, err, Run}
use sso_operator.Base.Run.Triple.{
  Triple, Triple-bind, Triple-catch, Triple-pure, Triple-weaken, Triple-wrap_err, Triple-ok,
  Triple-err,
}
use sso_operator.Api.{Sso}
use sso_operator.Platform.{Platform}
use sso_operator.Dex.View.{View, DexLaws, Removed, delete_client-Triple}
use sso_operator.Kube.Rbac.{ensure_cluster_role_binding}
use sso_operator.Kube.Resources.{is_sso_initialized}
use sso_operator.Operator.Config.{Handler}
use sso_operator.Operator.Handler.{
  World, sso_object, in_cluster, clean_up, initialize, unless_initialized, handle_sso, handle,
}
use sso_operator.Operator.Handler.Rollback.{in_cluster-Triple, in_dex-Triple}
use sso_operator.Operator.Handler.Creation.{AfterError, AfterSuccess, unless_initialized-Triple}

module _ (P : Platform) (nil : (text : Str) → P.wrapf_nil text ≡ none) (clients : View P)
    (laws : DexLaws P clients) (sso : Sso) (d₀ : P.Dex) where
  -- Dex is as it was.
  abbrev Same : World P → Type 0
  Same w = w.dex ≡ d₀

  abbrev Failed : World P → Type 0
  Failed w = AfterError P nil clients laws sso d₀ w.dex

  Same-Failed : (w : World P) → Same w → Failed w
  Same-Failed w e = inl (λ j. ap (λ d. clients d j) e)

  -- A step on the cluster before anything is asked of dex.
  before_dex :
      {A : Type 0} (m : Run P.Cluster A) → Triple Same (in_cluster P m) (λ _. Same) (λ _. Failed)
  before_dex m =
      Triple-weaken _ (λ w e. e) (λ a w e. e) (λ x w e. Same-Failed w e)
        (in_cluster-Triple P (λ d. d ≡ d₀) m)

  -- The client of the deleted resource is gone, and all others are as they were.
  abbrev pub CleanedUp : World P → Type 0
  CleanedUp w = Removed P clients sso.status.client_id d₀ w.dex

  clean_up-Triple :
      (account : Str) → Triple Same (clean_up P sso account) (λ _. CleanedUp) (λ _. Failed)
  unfolding clean_up
  clean_up-Triple account = Triple-bind _ _ (Triple-wrap_err _ _ (before_dex _)) λ _.
      Triple-wrap_err _ _ (
        Triple-weaken _ (λ w e j n. ap (λ d. clients d j) e) (λ _ w p. p)
          (λ _ w p. inr (inl (sso.status.client_id, p)))
          (in_dex-Triple P _ (delete_client-Triple P clients laws sso.status.client_id d₀)))

  -- The resource was initialized already, or it is now.
  abbrev pub Provisioned : World P → Type 0
  Provisioned w = Same w ⊎ AfterSuccess P nil clients laws sso d₀ w

  initialize-Triple :
      (h : Handler) (account : Str)
      → Triple Same (initialize P h sso account) (λ _. Provisioned) (λ _. Failed)
  unfolding initialize unless_initialized
  initialize-Triple h account =
      Triple-bind _ _
        (Triple-catch _ _ (in_cluster-Triple P (λ d. d ≡ d₀) _) (λ e. Triple-pure false)) by_flag
    where
      by_flag :
          (initialized : Bool)
          → Triple Same
              (unless_initialized P h sso account initialized)
              (λ _. Provisioned)
              (λ _. Failed)
      by_flag true = record { at = λ w e. inl e }
      by_flag false =
          Triple-weaken _ (λ w e. e) (λ _ w p. inr p) (λ _ w p. p)
            (unless_initialized-Triple P nil clients laws sso d₀ h account)

  -- What a run with no error has done, by the branch that the event takes.
  abbrev pub Settled : Bool → World P → Type 0
  Settled deleted w = if deleted && sso.status.initialized then CleanedUp w else Provisioned w

  handle_sso-Triple :
      (h : Handler) (deleted : Bool)
      → Triple Same (handle_sso P h deleted sso) (λ _. Settled deleted) (λ _. Failed)
  unfolding handle_sso
  handle_sso-Triple h deleted =
      Triple-bind _ _ (Triple-wrap_err _ _ (before_dex _))
        (by_branch (deleted && sso.status.initialized))
    where
      by_branch :
          (b : Bool) (account : Str)
          → Triple Same
              (if b then clean_up P sso account else initialize P h sso account)
              (λ _ w. if b then CleanedUp w else Provisioned w)
              (λ _. Failed)
      by_branch true account = clean_up-Triple account
      by_branch false account = initialize-Triple h account

  -- Where dex keeps `DexLaws` and wrapping a nil error gives nil, of an event about an SSO resource
  -- that is handled with no error: if the resource is deleted and was initialized, dex has lost the
  -- client of the resource's status and nothing else. Otherwise dex is as it was, or it has a
  -- client that it did not have before, whose redirect URLs are those of some hosts, one at least,
  -- all other clients are as they were, and the last request to the cluster stored the resource as
  -- initialized with the client's id.
  pub handle-settles :
      (h : Handler) (deleted : Bool) (w w' : World P)
      → w.dex ≡ d₀
      → handle P h (record { deleted = deleted; object = sso_object sso }) w ≡ (ok tt, w')
      → Settled deleted w'
  unfolding handle
  handle-settles h deleted w w' e q = Triple-ok _ (handle_sso-Triple h deleted) w w' q e

  -- Where dex keeps `DexLaws` and wrapping a nil error gives nil: an event about an SSO resource
  -- that is handled with an error leaves every look-up of a client in dex as it was; or the last
  -- request to dex was to delete a client, and dex failed it or did not find the client; or the one
  -- request to dex was for the new client, and dex failed it.
  pub handle-restores :
      (h : Handler) (deleted : Bool) (w w' : World P) (x : Error)
      → w.dex ≡ d₀
      → handle P h (record { deleted = deleted; object = sso_object sso }) w ≡ (err x, w')
      → AfterError P nil clients laws sso d₀ w'.dex
  unfolding handle
  handle-restores h deleted w w' x e q = Triple-err _ (handle_sso-Triple h deleted) w w' q e

module _ (P : Platform) where
  open P use {Cluster}

  -- An event about a deleted resource that is not initialized has the same outcome, and leaves the
  -- same state, as an event about the resource that is not deleted.
  pub handle-deleted_uninitialized :
      (h : Handler) (sso : Sso) (w : World P)
      → sso.status.initialized ≡ false
      → handle P h (record { deleted = true; object = sso_object sso }) w
        ≡ handle P h (record { deleted = false; object = sso_object sso }) w
  unfolding handle handle_sso
  handle-deleted_uninitialized h sso w e = simp e

  -- An event about a resource that is not both deleted and initialized, where the binding of the
  -- role is ensured and the listed resource is initialized, is handled with no error: dex is as it
  -- was, and the cluster is as the look-up of the resource left it.
  pub handle-initialized :
      (h : Handler) (deleted : Bool) (sso : Sso) (w : World P) (u v : Cluster) (account : Str)
      → (deleted && sso.status.initialized) ≡ false
      → ensure_cluster_role_binding P h.cluster_role_name sso.meta.namespace w.cluster
        ≡ (ok account, u)
      → is_sso_initialized P sso u ≡ (ok true, v)
      → handle P h (record { deleted = deleted; object = sso_object sso }) w
        ≡ (ok tt, record w { cluster = v })
  unfolding handle handle_sso initialize unless_initialized
  handle-initialized h deleted sso w u v account e bound found = rw (bound, e, found) refl
