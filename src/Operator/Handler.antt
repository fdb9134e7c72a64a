-- ===== src/Operator/Handler.antt =====
-- The event handler, pkg/operator/operator.go.
pub mod Rollback
pub mod Foreign
pub mod NilClient
pub mod Creation
pub mod History
pub mod Refinement
pub mod Redelivery
pub mod Events
pub mod Progress
pub mod Asking
pub mod Returning
use sso_operator.Base.{
  Bool, true, false, ◌&&◌, Option, none, some, List, [], ◌∷◌, ◌++◌, if◌then◌else◌,
}
use sso_operator.Base.Text.{Str, str, around, quoted}
use sso_operator.Base.Run.{
  Error, Outcome, ok, err, panic, Run, pure, raise, crash, call, catch, deref, message, wrap,
  wrap_err, ◌>>=◌, ◌>>◌,
}
use sso_operator.Objects.{OidcClient}
use sso_operator.Api.{Sso, SsoStatus}
use sso_operator.Platform.{Platform}
use sso_operator.Kube.Rbac.{ensure_cluster_role_binding}
use sso_operator.Kube.Resources.{is_sso_initialized, find_ingress_hosts}
use sso_operator.Proxy.Resources.{fake_redirect_url, convert_hosts_to_redirect_urls}
use sso_operator.Proxy.Deploy.{Proxy, deploy}
use sso_operator.Proxy.Update.{update}
use sso_operator.Proxy.Expose.{expose, cleanup}
use sso_operator.Dex
use sso_operator.Operator.Config.{Handler, OperatorConfig}

-- The object of an event: an SSO resource, or one that the handler passes over.
pub data EventObject : Type 0 where
  sso_object : Sso → EventObject
  other_object : EventObject

pub record Event : Type 0 where
  pub deleted : Bool
  pub object : EventObject

module _ (P : Platform) where
  open P use {Cluster, error_text, sdk_update_sso}

  -- What a run of the handler works on.
  pub record World : Type 0 where
    pub cluster : Cluster
    pub dex : P.Dex

  -- The parts of a run that touch the cluster only, and dex only.
  abbrev pub in_cluster : {A : Type 0} → Run Cluster A → Run World A
  in_cluster m w = let (r, c) = m w.cluster in (r, record w { cluster = c })

  abbrev pub in_dex : {A : Type 0} → Run (P.Dex) A → Run World A
  in_dex m w = let (r, d) = m w.dex in (r, record w { dex = d })

  -- `deleteClient`, which returns an error on every path.
  unfoldable pub delete_client : {A : Type 0} → Str → Error → Run World A
  delete_client id cause = do
    catch (in_dex (Dex.delete_client P id))
        λ e. raise (wrap e (error_text cause ++ str ". Deleteing the OIDC client"))
    raise cause

  -- `if err != nil { return h.deleteClient(ctx, client.Id, errors.Wrap(err, text)) }`, where the
  -- client is a pointer.
  unfoldable pub or_delete : {A : Type 0} → Option OidcClient → Str → Run World A → Run World A
  or_delete client text m = catch m λ e. do c ← deref client; delete_client c.id (wrap e text)

  unfoldable pub expose_unless_skipped :
      Sso → Option OidcClient → Proxy → Str → Run World (Unit {0})
  expose_unless_skipped sso client proxy account =
      if sso.spec.skip_expose_service
      then pure tt
      else or_delete client (around (str "exposing '") sso.meta.name (str "' SSO proxy"))
          (in_cluster (expose P sso proxy.service.meta.name account))

  unfoldable pub require_hosts : Option OidcClient → Str → List Str → Run World (List Str)
  require_hosts client app_name [] = do
    c ← deref client
    delete_client c.id (message (str "no ingress host found for application " ++ quoted app_name))
  require_hosts client app_name (host ∷ hosts) = pure (host ∷ hosts)

  abbrev pub initialized_sso : Sso → Str → Sso
  initialized_sso sso id = record sso { status = record { client_id = id; initialized = true } }

  -- From the deployment to the end: what runs once dex has the client.
  unfoldable pub provision : Handler → Sso → Str → Option OidcClient → Run World (Unit {0})
  provision h sso account client = do
    proxy ←
        or_delete client (around (str "deploying '") sso.meta.name (str "' SSO proxy"))
          (in_cluster (deploy P sso client h.operator_config.cookie_key))
    expose_unless_skipped sso client proxy account
    found ←
        or_delete client (str "searching ingress hosts")
          (in_cluster (find_ingress_hosts P proxy.app_name sso.meta.namespace))
    hosts ← require_hosts client proxy.app_name found
    let urls = convert_hosts_to_redirect_urls hosts
    c ← deref client
    or_delete client (around (str "updating the OIDC client '") c.id (str "' in dex"))
        (in_dex (Dex.update_client P c.id urls [] false sso.meta.name []))
    or_delete client (around (str "updating '") sso.meta.name (str "' SSO proxy")) (
        in_cluster (
          update P proxy sso (some (record c { redirect_uris = urls }))
            h.operator_config.cookie_key))
    or_delete client (around (str "updating '") sso.meta.name (str "' SSO CRD"))
        (in_cluster (call (sdk_update_sso (initialized_sso sso c.id))))
    pure tt

  -- A deleted resource that was initialized.
  unfoldable pub clean_up : Sso → Str → Run World (Unit {0})
  clean_up sso account = do
    wrap_err (around (str "cleaning up '") sso.meta.name (str "' SSO proxy"))
        (in_cluster (cleanup P sso sso.meta.name account))
    wrap_err (around (str "deleting OIDC client '") sso.status.client_id (str "' from dex"))
        (in_dex (Dex.delete_client P sso.status.client_id))

  -- A resource that is not initialized gets its client in dex, and all the rest.
  unfoldable pub unless_initialized : Handler → Sso → Str → Bool → Run World (Unit {0})
  unless_initialized h sso account true = pure tt
  unless_initialized h sso account false = do
    client ←
        wrap_err (around (str "creating the OIDC client '") sso.meta.name (str "' in dex"))
          (in_dex (Dex.create_client P (fake_redirect_url ∷ []) [] false sso.meta.name []))
    provision h sso account client

  -- Any other: an error of the look-up counts as not initialized.
  unfoldable pub initialize : Handler → Sso → Str → Run World (Unit {0})
  initialize h sso account = do
    initialized ← catch (in_cluster (is_sso_initialized P sso)) (λ e. pure false)
    unless_initialized h sso account initialized

  unfoldable pub handle_sso : Handler → Bool → Sso → Run World (Unit {0})
  handle_sso h deleted sso = do
    account ←
        wrap_err
          (around (str "ensuring cluster role '") h.cluster_role_name (
            around (str "' has a binding to a service account in the namespace '")
              sso.meta.namespace (str "'")))
          (in_cluster (ensure_cluster_role_binding P h.cluster_role_name sso.meta.namespace))
    if deleted && sso.status.initialized then clean_up sso account else initialize h sso account

  unfoldable pub handle : Handler → Event → Run World (Unit {0})
  handle h event = elim event.object [
    | other_object ↦ pure tt
    | sso_object sso ↦ handle_sso h event.deleted sso
  ]
