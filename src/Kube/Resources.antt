-- ===== src/Kube/Resources.antt =====
-- The queries of pkg/kubernetes/sso.go, ingress.go and crds.go.
use sso_operator.Base.{Bool, false, Option, none, some, List, [], ◌∷◌, ◌++◌, if◌then◌else◌}
use sso_operator.Base.Text.{Str, str, same}
use sso_operator.Base.Run.{Run, pure, raise, call, catch, message, wrap_err, ◌>>=◌, ◌>>◌}
use sso_operator.Objects.{Ingress, CrdNames, no_meta}
use sso_operator.Api.{Sso}
use sso_operator.Platform.{Platform}
use sso_operator.Client.Typed
use sso_operator.Client.Clientset.{jenkins_v1_of, ssos_of}
use sso_operator.Kube.Client.{get_clientset, get_jenkins_client}

-- The loop of `IsSSOInitialized` over the listed resources.
unfoldable pub initialized_of : Str → List Sso → Bool
initialized_of name [] = false
initialized_of name (s ∷ ssos) =
    let rest = initialized_of name ssos in
    if same s.meta.name name then s.status.initialized else rest

-- The loop of `FindIngressHosts`: the hosts of the first ingress of that name.
unfoldable pub hosts_of : Str → List Ingress → Option (List Str)
hosts_of name [] = none
hosts_of name (i ∷ ingresses) =
    let rest = hosts_of name ingresses in if same i.meta.name name then some i.hosts else rest

-- pkg/apis/jenkins.io/register.go
abbrev pub group_name : Str
group_name = str "jenkins.io"

abbrev pub api_version_v1 : Str
api_version_v1 = str "v1"

abbrev pub sso_crd_names : CrdNames
sso_crd_names = record {
  kind = str "SSO";
  list_kind = str "SSOList";
  plural = str "ssos";
  singular = str "sso";
  short_names = str "sso" ∷ [];
}

module _ (P : Platform) where
  open P use {Cluster, ApiExtensions, rest, list_ingresses, get_crd, create_crd}

  unfoldable pub is_sso_initialized : Sso → Run Cluster Bool
  unfolding initialized_of Typed.list ssos_of jenkins_v1_of
  is_sso_initialized sso = do
    client ← wrap_err (str "getting Jenkins client") (get_jenkins_client P)
    ssos ← wrap_err (str "listing SSO resources") (
        call (
          Typed.list rest (ssos_of rest (jenkins_v1_of rest client) sso.meta.namespace)
            rest.no_list_options))
    pure (initialized_of sso.meta.name ssos.items)

  unfoldable pub found_or : Str → Option (List Str) → Run Cluster (List Str)
  found_or name none = raise (message (str "ingress '" ++ (name ++ str "' not found")))
  found_or name (some hosts) = pure hosts

  unfoldable pub find_ingress_hosts : Str → Str → Run Cluster (List Str)
  unfolding found_or hosts_of
  find_ingress_hosts name namespace = do
    client ← wrap_err (str "getting k8s client") (get_clientset P)
    ingresses ← wrap_err (str "listing ingress resources") (call (list_ingresses client namespace))
    found_or name (hosts_of name ingresses)

  unfoldable pub register_crd : ApiExtensions → Str → CrdNames → Run Cluster (Unit {0})
  register_crd client name names = catch (call (get_crd client name) >> pure tt) λ e. do
    call (
        create_crd client (record {
          meta = record no_meta { name = name };
          group = group_name;
          version = api_version_v1;
          scope = str "Namespaced";
          names = names;
        }))
    pure tt

  unfoldable pub register_sso_crd : ApiExtensions → Run Cluster (Unit {0})
  unfolding register_crd
  register_sso_crd client = register_crd client (str "ssos." ++ group_name) sso_crd_names
