-- ===== src/Kube/Rbac.antt =====
-- The cluster role binding of the operator, pkg/kubernetes/rbac.go.
pub mod Account
use sso_operator.Base.{
  Bool, true, false, ◌&&◌, Option, none, some, List, [], ◌∷◌, ◌++◌, find_first, if◌then◌else◌,
}
use sso_operator.Base.Text.{Str, str, same, around}
use sso_operator.Base.Run.{Run, pure, raise, call, catch, message, wrap_err, ◌>>=◌, ◌>>◌}
use sso_operator.Objects.{Subject, ClusterRoleBinding, ServiceAccount, no_meta}
use sso_operator.Platform.{Platform}
use sso_operator.Kube.Client.{get_clientset}

abbrev pub subject_kind : Str
subject_kind = str "ServiceAccount"

abbrev pub role_kind : Str
role_kind = str "ClusterRole"

abbrev pub service_account_name : Str
service_account_name = str "sso-operator-sa"

-- The test of the loop over the subjects.
abbrev pub is_account_in : Str → Subject → Bool
is_account_in namespace s = same s.kind subject_kind && same s.namespace namespace

-- The test of the loop over the bindings.
abbrev pub is_binding_of : Str → ClusterRoleBinding → Bool
is_binding_of role b = same b.role_kind role_kind && same b.role_name role

module _ (P : Platform) where
  open P use {
    Cluster, Clientset, list_role_bindings, update_role_binding, get_service_account,
    create_service_account,
  }

  unfoldable pub create_service_account_in : Str → Str → Run Cluster Str
  create_service_account_in name namespace = do
    client ← wrap_err (str "getting k8s client") (get_clientset P)
    catch (do sa ← call (get_service_account client namespace name); pure sa.meta.name)
        λ e. wrap_err (str "creating service account") (do
          sa ← call (
              create_service_account client namespace (record {
                type_meta = record { kind = subject_kind; api_version = str "v1" };
                meta = record no_meta { name = name; namespace = namespace };
              }))
          pure sa.meta.name)

  -- The body of the loop at a binding of the role, which returns on every path: behind the search
  -- for an account of the namespace, and the search.
  unfoldable pub with_subject :
      Clientset → ClusterRoleBinding → Str → Option Subject → Run Cluster Str
  with_subject client binding namespace (some s) = pure s.name
  with_subject client binding namespace none = do
    account ←
        wrap_err (str "role binding creating service account")
          (create_service_account_in service_account_name namespace)
    let added : Subject = record { kind = subject_kind; name = account; namespace = namespace }
    wrap_err
        (around (str "adding service account '") account
          (around (str "' to cluster role binding '") binding.meta.name (str "'")))
        (call (
          update_role_binding client
            (record binding { subjects = binding.subjects ++ (added ∷ []) })))
    pure account

  unfoldable pub bind_account : Clientset → ClusterRoleBinding → Str → Run Cluster Str
  bind_account client binding namespace =
      with_subject client binding namespace (find_first (is_account_in namespace) binding.subjects)

  unfoldable pub with_binding : Clientset → Str → Str → Option ClusterRoleBinding → Run Cluster Str
  with_binding client role namespace (some b) = bind_account client b namespace
  with_binding client role namespace none = raise (
      message (
        around (str "no cluster role binding found for cluster role '") role
          (str "', make sure a binding existing when deploying the operator")))

  unfoldable pub ensure_cluster_role_binding : Str → Str → Run Cluster Str
  ensure_cluster_role_binding role namespace = do
    client ← wrap_err (str "getting k8s client") (get_clientset P)
    bindings ← wrap_err (str "listing cluster role bindings") (call (list_role_bindings client))
    with_binding client role namespace (find_first (is_binding_of role) bindings)
