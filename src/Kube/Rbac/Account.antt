-- ===== src/Kube/Rbac/Account.antt =====
-- The account that `EnsureClusterRoleBinding` returns, and its binding.
use sso_operator.Base.{
  ◌≡◌, refl, true, ◌⊎◌, inl, inr, Option, none, some, List, [], ◌∷◌, ◌++◌, find_first, IsIn,
  find_first-IsIn, arith, subst, subst₂, ap, ◌∙◌,
}
use sso_operator.Base.Text.{Str, same_eq}
use sso_operator.Base.Run.{reply, ok, call, wrap_err}
use sso_operator.Base.Run.Inversion.{pure-ok, bind-ok, call-ok, wrap_err-ok}
use sso_operator.Objects.{Subject, ClusterRoleBinding}
use sso_operator.Platform.{Platform}
use sso_operator.Kube.Client.{get_clientset}
use sso_operator.Kube.Rbac.{
  subject_kind, role_kind, service_account_name, is_account_in, is_binding_of, with_subject,
  with_binding, bind_account, create_service_account_in, ensure_cluster_role_binding,
}

module _ (P : Platform) where
  open P use {Cluster, Clientset, list_role_bindings, update_role_binding}

  -- A subject that is the account of a namespace.
  abbrev subject_of : Str → Str → Subject
  subject_of namespace name = record { kind = subject_kind; name = name; namespace = namespace }

  -- The account is a subject of the binding already, and nothing was done after the listing; or the
  -- last request stored the binding with the account behind its subjects.
  abbrev pub IsBound : Clientset → ClusterRoleBinding → Str → Str → Cluster → Cluster → Type 0
  IsBound k b namespace name u c' =
      ((u ≡ c') × IsIn (subject_of namespace name) b.subjects)
      ⊎ ((v : Cluster) × (b' : ClusterRoleBinding) × (update_role_binding k
              (record b { subjects = b.subjects ++ (subject_of namespace name ∷ []) }) v
            ≡ (reply b', c')))

  account_of :
      (namespace : Str) (s : Subject)
      → is_account_in namespace s ≡ true
      → s ≡ subject_of namespace s.name
  account_of namespace s h =
      ground (arith, same_eq s.kind subject_kind, same_eq s.namespace namespace)

  with_subject-IsBound :
      (k : Clientset) (b : ClusterRoleBinding) (namespace : Str) (o : Option Subject)
      (u c' : Cluster) (name : Str)
      → find_first (is_account_in namespace) b.subjects ≡ o
      → with_subject P k b namespace o u ≡ (ok name, c')
      → IsBound k b namespace name u c'
  unfolding with_subject
  with_subject-IsBound k b namespace (some s) u c' name e h =
      let (p, q) = pure-ok s.name u c' h in
      let (m, t) = find_first-IsIn (is_account_in namespace) b.subjects e in
      inl (
        q,
        subst (λ x. IsIn x b.subjects) (account_of namespace s t ∙ ap (subject_of namespace) p) m,
      )
  with_subject-IsBound k b namespace none u c' name e h =
      let (account, v, p, q) =
        bind-ok (wrap_err _ (create_service_account_in P service_account_name namespace)) _ u c'
          h in
      let stored : ClusterRoleBinding = record b {
        subjects = b.subjects ++ (subject_of namespace account ∷ []);
      } in
      let (b', w, r, t) = bind-ok (wrap_err _ (call (update_role_binding k stored))) _ v c' q in
      let (x, y) = pure-ok account w c' t in
      inr (
        v,
        b',
        subst₂
            (λ n z.
              update_role_binding k
                (record b { subjects = b.subjects ++ (subject_of namespace n ∷ []) }) v
              ≡ (reply b', z))
            x y
            (call-ok (update_role_binding k stored) v w
              (wrap_err-ok _ (call (update_role_binding k stored)) v w r)),
      )

  -- When `EnsureClusterRoleBinding` returns a name, it has listed a binding of the cluster role, and
  -- the service account of that name in the namespace is a subject of the binding already, or the
  -- last request stored the binding with that account added behind its subjects.
  pub ensure_cluster_role_binding-IsBound :
      (role namespace : Str) (c c' : Cluster) (name : Str)
      → ensure_cluster_role_binding P role namespace c ≡ (ok name, c')
      → (k : Clientset) × (u v : Cluster) × (bindings : List ClusterRoleBinding)
        × (b : ClusterRoleBinding) × (list_role_bindings k u ≡ (reply bindings, v))
        × IsIn b bindings
        × (b.role_kind ≡ role_kind)
        × (b.role_name ≡ role)
        × IsBound k b namespace name v c'
  unfolding ensure_cluster_role_binding
  ensure_cluster_role_binding-IsBound role namespace c c' name h =
      let (k, u, p, q) = bind-ok (wrap_err _ (get_clientset P)) _ c c' h in
      let (bindings, v, r, t) = bind-ok (wrap_err _ (call (list_role_bindings k))) _ u c' q in
      let listed =
        call-ok (list_role_bindings k) u v (wrap_err-ok _ (call (list_role_bindings k)) u v r) in
      found k u v bindings listed (find_first (is_binding_of role) bindings) refl t
    where
      found :
          (k : Clientset) (u v : Cluster) (bindings : List ClusterRoleBinding)
          → list_role_bindings k u ≡ (reply bindings, v)
          → (o : Option ClusterRoleBinding) → find_first (is_binding_of role) bindings ≡ o
          → with_binding P k role namespace o v ≡ (ok name, c')
          → (k : Clientset) × (u v : Cluster) × (bindings : List ClusterRoleBinding)
            × (b : ClusterRoleBinding) × (list_role_bindings k u ≡ (reply bindings, v))
            × IsIn b bindings
            × (b.role_kind ≡ role_kind)
            × (b.role_name ≡ role)
            × IsBound k b namespace name v c'
      found k u v bindings listed (some b) e t =
          let (m, pass) = find_first-IsIn (is_binding_of role) bindings e in
          (
            k,
            u,
            v,
            bindings,
            b,
            listed,
            m,
            ground (arith, same_eq b.role_kind role_kind),
            ground (arith, same_eq b.role_name role),
            with_subject-IsBound k b namespace _ v c' name refl
                (unfold with_binding bind_account in t),
          )
      found k u v bindings listed none e t = absurd (unfold with_binding in ground arith)
