-- ===== src/Operator/Handler/Redelivery.antt =====
-- An event that is delivered again.
use sso_operator.Base.{
  ◌≡◌, ◌≢◌, refl, sym, ap, subst, ◌∙◌, Bool, true, false, ◌&&◌, inl, inr, Option, none, some,
  if◌then◌else◌,
}
use sso_operator.Base.Text.{Str, str}
use sso_operator.Base.Run.{reply, ok, Call, call, pure, wrap_err}
use sso_operator.Base.Run.Keeps.{
  Keeps, Keeps-bind, Keeps-catch, Keeps-wrap_err, Keeps-raise, Keeps-pure, Keeps-call,
}
use sso_operator.Base.Run.Inversion.{call-ok, pure-ok, wrap_err-ok, bind-ok}
use sso_operator.Objects.{ClusterRoleBinding, Subject, ServiceAccount, no_meta}
use sso_operator.Api.{Sso, SsoList}
use sso_operator.Client.Typed.{list_request, list, new_ssos}
use sso_operator.Client.Clientset.{
  Clientset, jenkins_v1_of, ssos_of, new_for_config, new_jenkins_for_config, set_config_defaults,
  limited,
}
use sso_operator.Platform.{Platform}
use sso_operator.Dex.View.{View, DexLaws}
use sso_operator.Kube.Client.{get_clientset, get_jenkins_client, get_client_config}
use sso_operator.Kube.Rbac.{
  ensure_cluster_role_binding, with_binding, bind_account, with_subject, create_service_account_in,
  subject_kind,
}
use sso_operator.Kube.Resources.{is_sso_initialized, initialized_of}
use sso_operator.Operator.Config.{Handler}
use sso_operator.Operator.Handler.{World, sso_object, handle, initialized_sso}
use sso_operator.Operator.Handler.Events.{
  CleanedUp, Provisioned, handle-settles, handle-initialized,
}

-- What the cluster does with a resource that was stored as initialized: while it is there, as `Kept`
-- says, a listing of its namespace shows it so, and the other requests of the operator leave it.
pub record KeepsStored (P : Platform) (Kept : Sso → P.Cluster → Type 0) : Type 0 where
  pub stored :
      (x y : Sso) (s s' : P.Cluster)
      → x.status.initialized ≡ true
      → P.sdk_update_sso x s ≡ (reply y, s')
      → Kept x s'
  pub served :
      (x : Sso) (k : P.rest.RestClient) (l : SsoList) (s s' : P.Cluster)
      → Kept x s
      → P.rest.into_list
          (list_request
            (P.rest)
            (record { client = k; ns = x.meta.namespace })
            (P.rest.no_list_options))
          s
        ≡ (reply l, s')
      → initialized_of x.meta.name l.items ≡ true
  pub by_config : (x : Sso) (s : P.Cluster) → Kept x s → Kept x (P.client_config s).1
  pub by_clientset :
      (x : Sso) (c : P.rest.Config) (s : P.Cluster) → Kept x s → Kept x (P.new_for_config c s).1
  pub by_rest :
      (x : Sso) (c : P.rest.Config) (s : P.Cluster)
      → Kept x s
      → Kept x (P.rest.rest_client_for c s).1
  pub by_discovery :
      (x : Sso) (c : P.rest.Config) (s : P.Cluster)
      → Kept x s
      → Kept x (P.rest.discovery_for_config c s).1
  pub by_bindings :
      (x : Sso) (k : P.Clientset) (s : P.Cluster) → Kept x s → Kept x (P.list_role_bindings k s).1
  pub by_binding :
      (x : Sso) (k : P.Clientset) (b : ClusterRoleBinding) (s : P.Cluster)
      → Kept x s
      → Kept x (P.update_role_binding k b s).1
  pub by_account :
      (x : Sso) (k : P.Clientset) (ns name : Str) (s : P.Cluster)
      → Kept x s
      → Kept x (P.get_service_account k ns name s).1
  pub by_new_account :
      (x : Sso) (k : P.Clientset) (ns : Str) (a : ServiceAccount) (s : P.Cluster)
      → Kept x s
      → Kept x (P.create_service_account k ns a s).1

module _ (P : Platform) (Kept : Sso → P.Cluster → Type 0) (laws : KeepsStored P Kept)
    (x : Sso) where
  get_client_config-Kept : Keeps (Kept x) (get_client_config P)
  unfolding get_client_config
  get_client_config-Kept =
      Keeps-catch _ _ (Keeps-call _ (λ s h. laws.by_config x s h)) (λ e. Keeps-raise _)

  get_clientset-Kept : Keeps (Kept x) (get_clientset P)
  unfolding get_clientset
  get_clientset-Kept =
      Keeps-bind _ _ (Keeps-wrap_err _ _ get_client_config-Kept)
        (λ c. Keeps-call _ (λ s h. laws.by_clientset x c s h))

  new_jenkins_for_config-Kept :
      (c : P.rest.Config) → Keeps (Kept x) (new_jenkins_for_config (P.rest) c)
  unfolding new_jenkins_for_config
  new_jenkins_for_config-Kept c =
      Keeps-bind (call (P.rest.rest_client_for (set_config_defaults (P.rest) c))) _
        (Keeps-call _ (λ s h. laws.by_rest x (set_config_defaults (P.rest) c) s h))
        (λ k. Keeps-pure _)

  new_for_config-Kept : (c : P.rest.Config) → Keeps (Kept x) (new_for_config (P.rest) c)
  unfolding new_for_config
  new_for_config-Kept c =
      Keeps-bind (new_jenkins_for_config (P.rest) (limited (P.rest) c)) _
        (new_jenkins_for_config-Kept (limited (P.rest) c))
        λ k.
          Keeps-bind (call (P.rest.discovery_for_config (limited (P.rest) c))) _
            (Keeps-call _ (λ s h. laws.by_discovery x (limited (P.rest) c) s h)) (λ d. Keeps-pure _)

  get_jenkins_client-Kept : Keeps (Kept x) (get_jenkins_client P)
  unfolding get_jenkins_client
  get_jenkins_client-Kept =
      Keeps-bind _ _ (Keeps-wrap_err _ _ get_client_config-Kept) new_for_config-Kept

  abbrev added : Str → Str → ServiceAccount
  added name namespace = record {
    type_meta = record { kind = subject_kind; api_version = str "v1" };
    meta = record no_meta { name = name; namespace = namespace };
  }

  create_service_account_in-Kept :
      (name namespace : Str) → Keeps (Kept x) (create_service_account_in P name namespace)
  unfolding create_service_account_in
  create_service_account_in-Kept name namespace =
      Keeps-bind _ _ (Keeps-wrap_err _ _ get_clientset-Kept) λ k.
        Keeps-catch _ _
          (Keeps-bind {A = ServiceAccount} (call (P.get_service_account k namespace name))
            (λ a. pure a.meta.name) (Keeps-call _ (λ s h. laws.by_account x k namespace name s h))
            (λ a. Keeps-pure _))
          λ e. Keeps-wrap_err (str "creating service account") _ (
            Keeps-bind {A = ServiceAccount}
              (call (P.create_service_account k namespace (added name namespace)))
              (λ a. pure a.meta.name)
              (Keeps-call _ (λ s h. laws.by_new_account x k namespace (added name namespace) s h))
              (λ a. Keeps-pure _))

  with_subject-Kept :
      (k : P.Clientset) (b : ClusterRoleBinding) (namespace : Str) (o : Option Subject)
      → Keeps (Kept x) (with_subject P k b namespace o)
  unfolding with_subject
  with_subject-Kept k b namespace (some s) = Keeps-pure _
  with_subject-Kept k b namespace none =
      Keeps-bind _ _ (Keeps-wrap_err _ _ (create_service_account_in-Kept _ namespace)) λ a.
        Keeps-bind _ _ (Keeps-wrap_err _ _ (Keeps-call _ (λ s h. laws.by_binding x k _ s h)))
          (λ y. Keeps-pure _)

  with_binding-Kept :
      (k : P.Clientset) (role namespace : Str) (o : Option ClusterRoleBinding)
      → Keeps (Kept x) (with_binding P k role namespace o)
  unfolding with_binding bind_account
  with_binding-Kept k role namespace (some b) = with_subject-Kept k b namespace _
  with_binding-Kept k role namespace none = Keeps-raise _

  ensure_cluster_role_binding-Kept :
      (role namespace : Str) → Keeps (Kept x) (ensure_cluster_role_binding P role namespace)
  unfolding ensure_cluster_role_binding
  ensure_cluster_role_binding-Kept role namespace =
      Keeps-bind _ _ (Keeps-wrap_err _ _ get_clientset-Kept) λ k.
        Keeps-bind _ _ (Keeps-wrap_err _ _ (Keeps-call _ (λ s h. laws.by_bindings x k s h)))
          (λ bs. with_binding-Kept k role namespace _)

  -- A look-up that answers says that the resource is initialized.
  is_sso_initialized-Kept :
      (b : Bool) (s s' : P.Cluster) → Kept x s → is_sso_initialized P x s ≡ (ok b, s') → b ≡ true
  unfolding is_sso_initialized list ssos_of new_ssos jenkins_v1_of
  is_sso_initialized-Kept b s s' h e =
      let (k, s₁, got, rest) = bind-ok (wrap_err _ (get_jenkins_client P)) _ s s' e in
      let (l, s₂, listed, last) = bind-ok (wrap_err _ (call (listing k))) _ s₁ s' rest in
      sym ((pure-ok (initialized_of x.meta.name l.items) s₂ s' last).0)
      ∙ laws.served x k.jenkins_v1.rest_client l s₁ s₂ (kept_after k s₁ got) (
          call-ok (listing k) s₁ s₂
            (wrap_err-ok (str "listing SSO resources") (call (listing k)) s₁ s₂ listed))
    where
      listing : Clientset (P.rest) → Call P.Cluster SsoList
      listing k = P.rest.into_list (
          list_request (P.rest)
            (record { client = k.jenkins_v1.rest_client; ns = x.meta.namespace })
            (P.rest.no_list_options))

      kept_after :
          (k : Clientset (P.rest)) (s₁ : P.Cluster)
          → wrap_err (str "getting Jenkins client") (get_jenkins_client P) s ≡ (ok k, s₁)
          → Kept x s₁
      kept_after k s₁ got =
          subst (λ p. Kept x p.1) got
            ((Keeps-wrap_err (str "getting Jenkins client") _ get_jenkins_client-Kept).at s h)

module _ (P : Platform) (nil : (text : Str) → P.wrapf_nil text ≡ none) (clients : View P)
    (laws : DexLaws P clients) (Kept : Sso → P.Cluster → Type 0) (keeps : KeepsStored P Kept) where
  -- Where dex keeps `DexLaws`, wrapping a nil error gives nil and the cluster keeps a stored
  -- resource (`KeepsStored`), and an event about a resource that is not both deleted and initialized
  -- was handled with no error and changed dex: when the event is delivered again, to any handler and
  -- with no change of the cluster or dex before it, the binding of the role is ensured and the
  -- look-up of the resource answers, it is handled with no error, dex is as the first delivery left
  -- it, and the cluster is as the look-up left it.
  pub handle-redelivered :
      (h h' : Handler) (deleted : Bool) (sso : Sso) (w w' : World P) (u v : P.Cluster)
      (account : Str) (b : Bool)
      → (deleted && sso.status.initialized) ≡ false
      → handle P h (record { deleted = deleted; object = sso_object sso }) w ≡ (ok tt, w')
      → w'.dex ≢ w.dex
      → ensure_cluster_role_binding P h'.cluster_role_name sso.meta.namespace w'.cluster
        ≡ (ok account, u)
      → is_sso_initialized P sso u ≡ (ok b, v)
      → handle P h' (record { deleted = deleted; object = sso_object sso }) w'
        ≡ (ok tt, record w' { cluster = v })
  handle-redelivered h h' deleted sso w w' u v account b live first changed bound found =
      elim provisioned [
        | inl same ↦ absurd (changed same)
        | inr (c, d', created, new, elsewhere, published, (s, y, q)) ↦
            handle-initialized P h' deleted sso w' u v account live bound
              (found ∙ ap (λ x. (ok x, v)) (answer c.id y s q))
      ]
    where
      provisioned : Provisioned P nil clients laws sso w.dex w'
      provisioned =
          subst
            (λ d.
              if d
              then CleanedUp P nil clients laws sso w.dex w'
              else Provisioned P nil clients laws sso w.dex w')
            live (handle-settles P nil clients laws sso w.dex h deleted w w' refl first)

      answer :
          (id : Str) (y : Sso) (s : P.Cluster)
          → P.sdk_update_sso (initialized_sso P sso id) s ≡ (reply y, w'.cluster)
          → b ≡ true
      answer id y s q =
          unfold is_sso_initialized in
          is_sso_initialized-Kept P Kept keeps (initialized_sso P sso id) b u v
            (subst (λ p. Kept (initialized_sso P sso id) p.1) bound
              ((ensure_cluster_role_binding-Kept P Kept keeps (initialized_sso P sso id)
                  h'.cluster_role_name sso.meta.namespace).at
                w'.cluster (keeps.stored (initialized_sso P sso id) y s w'.cluster refl q)))
            found
