-- ===== src/Operator/Health/Cluster.antt =====
-- The clients, the role's binding, the look-ups and the waits on a healthy cluster.
use sso_operator.Base.{
  ℕ, ◌≡◌, ◌≢◌, refl, subst, arith, length, ◌==◌, true, false, Option, none, some, List, [], ◌∷◌,
  inl,
}
use sso_operator.Base.Text.{Str}
use sso_operator.Base.Run.{call}
use sso_operator.Base.Run.Succeeds.{
  Succeeds, Succeeds-bind, Succeeds-pure, Succeeds-catch, Succeeds-wrap_err, Succeeds-call,
  Succeeds-catch_map, Succeeds-try, Succeeds-weaken, Succeeds-if,
}
use sso_operator.Objects.{Subject, ClusterRoleBinding, JobCondition, Pod}
use sso_operator.Api.{Sso}
use sso_operator.Client.Clientset.{
  new_for_config, new_jenkins_for_config, set_config_defaults, limited, jenkins_v1_of, ssos_of,
}
use sso_operator.Client.Typed.{list, new_ssos}
use sso_operator.Platform.{Platform}
use sso_operator.Kube.Client.{get_client_config, get_clientset, get_jenkins_client}
use sso_operator.Kube.Rbac.{
  ensure_cluster_role_binding, with_binding, bind_account, with_subject, create_service_account_in,
}
use sso_operator.Kube.Resources.{is_sso_initialized, find_ingress_hosts, found_or}
use sso_operator.Kube.Wait.{
  all_running, first_incomplete, pods_by_answer, pods_running, wait_for_pods_with_label_running,
  service_by_answer, service_error, service_there, wait_for_service, job_by_conditions, job_error,
  job_by_answer, job_complete, wait_for_job_complete,
}
use sso_operator.Operator.Health.{Healthy, Anything}

module _ (P : Platform) (I Ready : P.Cluster → Type 0) (role : Str) (sso : Sso)
    (good : Healthy P I Ready role sso) where
  get_client_config-Succeeds : Succeeds I I (get_client_config P) Anything
  unfolding get_client_config
  get_client_config-Succeeds = Succeeds-catch _ _ (Succeeds-call (P.client_config) good.config)

  pub get_clientset-Succeeds : Succeeds I I (get_clientset P) Anything
  unfolding get_clientset
  get_clientset-Succeeds =
      Succeeds-bind _ _ (Succeeds-wrap_err _ _ get_client_config-Succeeds)
        (λ c _. Succeeds-call (P.new_for_config c) (good.clientset c))

  new_jenkins_for_config-Succeeds :
      (c : P.rest.Config) → Succeeds I I (new_jenkins_for_config (P.rest) c) Anything
  unfolding new_jenkins_for_config
  new_jenkins_for_config-Succeeds c =
      Succeeds-bind (call (P.rest.rest_client_for (set_config_defaults (P.rest) c))) _
        (Succeeds-call _ (good.rest_client _)) (λ k _. Succeeds-pure _ tt)

  new_for_config-Succeeds : (c : P.rest.Config) → Succeeds I I (new_for_config (P.rest) c) Anything
  unfolding new_for_config
  new_for_config-Succeeds c =
      Succeeds-bind (new_jenkins_for_config (P.rest) (limited (P.rest) c)) _
        (new_jenkins_for_config-Succeeds _)
        λ k _.
          Succeeds-bind (call (P.rest.discovery_for_config (limited (P.rest) c))) _
            (Succeeds-call _ (good.discovery _)) (λ d _. Succeeds-pure _ tt)

  get_jenkins_client-Succeeds : Succeeds I I (get_jenkins_client P) Anything
  unfolding get_jenkins_client
  get_jenkins_client-Succeeds =
      Succeeds-bind _ _ (Succeeds-wrap_err _ _ get_client_config-Succeeds)
        (λ c _. new_for_config-Succeeds c)

  pub is_sso_initialized-Succeeds : Succeeds I I (is_sso_initialized P sso) (λ b. b ≡ false)
  unfolding is_sso_initialized list ssos_of new_ssos jenkins_v1_of
  is_sso_initialized-Succeeds =
      Succeeds-bind _ _ (Succeeds-wrap_err _ _ get_jenkins_client-Succeeds) λ k _.
        Succeeds-bind _ _
          (Succeeds-wrap_err _ _ (Succeeds-call _ (good.lists_ssos k.jenkins_v1.rest_client)))
          (λ l e. Succeeds-pure _ e)

  pub find_ingress_hosts-Succeeds :
      Succeeds I I (find_ingress_hosts P good.app_name sso.meta.namespace) (λ hosts. hosts ≢ [])
  unfolding find_ingress_hosts found_or
  find_ingress_hosts-Succeeds =
      Succeeds-bind _ _ (Succeeds-wrap_err _ _ get_clientset-Succeeds) λ k _.
        Succeeds-bind _ _ (Succeeds-wrap_err _ _ (Succeeds-call _ (good.lists_ingresses k)))
          (λ l (host, hosts, e). rw e (Succeeds-pure (host ∷ hosts) (λ p. cc)))

  create_service_account_in-Succeeds :
      (name ns : Str) → Succeeds I I (create_service_account_in P name ns) Anything
  unfolding create_service_account_in
  create_service_account_in-Succeeds name ns =
      Succeeds-bind _ _ (Succeeds-wrap_err _ _ get_clientset-Succeeds) λ k _.
        Succeeds-catch_map (P.get_service_account k ns name) (λ sa. sa.meta.name) _
          (good.finds_account k ns name) (λ sa _. tt)
          λ e _. Succeeds-wrap_err _ _ (
            Succeeds-bind _ _ (Succeeds-call _ (good.creates_account k ns _))
              (λ sa _. Succeeds-pure sa.meta.name tt))

  with_subject-Succeeds :
      (k : P.Clientset) (b : ClusterRoleBinding) (ns : Str) (found : Option Subject)
      → Succeeds I I (with_subject P k b ns found) Anything
  unfolding with_subject
  with_subject-Succeeds k b ns (some s) = Succeeds-pure s.name tt
  with_subject-Succeeds k b ns none =
      Succeeds-bind _ _ (Succeeds-wrap_err _ _ (create_service_account_in-Succeeds _ ns)) λ a _.
        Succeeds-bind _ _ (Succeeds-wrap_err _ _ (Succeeds-call _ (good.binds k _)))
          (λ b' _. Succeeds-pure a tt)

  pub ensure_cluster_role_binding-Succeeds :
      (ns : Str) → Succeeds I I (ensure_cluster_role_binding P role ns) Anything
  unfolding ensure_cluster_role_binding with_binding bind_account
  ensure_cluster_role_binding-Succeeds ns =
      Succeeds-bind _ _ (Succeeds-wrap_err _ _ get_clientset-Succeeds) λ k _.
        Succeeds-bind _ _ (Succeeds-wrap_err _ _ (Succeeds-call _ (good.lists_bindings k)))
          (λ bs (b, e). rw e (with_subject-Succeeds k b ns _))

  service_there-Succeeds :
      (k : P.Clientset) (ns name : Str) → Succeeds I I (service_there P k ns name true) Anything
  unfolding service_there service_by_answer service_error
  service_there-Succeeds k ns name =
      Succeeds-try _ _ (good.gets_service k ns name) (λ s _. Succeeds-pure true tt)
        (λ e h. rw h (Succeeds-pure false tt))

  service_there-Ready :
      (k : P.Clientset) (ns name : Str)
      → Succeeds (λ c. I c × Ready c) I (service_there P k ns name true) (λ b. b ≡ true)
  unfolding service_there service_by_answer
  service_there-Ready k ns name =
      Succeeds-try _ _ (good.serves k ns name) (λ s _. Succeeds-pure true refl) (λ e h. absurd h)

  pub wait_for_service-Succeeds :
      (k : P.Clientset) (ns name : Str) (interval timeout : ℕ)
      → Succeeds I I (wait_for_service P k ns name true interval timeout) Anything
  unfolding wait_for_service
  wait_for_service-Succeeds k ns name interval timeout = Succeeds-catch _ _ (
      good.polls_immediate interval timeout _ (service_there-Succeeds k ns name)
        (service_there-Ready k ns name))

  pods_by_answer-Succeeds : (pods : List Pod) → Succeeds I I (pods_by_answer P (inl pods)) Anything
  unfolding pods_by_answer
  pods_by_answer-Succeeds pods = Succeeds-if _ _ _ (Succeeds-pure _ tt) (Succeeds-pure _ tt)

  some_pods-Succeeds :
      (p : Pod) (pods : List Pod)
      → all_running (p ∷ pods) ≡ true
      → Succeeds I I (pods_by_answer P (inl (p ∷ pods))) (λ b. b ≡ true)
  unfolding pods_by_answer
  some_pods-Succeeds p pods h = rw some_pods (Succeeds-pure _ h)
    where
      some_pods : (length (p ∷ pods) == 0) ≡ false
      some_pods = ground arith

  pods_running-Succeeds :
      (k : P.Clientset) (ns label : Str) → Succeeds I I (pods_running P k ns label) Anything
  unfolding pods_running pods_by_answer
  pods_running-Succeeds k ns label =
      Succeeds-try _ _ (good.lists_pods k ns label) (λ pods _. pods_by_answer-Succeeds pods)
        (λ e _. Succeeds-pure false tt)

  pods_running-Ready :
      (k : P.Clientset) (ns label : Str)
      → Succeeds (λ c. I c × Ready c) I (pods_running P k ns label) (λ b. b ≡ true)
  unfolding pods_running pods_by_answer
  pods_running-Ready k ns label =
      Succeeds-try _ _ (good.runs_pods k ns label)
        (λ pods (p, more, e, h).
          rw e (some_pods-Succeeds p more (subst (λ l. all_running l ≡ true) e h)))
        (λ e h. absurd h)

  pub wait_for_pods-Succeeds :
      (k : P.Clientset) (ns label : Str) (timeout : ℕ)
      → Succeeds I I (wait_for_pods_with_label_running P k ns label timeout) Anything
  unfolding wait_for_pods_with_label_running
  wait_for_pods-Succeeds k ns label timeout =
      good.polls _ timeout _ (pods_running-Succeeds k ns label) (pods_running-Ready k ns label)

  -- The conditions of a job of which none says that it failed.
  job_by_conditions-Succeeds :
      (conditions : List JobCondition)
      → first_incomplete conditions ≡ none
      → Succeeds I I (job_by_conditions P conditions) (λ b. (conditions ≢ []) → b ≡ true)
  unfolding job_by_conditions
  job_by_conditions-Succeeds [] e = Succeeds-pure false (λ n. absurd (n refl))
  job_by_conditions-Succeeds (c ∷ conditions) e =
      rw (e, job_by_conditions) (Succeeds-pure true (λ n. refl))

  job_complete-Succeeds :
      (k : P.Clientset) (ns name : Str) → Succeeds I I (job_complete P k ns name) Anything
  unfolding job_complete job_by_answer job_error
  job_complete-Succeeds k ns name =
      Succeeds-try _ _ (good.gets_job k ns name)
        (λ j e. Succeeds-weaken _ (λ b _. tt) (job_by_conditions-Succeeds j.conditions e))
        (λ e h. rw h (Succeeds-pure false tt))

  job_complete-Ready :
      (k : P.Clientset) (ns name : Str)
      → Succeeds (λ c. I c × Ready c) I (job_complete P k ns name) (λ b. b ≡ true)
  unfolding job_complete job_by_answer
  job_complete-Ready k ns name =
      Succeeds-try _ _ (good.completes_job k ns name)
        (λ j (n, e). Succeeds-weaken _ (λ b f. f n) (job_by_conditions-Succeeds j.conditions e))
        (λ e h. absurd h)

  pub wait_for_job_complete-Succeeds :
      (k : P.Clientset) (ns name : Str) (interval timeout : ℕ)
      → Succeeds I I (wait_for_job_complete P k ns name interval timeout) Anything
  unfolding wait_for_job_complete
  wait_for_job_complete-Succeeds k ns name interval timeout = Succeeds-catch _ _ (
      good.polls_immediate interval timeout _ (job_complete-Succeeds k ns name)
        (job_complete-Ready k ns name))
