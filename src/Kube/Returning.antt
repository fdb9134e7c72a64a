-- ===== src/Kube/Returning.antt =====
-- The queries and the waits of pkg/kubernetes that the handler calls: no panic of their own.
use sso_operator.Base.{
  ℕ, ◌≢◌, ap, Bool, true, ◌⊎◌, inl, inr, Option, none, some, List, [], ◌∷◌, Option-cases,
}
use sso_operator.Base.Text.{Str}
use sso_operator.Base.Run.{Error, Outcome, panic, Run}
use sso_operator.Base.Run.Returns.{Returns, Returns-pure, Returns-raise, returns_rules}
use sso_operator.Objects.{Subject, ClusterRoleBinding, Pod, Service, Job, JobCondition}
use sso_operator.Api.{Sso}
use sso_operator.Client.Clientset.{new_for_config, new_jenkins_for_config}
use sso_operator.Platform.{Platform}
use sso_operator.Kube.Client.{get_client_config, get_clientset, get_jenkins_client}
use sso_operator.Kube.Rbac.{
  ensure_cluster_role_binding, with_binding, bind_account, with_subject, create_service_account_in,
}
use sso_operator.Kube.Resources.{is_sso_initialized, find_ingress_hosts, found_or}
use sso_operator.Kube.Wait.{
  first_incomplete, pods_by_answer, pods_running, wait_for_pods_with_label_running,
  service_by_answer, service_error, service_there, wait_for_service, job_by_conditions, job_error,
  job_by_answer, job_complete, wait_for_job_complete,
}
use sso_operator.Kube.Wait.Polling.{
  Polls, passed, refused, crashed, gave_up, sleeps, again, PollsSoundly,
}

module _ (P : Platform) where
  get_client_config-Returns : Returns (get_client_config P)
  unfolding get_client_config
  get_client_config-Returns = search returns_rules

  pub get_clientset-Returns : Returns (get_clientset P)
  unfolding get_clientset
  get_clientset-Returns = search (returns_rules, get_client_config-Returns)

  get_jenkins_client-Returns : Returns (get_jenkins_client P)
  unfolding get_jenkins_client new_for_config new_jenkins_for_config
  get_jenkins_client-Returns = search (returns_rules, get_client_config-Returns)

  pub is_sso_initialized-Returns : (sso : Sso) → Returns (is_sso_initialized P sso)
  unfolding is_sso_initialized
  is_sso_initialized-Returns sso = search (returns_rules, get_jenkins_client-Returns)

  found_or-Returns : (name : Str) (o : Option (List Str)) → Returns (found_or P name o)
  unfolding found_or
  found_or-Returns name none = search returns_rules
  found_or-Returns name (some hosts) = search returns_rules

  pub find_ingress_hosts-Returns :
      (name namespace : Str) → Returns (find_ingress_hosts P name namespace)
  unfolding find_ingress_hosts
  find_ingress_hosts-Returns name namespace =
      search (returns_rules, get_clientset-Returns, found_or-Returns)

  create_service_account_in-Returns :
      (name namespace : Str) → Returns (create_service_account_in P name namespace)
  unfolding create_service_account_in
  create_service_account_in-Returns name namespace = search (returns_rules, get_clientset-Returns)

  with_subject-Returns :
      (k : P.Clientset) (b : ClusterRoleBinding) (namespace : Str) (s : Option Subject)
      → Returns (with_subject P k b namespace s)
  unfolding with_subject
  with_subject-Returns k b namespace (some s) = search returns_rules
  with_subject-Returns k b namespace none =
      search (returns_rules, create_service_account_in-Returns)

  with_binding-Returns :
      (k : P.Clientset) (role namespace : Str) (b : Option ClusterRoleBinding)
      → Returns (with_binding P k role namespace b)
  unfolding with_binding bind_account
  with_binding-Returns k role namespace (some b) = search with_subject-Returns
  with_binding-Returns k role namespace none = search returns_rules

  pub ensure_cluster_role_binding-Returns :
      (role namespace : Str) → Returns (ensure_cluster_role_binding P role namespace)
  unfolding ensure_cluster_role_binding
  ensure_cluster_role_binding-Returns role namespace =
      search (returns_rules, get_clientset-Returns, with_binding-Returns)

  service_by_answer-Returns :
      (exist : Bool) (answer : Service ⊎ Error) → Returns (service_by_answer P exist answer)
  unfolding service_by_answer service_error
  service_by_answer-Returns exist (inl s) = search returns_rules
  service_by_answer-Returns exist (inr e) = search returns_rules

  service_there-Returns :
      (k : P.Clientset) (ns name : Str) (exist : Bool) → Returns (service_there P k ns name exist)
  unfolding service_there
  service_there-Returns k ns name exist = search (returns_rules, service_by_answer-Returns)

  pods_by_answer-Returns : (answer : List Pod ⊎ Error) → Returns (pods_by_answer P answer)
  unfolding pods_by_answer
  pods_by_answer-Returns (inl pods) = search returns_rules
  pods_by_answer-Returns (inr e) = search returns_rules

  pods_running-Returns : (k : P.Clientset) (ns label : Str) → Returns (pods_running P k ns label)
  unfolding pods_running
  pods_running-Returns k ns label = search (returns_rules, pods_by_answer-Returns)

  job_by_conditions-Returns :
      (conditions : List JobCondition) → Returns (job_by_conditions P conditions)
  unfolding job_by_conditions
  job_by_conditions-Returns [] = search returns_rules
  job_by_conditions-Returns (c ∷ conditions) =
      elim (Option-cases (first_incomplete (c ∷ conditions))) [
        | inl e ↦ rw (e, job_by_conditions) (Returns-pure true)
        | inr (bad, e) ↦ rw (e, job_by_conditions) (Returns-raise _)
      ]

  job_by_answer-Returns : (answer : Job ⊎ Error) → Returns (job_by_answer P answer)
  unfolding job_by_answer job_error
  job_by_answer-Returns (inl job) = search job_by_conditions-Returns
  job_by_answer-Returns (inr e) = search returns_rules

  job_complete-Returns : (k : P.Clientset) (ns name : Str) → Returns (job_complete P k ns name)
  unfolding job_complete
  job_complete-Returns k ns name = search (returns_rules, job_by_answer-Returns)

-- A poll panics where its condition does.
Polls-Returns :
    {S : Type 0} (condition : Run S Bool) {r : Outcome (Unit {0})} {t s : S}
    → Returns condition
    → Polls condition r t s
    → r ≢ panic
Polls-Returns condition rc (passed h p) e = cc
Polls-Returns condition rc (refused x h p) e = cc
Polls-Returns condition rc (crashed {s} h p) e = rc.at s (ap (λ x. x.0) h)
Polls-Returns condition rc (gave_up x p) e = cc
Polls-Returns condition rc (sleeps p) e = Polls-Returns condition rc p e
Polls-Returns condition rc (again h p) e = Polls-Returns condition rc p e

module _ (P : Platform) (sound : PollsSoundly P) where
  poll-Returns :
      (interval timeout : ℕ) (condition : Run P.Cluster Bool)
      → Returns condition
      → Returns (P.poll interval timeout condition)
  poll-Returns interval timeout condition rc = record {
    at = λ s. Polls-Returns condition rc (sound.polls interval timeout condition s);
  }

  poll_immediate-Returns :
      (interval timeout : ℕ) (condition : Run P.Cluster Bool)
      → Returns condition
      → Returns (P.poll_immediate interval timeout condition)
  poll_immediate-Returns interval timeout condition rc = record {
    at = λ s. Polls-Returns condition rc (sound.polls_immediate interval timeout condition s);
  }

  pub wait_for_service-Returns :
      (k : P.Clientset) (ns name : Str) (exist : Bool) (interval timeout : ℕ)
      → Returns (wait_for_service P k ns name exist interval timeout)
  unfolding wait_for_service
  wait_for_service-Returns k ns name exist interval timeout =
      search (returns_rules, poll_immediate-Returns, service_there-Returns)

  pub wait_for_pods-Returns :
      (k : P.Clientset) (ns label : Str) (timeout : ℕ)
      → Returns (wait_for_pods_with_label_running P k ns label timeout)
  unfolding wait_for_pods_with_label_running
  wait_for_pods-Returns k ns label timeout = search (poll-Returns, pods_running-Returns)

  pub wait_for_job_complete-Returns :
      (k : P.Clientset) (ns name : Str) (interval timeout : ℕ)
      → Returns (wait_for_job_complete P k ns name interval timeout)
  unfolding wait_for_job_complete
  wait_for_job_complete-Returns k ns name interval timeout =
      search (returns_rules, poll_immediate-Returns, job_complete-Returns)
