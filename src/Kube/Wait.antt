-- ===== src/Kube/Wait.antt =====
-- The waits of pkg/kubernetes/wait.go. The conditions are those that the code hands to the polls.
pub mod Polling
pub mod Soundness
pub mod Readiness
use sso_operator.Base.{
  ℕ, ◌*◌, ◌+◌, Bool, true, false, not, ◌&&◌, ◌||◌, ◌⊎◌, inl, inr, Option, none, some, List, [], ◌∷◌,
  ◌++◌, length, ◌==◌, leb, if◌then◌else◌,
}
use sso_operator.Base.Text.{Str, str, same}
use sso_operator.Base.Run.{
  Error, Run, pure, raise, crash, call, catch, try, message, wrap_err, deref, ◌>>=◌, ◌>>◌,
}
use sso_operator.Objects.{
  Pod, ContainerStatus, Job, JobCondition, Endpoints, Deployment, Service, WatchEvent,
}
use sso_operator.Platform.{Platform}

-- A duration in nanoseconds.
abbrev pub millisecond : ℕ
millisecond = 1_000_000

abbrev pub second : ℕ
second = 1000 * millisecond

abbrev pub minute : ℕ
minute = 60 * second

unfoldable pub all_ready : List ContainerStatus → Bool
all_ready [] = true
all_ready (cs ∷ statuses) = cs.ready && all_ready statuses

-- The loop over the pods of `WaitForPodsWithLabelRunning`.
unfoldable pub all_running : List Pod → Bool
unfolding all_ready
all_running [] = true
all_running (p ∷ pods) =
    same p.phase (str "Running") && (all_ready p.container_statuses && all_running pods)

-- The loop over the conditions of `WaitForJobComplete`: the first that is not of type Complete.
unfoldable pub first_incomplete : List JobCondition → Option JobCondition
first_incomplete [] = none
first_incomplete (c ∷ conditions) =
    let rest = first_incomplete conditions in
    if same c.condition_type (str "Complete") then rest else some c

unfoldable pub count_endpoints_num : List (List Str) → ℕ
count_endpoints_num [] = 0
count_endpoints_num (addresses ∷ subsets) = length addresses + count_endpoints_num subsets

unfoldable pub any_endpoints : Str → ℕ → List Endpoints → Bool
unfolding count_endpoints_num
any_endpoints name expected [] = false
any_endpoints name expected (e ∷ items) =
    (same e.meta.name name && (count_endpoints_num e.subsets == expected))
    || any_endpoints name expected items

module _ (P : Platform) where
  open P use {
    Cluster, Clientset, get_pod, list_pods, get_service, get_job, list_endpoints, poll,
    poll_immediate, watch_deployments, watch_until, is_not_found, is_timeout, is_server_timeout,
    is_too_many_requests, is_internal_error, error_text,
  }

  unfoldable pub is_retryable_api_error : Error → Bool
  is_retryable_api_error e =
      is_timeout e || (is_server_timeout e || (is_too_many_requests e || is_internal_error e))

  -- WaitForPodReady
  unfoldable pub pod_scheduled : Clientset → Str → Str → Run Cluster Bool
  pod_scheduled client ns name =
      catch (call (get_pod client ns name) >> pure true) (λ e. pure false)

  -- The switch on the phase.
  unfoldable pub ready_by_phase : Pod → Run Cluster Bool
  unfolding all_ready
  ready_by_phase pod =
      if same pod.phase (str "Running")
      then pure (all_ready pod.container_statuses)
      else if same pod.phase (str "Succeeded") || same pod.phase (str "Failed")
      then raise (message (str "pod already in terminal phase: " ++ pod.phase))
      else if same pod.phase (str "Unknown") || same pod.phase (str "Pending")
      then pure false
      else raise (message (str "unknown phase: " ++ pod.phase))

  unfoldable pub pod_ready : Clientset → Str → Str → Run Cluster Bool
  unfolding ready_by_phase
  pod_ready client ns name = do
    pod ← catch (call (get_pod client ns name)) (λ e. raise (message (str "not found: " ++ name)))
    ready_by_phase pod

  unfoldable pub wait_for_pod_ready : Clientset → Str → Str → Run Cluster (Unit {0})
  unfolding pod_scheduled pod_ready
  wait_for_pod_ready client ns name = do
    poll_immediate second (2 * minute) (pod_scheduled client ns name)
    poll_immediate second (10 * minute) (pod_ready client ns name)

  -- WaitForPodComplete
  unfoldable pub complete_by_phase : Pod → Run Cluster Bool
  complete_by_phase pod =
      if same pod.phase (str "Succeeded")
      then pure true
      else if same pod.phase (str "Running")
      then pure false
      else if same pod.phase (str "Failed")
      then raise (message (str "pod already in terminal phase: " ++ pod.phase))
      else if same pod.phase (str "Unknown") || same pod.phase (str "Pending")
      then pure false
      else raise (message (str "unknown phase: " ++ pod.phase))

  unfoldable pub pod_complete : Clientset → Str → Str → Run Cluster Bool
  unfolding complete_by_phase
  pod_complete client ns name = do
    found ← try (call (get_pod client ns name))
    elim found [ inr e ↦ pure false | inl pod ↦ complete_by_phase pod ]

  unfoldable pub wait_for_pod_complete : Clientset → Str → Str → ℕ → Run Cluster (Unit {0})
  unfolding pod_complete
  wait_for_pod_complete client ns name timeout =
      poll_immediate (500 * millisecond) timeout (pod_complete client ns name)

  -- WaitForPodsWithLabelRunning
  unfoldable pub pods_by_answer : List Pod ⊎ Error → Run Cluster Bool
  unfolding all_running
  pods_by_answer (inr e) = pure false
  pods_by_answer (inl pods) = if length pods == 0 then pure false else pure (all_running pods)

  unfoldable pub pods_running : Clientset → Str → Str → Run Cluster Bool
  unfolding pods_by_answer
  pods_running client ns label = do
    found ← try (call (list_pods client ns label))
    pods_by_answer found

  unfoldable pub wait_for_pods_with_label_running :
      Clientset → Str → Str → ℕ → Run Cluster (Unit {0})
  unfolding pods_running
  wait_for_pods_with_label_running client ns label timeout =
      poll (3 * second) timeout (pods_running client ns label)

  -- WaitForDeploymentToStabilize; `*(dp.Spec.Replicas)` panics at nil, and is read only where the
  -- tests before it hold, and again by the message of a deployment that is not stable. `gone` is the
  -- error that `apierrs.NewNotFound` makes.
  unfoldable pub is_stable : Str → Str → Deployment → Run Cluster Bool
  is_stable name ns dp =
      if same dp.meta.name name
        && (same dp.meta.namespace ns && leb dp.generation dp.observed_generation)
      then (do replicas ← deref dp.spec.replicas; pure (replicas == dp.status_replicas))
      else pure false

  unfoldable pub deployment_stable : Str → Str → Error → WatchEvent → Run Cluster Bool
  unfolding is_stable
  deployment_stable name ns gone event =
      if same event.event_type (str "DELETED") then raise gone else elim event.deployment [
        | none ↦ pure false
        | some dp ↦ do
          stable ← is_stable name ns dp
          if stable then pure true else (deref dp.spec.replicas >> pure false)
      ]

  unfoldable pub wait_for_deployment_to_stabilize :
      Clientset → Str → Str → Error → ℕ → Run Cluster (Unit {0})
  unfolding deployment_stable
  wait_for_deployment_to_stabilize client ns name gone timeout = do
    w ← call (watch_deployments client ns name)
    watch_until timeout w (deployment_stable name ns gone)

  -- WaitForService
  unfoldable pub service_error : Bool → Error → Run Cluster Bool
  unfolding is_retryable_api_error
  service_error exist e =
      if is_not_found e
      then pure (not exist)
      else if not (is_retryable_api_error e)
      then raise e
      else pure false

  unfoldable pub service_by_answer : Bool → Service ⊎ Error → Run Cluster Bool
  unfolding service_error
  service_by_answer exist (inl service) = pure exist
  service_by_answer exist (inr e) = service_error exist e

  unfoldable pub service_there : Clientset → Str → Str → Bool → Run Cluster Bool
  unfolding service_by_answer
  service_there client ns name exist = do
    found ← try (call (get_service client ns name))
    service_by_answer exist found

  unfoldable pub wait_for_service : Clientset → Str → Str → Bool → ℕ → ℕ → Run Cluster (Unit {0})
  unfolding service_there
  wait_for_service client ns name exist interval timeout =
      catch (poll_immediate interval timeout (service_there client ns name exist)) λ e. raise (
        message (
          str "error waiting for service "
          ++ (ns
              ++ (str "/"
                  ++ (name
                      ++ (str " "
                          ++ ((if exist then str "to appear" else str "to disappear")
                              ++ (str ": " ++ error_text e))))))))

  -- WaitForServiceEndpointsNum
  unfoldable pub endpoints_there : Clientset → Str → Str → ℕ → Run Cluster Bool
  unfolding any_endpoints
  endpoints_there client ns name expected = do
    items ← call (list_endpoints client ns)
    pure (any_endpoints name expected items)

  unfoldable pub wait_for_service_endpoints_num :
      Clientset → Str → Str → ℕ → ℕ → ℕ → Run Cluster (Unit {0})
  unfolding endpoints_there
  wait_for_service_endpoints_num client ns name expected interval timeout =
      poll interval timeout (endpoints_there client ns name expected)

  -- WaitForJobComplete
  unfoldable pub job_by_conditions : List JobCondition → Run Cluster Bool
  unfolding first_incomplete
  job_by_conditions [] = pure false
  job_by_conditions (c ∷ conditions) = elim (first_incomplete (c ∷ conditions)) [
    | none ↦ pure true
    | some bad ↦ raise (message (str "job failed: " ++ bad.text))
  ]

  unfoldable pub job_error : Error → Run Cluster Bool
  unfolding is_retryable_api_error
  job_error e =
      if is_not_found e
      then pure false
      else if not (is_retryable_api_error e)
      then raise e
      else pure false

  unfoldable pub job_by_answer : Job ⊎ Error → Run Cluster Bool
  unfolding job_by_conditions job_error
  job_by_answer (inr e) = job_error e
  job_by_answer (inl job) = job_by_conditions job.conditions

  unfoldable pub job_complete : Clientset → Str → Str → Run Cluster Bool
  unfolding job_by_answer
  job_complete client ns name = do found ← try (call (get_job client ns name)); job_by_answer found

  unfoldable pub wait_for_job_complete : Clientset → Str → Str → ℕ → ℕ → Run Cluster (Unit {0})
  unfolding job_complete
  wait_for_job_complete client ns name interval timeout =
      catch (poll_immediate interval timeout (job_complete client ns name)) λ e. raise (
        message (
          str "error waiting for job "
          ++ (ns ++ (str "/" ++ (name ++ (str ": " ++ error_text e))))))
