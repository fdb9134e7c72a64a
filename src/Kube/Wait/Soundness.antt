-- ===== src/Kube/Wait/Soundness.antt =====
-- What a wait that returned has seen.
use sso_operator.Base.{
  ℕ, ◌<◌, ◌≡◌, Bool, true, false, inl, inr, none, List, [], ◌∷◌, length, All, arith,
}
use sso_operator.Base.Text.{Str, str, same_eq}
use sso_operator.Base.Run.{Reply, reply, failed, ok}
use sso_operator.Base.Run.Inversion.{try-call-ok, catch-ok}
use sso_operator.Objects.{Pod, ContainerStatus, Job, JobCondition, Service}
use sso_operator.Platform.{Platform}
use sso_operator.Kube.Wait.{
  all_ready, all_running, first_incomplete, pods_running, wait_for_pods_with_label_running,
  service_there, wait_for_service, job_by_conditions, job_error, job_by_answer, service_by_answer,
  pods_by_answer, job_complete, wait_for_job_complete,
}
use sso_operator.Kube.Wait.Polling.{PollsSoundly, poll-ok, poll_immediate-ok}

abbrev pub IsRunning : Pod → Type 0
IsRunning p =
    (p.phase ≡ str "Running") × All (λ (cs : ContainerStatus). cs.ready ≡ true) p.container_statuses

pub all_ready-All :
    (statuses : List ContainerStatus)
    → all_ready statuses ≡ true
    → All (λ (cs : ContainerStatus). cs.ready ≡ true) statuses
unfolding all_ready
all_ready-All [] h = tt
all_ready-All (cs ∷ statuses) h = ground (arith, all_ready-All statuses)

all_running-All : (pods : List Pod) → all_running pods ≡ true → All IsRunning pods
unfolding all_running
all_running-All [] h = tt
all_running-All (p ∷ pods) h = ground (
  arith,
  same_eq p.phase (str "Running"),
  all_ready-All p.container_statuses,
  all_running-All pods,
)

first_incomplete-none :
    (conditions : List JobCondition)
    → first_incomplete conditions ≡ none
    → All (λ (c : JobCondition). c.condition_type ≡ str "Complete") conditions
unfolding first_incomplete
first_incomplete-none [] h = tt
first_incomplete-none (c ∷ conditions) h =
    ground (arith, same_eq c.condition_type (str "Complete"), first_incomplete-none conditions)

module _ (P : Platform) where
  open P use {Cluster, Clientset, list_pods, get_service, get_job, is_not_found, poll_immediate}

  pods_by_answer-true :
      (pods : List Pod) (u c' : Cluster)
      → pods_by_answer P (inl pods) u ≡ (ok true, c')
      → (u ≡ c') × (0 < length pods) × All IsRunning pods
  unfolding pods_by_answer
  pods_by_answer-true [] u c' h = absurd (ground arith)
  pods_by_answer-true (p ∷ pods) u c' h = ground (arith, all_running-All (p ∷ pods))

  pods_running-true :
      (client : Clientset) (ns label : Str) (c c' : Cluster)
      → pods_running P client ns label c ≡ (ok true, c')
      → (pods : List Pod) × (list_pods client ns label c ≡ (reply pods, c'))
        × (0 < length pods)
        × All IsRunning pods
  unfolding pods_running
  pods_running-true client ns label c c' h =
      elim (try-call-ok (list_pods client ns label) (pods_by_answer P) c c' h) [
        | inl (pods, u, q, k) ↦
            let (e, n, all) = pods_by_answer-true pods u c' k in (pods, rw e at q, n, all)
        | inr (e, u, q, k) ↦ absurd (unfold pods_by_answer in ground arith)
      ]

  -- Where polls try their condition until it holds, fails or they give up (`PollsSoundly`): when
  -- `WaitForPodsWithLabelRunning` returns with no error, its last request was a listing of the pods
  -- with one pod at least, and every pod of it was Running with all its containers ready.
  pub wait_for_pods_with_label_running_sound :
      PollsSoundly P
      → (client : Clientset) (ns label : Str) (timeout : ℕ) (c c' : Cluster)
      → wait_for_pods_with_label_running P client ns label timeout c ≡ (ok tt, c')
      → (u : Cluster) × (pods : List Pod) × (list_pods client ns label u ≡ (reply pods, c'))
        × (0 < length pods)
        × All IsRunning pods
  unfolding wait_for_pods_with_label_running
  wait_for_pods_with_label_running_sound sound client ns label timeout c c' h =
      let (u, k) = poll-ok P sound _ timeout _ c c' h in
      let (pods, q, n, all) = pods_running-true client ns label u c' k in (u, pods, q, n, all)

  job_by_conditions-true :
      (conditions : List JobCondition) (u c' : Cluster)
      → job_by_conditions P conditions u ≡ (ok true, c')
      → (u ≡ c')
        × (0 < length conditions)
        × All (λ (cond : JobCondition). cond.condition_type ≡ str "Complete") conditions
  unfolding job_by_conditions
  job_by_conditions-true [] u c' h = absurd (ground arith)
  job_by_conditions-true (x ∷ conditions) u c' h =
      ground (arith, first_incomplete-none (x ∷ conditions))

  job_complete-true :
      (client : Clientset) (ns name : Str) (c c' : Cluster)
      → job_complete P client ns name c ≡ (ok true, c')
      → (job : Job) × (get_job client ns name c ≡ (reply job, c'))
        × (0 < length job.conditions)
        × All (λ (cond : JobCondition). cond.condition_type ≡ str "Complete") job.conditions
  unfolding job_complete
  job_complete-true client ns name c c' h =
      elim (try-call-ok (get_job client ns name) (job_by_answer P) c c' h) [
        | inl (job, u, q, k) ↦
            let (e, n, all) =
              job_by_conditions-true job.conditions u c' (unfold job_by_answer in k) in
            (job, rw e at q, n, all)
        | inr (e, u, q, k) ↦ absurd (unfold job_by_answer job_error in ground arith)
      ]

  -- Where polls try their condition until it holds, fails or they give up (`PollsSoundly`): when
  -- `WaitForJobComplete` returns with no error, its last request was for the job, which had one
  -- condition at least, and each of its conditions was of type Complete.
  pub wait_for_job_complete_sound :
      PollsSoundly P
      → (client : Clientset) (ns name : Str) (interval timeout : ℕ) (c c' : Cluster)
      → wait_for_job_complete P client ns name interval timeout c ≡ (ok tt, c')
      → (u : Cluster) × (job : Job) × (get_job client ns name u ≡ (reply job, c'))
        × (0 < length job.conditions)
        × All (λ (cond : JobCondition). cond.condition_type ≡ str "Complete") job.conditions
  unfolding wait_for_job_complete
  wait_for_job_complete_sound sound client ns name interval timeout c c' h =
      elim (catch-ok (poll_immediate interval timeout (job_complete P client ns name)) _ c c' h) [
        | inl k ↦
            let (u, k') = poll_immediate-ok P sound interval timeout _ c c' k in
            let (job, q, n, all) = job_complete-true client ns name u c' k' in (u, job, q, n, all)
        | inr (e, u, q, k) ↦ absurd (ground arith)
      ]

  -- What the last answer of the API was, by what the wait was for.
  abbrev pub Settled : Bool → Reply Service → Type 0
  Settled exist (reply service) = exist ≡ true
  Settled exist (failed e) = (exist ≡ false) × (is_not_found e ≡ true)

  service_there-true :
      (client : Clientset) (ns name : Str) (exist : Bool) (c c' : Cluster)
      → service_there P client ns name exist c ≡ (ok true, c')
      → (r : Reply Service) × (get_service client ns name c ≡ (r, c')) × Settled exist r
  unfolding service_there
  service_there-true client ns name exist c c' h =
      elim (try-call-ok (get_service client ns name) (service_by_answer P exist) c c' h) [
        | inl (s, u, q, k) ↦ (
          reply s,
          unfold service_by_answer in ground arith,
          unfold service_by_answer in ground arith,
        )
        | inr (e, u, q, k) ↦ (
          failed e,
          unfold service_by_answer in ground arith,
          unfold service_by_answer in ground arith,
        )
      ]

  -- Where polls try their condition until it holds, fails or they give up (`PollsSoundly`): when
  -- `WaitForService` returns with no error, the last answer of the API was the service if the
  -- service was to appear, and Not Found if it was to disappear.
  pub wait_for_service_sound :
      PollsSoundly P
      → (client : Clientset) (ns name : Str) (exist : Bool) (interval timeout : ℕ) (c c' : Cluster)
      → wait_for_service P client ns name exist interval timeout c ≡ (ok tt, c')
      → (u : Cluster) × (r : Reply Service) × (get_service client ns name u ≡ (r, c'))
        × Settled exist r
  unfolding wait_for_service
  wait_for_service_sound sound client ns name exist interval timeout c c' h =
      elim (catch-ok (poll_immediate interval timeout (service_there P client ns name exist)) _ c c'
        h) [
          | inl k ↦
              let (u, k') = poll_immediate-ok P sound interval timeout _ c c' k in
              let (r, q, s) = service_there-true client ns name exist u c' k' in (u, r, q, s)
          | inr (e, u, q, k) ↦ absurd (ground arith)
        ]
