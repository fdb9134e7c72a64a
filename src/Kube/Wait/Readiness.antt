-- ===== src/Kube/Wait/Readiness.antt =====
-- What a wait for a pod or for endpoints has seen.
use sso_operator.Base.{
  ℕ, ◌≡◌, true, inl, inr, List, [], ◌∷◌, IsIn, Bool-cases, arith, ◌==◌, ==_iff, ◌&&◌, refl, subst,
  ◌*◌, ◌++◌,
}
use sso_operator.Base.Text.{Str, str, same, same_eq}
use sso_operator.Base.Run.{reply, ok, call, catch, raise, message}
use sso_operator.Base.Run.Inversion.{bind-ok, catch-ok, call-ok, pure-ok}
use sso_operator.Objects.{Pod, Endpoints}
use sso_operator.Platform.{Platform}
use sso_operator.Kube.Wait.{
  second, minute, ready_by_phase, pod_scheduled, pod_ready, wait_for_pod_ready, count_endpoints_num,
  any_endpoints, endpoints_there, wait_for_service_endpoints_num,
}
use sso_operator.Kube.Wait.Polling.{PollsSoundly, poll-ok, poll_immediate-ok}
use sso_operator.Kube.Wait.Soundness.{IsRunning, all_ready-All}

any_endpoints-IsIn :
    (name : Str) (n : ℕ) (items : List Endpoints)
    → any_endpoints name n items ≡ true
    → (e : Endpoints) × IsIn e items × (e.meta.name ≡ name) × (count_endpoints_num e.subsets ≡ n)
unfolding any_endpoints
any_endpoints-IsIn name n [] h = cc
any_endpoints-IsIn name n (e ∷ items) h =
    elim (Bool-cases (same e.meta.name name && (count_endpoints_num e.subsets == n))) [
      | inl here ↦ (
        e,
        inl refl,
        same_eq e.meta.name name (ground arith),
        ground (arith, ==_iff (count_endpoints_num e.subsets) n),
      )
      | inr later ↦
          let (x, there, p, q) = any_endpoints-IsIn name n items (ground arith) in
          (x, inr there, p, q)
    ]

module _ (P : Platform) where
  open P use {Cluster, Clientset, get_pod, list_endpoints}

  ready_by_phase-true :
      (pod : Pod) (u c' : Cluster)
      → ready_by_phase P pod u ≡ (ok true, c')
      → (u ≡ c') × IsRunning pod
  unfolding ready_by_phase
  ready_by_phase-true pod u c' h = elim (Bool-cases (same pod.phase (str "Running"))) [
    | inl running ↦
        let (p, q) = pure-ok _ u c' (rw running at h) in
        (q, (same_eq pod.phase (str "Running") running, all_ready-All pod.container_statuses p))
    | inr other ↦ absurd (ground arith)
  ]

  -- Where polls try their condition until it holds, fails or they give up (`PollsSoundly`): when
  -- `WaitForPodReady` returns with no error, its last request was for the pod, which was Running
  -- with all its containers ready.
  wait_for_pod_ready_sound :
      PollsSoundly P
      → (client : Clientset) (ns name : Str) (c c' : Cluster)
      → wait_for_pod_ready P client ns name c ≡ (ok tt, c')
      → (u : Cluster) × (pod : Pod) × (get_pod client ns name u ≡ (reply pod, c')) × IsRunning pod
  unfolding wait_for_pod_ready pod_ready
  wait_for_pod_ready_sound sound client ns name c c' h =
      let (_, v, _, k) =
        bind-ok (P.poll_immediate second (2 * minute) (pod_scheduled P client ns name)) _ c c' h in
      let (u, q) =
        poll_immediate-ok P sound second (10 * minute) (pod_ready P client ns name) v c' k in
      let (pod, x, r, t) =
        bind-ok
          (catch (call (get_pod client ns name)) (λ e. raise (message (str "not found: " ++ name))))
          (ready_by_phase P) u c' q in
      let (e, ready) = ready_by_phase-true pod x c' t in
      (u, pod, subst (λ z. get_pod client ns name u ≡ (reply pod, z)) e (got pod u x r), ready)
    where
      got :
          (pod : Pod) (u x : Cluster)
          → catch
              (call (get_pod client ns name))
              (λ e. raise (message (str "not found: " ++ name)))
              u
            ≡ (ok pod, x)
          → get_pod client ns name u ≡ (reply pod, x)
      got pod u x r =
          elim (catch-ok (call (get_pod client ns name))
            (λ e. raise (message (str "not found: " ++ name))) u x r) [
              | inl k ↦ call-ok (get_pod client ns name) u x k
              | inr (e, v, _, k) ↦ absurd (ground arith)
            ]

  -- Where polls try their condition until it holds, fails or they give up (`PollsSoundly`): when
  -- `WaitForServiceEndpointsNum` returns with no error, its last request listed endpoints of the
  -- service's name with the expected number of addresses.
  wait_for_service_endpoints_num_sound :
      PollsSoundly P
      → (client : Clientset) (ns name : Str) (expected interval timeout : ℕ) (c c' : Cluster)
      → wait_for_service_endpoints_num P client ns name expected interval timeout c ≡ (ok tt, c')
      → (u : Cluster) × (items : List Endpoints) × (list_endpoints client ns u ≡ (reply items, c'))
        × ((e : Endpoints) × IsIn e items
            × (e.meta.name ≡ name)
            × (count_endpoints_num e.subsets ≡ expected))
  unfolding wait_for_service_endpoints_num endpoints_there
  wait_for_service_endpoints_num_sound sound client ns name expected interval timeout c c' h =
      let (u, k) =
        poll-ok P sound interval timeout (endpoints_there P client ns name expected) c c' h in
      let (items, v, r, t) = bind-ok (call (list_endpoints client ns)) _ u c' k in
      let (found, e) = pure-ok _ v c' t in
      (
        u,
        items,
        subst (λ z. list_endpoints client ns u ≡ (reply items, z)) e
            (call-ok (list_endpoints client ns) u v r),
        any_endpoints-IsIn name expected items found,
      )
