-- ===== src/Proxy/Expose/Jobs.antt =====
-- How the jobs of `Expose` and `Cleanup` end.
use sso_operator.Base.{ℕ, ◌<◌, ◌≡◌, sym, subst, ◌∙◌, length, All, Bool, true, false, some}
use sso_operator.Base.Text.{Str, str}
use sso_operator.Base.Run.{reply, ok, Run, wrap_err, call, deref, ◌>>=◌, ◌>>◌}
use sso_operator.Base.Run.Inversion.{bind-ok, deref-ok, wrap_err-ok, wrap_err-call-ok}
use sso_operator.Objects.{Container, Job, JobCondition, ConfigMap}
use sso_operator.Api.{Sso}
use sso_operator.Platform.{Platform}
use sso_operator.Kube.Client.{get_clientset}
use sso_operator.Kube.Wait.{wait_for_job_complete}
use sso_operator.Kube.Wait.Polling.{PollsSoundly}
use sso_operator.Kube.Wait.Soundness.{wait_for_job_complete_sound}
use sso_operator.Proxy.Names.{build_name}
use sso_operator.Proxy.Resources.{owned_by}
use sso_operator.Proxy.Expose.{
  cleanup, cleanup_timeout, build_cleanup_map, store_cleanup_map, cleanup_container, config_map_of,
  expose_config_of, expose_config_map, store_expose_map, expose_container, create_job, start_job,
  expose, check_interval, expose_timeout,
}
use sso_operator.Proxy.Expose.Steps.{
  MapKept, expose_config_map-ok, expose_container-ok, cleanup_container-ok, create_job-ok,
  start_job-ok, store_expose_map-ok, store_cleanup_map-ok, build_cleanup_map-ok,
}

-- The config map with the resource as an owner.
abbrev pub owned_map : Sso → ConfigMap → ConfigMap
owned_map sso m = record m { meta = owned_by sso m.meta }

module _ (P : Platform) where
  open P use {
    Cluster, Clientset, get_job, marshal_expose_config, sdk_create_config_map, sdk_create_job,
    sdk_delete_job, sdk_delete_config_map,
  }

  -- A run from `c` to `c'` in which a config map was asked for, a job was created, that job was seen
  -- complete, and then that job and that config map were deleted.
  pub record Finished (sso : Sso) (service suffix : Str) (built : ConfigMap → ConfigMap)
      (exists : Bool) (c c' : Cluster) : Type 0 where
    -- The config map, of the resource's exposition, is asked for first.
    pub config : Str
    pub marshalled : marshal_expose_config (expose_config_of sso service) ≡ reply config
    pub config_map : ConfigMap
    pub c₁ : Cluster
    pub map_kept : MapKept P exists (built (config_map_of sso config)) config_map c c₁
    -- Then the job, named for the resource and in its namespace.
    pub job : Job
    pub job_named : build_name sso.meta.name suffix ≡ some (job.meta.name)
    pub job_placed : job.meta.namespace ≡ sso.meta.namespace
    pub started : Job
    pub c₂ : Cluster
    pub job_created : sdk_create_job job c₁ ≡ (reply started, c₂)
    -- The last request of the wait found the created job with one condition at least, and each of
    -- its conditions was Complete.
    pub client : Clientset
    pub c₃ : Cluster
    pub connected : get_clientset P c₂ ≡ (ok client, c₃)
    pub u : Cluster
    pub v : Cluster
    pub seen : Job
    pub job_seen : get_job client sso.meta.namespace started.meta.name u ≡ (reply seen, v)
    pub some_condition : 0 < length seen.conditions
    pub all_complete :
        All (λ (cond : JobCondition). cond.condition_type ≡ str "Complete") seen.conditions
    -- The last two requests deleted the created job and the config map.
    pub w : Cluster
    pub job_deleted : sdk_delete_job true started v ≡ (reply tt, w)
    pub map_deleted : sdk_delete_config_map config_map w ≡ (reply tt, c')

  -- How `Expose` and `Cleanup` end, with their own texts and timeouts.
  abbrev finish_job : Str → Str → Str → ℕ → ℕ → Sso → Job → ConfigMap → Run Cluster (Unit {0})
  finish_job waiting job_text map_text interval timeout sso job m = do
    client ← wrap_err (str "getting k8s client") (get_clientset P)
    wrap_err waiting
        (wait_for_job_complete P client sso.meta.namespace job.meta.name interval timeout)
    wrap_err job_text (call (sdk_delete_job true job))
    wrap_err map_text (call (sdk_delete_config_map m))

  module _ (sound : PollsSoundly P) (sso : Sso) (service suffix config : Str)
      (built : ConfigMap → ConfigMap) (exists : Bool) (m : ConfigMap) (job started : Job)
      (container : Container) (account : Str) where
    -- From the states in which the config map was asked for and the job was created.
    finish_job-Finished :
        (waiting job_text map_text : Str) (interval timeout : ℕ) (c c₁ c₁' c₂ c' : Cluster)
        → marshal_expose_config (expose_config_of sso service) ≡ reply config
        → MapKept P exists (built (config_map_of sso config)) m c c₁
        → c₁ ≡ c₁'
        → build_name sso.meta.name suffix ≡ some (job.meta.name)
        → job.meta.namespace ≡ sso.meta.namespace
        → sdk_create_job job c₁' ≡ (reply started, c₂)
        → finish_job waiting job_text map_text interval timeout sso started m c₂ ≡ (ok tt, c')
        → Finished sso service suffix built exists c c'
    finish_job-Finished waiting job_text map_text interval timeout c c₁ c₁' c₂ c' marshalled kept
          same named_so placed created h =
        let (k, c₃, p, h₁) = bind-ok (wrap_err _ (get_clientset P)) _ c₂ c' h in
        let wait : Run Cluster (Unit {0}) =
          wait_for_job_complete P k sso.meta.namespace started.meta.name interval timeout in
        let (_, v, waited, h₂) = bind-ok (wrap_err _ wait) _ c₃ c' h₁ in
        let (_, w, gone, h₃) =
          bind-ok (wrap_err _ (call (sdk_delete_job true started))) _ v c' h₂ in
        let (x, seen, e, n, all) =
          wait_for_job_complete_sound P sound k sso.meta.namespace started.meta.name interval
            timeout c₃ v (wrap_err-ok _ wait c₃ v waited) in
        record {
          config = config;
          marshalled = marshalled;
          config_map = m;
          c₁ = c₁;
          map_kept = kept;
          job = job;
          job_named = named_so;
          job_placed = placed;
          started = started;
          c₂ = c₂;
          job_created = subst (λ z. sdk_create_job job z ≡ (reply started, c₂)) (sym same) created;
          client = k;
          c₃ = c₃;
          connected = wrap_err-ok _ (get_clientset P) c₂ c₃ p;
          u = x;
          v = v;
          seen = seen;
          job_seen = e;
          some_condition = n;
          all_complete = all;
          w = w;
          job_deleted = wrap_err-call-ok _ (sdk_delete_job true started) v w gone;
          map_deleted = wrap_err-call-ok _ (sdk_delete_config_map m) w c' h₃;
        }

  module _ (sound : PollsSoundly P) (sso : Sso) (service account : Str) (c c' : Cluster) where
    -- Where polls try their condition until it holds, fails or they give up (`PollsSoundly`): when
    -- `Expose` returns with no error, it asked for the config map, owned by the resource, which was
    -- created or existed already; then it created the job named for the resource; then, after a
    -- client was made, the last request of the wait found that job with one condition at least and
    -- with no condition that is not Complete; and the last two requests deleted the created job,
    -- with background propagation, and that config map.
    pub expose-Finished :
        expose P sso service account c ≡ (ok tt, c')
        → Finished sso service (str "expose") (owned_map sso) true c c'
    unfolding expose owned_by
    expose-Finished h =
        let (built, u₁, p₁, h₁) = bind-ok (wrap_err _ (expose_config_map P sso service)) _ c c' h in
        let (m, u₂, p₂, h₂) = bind-ok (store_expose_map P (owned_map sso built)) _ u₁ c' h₁ in
        let (container, u₃, p₃, h₃) = bind-ok (expose_container sso) _ u₂ c' h₂ in
        let (job, u₄, p₄, h₄) =
          bind-ok (create_job (str "expose") sso account container) _ u₃ c' h₃ in
        let (started, u₅, p₅, h₅) =
          bind-ok (start_job P _ _ (record job { meta = owned_by sso job.meta })) _ u₄ c' h₄ in
        let (config, marshalled, is_map, same) =
          expose_config_map-ok P sso service c u₁ built
            (wrap_err-ok _ (expose_config_map P sso service) c u₁ p₁) in
        let (is_named, placed, stays) =
          create_job-ok P (str "expose") sso account container u₃ u₄ job p₄ in
        finish_job-Finished sound sso service (str "expose") config (owned_map sso) true m
          (record job { meta = owned_by sso job.meta }) started container account _ _ _
          check_interval expose_timeout c u₂ u₄ u₅ c' marshalled
          (subst (λ z. MapKept P true (owned_map sso z) m c u₂) (sym is_map)
            (subst (λ z. MapKept P true (owned_map sso built) m z u₂) (sym same)
              (store_expose_map-ok P (owned_map sso built) m u₁ u₂ p₂)))
          (expose_container-ok P sso u₂ u₃ container p₃ ∙ stays) is_named placed
          (start_job-ok P _ _ (record job { meta = owned_by sso job.meta }) u₄ u₅ started p₅) h₅

    -- Where polls try their condition until it holds, fails or they give up (`PollsSoundly`): when
    -- `Cleanup` returns with no error, it asked for the config map, which was created or failed with
    -- an error other than Already Exists; then it created the job named for the resource; then,
    -- after a client was made, the last request of the wait found that job with one condition at
    -- least and with no condition that is not Complete; and the last two requests deleted the created
    -- job, with background propagation, and that config map.
    pub cleanup-Finished :
        cleanup P sso service account c ≡ (ok tt, c')
        → Finished sso service (str "cleanup") (λ m. m) false c c'
    unfolding cleanup
    cleanup-Finished h =
        let (built, u₁, p₁, h₁) = bind-ok (build_cleanup_map P sso service) _ c c' h in
        let (pointed, u₂, p₂, h₂) = bind-ok (deref built) _ u₁ c' h₁ in
        let (m, u₃, p₃, h₃) = bind-ok (store_cleanup_map P pointed) _ u₂ c' h₂ in
        let (container, u₄, p₄, h₄) = bind-ok (cleanup_container sso service) _ u₃ c' h₃ in
        let (job, u₅, p₅, h₅) =
          bind-ok (create_job (str "cleanup") sso account container) _ u₄ c' h₄ in
        let (started, u₆, p₆, h₆) = bind-ok (start_job P _ _ job) _ u₅ c' h₅ in
        let (there, pointed_at) = deref-ok built u₁ u₂ p₂ in
        let (config, marshalled, is_map, same) = expose_config_map-ok P sso service c u₁ pointed (
          build_cleanup_map-ok P sso service c u₁ pointed
            (subst (λ z. build_cleanup_map P sso service c ≡ (ok z, u₁)) there p₁)) in
        let (is_named, placed, stays) =
          create_job-ok P (str "cleanup") sso account container u₄ u₅ job p₅ in
        finish_job-Finished sound sso service (str "cleanup") config (λ m. m) false m job started
          container account _ _ _ check_interval cleanup_timeout c u₃ u₅ u₆ c' marshalled
          (subst (λ z. MapKept P false z m c u₃) (sym is_map)
            (subst (λ z. MapKept P false pointed m z u₃) (sym (same ∙ pointed_at))
              (store_cleanup_map-ok P pointed m u₂ u₃ p₃)))
          (cleanup_container-ok P sso service u₃ u₄ container p₄ ∙ stays) is_named placed
          (start_job-ok P _ _ job u₅ u₆ started p₆) h₆
