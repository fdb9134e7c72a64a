-- ===== src/Operator/Health/Exposing.antt =====
-- The job that exposes a proxy, on a healthy cluster.
use sso_operator.Base.{true}
use sso_operator.Base.Text.{Str}
use sso_operator.Base.Run.Succeeds.{
  Succeeds, Succeeds-bind, Succeeds-pure, Succeeds-catch, Succeeds-wrap_err, Succeeds-call,
  Succeeds-catch_call,
}
use sso_operator.Objects.{Container, ConfigMap, Job}
use sso_operator.Api.{Sso}
use sso_operator.Platform.{Platform, ExposeConfig}
use sso_operator.Proxy.Expose.{
  expose_container, create_job, render_expose_config, expose_config_map, start_job,
  store_expose_map, expose,
}
use sso_operator.Operator.Health.{Healthy, Anything}
use sso_operator.Operator.Health.Cluster.{get_clientset-Succeeds, wait_for_job_complete-Succeeds}
use sso_operator.Operator.Health.Proxies.{named-Succeeds}

module _ {S : Type 0} {I : S → Type 0} (sso : Sso) where
  expose_container-Succeeds : Succeeds I I (expose_container sso) Anything
  unfolding expose_container
  expose_container-Succeeds =
      Succeeds-bind _ _ (named-Succeeds sso.meta.name _) (λ n _. Succeeds-pure _ tt)

  create_job-Succeeds :
      (name account : Str) (c : Container) → Succeeds I I (create_job name sso account c) Anything
  unfolding create_job
  create_job-Succeeds name account c =
      Succeeds-bind _ _ (named-Succeeds sso.meta.name name) (λ n _. Succeeds-pure _ tt)

module _ (P : Platform) (I Ready : P.Cluster → Type 0) (role : Str) (sso : Sso)
    (good : Healthy P I Ready role sso) where
  render_expose_config-Succeeds :
      (x : ExposeConfig) → Succeeds I I (render_expose_config P x) Anything
  unfolding render_expose_config
  render_expose_config-Succeeds x =
      let (text, e) = good.marshals x in Succeeds-wrap_err _ _ (record { at = λ c h. rw e (tt, h) })

  expose_config_map-Succeeds : (name : Str) → Succeeds I I (expose_config_map P sso name) Anything
  unfolding expose_config_map
  expose_config_map-Succeeds name =
      Succeeds-bind _ _ (Succeeds-wrap_err _ _ (render_expose_config-Succeeds _))
        (λ text _. Succeeds-pure _ tt)

  store_expose_map-Succeeds : (m : ConfigMap) → Succeeds I I (store_expose_map P m) Anything
  unfolding store_expose_map
  store_expose_map-Succeeds m =
      Succeeds-catch_call (P.sdk_create_config_map m) _ (good.creates_config_map m)
        (λ e there. rw there (Succeeds-pure m tt))

  start_job-Succeeds :
      (text deleting : Str) (job : Job) → Succeeds I I (start_job P text deleting job) Anything
  unfolding start_job
  start_job-Succeeds text deleting job = Succeeds-catch _ _ (Succeeds-call _ (good.creates_job job))

  pub expose-Succeeds :
      (service_name account : Str) → Succeeds I I (expose P sso service_name account) Anything
  unfolding expose
  expose-Succeeds service_name account =
      Succeeds-bind _ _ (Succeeds-wrap_err _ _ (expose_config_map-Succeeds service_name)) λ built _.
        Succeeds-bind _ _ (store_expose_map-Succeeds _) λ m _.
          Succeeds-bind _ _ (expose_container-Succeeds sso) λ c _.
            Succeeds-bind _ _ (create_job-Succeeds sso _ account c) λ job _.
              Succeeds-bind _ _ (start_job-Succeeds _ _ _) λ started _.
                Succeeds-bind _ _
                  (Succeeds-wrap_err _ _ (get_clientset-Succeeds P I Ready role sso good))
                  λ k _.
                    Succeeds-bind _ _
                      (Succeeds-wrap_err _ _
                        (wait_for_job_complete-Succeeds P I Ready role sso good k _ _ _ _))
                      λ _ _.
                        Succeeds-bind _ _
                          (Succeeds-wrap_err _ _ (Succeeds-call _ (good.deletes_job true started)))
                          λ _ _. Succeeds-wrap_err _ _ (Succeeds-call _ (good.deletes_config_map m))
