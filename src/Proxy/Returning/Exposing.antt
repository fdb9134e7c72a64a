-- ===== src/Proxy/Returning/Exposing.antt =====
-- `Expose` and `Cleanup` of pkg/proxy: where they panic.
use sso_operator.Base.{◌≡◌, ◌≢◌, refl, ap, false, none, Option-cases, inl, inr}
use sso_operator.Base.Text.{Str, str}
use sso_operator.Base.Run.{Error, failed, wrap}
use sso_operator.Base.Run.Triple.{Triple, Triple-catch, Triple-bind, Triple-call, Triple-ok}
use sso_operator.Base.Run.Returns.{
  Returns, Returns-deref, Returns-bind_ok, Returns-bind, Returns-wrap_err, Returns-call,
  returns_rules,
}
use sso_operator.Objects.{ConfigMap, Container, Job}
use sso_operator.Api.{Sso}
use sso_operator.Platform.{Platform, ExposeConfig}
use sso_operator.Kube.Wait.Polling.{PollsSoundly}
use sso_operator.Kube.Returning.{get_clientset-Returns, wait_for_job_complete-Returns}
use sso_operator.Proxy.Expose.{
  expose_config_of, expose_container, cleanup_container, create_job, render_expose_config,
  expose_config_map, start_job, store_expose_map, expose, store_cleanup_map, build_cleanup_map,
  cleanup,
}
use sso_operator.Proxy.Returning.{named-Returns}

module _ {S : Type 0} where
  expose_container-Returns : (sso : Sso) → Returns {S = S} (expose_container sso)
  unfolding expose_container
  expose_container-Returns sso = search (returns_rules, named-Returns)

  cleanup_container-Returns :
      (sso : Sso) (filter : Str) → Returns {S = S} (cleanup_container sso filter)
  unfolding cleanup_container
  cleanup_container-Returns sso filter = search (returns_rules, named-Returns)

  create_job-Returns :
      (name : Str) (sso : Sso) (account : Str) (c : Container)
      → Returns {S = S} (create_job name sso account c)
  unfolding create_job
  create_job-Returns name sso account c = search (returns_rules, named-Returns)

module _ (P : Platform) where
  render_expose_config-Returns : (x : ExposeConfig) → Returns (render_expose_config P x)
  unfolding render_expose_config
  render_expose_config-Returns x =
      Returns-wrap_err _ _ (Returns-call (λ c. (P.marshal_expose_config x, c)))

  expose_config_map-Returns : (sso : Sso) (name : Str) → Returns (expose_config_map P sso name)
  unfolding expose_config_map
  expose_config_map-Returns sso name = search (returns_rules, render_expose_config-Returns)

  store_expose_map-Returns : (m : ConfigMap) → Returns (store_expose_map P m)
  unfolding store_expose_map
  store_expose_map-Returns m = search returns_rules

  store_cleanup_map-Returns : (m : ConfigMap) → Returns (store_cleanup_map P m)
  unfolding store_cleanup_map
  store_cleanup_map-Returns m = search returns_rules

  start_job-Returns : (text deleting : Str) (job : Job) → Returns (start_job P text deleting job)
  unfolding start_job
  start_job-Returns text deleting job = search returns_rules

  -- An error of YAML is not Already Exists, however it is wrapped.
  abbrev pub MarshalsPlainly : Type 0
  MarshalsPlainly =
      (x : ExposeConfig) (e : Error)
      → P.marshal_expose_config x ≡ failed e
      → (inner outer : Str) → P.is_already_exists (wrap (wrap e inner) outer) ≡ false

module _ (P : Platform) (sound : PollsSoundly P) where
  pub expose-Returns :
      (sso : Sso) (service_name account : Str) → Returns (expose P sso service_name account)
  unfolding expose
  expose-Returns sso service_name account =
      search
        (
          returns_rules,
          get_clientset-Returns,
          wait_for_job_complete-Returns P sound,
          expose_config_map-Returns,
          store_expose_map-Returns,
          expose_container-Returns,
          create_job-Returns,
          start_job-Returns,
        )
        depth 20

  module _ (plainly : MarshalsPlainly P) where
    -- The errors of the config map that `Cleanup` tests.
    expose_config_map-Triple :
        (sso : Sso) (name : Str)
        → Triple
            (λ _. Unit {0})
            (expose_config_map P sso name)
            (λ _ _. Unit {0})
            (λ e _. P.is_already_exists e ≡ false)
    unfolding expose_config_map render_expose_config
    expose_config_map-Triple sso name =
        Triple-bind _ _
          (Triple-catch
            {R = λ e _.
              (x : Error) × (P.marshal_expose_config (expose_config_of sso name) ≡ failed x)
              × (e ≡ wrap x (str "marshaling expose config to YAML"))}
            _ _
            (Triple-catch _ _
              (Triple-call (λ c. (P.marshal_expose_config (expose_config_of sso name), c))
                (λ s t text h p. tt) (λ s t e h p. ap (λ x. x.0) p))
              (λ e. record { at = λ s h. (e, h, refl) }))
            (λ e. record { at = λ s (x, h, q). rw q (plainly _ x h _ _) }))
          (λ text. record { at = λ s h. tt })

    build_cleanup_map-Triple :
        (sso : Sso) (name : Str)
        → Triple
            (λ _. Unit {0})
            (build_cleanup_map P sso name)
            (λ built _. built ≢ none)
            (λ _ _. Unit {0})
    unfolding build_cleanup_map
    build_cleanup_map-Triple sso name =
        Triple-catch _ _
          (Triple-bind _ _ (expose_config_map-Triple sso name) (λ m. record { at = λ s h e. cc }))
          (λ e. record { at = λ s h. rw h tt })

    build_cleanup_map-Returns : (sso : Sso) (name : Str) → Returns (build_cleanup_map P sso name)
    unfolding build_cleanup_map
    build_cleanup_map-Returns sso name = search (returns_rules, expose_config_map-Returns)

    pub cleanup-Returns :
        (sso : Sso) (service_name account : Str) → Returns (cleanup P sso service_name account)
    unfolding cleanup
    cleanup-Returns sso service_name account =
        Returns-bind_ok _ _ (build_cleanup_map-Returns sso service_name) λ built s t h.
          elim (Option-cases built) [
            | inl e ↦ absurd (Triple-ok _ (build_cleanup_map-Triple sso service_name) s t h tt e)
            | inr (m, e) ↦ Returns-bind _ _ (Returns-deref m e) (
                search
                  (
                    returns_rules,
                    get_clientset-Returns,
                    wait_for_job_complete-Returns P sound,
                    store_cleanup_map-Returns,
                    cleanup_container-Returns,
                    create_job-Returns,
                    start_job-Returns,
                  )
                  depth 20)
          ]
