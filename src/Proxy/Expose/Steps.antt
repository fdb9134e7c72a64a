-- ===== src/Proxy/Expose/Steps.antt =====
-- What the steps of `Expose` and `Cleanup` have done when they return.
use sso_operator.Base.{
  ◌≡◌, refl, sym, subst, ◌∙◌, ◌++◌, ◌⊎◌, inl, inr, Bool, true, false, Bool-cases, some, arith,
}
use sso_operator.Base.Text.{Str, str}
use sso_operator.Base.Run.{
  Error, Reply, reply, failed, Outcome, outcome, ok, err, pure, wrap_err, call, ◌>>=◌,
}
use sso_operator.Base.Run.Inversion.{
  call-ok, pure-ok, catch-ok, bind-ok, deref-ok, wrap_err-ok, wrap_err-call-ok,
}
use sso_operator.Objects.{Container, Job, ConfigMap}
use sso_operator.Api.{Sso}
use sso_operator.Platform.{Platform}
use sso_operator.Proxy.Names.{build_name}
use sso_operator.Proxy.Resources.{named}
use sso_operator.Proxy.Expose.{
  build_cleanup_map, store_cleanup_map, cleanup_container, config_map_of, expose_config_of,
  expose_config_map, render_expose_config, store_expose_map, expose_container, create_job,
  start_job,
}

module _ (P : Platform) where
  open P use {Cluster, marshal_expose_config, sdk_create_config_map, sdk_create_job, sdk_delete_job}

  -- The request for a config map answered with one; or it failed with an error that is Already
  -- Exists, or is not, and the config map is the one of the request.
  abbrev pub MapKept : Bool → ConfigMap → ConfigMap → Cluster → Cluster → Type 0
  MapKept exists built m c c₁ =
      (sdk_create_config_map built c ≡ (reply m, c₁))
      ⊎ ((e : Error) × (sdk_create_config_map built c ≡ (failed e, c₁))
          × (P.is_already_exists e ≡ exists)
          × (m ≡ built))

  pub expose_config_map-ok :
      (sso : Sso) (service : Str) (c c' : Cluster) (m : ConfigMap)
      → expose_config_map P sso service c ≡ (ok m, c')
      → (config : Str) × (marshal_expose_config (expose_config_of sso service) ≡ reply config)
        × (config_map_of sso config ≡ m)
        × (c ≡ c')
  unfolding expose_config_map render_expose_config
  expose_config_map-ok sso service c c' m h =
      let (config, u, p, q) =
        bind-ok
          (wrap_err (str "rendering expose config")
            (render_expose_config P (expose_config_of sso service)))
          _ c c' h in
      let (is_map, same) = pure-ok (config_map_of sso config) u c' q in
      let answered : ◌≡◌ {A = Reply Str × Cluster}
          (marshal_expose_config (expose_config_of sso service), c) (reply config, u) =
        wrap_err-call-ok (str "marshaling expose config to YAML")
          (λ s. (marshal_expose_config (expose_config_of sso service), s)) c u
          (wrap_err-ok (str "rendering expose config")
            (render_expose_config P (expose_config_of sso service)) c u p) in
      (config, ground (arith, answered), is_map, ground (arith, answered, same))

  pub expose_container-ok :
      (sso : Sso) (c c' : Cluster) (x : Container) → expose_container sso c ≡ (ok x, c') → c ≡ c'
  unfolding expose_container
  expose_container-ok sso c c' x h =
      let (name, u, p, q) = bind-ok (named sso.meta.name (str "expose")) _ c c' h in
      (deref-ok (build_name sso.meta.name (str "expose")) c u p).1 ∙ (pure-ok _ u c' q).1

  pub cleanup_container-ok :
      (sso : Sso) (filter : Str) (c c' : Cluster) (x : Container)
      → cleanup_container sso filter c ≡ (ok x, c')
      → c ≡ c'
  unfolding cleanup_container
  cleanup_container-ok sso filter c c' x h =
      let (name, u, p, q) = bind-ok (named sso.meta.name (str "cleanup")) _ c c' h in
      (deref-ok (build_name sso.meta.name (str "cleanup")) c u p).1 ∙ (pure-ok _ u c' q).1

  pub create_job-ok :
      (suffix : Str) (sso : Sso) (account : Str) (x : Container) (c c' : Cluster) (job : Job)
      → create_job suffix sso account x c ≡ (ok job, c')
      → (build_name sso.meta.name suffix ≡ some (job.meta.name))
        × (job.meta.namespace ≡ sso.meta.namespace)
        × (c ≡ c')
  unfolding create_job
  create_job-ok suffix sso account x c c' job h =
      let (name, u, p, q) = bind-ok (named sso.meta.name suffix) _ c c' h in
      let (found, same) = deref-ok (build_name sso.meta.name suffix) c u p in
      let (is_job, stays) = pure-ok _ u c' q in
      (
        subst (λ (j : Job). build_name sso.meta.name suffix ≡ some (j.meta.name)) is_job found,
        subst (λ (j : Job). j.meta.namespace ≡ sso.meta.namespace) is_job refl,
        same ∙ stays,
      )

  pub start_job-ok :
      (text deleting : Str) (job : Job) (c c' : Cluster) (started : Job)
      → start_job P text deleting job c ≡ (ok started, c')
      → sdk_create_job job c ≡ (reply started, c')
  unfolding start_job
  start_job-ok text deleting job c c' started h =
      elim (catch-ok (call (sdk_create_job job)) _ c c' h) [
        | inl k ↦ call-ok (sdk_create_job job) c c' k
        | inr (e, u, p, k) ↦ elim (Bool-cases (P.is_already_exists e)) [
          | inl there ↦
              let (_, v, _, q) =
                bind-ok
                  (wrap_err (text ++ (str ": " ++ deleting)) (call (sdk_delete_job false job))) _ u
                  c' (rw there at k) in
              ground (arith, q)
          | inr absent ↦ ground (arith, rw absent at k)
        ]
      ]

  call-err :
      {A : Type 0} (q : Cluster → Reply A × Cluster) (c u : Cluster) (e : Error)
      → call q c ≡ (err e, u)
      → q c ≡ (failed e, u)
  call-err {A} q c u e h = go (q c).0 (q c).1 h
    where
      go :
          (r : Reply A) (v : Cluster)
          → ◌≡◌ {A = Outcome A × Cluster} (outcome r, v) (err e, u)
          → ◌≡◌ {A = Reply A × Cluster} (r, v) (failed e, u)
      go (reply a) v h = ground (arith, h)
      go (failed x) v h = ground (arith, h)

  pub store_expose_map-ok :
      (built m : ConfigMap) (c c' : Cluster)
      → store_expose_map P built c ≡ (ok m, c')
      → MapKept true built m c c'
  unfolding store_expose_map
  store_expose_map-ok built m c c' h =
      elim (catch-ok (call (sdk_create_config_map built)) _ c c' h) [
        | inl k ↦ inl (call-ok (sdk_create_config_map built) c c' k)
        | inr (e, u, p, k) ↦ elim (Bool-cases (P.is_already_exists e)) [
          | inl there ↦
              let (is_map, same) = pure-ok built u c' (rw there at k) in
              inr (
                e,
                subst (λ z. sdk_create_config_map built c ≡ (failed e, z)) same
                    (call-err (sdk_create_config_map built) c u e p),
                there,
                sym is_map,
              )
          | inr absent ↦ ground (arith, rw absent at k)
        ]
      ]

  pub store_cleanup_map-ok :
      (built m : ConfigMap) (c c' : Cluster)
      → store_cleanup_map P built c ≡ (ok m, c')
      → MapKept false built m c c'
  unfolding store_cleanup_map
  store_cleanup_map-ok built m c c' h =
      elim (catch-ok (call (sdk_create_config_map built)) _ c c' h) [
        | inl k ↦ inl (call-ok (sdk_create_config_map built) c c' k)
        | inr (e, u, p, k) ↦ elim (Bool-cases (P.is_already_exists e)) [
          | inl there ↦ ground (arith, rw there at k)
          | inr absent ↦
              let (is_map, same) = pure-ok built u c' (rw absent at k) in
              inr (
                e,
                subst (λ z. sdk_create_config_map built c ≡ (failed e, z)) same
                    (call-err (sdk_create_config_map built) c u e p),
                absent,
                sym is_map,
              )
        ]
      ]

  pub build_cleanup_map-ok :
      (sso : Sso) (service : Str) (c c' : Cluster) (m : ConfigMap)
      → build_cleanup_map P sso service c ≡ (ok (some m), c')
      → expose_config_map P sso service c ≡ (ok m, c')
  unfolding build_cleanup_map
  build_cleanup_map-ok sso service c c' m h =
      elim (catch-ok (do map ← expose_config_map P sso service; pure (some map)) _ c c' h) [
        | inl k ↦
            let (x, u, p, q) = bind-ok (expose_config_map P sso service) _ c c' k in
            ground (arith, p, q)
        | inr (e, u, p, k) ↦ elim (Bool-cases (P.is_already_exists e)) [
          | inl there ↦ ground (arith, rw there at k)
          | inr absent ↦ ground (arith, rw absent at k)
        ]
      ]
