-- ===== src/Proxy/Expose/ConfigMaps.antt =====
-- How `Expose` and `Cleanup` take an error of the config map's creation.
use sso_operator.Base.{◌≡◌, refl, true, false, ◌⊎◌, inl, inr, Bool-cases}
use sso_operator.Base.Text.{str}
use sso_operator.Base.Run.{Error, failed, ok, err, wrap}
use sso_operator.Objects.{ConfigMap}
use sso_operator.Platform.{Platform}
use sso_operator.Proxy.Expose.{store_expose_map, store_cleanup_map}

module _ (P : Platform) where
  open P use {Cluster, is_already_exists, sdk_create_config_map}

  -- When the creation of the config map fails, the step of `Expose` that creates it goes on exactly
  -- if the config map exists already, and that of `Cleanup` exactly if it does not: of any error
  -- but Already Exists it takes no notice, and at Already Exists it stops.
  pub config_map_errors :
      (m : ConfigMap) (e : Error) (c c' : Cluster)
      → sdk_create_config_map m c ≡ (failed e, c')
      → ((is_already_exists e ≡ true)
          × (store_expose_map P m c ≡ (ok m, c'))
          × (store_cleanup_map P m c ≡ (err (wrap e (str "creating cleanup config map")), c')))
        ⊎ ((is_already_exists e ≡ false)
            × (store_expose_map P m c ≡ (err (wrap e (str "creating expose config map")), c'))
            × (store_cleanup_map P m c ≡ (ok m, c')))
  unfolding store_expose_map store_cleanup_map
  config_map_errors m e c c' h = elim (Bool-cases (is_already_exists e)) [
    | inl there ↦ inl (there, rw (h, there) refl, rw (h, there) refl)
    | inr absent ↦ inr (absent, rw (h, absent) refl, rw (h, absent) refl)
  ]
