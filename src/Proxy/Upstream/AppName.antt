-- ===== src/Proxy/Upstream/AppName.antt =====
-- `getAppName` and the order in which Go walks the labels.
use sso_operator.Base.{
  ℕ, ◌≡◌, ◌≢◌, refl, sym, ap, ◌∙◌, Option, none, some, [], ◌∷◌, ◌++◌, arith, if◌then◌else◌,
}
use sso_operator.Base.Text.{Str, str, same, same_iff, is_empty, remove_first}
use sso_operator.Base.Dict.{lookup, value_of, value_of-eq, NodupKeys}
use sso_operator.Base.Run.{ok}
use sso_operator.Objects.{StrMap, Service}
use sso_operator.Platform.{Platform}
use sso_operator.Proxy.Upstream.{
  app_label, release_label, label_values, choose_app_name, find_service, get_app_name,
}

-- The application's name by the labels as a map: the application's label, or the service's name
-- without the first occurrence of the release, or the service's name.
abbrev pub app_name_of : Str → StrMap → Str
app_name_of service labels =
    if is_empty (value_of app_label labels)
    then (if is_empty (value_of release_label labels)
        then service
        else remove_first service (value_of release_label labels ++ str "-"))
    else value_of app_label labels

label_values-app : (m : StrMap) (release : Str) → (label_values m release).0 ≡ value_of app_label m
unfolding label_values value_of
label_values-app [] release = refl
label_values-app ((k, v) ∷ m) release =
    ground (arith, label_values-app m (if same k release_label then v else release))

label_values-release :
    (m : StrMap) (release : Str)
    → NodupKeys m
    → lookup app_label m ≡ none
    → (label_values m release).1 ≡ (elim (lookup release_label m) [ none ↦ release | some v ↦ v ])
unfolding label_values lookup
label_values-release [] release u h = refl
label_values-release ((k, v) ∷ m) release u h = ground (
  arith,
  same_iff k release_label,
  label_values-release m (if same k release_label then v else release) u.1,
)

choose_none :
    (service : Str) (m : StrMap)
    → NodupKeys m
    → lookup app_label m ≡ none
    → choose_app_name service (label_values m []) ≡ app_name_of service m
unfolding choose_app_name value_of
choose_none service m u h = ground (arith, label_values-app m [], label_values-release m [] u h)

choose_some :
    (service : Str) (m : StrMap) (x : ℕ) (app : Str)
    → lookup app_label m ≡ some (x ∷ app)
    → choose_app_name service (label_values m []) ≡ app_name_of service m
unfolding choose_app_name value_of
choose_some service m x app h = ground (arith, label_values-app m [])

-- Labels with distinct keys where the application's label is not there, or is not empty.
choose-label_values :
    (service : Str) (m : StrMap)
    → NodupKeys m
    → lookup app_label m ≢ some []
    → choose_app_name service (label_values m []) ≡ app_name_of service m
choose-label_values service m u h = go (lookup app_label m) refl
  where
    go :
        (o : Option Str)
        → lookup app_label m ≡ o
        → choose_app_name service (label_values m []) ≡ app_name_of service m
    go none e = choose_none service m u e
    go (some []) e = absurd (h e)
    go (some (x ∷ app)) e = choose_some service m x app e

module _ (P : Platform) where
  open P use {Cluster, range_map}

  -- `range` over a map gives each of its entries once, in some order.
  abbrev pub RangesMaps : Type 0
  RangesMaps =
      (m : StrMap) (c : Cluster)
      → NodupKeys m
      → NodupKeys (range_map m c).0 × ((k : Str) → lookup k (range_map m c).0 ≡ lookup k m)

  app_name_of-range :
      RangesMaps
      → (service : Str) (m : StrMap) (c : Cluster) → NodupKeys m
      → app_name_of service (range_map m c).0 ≡ app_name_of service m
  app_name_of-range ranges service m c u = rw (same_value app_label, same_value release_label) refl
    where
      same_value : (k : Str) → value_of k (range_map m c).0 ≡ value_of k m
      same_value k = value_of-eq k _ m ((ranges m c u).1 k)

  -- Where a `range` over a map gives each entry once, in some order: when the upstream service is
  -- found, has labels with distinct keys, and its label "app" is absent or not empty, `getAppName`
  -- returns with no error, whatever order the labels come in: the label "app" if it is there, or
  -- else the service's name without the first occurrence of the label "release" and a dash, or else
  -- the service's name.
  pub get_app_name_lem :
      RangesMaps
      → (upstream namespace : Str) (c u : Cluster) (service : Service)
      → find_service P upstream namespace c ≡ (ok service, u)
      → NodupKeys service.meta.labels
      → lookup app_label service.meta.labels ≢ some []
      → get_app_name P upstream namespace c ≡ (
        ok (app_name_of service.meta.name service.meta.labels),
        (range_map service.meta.labels u).1,
      )
  unfolding get_app_name
  get_app_name_lem ranges upstream namespace c u service found nodup h = rw found (
      ap (λ name. (ok name, (range_map labels u).1))
        (choose ∙ app_name_of-range ranges service.meta.name labels u nodup))
    where
      labels : StrMap
      labels = service.meta.labels

      choose :
          choose_app_name service.meta.name (label_values (range_map labels u).0 [])
          ≡ app_name_of service.meta.name (range_map labels u).0
      choose =
          choose-label_values service.meta.name _ (ranges labels u nodup).0
            (λ e. h (sym ((ranges labels u nodup).1 app_label) ∙ e))
