-- ===== src/Proxy/Upstream.antt =====
-- The service behind the proxy: `getUpstreamURL` and `getAppName` of pkg/proxy/proxy.go.
pub mod AppName
use sso_operator.Base.{
  Bool, true, false, Option, none, some, List, [], ◌∷◌, ◌++◌, find_first, if◌then◌else◌,
}
use sso_operator.Base.Text.{Str, str, same, is_empty, remove_first, decimal}
use sso_operator.Base.Run.{Run, ok, pure, raise, call, deref, message, wrap_err, ◌>>=◌}
use sso_operator.Objects.{StrMap, Service, ServicePort}
use sso_operator.Platform.{Platform}
use sso_operator.Kube.Client.{get_clientset}

abbrev pub app_label : Str
app_label = str "app"

abbrev pub release_label : Str
release_label = str "release"

-- The loop over the labels, with the release found so far: it stops at the application's label.
unfoldable pub label_values : StrMap → Str → Str × Str
label_values [] release = ([], release)
label_values ((name, value) ∷ labels) release =
    let rest = label_values labels (if same name release_label then value else release) in
    if same name app_label then (value, release) else rest

-- What `getAppName` makes of the two values and the service's name.
unfoldable pub choose_app_name : Str → Str × Str → Str
choose_app_name service (app, release) =
    if is_empty app
    then (if is_empty release then service else remove_first service (release ++ str "-"))
    else app

abbrev pub first_port : List ServicePort → Option ServicePort
first_port [] = none
first_port (p ∷ ports) = some p

abbrev pub is_named : Str → Service → Bool
is_named name service = same service.meta.name name

module _ (P : Platform) where
  open P use {Cluster, list_services, range_map}

  abbrev pub service_or : Str → Str → Option Service → Run Cluster Service
  service_or upstream namespace (some service) = pure service
  service_or upstream namespace none = raise (
      message (
        str "no service '"
        ++ (upstream ++ (str "' found in namespace '" ++ (namespace ++ str "'")))))

  -- The two functions begin alike: the clients, the listing, and the first service of the name.
  unfoldable pub find_service : Str → Str → Run Cluster Service
  find_service upstream namespace = do
    client ← wrap_err (str "creating k8s client") (get_clientset P)
    services ←
        wrap_err (str "listing services in namespace '" ++ (namespace ++ str "'"))
          (call (list_services client namespace))
    service_or upstream namespace (find_first (is_named upstream) services)

  unfoldable pub get_upstream_url : Str → Str → Run Cluster Str
  get_upstream_url upstream namespace = do
    service ← find_service upstream namespace
    port ← deref (first_port service.ports)
    pure (str "http://" ++ (service.meta.name ++ (str ":" ++ decimal port.port)))

  -- `range labels`, in the order of this time.
  abbrev pub walk : StrMap → Run Cluster StrMap
  walk m c = let (m', c') = range_map m c in (ok m', c')

  unfoldable pub get_app_name : Str → Str → Run Cluster Str
  get_app_name upstream namespace = do
    service ← find_service upstream namespace
    labels ← walk service.meta.labels
    pure (choose_app_name service.meta.name (label_values labels []))
