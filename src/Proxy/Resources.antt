-- ===== src/Proxy/Resources.antt =====
-- The values that pkg/proxy/proxy.go builds from an SSO resource.
pub mod Checked
use sso_operator.Base.{
  ℕ, Bool, true, false, Option, none, some, List, [], ◌∷◌, ◌++◌, map, if◌then◌else◌,
}
use sso_operator.Base.Text.{Str, str, is_empty, has_prefix}
use sso_operator.Base.Run.{Run, ok, pure, raise, call, deref, message, wrap_err, ◌>>=◌, ◌>>◌}
use sso_operator.Objects.{
  StrMap, TypeMeta, OwnerReference, ObjectMeta, EnvVar, ContainerPort, VolumeMount, Probe,
  Container, Secret, OidcClient, no_meta,
}
use sso_operator.Api.{Sso}
use sso_operator.Platform.{Platform}
use sso_operator.Proxy.Names.{build_name}
use sso_operator.Proxy.Config.{Cookie, Config, render_config}
use sso_operator.Proxy.Upstream.{get_upstream_url}

abbrev pub config_path : Str
config_path = str "/config/oauth2_proxy.cfg"

-- `filepath.Dir(configPath)` and `filepath.Base(configPath)`
abbrev pub config_dir : Str
config_dir = str "/config"

abbrev pub config_file : Str
config_file = str "oauth2_proxy.cfg"

abbrev pub config_volume_name : Str
config_volume_name = str "proxy-config"

abbrev pub config_secret_name : Str
config_secret_name = str "proxy-secret"

abbrev pub secret_version_env : Str
secret_version_env = str "SECRET_VERSION"

abbrev pub port_name : Str
port_name = str "proxy-port"

abbrev pub proxy_port : ℕ
proxy_port = 4180

abbrev pub health_path : Str
health_path = str "/ping"

abbrev pub public_port : ℕ
public_port = 80

abbrev pub ingress_class_line : Str
ingress_class_line = str "kubernetes.io/ingress.class" ++ (str ": " ++ str "nginx")

unfoldable pub redirect_url : Str → Str
redirect_url url = url ++ str "/oauth2/callback"

unfoldable pub fake_redirect_url : Str
unfolding redirect_url
fake_redirect_url = redirect_url (str "https://fake-oauth2-proxy")

unfoldable pub convert_hosts_to_redirect_urls : List Str → List Str
unfolding redirect_url
convert_hosts_to_redirect_urls [] = []
convert_hosts_to_redirect_urls (host ∷ hosts) =
    redirect_url (str "https://" ++ host) ∷ convert_hosts_to_redirect_urls hosts

unfoldable pub labels : Sso → Str → StrMap
labels sso app_name = (str "app", app_name) ∷ (str "sso", sso.meta.name) ∷ []

unfoldable pub ingress_annotation : Str → Str
ingress_annotation issuer =
    if is_empty issuer
    then ingress_class_line
    else (ingress_class_line
        ++ (str "\n" ++ (str "certmanager.k8s.io/issuer" ++ (str ": " ++ issuer))))
      ++ (str "\n" ++ (str "cert-manager.io/issuer" ++ (str ": " ++ issuer)))

unfoldable pub service_annotations : Sso → Str → StrMap
unfolding ingress_annotation
service_annotations sso app_name =
    (str "fabric8.io/expose", str "true")
    ∷ (str "fabric8.io/ingress.name", app_name)
    ∷ (str "fabric8.io/ingress.annotations", ingress_annotation sso.spec.cert_issuer_name)
    ∷ []

unfoldable pub owner_ref : Sso → OwnerReference
owner_ref sso = record {
  api_version = str "jenkins.io/v1";
  kind = str "SSO";
  name = sso.meta.name;
  uid = sso.meta.uid;
  controller = true;
}

-- `o.SetOwnerReferences(append(o.GetOwnerReferences(), ownerRef(sso)))`
unfoldable pub owned_by : Sso → ObjectMeta → ObjectMeta
unfolding owner_ref
owned_by sso meta = record meta { owners = meta.owners ++ (owner_ref sso ∷ []) }

abbrev pub health_probe : ℕ → ℕ → Probe
health_probe initial period = record {
  path = health_path;
  port = proxy_port;
  scheme = str "HTTP";
  initial_delay_seconds = initial;
  timeout_seconds = 10;
  period_seconds = period;
  failure_threshold = 3;
}

unfoldable pub proxy_args : Bool → List Str
proxy_args insecure =
    if insecure
    then (str "--config=" ++ config_path) ∷ str "--ssl-insecure-skip-verify=true" ∷ []
    else (str "--config=" ++ config_path) ∷ []

-- A name of `buildName` or the panic of its slices.
abbrev pub named : {S : Type 0} → Str → Str → Run S Str
named name suffix = deref (build_name name suffix)

unfoldable pub proxy_container : {S : Type 0} → Sso → Str → Run S Container
unfolding proxy_args
proxy_container sso secret_version = do
  name ← named sso.meta.name []
  pure (record {
    name = name;
    image = sso.spec.proxy_image ++ (str ":" ++ sso.spec.proxy_image_tag);
    image_pull_policy = str "IfNotPresent";
    command = [];
    args = proxy_args sso.spec.ssl_insecure_skip_verify;
    ports = record { name = port_name; container_port = proxy_port; protocol = str "TCP" } ∷ [];
    resources = sso.spec.proxy_resources;
    volume_mounts =
        record { name = config_volume_name; read_only = true; mount_path = config_dir } ∷ [];
    env = record { name = secret_version_env; value = secret_version } ∷ [];
    liveness_probe = some (health_probe 60 60);
    readiness_probe = some (health_probe 30 10);
  })

-- `proxyConfig` once the upstream is known.
unfoldable pub config_of : Sso → OidcClient → Str → Str → Str → Config
config_of sso client cookie_secret upstream redirect = record {
  port = proxy_port;
  client_id = client.id;
  client_secret = client.secret;
  oidc_issuer_url = sso.spec.oidc_issuer_url;
  redirect_url = redirect;
  login_url = sso.spec.oidc_issuer_url ++ str "/auth";
  redeem_url = sso.spec.oidc_issuer_url ++ str "/token";
  upstream = upstream;
  forward_token = sso.spec.forward_token;
  cookie = record {
    name = sso.spec.cookie_spec.name;
    secret = cookie_secret;
    domain = sso.spec.domain;
    expire = sso.spec.cookie_spec.expire;
    refresh = sso.spec.cookie_spec.refresh;
    secure = sso.spec.cookie_spec.secure;
    http_only = sso.spec.cookie_spec.http_only;
  };
}

-- The checks of `proxyConfig` behind the upstream's, and the rendering.
unfoldable pub checked_config : {S : Type 0} → Sso → OidcClient → List Str → Str → Str → Run S Str
checked_config sso client [] cookie_secret upstream =
    raise (message (str "no redirect URL provided"))
checked_config sso client (redirect ∷ more) cookie_secret upstream =
    if has_prefix sso.spec.oidc_issuer_url (str "https://")
    then pure (render_config (config_of sso client cookie_secret upstream redirect))
    else raise (message (str "issuer URL must used HTTPS"))

-- A range over a nil map has no rounds.
abbrev pub entries_of : Option StrMap → StrMap
entries_of none = []
entries_of (some m) = m

-- The values of a map in the order of this time, as `computeSecretVersion` glues them.
unfoldable pub glue : StrMap → Str
glue [] = []
glue ((k, v) ∷ m) = k ++ (v ++ glue m)

module _ (P : Platform) where
  open P use {Cluster, range_map, sha256, base64_url}

  -- The client is a pointer, dereferenced once the upstream is known.
  unfoldable pub proxy_config : Sso → Option OidcClient → Str → Run Cluster Str
  proxy_config sso pointer cookie_secret = do
    upstream ←
        wrap_err (str "getting the upstream service URL")
          (get_upstream_url P sso.spec.upstream_service sso.meta.namespace)
    client ← deref pointer
    checked_config sso client client.redirect_uris cookie_secret upstream

  unfoldable pub compute_secret_version : Secret → Run Cluster Str
  compute_secret_version secret c =
      let (m, c') = range_map (entries_of secret.string_data) c in
      (ok (base64_url (sha256 (glue m))), c')

  unfoldable pub proxy_secret : Sso → Option OidcClient → Str → StrMap → Run Cluster Secret
  proxy_secret sso pointer cookie_secret labels = do
    config ← wrap_err (str "creating oauth2_proxy config") (proxy_config sso pointer cookie_secret)
    name ← named sso.meta.name config_secret_name
    pure (record {
      type_meta = record { kind = str "Secret"; api_version = str "v1" };
      meta = record no_meta { name = name; namespace = sso.meta.namespace; labels = labels };
      content = [];
      string_data = some ((config_file, config) ∷ []);
      secret_type = str "Opaque";
    })
