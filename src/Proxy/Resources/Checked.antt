-- ===== src/Proxy/Resources/Checked.antt =====
-- When `proxyConfig` gives a configuration, and which.
use sso_operator.Base.{◌≡◌, Bool, true, false, if◌then◌else◌, List, [], ◌∷◌, ◌++◌}
use sso_operator.Base.Text.{Str, str, is_empty, has_prefix, decimal, bool_text}
use sso_operator.Objects.{ServicePort, OidcClient}
use sso_operator.Api.{Sso}
use sso_operator.Platform.{Platform}
use sso_operator.Proxy.Config.{filled, join_lines}

-- A line that is neither empty nor a comment.
abbrev pub sets : Str → Bool
sets l = if is_empty l then false else if has_prefix l (str "#") then false else true

-- The lines of a configuration file that say something.
abbrev pub settings : List Str → List Str
settings [] = []
settings (l ∷ lines) = let rest = settings lines in if sets l then l ∷ rest else rest

-- The settings of the proxy of a resource, with a client, a cookie key, and the URLs of the upstream
-- and of the redirection.
abbrev pub proxy_settings : Sso → OidcClient → Str → Str → Str → List Str
proxy_settings sso client key upstream redirect =
    str "http_address = \":4180\""
    ∷ filled (str "redirect_url = \"") redirect (str "\"")
    ∷ filled (str "login_url = \"") (sso.spec.oidc_issuer_url ++ str "/auth") (str "\"")
    ∷ filled (str "redeem_url = \"") (sso.spec.oidc_issuer_url ++ str "/token") (str "\"")
    ∷ str "upstreams = ["
    ∷ filled (str "    \"") upstream (str "\"")
    ∷ str "]"
    ∷ str "request_logging = true"
    ∷ filled (str "client_id = \"") client.id (str "\"")
    ∷ filled (str "client_secret = \"") client.secret (str "\"")
    ∷ str "pass_basic_auth = false"
    ∷ str "pass_host_header = false"
    ∷ filled (str "pass_access_token = ") (bool_text sso.spec.forward_token) (str "")
    ∷ str "email_domains = ["
    ∷ str "     \"*\""
    ∷ str " ]"
    ∷ filled (str "cookie_name = \"") sso.spec.cookie_spec.name (str "\"")
    ∷ filled (str "cookie_secret = \"") key (str "\"")
    ∷ filled (str "cookie_domain = \"") sso.spec.domain (str "\"")
    ∷ filled (str "cookie_expire = \"") sso.spec.cookie_spec.expire (str "\"")
    ∷ filled (str "cookie_refresh = \"") sso.spec.cookie_spec.refresh (str "\"")
    ∷ filled (str "cookie_secure = ") (bool_text sso.spec.cookie_spec.secure) (str "")
    ∷ filled (str "cookie_httponly = ") (bool_text sso.spec.cookie_spec.http_only) (str "")
    ∷ str "provider = \"oidc\""
    ∷ filled (str "oidc_issuer_url = \"") sso.spec.oidc_issuer_url (str "\"")
    ∷ str "scope = \"openid email profile groups federated:id\""
    ∷ str "skip_provider_button = true"
    ∷ []

-- The text of a configuration file is made of lines, and those that say something are the settings.
pub record Configures (text : Str) (expected : List Str) : Type 0 where
  pub lines : List Str
  pub joined : text ≡ join_lines lines
  pub said : settings lines ≡ expected

abbrev url_of : Str → ServicePort → Str
url_of name port = str "http://" ++ (name ++ (str ":" ++ decimal port.port))
