-- ===== src/Proxy/Config.antt =====
-- The configuration file of oauth2_proxy, pkg/proxy/config.go.
use sso_operator.Base.{ℕ, Bool, List, [], ◌∷◌, ◌++◌}
use sso_operator.Base.Text.{Str, str, decimal, bool_text}

pub record Cookie : Type 0 where
  pub name : Str
  pub secret : Str
  pub domain : Str
  pub expire : Str
  pub refresh : Str
  pub secure : Bool
  pub http_only : Bool

pub record Config : Type 0 where
  pub port : ℕ
  pub client_id : Str
  pub client_secret : Str
  pub oidc_issuer_url : Str
  pub redirect_url : Str
  pub login_url : Str
  pub redeem_url : Str
  pub upstream : Str
  pub forward_token : Bool
  pub cookie : Cookie

-- A line of the template with one field in it.
abbrev pub filled : Str → Str → Str → Str
filled before value after = before ++ (value ++ after)

-- The lines of `proxyConfigTemplate` with the fields put in.
unfoldable pub config_lines : Config → List Str
config_lines c =
    str ""
    ∷ str "# OAuth2 Proxy Config File"
    ∷ str ""
    ∷ str "## <addr>:<port> to listen on for HTTP/HTTPS clients"
    ∷ filled (str "http_address = \":") (decimal c.port) (str "\"")
    ∷ str ""
    ∷ str "## the OAuth URLs."
    ∷ filled (str "redirect_url = \"") (c.redirect_url) (str "\"")
    ∷ filled (str "login_url = \"") (c.login_url) (str "\"")
    ∷ filled (str "redeem_url = \"") (c.redeem_url) (str "\"")
    ∷ str ""
    ∷ str "## the http url(s) of the upstream endpoint. If multiple, routing is based on path"
    ∷ str "upstreams = ["
    ∷ filled (str "    \"") (c.upstream) (str "\"")
    ∷ str "]"
    ∷ str ""
    ∷ str "## Log requests to stdout"
    ∷ str "request_logging = true"
    ∷ str ""
    ∷ str "## The OAuth Client ID, Secret"
    ∷ filled (str "client_id = \"") (c.client_id) (str "\"")
    ∷ filled (str "client_secret = \"") (c.client_secret) (str "\"")
    ∷ str ""
    ∷ str "## Pass OAuth Access token to upstream via \"X-Forwarded-Access-Token\""
    ∷ str "pass_basic_auth = false"
    ∷ str "pass_host_header = false"
    ∷ filled (str "pass_access_token = ") (bool_text c.forward_token) (str "")
    ∷ str ""
    ∷ str "## Email Domains to allow authentication for (this authorizes any email on this domain)"
    ∷ str "email_domains = ["
    ∷ str "     \"*\""
    ∷ str " ]"
    ∷ str ""
    ∷ str "## Cookie Settings"
    ∷ str "## Name     - the cookie name"
    ∷ str "## Secret   - the seed string for secure cookies; should be 16, 24, or 32 bytes"
    ∷ str "##            for use with an AES cipher when cookie_refresh or pass_access_token"
    ∷ str "##            is set"
    ∷ str "## Domain   - (optional) cookie domain to force cookies to (ie: .yourcompany.com)"
    ∷ str "## Expire   - (duration) expire timeframe for cookie"
    ∷ str
        "## Refresh  - (duration) refresh the cookie when duration has elapsed after cookie was initially set."
    ∷ str "##            Should be less than cookie_expire; set to 0 to disable."
    ∷ str "##            On refresh, OAuth token is re-validated."
    ∷ str "##            (ie: 1h means tokens are refreshed on request 1hr+ after it was set)"
    ∷ str
        "## Secure   - secure cookies are only sent by the browser of a HTTPS connection (recommended)"
    ∷ str "## HttpOnly - httponly cookies are not readable by javascript (recommended)"
    ∷ filled (str "cookie_name = \"") (c.cookie.name) (str "\"")
    ∷ filled (str "cookie_secret = \"") (c.cookie.secret) (str "\"")
    ∷ filled (str "cookie_domain = \"") (c.cookie.domain) (str "\"")
    ∷ filled (str "cookie_expire = \"") (c.cookie.expire) (str "\"")
    ∷ filled (str "cookie_refresh = \"") (c.cookie.refresh) (str "\"")
    ∷ filled (str "cookie_secure = ") (bool_text c.cookie.secure) (str "")
    ∷ filled (str "cookie_httponly = ") (bool_text c.cookie.http_only) (str "")
    ∷ str ""
    ∷ str "## Provider Specific Configurations"
    ∷ str "provider = \"oidc\""
    ∷ filled (str "oidc_issuer_url = \"") (c.oidc_issuer_url) (str "\"")
    ∷ str "scope = \"openid email profile groups federated:id\""
    ∷ str "skip_provider_button = true"
    ∷ []

unfoldable pub join_lines : List Str → Str
join_lines [] = []
join_lines (l ∷ lines) = l ++ (b'\n' ∷ join_lines lines)

-- `renderConfig`. The template is a constant that parses, and every field it names is there.
unfoldable pub render_config : Config → Str
unfolding config_lines join_lines
render_config c = join_lines (config_lines c)
