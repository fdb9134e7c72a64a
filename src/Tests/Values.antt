-- ===== src/Tests/Values.antt =====
-- The resources and states that the tests start from.
use sso_operator.Base.{true, false, none, some, [], ◌∷◌}
use sso_operator.Base.Text.{str}
use sso_operator.Objects.{ObjectMeta, OidcClient, no_resources}
use sso_operator.Api.{Sso}
use sso_operator.Operator.Config.{Handler}
use sso_operator.Operator.Handler.{World}
use sso_operator.Proxy.Resources.{fake_redirect_url}
use sso_operator.Tests.Sample.{Answers, sample, no_type, web_meta}

abbrev pub sso_meta : ObjectMeta
sso_meta = record web_meta { name = str "web-sso" }

abbrev pub web_sso : Sso
web_sso = record {
  type_meta = no_type;
  meta = sso_meta;
  spec = record {
    oidc_issuer_url = str "https://dex.example.com";
    upstream_service = str "web";
    domain = str "example.com";
    cert_issuer_name = [];
    proxy_image = str "proxy";
    proxy_image_tag = str "1.0";
    proxy_image_pull_secret = [];
    proxy_resources = no_resources;
    forward_token = true;
    cookie_spec = record {
      name = str "sso";
      expire = str "1h";
      refresh = [];
      secure = true;
      http_only = true;
    };
    url_template = [];
    skip_expose_service = false;
    ssl_insecure_skip_verify = false;
  };
  status = record { client_id = []; initialized = false };
}

abbrev pub initialized_web : Sso
initialized_web = record web_sso { status = record { client_id = str "id-1"; initialized = true } }

abbrev pub sample_handler : Handler
sample_handler = record {
  cluster_role_name = str "sso-operator";
  operator_config = record { cookie_key = str "key" };
}

-- All goes well.
abbrev pub plain : Answers
plain = record { hosts = str "web.example.com" ∷ []; ssos = []; existing = none }

-- The ingress has no host.
abbrev pub no_host : Answers
no_host = record { hosts = []; ssos = []; existing = none }

-- The cluster has the resource, initialized.
abbrev pub settled : Answers
settled = record { hosts = []; ssos = initialized_web ∷ []; existing = none }

abbrev pub web_client : OidcClient
web_client = record {
  id = str "id-1";
  secret = str "s3cret";
  redirect_uris = fake_redirect_url ∷ [];
  trusted_peers = [];
  is_public = false;
  name = str "web-sso";
  logo_url = [];
}

abbrev pub empty_world : (answers : Answers) → World (sample answers)
empty_world answers = record { cluster = none; dex = none }

abbrev pub world_with_client : (answers : Answers) → World (sample answers)
world_with_client answers = record { cluster = none; dex = some web_client }
