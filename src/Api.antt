-- ===== src/Api.antt =====
-- The SSO resource, pkg/apis/jenkins.io/v1/types.go.
pub mod DeepCopy
pub mod Scheme
use sso_operator.Base.{Bool, List}
use sso_operator.Base.Text.{Str}
use sso_operator.Objects.{TypeMeta, ObjectMeta, Resources}

pub record CookieSpec : Type 0 where
  pub name : Str
  pub expire : Str
  pub refresh : Str
  pub secure : Bool
  pub http_only : Bool

pub record SsoSpec : Type 0 where
  pub oidc_issuer_url : Str
  pub upstream_service : Str
  pub domain : Str
  pub cert_issuer_name : Str
  pub proxy_image : Str
  pub proxy_image_tag : Str
  pub proxy_image_pull_secret : Str
  pub proxy_resources : Resources
  pub forward_token : Bool
  pub cookie_spec : CookieSpec
  pub url_template : Str
  pub skip_expose_service : Bool
  pub ssl_insecure_skip_verify : Bool

pub record SsoStatus : Type 0 where
  pub client_id : Str
  pub initialized : Bool

pub record Sso : Type 0 where
  pub type_meta : TypeMeta
  pub meta : ObjectMeta
  pub spec : SsoSpec
  pub status : SsoStatus

pub record SsoList : Type 0 where
  pub type_meta : TypeMeta
  pub items : List Sso
