-- ===== src/Operator/Config/Stored.antt =====
-- The key of a new handler and the operator's secret.
use sso_operator.Base.{◌≡◌, Option, some, []}
use sso_operator.Base.Text.{Str}
use sso_operator.Base.Dict.{lookup}
use sso_operator.Base.Run.{reply}
use sso_operator.Objects.{StrMap, Secret}
use sso_operator.Platform.{Platform}
use sso_operator.Operator.Config.{operator_secret_name, sso_cookie_key}

module _ (P : Platform) where
  open P use {Cluster, Clientset, get_secret, create_secret}

  -- The content of the operator's secret in a namespace.
  abbrev pub SecretView : Type 0
  SecretView = Cluster → Str → Option StrMap

  -- Reading the secret gives its content; creating it puts its string data there.
  pub record SecretLaws (content : SecretView) : Type 0 where
    pub reads :
        (k : Clientset) (ns : Str) (c c' : Cluster) (s : Secret)
        → get_secret k ns operator_secret_name c ≡ (reply s, c')
        → content c' ns ≡ some s.content
    pub writes :
        (k : Clientset) (ns : Str) (c c' : Cluster) (s s' : Secret)
        → s.meta.name ≡ operator_secret_name
        → s.content ≡ []
        → create_secret k ns s c ≡ (reply s', c')
        → content c' ns ≡ s.string_data

  module _ (content : SecretView) (laws : SecretLaws content) (ns : Str) where
    -- The secret holds this key.
    abbrev pub Holds : Str → Cluster → Type 0
    Holds key c = (m : StrMap) × (content c ns ≡ some m) × (lookup sso_cookie_key m ≡ some key)
