-- ===== src/Operator/Config.antt =====
-- The cookie key in the operator's secret, pkg/operator/config.go, and `NewHandler`.
pub mod Stored
use sso_operator.Base.{
  Option, none, some, List, [], ◌∷◌, ◌⊎◌, inl, inr, Bool, true, false, if◌then◌else◌,
}
use sso_operator.Base.Text.{Str, str}
use sso_operator.Base.Dict.{lookup}
use sso_operator.Base.Run.{
  Error, Run, pure, raise, call, catch, try, message, wrap, wrap_err, ◌>>=◌, ◌>>◌,
}
use sso_operator.Objects.{Secret, TypeMeta, no_meta}
use sso_operator.Platform.{Platform}
use sso_operator.Kube.Client.{get_clientset}
use sso_operator.Proxy.CookieKey.{generate_cookie_key}

abbrev pub operator_secret_name : Str
operator_secret_name = str "operator-secret"

abbrev pub sso_cookie_key : Str
sso_cookie_key = str "ssoCookieKey"

pub record OperatorConfig : Type 0 where
  pub cookie_key : Str

pub record Handler : Type 0 where
  pub cluster_role_name : Str
  pub operator_config : OperatorConfig

unfoldable pub config_secret : Str → OperatorConfig → Secret
config_secret namespace config = record {
  type_meta = record { kind = str "Secret"; api_version = str "v1" };
  meta = record no_meta { name = operator_secret_name; namespace = namespace };
  content = [];
  string_data = some ((sso_cookie_key, config.cookie_key) ∷ []);
  secret_type = str "Opaque";
}

module _ (P : Platform) where
  open P use {Cluster, get_secret, delete_secret, create_secret, is_not_found}

  unfoldable pub delete_operator_config_secret : Str → Run Cluster (Unit {0})
  delete_operator_config_secret namespace = do
    client ← wrap_err (str "getting k8s client") (get_clientset P)
    call (delete_secret client namespace operator_secret_name)

  -- The secret could not be read.
  unfoldable pub unreadable : Str → Error → Run Cluster OperatorConfig
  unreadable namespace e =
      if is_not_found e then raise (message (str "operator config secret not found")) else (do
        wrap_err (str "cleaning up the operator config secert")
            (delete_operator_config_secret namespace)
        raise (wrap e (str "cleaning up the operator config secret due to error")))

  -- The secret was read, and has the key or not.
  unfoldable pub with_key : Str → Option Str → Run Cluster OperatorConfig
  with_key namespace (some key) = pure (record { cookie_key = key })
  with_key namespace none = do
    wrap_err (str "cleaning up the operator config secert because cookie key is missing")
        (delete_operator_config_secret namespace)
    raise (message (str "sso cookie key not found in operator secret"))

  unfoldable pub by_answer : Str → Secret ⊎ Error → Run Cluster OperatorConfig
  unfolding unreadable with_key
  by_answer namespace (inr e) = unreadable namespace e
  by_answer namespace (inl secret) = with_key namespace (lookup sso_cookie_key secret.content)

  unfoldable pub get_operator_config_from_secret : Str → Run Cluster OperatorConfig
  get_operator_config_from_secret namespace = do
    client ← wrap_err (str "getting k8s client") (get_clientset P)
    found ← try (call (get_secret client namespace operator_secret_name))
    by_answer namespace found

  unfoldable pub store_operator_config_in_secret : Str → OperatorConfig → Run Cluster (Unit {0})
  store_operator_config_in_secret namespace config = do
    client ← wrap_err (str "getting k8s client") (get_clientset P)
    call (create_secret client namespace (config_secret namespace config))
    pure tt

  -- `NewHandler` where the configuration could not be read.
  unfoldable pub generate_config : Str → Run Cluster OperatorConfig
  generate_config namespace = do
    key ← wrap_err (str "generating the sso cookie key") (generate_cookie_key P)
    let config : OperatorConfig = record { cookie_key = key }
    wrap_err (str "storing the operator config in a secret")
        (store_operator_config_in_secret namespace config)
    pure config

  unfoldable pub new_handler : Str → Str → Run Cluster Handler
  new_handler namespace cluster_role_name = do
    config ← catch (get_operator_config_from_secret namespace) (λ e. generate_config namespace)
    pure (record { cluster_role_name = cluster_role_name; operator_config = config })
