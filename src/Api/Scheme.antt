-- ===== src/Api/Scheme.antt =====
-- The registration of the types with a scheme: pkg/apis/jenkins.io/v1/register.go, and the schemes of
-- the clientsets, pkg/client/clientset/versioned/scheme/register.go and
-- pkg/client/clientset/versioned/fake/register.go. What they call of Kubernetes is a parameter.
use sso_operator.Base.{List, [], ◌∷◌}
use sso_operator.Base.Text.{Str, str}
use sso_operator.Base.Run.{ok, Run}
use sso_operator.Kube.Resources.{group_name, api_version_v1}

-- `schema.GroupVersion`, `GroupKind` and `GroupResource`
pub record SchemeVersion : Type 0 where
  pub group : Str
  pub version : Str

pub record GroupSubject : Type 0 where
  pub group : Str
  pub subject : Str

-- The Go types that are registered.
pub data KnownType : Type 0 where
  go_sso go_sso_list : KnownType

-- `k8s.io/apimachinery/pkg/runtime`: a scheme, and its functions that register types.
pub record Schemes : Type 1 where
  pub Scheme : Type 0
  pub new_scheme : Scheme
  pub add_known_types : SchemeVersion → List KnownType → Scheme → Scheme
  -- `metav1.AddToSchemeVersion`
  pub add_to_group_version : SchemeVersion → Scheme → Scheme
  -- the scheme of the SDK
  pub Sdk : Type 0
  pub add_to_sdk_scheme : Run Scheme (Unit {0}) → Sdk → Sdk
  -- `AddToScheme` of the builder of some functions
  pub built : List (Run Scheme (Unit {0})) → Run Scheme (Unit {0})

abbrev pub scheme_group_version : SchemeVersion
scheme_group_version = record { group = group_name; version = api_version_v1 }

abbrev pub sso_kind : Str
sso_kind = str "SSO"

-- `SchemeSchemeVersion.WithKind(kind).GroupKind()`, and the same of a resource.
unfoldable pub group_kind : Str → GroupSubject
group_kind kind = record { group = scheme_group_version.group; subject = kind }

unfoldable pub group_resource : Str → GroupSubject
group_resource resource = record { group = scheme_group_version.group; subject = resource }

module _ (L : Schemes) where
  open L use {Scheme}

  -- `addKnownTypes`, which returns no error on any path.
  unfoldable pub add_known_types : Run Scheme (Unit {0})
  add_known_types s = (
    ok tt,
    L.add_to_group_version scheme_group_version
        (L.add_known_types scheme_group_version (go_sso ∷ go_sso_list ∷ []) s),
  )

  unfoldable pub add_to_scheme : Run Scheme (Unit {0})
  unfolding add_known_types
  add_to_scheme = L.built (add_known_types ∷ [])

  -- `init`
  unfoldable pub registered : L.Sdk → L.Sdk
  unfolding add_to_scheme
  registered sdk = L.add_to_sdk_scheme add_to_scheme sdk

  -- The scheme of a clientset after `init`, which drops the error of `AddToScheme`.
  unfoldable pub clientset_scheme : Scheme
  unfolding add_to_scheme
  clientset_scheme =
      (add_to_scheme
        (L.add_to_group_version (record { group = []; version = str "v1" }) (L.new_scheme))).1
