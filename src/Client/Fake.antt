-- ===== src/Client/Fake.antt =====
-- The fake client of SSO resources for tests,
-- pkg/client/clientset/versioned/typed/jenkins.io/v1/fake/fake_sso.go, over the fixture of client-go.
pub mod Selection
use sso_operator.Base.{Bool, true, false, List, [], ◌∷◌, Option, none, some, if◌then◌else◌}
use sso_operator.Base.Text.{Str, str}
use sso_operator.Base.Run.{Error, Reply, Call, Run, Outcome, ok, err, panic, pure, crash, ◌>>=◌}
use sso_operator.Objects.{StrMap}
use sso_operator.Api.{Sso, SsoList}
use sso_operator.Client.Rest.{Rest}

-- A `runtime.Object`.
pub data Object : Type 0 where
  an_sso : Sso → Object
  an_sso_list : SsoList → Object
  another_object : Str → Object

-- A group, a version and a resource or kind.
pub record GroupVersion : Type 0 where
  pub group : Str
  pub version : Str
  pub subject : Str

abbrev pub ssos_group_resource : GroupVersion
ssos_group_resource = record { group = str "jenkins.io"; version = str "v1"; subject = str "ssos" }

abbrev pub ssos_kind : GroupVersion
ssos_kind = record { group = str "jenkins.io"; version = str "v1"; subject = str "SSO" }

-- `&jenkinsiov1.SSO{}` and `&jenkinsiov1.SSOList{}`
abbrev pub zero_sso : Sso
zero_sso = record {
  type_meta = record { kind = []; api_version = [] };
  meta = record { name = []; namespace = []; uid = []; labels = []; annotations = []; owners = [] };
  spec = record {
    oidc_issuer_url = [];
    upstream_service = [];
    domain = [];
    cert_issuer_name = [];
    proxy_image = [];
    proxy_image_tag = [];
    proxy_image_pull_secret = [];
    proxy_resources = record { limits = []; requests = [] };
    forward_token = false;
    cookie_spec = record {
      name = [];
      expire = [];
      refresh = [];
      secure = false;
      http_only = false;
    };
    url_template = [];
    skip_expose_service = false;
    ssl_insecure_skip_verify = false;
  };
  status = record { client_id = []; initialized = false };
}

abbrev pub zero_sso_list : SsoList
zero_sso_list = record { type_meta = record { kind = []; api_version = [] }; items = [] }

module _ {Server : Type 0} (R : Rest Server) where
  -- `k8s.io/client-go/testing`: the actions, and what the fixture answers to one, where an object and
  -- an error may both be there.
  pub record Testing : Type 1 where
    pub Fixture : Type 0
    pub Action : Type 0
    pub new_get_action : GroupVersion → Str → Str → Action
    pub new_list_action : GroupVersion → GroupVersion → Str → R.ListOptions → Action
    pub new_watch_action : GroupVersion → Str → R.ListOptions → Action
    pub new_create_action : GroupVersion → Str → Sso → Action
    pub new_update_action : GroupVersion → Str → Sso → Action
    pub new_delete_action : GroupVersion → Str → Str → Action
    pub new_delete_collection_action : GroupVersion → Str → R.ListOptions → Action
    pub new_patch_subresource_action : GroupVersion → Str → Str → Str → List Str → Action
    pub invokes : Action → Object → Fixture → (Option Object × Option Error) × Fixture
    pub invokes_watch : Action → Call Fixture R.Watch
    pub Selector : Type 0
    -- the label selector of the options
    pub label_of : R.ListOptions → Option Selector
    pub everything : Selector
    pub matches : Selector → StrMap → Bool

module _ {Server : Type 0} {R : Rest Server} (T : Testing R) where
  open T use {Fixture, Action, Selector}

  -- `FakeSSOs`
  pub record FakeSsos : Type 0 where
    pub ns : Str

  unfoldable pub get_action : FakeSsos → Str → Action
  get_action c name = T.new_get_action ssos_group_resource c.ns name

  unfoldable pub list_action : FakeSsos → R.ListOptions → Action
  list_action c opts = T.new_list_action ssos_group_resource ssos_kind c.ns opts

  unfoldable pub watch_action : FakeSsos → R.ListOptions → Action
  watch_action c opts = T.new_watch_action ssos_group_resource c.ns opts

  unfoldable pub create_action : FakeSsos → Sso → Action
  create_action c sso = T.new_create_action ssos_group_resource c.ns sso

  unfoldable pub update_action : FakeSsos → Sso → Action
  update_action c sso = T.new_update_action ssos_group_resource c.ns sso

  unfoldable pub delete_action : FakeSsos → Str → Action
  delete_action c name = T.new_delete_action ssos_group_resource c.ns name

  unfoldable pub delete_collection_action : FakeSsos → R.ListOptions → Action
  delete_collection_action c list_options =
      T.new_delete_collection_action ssos_group_resource c.ns list_options

  unfoldable pub patch_action : FakeSsos → Str → Str → List Str → Action
  patch_action c name data_bytes subresources =
      T.new_patch_subresource_action ssos_group_resource c.ns name data_bytes subresources

  -- `if obj == nil { return nil, err }` and `return obj.(*jenkinsiov1.SSO), err`
  abbrev as_sso : Option Object × Option Error → Run Fixture (Option Sso × Option Error)
  as_sso (none, e) = pure (none, e)
  as_sso (some (an_sso x), e) = pure (some x, e)
  as_sso (some (an_sso_list xs), e) = crash
  as_sso (some (another_object k), e) = crash

  abbrev answer_of : Action → Object → Run Fixture (Option Object × Option Error)
  answer_of action default_object s =
      let (answer, s') = T.invokes action default_object s in (ok answer, s')

  unfoldable pub fake_get : FakeSsos → Str → R.GetOptions → Run Fixture (Option Sso × Option Error)
  unfolding get_action
  fake_get c name options = answer_of (get_action c name) (an_sso zero_sso) >>= as_sso

  unfoldable pub fake_create : FakeSsos → Sso → Run Fixture (Option Sso × Option Error)
  unfolding create_action
  fake_create c sso = answer_of (create_action c sso) (an_sso zero_sso) >>= as_sso

  unfoldable pub fake_update : FakeSsos → Sso → Run Fixture (Option Sso × Option Error)
  unfolding update_action
  fake_update c sso = answer_of (update_action c sso) (an_sso zero_sso) >>= as_sso

  unfoldable pub fake_patch :
      FakeSsos → Str → R.PatchType → Str → List Str → Run Fixture (Option Sso × Option Error)
  unfolding patch_action
  fake_patch c name pt data_bytes subresources =
      answer_of (patch_action c name data_bytes subresources) (an_sso zero_sso) >>= as_sso

  abbrev error_only : Option Object × Option Error → Run Fixture (Option Error)
  error_only (obj, e) = pure e

  unfoldable pub fake_delete : FakeSsos → Str → Option R.DeleteOptions → Run Fixture (Option Error)
  unfolding delete_action
  fake_delete c name options = answer_of (delete_action c name) (an_sso zero_sso) >>= error_only

  unfoldable pub fake_delete_collection :
      FakeSsos → Option R.DeleteOptions → R.ListOptions → Run Fixture (Option Error)
  unfolding delete_collection_action
  fake_delete_collection c options list_options =
      answer_of (delete_collection_action c list_options) (an_sso_list zero_sso_list) >>= error_only

  unfoldable pub fake_watch : FakeSsos → R.ListOptions → Call Fixture R.Watch
  unfolding watch_action
  fake_watch c opts = T.invokes_watch (watch_action c opts)

  abbrev label_or_everything : R.ListOptions → Selector
  label_or_everything opts = elim (T.label_of opts) [ none ↦ T.everything | some label ↦ label ]

  -- The loop over the items.
  unfoldable pub select : Selector → List Sso → List Sso
  select label [] = []
  select label (x ∷ xs) =
      let rest = select label xs in if T.matches label x.meta.labels then x ∷ rest else rest

  abbrev as_list :
      R.ListOptions → Option Object × Option Error → Run Fixture (Option SsoList × Option Error)
  as_list opts (none, e) = pure (none, e)
  as_list opts (some (an_sso x), e) = crash
  as_list opts (some (an_sso_list l), e) =
      pure (some (record zero_sso_list { items = select (label_or_everything opts) l.items }), e)
  as_list opts (some (another_object k), e) = crash

  unfoldable pub fake_list : FakeSsos → R.ListOptions → Run Fixture (Option SsoList × Option Error)
  unfolding list_action select
  fake_list c opts = answer_of (list_action c opts) (an_sso_list zero_sso_list) >>= as_list opts
