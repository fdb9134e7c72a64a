-- ===== src/Client/Typed.antt =====
-- The typed client of SSO resources:
-- pkg/client/clientset/versioned/typed/jenkins.io/v1/sso.go. The value that a method gives beside an
-- error is left out.
pub mod Addresses
pub mod Agreement
use sso_operator.Base.{List, Option}
use sso_operator.Base.Text.{Str, str}
use sso_operator.Base.Run.{Call}
use sso_operator.Api.{Sso, SsoList}
use sso_operator.Client.Rest.{Rest}

module _ {Server : Type 0} (R : Rest Server) where
  open R use {RestClient, Request, GetOptions, ListOptions, DeleteOptions, PatchType, Watch}

  -- `JenkinsV1Client`
  pub record JenkinsV1Client : Type 0 where
    pub rest_client : RestClient

  -- `sSOs`
  pub record SsoClient : Type 0 where
    pub client : RestClient
    pub ns : Str

  unfoldable pub new_ssos : JenkinsV1Client → Str → SsoClient
  new_ssos c namespace = record { client = c.rest_client; ns = namespace }

  -- What the chain of each method builds before it sends it.
  unfoldable pub get_request : SsoClient → Str → GetOptions → Request
  get_request c name options =
      R.get_params (R.name (R.resource (R.namespace (R.get c.client) c.ns) (str "ssos")) name)
        options

  unfoldable pub list_request : SsoClient → ListOptions → Request
  list_request c opts =
      R.list_params (R.resource (R.namespace (R.get c.client) c.ns) (str "ssos")) opts

  unfoldable pub watch_request : SsoClient → ListOptions → Request
  watch_request c opts =
      R.list_params (R.resource (R.namespace (R.get c.client) c.ns) (str "ssos")) (R.watching opts)

  unfoldable pub create_request : SsoClient → Sso → Request
  create_request c sso =
      R.sso_body (R.resource (R.namespace (R.post c.client) c.ns) (str "ssos")) sso

  unfoldable pub update_request : SsoClient → Sso → Request
  update_request c sso =
      R.sso_body
        (R.name (R.resource (R.namespace (R.put c.client) c.ns) (str "ssos")) sso.meta.name) sso

  unfoldable pub delete_request : SsoClient → Str → Option DeleteOptions → Request
  delete_request c name options =
      R.delete_body (R.name (R.resource (R.namespace (R.delete c.client) c.ns) (str "ssos")) name)
        options

  unfoldable pub delete_collection_request :
      SsoClient → Option DeleteOptions → ListOptions → Request
  delete_collection_request c options list_options =
      R.delete_body
        (R.list_params (R.resource (R.namespace (R.delete c.client) c.ns) (str "ssos"))
          list_options)
        options

  unfoldable pub patch_request : SsoClient → Str → PatchType → Str → List Str → Request
  patch_request c name pt data_bytes subresources =
      R.data_body
        (R.name
          (R.sub_resource (R.resource (R.namespace (R.patch c.client pt) c.ns) (str "ssos"))
            subresources)
          name)
        data_bytes

  unfoldable pub get : SsoClient → Str → GetOptions → Call Server Sso
  unfolding get_request
  get c name options = R.into_sso (get_request c name options)

  unfoldable pub list : SsoClient → ListOptions → Call Server SsoList
  unfolding list_request
  list c opts = R.into_list (list_request c opts)

  unfoldable pub watch : SsoClient → ListOptions → Call Server Watch
  unfolding watch_request
  watch c opts = R.watch (watch_request c opts)

  unfoldable pub create : SsoClient → Sso → Call Server Sso
  unfolding create_request
  create c sso = R.into_sso (create_request c sso)

  unfoldable pub update : SsoClient → Sso → Call Server Sso
  unfolding update_request
  update c sso = R.into_sso (update_request c sso)

  unfoldable pub delete : SsoClient → Str → Option DeleteOptions → Call Server (Unit {0})
  unfolding delete_request
  delete c name options = R.error_of (delete_request c name options)

  unfoldable pub delete_collection :
      SsoClient → Option DeleteOptions → ListOptions → Call Server (Unit {0})
  unfolding delete_collection_request
  delete_collection c options list_options =
      R.error_of (delete_collection_request c options list_options)

  unfoldable pub patch : SsoClient → Str → PatchType → Str → List Str → Call Server Sso
  unfolding patch_request
  patch c name pt data_bytes subresources =
      R.into_sso (patch_request c name pt data_bytes subresources)
