-- ===== src/Dex.antt =====
-- The wrapper of dex's gRPC client, pkg/dex/client.go.
pub mod View
pub mod Foreign
pub mod Connection
use sso_operator.Base.{Bool, true, false, Option, none, some, List, [], ◌++◌, if◌then◌else◌}
use sso_operator.Base.Text.{Str, str, quoted}
use sso_operator.Base.Run.{Error, Run, pure, raise, call, deref, message, wrap_err, ◌>>=◌, ◌>>◌}
use sso_operator.Objects.{OidcClient, CreateClientResp, UpdateClientReq}
use sso_operator.Platform.{Platform}

module _ (P : Platform) where
  open P use {Dex, wrapf_nil, dex_create_client, dex_update_client, dex_delete_client}

  -- `return nil, errors.Wrapf(err, …)`, where `err` is nil.
  abbrev nil_and : Option Error → Run Dex (Option OidcClient)
  nil_and none = pure none
  nil_and (some e) = raise e

  -- What `CreateClient` makes of the answer. The client is a pointer. When dex says that there is
  -- one already, its `Id` is read for the text of the error, and the error that is wrapped is nil.
  unfoldable pub client_of : CreateClientResp → Run Dex (Option OidcClient)
  client_of resp =
      if resp.already_exists
      then (do
        there ← deref resp.client
        nil_and (wrapf_nil (str "client " ++ (quoted there.id ++ str " already exists"))))
      else pure resp.client

  unfoldable pub create_client :
      List Str → List Str → Bool → Str → Str → Run Dex (Option OidcClient)
  create_client redirect_uris trusted_peers is_public name logo_url = do
    resp ← wrap_err (str "failed to create the OIDC client") (
        call (
          dex_create_client (record {
            id = [];
            secret = [];
            redirect_uris = redirect_uris;
            trusted_peers = trusted_peers;
            is_public = is_public;
            name = name;
            logo_url = logo_url;
          })))
    client_of resp

  abbrev pub unless_not_found : Bool → Str → Run Dex (Unit {0})
  unless_not_found true text = raise (message text)
  unless_not_found false text = pure tt

  unfoldable pub update_client : Str → List Str → List Str → Bool → Str → Str → Run Dex (Unit {0})
  update_client client_id redirect_uris trusted_peers is_public name logo_url = do
    not_found ← wrap_err (str "failed to update the client with id " ++ quoted client_id) (
        call (
          dex_update_client (record {
            id = client_id;
            redirect_uris = redirect_uris;
            trusted_peers = trusted_peers;
            name = name;
            logo_url = logo_url;
          })))
    unless_not_found not_found (str "update did not find the client with id " ++ quoted client_id)

  unfoldable pub delete_client : Str → Run Dex (Unit {0})
  delete_client id = do
    not_found ←
        wrap_err (str "failed to delete the client with id " ++ quoted id)
          (call (dex_delete_client id))
    unless_not_found not_found (str "delete did not find the client with id " ++ quoted id)
