-- ===== src/Dex/Foreign.antt =====
-- The wrapper's calls and the clients of other ids.
use sso_operator.Base.{◌≡◌, Bool, true, false, Option, some, List, ◌∙◌, none}
use sso_operator.Base.Text.{Str, same}
use sso_operator.Base.Run.Keeps.{
  Keeps, Keeps-bind, Keeps-wrap_err, Keeps-call, Keeps-raise, Keeps-pure, Keeps-deref, Keeps-if,
}
use sso_operator.Objects.{OidcClient, CreateClientResp}
use sso_operator.Platform.{Platform}
use sso_operator.Dex.{
  nil_and, client_of, create_client, unless_not_found, update_client, delete_client,
}
use sso_operator.Dex.View.{View, DexLaws}

module _ (P : Platform) (clients : View P) (laws : DexLaws P clients) (j : Str) where
  open P use {Dex, dex_create_client, dex_update_client, dex_delete_client}

  -- Under the id dex keeps this, a client or none.
  abbrev pub Is : Option OidcClient → Dex → Type 0
  Is x d = clients d j ≡ x

  unless_not_found-Keeps :
      (x : Option OidcClient) (not_found : Bool) (text : Str)
      → Keeps (Is x) (unless_not_found P not_found text)
  unless_not_found-Keeps x true text = Keeps-raise _
  unless_not_found-Keeps x false text = Keeps-pure tt

  module _ (x : Option OidcClient) (id : Str) (other : same j id ≡ false) where
    pub delete_client-Keeps : Keeps (Is x) (delete_client P id)
    unfolding delete_client
    delete_client-Keeps =
        Keeps-bind _ _
          (Keeps-wrap_err _ _ (Keeps-call _ (λ d e. laws.delete_elsewhere id d j other ∙ e)))
          (λ not_found. unless_not_found-Keeps x not_found _)

    pub update_client-Keeps :
        (urls peers : List Str) (is_public : Bool) (name logo : Str)
        → Keeps (Is x) (update_client P id urls peers is_public name logo)
    unfolding update_client
    update_client-Keeps urls peers is_public name logo =
        Keeps-bind _ _
          (Keeps-wrap_err _ _ (Keeps-call _ (λ d e. laws.update_elsewhere _ d j other ∙ e)))
          (λ not_found. unless_not_found-Keeps x not_found _)

  nil_and-Keeps : (x : Option OidcClient) (e : Option _) → Keeps (Is x) (nil_and P e)
  nil_and-Keeps x none = Keeps-pure none
  nil_and-Keeps x (some e) = Keeps-raise e

  client_of-Keeps :
      (x : Option OidcClient) (resp : CreateClientResp) → Keeps (Is x) (client_of P resp)
  unfolding client_of
  client_of-Keeps x resp =
      Keeps-if resp.already_exists _ _ (Keeps-deref resp.client _ (λ there e. nil_and-Keeps x _))
        (Keeps-pure resp.client)

  -- A client that is there stays, also when the new client gets an id.
  pub create_client-Keeps :
      (k : OidcClient) (urls peers : List Str) (is_public : Bool) (name logo : Str)
      → Keeps (Is (some k)) (create_client P urls peers is_public name logo)
  unfolding create_client
  create_client-Keeps k urls peers is_public name logo =
      Keeps-bind _ _ (Keeps-wrap_err _ _ (Keeps-call _ (λ d e. laws.creates_keep _ k d j e)))
        (λ resp. client_of-Keeps (some k) resp)
