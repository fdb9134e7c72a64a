-- ===== src/Operator/Handler/NilClient.antt =====
-- The handler with a nil client.
use sso_operator.Base.{◌≡◌, refl, ap, true, false, Option, none, List, [], ◌∷◌}
use sso_operator.Base.Text.{Str}
use sso_operator.Base.Run.{Error, reply, failed, panic, Run}
use sso_operator.Base.Run.Triple.{
  Triple, Triple-bind, Triple-catch, Triple-call, Triple-pure, Triple-if, Triple-fact, Triple-deref,
  Triple-any, Triple-wrap_err, Triple-panic,
}
use sso_operator.Objects.{OidcClient, CreateClientResp}
use sso_operator.Api.{Sso}
use sso_operator.Platform.{Platform}
use sso_operator.Dex.{client_of, create_client}
use sso_operator.Proxy.Resources.{fake_redirect_url}
use sso_operator.Proxy.Deploy.{Proxy}
use sso_operator.Operator.Config.{Handler}
use sso_operator.Operator.Handler.{
  World, or_delete, expose_unless_skipped, require_hosts, provision, unless_initialized,
}
use sso_operator.Operator.Handler.Rollback.{in_dex-Triple}

-- The client that the handler asks dex for.
abbrev pub requested : Sso → OidcClient
requested sso = record {
  id = [];
  secret = [];
  redirect_uris = fake_redirect_url ∷ [];
  trusted_peers = [];
  is_public = false;
  name = sso.meta.name;
  logo_url = [];
}

module _ (P : Platform) where
  open P use {dex_create_client}

  -- With no client the handler cannot return: it reads the client's id, or its redirect URLs.
  or_delete-nil :
      {A : Type 0} (text : Str) (m : Run (World P) A)
      → Triple (λ _. Unit {0}) (or_delete P none text m) (λ _ _. Unit {0}) (λ _ _. ⊥)
  unfolding or_delete
  or_delete-nil text m = Triple-catch _ _ (Triple-any m) (λ e. record { at = λ w h. tt })

  require_hosts-nil :
      (app_name : Str) (found : List Str)
      → Triple (λ _. Unit {0}) (require_hosts P none app_name found) (λ _ _. Unit {0}) (λ _ _. ⊥)
  unfolding require_hosts
  require_hosts-nil app_name [] = record { at = λ w h. tt }
  require_hosts-nil app_name (host ∷ hosts) = Triple-pure (host ∷ hosts)

  expose-nil :
      (sso : Sso) (proxy : Proxy) (account : Str)
      → Triple
          (λ _. Unit {0})
          (expose_unless_skipped P sso none proxy account)
          (λ _ _. Unit {0})
          (λ _ _. ⊥)
  unfolding expose_unless_skipped
  expose-nil sso proxy account =
      Triple-if sso.spec.skip_expose_service _ _ (Triple-pure tt) (or_delete-nil _ _)

  pub provision-nil :
      (h : Handler) (sso : Sso) (account : Str)
      → Triple (λ _. Unit {0}) (provision P h sso account none) (λ _ _. ⊥) (λ _ _. ⊥)
  unfolding provision
  provision-nil h sso account = Triple-bind _ _ (or_delete-nil _ _) λ proxy.
      Triple-bind _ _ (expose-nil sso proxy account) λ _.
        Triple-bind _ _ (or_delete-nil _ _) λ found.
          Triple-bind _ _ (require_hosts-nil proxy.app_name found)
            λ hosts. record { at = λ w p. tt }

  pub client_of-exists :
      ((text : Str) → P.wrapf_nil text ≡ none)
      → (resp : CreateClientResp) → resp.already_exists ≡ true
      → Triple (λ _. Unit {0}) (client_of P resp) (λ o _. o ≡ none) (λ _ _. ⊥)
  unfolding client_of
  client_of-exists nil resp exists = rw exists (
      Triple-bind _ _ (Triple-deref {Q = λ _ _. Unit {0}} resp.client (λ a s p h. tt))
        (λ there. rw nil (record { at = λ s h. refl })))

  create_client-exists :
      ((text : Str) → P.wrapf_nil text ≡ none)
      → (sso : Sso) (d d' : P.Dex) (resp : CreateClientResp)
      → dex_create_client (requested sso) d ≡ (reply resp, d')
      → resp.already_exists ≡ true
      → Triple
          (λ e. e ≡ d)
          (create_client P (fake_redirect_url ∷ []) [] false sso.meta.name [])
          (λ o _. o ≡ none)
          (λ _ _. ⊥)
  unfolding create_client
  create_client-exists nil sso d d' resp q exists =
      Triple-bind _ _
        (Triple-wrap_err _ _ (Triple-call (dex_create_client (requested sso)) answered refused))
        λ r. Triple-fact _ (λ (e : r ≡ resp). client_of-exists nil r (rw e exists))
    where
      answered :
          (s t : P.Dex) (r : CreateClientResp)
          → s ≡ d
          → dex_create_client (requested sso) s ≡ (reply r, t)
          → (r ≡ resp) × Unit {0}
      answered s t r e p = (cc (ap (dex_create_client (requested sso)) e), tt)

      refused :
          (s t : P.Dex) (x : Error)
          → s ≡ d
          → dex_create_client (requested sso) s ≡ (failed x, t)
          → ⊥
      refused s t x e p = cc (ap (dex_create_client (requested sso)) e)

  -- Where wrapping a nil error gives nil: when dex answers the request for the client of a resource
  -- that is not initialized by saying that the client exists already, the handler panics.
  pub unless_initialized-panics :
      ((text : Str) → P.wrapf_nil text ≡ none)
      → (h : Handler) (sso : Sso) (account : Str) (w : World P) (d' : P.Dex)
        (resp : CreateClientResp)
      → dex_create_client (requested sso) w.dex ≡ (reply resp, d')
      → resp.already_exists ≡ true
      → (unless_initialized P h sso account false w).0 ≡ panic
  unfolding unless_initialized
  unless_initialized-panics nil h sso account w d' resp q exists =
      Triple-panic _
        (Triple-bind _ _
          (Triple-wrap_err _ _
            (in_dex-Triple P _ (create_client-exists nil sso w.dex d' resp q exists)))
          λ o. nil_client o)
        w refl
    where
      nil_client :
          (o : Option OidcClient)
          → Triple (λ (_ : World P). o ≡ none) (provision P h sso account o) (λ _ _. ⊥) (λ _ _. ⊥)
      nil_client o = record { at = λ v e. rw e ((provision-nil h sso account).at v tt) }
