-- ===== src/Operator/Handler/Creation.antt =====
-- The handler from the request for a new client on.
use sso_operator.Base.{
  arith, ◌≡◌, refl, ap, false, ◌⊎◌, inl, inr, Option, none, some, [], ◌∷◌, Bool-cases,
}
use sso_operator.Base.Text.{Str}
use sso_operator.Base.Run.{Error, reply, failed}
use sso_operator.Base.Run.Triple.{Triple, Triple-bind, Triple-call, Triple-weaken, Triple-wrap_err}
use sso_operator.Objects.{OidcClient, CreateClientResp}
use sso_operator.Api.{Sso}
use sso_operator.Platform.{Platform}
use sso_operator.Dex.{client_of, create_client}
use sso_operator.Dex.View.{AgreesElsewhere, View, DexLaws, NotDeleted, create-Removed}
use sso_operator.Proxy.Resources.{fake_redirect_url}
use sso_operator.Operator.Config.{Handler}
use sso_operator.Operator.Handler.{World, provision, unless_initialized}
use sso_operator.Operator.Handler.Rollback.{
  Undone, Published, Stored, provision-Triple, in_dex-Triple,
}
use sso_operator.Operator.Handler.NilClient.{requested, provision-nil, client_of-exists}

module _ (P : Platform) where
  open P use {dex_create_client}

  module _ (nil : (text : Str) → P.wrapf_nil text ≡ none) (clients : View P)
      (laws : DexLaws P clients) (sso : Sso) (d₀ : P.Dex) where
    -- Dex answered with a new client.
    abbrev pub Created : OidcClient → P.Dex → Type 0
    Created c d' =
        (resp : CreateClientResp) × (dex_create_client (requested sso) d₀ ≡ (reply resp, d'))
        × (resp.already_exists ≡ false)
        × (resp.client ≡ some c)

    -- Dex failed the request for a client.
    abbrev pub CreateFailed : P.Dex → Type 0
    CreateFailed d' = (e : Error) × (dex_create_client (requested sso) d₀ ≡ (failed e, d'))

    abbrev pub CreatedOrNil : Option OidcClient → P.Dex → Type 0
    CreatedOrNil none d' = Unit {0}
    CreatedOrNil (some c) d' = Created c d'

    client_of-Triple :
        (resp : CreateClientResp)
        → Triple
            (λ d'. dex_create_client (requested sso) d₀ ≡ (reply resp, d'))
            (client_of P resp)
            CreatedOrNil
            (λ _ _. ⊥)
    unfolding client_of
    client_of-Triple resp = elim (Bool-cases resp.already_exists) [
      | inl exists ↦
          Triple-weaken _ (λ d' q. tt) nil_pointer (λ e d' h. h)
            (client_of-exists P nil resp exists)
      | inr fresh ↦ simp fresh (record { at = λ d' q. by_pointer d' fresh q resp.client refl })
    ]
      where
        nil_pointer : (o : Option OidcClient) (d' : P.Dex) → o ≡ none → CreatedOrNil o d'
        nil_pointer none d' e = tt
        nil_pointer (some c) d' e = cc

        by_pointer :
            (d' : P.Dex)
            → resp.already_exists ≡ false
            → dex_create_client (requested sso) d₀ ≡ (reply resp, d')
            → (o : Option OidcClient) → resp.client ≡ o
            → CreatedOrNil o d'
        by_pointer d' fresh q none e = tt
        by_pointer d' fresh q (some c) e = (resp, q, fresh, e)

    pub create_client-Triple :
        Triple
          (λ d. d ≡ d₀)
          (create_client P (fake_redirect_url ∷ []) [] false sso.meta.name [])
          CreatedOrNil
          (λ _. CreateFailed)
    unfolding create_client
    create_client-Triple =
        Triple-bind _ _
          (Triple-wrap_err _ _ (Triple-call (dex_create_client (requested sso)) answered refused))
          λ resp.
            Triple-weaken _ (λ d q. q) (λ o d h. h) (λ e d h. absurd h) (client_of-Triple resp)
      where
        answered :
            (s t : P.Dex) (r : CreateClientResp)
            → s ≡ d₀
            → dex_create_client (requested sso) s ≡ (reply r, t)
            → dex_create_client (requested sso) d₀ ≡ (reply r, t)
        answered s t r e p = cc (ap (dex_create_client (requested sso)) e)

        refused :
            (s t : P.Dex) (x : Error)
            → s ≡ d₀
            → dex_create_client (requested sso) s ≡ (failed x, t)
            → CreateFailed t
        refused s t x e p = (x, cc (ap (dex_create_client (requested sso)) e))

    -- Every look-up of a client in dex gives what it gave before.
    abbrev pub Restored : P.Dex → Type 0
    Restored d = (j : Str) → clients d j ≡ clients d₀ j

    -- What may be left after an error.
    abbrev pub AfterError : P.Dex → Type 0
    AfterError d = Restored d ⊎ ((id : Str) × NotDeleted P clients id d) ⊎ CreateFailed d

    -- What is there after a run with no error: a client that dex did not have before, with the
    -- redirect URLs of some hosts, its id in the stored resource, and the same other clients.
    abbrev pub AfterSuccess : World P → Type 0
    AfterSuccess w =
        (c : OidcClient) × (d' : P.Dex) × Created c d'
        × (clients d₀ c.id ≡ none)
        × AgreesElsewhere P clients c.id d₀ w.dex
        × Published P clients laws c d' w
        × Stored P clients laws c d' sso w

    pub unless_initialized-Triple :
        (h : Handler) (account : Str)
        → Triple
            (λ w. w.dex ≡ d₀)
            (unless_initialized P h sso account false)
            (λ _. AfterSuccess)
            (λ _ w. AfterError w.dex)
    unfolding unless_initialized
    unless_initialized-Triple h account =
        Triple-bind {R = λ o w. CreatedOrNil o w.dex} _ _
          (Triple-weaken _ (λ w p. p) (λ o w q. q) (λ e w q. inr (inr q))
            (Triple-wrap_err _ _ (in_dex-Triple P _ create_client-Triple)))
          with_pointer
      where
        with_client :
            (c : OidcClient) (w : World P)
            → Created c w.dex
            → Triple
                (λ v. v ≡ w)
                (provision P h sso account (some c))
                (λ _. AfterSuccess)
                (λ _ v. AfterError v.dex)
        with_client c w (resp, q, fresh, e) =
            Triple-weaken _ (λ v p j n. rw p)
              (λ _ v p. (c, w.dex, (resp, q, fresh, e), new, elsewhere v p.0, p.0, p.1))
              (λ _ v p. undone v p) (provision-Triple P clients laws c w.dex h sso account)
          where
            new : clients d₀ c.id ≡ none
            new = (laws.creates (requested sso) c d₀ w.dex resp q fresh e).0

            elsewhere :
                (v : World P)
                → Published P clients laws c w.dex v
                → AgreesElsewhere P clients c.id d₀ v.dex
            elsewhere v (hosts, some_host, published) j n =
                let (_, there) = laws.creates (requested sso) c d₀ w.dex resp q fresh e in
                ground (arith, there j, published.1 j n)

            undone : (v : World P) → Undone P clients c.id w.dex v.dex → AfterError v.dex
            undone v (inl gone) =
                inl (
                  create-Removed P clients laws (requested sso) c d₀ w.dex v.dex resp q fresh e
                    gone)
            undone v (inr refused) = inr (inl (c.id, refused))

        with_pointer :
            (o : Option OidcClient)
            → Triple
                (λ (w : World P). CreatedOrNil o w.dex)
                (provision P h sso account o)
                (λ _. AfterSuccess)
                (λ _ w. AfterError w.dex)
        with_pointer none =
            Triple-weaken _ (λ w p. tt) (λ _ w p. absurd p) (λ _ w p. absurd p)
              (provision-nil P h sso account)
        with_pointer (some c) = record { at = λ w p. (with_client c w p).at w refl }
