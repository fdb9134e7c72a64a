-- ===== src/Dex/View.antt =====
-- Dex's clients by their ids, what dex documents of its API, and what the wrapper does to them.
use sso_operator.Base.{
  ◌≡◌, ◌≢◌, refl, ap, sym, subst, ◌∙◌, Bool, true, false, Option, none, some, List, arith,
  if◌then◌else◌,
}
use sso_operator.Base.Text.{Str, same, same_iff}
use sso_operator.Base.Run.{Error, Reply, reply, failed}
use sso_operator.Base.Run.Triple.{Triple, Triple-bind, Triple-call, Triple-wrap_err}
use sso_operator.Objects.{OidcClient, CreateClientResp, UpdateClientReq}
use sso_operator.Platform.{Platform}
use sso_operator.Dex.{unless_not_found, update_client, delete_client}

module _ (P : Platform) where
  open P use {Dex, dex_create_client, dex_update_client, dex_delete_client}

  -- The client that dex keeps under an id.
  abbrev pub View : Type 0
  View = Dex → Str → Option OidcClient

  -- An update request writes these fields of a client.
  abbrev pub overwrite : UpdateClientReq → Option OidcClient → Option OidcClient
  overwrite req none = none
  overwrite req (some c) = some (record c {
    redirect_uris = req.redirect_uris;
    trusted_peers = req.trusted_peers;
    name = req.name;
    logo_url = req.logo_url;
  })

  -- A created client has a new id, and creating, whatever its answer, leaves the clients that are
  -- there. Deleting and updating reach the client of the request's id and no other, and do what they
  -- say when they answer with no error and do not report the client as not found.
  pub record DexLaws (clients : View) : Type 0 where
    pub creates :
        (client c : OidcClient) (d d' : Dex) (resp : CreateClientResp)
        → dex_create_client client d ≡ (reply resp, d')
        → resp.already_exists ≡ false
        → resp.client ≡ some c
        → (clients d c.id ≡ none)
          × ((j : Str) → clients d' j ≡ (if same j c.id then some c else clients d j))
    pub deletes :
        (id : Str) (d d' : Dex)
        → dex_delete_client id d ≡ (reply false, d')
        → (j : Str) → clients d' j ≡ (if same j id then none else clients d j)
    pub updates :
        (req : UpdateClientReq) (d d' : Dex)
        → dex_update_client req d ≡ (reply false, d')
        → (clients d req.id ≢ none)
          × ((j : Str)
              → clients d' j ≡ (if same j req.id then overwrite req (clients d j) else clients d j))
    pub creates_keep :
        (client k : OidcClient) (d : Dex) (j : Str)
        → clients d j ≡ some k
        → clients (dex_create_client client d).1 j ≡ some k
    pub delete_elsewhere :
        (id : Str) (d : Dex) (j : Str)
        → same j id ≡ false
        → clients (dex_delete_client id d).1 j ≡ clients d j
    pub update_elsewhere :
        (req : UpdateClientReq) (d : Dex) (j : Str)
        → same j req.id ≡ false
        → clients (dex_update_client req d).1 j ≡ clients d j

  module _ (clients : View) where
    -- All clients but that of the id are as they were.
    abbrev pub AgreesElsewhere : Str → Dex → Dex → Type 0
    AgreesElsewhere id d d' = (j : Str) → same j id ≡ false → clients d' j ≡ clients d j

    -- The client of the id is gone and all others are as they were.
    abbrev pub Removed : Str → Dex → Dex → Type 0
    Removed id d d' = (j : Str) → clients d' j ≡ (if same j id then none else clients d j)

    -- The last request to dex was to delete the client, and dex failed it or did not find the client.
    abbrev pub NotDeleted : Str → Dex → Type 0
    NotDeleted id d' =
        (d : Dex) × (r : Reply Bool) × (dex_delete_client id d ≡ (r, d')) × (r ≢ reply false)

    module _ (laws : DexLaws clients) (id : Str) (d₀ : Dex) where
      abbrev Agrees : Dex → Type 0
      Agrees d = AgreesElsewhere id d₀ d

      Removed-delete :
          (d d' : Dex) → Agrees d → dex_delete_client id d ≡ (reply false, d') → Removed id d₀ d'
      Removed-delete d d' h q j = ground (arith, laws.deletes id d d' q j, h j)

      -- Where dex's other clients are as they were, deleting the client removes it, or fails.
      pub delete_client-Triple :
          Triple Agrees (delete_client P id) (λ _. Removed id d₀) (λ _. NotDeleted id)
      unfolding delete_client
      delete_client-Triple =
          Triple-bind _ _
            (Triple-wrap_err _ _ (Triple-call (dex_delete_client id) answered refused)) (after _)
        where
          Asked : Bool → Dex → Type 0
          Asked not_found d' =
              (d : Dex) × Agrees d × (dex_delete_client id d ≡ (reply not_found, d'))

          answered :
              (d d' : Dex) (not_found : Bool)
              → Agrees d
              → dex_delete_client id d ≡ (reply not_found, d')
              → Asked not_found d'
          answered d d' not_found h q = (d, h, q)

          refused :
              (d d' : Dex) (e : Error)
              → Agrees d
              → dex_delete_client id d ≡ (failed e, d')
              → NotDeleted id d'
          refused d d' e h q = (d, failed e, q, λ p. cc)

          after :
              (text : Str) (not_found : Bool)
              → Triple
                  (Asked not_found)
                  (unless_not_found P not_found text)
                  (λ _. Removed id d₀)
                  (λ _. NotDeleted id)
          after text true = record { at = λ d' (d, h, q). (d, reply true, q, λ p. cc) }
          after text false = record { at = λ d' (d, h, q). Removed-delete d d' h q }

      -- Dex has the client with these redirect URLs, and its other clients are as they were.
      abbrev pub HasUrls : List Str → Dex → Type 0
      HasUrls urls d =
          ((c : OidcClient) × (clients d id ≡ some c) × (c.redirect_uris ≡ urls)) × Agrees d

      overwritten :
          (req : UpdateClientReq) (o o' : Option OidcClient)
          → o ≢ none
          → o' ≡ overwrite req o
          → (c : OidcClient) × (o' ≡ some c) × (c.redirect_uris ≡ req.redirect_uris)
      overwritten req none o' h e = absurd (h refl)
      overwritten req (some c) o' h e = (_, e, refl)

      HasUrls-update :
          (req : UpdateClientReq) (d d' : Dex)
          → req.id ≡ id
          → Agrees d
          → dex_update_client req d ≡ (reply false, d')
          → HasUrls req.redirect_uris d'
      HasUrls-update req d d' p h q = (
        overwritten req (clients d id) (clients d' id)
            (subst (λ i. clients d i ≢ none) p (laws.updates req d d' q).0)
            (ground (arith, (laws.updates req d d' q).1 id, same_iff id req.id)),
        λ j n. ground (arith, (laws.updates req d d' q).1 j, h j),
      )

      Agrees-update :
          (req : UpdateClientReq) (d d' : Dex) (r : Reply Bool)
          → req.id ≡ id
          → Agrees d
          → dex_update_client req d ≡ (r, d')
          → Agrees d'
      Agrees-update req d d' r p h q j n =
          subst (λ x. clients x j ≡ clients d₀ j) (ap (λ (x : Reply Bool × Dex). x.1) q)
            (laws.update_elsewhere req d j (subst (λ i. same j i ≡ false) (sym p) n) ∙ h j n)

      -- An update that returns has put the redirect URLs in place; one that fails leaves dex's other
      -- clients as they were.
      pub update_client-Triple :
          (urls peers : List Str) (is_public : Bool) (name logo : Str)
          → Triple Agrees
              (update_client P id urls peers is_public name logo)
              (λ _. HasUrls urls)
              (λ _. Agrees)
      unfolding update_client
      update_client-Triple urls peers is_public name logo =
          Triple-bind _ _
            (Triple-wrap_err _ _ (Triple-call (dex_update_client req) answered refused)) (after _)
        where
          req : UpdateClientReq
          req = record {
            id = id;
            redirect_uris = urls;
            trusted_peers = peers;
            name = name;
            logo_url = logo;
          }

          Asked : Bool → Dex → Type 0
          Asked not_found d' = Agrees d' × (not_found ≡ false → HasUrls urls d')

          answered :
              (d d' : Dex) (not_found : Bool)
              → Agrees d
              → dex_update_client req d ≡ (reply not_found, d')
              → Asked not_found d'
          answered d d' not_found h q = (
            Agrees-update req d d' _ refl h q,
            λ e. HasUrls-update req d d' refl h (q ∙ ap (λ b. (reply b, d')) e),
          )

          refused :
              (d d' : Dex) (e : Error)
              → Agrees d
              → dex_update_client req d ≡ (failed e, d')
              → Agrees d'
          refused d d' e h q = Agrees-update req d d' _ refl h q

          after :
              (text : Str) (not_found : Bool)
              → Triple
                  (Asked not_found)
                  (unless_not_found P not_found text)
                  (λ _. HasUrls urls)
                  (λ _. Agrees)
          after text true = record { at = λ d' h. h.0 }
          after text false = record { at = λ d' h. h.1 refl }

    -- Creating a client and deleting it again leaves every look-up as it was.
    pub create-Removed :
        DexLaws clients
        → (client c : OidcClient) (d d' d'' : Dex) (resp : CreateClientResp)
        → dex_create_client client d ≡ (reply resp, d')
        → resp.already_exists ≡ false
        → resp.client ≡ some c
        → Removed c.id d' d''
        → (j : Str) → clients d'' j ≡ clients d j
    create-Removed laws client c d d' d'' resp q fresh e gone j =
        let (new, there) = laws.creates client c d d' resp q fresh e in
        ground (arith, gone j, there j, same_iff j c.id)
