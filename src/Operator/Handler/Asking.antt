-- ===== src/Operator/Handler/Asking.antt =====
-- The handler's requests to dex and its steps under `deleteClient`: where they panic, and what holds
-- behind them.
use sso_operator.Base.{◌≡◌, ◌≢◌, refl, Bool, true, false, none, some, List}
use sso_operator.Base.Text.{Str}
use sso_operator.Base.Run.{Error, reply, Outcome, ok, err, panic, Run, call, wrap, wrap_err}
use sso_operator.Base.Run.Triple.{
  Post, Triple, Triple-any, Triple-bind, Triple-call, Triple-catch, Triple-raise, Triple-wrap_err,
  Triple-ok,
}
use sso_operator.Base.Run.Returns.{
  Returns, Returns-pure, Returns-call, Returns-wrap_err, Returns-bind_ok, returns_rules,
}
use sso_operator.Objects.{OidcClient, CreateClientResp}
use sso_operator.Platform.{Platform}
use sso_operator.Dex
use sso_operator.Dex.{client_of}
use sso_operator.Operator.Handler.{World, in_cluster, in_dex, delete_client, or_delete}

module _ (P : Platform) where
  -- Dex answers the request for a client with a new one.
  abbrev pub CreatesClients : Type 0
  CreatesClients =
      (c : OidcClient) (d d' : P.Dex) (resp : CreateClientResp)
      → P.dex_create_client c d ≡ (reply resp, d')
      → (resp.already_exists ≡ false) × (resp.client ≢ none)

  module _ {A : Type 0} where
    pub in_cluster-Returns : (m : Run P.Cluster A) → Returns m → Returns (in_cluster P m)
    in_cluster-Returns m rm = record { at = λ w. rm.at w.cluster }

    -- What holds of each value that a run on the cluster returns.
    pub in_cluster-Triple :
        {Q : A → Type 0} (m : Run P.Cluster A)
        → ((c c' : P.Cluster) (a : A) → m c ≡ (ok a, c') → Q a)
        → Triple (λ _. Unit {0}) (in_cluster P m) (λ a _. Q a) (λ _ _. Unit {0})
    in_cluster-Triple {Q} m holds = record { at = λ w h. go w (m w.cluster).0 (m w.cluster).1 refl }
      where
        go :
            (w : World P) (o : Outcome A) (c : P.Cluster)
            → m w.cluster ≡ (o, c)
            → Post (λ a (_ : World P). Q a) (λ _ _. Unit {0}) o (record w { cluster = c })
        go w (ok a) c q = holds w.cluster c a q
        go w (err e) c q = tt
        go w panic c q = tt

    pub in_dex-Returns : (m : Run (P.Dex) A) → Returns m → Returns (in_dex P m)
    in_dex-Returns m rm = record { at = λ w. rm.at w.dex }

  unless_not_found-Returns :
      (not_found : Bool) (text : Str) → Returns (Dex.unless_not_found P not_found text)
  unless_not_found-Returns true text = search returns_rules
  unless_not_found-Returns false text = search returns_rules

  pub update_client-Returns :
      (id : Str) (urls peers : List Str) (name logo : Str)
      → Returns (Dex.update_client P id urls peers false name logo)
  unfolding Dex.update_client
  update_client-Returns id urls peers name logo = search (returns_rules, unless_not_found-Returns)

  pub delete_client-Returns : (id : Str) → Returns (Dex.delete_client P id)
  unfolding Dex.delete_client
  delete_client-Returns id = search (returns_rules, unless_not_found-Returns)

  pub or_delete-Returns :
      {A : Type 0} (c : OidcClient) (text : Str) (m : Run (World P) A)
      → Returns m
      → Returns (or_delete P (some c) text m)
  unfolding or_delete delete_client
  or_delete-Returns c text m rm =
      search (returns_rules, in_dex-Returns, delete_client-Returns) depth 10

  -- `deleteClient` does not return.
  gives_up-Triple :
      {A : Type 0} {Q : A → World P → Type 0} (id : Str) (cause : Error)
      → Triple (λ _. Unit {0}) (delete_client P {A = A} id cause) Q (λ _ _. Unit {0})
  unfolding delete_client
  gives_up-Triple id cause =
      Triple-bind {R = λ _ _. Unit {0}} _ _
        (Triple-catch {R = λ _ _. Unit {0}} _ _ (Triple-any (in_dex P (Dex.delete_client P id)))
          (λ e. Triple-raise _))
        (λ done. Triple-raise cause)

  pub or_delete-Triple :
      {A : Type 0} {Q : A → World P → Type 0} (c : OidcClient) (text : Str) (m : Run (World P) A)
      → Triple (λ _. Unit {0}) m Q (λ _ _. Unit {0})
      → Triple (λ _. Unit {0}) (or_delete P (some c) text m) Q (λ _ _. Unit {0})
  unfolding or_delete
  or_delete-Triple c text m tm = Triple-catch _ _ tm (λ e. gives_up-Triple c.id (wrap e text))

  module _ (creates : CreatesClients) where
    request-Triple :
        (text : Str) (c : OidcClient)
        → Triple
            (λ _. Unit {0})
            (wrap_err text (call (P.dex_create_client c)))
            (λ resp _. (resp.already_exists ≡ false) × (resp.client ≢ none))
            (λ _ _. Unit {0})
    request-Triple text c = Triple-wrap_err _ _ (
        Triple-call (P.dex_create_client c) (λ d d' resp h p. creates c d d' resp p)
          (λ d d' e h p. tt))

    client_of-Triple :
        (resp : CreateClientResp)
        → Triple
            (λ _. (resp.already_exists ≡ false) × (resp.client ≢ none))
            (client_of P resp)
            (λ o _. o ≢ none)
            (λ _ _. Unit {0})
    unfolding client_of
    client_of-Triple resp = record { at = λ d (fresh, n). rw fresh n }

    client_of-Returns :
        (resp : CreateClientResp) → resp.already_exists ≡ false → Returns (client_of P resp)
    unfolding client_of
    client_of-Returns resp fresh = rw fresh (Returns-pure resp.client)

    pub create_client-Triple :
        (urls peers : List Str) (name logo : Str)
        → Triple
            (λ _. Unit {0})
            (Dex.create_client P urls peers false name logo)
            (λ o _. o ≢ none)
            (λ _ _. Unit {0})
    unfolding Dex.create_client
    create_client-Triple urls peers name logo =
        Triple-bind _ (client_of P) (request-Triple _ _) client_of-Triple

    pub create_client-Returns :
        (urls peers : List Str) (name logo : Str)
        → Returns (Dex.create_client P urls peers false name logo)
    unfolding Dex.create_client
    create_client-Returns urls peers name logo =
        Returns-bind_ok _ (client_of P) (Returns-wrap_err _ _ (Returns-call _))
          (λ resp d d' e. client_of-Returns resp (Triple-ok _ (request-Triple _ _) d d' e tt).0)
