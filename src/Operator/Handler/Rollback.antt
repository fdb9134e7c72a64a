-- ===== src/Operator/Handler/Rollback.antt =====
-- What the handler leaves in dex when it provisions a resource.
use sso_operator.Base.{◌≡◌, ◌≢◌, refl, true, false, ◌⊎◌, inl, inr, some, List, [], ◌∷◌}
use sso_operator.Base.Text.{Str}
use sso_operator.Base.Run.{
  Error, Reply, outcome, reply, failed, Outcome, ok, err, panic, wrap, Run, Call, call,
}
use sso_operator.Base.Run.Triple.{
  Post, Triple, Triple-bind, Triple-catch, Triple-pure, Triple-weaken, Triple-if, Triple-fact,
  Triple-err,
}
use sso_operator.Objects.{OidcClient}
use sso_operator.Api.{Sso}
use sso_operator.Platform.{Platform}
use sso_operator.Dex
use sso_operator.Dex.View.{
  View, DexLaws, AgreesElsewhere, Removed, NotDeleted, HasUrls, delete_client-Triple,
  update_client-Triple,
}
use sso_operator.Proxy.Resources.{convert_hosts_to_redirect_urls}
use sso_operator.Proxy.Deploy.{Proxy}
use sso_operator.Operator.Config.{Handler}
use sso_operator.Operator.Handler.{
  World, in_cluster, in_dex, delete_client, or_delete, expose_unless_skipped, require_hosts,
  initialized_sso, provision,
}

module _ (P : Platform) where
  open P use {Cluster, sdk_update_sso}

  module _ {A : Type 0} where
    -- A run on the cluster leaves dex alone.
    pub in_cluster-Triple :
        (I : P.Dex → Type 0) (m : Run Cluster A)
        → Triple (λ (w : World P). I w.dex) (in_cluster P m) (λ _ w. I w.dex) (λ _ w. I w.dex)
    in_cluster-Triple I m = record { at = λ w h. go w h (m w.cluster).0 (m w.cluster).1 }
      where
        go :
            (w : World P)
            → I w.dex
            → (o : Outcome A) (c : Cluster)
            → Post (λ _ (v : World P). I v.dex) (λ _ v. I v.dex) o (record w { cluster = c })
        go w h (ok a) c = h
        go w h (err e) c = h
        go w h panic c = tt

    pub in_dex-Triple :
        {Pre : P.Dex → Type 0} {Q : A → P.Dex → Type 0} {E : Error → P.Dex → Type 0}
        (m : Run (P.Dex) A)
        → Triple Pre m Q E
        → Triple (λ (w : World P). Pre w.dex) (in_dex P m) (λ a w. Q a w.dex) (λ e w. E e w.dex)
    in_dex-Triple {Q} {E} m tm = record { at = λ w h. go w (m w.dex).0 (m w.dex).1 (tm.at w.dex h) }
      where
        go :
            (w : World P) (o : Outcome A) (d : P.Dex)
            → Post Q E o d
            → Post (λ a (v : World P). Q a v.dex) (λ e v. E e v.dex) o (record w { dex = d })
        go w (ok a) d h = h
        go w (err e) d h = h
        go w panic d h = h

  -- What is left when the handler gives up: the client is gone and all other clients of dex are as
  -- they were, or deleting the client, the last request, was refused.
  abbrev pub Undone : View P → Str → P.Dex → P.Dex → Type 0
  Undone clients id d₀ d = Removed P clients id d₀ d ⊎ NotDeleted P clients id d

  module _ (clients : View P) (laws : DexLaws P clients) (c : OidcClient) (d₀ : P.Dex) where
    abbrev pub Kept : World P → Type 0
    Kept w = AgreesElsewhere P clients c.id d₀ w.dex

    abbrev pub Gone : World P → Type 0
    Gone w = Undone clients c.id d₀ w.dex

    -- `deleteClient` never returns: an error comes back in any case.
    delete_client-Gone :
        {A : Type 0} {Q : A → World P → Type 0} (cause : Error)
        → Triple Kept (delete_client P {A = A} c.id cause) Q (λ _. Gone)
    unfolding delete_client
    delete_client-Gone cause =
        Triple-bind {R = λ _ w. Removed P clients c.id d₀ w.dex} _ _
          (Triple-catch _ _ (in_dex-Triple _ (delete_client-Triple P clients laws c.id d₀))
            (λ e. record { at = λ w h. inr h }))
          (λ _. record { at = λ w h. inl h })

    or_delete-Triple :
        {A : Type 0} {Pre : World P → Type 0} {Q : A → World P → Type 0} (text : Str)
        (m : Run (World P) A)
        → Triple Pre m Q (λ _. Kept)
        → Triple Pre (or_delete P (some c) text m) Q (λ _. Gone)
    unfolding or_delete
    or_delete-Triple text m tm = Triple-catch _ _ tm (λ e. delete_client-Gone (wrap e text))

    -- A step on the cluster, under `or_delete`.
    cluster_step :
        {A : Type 0} (text : Str) (m : Run Cluster A)
        → Triple Kept (or_delete P (some c) text (in_cluster P m)) (λ _. Kept) (λ _. Gone)
    cluster_step text m =
        or_delete-Triple text _ (in_cluster-Triple (AgreesElsewhere P clients c.id d₀) m)

    expose-Triple :
        (sso : Sso) (proxy : Proxy) (account : Str)
        → Triple Kept (expose_unless_skipped P sso (some c) proxy account) (λ _. Kept) (λ _. Gone)
    unfolding expose_unless_skipped
    expose-Triple sso proxy account =
        Triple-if sso.spec.skip_expose_service _ _ (Triple-pure tt) (cluster_step _ _)

    require_hosts-Triple :
        (app_name : Str) (hosts : List Str)
        → Triple Kept
            (require_hosts P (some c) app_name hosts)
            (λ hs w. (hs ≢ []) × Kept w)
            (λ _. Gone)
    unfolding require_hosts
    require_hosts-Triple app_name [] = delete_client-Gone _
    require_hosts-Triple app_name (h ∷ hosts) = record { at = λ w k. ((λ e. cc), k) }

    -- Dex has the client with the redirect URLs of some hosts, one at least.
    abbrev pub Published : World P → Type 0
    Published w =
        (hosts : List Str) × (hosts ≢ [])
        × HasUrls P clients laws c.id d₀ (convert_hosts_to_redirect_urls hosts) w.dex

    -- The last request to the cluster stored the resource as initialized with the client's id.
    abbrev pub Stored : Sso → World P → Type 0
    Stored sso w =
        (u : Cluster) × (stored : Sso) × (sdk_update_sso
            (record sso { status = record { client_id = c.id; initialized = true } }) u
          ≡ (reply stored, w.cluster))

    module _ (hosts : List Str) where
      -- Dex has the client with the redirect URLs of these hosts.
      abbrev HasHosts : World P → Type 0
      HasHosts w = HasUrls P clients laws c.id d₀ (convert_hosts_to_redirect_urls hosts) w.dex

      update_step :
          (text : Str) (name : Str)
          → Triple Kept
              (or_delete P (some c) text (
                in_dex P (
                  Dex.update_client P c.id
                    (convert_hosts_to_redirect_urls hosts)
                    []
                    false
                    name
                    [])))
              (λ _. HasHosts)
              (λ _. Gone)
      update_step text name =
          or_delete-Triple text _
            (in_dex-Triple _ (update_client-Triple P clients laws c.id d₀ _ [] false name []))

      published_step :
          {A : Type 0} (text : Str) (m : Run Cluster A)
          → Triple HasHosts (or_delete P (some c) text (in_cluster P m)) (λ _. HasHosts) (λ _. Gone)
      published_step text m = or_delete-Triple text _ (
          Triple-weaken _ (λ w p. p) (λ a w p. p) (λ e w p. p.1)
            (in_cluster-Triple
              (HasUrls P clients laws c.id d₀ (convert_hosts_to_redirect_urls hosts)) m))

      store_step :
          (text : Str) (sso : Sso)
          → Triple HasHosts
              (or_delete P
                (some c)
                text
                (in_cluster P (call (sdk_update_sso (initialized_sso P sso c.id)))))
              (λ _ w. HasHosts w × Stored sso w)
              (λ _. Gone)
      store_step text sso =
          or_delete-Triple text _
            (record { at = λ w h. go w h (request w.cluster).0 (request w.cluster).1 refl })
        where
          request : Call Cluster Sso
          request = sdk_update_sso (initialized_sso P sso c.id)

          go :
              (w : World P)
              → HasHosts w
              → (r : Reply Sso) (u : Cluster) → request w.cluster ≡ (r, u)
              → Post {A = Sso}
                  (λ _ v. HasHosts v × Stored sso v)
                  (λ _ v. Kept v)
                  (outcome r)
                  (record w { cluster = u })
          go w h (reply stored) u q = (h, (w.cluster, stored, q))
          go w h (failed e) u q = h.1

    pub provision-Triple :
        (h : Handler) (sso : Sso) (account : Str)
        → Triple Kept
            (provision P h sso account (some c))
            (λ _ w. Published w × Stored sso w)
            (λ _. Gone)
    unfolding provision
    provision-Triple h sso account = Triple-bind _ _ (cluster_step _ _) λ proxy.
        Triple-bind _ _ (expose-Triple sso proxy account) λ _.
          Triple-bind _ _ (cluster_step _ _) λ found.
            Triple-bind _ _ (require_hosts-Triple proxy.app_name found) λ hosts.
              Triple-fact _ λ some_host. Triple-bind _ _ (update_step hosts _ sso.meta.name) λ _.
                Triple-bind _ _ (published_step hosts _ _) λ _.
                  Triple-bind _ _ (store_step hosts _ sso)
                    λ _. record { at = λ w p. ((hosts, some_host, p.0), p.1) }

    -- Where dex keeps `DexLaws`: when provisioning a resource, from the deployment on, with a
    -- client returns an error, the client is gone from dex and all other clients are as they were,
    -- or the last request to dex was the one to delete the client, and dex failed it or did not
    -- find the client.
    pub provision-Undone :
        (h : Handler) (sso : Sso) (account : Str) (w w' : World P) (e : Error)
        → w.dex ≡ d₀
        → provision P h sso account (some c) w ≡ (err e, w')
        → Undone clients c.id d₀ w'.dex
    provision-Undone h sso account w w' e p q =
        Triple-err _ (provision-Triple h sso account) w w' q (λ j n. rw p)
