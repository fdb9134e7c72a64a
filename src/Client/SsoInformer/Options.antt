-- ===== src/Client/SsoInformer/Options.antt =====
-- The informer of SSO resources and the options of the factory it comes from.
use sso_operator.Base.{ℕ, ◌≡◌, refl, ◌≢◌, ◌⊎◌, inl, inr, Option, none, some, arith}
use sso_operator.Base.Text.{Str, same_iff}
use sso_operator.Base.Dict.{lookup, put, lookup-put}
use sso_operator.Client.Library.{Library}
use sso_operator.Client.Factory.{
  TypeMap, TweakListOptions, Factory, informer_for, resync_period, start,
  new_filtered_shared_informer_factory,
}
use sso_operator.Client.SsoInformer.{
  sso_type, new_filtered_sso_informer, jenkins_sso_informer, default_informer, jenkins, v1,
  informer_of_ssos, informer, tweaked,
}

module _ (L : Library) where
  open L use {Clientset, Informer}

  -- What a program does with a factory, where it asks for SSO resources by `Jenkins().V1().SSOs()`.
  pub data Uses : Factory L → Factory L → Type 0 where
    done : {f : Factory L} → Uses f f
    asks_ssos : {f g : Factory L} → Uses (jenkins_sso_informer L f).1 g → Uses f g
    asks_other :
        {f g : Factory L} (t : Str) (new_func : Clientset → ℕ → Informer)
        → t ≢ sso_type
        → Uses (informer_for L t new_func f).1 g
        → Uses f g
    starts : {f g : Factory L} (ranged : TypeMap Informer) → Uses (start L ranged f).0 g → Uses f g

  module _ (client : Clientset) (resync : ℕ) (namespace : Str) (tweak : TweakListOptions L) where
    abbrev made : Informer
    made = new_filtered_sso_informer L client namespace resync (L.by_namespace) tweak

    -- The options of the factory, and no informer of SSO resources but the one they make.
    record Made (f : Factory L) : Type 0 where
      client_made : f.client ≡ client
      resync_made : resync_period L sso_type f ≡ resync
      namespace_made : f.namespace ≡ namespace
      tweak_made : f.tweak_list_options ≡ tweak
      informer_made :
          (lookup sso_type f.informers ≡ none) ⊎ (lookup sso_type f.informers ≡ some made)

    Made-new : Made (new_filtered_shared_informer_factory L client resync namespace tweak)
    unfolding new_filtered_shared_informer_factory resync_period lookup
    Made-new = record {
      client_made = refl;
      resync_made = refl;
      namespace_made = refl;
      tweak_made = refl;
      informer_made = inl refl;
    }

    -- A further informer is stored, of another type or the one that the options make.
    Made-stored :
        (t : Str) (i : Informer) (f : Factory L)
        → (t ≢ sso_type) ⊎ (i ≡ made)
        → Made f
        → Made (record f { informers = put t i f.informers })
    unfolding resync_period
    Made-stored t i f h m = record {
      client_made = m.client_made;
      resync_made = m.resync_made;
      namespace_made = m.namespace_made;
      tweak_made = m.tweak_made;
      informer_made =
          ground
            (arith, h, m.informer_made, same_iff t sso_type, lookup-put t sso_type i f.informers);
    }

    Made-informer_for :
        (t : Str) (new_func : Clientset → ℕ → Informer) (f : Factory L)
        → (t ≢ sso_type) ⊎ (new_func f.client (resync_period L t f) ≡ made)
        → Made f
        → Made (informer_for L t new_func f).1
    unfolding informer_for
    Made-informer_for t new_func f h m = go (lookup t f.informers) refl
      where
        go : (o : Option Informer) → lookup t f.informers ≡ o → Made (informer_for L t new_func f).1
        go none e = rw (e, informer_for) (Made-stored t _ f h m)
        go (some i) e = rw (e, informer_for) m

    default_informer-made :
        (f : Factory L)
        → Made f
        → default_informer L
            (informer_of_ssos L (v1 L (jenkins L f)))
            f.client
            (resync_period L sso_type f)
          ≡ made
    unfolding default_informer informer_of_ssos v1 jenkins resync_period
    default_informer-made f m = cc (m.client_made, m.resync_made, m.namespace_made, m.tweak_made)

    Made-ssos : (f : Factory L) → Made f → Made (jenkins_sso_informer L f).1
    unfolding jenkins_sso_informer informer
    Made-ssos f m = Made-informer_for sso_type _ f (inr (default_informer-made f m)) m

    jenkins_sso_informer-made : (f : Factory L) → Made f → (jenkins_sso_informer L f).0 ≡ made
    unfolding jenkins_sso_informer informer informer_for
    jenkins_sso_informer-made f m = ground (arith, m.informer_made, default_informer-made f m)

    Made-starts : (ranged : TypeMap Informer) (f : Factory L) → Made f → Made (start L ranged f).0
    unfolding start resync_period
    Made-starts ranged f m = record {
      client_made = m.client_made;
      resync_made = m.resync_made;
      namespace_made = m.namespace_made;
      tweak_made = m.tweak_made;
      informer_made = m.informer_made;
    }

    Uses-Made : {f g : Factory L} → Uses f g → Made f → Made g
    Uses-Made done m = m
    Uses-Made (asks_ssos {f = f} u) m = Uses-Made u (Made-ssos f m)
    Uses-Made (asks_other {f = f} t new_func ne u) m =
        Uses-Made u (Made-informer_for t new_func f (inl ne) m)
    Uses-Made (starts {f = f} ranged u) m = Uses-Made u (Made-starts ranged f m)

  -- However a factory of `NewFilteredSharedInformerFactory` has been used, by requests for the
  -- informer of SSO resources, for those of other types and by `Start`: the informer of SSO resources
  -- is the one that lists and watches with the factory's client, in its namespace, with its tweak of
  -- the options and its resync period.
  pub Uses-new_filtered_sso_informer :
      (client : Clientset) (resync : ℕ) (namespace : Str) (tweak : TweakListOptions L)
      (f : Factory L)
      → Uses (new_filtered_shared_informer_factory L client resync namespace tweak) f
      → let tweaks : L.ListOptions → L.ListOptions =
          λ options. elim tweak [ none ↦ options | some t ↦ t options ] in
        (jenkins_sso_informer L f).0
        ≡ L.new_shared_index_informer
            (λ options. L.list_ssos client namespace (tweaks options))
            (λ options. L.watch_ssos client namespace (tweaks options))
            resync
            (L.by_namespace)
  unfolding new_filtered_sso_informer tweaked
  Uses-new_filtered_sso_informer client resync namespace none f u =
      jenkins_sso_informer-made client resync namespace none f
        (Uses-Made client resync namespace none u (Made-new client resync namespace none))
  Uses-new_filtered_sso_informer client resync namespace (some t) f u =
      jenkins_sso_informer-made client resync namespace (some t) f
        (Uses-Made client resync namespace (some t) u (Made-new client resync namespace (some t)))
