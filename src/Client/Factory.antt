-- ===== src/Client/Factory.antt =====
-- The shared informer factory, pkg/client/informers/externalversions/factory.go.
pub mod Operations
pub mod Sharing
pub mod Starting
pub mod Syncing
use sso_operator.Base.{ℕ, Bool, true, false, Option, none, some, List, [], ◌∷◌, if◌then◌else◌}
use sso_operator.Base.Text.{Str}
use sso_operator.Base.Dict.{lookup, put}
use sso_operator.Client.Library.{Library}

-- A map whose keys are the types of objects, by their names.
abbrev pub TypeMap : Type 0 → Type 0
TypeMap A = List (Str × A)

-- The loop of `WithCustomResyncConfig` over the entries of the given map.
unfoldable pub put_all : TypeMap ℕ → TypeMap ℕ → TypeMap ℕ
put_all [] m = m
put_all ((k, v) ∷ entries) m = put_all entries (put k v m)

-- `f.startedInformers[informerType]`, false where there is no entry.
unfoldable pub is_started : Str → TypeMap Bool → Bool
is_started t started = elim (lookup t started) [ none ↦ false | some b ↦ b ]

module _ {Informer : Type 0} where
  -- The loop of `Start` over the informers, with those whose `Run` it starts.
  unfoldable pub start_each : TypeMap Informer → TypeMap Bool → TypeMap Bool × TypeMap Informer
  start_each [] started = (started, [])
  start_each ((t, informer) ∷ informers) started =
      let (after, runs) =
        start_each informers (if is_started t started then started else put t true started) in
      (after, if is_started t started then runs else (t, informer) ∷ runs)

  -- The informers that `WaitForCacheSync` waits for: those that were started.
  unfoldable pub started_only : TypeMap Informer → TypeMap Bool → TypeMap Informer
  started_only [] started = []
  started_only ((t, informer) ∷ informers) started =
      let rest = started_only informers started in
      if is_started t started then (t, informer) ∷ rest else rest

  -- Its loop over them.
  unfoldable pub sync_each : (Informer → Bool) → TypeMap Informer → TypeMap Bool
  sync_each wait [] = []
  sync_each wait ((t, informer) ∷ informers) = (t, wait informer) ∷ sync_each wait informers

module _ (L : Library) where
  open L use {Clientset, Informer, ListOptions}

  abbrev pub TweakListOptions : Type 0
  TweakListOptions = Option (ListOptions → ListOptions)

  -- `sharedInformerFactory`. Its lock makes each operation one step.
  pub record Factory : Type 0 where
    pub client : Clientset
    pub namespace : Str
    pub tweak_list_options : TweakListOptions
    pub default_resync : ℕ
    pub custom_resync : TypeMap ℕ
    pub informers : TypeMap Informer
    pub started_informers : TypeMap Bool

  abbrev pub FactoryOption : Type 0
  FactoryOption = Factory → Factory

  unfoldable pub with_custom_resync_config : TypeMap ℕ → FactoryOption
  with_custom_resync_config config f = record f { custom_resync = put_all config f.custom_resync }

  unfoldable pub with_tweak_list_options : TweakListOptions → FactoryOption
  with_tweak_list_options tweak f = record f { tweak_list_options = tweak }

  unfoldable pub with_namespace : Str → FactoryOption
  with_namespace namespace f = record f { namespace = namespace }

  unfoldable pub apply_all : List FactoryOption → FactoryOption
  apply_all [] f = f
  apply_all (opt ∷ options) f = apply_all options (opt f)

  unfoldable pub new_shared_informer_factory_with_options :
      Clientset → ℕ → List FactoryOption → Factory
  unfolding apply_all
  new_shared_informer_factory_with_options client default_resync options =
      apply_all options (record {
        client = client;
        namespace = [];
        tweak_list_options = none;
        default_resync = default_resync;
        custom_resync = [];
        informers = [];
        started_informers = [];
      })

  unfoldable pub new_shared_informer_factory : Clientset → ℕ → Factory
  unfolding new_shared_informer_factory_with_options
  new_shared_informer_factory client default_resync =
      new_shared_informer_factory_with_options client default_resync []

  unfoldable pub new_filtered_shared_informer_factory :
      Clientset → ℕ → Str → TweakListOptions → Factory
  unfolding new_shared_informer_factory_with_options with_namespace with_tweak_list_options
  new_filtered_shared_informer_factory client default_resync namespace tweak =
      new_shared_informer_factory_with_options client default_resync
        (with_namespace namespace ∷ with_tweak_list_options tweak ∷ [])

  -- `Start`. The first argument is the informers in the order in which `range` walks them this time;
  -- what comes back beside the factory are those that `go informer.Run(stopCh)` starts.
  unfoldable pub start : TypeMap Informer → Factory → Factory × TypeMap Informer
  start ranged f =
      let (started, runs) = start_each ranged f.started_informers in
      (record f { started_informers = started }, runs)

  unfoldable pub wait_for_cache_sync : Factory → TypeMap Bool
  wait_for_cache_sync f =
      sync_each (L.wait_for_cache_sync) (started_only f.informers f.started_informers)

  unfoldable pub resync_period : Str → Factory → ℕ
  resync_period t f = elim (lookup t f.custom_resync) [
    | none ↦ f.default_resync
    | some period ↦ period
  ]

  -- `InformerFor` of an object of the type, with the function that makes a new informer.
  unfoldable pub informer_for : Str → (Clientset → ℕ → Informer) → Factory → Informer × Factory
  unfolding resync_period
  informer_for t new_func f = elim (lookup t f.informers) [
    | some informer ↦ (informer, f)
    | none ↦
        let informer = new_func f.client (resync_period t f) in
        (informer, record f { informers = put t informer f.informers })
  ]
