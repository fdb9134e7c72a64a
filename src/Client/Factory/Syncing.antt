-- ===== src/Client/Factory/Syncing.antt =====
-- What `WaitForCacheSync` waits for.
use sso_operator.Base.{◌≡◌, refl, Bool, Option, none, some, [], ◌∷◌, arith, if◌then◌else◌}
use sso_operator.Base.Text.{Str, same_iff}
use sso_operator.Base.Dict.{lookup, NodupKeys}
use sso_operator.Client.Library.{Library}
use sso_operator.Client.Factory.{
  TypeMap, is_started, started_only, sync_each, Factory, start, wait_for_cache_sync,
}
use sso_operator.Client.Factory.Starting.{start_lem}

module _ (L : Library) where
  open L use {Informer}

  lookup-sync_each :
      (t : Str) (wait : Informer → Bool) (informers : TypeMap Informer) (started : TypeMap Bool)
      → lookup t (sync_each wait (started_only informers started)) ≡ (
          if is_started t started
          then (elim (lookup t informers) [ none ↦ none | some i ↦ some (wait i) ])
          else none)
  unfolding lookup sync_each started_only
  lookup-sync_each t wait [] started = ground arith
  lookup-sync_each t wait ((u, i) ∷ informers) started =
      ground (arith, same_iff u t, lookup-sync_each t wait informers started)

  -- `WaitForCacheSync` behind `Start`, where `range` gives each informer of the map once: there is
  -- an answer for a type exactly if the map has an informer of it, and it is that of the informer.
  pub wait_for_cache_sync-start :
      (f : Factory L) (ranged : TypeMap Informer) (t : Str)
      → NodupKeys ranged
      → lookup t ranged ≡ lookup t f.informers
      → lookup t (wait_for_cache_sync L (start L ranged f).0)
        ≡ (elim (lookup t f.informers) [ none ↦ none | some i ↦ some (L.wait_for_cache_sync i) ])
  unfolding wait_for_cache_sync
  wait_for_cache_sync-start f ranged t n e = go (lookup t f.informers) refl
    where
      answers : lookup t (wait_for_cache_sync L (start L ranged f).0) ≡ (
          if is_started t (start L ranged f).0.started_informers
          then (elim (lookup t f.informers) [
            | none ↦ none
            | some i ↦ some (L.wait_for_cache_sync i)
          ])
          else none)
      answers =
          unfold start in
          lookup-sync_each t (L.wait_for_cache_sync) f.informers
            (start L ranged f).0.started_informers

      go :
          (o : Option Informer)
          → lookup t f.informers ≡ o
          → lookup t (wait_for_cache_sync L (start L ranged f).0) ≡ (elim (lookup t f.informers) [
            | none ↦ none
            | some i ↦ some (L.wait_for_cache_sync i)
          ])
      go none absent = ground (arith, answers)
      go (some i) there = ground (arith, answers, start_lem L f ranged t)
