-- ===== src/Client/Library.antt =====
-- What pkg/client takes from client-go: clientsets, informers, indexers and the options of a listing.
use sso_operator.Base.{ℕ, Bool, List, Option}
use sso_operator.Base.Text.{Str}
use sso_operator.Base.Run.{Error, Reply, Call}
use sso_operator.Api.{Sso, SsoList}

pub record Library : Type 1 where
  -- the clientset, and what a listing and a watch of a namespace's SSO resources work on
  pub Clientset : Type 0
  pub ListOptions : Type 0
  pub Watch : Type 0
  pub Server : Type 0
  pub list_ssos : Clientset → Str → ListOptions → Call Server SsoList
  pub watch_ssos : Clientset → Str → ListOptions → Call Server Watch
  -- `cache.NewSharedIndexInformer` of SSO resources: how it lists, how it watches, its resync period
  -- in nanoseconds and its indexers
  pub Informer : Type 0
  pub Indexers : Type 0
  pub new_shared_index_informer :
      (ListOptions → Call Server SsoList)
      → (ListOptions → Call Server Watch)
      → ℕ
      → Indexers
      → Informer
  -- `cache.Indexers{cache.NamespaceIndex: cache.MetaNamespaceIndexFunc}`
  pub by_namespace : Indexers
  -- `cache.WaitForCacheSync` of one informer, until the channel is closed
  pub wait_for_cache_sync : Informer → Bool
  -- the indexer of an informer
  pub Indexer : Type 0
  pub Selector : Type 0
  pub get_indexer : Informer → Indexer
  -- the items that `cache.ListAll` and `cache.ListAllByNamespace` hand over, and their error
  pub list_all : Indexer → Selector → List Sso × Option Error
  pub list_all_by_namespace : Indexer → Str → Selector → List Sso × Option Error
  pub get_by_key : Indexer → Str → Reply (Option Sso)
  -- `errors.NewNotFound` of a resource of the group jenkins.io
  pub new_not_found : Str → Str → Error
  -- `%v` of a group, a version and a resource
  pub show_resource : Str → Str → Str → Str
