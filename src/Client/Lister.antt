-- ===== src/Client/Lister.antt =====
-- The lister of SSO resources, pkg/client/listers/jenkins.io/v1/sso.go.
pub mod Lookup
use sso_operator.Base.{List, Option, none, some, ◌++◌}
use sso_operator.Base.Text.{Str, str}
use sso_operator.Base.Run.{Error, Reply, reply, failed, Outcome, ok, err}
use sso_operator.Api.{Sso}
use sso_operator.Client.Library.{Library}

-- `s.namespace + "/" + name`
unfoldable pub key_of : Str → Str → Str
key_of namespace name = namespace ++ (str "/" ++ name)

module _ (L : Library) where
  open L use {Indexer, Selector}

  -- `sSOLister`
  pub record SsoLister : Type 0 where
    pub indexer : Indexer

  -- `sSONamespaceLister`
  pub record SsoNamespaceLister : Type 0 where
    pub indexer : Indexer
    pub namespace : Str

  unfoldable pub new_sso_lister : Indexer → SsoLister
  new_sso_lister indexer = record { indexer = indexer }

  -- `List`, with what it appends and its error.
  unfoldable pub list : SsoLister → Selector → List Sso × Option Error
  list s selector = L.list_all s.indexer selector

  unfoldable pub ssos : SsoLister → Str → SsoNamespaceLister
  ssos s namespace = record { indexer = s.indexer; namespace = namespace }

  unfoldable pub list_in : SsoNamespaceLister → Selector → List Sso × Option Error
  list_in s selector = L.list_all_by_namespace s.indexer s.namespace selector

  get_by_answer : Str → Reply (Option Sso) → Outcome Sso
  get_by_answer name (failed e) = err e
  get_by_answer name (reply none) = err (L.new_not_found (str "sso") name)
  get_by_answer name (reply (some sso)) = ok sso

  unfoldable pub get : SsoNamespaceLister → Str → Outcome Sso
  unfolding get_by_answer
  get s name = get_by_answer name (L.get_by_key s.indexer (key_of s.namespace name))
