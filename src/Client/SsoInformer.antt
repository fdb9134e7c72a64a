-- ===== src/Client/SsoInformer.antt =====
-- The informer of SSO resources: pkg/client/informers/externalversions/jenkins.io (interface.go,
-- v1/interface.go, v1/sso.go) and generic.go. The factory that those objects point to is an argument.
pub mod Resources
pub mod Options
use sso_operator.Base.{ℕ, Bool, true, false, ◌&&◌, Option, none, some, List, if◌then◌else◌, ◌++◌}
use sso_operator.Base.Text.{Str, str, same}
use sso_operator.Base.Run.{Call, Error, message, Outcome, ok, err}
use sso_operator.Api.{Sso}
use sso_operator.Client.Library.{Library}
use sso_operator.Client.Factory.{TweakListOptions, Factory, informer_for}
use sso_operator.Client.Lister.{SsoLister, new_sso_lister}

-- `schema.GroupVersionResource`
pub record GroupVersionResource : Type 0 where
  pub group : Str
  pub version : Str
  pub resource : Str

-- `reflect.TypeOf(&jenkinsiov1.SSO{})`
abbrev pub sso_type : Str
sso_type = str "*v1.SSO"

-- `v1.SchemeGroupVersion.WithResource("ssos")`
abbrev pub ssos_resource : GroupVersionResource
ssos_resource = record { group = str "jenkins.io"; version = str "v1"; resource = str "ssos" }

-- `==` on the three strings.
abbrev pub same_resource : GroupVersionResource → GroupVersionResource → Bool
same_resource a b = same a.group b.group && (same a.version b.version && same a.resource b.resource)

module _ (L : Library) where
  open L use {Clientset, Informer, Indexers, ListOptions, Watch, Server}

  -- `group`, `version` and `sSOInformer`, which have the same fields.
  pub record Group : Type 0 where
    pub namespace : Str
    pub tweak_list_options : TweakListOptions L

  pub record Version : Type 0 where
    pub namespace : Str
    pub tweak_list_options : TweakListOptions L

  pub record SsoInformer : Type 0 where
    pub namespace : Str
    pub tweak_list_options : TweakListOptions L

  -- `New` of the two packages.
  unfoldable pub new_group : Str → TweakListOptions L → Group
  new_group namespace tweak = record { namespace = namespace; tweak_list_options = tweak }

  unfoldable pub new_version : Str → TweakListOptions L → Version
  new_version namespace tweak = record { namespace = namespace; tweak_list_options = tweak }

  -- `Jenkins`, `V1` and `SSOs`
  unfoldable pub jenkins : Factory L → Group
  unfolding new_group
  jenkins f = new_group f.namespace f.tweak_list_options

  unfoldable pub v1 : Group → Version
  unfolding new_version
  v1 g = new_version g.namespace g.tweak_list_options

  unfoldable pub informer_of_ssos : Version → SsoInformer
  informer_of_ssos v = record { namespace = v.namespace; tweak_list_options = v.tweak_list_options }

  -- `if tweakListOptions != nil { tweakListOptions(&options) }`
  unfoldable pub tweaked : TweakListOptions L → ListOptions → ListOptions
  tweaked none options = options
  tweaked (some tweak) options = tweak options

  unfoldable pub new_filtered_sso_informer :
      Clientset → Str → ℕ → Indexers → TweakListOptions L → Informer
  unfolding tweaked
  new_filtered_sso_informer client namespace resync indexers tweak =
      L.new_shared_index_informer (λ options. L.list_ssos client namespace (tweaked tweak options))
        (λ options. L.watch_ssos client namespace (tweaked tweak options)) resync indexers

  unfoldable pub new_sso_informer : Clientset → Str → ℕ → Indexers → Informer
  unfolding new_filtered_sso_informer
  new_sso_informer client namespace resync indexers =
      new_filtered_sso_informer client namespace resync indexers none

  unfoldable pub default_informer : SsoInformer → Clientset → ℕ → Informer
  unfolding new_filtered_sso_informer
  default_informer s client resync =
      new_filtered_sso_informer client s.namespace resync (L.by_namespace) s.tweak_list_options

  -- `Informer` and `Lister` of an `SSOInformer` of the factory.
  unfoldable pub informer : SsoInformer → Factory L → Informer × Factory L
  unfolding default_informer
  informer s f = informer_for L sso_type (default_informer s) f

  unfoldable pub lister : SsoInformer → Factory L → SsoLister L × Factory L
  unfolding informer
  lister s f = let (i, f') = informer s f in (new_sso_lister L (L.get_indexer i), f')

  -- `f.Jenkins().V1().SSOs().Informer()`
  unfoldable pub jenkins_sso_informer : Factory L → Informer × Factory L
  unfolding jenkins v1 informer_of_ssos informer
  jenkins_sso_informer f = informer (informer_of_ssos (v1 (jenkins f))) f

  -- `genericInformer`
  pub record GenericInformer : Type 0 where
    pub informer : Informer
    pub group : Str
    pub resource : Str

  found_informer : GroupVersionResource → Informer × Factory L → Outcome GenericInformer × Factory L
  found_informer r (i, f) =
      (ok (record { informer = i; group = r.group; resource = r.resource }), f)

  unfoldable pub for_resource :
      GroupVersionResource → Factory L → Outcome GenericInformer × Factory L
  unfolding jenkins_sso_informer found_informer
  for_resource r f =
      if same_resource r ssos_resource then found_informer r (jenkins_sso_informer f) else (
        err (
            message (str "no informer found for " ++ L.show_resource r.group r.version r.resource)),
        f,
      )
