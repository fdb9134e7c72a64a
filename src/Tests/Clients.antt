-- ===== src/Tests/Clients.antt =====
-- The generated client on a small library: an informer is what it lists with and its resync period.
use sso_operator.Base.{
  ℕ, ◌≡◌, refl, ◌≢◌, Bool, true, false, Option, none, some, List, [], ◌∷◌, ◌++◌, find_first, leb,
}
use sso_operator.Base.Text.{Str, str, same}
use sso_operator.Base.Dict.{lookup}
use sso_operator.Base.Run.{message, reply, Call, ok}
use sso_operator.Api.{Sso, SsoList}
use sso_operator.Client.Library.{Library}
use sso_operator.Client.Factory.{
  TypeMap, Factory, new_filtered_shared_informer_factory, start, wait_for_cache_sync, informer_for,
}
use sso_operator.Client.Factory.Operations.{Op, asks, starts, run}
use sso_operator.Client.Factory.Sharing.{informer_for_shared}
use sso_operator.Client.Factory.Starting.{Launch, run-Launch}
use sso_operator.Client.Factory.Syncing.{wait_for_cache_sync-start}
use sso_operator.Client.Lister.{get}
use sso_operator.Client.Lister.Lookup.{meta_key, get_lem}
use sso_operator.Client.SsoInformer.{ssos_resource, sso_type, jenkins_sso_informer, for_resource}
use sso_operator.Client.SsoInformer.Resources.{for_resource-jenkins_sso_informer}
use sso_operator.Client.SsoInformer.Options.{
  done, asks_ssos, asks_other, Uses-new_filtered_sso_informer,
}
use sso_operator.Tests.Sample.{no_type}
use sso_operator.Tests.Values.{web_sso}

abbrev all_of : Str → Str → Str → Call (List Sso) SsoList
all_of client namespace options s = (reply (record { type_meta = no_type; items = s }), s)

abbrev library : Library
library = record {
  Clientset = Str;
  ListOptions = Str;
  Watch = Str;
  Server = List Sso;
  list_ssos = all_of;
  watch_ssos = λ client namespace options s. (reply options, s);
  Informer = (Str → Call (List Sso) SsoList) × ℕ;
  Indexers = Bool;
  new_shared_index_informer = λ lists watches resync indexers. (lists, resync);
  by_namespace = true;
  wait_for_cache_sync = λ i. leb i.1 30;
  Indexer = List Sso;
  Selector = Str;
  get_indexer = λ i. [];
  list_all = λ objects selector. (objects, none);
  list_all_by_namespace = λ objects namespace selector. (objects, none);
  get_by_key = λ objects key. reply (find_first (λ x. same (meta_key x) key) objects);
  new_not_found = λ resource name. message name;
  show_resource = λ group version resource. resource;
}

abbrev tweak : Option (Str → Str)
tweak = some (λ options. options ++ str "app")

abbrev fresh : Factory library
fresh = new_filtered_shared_informer_factory library (str "c") 30 (str "dev") tweak

abbrev make : ℕ → Str → ℕ → (Str → Call (List Sso) SsoList) × ℕ
make n client period = ((λ o. all_of client [] o), n)

-- An informer of pods, which does not sync, and one of services that is started.
abbrev two : Factory library
two = record fresh {
  informers = (str "service", make 7 (str "c") 30) ∷ (str "pod", make 40 (str "c") 30) ∷ [];
  started_informers = (str "service", true) ∷ [];
}

abbrev in_order :
    TypeMap ((Str → Call (List Sso) SsoList) × ℕ) → TypeMap ((Str → Call (List Sso) SsoList) × ℕ)
in_order m = m

abbrev calls : List (Op library)
calls =
    starts in_order
    ∷ asks (str "service") (make 7)
    ∷ starts in_order
    ∷ asks (str "pod") (make 1)
    ∷ []

informer_for_shared_example :
    informer_for library
      (str "pod")
      (make 9)
      (run library calls (informer_for library (str "pod") (make 40) fresh).1).0
    ≡ (
      (informer_for library (str "pod") (make 40) fresh).0,
      (run library calls (informer_for library (str "pod") (make 40) fresh).1).0,
    )
informer_for_shared_example = informer_for_shared library (str "pod") (make 40) (make 9) fresh calls

run-Launch_example :
    Launch two.started_informers
      (run library calls two).0.started_informers
      (run library calls two).1
run-Launch_example = run-Launch library calls two

wait_for_cache_sync-start_example :
    lookup (str "pod") (wait_for_cache_sync library (start library two.informers two).0)
    ≡ some false
unfolding str lookup
wait_for_cache_sync-start_example =
    wait_for_cache_sync-start library two two.informers (str "pod") (refl, (refl, tt)) refl

-- Two resources with the same name.
abbrev stored : List Sso
stored =
    record web_sso { meta = record web_sso.meta { name = str "web"; namespace = str "test" } }
    ∷ record web_sso { meta = record web_sso.meta { name = str "web"; namespace = str "dev" } }
    ∷ []

get_lem_example :
    get library (record { indexer = stored; namespace = str "dev" }) (str "web")
    ≡ ok (record web_sso { meta = record web_sso.meta { name = str "web"; namespace = str "dev" } })
unfolding str
get_lem_example =
    get_lem library stored stored (str "dev") (str "web") (λ key. refl)
      ((refl, refl), ((refl, refl), tt)) refl refl

for_resource-jenkins_sso_informer_example :
    for_resource library ssos_resource (run library calls (jenkins_sso_informer library fresh).1).0
    ≡ (
      ok (record {
        informer = (jenkins_sso_informer library fresh).0;
        group = ssos_resource.group;
        resource = ssos_resource.resource;
      }),
      (run library calls (jenkins_sso_informer library fresh).1).0,
    )
unfolding str
for_resource-jenkins_sso_informer_example =
    for_resource-jenkins_sso_informer library ssos_resource fresh calls

pod_apart : str "pod" ≢ sso_type
unfolding str
pod_apart e = cc

Uses-new_filtered_sso_informer_example :
    (jenkins_sso_informer library
      (informer_for library (str "pod") (make 40) (jenkins_sso_informer library fresh).1).1).0
    ≡ ((λ options. all_of (str "c") (str "dev") (options ++ str "app")), 30)
Uses-new_filtered_sso_informer_example =
    Uses-new_filtered_sso_informer library (str "c") 30 (str "dev") tweak _
      (asks_ssos (asks_other (str "pod") (make 40) pod_apart done))
