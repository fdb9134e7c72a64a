-- ===== src/Client/Typed/Addresses.antt =====
-- What requests and actions are for.
use sso_operator.Base.{◌≡◌, ap, false, List, [], Option, none, some}
use sso_operator.Base.Text.{Str, str, is_empty}
use sso_operator.Api.{Sso}
use sso_operator.Client.Rest.{Rest}
use sso_operator.Client.Fake.{GroupVersion, Testing}

pub data Verb : Type 0 where
  gets : Verb
  posts : Verb
  puts : Verb
  deletes : Verb
  patches : Verb

-- What a request is for.
pub record Address : Type 0 where
  pub verb : Verb
  pub namespace : Str
  pub resource : Str
  pub name : Option Str
  pub sub_resource : Str

abbrev pub blank : Verb → Address
blank verb = record { verb = verb; namespace = []; resource = []; name = none; sub_resource = [] }

abbrev pub ssos_at : Verb → Str → Option Str → Str → Address
ssos_at verb namespace name sub_resource = record {
  verb = verb;
  namespace = namespace;
  resource = str "ssos";
  name = name;
  sub_resource = sub_resource;
}

-- How the REST client builds a request: each part is set once, a name is not empty, and options and
-- bodies change no part. `join` is `path.Join`.
pub record Addressed {Server : Type 0} (R : Rest Server) (join : List Str → Str) : Type 0 where
  pub address : R.Request → Address
  pub of_get : (c : R.RestClient) → address (R.get c) ≡ blank gets
  pub of_post : (c : R.RestClient) → address (R.post c) ≡ blank posts
  pub of_put : (c : R.RestClient) → address (R.put c) ≡ blank puts
  pub of_delete : (c : R.RestClient) → address (R.delete c) ≡ blank deletes
  pub of_patch : (c : R.RestClient) (pt : R.PatchType) → address (R.patch c pt) ≡ blank patches
  pub of_namespace :
      (q : R.Request) (n : Str)
      → (address q).namespace ≡ []
      → address (R.namespace q n) ≡ record (address q) { namespace = n }
  pub of_resource :
      (q : R.Request) (r : Str)
      → (address q).resource ≡ []
      → address (R.resource q r) ≡ record (address q) { resource = r }
  pub of_sub_resource :
      (q : R.Request) (subs : List Str)
      → (address q).sub_resource ≡ []
      → address (R.sub_resource q subs) ≡ record (address q) { sub_resource = join subs }
  pub of_name :
      (q : R.Request) (n : Str)
      → (address q).name ≡ none
      → is_empty n ≡ false
      → address (R.name q n) ≡ record (address q) { name = some n }
  pub of_get_params : (q : R.Request) (o : R.GetOptions) → address (R.get_params q o) ≡ address q
  pub of_list_params : (q : R.Request) (o : R.ListOptions) → address (R.list_params q o) ≡ address q
  pub of_sso_body : (q : R.Request) (x : Sso) → address (R.sso_body q x) ≡ address q
  pub of_delete_body :
      (q : R.Request) (o : Option R.DeleteOptions) → address (R.delete_body q o) ≡ address q
  pub of_data_body : (q : R.Request) (d : Str) → address (R.data_body q d) ≡ address q

-- What the fixture's actions record.
pub record Recorded {Server : Type 0} {R : Rest Server} (T : Testing R) (join : List Str → Str)
    : Type 0 where
  pub recorded : T.Action → Address
  pub of_get_action :
      (r : GroupVersion) (n name : Str)
      → recorded (T.new_get_action r n name)
        ≡ record (blank gets) { namespace = n; resource = r.subject; name = some name }
  pub of_list_action :
      (r k : GroupVersion) (n : Str) (o : R.ListOptions)
      → recorded (T.new_list_action r k n o)
        ≡ record (blank gets) { namespace = n; resource = r.subject }
  pub of_watch_action :
      (r : GroupVersion) (n : Str) (o : R.ListOptions)
      → recorded (T.new_watch_action r n o)
        ≡ record (blank gets) { namespace = n; resource = r.subject }
  pub of_create_action :
      (r : GroupVersion) (n : Str) (x : Sso)
      → recorded (T.new_create_action r n x)
        ≡ record (blank posts) { namespace = n; resource = r.subject }
  pub of_update_action :
      (r : GroupVersion) (n : Str) (x : Sso)
      → recorded (T.new_update_action r n x)
        ≡ record (blank puts) { namespace = n; resource = r.subject; name = some x.meta.name }
  pub of_delete_action :
      (r : GroupVersion) (n name : Str)
      → recorded (T.new_delete_action r n name)
        ≡ record (blank deletes) { namespace = n; resource = r.subject; name = some name }
  pub of_delete_collection_action :
      (r : GroupVersion) (n : Str) (o : R.ListOptions)
      → recorded (T.new_delete_collection_action r n o)
        ≡ record (blank deletes) { namespace = n; resource = r.subject }
  pub of_patch_action :
      (r : GroupVersion) (n name d : Str) (subs : List Str)
      → recorded (T.new_patch_subresource_action r n name d subs) ≡ record (blank patches) {
        namespace = n;
        resource = r.subject;
        name = some name;
        sub_resource = join subs;
      }

module _ {Server : Type 0} {R : Rest Server} {join : List Str → Str} (W : Addressed R join) where
  -- The chain up to the resource.
  pub address-ssos :
      (v : Verb) (q : R.Request) (n : Str)
      → W.address q ≡ blank v
      → W.address (R.resource (R.namespace q n) (str "ssos")) ≡ ssos_at v n none []
  address-ssos v q n e =
      rw (W.of_resource (R.namespace q n) (str "ssos") (ap {A = Address} (λ a. a.resource) placed))
        (ap {A = Address} (λ a. record a { resource = str "ssos" }) placed)
    where
      placed : W.address (R.namespace q n) ≡ record (blank v) { namespace = n }
      placed =
          rw (W.of_namespace q n (ap {A = Address} (λ a. a.namespace) e))
            (ap {A = Address} (λ a. record a { namespace = n }) e)

  -- The name behind it.
  pub address-name :
      (v : Verb) (q : R.Request) (n name sub : Str)
      → W.address q ≡ ssos_at v n none sub
      → is_empty name ≡ false
      → W.address (R.name q name) ≡ ssos_at v n (some name) sub
  address-name v q n name sub e filled =
      rw (W.of_name q name (ap {A = Address} (λ a. a.name) e) filled)
        (ap {A = Address} (λ a. record a { name = some name }) e)

  -- A subresource of the resource.
  pub address-sub_resource :
      (v : Verb) (q : R.Request) (n : Str) (subs : List Str)
      → W.address q ≡ ssos_at v n none []
      → W.address (R.sub_resource q subs) ≡ ssos_at v n none (join subs)
  address-sub_resource v q n subs e =
      rw (W.of_sub_resource q subs (ap {A = Address} (λ a. a.sub_resource) e))
        (ap {A = Address} (λ a. record a { sub_resource = join subs }) e)
