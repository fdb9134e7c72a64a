-- ===== src/Tests/Memory.antt =====
-- The deep copies in a memory that is a list of what its addresses hold.
use sso_operator.Base.{
  ℕ, zero, suc, ◌<◌, ◌≡◌, refl, ◌≢◌, ◌⊎◌, inl, inr, Option, none, some, List, [], ◌∷◌, ◌++◌, length,
  get_elem?, get_elem?-append, get_elem?-length, length-append, arith,
}
use sso_operator.Base.Text.{Str, str}
use sso_operator.Objects.{ObjectMeta, Resources}
use sso_operator.Api.DeepCopy.{
  Part, metadata, requirements, Memory, SsoCell, Store, sso_deep_copy_into, list_deep_copy_into,
  items_deep_copy_into, array_of, spec_deep_copy_into,
}
use sso_operator.Api.DeepCopy.Regions.{Value, Addresses}
use sso_operator.Api.DeepCopy.Resource.{read_sso, sso_deep_copy_into_apart}
use sso_operator.Api.DeepCopy.Items.{
  read_list, slice, read_list-list_deep_copy_into, list_deep_copy_into_apart,
}
use sso_operator.Tests.Sample.{no_type, web_meta}
use sso_operator.Tests.Values.{web_sso}

data Held : Type 0 where
  holds_meta : ObjectMeta → Held
  holds_resources : Resources → Held

abbrev blank : (k : Part) → Value k
blank metadata = web_meta
blank requirements = record { limits = []; requests = [] }

abbrev held : (k : Part) → Value k → Held
held metadata v = holds_meta v
held requirements v = holds_resources v

abbrev value_of : (k : Part) → Option Held → Value k
value_of k none = blank k
value_of metadata (some (holds_meta m)) = m
value_of requirements (some (holds_meta m)) = blank requirements
value_of metadata (some (holds_resources r)) = blank metadata
value_of requirements (some (holds_resources r)) = r

abbrev value_at : (k : Part) → ℕ → List Held → Value k
value_at k r h = value_of k (get_elem? h r)

abbrev memory : Memory
memory = record {
  Heap = List Held;
  Ref = λ k. ℕ;
  ListMeta = Str;
  deep_copy_part = λ k r h. (length h, h ++ (held k (value_at k r h) ∷ []));
}

value_of-held : (k : Part) (v : Value k) → value_of k (some (held k v)) ≡ v
value_of-held metadata v = refl
value_of-held requirements v = refl

-- The heaps agree at every other address.
abbrev AgreeBut : ℕ → List Held → List Held → Type 0
AgreeBut a h g = (i : ℕ) → i ≢ a → get_elem? g i ≡ get_elem? h i

abbrev addresses : Addresses memory
addresses = record {
  value = λ k r h. value_at k r h;
  At = λ k r a. r ≡ a;
  next = length;
  Changed = AgreeBut;
  changed_keeps = λ a h g c k r n. rw (c r n) refl;
  copy_value =
      λ k r h. rw (get_elem?-length h (held k (value_at k r h))) (value_of-held k (value_at k r h));
  copy_fresh = λ k r h a e. omega (arith, e, length-append h (held k (value_at k r h) ∷ []));
  copy_grows = λ k r h. omega (arith, length-append h (held k (value_at k r h) ∷ []));
  copy_keeps =
      λ k r h j s b. rw (get_elem?-append h (held k (value_at k r h) ∷ []) s (b s refl)) refl;
}

abbrev quota : Resources
quota = record { limits = (str "cpu", str "100m") ∷ []; requests = [] }

abbrev heap : List Held
heap = holds_meta web_meta ∷ holds_resources quota ∷ []

abbrev cell : SsoCell memory
cell = record {
  type_meta = no_type;
  meta = 0;
  spec = record {
    oidc_issuer_url = web_sso.spec.oidc_issuer_url;
    upstream_service = web_sso.spec.upstream_service;
    domain = web_sso.spec.domain;
    cert_issuer_name = [];
    proxy_image = [];
    proxy_image_tag = [];
    proxy_image_pull_secret = [];
    proxy_resources = 1;
    forward_token = web_sso.spec.forward_token;
    cookie_spec = web_sso.spec.cookie_spec;
    url_template = [];
    skip_expose_service = web_sso.spec.skip_expose_service;
    ssl_insecure_skip_verify = web_sso.spec.ssl_insecure_skip_verify;
  };
  status = web_sso.status;
}

-- Behind the copy, and with the limits of the copy changed.
abbrev copied_heap : List Held
copied_heap = heap ++ (holds_meta web_meta ∷ holds_resources quota ∷ [])

abbrev changed_heap : List Held
changed_heap = heap ++ (holds_meta web_meta ∷ holds_resources (blank requirements) ∷ [])

limits_changed : AgreeBut 3 copied_heap changed_heap
limits_changed zero n = refl
limits_changed (suc zero) n = refl
limits_changed (suc (suc zero)) n = refl
limits_changed (suc (suc (suc zero))) n = absurd (n refl)
limits_changed (suc (suc (suc (suc i)))) n = refl

cell_below : (a : ℕ) → (0 ≡ a) ⊎ (1 ≡ a) → a < 2
cell_below a p = omega (arith, p)

sso_deep_copy_into_apart_example :
    (read_sso addresses (sso_deep_copy_into memory cell heap).0 copied_heap
      ≡ read_sso addresses cell heap)
    × (read_sso addresses cell copied_heap ≡ read_sso addresses cell heap)
    × (read_sso addresses cell changed_heap ≡ read_sso addresses cell heap)
unfolding sso_deep_copy_into
sso_deep_copy_into_apart_example =
    sso_deep_copy_into_apart addresses cell heap changed_heap 3 cell_below limits_changed
      (inl (inr refl))

abbrev one_array : Store memory
one_array = record { heap = heap; arrays = (cell ∷ []) ∷ [] }

one_below : (a : ℕ) → ((0 ≡ a) ⊎ (1 ≡ a)) ⊎ ⊥ → a < 2
one_below a p = omega (arith, p)

read_list-list_deep_copy_into_example :
    ((list_deep_copy_into memory (slice addresses no_type [] 0) one_array).0.items ≢ some 0)
    × (read_list addresses
          (list_deep_copy_into memory (slice addresses no_type [] 0) one_array).0
          (list_deep_copy_into memory (slice addresses no_type [] 0) one_array).1
        ≡ (no_type, [], some (read_sso addresses cell heap ∷ [])))
    × (read_list addresses
          (slice addresses no_type [] 0)
          (list_deep_copy_into memory (slice addresses no_type [] 0) one_array).1
        ≡ (no_type, [], some (read_sso addresses cell heap ∷ [])))
unfolding list_deep_copy_into sso_deep_copy_into items_deep_copy_into array_of spec_deep_copy_into
read_list-list_deep_copy_into_example =
    read_list-list_deep_copy_into addresses no_type [] 0 one_array (omega arith) one_below

list_deep_copy_into_apart_example :
    read_list addresses
      (slice addresses no_type [] 0)
      (record (list_deep_copy_into memory (slice addresses no_type [] 0) one_array).1 {
        heap = changed_heap;
      })
    ≡ (no_type, [], some (read_sso addresses cell heap ∷ []))
unfolding list_deep_copy_into sso_deep_copy_into items_deep_copy_into array_of spec_deep_copy_into
list_deep_copy_into_apart_example =
    list_deep_copy_into_apart addresses no_type [] 0 one_array changed_heap 3 (omega arith)
      one_below limits_changed (inl (inl (inr refl)))
