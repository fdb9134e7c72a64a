-- ===== src/Api/DeepCopy.antt =====
-- The deep copies, pkg/apis/jenkins.io/v1/zz_generated.deepcopy.go, over a heap with addresses.
pub mod Regions
pub mod Resource
pub mod Items
use sso_operator.Base.{ℕ, Bool, Option, none, some, List, [], ◌∷◌, ◌++◌, length, get_elem?}
use sso_operator.Base.Text.{Str}
use sso_operator.Objects.{TypeMeta}
use sso_operator.Api.{CookieSpec, SsoStatus}

-- The two parts of a resource that hold maps and slices: `ObjectMeta` and `ResourceRequirements`.
pub data Part : Type 0 where
  metadata : Part
  requirements : Part

-- Memory, with the `DeepCopyInto` of the parts, which is Kubernetes' code. What a part holds is known
-- by a reference.
pub record Memory : Type 1 where
  pub Heap : Type 0
  pub Ref : Part → Type 0
  pub ListMeta : Type 0
  pub deep_copy_part : (k : Part) → Ref k → Heap → Ref k × Heap

module _ (M : Memory) where
  open M use {Heap, Ref, ListMeta}

  -- The structs as memory has them. A struct that `new` makes is its value, which nothing shares.
  pub record SpecCell : Type 0 where
    pub oidc_issuer_url : Str
    pub upstream_service : Str
    pub domain : Str
    pub cert_issuer_name : Str
    pub proxy_image : Str
    pub proxy_image_tag : Str
    pub proxy_image_pull_secret : Str
    pub proxy_resources : Ref requirements
    pub forward_token : Bool
    pub cookie_spec : CookieSpec
    pub url_template : Str
    pub skip_expose_service : Bool
    pub ssl_insecure_skip_verify : Bool

  pub record SsoCell : Type 0 where
    pub type_meta : TypeMeta
    pub meta : Ref metadata
    pub spec : SpecCell
    pub status : SsoStatus

  -- The number of the array of a slice.
  pub record ListCell : Type 0 where
    pub type_meta : TypeMeta
    pub list_meta : ListMeta
    pub items : Option ℕ

  -- The heap, with the arrays of resources by their numbers.
  pub record Store : Type 0 where
    pub heap : Heap
    pub arrays : List (List SsoCell)

  abbrev deref_copy : {X H : Type 0} → (X → H → X × H) → Option X → H → Option X × H
  deref_copy into none h = (none, h)
  deref_copy into (some x) h = let (out, h') = into x h in (some out, h')

  -- The `DeepCopyInto`s give what `out` then points to.
  unfoldable pub cookie_deep_copy_into : CookieSpec → CookieSpec
  cookie_deep_copy_into x = x

  unfoldable pub cookie_deep_copy : Option CookieSpec → Option CookieSpec
  unfolding cookie_deep_copy_into
  cookie_deep_copy none = none
  cookie_deep_copy (some x) = some (cookie_deep_copy_into x)

  unfoldable pub spec_deep_copy_into : SpecCell → Heap → SpecCell × Heap
  spec_deep_copy_into x h =
      let (resources, h') = M.deep_copy_part requirements x.proxy_resources h in
      (record x { proxy_resources = resources; cookie_spec = x.cookie_spec }, h')

  unfoldable pub spec_deep_copy : Option SpecCell → Heap → Option SpecCell × Heap
  unfolding spec_deep_copy_into
  spec_deep_copy x h = deref_copy spec_deep_copy_into x h

  unfoldable pub status_deep_copy_into : SsoStatus → SsoStatus
  status_deep_copy_into x = x

  unfoldable pub status_deep_copy : Option SsoStatus → Option SsoStatus
  unfolding status_deep_copy_into
  status_deep_copy none = none
  status_deep_copy (some x) = some (status_deep_copy_into x)

  unfoldable pub sso_deep_copy_into : SsoCell → Heap → SsoCell × Heap
  unfolding spec_deep_copy_into
  sso_deep_copy_into x h =
      let (meta, h') = M.deep_copy_part metadata x.meta h in
      let (spec, h'') = spec_deep_copy_into x.spec h' in
      (record x { type_meta = x.type_meta; meta = meta; spec = spec; status = x.status }, h'')

  unfoldable pub sso_deep_copy : Option SsoCell → Heap → Option SsoCell × Heap
  unfolding sso_deep_copy_into
  sso_deep_copy x h = deref_copy sso_deep_copy_into x h

  -- `DeepCopyObject`, where nil becomes the nil interface.
  unfoldable pub sso_deep_copy_object : Option SsoCell → Heap → Option SsoCell × Heap
  unfolding sso_deep_copy
  sso_deep_copy_object x h = sso_deep_copy x h

  -- The loop over the items, with what it writes into the new array.
  unfoldable pub items_deep_copy_into : List SsoCell → Heap → List SsoCell × Heap
  items_deep_copy_into [] h = ([], h)
  items_deep_copy_into (x ∷ xs) h =
      let (out, h') = sso_deep_copy_into x h in
      let (outs, h'') = items_deep_copy_into xs h' in (out ∷ outs, h'')

  -- The array of a number.
  unfoldable pub array_of : List (List SsoCell) → ℕ → List SsoCell
  array_of arrays n = elim (get_elem? arrays n) [ none ↦ [] | some xs ↦ xs ]

  unfoldable pub list_deep_copy_into : ListCell → Store → ListCell × Store
  unfolding array_of
  list_deep_copy_into x s = elim (x.items) [
    | none ↦ (x, s)
    | some n ↦
        let (outs, h') = items_deep_copy_into (array_of s.arrays n) s.heap in
        (
          record x { items = some (length s.arrays) },
          record { heap = h'; arrays = s.arrays ++ (outs ∷ []) },
        )
  ]

  unfoldable pub list_deep_copy : Option ListCell → Store → Option ListCell × Store
  unfolding list_deep_copy_into
  list_deep_copy x s = deref_copy list_deep_copy_into x s

  unfoldable pub list_deep_copy_object : Option ListCell → Store → Option ListCell × Store
  unfolding list_deep_copy
  list_deep_copy_object x s = list_deep_copy x s
