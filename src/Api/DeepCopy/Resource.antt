-- ===== src/Api/DeepCopy/Resource.antt =====
-- The deep copy of one resource.
use sso_operator.Base.{ℕ, ◌≡◌, refl, ◌∙◌, ◌⊎◌, inl, inr, arith}
use sso_operator.Api.{Sso, SsoSpec}
use sso_operator.Api.DeepCopy.{
  Memory, metadata, requirements, SpecCell, SsoCell, spec_deep_copy_into, sso_deep_copy_into,
}
use sso_operator.Api.DeepCopy.Regions.{
  Addresses, Below, Fresh, Keeps, Keeps-trans, deep_copy_part-Keeps,
}

module _ {M : Memory} (W : Addresses M) where
  open M use {Heap}

  -- The resource that the structs in memory stand for.
  abbrev pub read_spec : SpecCell M → Heap → SsoSpec
  read_spec x h = record {
    oidc_issuer_url = x.oidc_issuer_url;
    upstream_service = x.upstream_service;
    domain = x.domain;
    cert_issuer_name = x.cert_issuer_name;
    proxy_image = x.proxy_image;
    proxy_image_tag = x.proxy_image_tag;
    proxy_image_pull_secret = x.proxy_image_pull_secret;
    proxy_resources = W.value requirements x.proxy_resources h;
    forward_token = x.forward_token;
    cookie_spec = x.cookie_spec;
    url_template = x.url_template;
    skip_expose_service = x.skip_expose_service;
    ssl_insecure_skip_verify = x.ssl_insecure_skip_verify;
  }

  abbrev pub read_sso : SsoCell M → Heap → Sso
  read_sso x h = record {
    type_meta = x.type_meta;
    meta = W.value metadata x.meta h;
    spec = read_spec x.spec h;
    status = x.status;
  }

  -- The addresses of its maps and slices.
  abbrev pub SsoAt : SsoCell M → ℕ → Type 0
  SsoAt x a = W.At metadata x.meta a ⊎ W.At requirements x.spec.proxy_resources a

  -- Two heaps with the same values of the parts have the same resource.
  read_sso-ap :
      (x : SsoCell M) (h g : Heap)
      → W.value metadata x.meta g ≡ W.value metadata x.meta h
      → W.value requirements x.spec.proxy_resources g
        ≡ W.value requirements x.spec.proxy_resources h
      → read_sso x g ≡ read_sso x h
  read_sso-ap x h g e f = rw (e, f) refl

  pub read_sso-Keeps :
      (x : SsoCell M) (h g : Heap) → Keeps W h g → Below W (SsoAt x) h → read_sso x g ≡ read_sso x h
  read_sso-Keeps x h g k b =
      read_sso-ap x h g (k.same_value metadata x.meta (λ a p. b a (inl p)))
        (k.same_value requirements x.spec.proxy_resources (λ a p. b a (inr p)))

  pub read_sso-changed :
      (x : SsoCell M) (a : ℕ) (h g : Heap)
      → W.Changed a h g
      → (SsoAt x a → ⊥)
      → read_sso x g ≡ read_sso x h
  read_sso-changed x a h g c n =
      read_sso-ap x h g (W.changed_keeps a h g c metadata x.meta (λ p. n (inl p)))
        (W.changed_keeps a h g c requirements x.spec.proxy_resources (λ p. n (inr p)))

  pub sso_deep_copy_into-Keeps : (x : SsoCell M) (h : Heap) → Keeps W h (sso_deep_copy_into M x h).1
  unfolding sso_deep_copy_into spec_deep_copy_into
  sso_deep_copy_into-Keeps x h =
      Keeps-trans W (deep_copy_part-Keeps W metadata x.meta h)
        (deep_copy_part-Keeps W requirements x.spec.proxy_resources _)

  pub sso_deep_copy_into-Fresh :
      (x : SsoCell M) (h : Heap)
      → Fresh W (SsoAt (sso_deep_copy_into M x h).0) h (sso_deep_copy_into M x h).1
  unfolding sso_deep_copy_into spec_deep_copy_into
  sso_deep_copy_into-Fresh x h a (inl p) = omega (
    arith,
    W.copy_fresh metadata x.meta h a p,
    W.copy_grows requirements x.spec.proxy_resources (M.deep_copy_part metadata x.meta h).1,
  )
  sso_deep_copy_into-Fresh x h a (inr p) = omega (
    arith,
    W.copy_fresh requirements x.spec.proxy_resources (M.deep_copy_part metadata x.meta h).1 a p,
    W.copy_grows metadata x.meta h,
  )

  pub read_sso-sso_deep_copy_into :
      (x : SsoCell M) (h : Heap)
      → Below W (SsoAt x) h
      → read_sso (sso_deep_copy_into M x h).0 (sso_deep_copy_into M x h).1 ≡ read_sso x h
  unfolding sso_deep_copy_into spec_deep_copy_into
  read_sso-sso_deep_copy_into x h b = rw (meta_value, resources_value) refl
    where
      h' : Heap
      h' = (M.deep_copy_part metadata x.meta h).1

      meta_value :
          W.value metadata
            (M.deep_copy_part metadata x.meta h).0
            (M.deep_copy_part requirements x.spec.proxy_resources h').1
          ≡ W.value metadata x.meta h
      meta_value =
          W.copy_keeps requirements x.spec.proxy_resources h' metadata _
            (λ a p. (W.copy_fresh metadata x.meta h a p).1)
          ∙ W.copy_value metadata x.meta h

      resources_value :
          W.value requirements
            (M.deep_copy_part requirements x.spec.proxy_resources h').0
            (M.deep_copy_part requirements x.spec.proxy_resources h').1
          ≡ W.value requirements x.spec.proxy_resources h
      resources_value =
          W.copy_value requirements x.spec.proxy_resources h'
          ∙ W.copy_keeps metadata x.meta h requirements _ (λ a p. b a (inr p))

  -- An address in use is not one that came into use later.
  pub Fresh-apart :
      (at new : ℕ → Type 0) (h g : Heap) (a : ℕ) → Below W at h → Fresh W new h g → new a → at a → ⊥
  Fresh-apart at new h g a b f n p = omega (arith, b a p, f a n)

  -- Once a resource in use is copied, the copy and the resource read as the resource did, and a
  -- change of memory at an address of a map or slice of the one leaves the other as it was.
  pub sso_deep_copy_into_apart :
      (x : SsoCell M) (h g : Heap) (a : ℕ)
      → Below W (SsoAt x) h
      → W.Changed a (sso_deep_copy_into M x h).1 g
      → (changed : SsoAt (sso_deep_copy_into M x h).0 a ⊎ SsoAt x a)
      → (read_sso (sso_deep_copy_into M x h).0 (sso_deep_copy_into M x h).1 ≡ read_sso x h)
        × (read_sso x (sso_deep_copy_into M x h).1 ≡ read_sso x h)
        × (elim changed as (λ c. Type 0) [
          | inl p ↦ read_sso x g ≡ read_sso x h
          | inr q ↦ read_sso (sso_deep_copy_into M x h).0 g ≡ read_sso x h
        ])
  sso_deep_copy_into_apart x h g a b c changed = (copied, kept, after changed)
    where
      out : SsoCell M
      out = (sso_deep_copy_into M x h).0

      h' : Heap
      h' = (sso_deep_copy_into M x h).1

      copied : read_sso out h' ≡ read_sso x h
      copied = read_sso-sso_deep_copy_into x h b

      kept : read_sso x h' ≡ read_sso x h
      kept = read_sso-Keeps x h h' (sso_deep_copy_into-Keeps x h) b

      apart : SsoAt out a → SsoAt x a → ⊥
      apart = Fresh-apart (SsoAt x) (SsoAt out) h h' a b (sso_deep_copy_into-Fresh x h)

      after : (changed : SsoAt out a ⊎ SsoAt x a) → elim changed as (λ c. Type 0) [
        | inl p ↦ read_sso x g ≡ read_sso x h
        | inr q ↦ read_sso out g ≡ read_sso x h
      ]
      after (inl p) = read_sso-changed x a h' g c (apart p) ∙ kept
      after (inr q) = read_sso-changed out a h' g c (λ p. apart p q) ∙ copied
