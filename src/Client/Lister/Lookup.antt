-- ===== src/Client/Lister/Lookup.antt =====
-- `Get` against a search by namespace and name.
use sso_operator.Base.{
  ◌≡◌, refl, Bool, true, false, ◌&&◌, not, ◌==◌, none, some, List, [], ◌∷◌, ◌++◌, All, find_first,
  arith, if◌then◌else◌,
}
use sso_operator.Base.Text.{Str, str, same, same_iff, is_empty}
use sso_operator.Base.Run.{reply, ok, err}
use sso_operator.Api.{Sso}
use sso_operator.Client.Library.{Library}
use sso_operator.Client.Lister.{key_of, get}

-- No byte of the text is a slash, as in every name of Kubernetes.
abbrev pub is_plain : Str → Bool
is_plain [] = true
is_plain (x ∷ xs) = not (x == b'/') && is_plain xs

slash : str "/" ≡ b'/' ∷ []
unfolding str
slash = refl

split_at_slash :
    (s t u v : Str)
    → is_plain s ≡ true
    → is_plain t ≡ true
    → s ++ (b'/' ∷ u) ≡ t ++ (b'/' ∷ v)
    → (s ≡ t) × (u ≡ v)
split_at_slash [] [] u v p q e = (refl, cc)
split_at_slash [] (y ∷ t) u v p q e = ground (arith, e)
split_at_slash (x ∷ s) [] u v p q e = ground (arith, e)
split_at_slash (x ∷ s) (y ∷ t) u v p q e = ground (arith, e, split_at_slash s t u v)

not_plain : (s u : Str) → is_plain (s ++ (b'/' ∷ u)) ≡ false
not_plain [] u = ground arith
not_plain (x ∷ s) u = ground (arith, not_plain s u)

-- `cache.MetaNamespaceKeyFunc`: the key under which an indexer keeps an object.
abbrev pub meta_key : Sso → Str
meta_key x =
    if is_empty x.meta.namespace then x.meta.name else (x.meta.namespace ++ (b'/' ∷ x.meta.name))

-- The resource has this namespace and this name.
abbrev pub has_name : Str → Str → Sso → Bool
has_name namespace name x = same x.meta.namespace namespace && same x.meta.name name

abbrev pub IsPlain : Sso → Type 0
IsPlain x = (is_plain x.meta.namespace ≡ true) × (is_plain x.meta.name ≡ true)

same_keys :
    (s n namespace name : Str)
    → is_empty namespace ≡ false
    → is_plain namespace ≡ true
    → is_plain s ≡ true
    → is_plain n ≡ true
    → same (if is_empty s then n else (s ++ (b'/' ∷ n))) (namespace ++ (b'/' ∷ name))
      ≡ (same s namespace && same n name)
same_keys [] n [] name filled plain p q = ground (arith, filled)
same_keys [] n (y ∷ t) name filled plain p q =
    ground (arith, same_iff n ((y ∷ t) ++ (b'/' ∷ name)), not_plain (y ∷ t) name)
same_keys (x ∷ s) n namespace name filled plain p q = ground (
  arith,
  same_iff (x ∷ s) namespace,
  same_iff n name,
  same_iff ((x ∷ s) ++ (b'/' ∷ n)) (namespace ++ (b'/' ∷ name)),
  split_at_slash (x ∷ s) namespace n name,
)

same-meta_key :
    (namespace name : Str) (x : Sso)
    → is_empty namespace ≡ false
    → is_plain namespace ≡ true
    → IsPlain x
    → same (meta_key x) (namespace ++ (b'/' ∷ name)) ≡ has_name namespace name x
same-meta_key namespace name x filled plain (p, q) =
    same_keys x.meta.namespace x.meta.name namespace name filled plain p q

module _ (L : Library) where
  open L use {Indexer}

  -- What an indexer with these objects answers to a key.
  abbrev pub KeepsByKey : Indexer → List Sso → Type 0
  KeepsByKey indexer objects =
      (key : Str)
      → L.get_by_key indexer key ≡ reply (find_first (λ x. same (meta_key x) key) objects)

  find_named :
      (namespace name : Str) (objects : List Sso)
      → is_empty namespace ≡ false
      → is_plain namespace ≡ true
      → All IsPlain objects
      → find_first (λ x. same (meta_key x) (namespace ++ (b'/' ∷ name))) objects
        ≡ find_first (has_name namespace name) objects
  find_named namespace name [] filled plain ps = refl
  find_named namespace name (x ∷ objects) filled plain (p, ps) = ground (
    arith,
    same-meta_key namespace name x filled plain p,
    find_named namespace name objects filled plain ps,
  )

  -- For a namespace that is not empty, an indexer that keeps its objects by
  -- `MetaNamespaceKeyFunc`, and namespaces and names without
  -- a slash: `Get` gives the object of the lister's namespace and the name, and the error of
  -- `NewNotFound` if there is none; one with another split of the same key is never given.
  pub get_lem :
      (indexer : Indexer) (objects : List Sso) (namespace name : Str)
      → KeepsByKey indexer objects
      → All IsPlain objects
      → is_empty namespace ≡ false
      → is_plain namespace ≡ true
      → get L (record { indexer = indexer; namespace = namespace }) name
        ≡ (elim (find_first (has_name namespace name) objects) [
          | none ↦ err (L.new_not_found (str "sso") name)
          | some x ↦ ok x
        ])
  unfolding get key_of
  get_lem indexer objects namespace name keeps ps filled plain = ground (
    arith,
    slash,
    keeps (namespace ++ (b'/' ∷ name)),
    find_named namespace name objects filled plain ps,
  )
