-- ===== src/Api/DeepCopy/Items.antt =====
-- The deep copy of a list of resources.
use sso_operator.Base.{
  ℕ, subst, ◌<◌, ◌≡◌, ◌≢◌, refl, ◌∙◌, ap, ◌⊎◌, inl, inr, Option, none, some, List, [], ◌∷◌, ◌++◌,
  length, get_elem?-append, get_elem?-length, arith,
}
use sso_operator.Objects.{TypeMeta}
use sso_operator.Api.{Sso}
use sso_operator.Api.DeepCopy.{
  Memory, SsoCell, ListCell, Store, sso_deep_copy_into, items_deep_copy_into, array_of,
  list_deep_copy_into,
}
use sso_operator.Api.DeepCopy.Regions.{
  Addresses, Below, Fresh, Keeps, Keeps-Below, Keeps-refl, Keeps-trans,
}
use sso_operator.Api.DeepCopy.Resource.{
  read_sso, SsoAt, read_sso-Keeps, read_sso-changed, sso_deep_copy_into-Keeps,
  sso_deep_copy_into-Fresh, read_sso-sso_deep_copy_into, Fresh-apart,
}

module _ {M : Memory} (W : Addresses M) where
  open M use {Heap, ListMeta}

  abbrev pub read_items : List (SsoCell M) → Heap → List Sso
  read_items [] h = []
  read_items (x ∷ xs) h = read_sso W x h ∷ read_items xs h

  abbrev pub ItemsAt : List (SsoCell M) → ℕ → Type 0
  ItemsAt [] a = ⊥
  ItemsAt (x ∷ xs) a = SsoAt W x a ⊎ ItemsAt xs a

  read_items-Keeps :
      (xs : List (SsoCell M)) (h g : Heap)
      → Keeps W h g
      → Below W (ItemsAt xs) h
      → read_items xs g ≡ read_items xs h
  read_items-Keeps [] h g k b = refl
  read_items-Keeps (x ∷ xs) h g k b = cc (
    read_sso-Keeps W x h g k (λ a p. b a (inl p)),
    read_items-Keeps xs h g k (λ a p. b a (inr p)),
  )

  read_items-changed :
      (xs : List (SsoCell M)) (a : ℕ) (h g : Heap)
      → W.Changed a h g
      → (ItemsAt xs a → ⊥)
      → read_items xs g ≡ read_items xs h
  read_items-changed [] a h g c n = refl
  read_items-changed (x ∷ xs) a h g c n = cc (
    read_sso-changed W x a h g c (λ p. n (inl p)),
    read_items-changed xs a h g c (λ p. n (inr p)),
  )

  items_deep_copy_into-Keeps :
      (xs : List (SsoCell M)) (h : Heap) → Keeps W h (items_deep_copy_into M xs h).1
  unfolding items_deep_copy_into
  items_deep_copy_into-Keeps [] h = Keeps-refl W h
  items_deep_copy_into-Keeps (x ∷ xs) h =
      Keeps-trans W (sso_deep_copy_into-Keeps W x h) (items_deep_copy_into-Keeps xs _)

  items_deep_copy_into-Fresh :
      (xs : List (SsoCell M)) (h : Heap)
      → Fresh W (ItemsAt (items_deep_copy_into M xs h).0) h (items_deep_copy_into M xs h).1
  unfolding items_deep_copy_into
  items_deep_copy_into-Fresh [] h a p = absurd p
  items_deep_copy_into-Fresh (x ∷ xs) h a (inl p) = omega (
    arith,
    sso_deep_copy_into-Fresh W x h a p,
    (items_deep_copy_into-Keeps xs (sso_deep_copy_into M x h).1).grows,
  )
  items_deep_copy_into-Fresh (x ∷ xs) h a (inr p) = omega (
    arith,
    items_deep_copy_into-Fresh xs (sso_deep_copy_into M x h).1 a p,
    (sso_deep_copy_into-Keeps W x h).grows,
  )

  read_items-items_deep_copy_into :
      (xs : List (SsoCell M)) (h : Heap)
      → Below W (ItemsAt xs) h
      → read_items (items_deep_copy_into M xs h).0 (items_deep_copy_into M xs h).1 ≡ read_items xs h
  unfolding items_deep_copy_into
  read_items-items_deep_copy_into [] h b = refl
  read_items-items_deep_copy_into (x ∷ xs) h b = cc (
    read_sso-Keeps W out h' h'' (items_deep_copy_into-Keeps xs h')
        (λ a p. (sso_deep_copy_into-Fresh W x h a p).1),
    read_sso-sso_deep_copy_into W x h (λ a p. b a (inl p)),
    read_items-items_deep_copy_into xs h' (Keeps-Below W (ItemsAt xs) first (λ a p. b a (inr p))),
    read_items-Keeps xs h h' first (λ a p. b a (inr p)),
  )
    where
      out : SsoCell M
      out = (sso_deep_copy_into M x h).0

      h' : Heap
      h' = (sso_deep_copy_into M x h).1

      h'' : Heap
      h'' = (items_deep_copy_into M xs h').1

      first : Keeps W h h'
      first = sso_deep_copy_into-Keeps W x h

  abbrev pub Reading : Type 0
  Reading = TypeMeta × ListMeta × Option (List Sso)

  -- What a list says: its metadata, and its resources in the array that its slice is of.
  abbrev pub read_list : ListCell M → Store M → Reading
  read_list x s = (
    x.type_meta,
    x.list_meta,
    elim (x.items) [ none ↦ none | some n ↦ some (read_items (array_of M s.arrays n) s.heap) ],
  )

  abbrev pub ListAt : ListCell M → Store M → ℕ → Type 0
  ListAt x s a = elim (x.items) as (λ o. Type 0) [
    | none ↦ ⊥
    | some n ↦ ItemsAt (array_of M s.arrays n) a
  ]

  -- At an address of the copy, the list stays; at one of the list, the copy does.
  abbrev pub OtherStays :
      (out x : ListCell M) (s s' : Store M) (a : ℕ) → ListAt out s' a ⊎ ListAt x s a → Heap → Type 0
  OtherStays out x s s' a (inl p) g = read_list x (record s' { heap = g }) ≡ read_list x s
  OtherStays out x s s' a (inr q) g = read_list out (record s' { heap = g }) ≡ read_list x s

  array_old :
      (arrays : List (List (SsoCell M))) (outs : List (SsoCell M)) (n : ℕ)
      → n < length arrays
      → array_of M (arrays ++ (outs ∷ [])) n ≡ array_of M arrays n
  unfolding array_of
  array_old arrays outs n p = rw (get_elem?-append arrays (outs ∷ []) n p, array_of) refl

  array_new :
      (arrays : List (List (SsoCell M))) (outs : List (SsoCell M))
      → array_of M (arrays ++ (outs ∷ [])) (length arrays) ≡ outs
  unfolding array_of
  array_new arrays outs = rw (get_elem?-length arrays outs, array_of) refl

  -- A list with the slice of an array.
  abbrev pub slice : TypeMeta → ListMeta → ℕ → ListCell M
  slice t l n = record { type_meta = t; list_meta = l; items = some n }

  module _ (t : TypeMeta) (l : ListMeta) (n : ℕ) (s : Store M) where
    abbrev outs : List (SsoCell M)
    outs = (items_deep_copy_into M (array_of M s.arrays n) s.heap).0

    abbrev heap' : Heap
    heap' = (items_deep_copy_into M (array_of M s.arrays n) s.heap).1

    copied_items :
        Below W (ItemsAt (array_of M s.arrays n)) s.heap
        → read_items outs heap' ≡ read_items (array_of M s.arrays n) s.heap
    copied_items b = read_items-items_deep_copy_into (array_of M s.arrays n) s.heap b

    kept_items :
        Below W (ItemsAt (array_of M s.arrays n)) s.heap
        → read_items (array_of M s.arrays n) heap' ≡ read_items (array_of M s.arrays n) s.heap
    kept_items b =
        read_items-Keeps (array_of M s.arrays n) s.heap heap'
          (items_deep_copy_into-Keeps (array_of M s.arrays n) s.heap) b

    -- Once a list whose array and parts are in use is copied: the copy has an array of its own, and
    -- both the copy and the list have the metadata and the resources that the list had.
    pub read_list-list_deep_copy_into :
        n < length s.arrays
        → Below W (ListAt (slice t l n) s) s.heap
        → let (out, s') = list_deep_copy_into M (slice t l n) s in
          (out.items ≢ some n)
          × (read_list out s' ≡ read_list (slice t l n) s)
          × (read_list (slice t l n) s' ≡ read_list (slice t l n) s)
    unfolding list_deep_copy_into
    read_list-list_deep_copy_into p b = (
      λ e. ground (arith, p, e),
      ap (λ xs. (t, l, some xs)) (rw (array_new s.arrays outs) (copied_items b)),
      ap (λ xs. (t, l, some xs)) (rw (array_old s.arrays outs n p) (kept_items b)),
    )

    -- Once a list whose array and parts are in use is copied: a change of the heap at an address of
    -- a map or slice of the one's resources leaves the other with the metadata and the resources
    -- that the list had.
    pub list_deep_copy_into_apart :
        (g : Heap) (a : ℕ)
        → n < length s.arrays
        → Below W (ListAt (slice t l n) s) s.heap
        → let (out, s') = list_deep_copy_into M (slice t l n) s in
          W.Changed a s'.heap g
          → (changed : ListAt out s' a ⊎ ListAt (slice t l n) s a)
          → OtherStays out (slice t l n) s s' a changed g
    unfolding list_deep_copy_into
    list_deep_copy_into_apart g a p b c changed = after changed
      where
        xs : List (SsoCell M)
        xs = array_of M s.arrays n

        apart : ItemsAt outs a → ItemsAt xs a → ⊥
        apart =
            Fresh-apart W (ItemsAt xs) (ItemsAt outs) s.heap heap' a b
              (items_deep_copy_into-Fresh xs s.heap)

        after :
            (changed : ItemsAt (array_of M (s.arrays ++ (outs ∷ [])) (length s.arrays)) a
              ⊎ ItemsAt xs a)
            → OtherStays
                (record { type_meta = t; list_meta = l; items = some (length s.arrays) })
                (slice t l n)
                s
                (record { heap = heap'; arrays = s.arrays ++ (outs ∷ []) })
                a
                changed
                g
        after (inl q) = rw (array_old s.arrays outs n p) (
            ap (λ ys. (t, l, some ys))
              (read_items-changed xs a heap' g c
                  (apart (subst (λ ys. ItemsAt ys a) (array_new s.arrays outs) q))
                ∙ kept_items b))
        after (inr q) = rw (array_new s.arrays outs) (
            ap (λ ys. (t, l, some ys))
              (read_items-changed outs a heap' g c (λ r. apart r q) ∙ copied_items b))
