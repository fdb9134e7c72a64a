-- ===== src/Api/DeepCopy/Regions.antt =====
-- What the copies of the parts are relied on for, and what memory keeps while copies are made.
use sso_operator.Base.{ℕ, ◌≤◌, ◌<◌, ◌≡◌, refl, ◌∙◌, arith}
use sso_operator.Objects.{ObjectMeta, Resources}
use sso_operator.Api.DeepCopy.{Part, metadata, requirements, Memory}

abbrev pub Value : Part → Type 0
Value metadata = ObjectMeta
Value requirements = Resources

module _ (M : Memory) where
  open M use {Heap, Ref, deep_copy_part}

  -- Memory by addresses, of which those below `next` are in use. The copy of a part has its value and
  -- lies at new addresses, and the parts in use keep theirs; a change at an address leaves alone the
  -- parts that do not lie there.
  pub record Addresses : Type 1 where
    pub value : (k : Part) → Ref k → Heap → Value k
    pub At : (k : Part) → Ref k → ℕ → Type 0
    pub next : Heap → ℕ
    pub Changed : ℕ → Heap → Heap → Type 0
    pub changed_keeps :
        (a : ℕ) (h g : Heap)
        → Changed a h g
        → (k : Part) (r : Ref k) → (At k r a → ⊥)
        → value k r g ≡ value k r h
    pub copy_value :
        (k : Part) (r : Ref k) (h : Heap)
        → value k (deep_copy_part k r h).0 (deep_copy_part k r h).1 ≡ value k r h
    pub copy_fresh :
        (k : Part) (r : Ref k) (h : Heap) (a : ℕ)
        → At k (deep_copy_part k r h).0 a
        → (next h ≤ a) × (a < next (deep_copy_part k r h).1)
    pub copy_grows : (k : Part) (r : Ref k) (h : Heap) → next h ≤ next (deep_copy_part k r h).1
    pub copy_keeps :
        (k : Part) (r : Ref k) (h : Heap) (j : Part) (s : Ref j)
        → ((a : ℕ) → At j s a → a < next h)
        → value j s (deep_copy_part k r h).1 ≡ value j s h

module _ {M : Memory} (W : Addresses M) where
  open M use {Heap, Ref, deep_copy_part}

  -- The addresses are all in use.
  abbrev pub Below : (ℕ → Type 0) → Heap → Type 0
  Below at h = (a : ℕ) → at a → a < W.next h

  -- The addresses came into use between two heaps.
  abbrev pub Fresh : (ℕ → Type 0) → Heap → Heap → Type 0
  Fresh at h g = (a : ℕ) → at a → (W.next h ≤ a) × (a < W.next g)

  -- The parts in use stay in use and keep their values.
  pub record Keeps (h g : Heap) : Type 0 where
    pub grows : W.next h ≤ W.next g
    pub same_value : (k : Part) (r : Ref k) → Below (W.At k r) h → W.value k r g ≡ W.value k r h

  pub Keeps-Below : {h g : Heap} (at : ℕ → Type 0) → Keeps h g → Below at h → Below at g
  Keeps-Below at k b a x = omega (arith, k.grows, b a x)

  pub Keeps-refl : (h : Heap) → Keeps h h
  Keeps-refl h = record { grows = omega arith; same_value = λ k r b. refl }

  pub Keeps-trans : {h g i : Heap} → Keeps h g → Keeps g i → Keeps h i
  Keeps-trans p q = record {
    grows = omega (arith, p.grows, q.grows);
    same_value = λ k r b. q.same_value k r (Keeps-Below (W.At k r) p b) ∙ p.same_value k r b;
  }

  pub deep_copy_part-Keeps : (k : Part) (r : Ref k) (h : Heap) → Keeps h (deep_copy_part k r h).1
  deep_copy_part-Keeps k r h = record {
    grows = W.copy_grows k r h;
    same_value = λ j s b. W.copy_keeps k r h j s b;
  }
