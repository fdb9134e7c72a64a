-- ===== src/Base/Dict.antt =====
-- Maps from strings as lists of entries.
use mathlib.Core.Path.{◌≡◌, refl}
use mathlib.Core.List.{List, [], ◌∷◌, ◌++◌}
use mathlib.Core.Option.{Option, none, some}
use native.Mathlib.Omega.{arith}
use sso_operator.Base.Tests.{if◌then◌else◌}
use sso_operator.Base.Text.{Str, same, same_iff}

module _ {V : Type 0} where
  -- The value of a key, of the first entry if there are more.
  unfoldable pub lookup : Str → List (Str × V) → Option V
  lookup k [] = none
  lookup k ((j, v) ∷ m) = let rest = lookup k m in if same j k then some v else rest

  -- `m[k] = v`
  unfoldable pub put : Str → V → List (Str × V) → List (Str × V)
  put k v [] = (k, v) ∷ []
  put k v ((j, w) ∷ m) = let rest = (j, w) ∷ put k v m in if same j k then (k, v) ∷ m else rest

  abbrev pub NodupKeys : List (Str × V) → Type 0
  NodupKeys [] = Unit
  NodupKeys ((k, v) ∷ m) = (lookup k m ≡ none) × NodupKeys m

  pub lookup-put :
      (k j : Str) (v : V) (m : List (Str × V))
      → lookup j (put k v m) ≡ (if same k j then some v else lookup j m)
  unfolding lookup put
  lookup-put k j v [] = refl
  lookup-put k j v ((i, w) ∷ m) =
      ground (arith, same_iff k j, same_iff i k, same_iff i j, lookup-put k j v m)

  -- An entry of the first map hides those of the second.
  pub lookup-append :
      (k : Str) (m n : List (Str × V))
      → lookup k (m ++ n) ≡ (elim (lookup k m) [ none ↦ lookup k n | some v ↦ some v ])
  unfolding lookup
  lookup-append k [] n = refl
  lookup-append k ((j, v) ∷ m) n = ground (arith, lookup-append k m n)

-- The value of a key in a map to strings, or the empty string.
unfoldable pub value_of : Str → List (Str × Str) → Str
unfolding lookup
value_of k m = elim (lookup k m) [ none ↦ [] | some v ↦ v ]

pub value_of-eq :
    (k : Str) (m n : List (Str × Str)) → lookup k m ≡ lookup k n → value_of k m ≡ value_of k n
unfolding value_of
value_of-eq k m n h = ground arith
