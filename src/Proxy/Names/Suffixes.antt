-- ===== src/Proxy/Names/Suffixes.antt =====
-- The names that the program builds, by their suffixes.
use sso_operator.Base.{◌<◌, ◌≤◌, ◌≡◌, some, List, [], ◌∷◌, All, length, arith, inl, inr}
use sso_operator.Base.Text.{Str, str}
use sso_operator.Proxy.Names.{build_name}
use sso_operator.Proxy.Names.Bounds.{build_name_bounds}
use sso_operator.Proxy.Resources.{config_secret_name}

-- The suffixes that the program passes to `buildName`.
abbrev pub suffixes : List Str
suffixes = [] ∷ config_secret_name ∷ str "expose" ∷ str "cleanup" ∷ []

abbrev pub Fits : Str → Str → Type 0
Fits name suffix = (r : Str) × (build_name name suffix ≡ some r) × (length r ≤ 63)

Fits-short : (name suffix : Str) → length suffix < 31 → Fits name suffix
Fits-short name suffix h =
    let (r, e, fits) = build_name_bounds name suffix in
    (
      r,
      e,
      fits.1 λ o. elim o [ inl (p, _) ↦ absurd (omega arith) | inr (_, p) ↦ absurd (omega arith) ],
    )

-- With every suffix that the program uses, and behind any name, `buildName` returns a name of at
-- most 63 bytes.
pub build_name-Fits : (name : Str) → All (Fits name) suffixes
unfolding str
build_name-Fits name = (
  Fits-short name [] (omega arith),
  (
    Fits-short name config_secret_name (omega arith),
    (
      Fits-short name (str "expose") (omega arith),
      (Fits-short name (str "cleanup") (omega arith), tt),
    ),
  ),
)
