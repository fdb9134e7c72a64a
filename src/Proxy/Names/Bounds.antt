-- ===== src/Proxy/Names/Bounds.antt =====
-- The lengths that `buildName` can give.
use sso_operator.Base.{
  ℕ, ◌+◌, ◌-◌, ◌≤◌, ◌<◌, ◌≡◌, refl, ◌↔◌, ◌⊎◌, inl, inr, Option, none, some, [], ◌∷◌, ◌++◌, length,
  length-append, length-take, take, arith, subst, dec_lt, if◌then◌else◌,
}
use sso_operator.Base.Text.{Str, trim_suffix, length-trim_suffix, is_empty}
use sso_operator.Proxy.Names.{build_name, joined, trimmed, finish, dash}

-- The two parts lie on the boundary that the switch has no case for.
abbrev pub IsOversized : Str → Str → Type 0
IsOversized name suffix =
    ((length suffix ≡ 31) × (31 < length name)) ⊎ ((length name ≡ 31) × (31 < length suffix))

-- A result that is there, with a statement of its length.
abbrev Sized : (ℕ → Type 0) → Option Str → Type 0
Sized P none = ⊥
Sized P (some s) = P (length s)

module _ (P : ℕ → Type 0) where
  length-finish :
      (s t : Str)
      → (length t ≡ 0 → P (length s))
      → (0 < length t → P (length s + length t + 1))
      → Sized P (finish (some s) (some t))
  unfolding finish joined
  length-finish s [] h k = h refl
  length-finish s (x ∷ t) h k =
      subst P (omega (arith, length-append {0} s (dash ∷ x ∷ t))) (k (omega arith))

trimmed_lem :
    (s : Str) (n : ℕ)
    → n ≤ length s
    → (r : Str) × (trimmed s n ≡ some r) × (length r ≤ n) × (n ≤ length r + 1)
unfolding trimmed
trimmed_lem s n h = (trim_suffix (take n s) dash, ground arith, bounds.0, bounds.1)
  where
    bounds :
        (length (trim_suffix (take n s) dash) ≤ n) × (n ≤ length (trim_suffix (take n s) dash) + 1)
    bounds = omega (arith, length-trim_suffix (take n s) dash, length-take {0} n s)

abbrev Bounded : Str → Str → ℕ → Type 0
Bounded name suffix n = (n ≤ 63) ↔ ¬ IsOversized name suffix

-- The cases of the switch, each behind what selects it.
module _ (name suffix : Str) where
  abbrev n : ℕ
  n = length name

  abbrev m : ℕ
  m = length suffix

  plain : m ≡ 0 → n < 62 → build_name name suffix ≡ some name
  unfolding build_name
  plain h k = ground arith

  fits : 0 < m → n + m < 62 → build_name name suffix ≡ some (joined name suffix)
  unfolding build_name
  fits h k = ground arith

  both_long :
      31 < m → 31 < n → build_name name suffix ≡ finish (trimmed name 31) (trimmed suffix 31)
  unfolding build_name
  both_long h k = ground arith

  long_suffix :
      31 < m
      → n < 31
      → 62 ≤ n + m
      → build_name name suffix ≡ finish (some name) (trimmed suffix (62 - n))
  unfolding build_name
  long_suffix h k l = ground arith

  long_name :
      m < 31
      → 31 < n
      → 62 ≤ n + m
      → build_name name suffix ≡ finish (trimmed name (62 - m)) (some suffix)
  unfolding build_name
  long_name h k l = ground arith

  longer_name : m ≡ 31 → 63 < n → build_name name suffix ≡ finish (trimmed name 62) (some suffix)
  unfolding build_name
  longer_name h k = ground arith

  boundary :
      ((m ≡ 31) × (31 ≤ n) × (n ≤ 63)) ⊎ ((31 < m) × (n ≡ 31))
      → build_name name suffix ≡ finish (some name) (some suffix)
  unfolding build_name
  boundary h = ground arith

Bounded-cut :
    (name suffix s t : Str)
    → length s + length t ≤ 62
    → ¬ IsOversized name suffix
    → Sized (Bounded name suffix) (finish (some s) (some t))
Bounded-cut name suffix s t h k =
    length-finish (Bounded name suffix) s t (λ z. (λ _. k, λ _. omega arith))
      (λ z. (λ _. k, λ _. omega arith))

-- A cut of both parts, of the suffix, and of the name.
Bounded-cut_both :
    (name suffix : Str)
    → 31 < length suffix
    → 31 < length name
    → Sized (Bounded name suffix) (build_name name suffix)
Bounded-cut_both name suffix h k =
    let (s, e, u, _) = trimmed_lem name 31 (omega arith) in
    let (t, e', v, _) = trimmed_lem suffix 31 (omega arith) in
    rw (both_long name suffix h k, e, e') (Bounded-cut name suffix s t (omega arith) (ground arith))

Bounded-cut_suffix :
    (name suffix : Str)
    → 31 < length suffix
    → length name < 31
    → 62 ≤ length name + length suffix
    → Sized (Bounded name suffix) (build_name name suffix)
Bounded-cut_suffix name suffix h k l =
    let (t, e, v, _) = trimmed_lem suffix (62 - length name) (omega arith) in
    rw (long_suffix name suffix h k l, e)
      (Bounded-cut name suffix name t (omega arith) (ground arith))

Bounded-cut_name :
    (name suffix : Str)
    → length suffix < 31
    → 31 < length name
    → 62 ≤ length name + length suffix
    → Sized (Bounded name suffix) (build_name name suffix)
Bounded-cut_name name suffix h k l =
    let (s, e, u, _) = trimmed_lem name (62 - length suffix) (omega arith) in
    rw (long_name name suffix h k l, e)
      (Bounded-cut name suffix s suffix (omega arith) (ground arith))

Bounded-longer_name :
    (name suffix : Str)
    → length suffix ≡ 31
    → 63 < length name
    → Sized (Bounded name suffix) (build_name name suffix)
Bounded-longer_name name suffix h k =
    let (s, e, u, v) = trimmed_lem name 62 (omega arith) in
    rw (longer_name name suffix h k, e)
      (length-finish (Bounded name suffix) s suffix (λ z. ground arith) (λ z. ground arith))

Bounded-boundary :
    (name suffix : Str)
    → ((length suffix ≡ 31) × (31 ≤ length name) × (length name ≤ 63))
      ⊎ ((31 < length suffix) × (length name ≡ 31))
    → Sized (Bounded name suffix) (build_name name suffix)
Bounded-boundary name suffix h =
    rw (boundary name suffix h)
      (length-finish (Bounded name suffix) name suffix (λ z. ground arith) (λ z. ground arith))

Bounded-short :
    (name suffix : Str)
    → length name + length suffix < 62
    → Sized (Bounded name suffix) (build_name name suffix)
unfolding joined
Bounded-short name suffix h = elim (dec_lt 0 (length suffix)) [
  | yes p ↦ rw (fits name suffix p h) (ground (arith, length-append {0} name (dash ∷ suffix)))
  | no p ↦ rw (plain name suffix (omega arith) (omega arith)) (ground arith)
]

build_name-Bounded : (name suffix : Str) → Sized (Bounded name suffix) (build_name name suffix)
build_name-Bounded name suffix = elim (dec_lt (length name + length suffix) 62) [
  | yes h ↦ Bounded-short name suffix h
  | no h ↦ elim (dec_lt 31 (length suffix)) [
    | yes long ↦ elim (dec_lt 31 (length name)) [
      | yes k ↦ Bounded-cut_both name suffix long k
      | no k ↦ elim (dec_lt (length name) 31) [
        | yes l ↦ Bounded-cut_suffix name suffix long l (omega arith)
        | no l ↦ Bounded-boundary name suffix (inr (long, omega arith))
      ]
    ]
    | no short ↦ elim (dec_lt (length suffix) 31) [
      | yes k ↦ Bounded-cut_name name suffix k (omega arith) (omega arith)
      | no k ↦ elim (dec_lt 63 (length name)) [
        | yes l ↦ Bounded-longer_name name suffix (omega arith) l
        | no l ↦ Bounded-boundary name suffix (inl (omega arith, omega arith, omega arith))
      ]
    ]
  ]
]

-- `buildName` returns for every name and suffix, and what it returns has at most 63 bytes exactly
-- unless one part has 31 bytes and the other has more.
pub build_name_bounds :
    (name suffix : Str)
    → (r : Str) × (build_name name suffix ≡ some r) × ((length r ≤ 63) ↔ ¬ IsOversized name suffix)
build_name_bounds name suffix = witness (build_name name suffix) (build_name-Bounded name suffix)
  where
    witness :
        (o : Option Str)
        → Sized (Bounded name suffix) o
        → (r : Str) × (o ≡ some r) × ((length r ≤ 63) ↔ ¬ IsOversized name suffix)
    witness none h = absurd h
    witness (some r) h = (r, refl, h)

-- A name and a suffix that leave room are joined unchanged: with no suffix a name of less than 62
-- bytes stays as it is, and otherwise both parts are there around a dash.
pub build_name_short :
    (name suffix : Str)
    → length name + length suffix < 62
    → build_name name suffix ≡ some (if is_empty suffix then name else name ++ (dash ∷ suffix))
unfolding joined
build_name_short name [] h = plain name [] refl (omega arith)
build_name_short name (x ∷ suffix) h = fits name (x ∷ suffix) (omega arith) h
