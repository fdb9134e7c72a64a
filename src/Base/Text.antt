-- ===== src/Base/Text.antt =====
-- Go strings as lists of bytes, with the functions of `strings` and `fmt` that the program calls.
pub mod Decimal
use Prim.Native.Nat.{ℕ, zero, suc, ◌+◌, ◌/◌, ◌%◌, ◌≤◌}
use Prim.Native.Char.{code}
use Prim.Native.String.{String}
use mathlib.Core.Path.{◌≡◌, refl}
use mathlib.Core.Logic.{◌↔◌, ◌≢◌, inl, inr}
use mathlib.Core.Bool.{Bool, true, false, ◌&&◌}
use mathlib.Core.List.{List, [], ◌∷◌, ◌++◌}
use mathlib.Core.Option.{Option, none, some}
use native.Mathlib.Omega.{arith}
use sso_operator.Base.Tests.{◌==◌, leb, ltb, if◌then◌else◌, Bool-cases}
use sso_operator.Base.Lists.{length, take, drop}

abbrev pub Str : Type 0
Str = List ℕ

codes : String → Str
codes String.[] = []
codes (String.◌∷◌ c s) = code c ∷ codes s

-- A literal of the source. It stays shut in proofs and is opened by tests.
unfoldable pub str : String → Str
unfolding codes
str s = codes s

-- `a == b` on strings.
abbrev pub same : Str → Str → Bool
same [] [] = true
same [] (y ∷ ys) = false
same (x ∷ xs) [] = false
same (x ∷ xs) (y ∷ ys) = (x == y) && same xs ys

pub same_eq : (s t : Str) → same s t ≡ true → s ≡ t
same_eq [] [] h = refl
same_eq [] (y ∷ ys) h = cc
same_eq (x ∷ xs) [] h = cc
same_eq (x ∷ xs) (y ∷ ys) h = ground (arith, same_eq xs ys)

pub same_refl : (s : Str) → same s s ≡ true
same_refl [] = refl
same_refl (x ∷ xs) = ground (arith, same_refl xs)

pub same_iff : (s t : Str) → (same s t ≡ true) ↔ (s ≡ t)
same_iff s t = (same_eq s t, λ e. subst_same e)
  where
    subst_same : s ≡ t → same s t ≡ true
    subst_same e = rw e (same_refl t)

pub same_ne : (s t : Str) → s ≢ t → same s t ≡ false
same_ne s t h = elim (Bool-cases (same s t)) [ inl e ↦ absurd (h (same_eq s t e)) | inr e ↦ e ]

-- `s == ""`
abbrev pub is_empty : Str → Bool
is_empty [] = true
is_empty (x ∷ xs) = false

-- `strings.HasPrefix`
abbrev pub has_prefix : Str → Str → Bool
has_prefix s [] = true
has_prefix [] (y ∷ ys) = false
has_prefix (x ∷ xs) (y ∷ ys) = (x == y) && has_prefix xs ys

-- `strings.TrimSuffix` at a suffix of one byte.
unfoldable pub trim_suffix : Str → ℕ → Str
trim_suffix [] c = []
trim_suffix (x ∷ []) c = if x == c then [] else x ∷ []
trim_suffix (x ∷ y ∷ xs) c = x ∷ trim_suffix (y ∷ xs) c

pub length-trim_suffix :
    (s : Str) (c : ℕ)
    → (length (trim_suffix s c) ≤ length s) × (length s ≤ length (trim_suffix s c) + 1)
unfolding trim_suffix
length-trim_suffix [] c = omega arith
length-trim_suffix (x ∷ []) c = ground arith
length-trim_suffix (x ∷ y ∷ xs) c = omega (arith, length-trim_suffix (y ∷ xs) c)

-- `strings.Replace(s, old, "", 1)`: the first occurrence of `old` goes.
unfoldable pub remove_first : Str → Str → Str
remove_first [] old = []
remove_first (x ∷ xs) old =
    let rest = x ∷ remove_first xs old in
    if has_prefix (x ∷ xs) old then drop (length old) (x ∷ xs) else rest

-- `name[:n]` on a string, which panics past the end.
abbrev pub slice_to : Str → ℕ → Option Str
slice_to s n = if leb n (length s) then some (take n s) else none

-- `%d` of a number that is not negative, with one digit for each unit of fuel.
decimal_digits : ℕ → ℕ → Str → Str
decimal_digits zero n out = out
decimal_digits (suc f) n out =
    let rest = decimal_digits f (n / 10) ((b'0' + n % 10) ∷ out) in
    if ltb n 10 then (b'0' + n) ∷ out else rest

unfoldable pub decimal : ℕ → Str
unfolding decimal_digits
decimal n = decimal_digits (suc n) n []

-- `%t` and `{{.Flag}}` of a Boolean.
pub bool_text : Bool → Str
bool_text true = str "true"
bool_text false = str "false"

-- A format string with one verb: the text around an argument.
abbrev pub around : Str → Str → Str → Str
around before s after = before ++ (s ++ after)

-- `%q`, of a string that needs no escapes.
abbrev pub quoted : Str → Str
quoted s = around (str "\"") s (str "\"")
