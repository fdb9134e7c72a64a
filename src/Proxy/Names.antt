-- ===== src/Proxy/Names.antt =====
-- `buildName` of pkg/proxy/proxy.go.
pub mod Bounds
pub mod Suffixes
use sso_operator.Base.{
  ℕ, zero, suc, ◌+◌, ◌-◌, ◌/◌, Bool, ◌&&◌, Option, none, some, [], ◌∷◌, ◌++◌, length, leb, ltb,
  if◌then◌else◌,
}
use sso_operator.Base.Text.{Str, trim_suffix, slice_to, is_empty}

abbrev pub max_len_name : ℕ
max_len_name = 62

abbrev pub max_len_one_part : ℕ
max_len_one_part = max_len_name / 2

abbrev pub dash : ℕ
dash = b'-'

unfoldable pub joined : Str → Str → Str
joined name suffix = name ++ (dash ∷ suffix)

unfoldable pub trimmed : Str → ℕ → Option Str
trimmed s n = elim (slice_to s n) [ none ↦ none | some t ↦ some (trim_suffix t dash) ]

-- The `if` behind the switch.
unfoldable pub finish : Option Str → Option Str → Option Str
finish none suffix = none
finish (some name) none = none
finish (some name) (some suffix) = some (if is_empty suffix then name else joined name suffix)

-- `none` stands for the panic of a slice past the end of a string. The cases are those of the
-- switch, in its order; the last line is a switch with no case that holds.
unfoldable pub build_name : Str → Str → Option Str
build_name name suffix =
    let n = length name in
    let m = length suffix in
    if ltb 0 m && ltb (n + m) max_len_name
    then some (joined name suffix)
    else if (leb m 0) && ltb n max_len_name
    then some name
    else if ltb max_len_one_part m && ltb max_len_one_part n
    then finish (trimmed name max_len_one_part) (trimmed suffix max_len_one_part)
    else if ltb max_len_one_part m && ltb n max_len_one_part
    then finish (some name) (trimmed suffix (62 - n))
    else if ltb m max_len_one_part && ltb max_len_one_part n
    then finish (trimmed name (max_len_name - m)) (some suffix)
    else if ltb (max_len_name + 1) n
    then finish (trimmed name max_len_name) (some suffix)
    else finish (some name) (some suffix)
