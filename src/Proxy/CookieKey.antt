-- ===== src/Proxy/CookieKey.antt =====
-- `GenerateCookieKey` and what it calls, pkg/proxy/proxy.go.
pub mod Alphabet
use sso_operator.Base.{ℕ, ◌%◌, Option, none, some, List, [], ◌∷◌, length, get_elem?, arith}
use sso_operator.Base.Text.{Str, str}
use sso_operator.Base.Run.{Run, pure, call, deref, wrap_err, ◌>>=◌}
use sso_operator.Platform.{Platform}

abbrev pub cookie_secret_len : ℕ
cookie_secret_len = 32

abbrev pub letters : Str
letters = str "0123456789ABCDEFGHIJKLMNOPQRSTUVWXYZabcdefghijklmnopqrstuvwxyz"

-- The loop `bytes[i] = letters[b%byte(len(letters))]`; `none` is an index out of range.
unfoldable pub encode : List ℕ → Option Str
encode [] = some []
encode (b ∷ bytes) = elim (get_elem? letters (b % length letters)) [
  | none ↦ none
  | some c ↦ elim (encode bytes) [ none ↦ none | some s ↦ some (c ∷ s) ]
]

module _ (P : Platform) where
  open P use {Cluster, random_bytes}

  unfoldable pub generate_random_bytes : ℕ → Run Cluster (List ℕ)
  generate_random_bytes n = wrap_err (str "generating random") (call (random_bytes n))

  unfoldable pub generate_secret : ℕ → Run Cluster Str
  unfolding generate_random_bytes encode
  generate_secret size = do
    bytes ← wrap_err (str "generating secret") (generate_random_bytes size)
    deref (encode bytes)

  unfoldable pub generate_cookie_key : Run Cluster Str
  unfolding generate_secret
  generate_cookie_key = generate_secret cookie_secret_len
