-- ===== src/Proxy/CookieKey/Alphabet.antt =====
-- The length and the letters of a generated key.
use sso_operator.Base.{
  ℕ, zero, suc, ◌%◌, ◌≤◌, ◌<◌, ◌≡◌, refl, ◌⊎◌, inl, inr, some, List, [], ◌∷◌, length, get_elem?,
  All, arith,
}
use sso_operator.Base.Text.{Str, str}
use sso_operator.Base.Run.{Error, Reply, reply, failed, ok, err, wrap}
use sso_operator.Platform.{Platform}
use sso_operator.Proxy.CookieKey.{letters, encode, generate_cookie_key, cookie_secret_len}

-- A digit or a letter of ASCII.
abbrev pub IsAlphanumeric : ℕ → Type 0
IsAlphanumeric c = ((b'0' ≤ c) × (c ≤ b'9')) ⊎ ((b'A' ≤ c) × (c ≤ b'Z')) ⊎ ((b'a' ≤ c) × (c ≤ b'z'))

letters-length : length letters ≡ 62
unfolding str
letters-length = refl

letters-IsAlphanumeric : All IsAlphanumeric letters
unfolding str
letters-IsAlphanumeric = omega arith

get_elem?-All :
    (s : Str) (i : ℕ)
    → All IsAlphanumeric s
    → i < length s
    → (c : ℕ) × (get_elem? s i ≡ some c) × IsAlphanumeric c
get_elem?-All [] i h k = absurd (omega arith)
get_elem?-All (c ∷ s) zero h k = (c, refl, h.0)
get_elem?-All (c ∷ s) (suc i) h k = get_elem?-All s i h.1 (omega arith)

encode-cons :
    (b c : ℕ) (bytes : List ℕ) (s : Str)
    → get_elem? letters (b % length letters) ≡ some c
    → encode bytes ≡ some s
    → encode (b ∷ bytes) ≡ some (c ∷ s)
unfolding encode
encode-cons b c bytes s h k = ground arith

encode_total :
    (bytes : List ℕ)
    → (s : Str) × (encode bytes ≡ some s) × (length s ≡ length bytes) × All IsAlphanumeric s
unfolding encode
encode_total [] = ([], refl, refl, tt)
encode_total (b ∷ bytes) =
    let (c, e, p) =
      get_elem?-All letters (b % length letters) letters-IsAlphanumeric
        (rw letters-length (omega arith)) in
    let (s, e', l, q) = encode_total bytes in
    (c ∷ s, encode-cons b c bytes s e e', omega arith, (p, q))

module _ (P : Platform) where
  open P use {Cluster, random_bytes}

  -- `rand.Read` fills the whole buffer when it reports no error.
  abbrev pub FillsBuffer : Type 0
  FillsBuffer =
      (n : ℕ) (c c' : Cluster) (bytes : List ℕ)
      → random_bytes n c ≡ (reply bytes, c')
      → length bytes ≡ n

  -- Where the source of randomness fills the buffer when it answers: `GenerateCookieKey` then
  -- returns a key of 32 bytes, each an ASCII digit or letter; when the source fails, its error
  -- comes back wrapped twice. The state is the one that the source leaves.
  pub generate_cookie_key_lem :
      FillsBuffer
      → (c c' : Cluster) (r : Reply (List ℕ)) → random_bytes cookie_secret_len c ≡ (r, c')
      → ((key : Str) × (generate_cookie_key P c ≡ (ok key, c'))
          × (length key ≡ 32)
          × All IsAlphanumeric key)
        ⊎ ((e : Error) × (r ≡ failed e)
            × (generate_cookie_key P c
                ≡ (err (wrap (wrap e (str "generating random")) (str "generating secret")), c')))
  unfolding generate_cookie_key
  generate_cookie_key_lem fills c c' (reply bytes) h =
      let (key, e, l, all) = encode_total bytes in
      inl (key, rw (h, e) refl, omega (arith, fills _ c c' bytes h), all)
  generate_cookie_key_lem fills c c' (failed e) h = inr (e, refl, rw h refl)
