-- ===== src/Operator/Registry.antt =====
-- The operator seen from dex: a registry of clients by their ids, and what one event may do to it.
use sso_operator.Base.{◌≡◌, ◌≢◌, Option, none, some, List, [], ◌∷◌, if◌then◌else◌, false}
use sso_operator.Base.Text.{Str, same}
use sso_operator.Objects.{OidcClient}

abbrev pub Registry : Type 0
Registry = Str → Option OidcClient

-- All entries but that of the id are as they were.
abbrev pub SameBut : Str → Registry → Registry → Type 0
SameBut id a b = (j : Str) → same j id ≡ false → b j ≡ a j

-- What an event asks of the registry: nothing, to clean up the client of the id, or that its resource
-- has a client.
pub data Asked : Type 0 where
  passes : Asked
  cleans : Str → Asked
  serves : Asked

-- How an event was handled: with no error, with an error, or with a panic.
pub data Ended : Type 0 where
  returned : Ended
  errored : Ended
  panicked : Ended

-- What an event that asks for this and ends so may do to the registry.
pub data Effect : Asked → Ended → Registry → Registry → Type 0 where
  -- Nothing was asked, and nothing happens.
  idle : {a b : Registry} → ((j : Str) → b j ≡ a j) → Effect passes returned a b
  -- The resource was served before.
  unchanged : {a b : Registry} → ((j : Str) → b j ≡ a j) → Effect serves returned a b
  -- The resource gets a client under a new id, with a redirect URL at least.
  registers :
      {a b : Registry} (id : Str) (c : OidcClient)
      → a id ≡ none
      → b id ≡ some c
      → c.redirect_uris ≢ []
      → SameBut id a b
      → Effect serves returned a b
  -- A registration failed and was undone.
  undone : {a b : Registry} → ((j : Str) → b j ≡ a j) → Effect serves errored a b
  -- A registration failed or crashed and was not undone: a client may be left over, and none is lost.
  strands :
      {a b : Registry} {o : Ended}
      → o ≢ returned
      → ((j : Str) (k : OidcClient) → a j ≡ some k → b j ≡ some k)
      → Effect serves o a b
  -- The client of the id goes.
  removes :
      {a b : Registry} {id : Str}
      → ((j : Str) → b j ≡ (if same j id then none else a j))
      → Effect (cleans id) returned a b
  -- The clean-up failed or crashed: that client may be there or not.
  leaves :
      {a b : Registry} {id : Str} {o : Ended}
      → o ≢ returned
      → SameBut id a b
      → Effect (cleans id) o a b

-- One effect after the other, for what was asked and how it ended, the latest first.
pub data Trace (a : Registry) : List (Asked × Ended) → Registry → Type 0 where
  none_yet : {b : Registry} → ((j : Str) → b j ≡ a j) → Trace a [] b
  and_then :
      {b c : Registry} {asked : Asked} {ended : Ended} {before : List (Asked × Ended)}
      → Trace a before b
      → Effect asked ended b c
      → Trace a ((asked, ended) ∷ before) c
