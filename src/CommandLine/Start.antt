-- ===== src/CommandLine/Start.antt =====
-- What holds once the operator has started.
use sso_operator.Base.{◌≡◌, false, none, ◌↔◌, arith}
use sso_operator.Base.Text.{is_empty}
use sso_operator.Platform.{Platform}
use sso_operator.Dex.Connection.{Host}
use sso_operator.CommandLine.{OperatorOptions, validate}

module _ (H : Host) where
  -- The options name a server and three files that are there.
  abbrev pub IsValid : OperatorOptions → Type 0
  IsValid o =
      (is_empty o.dex_grpc_host_and_port ≡ false)
      × (H.is_missing o.dex_grpc_client_crt ≡ false)
      × (H.is_missing o.dex_grpc_client_key ≡ false)
      × (H.is_missing o.dex_grpc_client_ca ≡ false)

  -- `Validate` returns no error exactly if the host and port are not empty and none of the three
  -- files is missing.
  pub validate_lem : (o : OperatorOptions) → (validate H o ≡ none) ↔ IsValid o
  unfolding validate
  validate_lem o = ground arith
