-- ===== src/CommandLine.antt =====
-- The start of the operator, main.go.
pub mod Start
pub mod Command
use sso_operator.Base.{Bool, Option, none, some, ◌++◌, if◌then◌else◌}
use sso_operator.Base.Text.{Str, str, is_empty, around}
use sso_operator.Base.Run.{Error, Run, pure, raise, message, ◌>>=◌, ◌>>◌}
use sso_operator.Platform.{Platform}
use sso_operator.Dex.Connection.{Host, Options, new_client}
use sso_operator.Kube.Client.{get_api_extensions_client}
use sso_operator.Kube.Resources.{register_sso_crd}
use sso_operator.Operator.Config.{Handler, new_handler}

pub record OperatorOptions : Type 0 where
  pub namespace : Str
  pub watch_namespace : Str
  pub dex_grpc_host_and_port : Str
  pub dex_grpc_client_crt : Str
  pub dex_grpc_client_key : Str
  pub dex_grpc_client_ca : Str
  pub cluster_role_name : Str

module _ (H : Host) where
  open H use {Conn, getenv, is_missing}

  -- The error of `Validate`, if there is one.
  unfoldable pub validate : OperatorOptions → Option Error
  validate o =
      if is_empty o.dex_grpc_host_and_port
      then some (message (str "dex gRPC server host and port is empty"))
      else if is_missing o.dex_grpc_client_crt
      then some (
          message (
            around (str "provided dex gRPC client cert file '") o.dex_grpc_client_crt
              (str "' does not exist")))
      else if is_missing o.dex_grpc_client_key
      then some (
          message (
            around (str "provided dex gRPC client key file '") o.dex_grpc_client_key
              (str "' does not exists")))
      else if is_missing o.dex_grpc_client_ca
      then some (
          message (
            around (str "provided dex gRPC CA cert file '") o.dex_grpc_client_ca
              (str "' does not exists")))
      else none

  -- A flag, or the variable of the environment if the flag is empty.
  unfoldable pub flag_or_env : Str → Str → Str
  flag_or_env flag variable = if is_empty flag then getenv variable else flag

  abbrev check : {S : Type 0} → Option Error → Run S (Unit {0})
  check none = pure tt
  check (some e) = raise e

  -- What is running at the end of `Run`: the connection to dex, the watch and the handler.
  pub record Serving : Type 0 where
    pub dex_client : Conn
    pub watched : Str
    pub handler : Handler

  abbrev pub namespace_of : OperatorOptions → Str
  namespace_of o = flag_or_env o.namespace (str "OPERATOR_NAMESPACE")

  abbrev pub watch_namespace_of : OperatorOptions → Str
  watch_namespace_of o = flag_or_env o.watch_namespace (str "WATCH_NAMESPACE")

  -- `Run` up to the loop of the SDK. An error is an exit with code 2.
  unfoldable pub start : (P : Platform) → OperatorOptions → Run P.Cluster Serving
  start P o = do
    check (validate o)
    dex_client ← new_client H (record {
      host_and_port = o.dex_grpc_host_and_port;
      client_crt = o.dex_grpc_client_crt;
      client_key = o.dex_grpc_client_key;
      client_ca = o.dex_grpc_client_ca;
    })
    apiclient ← get_api_extensions_client P
    register_sso_crd P apiclient
    handler ← new_handler P (namespace_of o) o.cluster_role_name
    pure (record { dex_client = dex_client; watched = watch_namespace_of o; handler = handler })
