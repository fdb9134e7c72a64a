-- ===== src/CommandLine/Command.antt =====
-- The command and the end of the process: `commandRoot` and `main` of main.go.
use sso_operator.Base.{ℕ, List, [], ◌∷◌}
use sso_operator.Base.Text.{Str, str}
use sso_operator.Base.Run.{Reply, reply, failed, Outcome, ok, err, panic}
use sso_operator.Platform.{Platform}
use sso_operator.Dex.Connection.{Host}
use sso_operator.CommandLine.{OperatorOptions, Serving, start}

-- A flag of a string: its name, its shorthand and its default.
pub record Flag : Type 0 where
  pub name : Str
  pub shorthand : Str
  pub default : Str

-- cobra's parser: the value of each flag, by its name, or an error.
abbrev pub Parser : Type 0
Parser = List Flag → List Str → Reply (Str → Str)

abbrev long_flag : Str → Flag
long_flag name = record { name = name; shorthand = []; default = [] }

unfoldable pub flags : List Flag
flags =
    record { name = str "namespace"; shorthand = str "n"; default = [] }
    ∷ long_flag (str "watch-namespace")
    ∷ long_flag (str "dex-grpc-host-port")
    ∷ long_flag (str "dex-grpc-client-crt")
    ∷ long_flag (str "dex-grpc-client-key")
    ∷ long_flag (str "dex-grpc-client-ca")
    ∷ long_flag (str "cluster-role-name")
    ∷ []

-- The options that the flags are bound to.
unfoldable pub options_of : (Str → Str) → OperatorOptions
options_of value = record {
  namespace = value (str "namespace");
  watch_namespace = value (str "watch-namespace");
  dex_grpc_host_and_port = value (str "dex-grpc-host-port");
  dex_grpc_client_crt = value (str "dex-grpc-client-crt");
  dex_grpc_client_key = value (str "dex-grpc-client-key");
  dex_grpc_client_ca = value (str "dex-grpc-client-ca");
  cluster_role_name = value (str "cluster-role-name");
}

module _ (H : Host) (P : Platform) where
  -- The process goes on with the loop of the SDK, or ends with a code or a panic.
  pub data Process : Type 0 where
    serves : Serving H → Process
    exits : ℕ → Process
    panics : Process

  ended : Outcome (Serving H) → Process
  ended (ok s) = serves s
  ended (err e) = exits 2
  ended panic = panics

  -- `Run`, where every error is logged and ends the process.
  unfoldable pub run_operator : OperatorOptions → P.Cluster → Process × P.Cluster
  unfolding ended
  run_operator o s = let (r, s') = start H P o s in (ended r, s')

  executed : Reply (Str → Str) → P.Cluster → Process × P.Cluster
  unfolding run_operator
  executed (reply value) s = run_operator (options_of value) s
  executed (failed e) s = (exits 2, s)

  unfoldable pub main : Parser → List Str → P.Cluster → Process × P.Cluster
  unfolding executed
  main parse args s = executed (parse flags args) s
