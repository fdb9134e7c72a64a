-- ===== src/Dex/Connection.antt =====
-- `NewClient` of pkg/dex/client.go: the TLS connection to dex's gRPC server.
use sso_operator.Base.{Bool, ◌++◌, if◌then◌else◌}
use sso_operator.Base.Text.{Str, str, quoted}
use sso_operator.Base.Run.{Reply, Run, pure, raise, message, outcome, wrap_err, ◌>>=◌, ◌>>◌}

-- What the program asks of its host: the environment, files, TLS and gRPC.
pub record Host : Type 1 where
  pub getenv : Str → Str
  -- `os.IsNotExist` of the error of `os.Stat`
  pub is_missing : Str → Bool
  pub read_file : Str → Reply Str
  -- whether a certificate was appended
  pub append_certs_from_pem : Str → Bool
  pub KeyPair : Type 0
  pub load_x509_key_pair : Str → Str → Reply KeyPair
  pub Conn : Type 0
  -- the address, the root certificate and the client's certificate
  pub dial : Str → Str → KeyPair → Reply Conn

pub record Options : Type 0 where
  pub host_and_port : Str
  pub client_crt : Str
  pub client_key : Str
  pub client_ca : Str

module _ (H : Host) where
  open H use {Conn, read_file, append_certs_from_pem, load_x509_key_pair, dial}

  module _ {S : Type 0} where
    -- A request that leaves the state alone.
    abbrev pub ask : {A : Type 0} → Reply A → Run S A
    ask r s = (outcome r, s)

    abbrev require : Bool → Str → Run S (Unit {0})
    require b text = if b then pure tt else raise (message text)

    unfoldable pub new_client : Options → Run S Conn
    new_client opts = do
      ca_cert ←
          wrap_err (str "reading the public CA cert from " ++ quoted opts.client_ca)
            (ask (read_file opts.client_ca))
      require (append_certs_from_pem ca_cert) (str "failed to append the CA cert to the certs pool")
      client_cert ←
          wrap_err
            (str "loading the client cert "
              ++ (quoted opts.client_crt ++ (str " and private key " ++ quoted opts.client_key)))
            (ask (load_x509_key_pair opts.client_crt opts.client_key))
      wrap_err (str "opening the gRPC connection with server " ++ quoted opts.host_and_port)
          (ask (dial opts.host_and_port ca_cert client_cert))
