-- ===== src/Kube/Client.antt =====
-- The clients, pkg/kubernetes/client.go.
use sso_operator.Base.Text.{str}
use sso_operator.Base.Run.{Run, call, catch, raise, message, wrap_err, ◌>>=◌}
use sso_operator.Base.{◌++◌}
use sso_operator.Platform.{Platform}
use sso_operator.Client.Clientset as Jenkins

module _ (P : Platform) where
  open P use {
    Cluster, rest, Clientset, ApiExtensions, client_config, new_for_config,
    new_extensions_for_config, error_text,
  }

  unfoldable pub get_client_config : Run Cluster rest.Config
  get_client_config =
      catch (call client_config)
        λ e. raise (message (str "Error creating kubeConfig: " ++ error_text e))

  unfoldable pub get_clientset : Run Cluster Clientset
  unfolding get_client_config
  get_clientset = do
    config ← wrap_err (str "getting client config for kubernetes client") get_client_config
    call (new_for_config config)

  unfoldable pub get_api_extensions_client : Run Cluster ApiExtensions
  unfolding get_client_config
  get_api_extensions_client = do
    config ← wrap_err (str "getting client config for api extensions client") get_client_config
    call (new_extensions_for_config config)

  unfoldable pub get_jenkins_client : Run Cluster (Jenkins.Clientset rest)
  unfolding get_client_config Jenkins.new_for_config
  get_jenkins_client = do
    config ← wrap_err (str "getting client config for jenkins client") get_client_config
    Jenkins.new_for_config rest config
