-- ===== src/Client/Clientset.antt =====
-- The clientset and its clients: pkg/client/clientset/versioned/clientset.go and
-- pkg/client/clientset/versioned/typed/jenkins.io/v1/jenkins.io_client.go.
use sso_operator.Base.{Bool, true, false, ◌&&◌, Option, none, some, if◌then◌else◌}
use sso_operator.Base.Text.{Str, str, is_empty}
use sso_operator.Base.Run.{Run, pure, call, catch, crash, deref, ◌>>=◌}
use sso_operator.Client.Rest.{Rest}
use sso_operator.Client.Typed.{JenkinsV1Client, SsoClient, new_ssos}

module _ {Server : Type 0} (R : Rest Server) where
  open R use {RestClient, Config, Discovery}

  pub record Clientset : Type 0 where
    pub discovery_client : Discovery
    pub jenkins_v1 : JenkinsV1Client R

  -- `JenkinsV1`, and the accessors of a pointer that may be nil.
  unfoldable pub jenkins_v1_of : Clientset → JenkinsV1Client R
  jenkins_v1_of c = c.jenkins_v1

  unfoldable pub discovery_of : Option Clientset → Option Discovery
  discovery_of none = none
  discovery_of (some c) = some c.discovery_client

  unfoldable pub rest_client_of : Option (JenkinsV1Client R) → Option RestClient
  rest_client_of none = none
  rest_client_of (some c) = some c.rest_client

  unfoldable pub ssos_of : JenkinsV1Client R → Str → SsoClient R
  unfolding new_ssos
  ssos_of c namespace = new_ssos R c namespace

  unfoldable pub set_config_defaults : Config → Config
  set_config_defaults config =
      let config' = R.with_serializer (
        R.with_api_path (R.with_group_version config (str "jenkins.io") (str "v1"))
          (str "/apis")) in
      if is_empty (R.user_agent config')
      then R.with_user_agent config' (R.default_user_agent)
      else config'

  unfoldable pub new_jenkins_for_config : Config → Run Server (JenkinsV1Client R)
  unfolding set_config_defaults
  new_jenkins_for_config config = do
    client ← call (R.rest_client_for (set_config_defaults config))
    pure (record { rest_client = client })

  -- An error is a panic.
  unfoldable pub new_jenkins_for_config_or_die : Config → Run Server (JenkinsV1Client R)
  unfolding new_jenkins_for_config
  new_jenkins_for_config_or_die config = catch (new_jenkins_for_config config) (λ e. crash)

  unfoldable pub new_jenkins : RestClient → JenkinsV1Client R
  new_jenkins c = record { rest_client = c }

  is_none : {A : Type 0} → Option A → Bool
  is_none none = true
  is_none (some a) = false

  -- The copy of the configuration that both clients are made of.
  unfoldable pub limited : Config → Config
  unfolding is_none
  limited config =
      if is_none (R.rate_limiter config) && R.has_qps config
      then R.with_rate_limiter config (R.token_bucket config)
      else config

  unfoldable pub new_for_config : Config → Run Server Clientset
  unfolding limited new_jenkins_for_config
  new_for_config config = do
    jenkins_v1 ← new_jenkins_for_config (limited config)
    discovery_client ← call (R.discovery_for_config (limited config))
    pure (record { discovery_client = discovery_client; jenkins_v1 = jenkins_v1 })

  unfoldable pub new_for_config_or_die : Config → Run Server Clientset
  unfolding new_jenkins_for_config_or_die
  new_for_config_or_die config = do
    jenkins_v1 ← new_jenkins_for_config_or_die config
    found ← λ s. let (d, s') = R.discovery_for_config_or_die config s in deref d s'
    pure (record { discovery_client = found; jenkins_v1 = jenkins_v1 })

  unfoldable pub new_clientset : RestClient → Clientset
  unfolding new_jenkins
  new_clientset c = record { discovery_client = R.discovery_of c; jenkins_v1 = new_jenkins c }
