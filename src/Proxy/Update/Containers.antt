-- ===== src/Proxy/Update/Containers.antt =====
-- What `Update` writes to the containers of the proxy's deployment.
use sso_operator.Base.{◌≡◌, refl, List, [], ◌∷◌, arith}
use sso_operator.Base.Text.{Str, same_iff}
use sso_operator.Objects.{EnvVar, Container, Deployment}
use sso_operator.Proxy.Resources.{secret_version_env}
use sso_operator.Proxy.Update.{update_env, update_containers, updated_deployment}

-- Each variable of the version's name has the version, and each other is as it was, in place.
abbrev pub EnvUpdated : Str → List EnvVar → List EnvVar → Type 0
EnvUpdated version [] new = new ≡ []
EnvUpdated version (e ∷ old) [] = ⊥
EnvUpdated version (e ∷ old) (e' ∷ new) =
    (e'.name ≡ e.name)
    × (e.name ≡ secret_version_env → e'.value ≡ version)
    × ((e.name ≡ secret_version_env → ⊥) → e'.value ≡ e.value)
    × EnvUpdated version old new

-- The same for each container, whose other fields are as they were.
abbrev pub ContainersUpdated : Str → List Container → List Container → Type 0
ContainersUpdated version [] new = new ≡ []
ContainersUpdated version (c ∷ old) [] = ⊥
ContainersUpdated version (c ∷ old) (c' ∷ new) =
    EnvUpdated version c.env c'.env
    × (record c' { env = c.env } ≡ c)
    × ContainersUpdated version old new

update_env-EnvUpdated :
    (version : Str) (env : List EnvVar) → EnvUpdated version env (update_env version env)
unfolding update_env
update_env-EnvUpdated version [] = refl
update_env-EnvUpdated version (e ∷ env) = (
  ground arith,
  ground (arith, same_iff e.name secret_version_env),
  ground (arith, same_iff e.name secret_version_env),
  update_env-EnvUpdated version env,
)

update_containers-ContainersUpdated :
    (version : Str) (containers : List Container)
    → ContainersUpdated version containers (update_containers version containers)
unfolding update_containers
update_containers-ContainersUpdated version [] = refl
update_containers-ContainersUpdated version (c ∷ containers) = (
  update_env-EnvUpdated version c.env,
  refl,
  update_containers-ContainersUpdated version containers,
)

update_env_twice :
    (v w : Str) (env : List EnvVar) → update_env w (update_env v env) ≡ update_env w env
unfolding update_env
update_env_twice v w [] = refl
update_env_twice v w (e ∷ env) = ground (arith, update_env_twice v w env)

update_containers_twice :
    (v w : Str) (cs : List Container)
    → update_containers w (update_containers v cs) ≡ update_containers w cs
unfolding update_containers
update_containers_twice v w [] = refl
update_containers_twice v w (c ∷ cs) =
    rw (update_env_twice v w c.env, update_containers_twice v w cs) refl

-- The deployment that `Update` sends: in each container every variable "SECRET_VERSION" has the new
-- version, and every other variable and every other field of the container is as it was; and a
-- second update of what was sent gives what that update gives of the first deployment.
pub updated_deployment_lem :
    (version later : Str) (d : Deployment)
    → ContainersUpdated version d.spec.template.spec.containers
        (updated_deployment version d).spec.template.spec.containers
      × (updated_deployment later (updated_deployment version d) ≡ updated_deployment later d)
unfolding updated_deployment
updated_deployment_lem version later d = (
  update_containers-ContainersUpdated version d.spec.template.spec.containers,
  rw (update_containers_twice version later d.spec.template.spec.containers) refl,
)
