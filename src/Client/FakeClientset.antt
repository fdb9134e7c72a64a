-- ===== src/Client/FakeClientset.antt =====
-- The fake clientset, pkg/client/clientset/versioned/fake/clientset_generated.go, and its client of a
-- group, pkg/client/clientset/versioned/typed/jenkins.io/v1/fake/fake_jenkins.io_client.go. The
-- fixture is the state of the runs, so a pointer to it is left out.
pub mod Tracked
use sso_operator.Base.{Option, none, some, List, [], ◌∷◌}
use sso_operator.Base.Text.{Str, str}
use sso_operator.Base.Run.{Error, Outcome, ok, err, panic, Run, pure, crash, ◌>>=◌, ◌>>◌}
use sso_operator.Api.Scheme.{Schemes, clientset_scheme}
use sso_operator.Client.Rest.{Rest}
use sso_operator.Client.Fake.{Object, Testing, FakeSsos}

module _ {Server : Type 0} {R : Rest Server} (T : Testing R) (L : Schemes) where
  -- The object tracker of `k8s.io/client-go/testing`, and a fixture that reacts by it.
  pub record Tracking : Type 1 where
    pub Tracker : Type 0
    -- `NewObjectTracker` of a scheme and its decoder
    pub new_tracker : L.Scheme → Tracker
    pub add : Object → Tracker → Option Error × Tracker
    pub Reaction : Type 0
    pub object_reaction : Tracker → Reaction
    -- the zero fixture, and `AddReactor` of a verb and a resource
    pub zero_fixture : T.Fixture
    pub add_reactor : Str → Str → Reaction → T.Fixture → T.Fixture

-- `Clientset`: its discovery client is over the fixture.
pub record FakeDiscovery : Type 0 where

pub record FakeClientset : Type 0 where
  pub discovery : FakeDiscovery

pub record FakeJenkinsV1 : Type 0 where

unfoldable pub fake_discovery_of : FakeClientset → FakeDiscovery
fake_discovery_of c = c.discovery

-- `JenkinsV1` and `Jenkins`
unfoldable pub fake_jenkins_v1_of : FakeClientset → FakeJenkinsV1
fake_jenkins_v1_of c = record {}

unfoldable pub fake_jenkins_of : FakeClientset → FakeJenkinsV1
fake_jenkins_of c = record {}

module _ {Server : Type 0} {R : Rest Server} (T : Testing R) where
  unfoldable pub fake_ssos_of : FakeJenkinsV1 → Str → FakeSsos T
  fake_ssos_of c namespace = record { ns = namespace }

  -- `RESTClient`: a nil pointer.
  unfoldable pub fake_rest_client : FakeJenkinsV1 → Option R.RestClient
  fake_rest_client c = none

module _ {Server : Type 0} {R : Rest Server} {T : Testing R} {L : Schemes} (K : Tracking T L) where
  open K use {Tracker}

  -- `if err := o.Add(obj); err != nil { panic(err) }`
  add_result : Option Error × Tracker → Run Tracker (Unit {0})
  add_result (none, o) s = (ok tt, o)
  add_result (some e, o) s = (panic, o)

  -- The loop over the objects.
  unfoldable pub add_all : List Object → Run Tracker (Unit {0})
  unfolding add_result
  add_all [] = pure tt
  add_all (x ∷ objects) = (λ o. add_result (K.add x o) o) >> add_all objects

  -- The clientset with its fixture, unless an object cannot be added.
  unfoldable pub with_tracker : Outcome (Unit {0}) × Tracker → Outcome (FakeClientset × T.Fixture)
  with_tracker (ok u, o) = ok (
    record { discovery = record {} },
    K.add_reactor (str "*") (str "*") (K.object_reaction o) K.zero_fixture,
  )
  with_tracker (err e, o) = err e
  with_tracker (panic, o) = panic

  unfoldable pub new_simple_clientset : List Object → Outcome (FakeClientset × T.Fixture)
  unfolding add_all with_tracker clientset_scheme
  new_simple_clientset objects = with_tracker (add_all objects (K.new_tracker (clientset_scheme L)))
