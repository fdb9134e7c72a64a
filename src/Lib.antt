-- ===== src/Lib.antt =====
-- The single sign-on operator: a Kubernetes operator that gives each SSO resource an OIDC client in
-- dex and an oauth2 proxy in front of the resource's upstream service.
--
-- The program's parts and the files that model them:
--
-- - main.go starts the operator: it checks the options, connects to dex, registers the CRD and
--   makes the handler. CommandLine.antt has `validate` and `start` (`Run` up to the loop of the
--   SDK), CommandLine/Command.antt the flags and the exit codes (`commandRoot` and `main`), and
--   Dex/Connection.antt has `new_client` (`NewClient`).
-- - pkg/operator/operator.go handles the events. Operator/Handler.antt has `handle`, in the pieces
--   that the proofs follow: `handle_sso` (the case of an SSO resource), `clean_up` (deleted and
--   initialized), `initialize` and `unless_initialized` (up to the client in dex), `provision`
--   (from the deployment on), `or_delete` (an error that is given to `deleteClient`) and
--   `delete_client`.
-- - pkg/operator/config.go keeps the cookie key in a secret: Operator/Config.antt, with
--   `new_handler`.
-- - pkg/dex/client.go wraps dex's gRPC API: Dex.antt.
-- - pkg/proxy/proxy.go deploys and updates the proxy: Proxy/Names.antt (`buildName`),
--   Proxy/CookieKey.antt (`GenerateCookieKey`), Proxy/Upstream.antt (`getUpstreamURL`,
--   `getAppName`), Proxy/Resources.antt (the labels, containers, secrets and `proxyConfig`),
--   Proxy/Deploy.antt and Proxy/Update.antt. pkg/proxy/config.go is Proxy/Config.antt,
--   pkg/proxy/expose.go Proxy/Expose.antt.
-- - pkg/kubernetes: Kube/Client.antt, Kube/Rbac.antt, Kube/Resources.antt (sso.go, ingress.go and
--   crds.go) and Kube/Wait.antt.
-- - The handler over several events: Operator/Handler/History.antt has the sequences of events and
--   of changes of the cluster, Operator/Registry.antt an abstract registry of clients, as a
--   machine; Operator/Handler/Refinement.antt is about the two. Operator/Handler/Redelivery.antt is
--   about an event that is delivered twice. Operator/Health.antt says when a cluster and a dex serve
--   the handler; Operator/Handler/Progress.antt is about the handler there, and
--   Operator/Handler/Returning.antt about panics.
-- - pkg/client/informers: Client/Factory.antt (externalversions/factory.go), with the sequences of
--   its calls in Client/Factory/Operations.antt, and Client/SsoInformer.antt (generic.go and
--   externalversions/jenkins.io). pkg/client/listers: Client/Lister.antt. What they take from
--   client-go is Client/Library.antt.
-- - pkg/client/clientset/versioned: Client/Typed.antt (typed/jenkins.io/v1/sso.go),
--   Client/Clientset.antt (clientset.go and typed/jenkins.io/v1/jenkins.io_client.go),
--   Client/Fake.antt (typed/jenkins.io/v1/fake/fake_sso.go) and Client/FakeClientset.antt
--   (fake/clientset_generated.go), over Client/Rest.antt, which is what they take from client-go.
--   pkg/kubernetes asks through them: the field `rest` of `Platform` is the REST client that they
--   stand on.
-- - pkg/apis/jenkins.io/v1/register.go and the scheme packages: Api/Scheme.antt.
-- - pkg/apis/jenkins.io/v1/zz_generated.deepcopy.go: Api/DeepCopy.antt, over a heap with addresses.
-- - pkg/apis/jenkins.io/v1/types.go: Api.antt. Objects.antt has the Kubernetes and dex values with
--   the fields that the program uses.
--
-- State and errors. A function of the program is a `Run S A` (Base/Run.antt): from a state to an
-- outcome and a state, where the outcome is a value, an error or a panic. What a function changed
-- before it fails stays changed. The state of the handler is a `World`, the cluster and dex;
-- `in_cluster` and `in_dex` run a part on one of the two. An error is what other code made, a
-- message, or a wrapped error. A pointer that may be nil is an `Option`, and reading through nil is
-- a panic.
--
-- Outside code. Everything that the repository calls and does not contain is a field of the record
-- `Platform` (Platform.antt), `Host` (Dex/Connection.antt), `Library` (Client/Library.antt) or
-- `Memory` (Api/DeepCopy.antt), `Rest` (Client/Rest.antt), `Testing` (Client/Fake.antt), `Tracking`
-- (Client/FakeClientset.antt) or `Schemes` (Api/Scheme.antt): the Kubernetes API, the operator SDK,
-- dex's API, polling, randomness, hashing, YAML, files, TLS. What a proof relies on is a
-- hypothesis: `DexLaws` (Dex/View.antt: a created client has a new id, a deletion and an update
-- that are confirmed do what they say and touch no other client), `SecretLaws`
-- (Operator/Config/Stored.antt), `PollsSoundly` (Kube/Wait/Polling.antt: a poll tries its
-- condition, and the cluster may change between two tries), `RangesMaps`
-- (Proxy/Upstream/AppName.antt), `FillsBuffer` (Proxy/CookieKey/Alphabet.antt), `KeepsByKey`
-- (Client/Lister/Lookup.antt), `Addresses` (Api/DeepCopy/Regions.antt: a copied part has its value
-- and lies at new addresses), `Addressed` and `Recorded` (Client/Typed/Addresses.antt: what
-- requests and actions are for), `KeepsStored` (Operator/Handler/Redelivery.antt), `Healthy` and
-- `DexHealthy` (Operator/Health.antt: the requests are answered, what is created comes to run
-- before a wait ends, and dex makes and finds clients), `ServicesHavePorts` (Proxy/Returning.antt),
-- `KeepsStringData` (Proxy/Returning/StringData.antt: a secret created with string data has some),
-- `MarshalsPlainly` (Proxy/Returning/Exposing.antt), `CreatesClients`
-- (Operator/Handler/Asking.antt), `Tracks` (Client/FakeClientset/Tracked.antt: an object tracker
-- gives back what was added), and that `errors.Wrapf` of nil is nil. Tests/Sample.antt is a small
-- platform that Tests/Laws.antt gives those of the handler, and the tests run the whole handler on
-- it; Tests/Clients.antt, Tests/Requests.antt, Tests/Memory.antt, Tests/Redelivered.antt,
-- Tests/Progress.antt and Tests/Tracked.antt have small libraries, clients, memories and clusters
-- for the others.
--
-- Bounds and fuel. Durations are nanoseconds, ports and counts natural numbers. All loops are
-- recursions on a list. The one fuel is that of `decimal` (Base/Text.antt), one more than the
-- number, which has fewer digits; Base/Text/Decimal.antt is about it. Polling is a parameter, so no
-- fuel stands for a timeout.
--
-- Not modelled. Logging, the version print, the liveness probe, cobra's parser and the loop of the
-- SDK. Dex changes only by the handler's own requests while one event is handled; the cluster may
-- change in any way at each request. Texts of `%q` are written without escapes, and the error of a
-- service account that could not be created has a shorter text. The string
-- data of a secret may be a nil map, and a write to it panics; any other nil map is an empty map.
-- `sdk.Create` and `sdk.Update` give back the object as the server filled it in. A map is a list of
-- entries whose order in a `range` is the platform's choice. The nil config map that `Cleanup`
-- could hand to the SDK is a panic.
pub mod Base
pub mod Api
pub mod Objects
pub mod Platform
pub mod Kube
pub mod Dex
pub mod Proxy
pub mod Operator
pub mod CommandLine
pub mod Client
pub mod Tests
