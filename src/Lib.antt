-- ===== src/Lib.antt =====
-- abctl installs Airbyte in a Kubernetes cluster, and logs in to it. This library models its Go code.
--
-- The parts and their files:
-- - Maps (internal/maps/maps.go): nested maps of YAML values. FromSlice is from_slice, Merge is merge; a
--   Go map is an association list, and a panic is `none`.
-- - Merge (internal/merge/docker.go), TextSet (internal/common/set.go): image lists and sets.
-- - Helm (internal/helm): Chart is chart.go with internal/validate/url.go, Locate is locate.go, Images is
--   images.go, Values is airbyte_values.go. Helm/Semver is what is assumed of the semver library.
-- - K8s (internal/k8s): Volumes is volumes.go, Ingress is ingress.go, Client is client.go, config.go
--   and namespace.go, Restart is DeploymentRestart of client.go, Images is load_images.go, Cluster is cluster.go,
--   provider.go and kind/config.go.
-- - Http (internal/http/client.go): requests with a base URL; Api (internal/api) is the client of the
--   control plane over it.
-- - Airbyte (internal/airbyte/api.go): the client of Airbyte's API, whose state is its token.
--   Concurrent is fetchToken with its lock, run by several goroutines.
-- - Auth (internal/auth): Auth.antt is auth.go, Client is client.go (the state is the client's
--   credentials and what it has sent), Refresh is refresh.go, Flow is flow.go.
-- - Service (internal/service): Volumes, Chart and Install are install.go, Setup is manager.go with
--   PrepImages, Data is manager.go, uninstall.go, status.go and internal/pgdata/version.go.
-- - Telemetry (internal/telemetry): the configuration file, and in Instance the choice of the client and
--   the events of a command.
-- - Cmd (internal/cmd/local): Cmd.antt and Hosts are check.go, Cluster and Install are install.go,
--   Commands is credentials.go, deployments.go, uninstall.go and status.go; Init is
--   internal/cmd/config/init.go, and Session is login.go and logout.go of internal/cmd/auth with
--   checkAirbyteDir of local.go.
-- - Update (internal/update/update.go), Build (internal/build/build.go).
-- - Effects: the calls that the commands, the service, the cluster and the refresh of credentials make of
--   Docker, of kind, of the ClientSet, of Helm, of files and of HTTP. A program is a function of the
--   calls made before it; the environment answers each call as it likes, from the calls before. It is
--   `Stateful` at the list of calls; the clients of the two APIs are `Stateful` at states of their own.
--   Effects/Invariants carries statements through chains.
-- - Common: texts, lists, results with errors, sorting, association lists.
--
-- The install command checks the ports and the hosts, finds or creates the cluster, builds the Helm
-- values, loads the images and runs the service's Install; the values and the chart's location reach the
-- service as fields of its options. The credentials command uses the API client on the secret of the
-- cluster. The refresh of credentials, the service and the commands share K8s/Client.
--
-- Bounds: no loop of the program runs on fuel. The loop of three attempts of handleChart is recursion on the attempts
-- that are left; the wait for a deployment's pods is a parameter that obeys the documentation of
-- wait.PollUntilContextTimeout; the wait for the ingress is the list of the responses that arrive before
-- its context of one minute ends; every other loop is recursion on a list. Times are
-- natural numbers of nanoseconds from the year 1, and a stated lifetime wraps in 64 bits. Images are
-- pulled in the order of the list, of which Go's goroutines give an interleaving; no pull uses another's
-- result. A read of the token of Airbyte's API client outside the lock gives what a parameter allows.
--
-- Not modelled: terminal output and spans; the watcher of events and the streams of pod logs, with the
-- scanner of logs (internal/airbyte/log_scanner.go); the images and version commands; operations of the
-- clients that only pass a call on; the construction of the Helm client; internal/docker/docker.go and
-- internal/trace. Third-party code (YAML, JSON, semver, Helm, the ClientSet, kind, Docker, net/http) is a
-- parameter.
pub mod Common
pub mod Maps
pub mod Merge
pub mod TextSet
pub mod Helm
pub mod Http
pub mod K8s
pub mod Auth
pub mod Telemetry
pub mod Update
pub mod Airbyte
pub mod Api
pub mod Build
pub mod Cmd
pub mod Effects
pub mod Service
