-- ===== src/Lib.antt =====
-- The CSI driver `csi-bottle`, which makes data bottles available to pods as volumes.
--
-- The program is a gRPC server with three services of the container storage interface: the node
-- service stages a bottle into a directory, mounts it at the path of a pod and takes both away
-- again; the controller service keeps names of volumes; the identity service answers who it is.
-- The driver makes the three, listens, logs each call and prunes the cache. Which module models
-- which file:
--
--   * Node.*: pkg/data/node.go. Node.Server has the struct `NodeServer`, its constructor and the two
--     calls that only answer; Node.Credentials and Node.Stage have `stageVolume` and
--     `NodeStageVolume`; Node.Publish, Node.Unpublish and Node.Unstage the calls of those names.
--     A call is a function from a `World` (machine, events sent, counter of bottles) to its result
--     and the world it leaves, on errors too. Node.Arguments is about the checks of requests,
--     Node.Paths about the directories of ephemeral volumes, Node.Lifecycle about sequences of calls.
--     Node.Concurrent has the same handlers as goroutines: each call of the machine, the recorder or
--     the counter is a step, and a system of calls in flight makes their steps in any order;
--     Race and Removal are about calls that get in each other's way, Mounts and Apart about calls
--     of which the clients make some one at a time only.
--   * Event: pkg/data/event.go.
--   * Controller: pkg/data/controller.go. The `sync.Map` is an association list, and the id that
--     `uuid.New` draws is an argument. Controller.History is about sequences of calls: each handler
--     makes one atomic call of the map at most, so concurrent handlers are such a sequence.
--   * Identity: pkg/data/identity.go.
--   * Driver and Driver.Run: pkg/data/driver.go. A `panic` of a constructor is an error value.
--     Driver.Serving is `Run` from its listener on, and once its goroutines run, a relation on what may
--     happen next;
--     Driver.Calls is what its gRPC server does with requests that come one after another, and
--     Driver.Group is `errgroup`, a parameter with the laws that its documentation states.
--   * Cli: cmd/csi-bottle/cli/serve.go, cmd/csi-bottle/cli/checkpath.go and `getVersionInfo` of
--     cmd/csi-bottle/main.go.
--     Cli.Program is `main` from the arguments to the exit, with cmd/csi-bottle/cli/root.go and
--     embedded.go; Cli.Cobra is what it takes from cobra and from go-common, as parameters with laws.
--   * Build: .dagger. Build.Project has main.go; Build, Build.Releaser and Build.Image have build.go
--     with `GoReleaser` and docs.go; Build.Release has release.go and the charts of helm.go;
--     Build.Lint has lint.go; Build.Checks has test.go, security.go and the chart's test. A pipeline
--     is a chain of calls of dagger's SDK, which is the parameter Build.Sdk: what a container, a
--     directory and a file are is left open, and Build.Sdk.Laws says what its questions answer of a
--     chain, for labels, variables, files and directories. The pools of `conc` are part of it: their
--     results come in some order.
--   * Csi: the messages of the storage interface, with the fields that the code uses.
--   * Errors: Go's error values, what `errors.Is` and `os.IsNotExist` see of them, gRPC statuses.
--   * Go.Strings, Go.Texts, Go.Replace and Go.Filepath: what is used of `strings` and
--     `path/filepath` (Unix).
--   * Base: names that all modules share, results, a monad of state and errors, maps and numbers;
--     Base.Act is code in steps, which may be interrupted, and Base.Measure what steps do to a number.
--   * Host: all that the driver calls and does not implement, as a record of operations that every
--     model takes: `os`, the mounter of `k8s.io/utils/mount`, the transfers and telemetry of ace-dt,
--     the credential store, the decoders of JSON and base64, the cluster's client, the clock.
--     Host.Laws states what theorems assume of it, in terms of a number of mounts, of presence, and of
--     what removals lose at a path. They name what they assume; Tests.Machine is a host for which it
--     all holds.
--   * Tests: the theorems and operations on that machine, on a group that counts and on a small SDK.
--
-- No model runs on fuel: the handlers have no unbounded loop, the pruner is a function of the messages
-- that it gets, and what else `Run` does is a relation. The prune size is a `uint64`, and its
-- conversion to `int64` wraps around.
--
-- Not modelled: logging, except for that of the calls, and tracing; the metrics that are counted; how
-- cobra reads flags that are given; what gRPC does between the socket and a handler; and what the
-- pipelines' commands do inside of their containers.
pub mod Base
pub mod Go
pub mod Errors
pub mod Csi
pub mod Host
pub mod Event
pub mod Node
pub mod Controller
pub mod Identity
pub mod Driver
pub mod Cli
pub mod Tests
pub mod Build
