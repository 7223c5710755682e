-- ===== src/Lib.antt =====
-- A model of testground's daemon: the tasks and where they are stored, the queue that orders
-- them, the compositions that a task builds and runs, and the engine whose workers run the tasks.
--
-- A client asks the engine to queue a build or a run. The engine pushes a task on the queue, which
-- keeps it in the storage under "queue" and in a heap. A worker pops the task, which moves it to
-- "current", prepares and validates its composition, builds its groups, hands them to a runner,
-- and archives it.
--
-- - Task.antt and the files below it: pkg/task. Task holds the record of task.go; Task/Bytes and
--   Task/Keys the database keys; Task/Encoding the JSON of a task and UnmarshalTask of
--   pkg/engine/engine.go; Task/Storage the operations of storage.go over the interface
--   Task/Database, which stands for goleveldb and xid; Task/Heap the algorithm of container/heap
--   and Task/Queue queue.go. The heap loops run on fuel: the length of the heap and one more,
--   which is enough because an index at least halves, or grows, in each round.
-- - Api.antt and the files below it: pkg/api/composition.go and manifest.go. The groups of a
--   composition are pointers, so they are addresses into a list, and the loops of PrepareForBuild,
--   PrepareForRun and ValidateForRun write to that list. The checks of the validator library and
--   the operations on float64 are parameters. Unsigned sums wrap at 2 ^ 64. A map is the list of
--   its entries, in the order in which a range over it meets them; two compositions that share a
--   map, and what a write through one does to the other, are not modelled. Api/Healthcheck is
--   pkg/api/healthcheck.go.
-- - Healthcheck.antt: pkg/healthcheck/helper.go; checkers and fixers act on an abstract world.
-- - Engine.antt and the files below it: pkg/engine. Signals is the map of channels with Kill;
--   Listing is Tasks, with Listing/Stored what it lists of the stored tasks; Queueing is QueueBuild
--   and QueueRun, Worker the handler of one task, Github postStatusToGithub, Builds doBuild and Runs
--   doRun; Components is what NewEngine registers and passes requests on to, and Logs is Logs.
--   Builders and runners are records of functions.
-- - Data.antt: the outcome of a task, pkg/data/result.go.
-- - Conv.antt: pkg/conv/conversions.go.
-- - Builder.antt and the files below it: pkg/build/docker_go.go. Builder/DockerGo is Build,
--   Builder/GoProxy setupGoProxy, Builder/CacheImage what the builder does with its images, and
--   Builder/Text the functions of strings that they use.
-- - Docker.antt and the files below it: pkg/docker. Docker is the helpers of container.go,
--   image.go, network.go and volume.go, with Docker/Ensure what those that ensure leave behind;
--   Docker/Deletion is DeleteContainers; Docker/Watch is Watch of manager.go.
-- - Sidecar.antt and the files below it: pkg/sidecar. Sidecar is link.go, with Sidecar/Shaping the
--   laws of its units and handles; Sidecar/Routes is route.go; Sidecar/Network is
--   docker_network.go and docker_links.go; Sidecar/K8sNetwork is k8s_network.go, with
--   Sidecar/Retry its loop of attempts, on fuel: the attempts that are left, and one more;
--   Sidecar/K8sReactor is k8s_reactor.go and Sidecar/DockerReactor docker_reactor.go;
--   Sidecar/Handler is sidecar_handler.go. netlink and the sync service are records of
--   functions on an abstract world.
-- - Rpc.antt and the files below it: pkg/rpc, the chunks that the daemon writes, and Rpc/Reader the
--   loop of pkg/client/client.go that reads them.
-- - Runner.antt and the files below it: pkg/runner. Runner/Outcomes is collectOutcomes,
--   Runner/Networks nextDataNetwork, Runner/Printer the state of pretty.go and Runner/LocalExec the
--   run of local_exec.go.
-- - Base.antt: the names, types and lemmas that the others share.
-- - Tests.antt: concrete instances of the interfaces, and the theorems at concrete inputs.
--
-- A function that returns an error and may panic returns a Fallible; where it also changes a state
-- it is an Action, and what it wrote before an error stays written. The locks are held during each
-- method, so a method is one step. The database, where a call of it succeeds, does what its
-- documentation says; of a call that fails it is only assumed that a Commit which fails commits
-- nothing, as its documentation says. An iterator of the database is taken to meet no error, since
-- rangeIter does not ask for one, so that it meets all the entries of its range.
--
-- Not modelled: the reader that Logs makes of a growing file, and the goroutine that stops it when
-- the task ends; the Go type of a task's composition, which is its JSON; the other builders and the
-- runners of clusters and of docker, which drive docker, Kubernetes and AWS; the HTTP daemon and
-- the requests of the client; the command line; and logging.
pub mod Base
pub mod Task
pub mod Api
pub mod Healthcheck
pub mod Tests
pub mod Engine
pub mod Runner
pub mod Data
pub mod Conv
pub mod Builder
pub mod Docker
pub mod Sidecar
pub mod Rpc
