-- ===== src/Lib.antt =====
-- runed is a local embedding daemon. It keeps a llama-server child, serves Embed, EmbedBatch, Info,
-- Health, Shutdown and SetCentroids over a Unix socket, and routes embeddings to the clusters of a
-- centroid set that is pushed to it and cached on disk.
--
-- Prelude     names of the library passed on, Boolean tests, lists and byte strings over the native
--             numbers, results with do blocks, integers, Go's path/filepath (Prelude/FilePath), files and
--             writes to them (Prelude/Files), and the polling of a file lock (Prelude/Flock), which
--             internal/bootstrap/lock.go and internal/spawn/lock.go share. Threads has the owner of a lock
--             that threads take and release, for Backend/Locks, Server/Installs and Spawn/Race.
-- Route       internal/route/route.go. Set: CentroidSet and Validate. Assign: Assign. Version:
--             ComputeVersion and VerifyVersion. Cache: Persist and Load on a disk of files. Floats
--             is float arithmetic as a parameter, with the laws of IEEE 754 that are used.
-- Backend     internal/backend. Types: LlamaBackend (llama.go). Host: what it asks of the system, with
--             the events of other goroutines in each reply, and the state monad. Probe: noteAlive,
--             recentlyAlive, probeHealthy, IsHealthy. Child: startLocked and stopLocked. Lifecycle:
--             Start, EnsureStarted, restartIfDead, Stop, Serving. Embed: embed.go. Keeps: the rule
--             by which an operation keeps an invariant, from the primitive steps of the backend.
--             Locks: restartMu, inflightMu and lifecycleMu, by threads at their lock operations. Port:
--             portRe on the lines that the child logs.
-- Server      internal/server. Types: Server and its messages. Wiring: New, SetBackend,
--             SetBootstrapStatus, TriggerShutdown, Info, Shutdown. Embed: Embed and EmbedBatch.
--             Centroids: SetCentroids and LoadCentroids (centroids.go). Health: Health. Methods:
--             UnaryActivityInterceptor. Service: the handlers over Backend. Installs: concurrent
--             SetCentroids calls from installMu on, step by step. History: any sequence of calls, and
--             the service that the history of the calls specifies.
-- Bootstrap   internal/bootstrap. Download: download.go and downloadWithRetry. Manifest: manifest.go,
--             LoadConfig and ResolveModelVariant. Model: FileMatchesSHA256 and ensureModel. Extract:
--             extract.go. Install: llamaServerTarget and ensureLlamaServer. Layout: paths.go. Lock:
--             lock.go. Licenses: licenses.go. Audit: audit.go. Ensure: EnsureAll, EnsureLlamaServer
--             and EnsureModel over these. Progress: makeProgress.
-- Ipc         internal/ipc/uds_unix.go: Listen, Close and StillOwned. Resolve: resolve_unix.go.
-- Spawn       internal/spawn: EnsureDaemon and resolveRunedBinary. Lock: acquireLock. Load: LoadConfig.
--             Race: clients in EnsureDaemon and the daemons they launch, by steps in any order.
-- Client      client/client.go: Embed and EmbedBatch. Connect: Connect and reconnectLocked. Session:
--             a client with its connection, from Connect to Close, with Info. Keeps: what the steps of
--             a call keep. Session/Spawning: the client over EnsureDaemon of Spawn. Demo:
--             cmd/rundemo/main.go.
-- Daemon      cmd/runed/main.go. Run: run as the sequence of its effects, with bailBoot and stopGRPC;
--             Run/Meanwhile: what the other goroutines do meanwhile;
--             Run/Meets: the daemon that launchDaemon of Spawn starts. SelfBootstrap: selfBootstrap over
--             Bootstrap. Boot: the restored set, the context size, the bootstrap phases and the idle
--             timeout. Reporter: the reporter of run. Watch: watchSocketOwnership. Idle: a tick of the
--             idle ticker.
-- Examples    concrete data and runs.
--
-- The service meets the backend through the record Server/Types.Embedder, which Server/Service fills
-- with the operations of Backend. The daemon meets the route package through the disk.
--
-- Bounds. The health poll of startLocked is a loop on fuel: 76 rounds, since each waits 200 ms and the
-- deadline is 15 s. That of waitForDaemon has 51, for the ticks of 10 s and
-- the last round, and one more for each tick that the select still takes once the deadline has passed. That of a file lock has one round for each 100 ms of the wait,
-- one that meets the deadline and one more. A download and the fetch of the manifest make 3 attempts,
-- and the handlers 2, as in the source. Numbers of the source that are uint32 or int32 are written
-- modulo 2^32. Times are nanoseconds.
--
-- Not modelled: logging, gRPC and protobuf, the HTTP and process libraries (parameters of Host),
-- SHA-256, gob, JSON, gzip and tar (parameters), the file calls and exec of the spawn (parameters), and
-- generated code. guard_linux.go, guard_darwin.go and guard_windows.go only set an attribute of the child's
-- process, the Windows stubs return an error or clean a path, and licenses.go of the root embeds files.
-- Modes of files are left out, except those of the socket's alias directory, and directories are
-- the outcomes of their calls.
pub mod Prelude
pub mod Route
pub mod Backend
pub mod Server
pub mod Bootstrap
pub mod Ipc
pub mod Client
pub mod Spawn
pub mod Daemon
mod Examples
