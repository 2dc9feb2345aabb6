-- ===== src/Daemon/Run.antt =====
-- run, bailBoot and stopGRPC of cmd/runed/main.go: the effects of a daemon in their order, from the
-- start to the exit, for the outcomes of its steps.
pub mod Ends
pub mod Meanwhile
pub mod Meets
use runed.Prelude.{
  ℕ, Bool, true, false, not, ◌&&◌, ◌||◌, List, [], ◌∷◌, ◌++◌, Option, none, some, Bytes, text,
  is_empty, Result, ok, err, if◌then◌else◌, ltb, take,
}
use runed.Prelude.FilePath.{join}
use runed.Bootstrap.Layout.{Paths, LayoutError, resolve, ensure_dirs}
use runed.Route.Version.{hex}
use runed.Server.Types.{Phase, phase_unspecified, phase_starting_llama_server}
use runed.Spawn.{Dial, connected, refused, dial_error}
use runed.Ipc.Resolve.{resolve_socket_path}

pub data RunError : Type 0 where
  resolve_paths ensure_dirs_failed : LayoutError → RunError
  remove_stale ipc_listen bootstrap_failed model_hash backend_start idle_timeout serve : RunError

-- What the other goroutines do: the idle ticker stops the child, a handler starts one, the watchdog sets
-- `evicted`, triggers the shutdown and cancels the context, and the Shutdown RPC triggers the shutdown.
pub data Background : Type 0 where
  idle_stop handler_start self_evict rpc_shutdown : Background

pub data Event : Type 0 where
  remove_socket listen : Bytes → Event
  restore_centroids serve_rpcs watch_socket : Event
  set_status : Phase → Bytes → Event
  bootstrap : Bool → Bool → Event
  hash_model : Bytes → Event
  start_backend : Bytes → Bytes → Event
  set_backend : Bytes → Event
  idle_ticker : ℕ → Event
  wait_exit trigger_shutdown graceful_stop force_stop stop_backend : Event
  meanwhile : Background → Event

-- What ends the wait: a signal, the Shutdown RPC or the watchdog, or the end of Serve, with or without a fault.
pub data Trigger : Type 0 where
  signalled shutdown_rpc : Trigger
  serve_ended : Bool → Trigger

-- `drained` says whether GracefulStop returned within 10 s. The lists are what the other goroutines do
-- from the first connection to a step of the boot that fails, or to the end of the wait; during the
-- graceful stop; and from a forced stop on. Of these, what cannot happen yet is left out.
pub record Outcomes : Type 0 where
  pub home_env : Bytes
  pub abs : Bytes → Option Bytes
  pub user_home : Option Bytes
  pub mkdir_all : Bytes → Bool
  pub uid : ℕ
  pub dial : Bytes → Dial
  pub stale : Bytes → Bool
  pub removed : Bool
  pub listens : Bool
  pub llama_server : Bytes
  pub model : Bytes
  pub self_bootstrap : Bool → Bool → Option (Bytes × Bytes)
  pub read_file : Bytes → Option Bytes
  pub starts : Bool
  pub idle_timeout : Option ℕ
  pub trigger : Trigger
  pub drained : Bool
  pub booting : RunError → List Background
  pub waiting : List Background
  pub draining : List Background
  pub forced : List Background

-- The events, and the error that run returns.
pub record Run : Type 0 where
  pub events : List Event
  pub exit : Option RunError

abbrev pub ends_at_once : Option RunError → Run
ends_at_once x = record { events = []; exit = x }

abbrev pub after : List Event → Run → Run
after es r = record { events = es ++ r.events; exit = r.exit }

abbrev pub is_evict : Background → Bool
is_evict self_evict = true
is_evict b = false

-- evicted.Load()
abbrev pub evicted : List Background → Bool
evicted [] = false
evicted (b ∷ bs) = is_evict b || evicted bs

-- The idle ticker stops a child only once it runs, and a handler starts one only once SetBackend has
-- run.
abbrev pub can_happen : Bool → Bool → Background → Bool
can_happen served ticking idle_stop = ticking
can_happen served ticking handler_start = served
can_happen served ticking self_evict = true
can_happen served ticking rpc_shutdown = true

unfoldable pub happened : Bool → Bool → List Background → List Event
happened served ticking [] = []
happened served ticking (b ∷ bs) =
    let rest = happened served ticking bs in
    if can_happen served ticking b then meanwhile b ∷ rest else rest

abbrev pub exit_of : Trigger → Option RunError
exit_of signalled = none
exit_of shutdown_rpc = none
exit_of (serve_ended fault) = if fault then some serve else none

-- Neither a missing socket nor one that nobody listens on is a daemon.
abbrev pub another_daemon_reachable : Dial → Bool
another_daemon_reachable connected = true
another_daemon_reachable refused = false
another_daemon_reachable dial_error = false

-- The identity of the model file.
unfoldable pub sha256_file : (Bytes → Bytes) → Option Bytes → Option Bytes
sha256_file sha256 none = none
sha256_file sha256 (some content) = some (text "sha256:" ++ take 16 (hex (sha256 content)))

module _ (o : Outcomes) where
  unfoldable pub stop_grpc : Bool → Bool → List Event
  unfolding happened
  stop_grpc served ticking =
      graceful_stop
      ∷ (happened served ticking o.draining
          ++ (if o.drained then [] else force_stop ∷ happened served ticking o.forced))

  -- `backend` says whether there is one to stop.
  unfoldable pub wind_down : Bool → Bool → Bool → List Event
  unfolding stop_grpc
  wind_down served ticking backend =
      trigger_shutdown ∷ (stop_grpc served ticking ++ (if backend then stop_backend ∷ [] else []))

  -- `served` says whether SetBackend has run.
  unfoldable pub bail_boot : Bool → Bool → RunError → Run
  unfolding wind_down happened
  bail_boot served backend e = record {
    events = happened served false (o.booting e) ++ wind_down served false backend;
    exit = if evicted (o.booting e) then none else some e;
  }

  unfoldable pub await_exit : Bool → Run
  unfolding wind_down happened
  await_exit ticking = record {
    events = wait_exit ∷ (happened true ticking o.waiting ++ wind_down true ticking true);
    exit = exit_of o.trigger;
  }

  unfoldable pub with_idle : Option ℕ → Run
  unfolding bail_boot await_exit
  with_idle none = bail_boot true true idle_timeout
  with_idle (some t) =
      if ltb 0 t then after (idle_ticker t ∷ []) (await_exit true) else await_exit false

module _ (sha256 : Bytes → Bytes) (o : Outcomes) where
  unfoldable pub with_model : Bytes → Bytes → Option Bytes → Run
  unfolding bail_boot with_idle
  with_model bin model none = bail_boot o false false model_hash
  with_model bin model (some model_id) = after (start_backend bin model ∷ []) (
      if o.starts
      then after (set_backend model_id ∷ []) (with_idle o o.idle_timeout)
      else bail_boot o false true backend_start)

  unfoldable pub with_binaries : Bytes → Bytes → Run
  unfolding with_model
  with_binaries bin model =
      after
        (set_status phase_starting_llama_server (text "starting llama-server")
          ∷ hash_model model
          ∷ [])
        (with_model bin model (sha256_file sha256 (o.read_file model)))

  unfoldable pub with_bootstrap : Option (Bytes × Bytes) → Run
  unfolding bail_boot with_binaries
  with_bootstrap none = bail_boot o false false bootstrap_failed
  with_bootstrap (some (bin, model)) =
      with_binaries (if is_empty o.llama_server then bin else o.llama_server)
        (if is_empty o.model then model else o.model)

  unfoldable pub boot : Run
  unfolding with_bootstrap with_binaries
  boot =
      let need_llama = is_empty o.llama_server in
      let need_model = is_empty o.model in
      if need_llama || need_model
      then after
          (set_status phase_unspecified (text "fetching manifest")
            ∷ bootstrap need_llama need_model
            ∷ [])
          (with_bootstrap (o.self_bootstrap need_llama need_model))
      else with_binaries o.llama_server o.model

  unfoldable pub listening : Bytes → Run
  unfolding boot
  listening path =
      if o.listens
      then after (restore_centroids ∷ listen path ∷ serve_rpcs ∷ watch_socket ∷ []) boot
      else after (restore_centroids ∷ []) (ends_at_once (some ipc_listen))

  unfoldable pub cleared : Bytes → Run
  unfolding listening
  cleared path =
      if o.stale path
      then (if o.removed
          then after (remove_socket path ∷ []) (listening path)
          else ends_at_once (some remove_stale))
      else listening path

  -- A daemon that is reachable already is no error.
  unfoldable pub unless_running : Bytes → Run
  unfolding cleared
  unless_running path =
      if another_daemon_reachable (o.dial path) then ends_at_once none else cleared path

  unfoldable pub with_dirs : Paths → Result LayoutError (Unit {0}) → Run
  unfolding unless_running
  with_dirs p (err e) = ends_at_once (some (ensure_dirs_failed e))
  with_dirs p (ok _) =
      unless_running
        (resolve_socket_path sha256 o.abs o.uid (join (p.home ∷ text "embedding.sock" ∷ [])))

  unfoldable pub with_paths : Result LayoutError Paths → Run
  unfolding with_dirs
  with_paths (err e) = ends_at_once (some (resolve_paths e))
  with_paths (ok p) = with_dirs p (ensure_dirs o.mkdir_all p)

  unfoldable pub run : Run
  unfolding with_paths
  run = with_paths (resolve o.home_env o.abs o.user_home)
