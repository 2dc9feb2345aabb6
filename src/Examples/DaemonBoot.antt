-- ===== src/Examples/DaemonBoot.antt =====
-- The boot of a daemon, its socket's path and its configuration at concrete inputs.
use runed.Prelude.{
  ◌≤◌, ◌<◌, ◌≡◌, ◌⊎◌, refl, true, false, [], ◌∷◌, ◌++◌, none, some, Bytes, text, length, bytes_eq,
  if◌then◌else◌,
}
use runed.Prelude.FilePath.{abs, clean, join}
use runed.Ipc.Resolve.{sun_path_limit, absolute, alias, resolve_socket_path}
use runed.Ipc.Resolve.Agreed.{resolve_socket_path_agrees}
use runed.Spawn.{refused}
use runed.Daemon.Run.{
  Outcomes, shutdown_rpc, run, with_model, with_idle, await_exit, start_backend, set_backend,
  idle_ticker, wait_exit, trigger_shutdown, graceful_stop, force_stop, stop_backend, meanwhile,
  idle_stop, handler_start, rpc_shutdown, wind_down, stop_grpc, happened,
}
use runed.Daemon.Run.Ends.{NeverListened, WindsDown, run-ends}
use runed.Spawn.Load.{Files, decoded, regular, missing, load_config}
use runed.Spawn.Load.Valid.{ValidOrFailed, load_config-Valid}
use runed.Prelude.{Bool}
use runed.Client.Connect.{
  Dialer, connect, connect_to, after_dial, spawned, kept, dial_and_probe, dialled, probed,
  default_path, with_socket_path,
}
use runed.Client.Connect.Probed.{Probed, connect-Probed}
use runed.Examples.Sample.{short_hash}

-- A directory so deep that the socket has an alias.
abbrev deep : Bytes
deep =
    text
      "/home/user/a/directory/whose/name/is/so/long/that/the/socket/in/it/has/no/path/that/fits/into/sun_path/at/all/embedding.sock"

aliased : resolve_socket_path short_hash (abs none) 501 deep ≡ alias short_hash 501 deep
unfolding resolve_socket_path abs clean
aliased = refl

resolve_socket_path_agrees_example :
    let full = absolute (abs (some (text "/home/user"))) (text "../srv/./runed.sock") in
    let r =
      resolve_socket_path short_hash
        (abs (some (text "/home/user")))
        501
        (text "../srv/./runed.sock") in
    (length r < sun_path_limit)
    × (((length full < sun_path_limit) × (r ≡ full))
        ⊎ ((sun_path_limit ≤ length full) × (r ≡ alias short_hash 501 full)))
    × (resolve_socket_path short_hash (abs (some (text "/"))) 501 full ≡ r)
    × (resolve_socket_path short_hash (abs (some (text "/"))) 501 r ≡ r)
resolve_socket_path_agrees_example =
    resolve_socket_path_agrees short_hash 501 (text "/home/user") (text "../srv/./runed.sock")
      (some (text "/")) refl

resolved :
    resolve_socket_path short_hash (abs (some (text "/home/user"))) 501 (text "../srv/./runed.sock")
    ≡ text "/home/srv/runed.sock"
unfolding resolve_socket_path abs clean join
resolved = refl

-- A stale socket, a model from the environment, a llama-server that is installed, and a client that
-- keeps GracefulStop from returning in time.
abbrev outcomes : Outcomes
outcomes = record {
  home_env = text "/r";
  abs = λ p. some p;
  user_home = none;
  mkdir_all = λ p. true;
  uid = 501;
  dial = λ p. refused;
  stale = λ p. true;
  removed = true;
  listens = true;
  llama_server = [];
  model = text "/m.gguf";
  self_bootstrap = λ l m. some (text "/r/bin/llama-cpp/llama-server", []);
  read_file = λ p. some (text "G");
  starts = true;
  idle_timeout = some 600000000000;
  trigger = shutdown_rpc;
  drained = false;
  booting = λ e. [];
  waiting = idle_stop ∷ handler_start ∷ rpc_shutdown ∷ [];
  draining = [];
  forced = [];
}

wound_down :
    (with_model short_hash outcomes (text "/b") (text "/m.gguf") (some (text "id"))).events
    ≡ start_backend (text "/b") (text "/m.gguf")
      ∷ set_backend (text "id")
      ∷ idle_ticker 600000000000
      ∷ wait_exit
      ∷ meanwhile idle_stop
      ∷ meanwhile handler_start
      ∷ meanwhile rpc_shutdown
      ∷ trigger_shutdown
      ∷ graceful_stop
      ∷ force_stop
      ∷ stop_backend
      ∷ []
unfolding with_model with_idle await_exit wind_down stop_grpc happened
wound_down = refl

run-ends_example :
    NeverListened short_hash outcomes (run short_hash outcomes)
    ⊎ WindsDown short_hash outcomes (run short_hash outcomes)
run-ends_example = run-ends short_hash outcomes

abbrev files : Files
files = record {
  config = λ p. decoded 1 (record {
    llama_server = [];
    model = text "m.gguf";
    runed_binary = text "bin/runed";
    idle_timeout = [];
  });
  stat = λ p. if bytes_eq p (text "bin/runed") then regular true else missing;
  content = λ p. if bytes_eq p (text "m.gguf") then some (text "GGUF...") else none;
  abs = λ p. some (text "/work/" ++ p);
  look_path = none;
  default_binary = [];
  self = none;
}

load_config-Valid_example : ValidOrFailed files (load_config files [] (text "/r") none)
load_config-Valid_example = load_config-Valid files [] (text "/r") none

-- The state says whether the daemon is up; spawning brings it up.
abbrev dialer : Dialer
dialer = record {
  State = Bool;
  resolve = λ p. p;
  new_client = λ target s. (some target, s);
  health = λ conn s. (s, s);
  close = λ conn s. s;
  ensure_daemon = λ path s. (true, true);
}

connected_after_spawn : (connect dialer false [] (some (text "/home/u")) false).1 ≡ true
unfolding connect connect_to after_dial spawned kept dial_and_probe dialled probed default_path
connected_after_spawn = refl

connect-Probed_example :
    Probed dialer false (connect dialer false (with_socket_path (text "/s") ∷ []) none false)
connect-Probed_example = connect-Probed dialer false (with_socket_path (text "/s") ∷ []) none false
