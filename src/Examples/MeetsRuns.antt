-- ===== src/Examples/MeetsRuns.antt =====
-- A daemon that is launched for a relative socket path, and one for a socket of another name.
use runed.Prelude.{◌≡◌, ◌⊎◌, refl, [], ◌∷◌, ◌++◌, some, none, ok, text, true, Bytes}
use runed.Prelude.FilePath.{abs, clean, dir, join, through_slash}
use runed.Bootstrap.Layout.{LayoutError, layout}
use runed.Ipc.Resolve.{resolve_socket_path}
use runed.Spawn.{Config, launch_env, refused}
use runed.Daemon.Run.{
  Outcomes, ensure_dirs_failed, shutdown_rpc, ends_at_once, unless_running, with_dirs, run,
}
use runed.Daemon.Run.Meets.{run_meets}
use runed.Examples.Sample.{short_hash}

abbrev config : Config
config = record {
  llama_server = [];
  model = text "/m.gguf";
  runed_binary = text "/bin/runed";
  idle_timeout = [];
}

abbrev cwd : Bytes
cwd = text "/home/user"

abbrev launched : Bytes → Outcomes
launched home = record {
  home_env = home;
  abs = abs (some cwd);
  user_home = none;
  mkdir_all = λ p. true;
  uid = 501;
  dial = λ p. refused;
  stale = λ p. true;
  removed = true;
  listens = true;
  llama_server = text "/b";
  model = text "/m.gguf";
  self_bootstrap = λ l m. none;
  read_file = λ p. some (text "G");
  starts = true;
  idle_timeout = some 600000000000;
  trigger = shutdown_rpc;
  drained = true;
  booting = λ e. [];
  waiting = [];
  draining = [];
  forced = [];
}

variables :
    launch_env (dir (text "./../srv/embedding.sock")) config
    ≡ text "RUNED_HOME=../srv" ∷ text "RUNED_MODEL=/m.gguf" ∷ []
unfolding launch_env dir clean
variables = refl

last_element :
    text "./../srv/embedding.sock"
    ≡ through_slash (text "./../srv/embedding.sock") ++ text "embedding.sock"
unfolding through_slash
last_element = refl

run_meets_example :
    let o = launched (text "../srv") in
    let path =
      resolve_socket_path short_hash (abs (some cwd)) 501 (text "./../srv/embedding.sock") in
    ((e : LayoutError) × (run short_hash o ≡ ends_at_once (some (ensure_dirs_failed e))))
    ⊎ (run short_hash o ≡ unless_running short_hash o path)
run_meets_example =
    run_meets short_hash cwd (text "./../srv/embedding.sock") (launched (text "../srv")) config
      (text "RUNED_MODEL=/m.gguf" ∷ []) refl last_element variables refl

-- A client of /srv/other.sock has a daemon launched that listens on /srv/embedding.sock.
other_home : dir (text "/srv/other.sock") ≡ text "/srv"
unfolding dir clean
other_home = refl

other_socket :
    (with_dirs short_hash (launched (text "/srv")) (layout (text "/srv")) (ok tt))
    ≡ unless_running short_hash (launched (text "/srv")) (text "/srv/embedding.sock")
unfolding with_dirs resolve_socket_path abs clean join
other_socket = refl
