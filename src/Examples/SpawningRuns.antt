-- ===== src/Examples/SpawningRuns.antt =====
-- A client that has no daemon at first, with and without WithNoSpawn.
use runed.Prelude.{
  ℕ, ◌+◌, ◌≤◌, ◌≡◌, refl, arith, true, false, List, [], ◌∷◌, some, text, ltb, ok, err,
  if◌then◌else◌,
}
use runed.Spawn.{
  System, Config, connected, refused, ensure_daemon, probe_daemon, launch_daemon, wait_for_daemon,
}
use runed.Spawn.Launches.{IsCounter}
use runed.Client.{unavailable, embed}
use runed.Client.Connect.{connect, default_path, dial_and_probe, reconnect_locked, with_no_spawn}
use runed.Client.Session.{Stub, Call, call_embed, call_info, session}
use runed.Client.Session.Spawning.{Grpc, dialer}
use runed.Client.Session.Spawning.Budget.{one_more, with_calls}
use runed.Client.Session.Spawning.Calls.{IsAlone}
use runed.Client.Session.Spawning.Bounded.{session_launches}

abbrev config : Config
config = record {
  llama_server = [];
  model = [];
  runed_binary = text "/bin/runed";
  idle_timeout = [];
}

-- The state is the number of processes started; a daemon that was started is reachable.
abbrev system : System
system = record {
  State = ℕ;
  resolve = λ path. path;
  no_socket = λ path s. false;
  dial = λ path s. (if ltb 0 s then connected else refused, s);
  mkdir_all = λ path s. (true, s);
  acquire_lock = λ path s. (true, s);
  release_lock = λ s. s;
  load_config = λ s. (some config, s);
  open_log = λ path s. (true, s);
  exec = λ binary env s. (true, s + 1);
  close_log = λ s. s;
  now = λ s. 0;
  new_ticker = λ s. s;
  select_wait = λ deadline s. (false, s);
  late = 0;
}

abbrev counter : IsCounter system
counter = record {
  launches = λ s. s;
  exec = λ b env s. omega arith;
  dial = λ p s. refl;
  mkdir_all = λ p s. refl;
  acquire_lock = λ p s. refl;
  release_lock = λ s. refl;
  load_config = λ s. refl;
  open_log = λ p s. refl;
  close_log = λ s. refl;
  new_ticker = λ s. refl;
  select_wait = λ d s. refl;
}

abbrev grpc : Grpc system
grpc = record {
  new_client = λ t s. (some (text "conn"), s);
  health = λ c s. (ltb 0 s, s);
  close = λ c s. s;
}

-- Embed finds no daemon, unless two have been started.
abbrev stub : Stub (dialer system grpc) ℕ
stub = record {
  embed = λ c t s. (if ltb 1 s then ok (1 ∷ []) else err unavailable, s);
  embed_batch = λ c ts s. (ok [], s);
  info = λ c s. (err unavailable, s);
  raced = λ s. false;
}

alone : IsAlone system counter grpc stub
alone = record {
  new_client = λ t s. refl;
  health = λ c s. refl;
  close = λ c s. refl;
  embed = λ c t s. refl;
  embed_batch = λ c ts s. refl;
  info = λ c s. refl;
  alone = λ s. refl;
}

abbrev calls : List Call
calls = call_embed (text "a") ∷ call_info ∷ []

session_launches_example :
    session (dialer system grpc) stub false [] (some (text "/h")) calls 0
    ≤ with_calls false calls (one_more false 0)
session_launches_example =
    session_launches system counter grpc stub alone false [] (some (text "/h")) calls 0

one_started : session (dialer system grpc) stub false [] (some (text "/h")) calls 0 ≡ 1
unfolding session connect default_path dial_and_probe embed ensure_daemon probe_daemon launch_daemon
    wait_for_daemon reconnect_locked
one_started = refl

none_started :
    session (dialer system grpc) stub false (with_no_spawn ∷ []) (some (text "/h")) calls 0 ≡ 0
unfolding session connect default_path dial_and_probe embed ensure_daemon
none_started = refl
