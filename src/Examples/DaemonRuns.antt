-- ===== src/Examples/DaemonRuns.antt =====
-- The socket, the client, the watchdog and the idle ticker at concrete inputs.
use runed.Prelude.{
  ℕ, suc, ◌≡◌, refl, ◌↔◌, ◌⊎◌, true, false, List, [], ◌∷◌, some, Bytes, text, ok, err, Result, ltb,
  if◌then◌else◌,
}
use runed.Ipc.{
  Sockets, ListenCalls, OwnedListener, listen, clear_path, bind, secure, close, still_owned,
}
use runed.Ipc.Ownership.{close-listen}
use runed.Client.{
  Remote, Code, unavailable, call_with_respawn, first_call, under_lock, after_spawn,
  after_reconnect, returned,
}
use runed.Backend.Types.{new_llama_backend}
use runed.Backend.Host.{Sys}
use runed.Server.Wiring.{new}
use runed.Daemon.Watch.{Daemon, tick, watch_socket_ownership}
use runed.Daemon.Watch.Evicted.{Loses, watch_socket_ownership-Loses}
use runed.Examples.Sample.{clock_host}

abbrev calls : ListenCalls
calls = record {
  parent = true;
  stat_error = false;
  remove_file = true;
  remove_stale = true;
  chmod = true;
  identity = true;
}

-- A socket file that a crashed daemon left, with inode 3; the listener with inode 5 lives elsewhere.
abbrev stale : Sockets
stale = record { nodes = λ p. some (record { is_socket = true; inode = 3 }); live = λ i. ltb 4 i }

abbrev path : Bytes
path = text "/h/embedding.sock"

abbrev new_listener : OwnedListener
new_listener = record { path = path; inode = 4; closed = false }

-- Another daemon serves the path.
abbrev busy : Sockets
busy = record { nodes = λ p. some (record { is_socket = true; inode = 5 }); live = λ i. ltb 4 i }

-- A daemon whose socket file has been replaced.
abbrev old : OwnedListener
old = record { path = path; inode = 5; closed = false }

rebound : (listen calls 4 path stale).0 ≡ ok new_listener
unfolding listen clear_path bind secure
rebound = refl

close-listen_example :
    let after = (close old (listen calls 4 path stale).1).1 in
    (still_owned new_listener after ≡ true) × (after.live 4 ≡ true)
close-listen_example = close-listen old new_listener calls 4 stale refl refl rebound

-- The daemon is down until it is spawned; the state counts the spawns.
abbrev remote : Remote ℕ
remote = record {
  State = ℕ;
  embed = λ text s. (if ltb 0 s then ok (7 ∷ []) else err unavailable, s);
  embed_batch = λ texts s. (ok [], s);
  wait_lock = λ s. s;
  ensure_daemon = λ s. (true, suc s);
  reconnect = λ s. (true, s);
}

abbrev ask : ℕ → Result Code (List ℕ) × ℕ
ask = remote.embed (text "a")

respawned : (call_with_respawn remote ask false 0).0 ≡ ok (7 ∷ [])
unfolding call_with_respawn first_call under_lock after_spawn after_reconnect returned
respawned = refl

abbrev daemon : Daemon ℕ
daemon = record { server = new (text "v1") 0; evicted = false; cancelled = false }

watch_socket_ownership-Loses_example :
    let r = watch_socket_ownership (tick true false ∷ tick false false ∷ []) daemon in
    ((r.evicted ≡ true) ↔ Loses (tick true false ∷ tick false false ∷ []))
    × (((r.evicted ≡ true) × (r.server.shutdown_closed ≡ true) × (r.cancelled ≡ true))
        ⊎ (r ≡ daemon))
watch_socket_ownership-Loses_example =
    watch_socket_ownership-Loses (tick true false ∷ tick false false ∷ []) daemon refl

-- A child that has been idle for 20 s.
abbrev idle : Sys clock_host
idle = record {
  backend =
      record (new_llama_backend (record {
        binary_path = text "/bin/llama-server";
        model_path = text "/m.gguf";
        log_path = [];
        host = [];
        ctx_size = 0;
      })) { cmd = some 7; port = 8080; started = true };
  world = 20000000000;
  trace = [];
}
