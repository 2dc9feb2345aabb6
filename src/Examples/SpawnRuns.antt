-- ===== src/Examples/SpawnRuns.antt =====
-- A client that starts the daemon, and two that race.
use runed.Prelude.{
  inl, ℕ, ◌+◌, ◌*◌, ◌&&◌, leb, ◌≤◌, ◌≡◌, refl, arith, true, false, [], ◌∷◌, none, some, text, ok,
  ltb, bytes_eq,
}
use runed.Prelude.{if◌then◌else◌}
use runed.Spawn.{
  System, Config, connected, refused, ensure_daemon, launch_env, resolve_runed_binary,
}
use runed.Prelude.Threads.{update}
use runed.Spawn.Race
use runed.Spawn.Race.{
  Pc, World, client, daemon, Reach, start, later, init, probing, locking, rechecking, launching,
  waiting, call, probe_absent, flock, recheck_absent, launch, holds_lock, listen,
}
use runed.Spawn.Race.Single.{alive, launches_bounded}
use runed.Spawn.Ready.{IsTimely, Reached, ensure_daemon-Reached}

abbrev config : Config
config = record {
  llama_server = [];
  model = text "/m.gguf";
  runed_binary = text "/bin/runed";
  idle_timeout = [];
}

-- The state is the clock and the number of ticks; the daemon accepts from the first second on, and
-- a tick comes 200 ms after the select before, if it is not early for its number.
abbrev system : System
system = record {
  State = ℕ × ℕ;
  resolve = λ path. path;
  no_socket = λ path s. false;
  dial = λ path s. (if ltb s.0 1000000000 then refused else connected, s);
  mkdir_all = λ path s. (true, s);
  acquire_lock = λ path s. (true, s);
  release_lock = λ s. s;
  load_config = λ s. (some config, s);
  open_log = λ path s. (true, s);
  exec = λ binary env s. (true, s);
  close_log = λ s. s;
  now = λ s. s.0;
  new_ticker = λ s. (s.0, 0);
  select_wait = λ deadline s. (
    ltb s.0 deadline && leb (deadline + (s.1 + 1) * 200000000) (s.0 + 10200000000),
    (s.0 + 200000000, s.1 + 1),
  );
  late = 0;
}

system-IsTimely : IsTimely system
system-IsTimely = record {
  ticks = λ s. s.1;
  late = λ s. 0;
  made = λ s. (refl, refl, omega arith);
  dial_forward = λ path s. (omega arith, refl, refl);
  tick = λ deadline s h. inl (ground arith);
}

variables : launch_env (text "/h") config ≡ text "RUNED_HOME=/h" ∷ text "RUNED_MODEL=/m.gguf" ∷ []
unfolding launch_env
variables = refl

own_binary :
    resolve_runed_binary none [] (some (text "/bin/runed", text "runed")) []
    ≡ ok (text "/bin/runed")
unfolding resolve_runed_binary bytes_eq
own_binary = refl

ensure_daemon-Reached_example :
    Reached system
      (text "/h/embedding.sock")
      (ensure_daemon system (text "/h/embedding.sock") (0, 0))
ensure_daemon-Reached_example =
    ensure_daemon-Reached system system-IsTimely (text "/h/embedding.sock") (0, 0)

abbrev at : World → (ℕ → Pc) → Race.System
at w pc = record { world = w; pc = pc }

-- Client 1 waits for the lock, and client 0 for the daemon that it launched.
abbrev raced : Race.System
raced =
    let w = init.world in
    let held = record w { lock = some 0 } in
    let run = record held { starting = 1; launches = 1 } in
    let p1 = update (update init.pc 0 probing) 1 probing in
    let p2 = update (update p1 0 locking) 1 locking in
    at run (update (update (update p2 0 rechecking) 0 launching) 0 waiting)

raced_reached : Reach raced
raced_reached =
    later
      (later
        (later
          (later
            (later (later (later start (client 0 call)) (client 1 call))
              (client 0 (probe_absent refl)))
            (client 1 (probe_absent refl)))
          (client 0 (flock refl)))
        (client 0 (recheck_absent refl)))
      (client 0 launch)

-- The same once the daemon listens.
abbrev served : Race.System
served = at (record raced.world { listening = true; starting = 0 }) raced.pc

served_reached : Reach served
served_reached = later raced_reached (daemon (listen 0 refl refl))

launches_bounded_example :
    ((i j : ℕ) → holds_lock (served.pc i) ≡ true → holds_lock (served.pc j) ≡ true → i ≡ j)
    × (served.world.launches ≤ served.world.closed + served.world.given_up + 1)
    × (alive served.world ≤ served.world.given_up + 1)
    × (served.world.draining ≤ served.world.closed)
launches_bounded_example = launches_bounded served_reached
