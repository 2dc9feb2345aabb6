-- ===== src/Spawn.antt =====
-- internal/spawn/spawn.go and resolveRunedBinary of config.go. The dial, the clock, the lock, the
-- configuration, the file of the log and exec are parameters over the state of the system.
pub mod Launches
pub mod Load
pub mod Lock
pub mod Race
pub mod Ready
use runed.Prelude.{
  ℕ, zero, suc, ◌+◌, ◌*◌, Bool, true, false, not, List, [], ◌∷◌, ◌++◌, Option, none, some, Bytes,
  text, is_empty, bytes_eq, Result, ok, err, if◌then◌else◌,
}
use runed.Prelude.FilePath.{join, dir}

pub data DialResult : Type 0 where
  dial_reachable dial_absent dial_hostile : DialResult

-- How a dial ended. `refused` is ENOENT or ECONNREFUSED.
pub data Dial : Type 0 where
  connected refused dial_error : Dial

abbrev pub classify : Dial → DialResult
classify connected = dial_reachable
classify refused = dial_absent
classify dial_error = dial_hostile

pub record Config : Type 0 where
  pub llama_server : Bytes
  pub model : Bytes
  pub runed_binary : Bytes
  pub idle_timeout : Bytes

pub data LaunchError : Type 0 where
  mkdir_logs open_log exec_failed : LaunchError

pub data SpawnError : Type 0 where
  hostile mkdir_home lock_failed config_failed not_ready binary_unresolved : SpawnError
  launch_failed : LaunchError → SpawnError
  -- The wait of the model ran out of rounds.
  out_of_rounds : SpawnError

-- `resolve` is ResolveSocketPath. `exec` starts the process with its environment, detached and with the
-- log as its output. `select_wait` is the select of waitForDaemon, with the deadline: true for the tick.
pub record System : Type 1 where
  pub State : Type 0
  pub resolve : Bytes → Bytes
  -- Stat found a file at the path, and it is no socket.
  pub no_socket : Bytes → State → Bool
  pub dial : Bytes → State → Dial × State
  pub mkdir_all : Bytes → State → Bool × State
  pub acquire_lock : Bytes → State → Bool × State
  pub release_lock : State → State
  pub load_config : State → Option Config × State
  pub open_log : Bytes → State → Bool × State
  pub exec : Bytes → List Bytes → State → Bool × State
  pub close_log : State → State
  pub now : State → ℕ
  pub new_ticker : State → State
  pub select_wait : ℕ → State → Bool × State
  -- How many ticks the select may still take after the deadline: among the cases that are ready, it
  -- chooses at random.
  pub late : ℕ

abbrev pub Outcome : System → Type 0
Outcome S = Option SpawnError × S.State

-- The variables that launchDaemon adds to the environment.
abbrev pub set_unless_empty : Bytes → Bytes → List Bytes
set_unless_empty name value = if is_empty value then [] else (name ++ value) ∷ []

unfoldable pub launch_env : Bytes → Config → List Bytes
launch_env home cfg =
    (text "RUNED_HOME=" ++ home)
    ∷ (set_unless_empty (text "RUNED_LLAMA_SERVER=") cfg.llama_server
        ++ (set_unless_empty (text "RUNED_MODEL=") cfg.model
            ++ set_unless_empty (text "RUNED_IDLE_TIMEOUT=") cfg.idle_timeout))

-- `look_path` is exec.LookPath of runed, `self` os.Executable with the base of its path.
unfoldable pub resolve_runed_binary :
    Option Bytes → Bytes → Option (Bytes × Bytes) → Bytes → Result SpawnError Bytes
resolve_runed_binary look_path default_binary self configured =
    if not (is_empty configured) then ok configured else elim look_path [
      | some p ↦ ok p
      | none ↦ if not (is_empty default_binary) then ok default_binary else elim self [
        | none ↦ err binary_unresolved
        | some (path, base) ↦
            if bytes_eq base (text "runed") then ok path else err binary_unresolved
      ]
    ]

-- A tick each 200 ms for 10 s, those that are taken after the deadline, and the round that meets it.
abbrev pub wait_rounds : System → ℕ
wait_rounds S = suc (S.late + 50)

module _ (S : System) where
  -- A file that is no socket is not dialled.
  unfoldable pub probe_found : Bytes → Bool → S.State → DialResult × S.State
  probe_found path true s = (dial_hostile, s)
  probe_found path false s = let r = S.dial path s in (classify r.0, r.1)

  -- Only the socket itself is at the resolved path.
  unfoldable pub probe_daemon : Bytes → S.State → DialResult × S.State
  unfolding probe_found
  probe_daemon socket_path s =
      let path = S.resolve socket_path in probe_found path (S.no_socket path s) s

  unfoldable pub wait_step : (S.State → Outcome S) → Bool × S.State → Outcome S
  wait_step again (true, s) = again s
  wait_step again (false, s) = (some not_ready, s)

  unfoldable pub wait_probed : ℕ → (S.State → Outcome S) → DialResult × S.State → Outcome S
  unfolding wait_step
  wait_probed deadline again (dial_reachable, s) = (none, s)
  wait_probed deadline again (dial_absent, s) = wait_step again (S.select_wait deadline s)
  wait_probed deadline again (dial_hostile, s) = wait_step again (S.select_wait deadline s)

  unfoldable pub wait_for_daemon : Bytes → ℕ → ℕ → S.State → Outcome S
  unfolding wait_probed
  wait_for_daemon socket_path zero deadline s = (some out_of_rounds, s)
  wait_for_daemon socket_path (suc rounds) deadline s =
      wait_probed deadline (wait_for_daemon socket_path rounds deadline)
        (probe_daemon socket_path s)

  unfoldable pub executed : Bool × S.State → Option LaunchError × S.State
  executed (started, s) = (if started then none else some exec_failed, S.close_log s)

  unfoldable pub with_log : Bytes → Config → Bool × S.State → Option LaunchError × S.State
  unfolding executed
  with_log home cfg (false, s) = (some open_log, s)
  with_log home cfg (true, s) = executed (S.exec cfg.runed_binary (launch_env home cfg) s)

  unfoldable pub made_logs : Bytes → Config → Bool × S.State → Option LaunchError × S.State
  unfolding with_log
  made_logs home cfg (false, s) = (some mkdir_logs, s)
  made_logs home cfg (true, s) =
      with_log home cfg (S.open_log (join (home ∷ text "logs" ∷ text "daemon.log" ∷ [])) s)

  unfoldable pub launch_daemon : Bytes → Config → S.State → Option LaunchError × S.State
  unfolding made_logs
  launch_daemon socket_path cfg s =
      let home = dir socket_path in
      made_logs home cfg (S.mkdir_all (join (home ∷ text "logs" ∷ [])) s)

  unfoldable pub after_launch : Bytes → Option LaunchError × S.State → Outcome S
  after_launch socket_path (some e, s) = (some (launch_failed e), s)
  after_launch socket_path (none, s) =
      wait_for_daemon socket_path (wait_rounds S) (S.now s + 10 * 1000000000) (S.new_ticker s)

  unfoldable pub after_config : Bytes → Option Config × S.State → Outcome S
  unfolding after_launch
  after_config socket_path (none, s) = (some config_failed, s)
  after_config socket_path (some cfg, s) =
      after_launch socket_path (launch_daemon socket_path cfg s)

  -- The probe under the lock.
  unfoldable pub recheck : Bytes → DialResult × S.State → Outcome S
  unfolding after_config
  recheck socket_path (dial_reachable, s) = (none, s)
  recheck socket_path (dial_hostile, s) = (some hostile, s)
  recheck socket_path (dial_absent, s) = after_config socket_path (S.load_config s)

  -- The deferred Release, on every return under the lock.
  unfoldable pub released : Outcome S → Outcome S
  released (e, s) = (e, S.release_lock s)

  unfoldable pub locked : Bytes → Bool × S.State → Outcome S
  unfolding recheck released
  locked socket_path (false, s) = (some lock_failed, s)
  locked socket_path (true, s) = released (recheck socket_path (probe_daemon socket_path s))

  abbrev pub lock_path : Bytes → Bytes
  lock_path socket_path = join (dir socket_path ∷ text "spawn.lock" ∷ [])

  unfoldable pub made_home : Bytes → Bool × S.State → Outcome S
  unfolding locked
  made_home socket_path (false, s) = (some mkdir_home, s)
  made_home socket_path (true, s) = locked socket_path (S.acquire_lock (lock_path socket_path) s)

  unfoldable pub first_probe : Bytes → DialResult × S.State → Outcome S
  unfolding made_home
  first_probe socket_path (dial_reachable, s) = (none, s)
  first_probe socket_path (dial_hostile, s) = (some hostile, s)
  first_probe socket_path (dial_absent, s) =
      made_home socket_path (S.mkdir_all (dir (lock_path socket_path)) s)

  unfoldable pub ensure_daemon : Bytes → S.State → Outcome S
  unfolding first_probe
  ensure_daemon socket_path s = first_probe socket_path (probe_daemon socket_path s)
