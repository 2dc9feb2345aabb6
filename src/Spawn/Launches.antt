-- ===== src/Spawn/Launches.antt =====
-- A call of EnsureDaemon starts at most one process.
use runed.Prelude.{
  ℕ, zero, suc, ◌+◌, ◌≤◌, ◌≡◌, refl, ◌∙◌, arith, Bool, true, false, List, Bytes, Option, none, some,
}
use runed.Spawn.{
  System, Outcome, Config, DialResult, dial_reachable, dial_absent, dial_hostile, LaunchError,
  probe_found, probe_daemon, wait_step, wait_probed, wait_for_daemon, executed, with_log, made_logs,
  launch_daemon, after_launch, after_config, recheck, released, locked, made_home, first_probe,
  ensure_daemon,
}

-- The processes that exec has started: nothing else counts as one.
pub record IsCounter (S : System) : Type 0 where
  pub launches : S.State → ℕ
  pub exec :
      (b : Bytes) (env : List Bytes) (s : S.State) → launches (S.exec b env s).1 ≤ launches s + 1
  pub dial : (p : Bytes) (s : S.State) → launches (S.dial p s).1 ≡ launches s
  pub mkdir_all : (p : Bytes) (s : S.State) → launches (S.mkdir_all p s).1 ≡ launches s
  pub acquire_lock : (p : Bytes) (s : S.State) → launches (S.acquire_lock p s).1 ≡ launches s
  pub release_lock : (s : S.State) → launches (S.release_lock s) ≡ launches s
  pub load_config : (s : S.State) → launches (S.load_config s).1 ≡ launches s
  pub open_log : (p : Bytes) (s : S.State) → launches (S.open_log p s).1 ≡ launches s
  pub close_log : (s : S.State) → launches (S.close_log s) ≡ launches s
  pub new_ticker : (s : S.State) → launches (S.new_ticker s) ≡ launches s
  pub select_wait : (d : ℕ) (s : S.State) → launches (S.select_wait d s).1 ≡ launches s

module _ (S : System) (C : IsCounter S) (socket_path : Bytes) where
  probe_found-same :
      (path : Bytes) (b : Bool) (s : S.State) → C.launches (probe_found S path b s).1 ≡ C.launches s
  unfolding probe_found
  probe_found-same path true s = refl
  probe_found-same path false s = C.dial path s

  probe_daemon-same : (s : S.State) → C.launches (probe_daemon S socket_path s).1 ≡ C.launches s
  unfolding probe_daemon
  probe_daemon-same s =
      let path = S.resolve socket_path in probe_found-same path (S.no_socket path s) s

  wait_step-same :
      (again : S.State → Outcome S)
      → ((t : S.State) → C.launches (again t).1 ≡ C.launches t)
      → (r : Bool × S.State) → C.launches (wait_step S again r).1 ≡ C.launches r.1
  unfolding wait_step
  wait_step-same again h (true, s) = h s
  wait_step-same again h (false, s) = refl

  wait_probed-same :
      (deadline : ℕ) (again : S.State → Outcome S)
      → ((t : S.State) → C.launches (again t).1 ≡ C.launches t)
      → (r : DialResult × S.State) → C.launches (wait_probed S deadline again r).1 ≡ C.launches r.1
  unfolding wait_probed
  wait_probed-same d again h (dial_reachable, s) = refl
  wait_probed-same d again h (dial_absent, s) = wait_step-same again h _ ∙ C.select_wait d s
  wait_probed-same d again h (dial_hostile, s) = wait_step-same again h _ ∙ C.select_wait d s

  wait_for_daemon-same :
      (rounds deadline : ℕ) (s : S.State)
      → C.launches (wait_for_daemon S socket_path rounds deadline s).1 ≡ C.launches s
  unfolding wait_for_daemon
  wait_for_daemon-same zero d s = refl
  wait_for_daemon-same (suc n) d s =
      wait_probed-same d _ (wait_for_daemon-same n d) _ ∙ probe_daemon-same s

  -- At most one process more than before.
  abbrev OneMore : {A : Type 0} → S.State → A × S.State → Type 0
  OneMore s r = C.launches r.1 ≤ C.launches s + 1

  with_log-OneMore :
      (home : Bytes) (cfg : Config) (r : Bool × S.State) → OneMore r.1 (with_log S home cfg r)
  unfolding with_log executed
  with_log-OneMore home cfg (false, s) = omega arith
  with_log-OneMore home cfg (true, s) =
      omega (arith, C.close_log (S.exec cfg.runed_binary _ s).1, C.exec cfg.runed_binary _ s)

  made_logs-OneMore :
      (home : Bytes) (cfg : Config) (r : Bool × S.State) → OneMore r.1 (made_logs S home cfg r)
  unfolding made_logs
  made_logs-OneMore home cfg (false, s) = omega arith
  made_logs-OneMore home cfg (true, s) =
      omega (arith, with_log-OneMore home cfg (S.open_log _ s), C.open_log _ s)

  launch_daemon-OneMore :
      (cfg : Config) (s : S.State) → OneMore s (launch_daemon S socket_path cfg s)
  unfolding launch_daemon
  launch_daemon-OneMore cfg s =
      omega (arith, made_logs-OneMore _ cfg (S.mkdir_all _ s), C.mkdir_all _ s)

  after_launch-same :
      (r : Option LaunchError × S.State)
      → C.launches (after_launch S socket_path r).1 ≡ C.launches r.1
  unfolding after_launch
  after_launch-same (some e, s) = refl
  after_launch-same (none, s) = wait_for_daemon-same _ _ _ ∙ C.new_ticker s

  after_config-OneMore : (r : Option Config × S.State) → OneMore r.1 (after_config S socket_path r)
  unfolding after_config
  after_config-OneMore (none, s) = omega arith
  after_config-OneMore (some cfg, s) =
      omega
        (arith, after_launch-same (launch_daemon S socket_path cfg s), launch_daemon-OneMore cfg s)

  recheck-OneMore : (r : DialResult × S.State) → OneMore r.1 (recheck S socket_path r)
  unfolding recheck
  recheck-OneMore (dial_reachable, s) = omega arith
  recheck-OneMore (dial_hostile, s) = omega arith
  recheck-OneMore (dial_absent, s) =
      omega (arith, after_config-OneMore (S.load_config s), C.load_config s)

  locked-OneMore : (r : Bool × S.State) → OneMore r.1 (locked S socket_path r)
  unfolding locked released
  locked-OneMore (false, s) = omega arith
  locked-OneMore (true, s) =
      let r = probe_daemon S socket_path s in
      omega
        (arith, C.release_lock (recheck S socket_path r).1, recheck-OneMore r, probe_daemon-same s)

  made_home-OneMore : (r : Bool × S.State) → OneMore r.1 (made_home S socket_path r)
  unfolding made_home
  made_home-OneMore (false, s) = omega arith
  made_home-OneMore (true, s) =
      omega (arith, locked-OneMore (S.acquire_lock _ s), C.acquire_lock _ s)

  first_probe-OneMore : (r : DialResult × S.State) → OneMore r.1 (first_probe S socket_path r)
  unfolding first_probe
  first_probe-OneMore (dial_reachable, s) = omega arith
  first_probe-OneMore (dial_hostile, s) = omega arith
  first_probe-OneMore (dial_absent, s) =
      omega (arith, made_home-OneMore (S.mkdir_all _ s), C.mkdir_all _ s)

  -- EnsureDaemon starts at most one process, whatever it returns.
  pub ensure_daemon-launches :
      (s : S.State) → C.launches (ensure_daemon S socket_path s).1 ≤ C.launches s + 1
  unfolding ensure_daemon
  ensure_daemon-launches s =
      omega (arith, first_probe-OneMore (probe_daemon S socket_path s), probe_daemon-same s)
