-- ===== src/Spawn/Race.antt =====
-- Clients that call EnsureDaemon (internal/spawn/spawn.go) at the same time, with the daemons that they
-- launch: the file lock, the socket, and the steps of clients and daemons in any order. A probe, a try of
-- flock, the launch and Release are one step each.
pub mod Single
use runed.Prelude.{ℕ, suc, ◌+◌, ◌≡◌, Bool, true, false, Option, none, some}
use runed.Prelude.Threads.{update}

pub data Pc : Type 0 where
  idle : Pc
  probing : Pc  -- before the first probe
  locking : Pc  -- MkdirAll, then the loop of acquireLock
  rechecking : Pc  -- before the probe under the lock
  launching : Pc  -- LoadConfig and launchDaemon
  waiting : Pc  -- the loop of waitForDaemon
  leaving : Pc  -- before the deferred Release

-- `listening` says whether a dial of the socket is accepted, `starting` counts the daemons that run and
-- do not listen yet, and `draining` those that have closed the socket and have not exited. The others
-- count what has happened: launches, waits that were given up, and daemons that closed the socket.
pub record World : Type 0 where
  pub lock : Option ℕ
  pub listening : Bool
  pub starting : ℕ
  pub launches : ℕ
  pub given_up : ℕ
  pub closed : ℕ
  pub draining : ℕ

-- Client `i` in EnsureDaemon. A probe that is neither accepted nor refused is hostile, whatever the socket.
pub data Move (i : ℕ) (w : World) : Pc → World → Pc → Type 0 where
  call : Move i w idle w probing
  probe_reachable : w.listening ≡ true → Move i w probing w idle
  probe_hostile : Move i w probing w idle
  probe_absent : w.listening ≡ false → Move i w probing w locking
  lock_failed : Move i w locking w idle
  flock : w.lock ≡ none → Move i w locking (record w { lock = some i }) rechecking
  recheck_reachable : w.listening ≡ true → Move i w rechecking w leaving
  recheck_hostile : Move i w rechecking w leaving
  recheck_absent : w.listening ≡ false → Move i w rechecking w launching
  launch_failed : Move i w launching w leaving
  launch :
      Move i w launching (record w { starting = w.starting + 1; launches = w.launches + 1 }) waiting
  wait_reachable : w.listening ≡ true → Move i w waiting w leaving
  wait_given_up : Move i w waiting (record w { given_up = w.given_up + 1 }) leaving
  release : Move i w leaving (record w { lock = none }) idle

-- A daemon listens only on a socket that no other one listens on, and ends if it finds one; it may also
-- fail to start. At its end it closes the socket first, and exits when its
-- requests are drained. A socket that is taken from it is closed, too.
pub data DaemonMove (w : World) : World → Type 0 where
  listen :
      (n : ℕ)
      → w.starting ≡ suc n
      → w.listening ≡ false
      → DaemonMove w (record w { starting = n; listening = true })
  start_fails : (n : ℕ) → w.starting ≡ suc n → DaemonMove w (record w { starting = n })
  closes :
      w.listening ≡ true
      → DaemonMove w
          (record w { listening = false; closed = w.closed + 1; draining = w.draining + 1 })
  exits : (n : ℕ) → w.draining ≡ suc n → DaemonMove w (record w { draining = n })

pub record System : Type 0 where
  pub world : World
  pub pc : ℕ → Pc

pub data Step (s : System) : System → Type 0 where
  client :
      (i : ℕ) {w : World} {p : Pc}
      → Move i s.world (s.pc i) w p
      → Step s (record { world = w; pc = update s.pc i p })
  daemon : {w : World} → DaemonMove s.world w → Step s (record { world = w; pc = s.pc })

abbrev pub init : System
init = record {
  world = record {
    lock = none;
    listening = false;
    starting = 0;
    launches = 0;
    given_up = 0;
    closed = 0;
    draining = 0;
  };
  pc = λ i. idle;
}

pub data Reach : System → Type 0 where
  start : Reach init
  later : {s t : System} → Reach s → Step s t → Reach t

abbrev pub holds_lock : Pc → Bool
holds_lock rechecking = true
holds_lock launching = true
holds_lock waiting = true
holds_lock leaving = true
holds_lock _ = false
