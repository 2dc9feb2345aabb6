-- ===== src/Daemon/Idle.antt =====
-- The idle ticker of run() in cmd/runed/main.go: what it does at a tick.
pub mod Suspends
use runed.Prelude.{ℕ, ◌-◌, Bool, true, false, List, [], ◌∷◌, leb, if◌then◌else◌}
use runed.Backend.Host.{Host, Sys, M, call, pure, ◌>>=◌, ◌>>◌}
use runed.Backend.Probe.{is_healthy}
use runed.Backend.Lifecycle.{stop}

module _ (H : Host) where
  -- A time of activity that lies ahead counts as no time elapsed, which is within any timeout. The
  -- daemon's context can be cancelled.
  unfoldable pub idle_tick : ℕ → ℕ → M H (Unit {0})
  idle_tick timeout last_activity = do
    t ← call H H.now
    if leb (t - last_activity) timeout
        then pure tt
        else (do healthy ← is_healthy H; if healthy then (do _ ← stop H true; pure tt) else pure tt)
