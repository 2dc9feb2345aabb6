-- ===== src/Daemon/Idle/Suspends.antt =====
-- When the idle ticker stops the child.
use runed.Prelude.{ℕ, ◌-◌, ◌<◌, ◌≡◌, ◌⊎◌, arith, true, none}
use runed.Backend.Host.{Host, Sys, call}
use runed.Backend.Probe.{is_healthy}
use runed.Backend.Child.Ready.{is_healthy_trace}
use runed.Backend.Lifecycle.{stop}
use runed.Backend.Lifecycle.Verdict.{ends}
use runed.Backend.Lifecycle.Suspend.{stop-serving}
use runed.Daemon.Idle.{idle_tick}

module _ (H : Host) where
  stop_gone : (s : Sys H) → (stop H true s).1.backend.cmd ≡ none
  stop_gone s = ground (arith, stop-serving H true s)

  -- A tick of the idle ticker ends no child, or the time since the last activity is above the
  -- timeout, the child answered its probe, and afterwards the backend has no command.
  idle_tick-ends :
      (timeout last pid : ℕ) (s : Sys H)
      → let t = (idle_tick H timeout last s).1 in
        (ends pid t.trace ≡ ends pid s.trace)
        ⊎ ((timeout < (H.now s.world).value - last)
            × ((is_healthy H (call H H.now s).1).0 ≡ true)
            × (t.backend.cmd ≡ none))
  unfolding idle_tick call
  idle_tick-ends timeout last pid s =
      let s1 = (call H H.now s).1 in
      let s2 = (is_healthy H s1).1 in ground (arith, is_healthy_trace H s1, stop_gone s2)
