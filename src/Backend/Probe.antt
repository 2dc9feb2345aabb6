-- ===== src/Backend/Probe.antt =====
-- Proofs of life: noteAlive, recentlyAlive, probeHealthy, IsHealthy.
use runed.Prelude.{ℕ, ◌-◌, Bool, true, false, if◌then◌else◌, ◌==◌, ltb}
use runed.Backend.Types.{quick_probe_timeout}
use runed.Backend.Host.{Host, M, call, get, modify, act, pure, ◌>>=◌, ◌>>◌, probed}

module _ (H : Host) where
  unfoldable pub note_alive : M H (Unit {0})
  note_alive = do t ← call H H.now; modify H (λ b. record b { last_alive = t })

  -- time.Since may be negative where the clock went back; it is then 0 here, and below any grace.
  unfoldable pub recently_alive : ℕ → M H Bool
  recently_alive grace = do
    b ← get H
    let ns = b.last_alive
    let late = λ (t : ℕ). pure {H = H} (ltb (t - ns) grace)
    if ns == 0 then pure false else call H H.now >>= late

  -- The trace records the verdict, also where no request is made for want of a port.
  unfoldable pub probe_healthy : ℕ → M H Bool
  probe_healthy timeout = do
    b ← get H
    answered ← if b.port == 0 then pure false else call H (H.get_health b.cfg.host b.port timeout)
    act H (probed timeout answered)
    pure answered

  unfoldable pub is_healthy : M H Bool
  is_healthy = do
    answered ← probe_healthy quick_probe_timeout
    if answered then (do note_alive; pure true) else pure false
