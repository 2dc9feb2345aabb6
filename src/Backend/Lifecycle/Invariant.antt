-- ===== src/Backend/Lifecycle/Invariant.antt =====
-- What the primitive steps and the other goroutines keep is kept by the operations.
use runed.Prelude.{ℕ, false, none, some}
use runed.Prelude.{is_some, if◌then◌else◌}
use runed.Backend.Types.{
  alive_grace, verdict_probe_timeout, quick_probe_timeout, not_initialized, daemon_ctx_done,
}
use runed.Backend.Host.{Host, Sys, call, lock_wait, pure, ◌>>=◌}
use runed.Backend.Keeps.{Keeps, Primitive, keeps_if}
use runed.Backend.Probe.{probe_healthy, recently_alive}
use runed.Backend.Child.{start_locked, stop_locked}
use runed.Backend.Child.Invariant.{
  probe_healthy-keeps, recently_alive-keeps, start_locked-keeps, stop_locked-keeps,
}
use runed.Backend.Lifecycle.{
  drained_verdict, restart_if_dead, ensure_running, ensure_held, ensure_started,
}

module _ (H : Host) (P : Sys H → Type 0) (Safe : ℕ → Type 0) (prim : Primitive H P Safe)
    (others : Keeps H P (lock_wait H)) where
  pub drained_verdict-keeps : Keeps H P (drained_verdict H)
  unfolding drained_verdict
  drained_verdict-keeps s h =
      let running = is_some s.backend.cmd in
      let probe = if running then probe_healthy H verdict_probe_timeout else pure {H = H} false in
      let stop = if running then stop_locked H false else pure {H = H} none in
      keeps_if H P (probe s).0 (pure none) (do _ ← stop; start_locked H) (λ r k. k)
        (λ r k. start_locked-keeps H P Safe prim _ (
          keeps_if H P running (stop_locked H false) (pure none)
            (stop_locked-keeps H P Safe prim false) (λ t l. l) r k))
        _
        (keeps_if H P running (probe_healthy H verdict_probe_timeout) (pure false)
          (probe_healthy-keeps H P Safe prim verdict_probe_timeout) (λ r k. k) s h)

  pub restart_if_dead-keeps : Keeps H P (restart_if_dead H)
  unfolding restart_if_dead
  restart_if_dead-keeps s h =
      keeps_if H P (recently_alive H alive_grace _).0 (pure none) _ (λ r k. k)
        (λ r k.
          keeps_if H P (probe_healthy H verdict_probe_timeout r).0 (pure none) _ (λ t l. l)
            (λ t l. drained_verdict-keeps _ (others t l)) _
            (probe_healthy-keeps H P Safe prim verdict_probe_timeout r k))
        _ (recently_alive-keeps H P Safe prim alive_grace _ (others s h))

  pub ensure_running-keeps : Keeps H P (ensure_running H)
  unfolding ensure_running
  ensure_running-keeps s h =
      keeps_if H P (probe_healthy H quick_probe_timeout s).0 (pure none) _ (λ r k. k)
        (λ r k.
          keeps_if H P (recently_alive H alive_grace r).0 (pure none) (restart_if_dead H) (λ t l. l)
            (λ t l. restart_if_dead-keeps t l) _
            (recently_alive-keeps H P Safe prim alive_grace r k))
        _ (probe_healthy-keeps H P Safe prim quick_probe_timeout s h)

  pub ensure_held-keeps : Keeps H P (ensure_held H)
  unfolding ensure_held
  ensure_held-keeps s h =
      keeps_if H P s.backend.started _ (pure (some not_initialized))
        (λ r k.
          keeps_if H P (call H H.ctx_err r).0 (pure (some daemon_ctx_done)) _ (λ t l. l)
            (λ t l.
              keeps_if H P (is_some (call H H.ctx_err r).1.backend.cmd) (ensure_running H)
                (start_locked H) (λ u m. ensure_running-keeps u m)
                (λ u m. start_locked-keeps H P Safe prim u m) t l)
            _ (prim.calls H.ctx_err r k))
        (λ r k. k) s h

  pub ensure_started-keeps : Keeps H P (ensure_started H)
  unfolding ensure_started
  ensure_started-keeps s h = ensure_held-keeps _ (others s h)
