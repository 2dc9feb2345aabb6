-- ===== src/Backend/Lifecycle.antt =====
-- Start, EnsureStarted, restartIfDead, Stop and Serving. The waits for restartMu, inflightMu and
-- lifecycleMu are `lock_wait`, at which the other goroutines change the backend.
pub mod Invariant
pub mod Consistency
pub mod Verdict
pub mod Suspend
pub mod Resume
use runed.Prelude.{ℕ, Bool, true, false, Option, none, some, if◌then◌else◌, is_some}
use runed.Backend.Types.{
  LlamaBackend, ChildState, child_suspended, child_running, child_failed, ServingState, serving_ok,
  serving_idle, serving_degraded, BackendError, not_initialized, daemon_ctx_done,
  quick_probe_timeout, verdict_probe_timeout, alive_grace,
}
use runed.Backend.Host.{Host, Sys, M, call, get, modify, lock_wait, pure, ◌>>=◌, ◌>>◌}
use runed.Backend.Probe.{recently_alive, probe_healthy, is_healthy}
use runed.Backend.Child.{start_locked, stop_locked}

unfoldable pub serving_down : ChildState → ServingState
serving_down child_suspended = serving_idle
serving_down child_running = serving_degraded
serving_down child_failed = serving_degraded

module _ (H : Host) where
  unfoldable pub start : M H (Option BackendError)
  start = do lock_wait H; modify H (λ b. record b { started = true }); start_locked H

  -- From line 254 on, with all three locks held: the verdict after the drain.
  unfoldable pub drained_verdict : M H (Option BackendError)
  drained_verdict = do
    b ← get H
    healthy ← if is_some b.cmd then probe_healthy H verdict_probe_timeout else pure false
    if healthy
        then pure none
        else (do _ ← if is_some b.cmd then stop_locked H false else pure none; start_locked H)

  unfoldable pub restart_if_dead : M H (Option BackendError)
  restart_if_dead = do
    lock_wait H
    recent ← recently_alive H alive_grace
    if recent then pure none else (do
      healthy ← probe_healthy H verdict_probe_timeout
      if healthy then pure none else (do lock_wait H; drained_verdict))

  -- The branch of EnsureStarted for a backend with a command.
  unfoldable pub ensure_running : M H (Option BackendError)
  ensure_running = do
    healthy ← probe_healthy H quick_probe_timeout
    if healthy then pure none else (do
      recent ← recently_alive H alive_grace
      if recent then pure none else restart_if_dead)

  -- EnsureStarted once lifecycleMu is held.
  unfoldable pub ensure_held : M H (Option BackendError)
  ensure_held = do
    b ← get H
    if b.started
        then (do
          done ← call H H.ctx_err
          c ← get H
          if done
              then pure (some daemon_ctx_done)
              else if is_some c.cmd
              then ensure_running
              else start_locked H)
        else pure (some not_initialized)

  unfoldable pub ensure_started : M H (Option BackendError)
  ensure_started = do lock_wait H; ensure_held

  -- Stop once inflightMu and lifecycleMu are held.
  unfoldable pub stop_held : Bool → M H (Option BackendError)
  stop_held cancellable = do
    b ← get H
    result ← stop_locked H cancellable
    modify H (λ c. if is_some b.cmd then record c { state = child_suspended } else c)
    pure result

  unfoldable pub stop : Bool → M H (Option BackendError)
  stop cancellable = do lock_wait H; stop_held cancellable

  unfoldable pub serving : M H ServingState
  unfolding serving_down
  serving = do
    b ← get H
    if is_some b.cmd
        then (do
          healthy ← is_healthy H
          if healthy then pure serving_ok else (do
            recent ← recently_alive H alive_grace
            pure (if recent then serving_ok else serving_degraded)))
        else pure (serving_down b.state)
