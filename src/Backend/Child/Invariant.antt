-- ===== src/Backend/Child/Invariant.antt =====
-- A property that survives the primitive steps is kept by the probes and by starting and stopping
-- the child.
use runed.Prelude.{ℕ, zero, suc, Bool, true, false, Option, none, some, ◌≡◌, refl}
use runed.Prelude.{◌==◌}
use runed.Backend.Host.{
  Host, Sys, M, call, PortEvent, port_line, scanner_done, ctx_done, port_waiting, PollEvent,
  poll_scanner_done, poll_deadline, poll_tick, poll_waiting, ExitEvent, exit_done, exit_timeout,
  exit_ctx_done, ◌>>=◌, pure,
}
use runed.Backend.Types.{BackendError}
use runed.Backend.Keeps.{Keeps, keeps_if, Primitive}
use runed.Backend.Probe.{note_alive, recently_alive, probe_healthy, is_healthy}
use runed.Backend.Child.{
  finish_stop, stop_child, stop_locked, poll_step, health_poll, poll_rounds, server_args,
  await_ready, launch, start_locked, reap,
}

module _ (H : Host) (P : Sys H → Type 0) (Safe : ℕ → Type 0) (prim : Primitive H P Safe) where
  note_alive-keeps : Keeps H P (note_alive H)
  unfolding note_alive
  note_alive-keeps s h = prim.alive _ _ (prim.calls H.now s h)

  pub probe_healthy-keeps : (t : ℕ) → Keeps H P (probe_healthy H t)
  unfolding probe_healthy
  probe_healthy-keeps t s h = prim.probes t _ _ (
      keeps_if H P (s.backend.port == 0) (pure false)
        (call H (H.get_health s.backend.cfg.host s.backend.port t)) (λ r k. k)
        (prim.calls (H.get_health s.backend.cfg.host s.backend.port t)) s h)

  pub recently_alive-keeps : (t : ℕ) → Keeps H P (recently_alive H t)
  unfolding recently_alive
  recently_alive-keeps t s h =
      keeps_if H P (s.backend.last_alive == 0) (pure false) _ (λ r k. k)
        (λ r k. prim.calls H.now r k) s h

  pub is_healthy-keeps : Keeps H P (is_healthy H)
  unfolding is_healthy
  is_healthy-keeps s h =
      keeps_if H P (probe_healthy H _ s).0 _ (pure false) (λ r k. note_alive-keeps r k) (λ r k. k) _
        (probe_healthy-keeps _ s h)

  finish_stop-keeps : (pid : ℕ) (ev : ExitEvent) → Safe pid → Keeps H P (finish_stop H pid ev)
  unfolding finish_stop
  finish_stop-keeps pid exit_done safe s h = prim.reaps pid s h
  finish_stop-keeps pid exit_timeout safe s h = prim.reaps pid _ (prim.kills pid safe s h)
  finish_stop-keeps pid exit_ctx_done safe s h = prim.reaps pid _ (prim.kills pid safe s h)

  stop_child-keeps :
      (c : Bool) (cmd : Option ℕ)
      → ((pid : ℕ) → cmd ≡ some pid → Safe pid)
      → Keeps H P (stop_child H c cmd)
  unfolding stop_child
  stop_child-keeps c none safe s h = h
  stop_child-keeps c (some pid) safe s h =
      let ok = safe pid refl in
      prim.flags false _ (
        finish_stop-keeps pid _ ok _
          (prim.calls (H.await_exit pid c) _ (prim.terminates pid ok _ (prim.flags true s h))))

  pub stop_locked-keeps : (c : Bool) → Keeps H P (stop_locked H c)
  unfolding stop_locked
  stop_locked-keeps c s h = stop_child-keeps c s.backend.cmd (λ pid e. prim.running s pid h e) s h

  poll_step-keeps :
      (pid : ℕ) (rest : M H (Option BackendError)) (ev : PollEvent)
      → Keeps H P rest
      → Keeps H P (poll_step H pid rest ev)
  unfolding poll_step
  poll_step-keeps pid rest poll_scanner_done k s h = prim.reaps pid s h
  poll_step-keeps pid rest poll_deadline k s h = stop_locked-keeps false s h
  poll_step-keeps pid rest poll_tick k s h = k s h
  poll_step-keeps pid rest poll_waiting k s h = h

  health_poll-keeps : (rounds pid deadline : ℕ) → Keeps H P (health_poll H rounds pid deadline)
  unfolding health_poll
  health_poll-keeps zero pid deadline s h = h
  health_poll-keeps (suc rounds) pid deadline s h =
      keeps_if H P (is_healthy H s).0 (pure none) _ (λ r k. k)
        (λ r k.
          poll_step-keeps pid _ _ (health_poll-keeps rounds pid deadline) _
            (prim.calls (H.await_poll pid deadline) r k))
        _ (is_healthy-keeps s h)

  await_ready-keeps : (pid : ℕ) (ev : PortEvent) → Keeps H P (await_ready H pid ev)
  unfolding await_ready reap
  await_ready-keeps pid (port_line p) s h =
      health_poll-keeps poll_rounds pid _ _ (prim.calls H.now _ (prim.ports p s h))
  await_ready-keeps pid scanner_done s h = prim.reaps pid s h
  await_ready-keeps pid ctx_done s h = stop_locked-keeps false s h
  await_ready-keeps pid port_waiting s h = h

  launch-keeps :
      (cmd : Option ℕ) → ((pid : ℕ) → cmd ≡ some pid → Safe pid) → Keeps H P (launch H cmd)
  unfolding launch
  launch-keeps none safe s h = h
  launch-keeps (some pid) safe s h =
      let ok = safe pid refl in
      await_ready-keeps pid _ _
        (prim.calls (H.await_port pid) _ (prim.spawns pid ok _ (prim.launches pid ok s h)))

  -- The child is started, or the attempt fails, with the property kept.
  pub start_locked-keeps : Keeps H P (start_locked H)
  unfolding start_locked call
  start_locked-keeps s h =
      let piped = call H H.open_pipe s in
      let cfg = piped.1.backend.cfg in
      keeps_if H P piped.0 (do pid ← call H (H.start_cmd (server_args cfg) cfg); launch H pid) _
        (λ r k.
          launch-keeps _ (λ pid e. prim.fresh (server_args cfg) cfg r.world pid e) _
            (prim.calls (H.start_cmd (server_args cfg) cfg) r k))
        (λ r k. k) _ (prim.calls H.open_pipe s h)
