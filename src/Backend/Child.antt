-- ===== src/Backend/Child.antt =====
-- startLocked and stopLocked: the child is started, awaited and stopped. Where `<-done`
-- returns, watchChild has run for the command, which is then applied.
pub mod Invariant
pub mod Ready
use runed.Prelude.{ℕ, zero, suc, ◌+◌, ◌*◌, Bool, true, false, Option, none, some, List, [], ◌∷◌}
use runed.Prelude.{Bytes, text, itoa, if◌then◌else◌}
use runed.Backend.Types.{
  LlamaBackend, Config, child_running, BackendError, stderr_pipe, start_failed, exited_before_ready,
  port_timeout, exited_during_health, not_healthy, stop_cancelled, still_waiting, out_of_rounds,
}
use runed.Backend.Host.{
  Host, Sys, M, call, get, modify, act, pure, ◌>>=◌, ◌>>◌, watch_child, spawned, terminated, killed,
  PortEvent, port_line, scanner_done, ctx_done, port_waiting, PollEvent, poll_scanner_done,
  poll_deadline, poll_tick, poll_waiting, ExitEvent, exit_done, exit_timeout, exit_ctx_done,
}
use runed.Backend.Probe.{is_healthy}

-- The command line of llama-server.
unfoldable pub server_args : Config → List Bytes
unfolding itoa
server_args cfg =
    text "--model"
    ∷ cfg.model_path
    ∷ text "--embeddings"
    ∷ text "--pooling"
    ∷ text "last"
    ∷ text "--ctx-size"
    ∷ itoa cfg.ctx_size
    ∷ text "--cache-ram"
    ∷ text "0"
    ∷ text "--no-repack"
    ∷ text "--parallel"
    ∷ text "1"
    ∷ text "--batch-size"
    ∷ text "256"
    ∷ text "--ubatch-size"
    ∷ text "256"
    ∷ text "--cache-type-k"
    ∷ text "q8_0"
    ∷ text "--cache-type-v"
    ∷ text "q8_0"
    ∷ text "--host"
    ∷ cfg.host
    ∷ text "--port"
    ∷ text "0"
    ∷ []

-- 15 s in rounds of at least 200 ms, and the round that meets the deadline.
abbrev pub poll_rounds : ℕ
poll_rounds = 76

module _ (H : Host) where
  unfoldable pub reap : ℕ → M H (Unit {0})
  unfolding watch_child
  reap pid = modify H (watch_child pid)

  -- The select after SIGTERM.
  unfoldable pub finish_stop : ℕ → ExitEvent → M H (Option BackendError)
  unfolding reap
  finish_stop pid exit_done = do reap pid; pure none
  finish_stop pid exit_timeout = do act H (killed pid); reap pid; pure none
  finish_stop pid exit_ctx_done = do act H (killed pid); reap pid; pure (some stop_cancelled)

  unfoldable pub stop_child : Bool → Option ℕ → M H (Option BackendError)
  stop_child cancellable none = pure none
  stop_child cancellable (some pid) = do
    modify H (λ b. record b { stopping = true })
    act H (terminated pid)
    ev ← call H (H.await_exit pid cancellable)
    result ← finish_stop pid ev
    modify H (λ b. record b { stopping = false })
    pure result

  -- The flag says whether the caller's context can be cancelled.
  unfoldable pub stop_locked : Bool → M H (Option BackendError)
  stop_locked cancellable = do b ← get H; stop_child cancellable b.cmd

  -- The select between two health checks; `rest` is the rest of the loop.
  unfoldable pub poll_step : ℕ → M H (Option BackendError) → PollEvent → M H (Option BackendError)
  unfolding reap
  poll_step pid rest poll_scanner_done = do reap pid; pure (some exited_during_health)
  poll_step pid rest poll_deadline = do _ ← stop_locked false; pure (some not_healthy)
  poll_step pid rest poll_tick = rest
  poll_step pid rest poll_waiting = pure (some still_waiting)

  -- The health poll, with the rounds that are left and the time of its deadline.
  unfoldable pub health_poll : ℕ → ℕ → ℕ → M H (Option BackendError)
  health_poll zero pid deadline = pure (some out_of_rounds)
  health_poll (suc rounds) pid deadline = do
    healthy ← is_healthy H
    if healthy then pure none else (do
      ev ← call H (H.await_poll pid deadline)
      poll_step pid (health_poll rounds pid deadline) ev)

  -- The select for the port.
  unfoldable pub await_ready : ℕ → PortEvent → M H (Option BackendError)
  await_ready pid (port_line p) = do
    modify H (λ b. record b { port = p })
    t ← call H H.now
    health_poll poll_rounds pid (t + 15000 * 1000000)
  await_ready pid scanner_done = do reap pid; pure (some exited_before_ready)
  await_ready pid ctx_done = do _ ← stop_locked false; pure (some port_timeout)
  await_ready pid port_waiting = pure (some still_waiting)

  unfoldable pub launch : Option ℕ → M H (Option BackendError)
  launch none = pure (some start_failed)
  launch (some pid) = do
    modify H (λ b. record b { cmd = some pid; port = 0; state = child_running })
    act H (spawned pid)
    ev ← call H (H.await_port pid)
    await_ready pid ev

  unfoldable pub start_locked : M H (Option BackendError)
  start_locked = do
    piped ← call H H.open_pipe
    b ← get H
    if piped
        then (do pid ← call H (H.start_cmd (server_args b.cfg) b.cfg); launch pid)
        else pure (some stderr_pipe)
