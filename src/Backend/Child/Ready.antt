-- ===== src/Backend/Child/Ready.antt =====
-- The health poll ends, and a start that returns no error ends with a healthy child.
use runed.Prelude.{ℕ, zero, suc, ◌+◌, ◌*◌, ◌≤◌, ◌<◌, true, Option, none, some, ◌≡◌, refl}
use runed.Prelude.{◌≢◌, arith, List, [], ◌∷◌, Bool-cases, inl, inr, ◌⊎◌, ap, ◌∙◌, Bytes}
use runed.Backend.Types.{BackendError, still_waiting, out_of_rounds, quick_probe_timeout}
use runed.Backend.Host.{
  Host, Sys, M, call, Action, probed, PortEvent, port_line, scanner_done, ctx_done, port_waiting,
  PollEvent, poll_scanner_done, poll_deadline, poll_tick, poll_waiting,
}
use runed.Backend.Probe.{note_alive, probe_healthy, is_healthy}
use runed.Backend.Child.{poll_step, health_poll, await_ready, launch, start_locked}

-- What the selects and the clock guarantee: the clock is not set back by a call, and the select of
-- the health poll takes the tick only if the deadline has not passed, 200 ms later.
pub record IsTimely (H : Host) : Type 0 where
  pub time : H.World → ℕ
  pub now_reads : (w : H.World) → ((H.now w).value ≡ time w) × (time w ≤ time (H.now w).world)
  pub probe_forward :
      (host : Bytes) (port d : ℕ) (w : H.World) → time w ≤ time (H.get_health host port d w).world
  pub tick :
      (pid deadline : ℕ) (w : H.World)
      → (H.await_poll pid deadline w).value ≡ poll_tick
      → (time w < deadline) × (time w + 200 * 1000000 ≤ time (H.await_poll pid deadline w).world)

abbrev pub last_action : List Action → Option Action
last_action [] = none
last_action (a ∷ rest) = some a

abbrev pub Outcome : Host → Type 0
Outcome H = Option BackendError × Sys H

-- It still waits for the port or for the end of the child; or the loop came to its own end, and
-- without an error its last act was a successful probe.
abbrev pub Settled : {H : Host} → Outcome H → Type 0
Settled r =
    (r.0 ≡ some still_waiting)
    ⊎ ((r.0 ≢ some out_of_rounds)
        × ((r.0 ≢ none) ⊎ (last_action r.1.trace ≡ some (probed quick_probe_timeout true))))

module _ (H : Host) where
  pub is_healthy_trace :
      (s : Sys H)
      → (is_healthy H s).1.trace ≡ probed quick_probe_timeout (is_healthy H s).0 ∷ s.trace
  unfolding is_healthy probe_healthy note_alive call
  is_healthy_trace s = ground arith

  poll_step-Settled :
      (pid : ℕ) (rest : M H (Option BackendError)) (ev : PollEvent) (s : Sys H)
      → ((ev ≢ poll_tick) ⊎ Settled (rest s))
      → Settled (poll_step H pid rest ev s)
  unfolding poll_step
  poll_step-Settled pid rest poll_scanner_done s h = inr (λ e. cc, inl (λ e. cc))
  poll_step-Settled pid rest poll_deadline s h = inr (λ e. cc, inl (λ e. cc))
  poll_step-Settled pid rest poll_tick s (inl e) = absurd (e refl)
  poll_step-Settled pid rest poll_tick s (inr k) = k
  poll_step-Settled pid rest poll_waiting s h = inl refl

tick_cases : (ev : PollEvent) → (ev ≡ poll_tick) ⊎ (ev ≢ poll_tick)
tick_cases poll_tick = inl refl
tick_cases poll_scanner_done = inr (λ e. cc)
tick_cases poll_deadline = inr (λ e. cc)
tick_cases poll_waiting = inr (λ e. cc)

module _ (H : Host) (T : IsTimely H) where
  probe_healthy_forward :
      (d : ℕ) (s : Sys H) → T.time s.world ≤ T.time (probe_healthy H d s).1.world
  unfolding probe_healthy call
  probe_healthy_forward d s =
      ground (arith, T.probe_forward s.backend.cfg.host s.backend.port d s.world)

  is_healthy_forward : (s : Sys H) → T.time s.world ≤ T.time (is_healthy H s).1.world
  unfolding is_healthy note_alive call
  is_healthy_forward s =
      let r = (probe_healthy H quick_probe_timeout s).1 in
      ground (arith, probe_healthy_forward quick_probe_timeout s, T.now_reads r.world)

  healthy_last :
      (s : Sys H)
      → (is_healthy H s).0 ≡ true
      → last_action (is_healthy H s).1.trace ≡ some (probed quick_probe_timeout true)
  healthy_last s e =
      ap last_action (is_healthy_trace H s) ∙ ap (λ b. some (probed quick_probe_timeout b)) e

  -- With a round for each 200 ms to the deadline and one more, the poll does not run out of rounds.
  health_poll-Settled :
      (rounds pid deadline : ℕ) (s : Sys H)
      → deadline ≤ T.time s.world + rounds * (200 * 1000000)
      → Settled (health_poll H (suc rounds) pid deadline s)
  unfolding health_poll call
  health_poll-Settled zero pid deadline s h = elim (Bool-cases (is_healthy H s).0) [
    | inl e ↦ rw e (inr (λ q. cc, inr (healthy_last s e)))
    | inr e ↦
        (let w = (is_healthy H s).1.world in
          rw e (
            poll_step-Settled H pid _ _ _
              (inl (λ q. absurd (omega (arith, T.tick pid deadline w q, is_healthy_forward s))))))
  ]
  health_poll-Settled (suc rounds) pid deadline s h = elim (Bool-cases (is_healthy H s).0) [
    | inl e ↦ rw e (inr (λ q. cc, inr (healthy_last s e)))
    | inr e ↦
        (let w = (is_healthy H s).1.world in
          rw e (
            poll_step-Settled H pid _ _ _ (elim (tick_cases (H.await_poll pid deadline w).value) [
              | inl q ↦ inr (
                  health_poll-Settled rounds pid deadline _
                    (omega (arith, T.tick pid deadline w q, is_healthy_forward s)))
              | inr q ↦ inl q
            ])))
  ]

  await_ready-Settled : (pid : ℕ) (ev : PortEvent) (s : Sys H) → Settled (await_ready H pid ev s)
  unfolding await_ready call
  await_ready-Settled pid (port_line p) s =
      health_poll-Settled 75 pid _ _ (omega (arith, T.now_reads s.world))
  await_ready-Settled pid scanner_done s = inr (λ e. cc, inl (λ e. cc))
  await_ready-Settled pid ctx_done s = inr (λ e. cc, inl (λ e. cc))
  await_ready-Settled pid port_waiting s = inl refl

  launch-Settled : (cmd : Option ℕ) (s : Sys H) → Settled (launch H cmd s)
  unfolding launch
  launch-Settled none s = inr (λ e. cc, inl (λ e. cc))
  launch-Settled (some pid) s = await_ready-Settled pid _ _

  -- If no call sets the clock back, a child that is killed ends, and the select of the health poll takes its tick only while the
  -- deadline has not passed and 200 ms later: startLocked still waits, without a timeout, for the port
  -- or for the child to end after its log; or its health poll is over within 76 rounds, and if it
  -- returns no error, its last act is a probe of the child that succeeded.
  pub start_locked-Settled : (s : Sys H) → Settled (start_locked H s)
  unfolding start_locked
  start_locked-Settled s = elim (Bool-cases (call H H.open_pipe s).0) [
    | inl e ↦ rw e (launch-Settled _ _)
    | inr e ↦ rw e (inr (λ q. cc, inl (λ q. cc)))
  ]
