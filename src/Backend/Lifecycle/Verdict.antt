-- ===== src/Backend/Lifecycle/Verdict.antt =====
-- A child is ended only after failed verdicts.
use runed.Prelude.{ℕ, ◌+◌, ◌≤◌, true, false, none, some, ◌≡◌, refl, ◌≢◌}
use runed.Prelude.{arith, List, [], ◌∷◌, if◌then◌else◌, Option-cases, ap}
use runed.Prelude.{◌⊎◌, inl, inr, ◌==◌, Bytes, ◌∙◌}
use runed.Backend.Types.{
  LlamaBackend, Config, alive_grace, quick_probe_timeout, verdict_probe_timeout,
}
use runed.Backend.Host.{
  Host, Sys, call, lock_wait, watch_child, apply_event, apply_events, Background, exited,
  noted_alive, Action, spawned, terminated, killed, probed, posted,
}
use runed.Backend.Keeps.{Primitive}
use runed.Backend.Probe.{probe_healthy, recently_alive}
use runed.Backend.Child.{start_locked, stop_locked}
use runed.Backend.Child.Invariant.{start_locked-keeps, stop_locked-keeps}
use runed.Backend.Lifecycle.Invariant.{restart_if_dead-keeps}
use runed.Backend.Lifecycle.{
  drained_verdict, restart_if_dead, ensure_running, ensure_held, ensure_started,
}

-- How often this command was sent SIGTERM or killed.
abbrev pub ends : ℕ → List Action → ℕ
ends pid [] = 0
ends pid (terminated p ∷ t) = (if p == pid then 1 else 0) + ends pid t
ends pid (killed p ∷ t) = (if p == pid then 1 else 0) + ends pid t
ends pid (spawned p ∷ t) = ends pid t
ends pid (probed d a ∷ t) = ends pid t
ends pid (posted p ∷ t) = ends pid t

-- How often a probe with this budget failed.
abbrev pub failures : ℕ → List Action → ℕ
failures d [] = 0
failures d (probed e false ∷ t) = (if e == d then 1 else 0) + failures d t
failures d (probed e true ∷ t) = failures d t
failures d (terminated p ∷ t) = failures d t
failures d (killed p ∷ t) = failures d t
failures d (spawned p ∷ t) = failures d t
failures d (posted p ∷ t) = failures d t

-- The system starts no command under the identity of this one.
abbrev pub NeverAgain : Host → ℕ → Type 0
NeverAgain H pid =
    (args : List Bytes) (cfg : Config) (w : H.World) → (H.start_cmd args cfg w).value ≢ some pid

module _ (H : Host) (d n : ℕ) where
  abbrev AtLeast : Sys H → Type 0
  AtLeast s = n ≤ failures d s.trace

  AtLeast-Primitive : Primitive H AtLeast (λ _. Unit {0})
  unfolding call
  AtLeast-Primitive = record {
    calls = λ f s h. h;
    alive = λ t s h. h;
    probes = λ t a s h. ground arith;
    ports = λ p s h. h;
    flags = λ f s h. h;
    reaps = λ pid s h. h;
    running = λ s pid h e. tt;
    fresh = λ args cfg w pid e. tt;
    launches = λ pid safe s h. h;
    spawns = λ pid safe s h. h;
    terminates = λ pid safe s h. h;
    kills = λ pid safe s h. h;
  }

apply_events-other :
    (pid : ℕ) (es : List Background) (b : LlamaBackend)
    → b.cmd ≢ some pid
    → (apply_events es b).cmd ≢ some pid
unfolding apply_events apply_event watch_child
apply_events-other pid [] b h = h
apply_events-other pid (exited p ∷ es) b h =
    apply_events-other pid es (watch_child p b) (ground arith)
apply_events-other pid (noted_alive t ∷ es) b h =
    apply_events-other pid es (record b { last_alive = t }) h

module _ (H : Host) (pid n : ℕ) (never : NeverAgain H pid) where
  abbrev Spared : Sys H → Type 0
  Spared s = (s.backend.cmd ≢ some pid) × (ends pid s.trace ≡ n)

  Spared-Primitive : Primitive H Spared (λ p. p ≢ pid)
  unfolding call watch_child
  Spared-Primitive = record {
    calls = λ f s h. (apply_events-other pid (f s.world).events s.backend h.0, h.1);
    alive = λ t s h. h;
    probes = λ t a s h. h;
    ports = λ p s h. h;
    flags = λ f s h. h;
    reaps = λ p s h. ground arith;
    running = λ s p h e q. h.0 (e ∙ ap some q);
    fresh = λ args cfg w p e q. never args cfg w (e ∙ ap some q);
    launches = λ p safe s h. ground arith;
    spawns = λ p safe s h. h;
    terminates = λ p safe s h. ground arith;
    kills = λ p safe s h. ground arith;
  }

module _ (H : Host) where
  probe_trace :
      (d : ℕ) (s : Sys H)
      → (probe_healthy H d s).1.trace ≡ probed d (probe_healthy H d s).0 ∷ s.trace
  unfolding probe_healthy call
  probe_trace d s = ground arith

  recently_alive_trace : (d : ℕ) (s : Sys H) → (recently_alive H d s).1.trace ≡ s.trace
  unfolding recently_alive call
  recently_alive_trace d s = ground arith

module _ (H : Host) (pid : ℕ) (never : NeverAgain H pid) where
  restart_failures :
      (d : ℕ) (s : Sys H)
      → failures d s.trace ≤ failures d (start_locked H (stop_locked H false s).1).1.trace
  restart_failures d s =
      let prim = AtLeast-Primitive H d (failures d s.trace) in
      start_locked-keeps H _ _ prim _ (stop_locked-keeps H _ _ prim false s (omega arith))

  -- Starting a child ends no child that has left the backend.
  start_spares :
      (s : Sys H) → s.backend.cmd ≡ none → ends pid (start_locked H s).1.trace ≡ ends pid s.trace
  start_spares s e =
      (start_locked-keeps H (Spared H pid (ends pid s.trace) never) _
        (Spared-Primitive H pid (ends pid s.trace) never) s (λ q. cc, refl)).1

  -- After the drain: the child is not ended, or it failed a verdict probe.
  drained_ends :
      (s : Sys H)
      → let t = (drained_verdict H s).1 in
        (ends pid t.trace ≡ ends pid s.trace)
        ⊎ (failures verdict_probe_timeout s.trace + 1 ≤ failures verdict_probe_timeout t.trace)
  unfolding drained_verdict
  drained_ends s = elim (Option-cases s.backend.cmd) [
    | inl e ↦ ground (arith, start_spares s e)
    | inr (p, e) ↦
        (let r = (probe_healthy H verdict_probe_timeout s).1 in
          ground (
            arith,
            probe_trace H verdict_probe_timeout s,
            restart_failures verdict_probe_timeout r,
          ))
  ]

  restart_ends :
      (s : Sys H)
      → let t = (restart_if_dead H s).1 in
        (ends pid t.trace ≡ ends pid s.trace)
        ⊎ (failures verdict_probe_timeout s.trace + 2 ≤ failures verdict_probe_timeout t.trace)
  unfolding restart_if_dead
  restart_ends s =
      let s1 = (lock_wait H s).1 in
      let s2 = (recently_alive H alive_grace s1).1 in
      let s3 = (probe_healthy H verdict_probe_timeout s2).1 in
      ground (
        arith,
        recently_alive_trace H alive_grace s1,
        probe_trace H verdict_probe_timeout s2,
        drained_ends (lock_wait H s3).1,
      )

  restart_quick :
      (s : Sys H)
      → failures quick_probe_timeout s.trace
        ≤ failures quick_probe_timeout (restart_if_dead H s).1.trace
  restart_quick s =
      restart_if_dead-keeps H (AtLeast H quick_probe_timeout (failures quick_probe_timeout s.trace))
        _ (AtLeast-Primitive H quick_probe_timeout (failures quick_probe_timeout s.trace))
        (λ t h. h) s (omega arith)

  ensure_running-ends :
      (s : Sys H)
      → let t = (ensure_running H s).1 in
        (ends pid t.trace ≡ ends pid s.trace)
        ⊎ ((failures quick_probe_timeout s.trace + 1 ≤ failures quick_probe_timeout t.trace)
            × (failures verdict_probe_timeout s.trace + 2 ≤ failures verdict_probe_timeout t.trace))
  unfolding ensure_running
  ensure_running-ends s =
      let s1 = (probe_healthy H quick_probe_timeout s).1 in
      let s2 = (recently_alive H alive_grace s1).1 in
      ground (
        arith,
        probe_trace H quick_probe_timeout s,
        recently_alive_trace H alive_grace s1,
        restart_ends s2,
        restart_quick s2,
      )

  -- EnsureStarted ends a child (sends it SIGTERM, or kills it) only if, in the same call, a probe of
  -- the short budget failed and two of the long one, whatever the other goroutines do meanwhile.
  -- This is said of a child whose identity is not given to a new one.
  pub ensure_started-ends :
      (s : Sys H)
      → let t = (ensure_started H s).1 in
        (ends pid t.trace ≡ ends pid s.trace)
        ⊎ ((failures quick_probe_timeout s.trace + 1 ≤ failures quick_probe_timeout t.trace)
            × (failures verdict_probe_timeout s.trace + 2 ≤ failures verdict_probe_timeout t.trace))
  unfolding ensure_started ensure_held call
  ensure_started-ends s =
      let s1 = (call H H.ctx_err (lock_wait H s).1).1 in
      elim (Option-cases s1.backend.cmd) [
        | inl e ↦ ground (arith, start_spares s1 e)
        | inr (p, e) ↦ ground (arith, ensure_running-ends s1)
      ]
