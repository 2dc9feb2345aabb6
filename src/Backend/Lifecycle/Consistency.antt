-- ===== src/Backend/Lifecycle/Consistency.antt =====
-- A present command is marked as running, through every operation.
use runed.Prelude.{Bool, true, ◌≡◌, refl, arith, List, [], ◌∷◌}
use runed.Prelude.{is_some, Option-cases, inl, inr, subst, sym, ap}
use runed.Backend.Types.{LlamaBackend, child_running}
use runed.Backend.Host.{
  Host, Sys, call, lock_wait, watch_child, apply_event, apply_events, Background, exited,
  noted_alive,
}
use runed.Backend.Keeps.{Keeps, Primitive}
use runed.Backend.Child.Invariant.{start_locked-keeps}
use runed.Backend.Lifecycle.{start, ensure_started, stop, stop_held}
use runed.Backend.Lifecycle.Invariant.{ensure_started-keeps}
use runed.Backend.Lifecycle.Suspend.{stop_held_down, stop_held_suspends}

-- While the backend has a command, its state is `childRunning`.
abbrev pub IsConsistent : LlamaBackend → Type 0
IsConsistent b = is_some b.cmd ≡ true → b.state ≡ child_running

apply_events-IsConsistent :
    (es : List Background) (b : LlamaBackend) → IsConsistent b → IsConsistent (apply_events es b)
unfolding apply_events apply_event watch_child
apply_events-IsConsistent [] b h = h
apply_events-IsConsistent (exited pid ∷ es) b h =
    apply_events-IsConsistent es (watch_child pid b) (ground arith)
apply_events-IsConsistent (noted_alive t ∷ es) b h =
    apply_events-IsConsistent es (record b { last_alive = t }) h

module _ (H : Host) where
  abbrev pub Consistent : Sys H → Type 0
  Consistent s = IsConsistent s.backend

  Consistent-Primitive : Primitive H Consistent (λ _. Unit {0})
  unfolding call watch_child
  Consistent-Primitive = record {
    calls = λ f s h. apply_events-IsConsistent (f s.world).events s.backend h;
    alive = λ t s h. h;
    probes = λ t a s h. h;
    ports = λ p s h. h;
    flags = λ f s h. h;
    reaps = λ pid s h. ground arith;
    running = λ s pid h e. tt;
    fresh = λ args cfg w pid e. tt;
    launches = λ pid safe s h e. refl;
    spawns = λ pid safe s h. h;
    terminates = λ pid safe s h. h;
    kills = λ pid safe s h. h;
  }

  stop_held-Consistent : (c : Bool) → Keeps H Consistent (stop_held H c)
  stop_held-Consistent c s h = elim (Option-cases s.backend.cmd) [
    | inl e ↦ subst Consistent (sym (ap (λ r. r.1) (stop_held_down H c s e))) h
    | inr (pid, e) ↦ (let gone = (stop_held_suspends H c s pid e).0 in ground arith)
  ]

  -- Start, EnsureStarted and Stop keep it, if the goroutines that run during a wait for a lock do.
  operations-Consistent :
      Keeps H Consistent (lock_wait H)
      → (c : Bool) (s : Sys H) → Consistent s
      → Consistent (start H s).1 × Consistent (ensure_started H s).1 × Consistent (stop H c s).1
  unfolding start stop
  operations-Consistent others c s h = (
    start_locked-keeps H Consistent _ Consistent-Primitive _ (others s h),
    ensure_started-keeps H Consistent _ Consistent-Primitive others s h,
    stop_held-Consistent c _ (others s h),
  )
