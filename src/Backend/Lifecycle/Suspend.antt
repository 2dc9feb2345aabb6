-- ===== src/Backend/Lifecycle/Suspend.antt =====
-- Stop: the child is gone, and Serving tells a suspended child from a failed one.
use runed.Prelude.{ℕ, Bool, true, false, none, some, ◌≡◌, arith, List, [], ◌∷◌}
use runed.Prelude.{is_some, ◌⊎◌, inl, inr, Option-cases, ap}
use runed.Backend.Types.{LlamaBackend, serving_idle}
use runed.Backend.Host.{
  Host, Sys, call, lock_wait, watch_child, apply_event, apply_events, Background, exited,
  noted_alive, ExitEvent, exit_done, exit_timeout, exit_ctx_done,
}
use runed.Backend.Child.{finish_stop, stop_child, stop_locked, reap}
use runed.Backend.Lifecycle.{stop_held, stop, serving, serving_down}

-- The command is this one, or gone and its port with it.
abbrev OwnedOrGone : ℕ → LlamaBackend → Type 0
OwnedOrGone pid b = (b.cmd ≡ some pid) ⊎ ((b.cmd ≡ none) × (b.port ≡ 0))

apply_events-OwnedOrGone :
    (pid : ℕ) (es : List Background) (b : LlamaBackend)
    → OwnedOrGone pid b
    → OwnedOrGone pid (apply_events es b)
unfolding apply_events apply_event watch_child
apply_events-OwnedOrGone pid [] b h = h
apply_events-OwnedOrGone pid (exited p ∷ es) b h =
    apply_events-OwnedOrGone pid es (watch_child p b) (ground arith)
apply_events-OwnedOrGone pid (noted_alive t ∷ es) b h =
    apply_events-OwnedOrGone pid es (record b { last_alive = t }) h

watch_child_gone :
    (pid : ℕ) (b : LlamaBackend)
    → OwnedOrGone pid b
    → ((watch_child pid b).cmd ≡ none) × ((watch_child pid b).port ≡ 0)
unfolding watch_child
watch_child_gone pid b h = ground arith

module _ (H : Host) where
  abbrev Gone : Sys H → Type 0
  Gone s = (s.backend.cmd ≡ none) × (s.backend.port ≡ 0)

  finish_stop-Gone :
      (pid : ℕ) (ev : ExitEvent) (s : Sys H)
      → OwnedOrGone pid s.backend
      → Gone (finish_stop H pid ev s).1
  unfolding finish_stop reap
  finish_stop-Gone pid exit_done s h = watch_child_gone pid s.backend h
  finish_stop-Gone pid exit_timeout s h = watch_child_gone pid s.backend h
  finish_stop-Gone pid exit_ctx_done s h = watch_child_gone pid s.backend h

  stop_child-Gone :
      (c : Bool) (pid : ℕ) (s : Sys H)
      → s.backend.cmd ≡ some pid
      → Gone (stop_child H c (some pid) s).1
  unfolding stop_child call
  stop_child-Gone c pid s e = finish_stop-Gone pid _ _ (apply_events-OwnedOrGone pid _ _ (inl e))

  stop_locked-Gone :
      (c : Bool) (s : Sys H) (pid : ℕ)
      → s.backend.cmd ≡ some pid
      → Gone (stop_locked H c s).1 × ((stop_locked H c s).1.backend.stopping ≡ false)
  unfolding stop_locked stop_child
  stop_locked-Gone c s pid e = ground (arith, stop_child-Gone c pid s e)

  stop_locked_down : (c : Bool) (s : Sys H) → s.backend.cmd ≡ none → stop_locked H c s ≡ (none, s)
  unfolding stop_locked stop_child
  stop_locked_down c s e = ground arith

  -- With a running child: afterwards there is no command and no port, the flag `stopping` is reset,
  -- and Serving reports an idle backend.
  pub stop_held_suspends :
      (c : Bool) (s : Sys H) (pid : ℕ)
      → s.backend.cmd ≡ some pid
      → let t = (stop_held H c s).1 in
        (t.backend.cmd ≡ none)
        × (t.backend.port ≡ 0)
        × (t.backend.stopping ≡ false)
        × ((serving H t).0 ≡ serving_idle)
  unfolding stop_held serving serving_down
  stop_held_suspends c s pid e = ground (arith, stop_locked-Gone c s pid e)

  -- Without one nothing changes, so that a crash is still reported as degraded.
  pub stop_held_down : (c : Bool) (s : Sys H) → s.backend.cmd ≡ none → stop_held H c s ≡ (none, s)
  unfolding stop_held
  stop_held_down c s e = ground (arith, stop_locked_down c s e)

  -- Stop, from the moment when it holds the locks. If there is a child, then after it there is no
  -- command and no port, the flag `stopping` is reset, and Serving reports an idle backend. If
  -- there is none, nothing changes, so that Serving still reports a crash as degraded.
  pub stop-serving :
      (c : Bool) (s : Sys H)
      → let held = (lock_wait H s).1 in
        let t = (stop H c s).1 in
        ((is_some held.backend.cmd ≡ true)
          × (t.backend.cmd ≡ none)
          × (t.backend.port ≡ 0)
          × (t.backend.stopping ≡ false)
          × ((serving H t).0 ≡ serving_idle))
        ⊎ ((held.backend.cmd ≡ none)
            × (t ≡ held)
            × ((serving H t).0 ≡ serving_down held.backend.state))
  unfolding stop serving
  stop-serving c s =
      let held = (lock_wait H s).1 in
      elim (Option-cases held.backend.cmd) [
        | inl e ↦ ground (arith, stop_held_down c held e)
        | inr (pid, e) ↦
            (let gone = stop_held_suspends c held pid e in
              inl (ap is_some e, gone.0, gone.1, gone.2, gone.3))
      ]
