-- ===== src/Backend/Lifecycle/Resume.antt =====
-- A backend whose child is suspended, or gone, starts one for the next embedding and answers it.
use runed.Prelude.{
  ℕ, suc, true, false, none, some, ◌≡◌, refl, ◌≢◌, arith, List, [], ◌∷◌, is_some, Bytes, text, ok,
}
use runed.Backend.Types.{LlamaBackend, Config, serving_ok, child_running, quick_probe_timeout}
use runed.Backend.Host.{
  Host, Sys, Reply, call, lock_wait, apply_events, port_line, response, spawned, posted,
}
use runed.Backend.Probe.{note_alive, probe_healthy, is_healthy}
use runed.Backend.Child.{health_poll, await_ready, launch, start_locked, server_args}
use runed.Backend.Lifecycle.{ensure_held, ensure_started, serving}
use runed.Backend.Embed.{
  Json, EmbedInput, decoded, answered, send, do_json, embed, first_vector, single,
}

abbrev pub Gives : {W A : Type 0} → Reply W A → A → Type 0
Gives r a = (r.value ≡ a) × (r.events ≡ [])

-- Calls without interference, and a child that can be started: it tells `port`, and answers there.
pub record IsWilling {V : Type 0} (H : Host) (json : Json V) (port : ℕ) (vector : List V)
    : Type 0 where
  pub alone : (b : LlamaBackend) (w : H.World) → (H.wait_lock b w).0 ≡ b
  pub now : (w : H.World) → (H.now w).events ≡ []
  pub ctx_err : (w : H.World) → Gives (H.ctx_err w) false
  pub open_pipe : (w : H.World) → Gives (H.open_pipe w) true
  pub start_cmd :
      (args : List Bytes) (cfg : Config) (w : H.World)
      → (pid : ℕ) × Gives (H.start_cmd args cfg w) (some pid)
  pub await_port : (pid : ℕ) (w : H.World) → Gives (H.await_port pid w) (port_line port)
  pub positive : port ≢ 0
  pub get_health : (host : Bytes) (d : ℕ) (w : H.World) → Gives (H.get_health host port d w) true
  pub marshal : (input : EmbedInput) → (body : Bytes) × (json.marshal input ≡ some body)
  pub answer : Bytes
  pub post :
      (host path body : Bytes) (w : H.World)
      → Gives (H.post host port path body w) (response 200 answer)
  pub rest : List (List V)
  pub decode : json.decode answer ≡ some (vector ∷ rest)

module _ {V : Type 0} (H : Host) (json : Json V) (port : ℕ) (vector : List V)
    (W : IsWilling H json port vector) where
  -- The child is there, and its port is known.
  abbrev pub Running : Sys H → Type 0
  Running s = (is_some s.backend.cmd ≡ true) × (s.backend.port ≡ port)

  call_alone :
      {A : Type 0} (f : H.World → Reply H.World A) (a : A) (s : Sys H)
      → Gives (f s.world) a
      → ((call H f s).0 ≡ a) × ((call H f s).1.backend ≡ s.backend)
  unfolding call apply_events
  call_alone f a s h = ground arith

  pub lock_alone : (s : Sys H) → (lock_wait H s).1.backend ≡ s.backend
  lock_alone s = W.alone s.backend s.world

  note_alive-Running : (s : Sys H) → Running s → Running (note_alive H s).1
  unfolding note_alive
  note_alive-Running s h = ground (arith, call_alone H.now _ s (refl, W.now s.world))

  health_at :
      (d : ℕ) (s : Sys H)
      → Running s
      → Gives (H.get_health s.backend.cfg.host s.backend.port d s.world) true
  health_at d s h = rw (h.1) (W.get_health s.backend.cfg.host d s.world)

  probe_answered :
      (d : ℕ) (s : Sys H)
      → Running s
      → ((probe_healthy H d s).0 ≡ true) × Running (probe_healthy H d s).1
  unfolding probe_healthy
  probe_answered d s h = ground (
    arith,
    W.positive,
    call_alone (H.get_health s.backend.cfg.host s.backend.port d) true s (health_at d s h),
  )

  is_healthy-Running :
      (s : Sys H) → Running s → ((is_healthy H s).0 ≡ true) × Running (is_healthy H s).1
  unfolding is_healthy
  is_healthy-Running s h =
      let p = probe_healthy H quick_probe_timeout s in
      ground (arith, probe_answered quick_probe_timeout s h, note_alive-Running p.1)

  health_poll-Running :
      (rounds pid deadline : ℕ) (s : Sys H)
      → Running s
      → let r = health_poll H (suc rounds) pid deadline s in (r.0 ≡ none) × Running r.1
  unfolding health_poll
  health_poll-Running rounds pid deadline s h = ground (arith, is_healthy-Running s h)

  await_ready-Running :
      (pid : ℕ) (s : Sys H)
      → is_some s.backend.cmd ≡ true
      → let r = await_ready H pid (port_line port) s in (r.0 ≡ none) × Running r.1
  unfolding await_ready
  await_ready-Running pid s h =
      let t = record s { backend = record s.backend { port = port } } in
      let u = call H H.now t in
      health_poll-Running 75 pid _ u.1 (ground (arith, call_alone H.now _ t (refl, W.now t.world)))

  launch-Running :
      (pid : ℕ) (s : Sys H) → let r = launch H (some pid) s in (r.0 ≡ none) × Running r.1
  unfolding launch
  launch-Running pid s =
      let b = record s.backend { cmd = some pid; port = 0; state = child_running } in
      let t = record s { backend = b; trace = spawned pid ∷ s.trace } in
      let u = call H (H.await_port pid) t in
      ground (
        arith,
        call_alone (H.await_port pid) (port_line port) t (W.await_port pid t.world),
        await_ready-Running pid u.1,
      )

  start_locked-Running : (s : Sys H) → let r = start_locked H s in (r.0 ≡ none) × Running r.1
  unfolding start_locked
  start_locked-Running s =
      let t = call H H.open_pipe s in
      let args = server_args t.1.backend.cfg in
      let (pid, started) = W.start_cmd args t.1.backend.cfg t.1.world in
      let u = call H (H.start_cmd args t.1.backend.cfg) t.1 in
      ground (
        arith,
        call_alone H.open_pipe true s (W.open_pipe s.world),
        call_alone (H.start_cmd args t.1.backend.cfg) (some pid) t.1 started,
        launch-Running pid u.1,
      )

  pub ensure_started-Running :
      (s : Sys H)
      → s.backend.started ≡ true
      → s.backend.cmd ≡ none
      → let r = ensure_started H s in (r.0 ≡ none) × Running r.1
  unfolding ensure_started ensure_held
  ensure_started-Running s b e =
      let t = (lock_wait H s).1 in
      let u = call H H.ctx_err t in
      ground (
        arith,
        lock_alone s,
        call_alone H.ctx_err false t (W.ctx_err t.world),
        start_locked-Running u.1,
      )

  answered_well :
      (s : Sys H)
      → Running s
      → let r = answered H json (response 200 W.answer) s in
        (r.0 ≡ ok (vector ∷ W.rest)) × Running r.1
  unfolding answered decoded
  answered_well s h = ground (arith, W.decode, note_alive-Running s h)

  send_well :
      (body : Bytes) (s : Sys H)
      → Running s
      → let r = send H json s.backend.cfg.host port (some body) s in
        (r.0 ≡ ok (vector ∷ W.rest)) × Running r.1
  unfolding send
  send_well body s h =
      let t = record s { trace = posted port ∷ s.trace } in
      let f = H.post s.backend.cfg.host port (text "/v1/embeddings") body in
      ground (
        arith,
        call_alone f (response 200 W.answer) t (W.post s.backend.cfg.host _ body t.world),
        answered_well (call H f t).1,
      )

  do_json_well :
      (input : EmbedInput) (s : Sys H)
      → Running s
      → let r = do_json H json input s in (r.0 ≡ ok (vector ∷ W.rest)) × Running r.1
  unfolding do_json
  do_json_well input s h =
      let (body, e) = W.marshal input in ground (arith, W.positive, send_well body s h)

  pub embed_answered :
      (t : Bytes) (s : Sys H)
      → Running s
      → let r = embed H json t s in (r.0 ≡ ok vector) × Running r.1
  unfolding embed first_vector
  embed_answered t s h = ground (arith, lock_alone s, do_json_well (single t) (lock_wait H s).1)

  pub serving-Running : (s : Sys H) → Running s → (serving H s).0 ≡ serving_ok
  unfolding serving
  serving-Running s h = ground (arith, is_healthy-Running s h)
