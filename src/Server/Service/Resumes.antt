-- ===== src/Server/Service/Resumes.antt =====
-- A request after an idle suspend: the service, the backend and its child together.
use runed.Prelude.{
  ℕ, ◌+◌, ◌≡◌, refl, ap, suc, arith, Bool, true, Option, none, List, [], ◌∷◌, Bytes, ok,
}
use runed.Route.Floats.{Floats}
use runed.Route.Set.{CentroidSet}
use runed.Backend.Types.{LlamaBackend, serving_ok}
use runed.Backend.Host.{
  Host, Sys, call, lock_wait, apply_event, apply_events, watch_child, Background, exited,
  noted_alive,
}
use runed.Backend.Keeps.{Primitive}
use runed.Backend.Child.Invariant.{stop_locked-keeps}
use runed.Backend.Lifecycle.{stop, stop_held, ensure_started, serving}
use runed.Backend.Lifecycle.Suspend.{stop-serving}
use runed.Backend.Lifecycle.Resume.{
  IsWilling, Running, lock_alone, ensure_started-Running, embed_answered, serving-Running,
}
use runed.Backend.Embed.{Json}
use runed.Server.Types.{Server}
use runed.Server.Embed.{
  admit, respond, attempt, after_ensure, after_run, serve_admitted, map_result, embed,
}
use runed.Server.Service.{llama_embedder}

apply_events_started :
    (es : List Background) (b : LlamaBackend) → (apply_events es b).started ≡ b.started
unfolding apply_events apply_event watch_child
apply_events_started [] b = refl
apply_events_started (exited pid ∷ es) b =
    ground (arith, apply_events_started es (watch_child pid b))
apply_events_started (noted_alive t ∷ es) b = apply_events_started es (record b { last_alive = t })

module _ (H : Host) where
  -- Start was called.
  abbrev pub Started : Sys H → Type 0
  Started s = s.backend.started ≡ true

  Started-Primitive : Primitive H Started (λ _. Unit {0})
  unfolding call watch_child
  Started-Primitive = record {
    calls = λ f s h. ground (arith, apply_events_started (f s.world).events s.backend);
    alive = λ t s h. h;
    probes = λ t a s h. h;
    ports = λ p s h. h;
    flags = λ f s h. h;
    reaps = λ pid s h. ground arith;
    running = λ s pid h e. tt;
    fresh = λ args cfg w pid e. tt;
    launches = λ pid safe s h. h;
    spawns = λ pid safe s h. h;
    terminates = λ pid safe s h. h;
    kills = λ pid safe s h. h;
  }

  stop_held-Started : (c : Bool) (s : Sys H) → Started s → Started (stop_held H c s).1
  unfolding stop_held
  stop_held-Started c s h = ground (arith, stop_locked-keeps H Started _ Started-Primitive c s h)

module _ (F : Floats) (H : Host) (json : Json F.F32) (port : ℕ) (vector : List F.F32)
    (W : IsWilling H json port vector) where
  stop_down :
      (c : Bool) (t : Sys H)
      → Started H t
      → let r = (stop H c t).1 in Started H r × (r.backend.cmd ≡ none)
  unfolding stop
  stop_down c t h = ground (
    arith,
    lock_alone H json port vector W t,
    stop_held-Started H c (lock_wait H t).1,
    stop-serving H c t,
  )

  attempt_resumes :
      (text : Bytes) (n : ℕ) (t : Sys H)
      → Started H t
      → t.backend.cmd ≡ none
      → let E = llama_embedder H json in
        let r = attempt E (E.embed text) (suc n) t in
        (r.0 ≡ ok vector) × Running H json port vector W r.1
  unfolding attempt after_ensure after_run
  attempt_resumes text n t h e =
      let u = (ensure_started H t).1 in
      ground (
        arith,
        ensure_started-Running H json port vector W t h e,
        embed_answered H json port vector W text u,
      )

  -- If Start has been called, and the system can start a child that answers, with no interference of
  -- other goroutines: a request of Embed after Stop that passes the guards starts a child, and is
  -- answered with the vector that the child gives, routed by the set that was admitted; Serving then
  -- reports a healthy backend, and the request is counted.
  pub embed_resumes :
      (c : Bool) (text : Bytes) (with_route : Bool) (s : Server F.F32) (t : Sys H)
      (route : Option (CentroidSet F.F32))
      → admit with_route s ≡ ok route
      → Started H t
      → let r = embed F (llama_embedder H json) text with_route s (stop H c t).1 in
        (r.0 ≡ ok (respond F route vector))
        × (r.1.requests ≡ s.requests + 1)
        × ((serving H r.2).0 ≡ serving_ok)
  unfolding embed serve_admitted
  embed_resumes c text with_route s t route a h =
      let (started, gone) = stop_down c t h in
      let (answer, running) = attempt_resumes text 1 (stop H c t).1 started gone in
      rw a (
        ap (map_result F (llama_embedder H json) (respond F route)) answer,
        refl,
        serving-Running H json port vector W _ running,
      )
