-- ===== src/Daemon/Run/Ends.antt =====
-- How every run of the daemon ends.
use runed.Prelude.{
  ℕ, ltb, ◌≡◌, ◌⊎◌, inl, inr, refl, ap, ◌∙◌, subst, arith, Bool, true, false, List, [], ◌∷◌, ◌++◌,
  append_assoc, append-nil, Option, none, some, Bytes, All, Bool-cases, Result, ok, err, is_empty,
  ◌||◌,
}
use runed.Bootstrap.Layout.{Paths, LayoutError, resolve, ensure_dirs}
use runed.Daemon.Run.Meanwhile.{
  own, is_stop, Unstarted, Ticked, Calm, ending, All-append, own-append, own-Calm, Ticked-append,
  Calm-idle, own-happened, happened-idle, happened-Unstarted, own-past, own-wind_down,
  wind_down-idle, wind_down-Unstarted,
}
use runed.Daemon.Run.{
  another_daemon_reachable, Event, Background, start_backend, listen, restore_centroids, serve_rpcs,
  watch_socket, wait_exit, remove_socket, bootstrap, hash_model, set_backend, idle_ticker, Outcomes,
  Run, RunError, serve, idle_timeout, model_hash, backend_start, bootstrap_failed, Trigger,
  signalled, shutdown_rpc, serve_ended, after, exit_of, evicted, happened, wind_down, bail_boot,
  await_exit, with_idle, with_model, with_binaries, with_bootstrap, boot, listening, cleared,
  with_paths, with_dirs, unless_running, run, sha256_file,
}

abbrev pub is_listen : Event → Bool
is_listen (listen path) = true
is_listen e = false

abbrev pub Unstopped : List Event → Type 0
Unstopped es = All (λ e. is_stop e ≡ false) es

module _ (sha256 : Bytes → Bytes) (o : Outcomes) where
  abbrev pub Exits : Run → Type 0
  Exits r =
      (r.exit ≡ none)
      ⊎ ((e : RunError) × (r.exit ≡ some e) × ((e ≡ serve) ⊎ (evicted (o.booting e) ≡ false)))

  -- The acts of run itself end with the shutdown, the stop of gRPC and, where a child was started, by run
  -- or by a handler, its stop; none of these comes earlier among them; the idle ticker stops a child only
  -- once it runs; and an error is that of Serve, or of a boot that was not evicted.
  abbrev pub WindsDown : Run → Type 0
  WindsDown r =
      ((before : List Event) × (backend : Bool) × (own r.events
          ≡ before ++ ending o.drained backend)
        × Unstopped before
        × ((backend ≡ true) ⊎ Unstarted r.events))
      × Ticked r.events
      × Exits r

  -- As above, with a backend that is stopped.
  abbrev StopsBackend : Run → Type 0
  StopsBackend r =
      ((before : List Event) × (own r.events ≡ before ++ ending o.drained true) × Unstopped before)
      × Ticked r.events
      × Exits r

  forget : (r : Run) → StopsBackend r → WindsDown r
  forget r ((before, e, q), t, x) = ((before, true, e, q, inl refl), t, x)

  Calm-Unstopped : (es : List Event) → Calm es → Unstopped es
  Calm-Unstopped [] h = tt
  Calm-Unstopped (e ∷ es) h = (ground arith, Calm-Unstopped es h.1)

  own-after :
      (es before rest end : List Event)
      → Calm es
      → own rest ≡ before ++ end
      → own (es ++ rest) ≡ (es ++ before) ++ end
  own-after es before rest end h e =
      own-append es rest ∙ rw (own-Calm es h, e, append_assoc es before end) refl

  after-StopsBackend :
      (es : List Event) (r : Run) → Calm es → StopsBackend r → StopsBackend (after es r)
  after-StopsBackend es r h ((before, e, q), t, x) = (
    (
      es ++ before,
      own-after es before r.events (ending o.drained true) h e,
      All-append _ es before (Calm-Unstopped es h) q,
    ),
    Ticked-append es r.events (Calm-idle es h) t,
    x,
  )

  after-WindsDown :
      (es : List Event) (r : Run) → Calm es → Unstarted es → WindsDown r → WindsDown (after es r)
  after-WindsDown es r h k ((before, backend, e, q, b), t, x) = (
    (
      es ++ before,
      backend,
      own-after es before r.events (ending o.drained backend) h e,
      All-append _ es before (Calm-Unstopped es h) q,
      elim b [ inl t ↦ inl t | inr u ↦ inr (All-append _ es r.events k u) ],
    ),
    Ticked-append es r.events (Calm-idle es h) t,
    x,
  )

  -- What happens meanwhile, and then the end.
  own-happened_end :
      (served ticking backend : Bool) (bs : List Background)
      → own (happened served ticking bs ++ wind_down o served ticking backend)
        ≡ ending o.drained backend
  own-happened_end served ticking backend bs =
      own-past (happened served ticking bs) _ (own-happened served ticking bs)
      ∙ own-wind_down o served ticking backend

  -- Without the idle ticker.
  end_Ticked :
      (served backend : Bool) (bs : List Background)
      → Ticked (happened served false bs ++ wind_down o served false backend)
  end_Ticked served backend bs =
      Ticked-append _ _ (happened-idle served bs)
        (subst Ticked (append-nil _) (Ticked-append _ [] (wind_down-idle o served backend) tt))

  bail_boot-Exits : (e : RunError) (served backend : Bool) → Exits (bail_boot o served backend e)
  unfolding bail_boot
  bail_boot-Exits e served backend = elim (Bool-cases (evicted (o.booting e))) [
    | inl q ↦ inl (rw q refl)
    | inr q ↦ inr (e, rw q refl, inr q)
  ]

  bail_boot-StopsBackend : (served : Bool) (e : RunError) → StopsBackend (bail_boot o served true e)
  unfolding bail_boot
  bail_boot-StopsBackend served e = (
    ([], own-happened_end served false true (o.booting e), tt),
    end_Ticked served true (o.booting e),
    bail_boot-Exits e served true,
  )

  bail_boot-WindsDown : (e : RunError) → WindsDown (bail_boot o false false e)
  unfolding bail_boot
  bail_boot-WindsDown e = (
    (
      [],
      false,
      own-happened_end false false false (o.booting e),
      tt,
      inr (All-append _ _ _ (happened-Unstarted false (o.booting e)) (wind_down-Unstarted o false)),
    ),
    end_Ticked false false (o.booting e),
    bail_boot-Exits e false false,
  )

  exit_of-cases :
      (t : Trigger) → (exit_of t ≡ none) ⊎ ((e : RunError) × (exit_of t ≡ some e) × (e ≡ serve))
  exit_of-cases signalled = inl refl
  exit_of-cases shutdown_rpc = inl refl
  exit_of-cases (serve_ended true) = inr (serve, refl, refl)
  exit_of-cases (serve_ended false) = inl refl

  await_exit-Exits : (ticking : Bool) → Exits (await_exit o ticking)
  unfolding await_exit
  await_exit-Exits ticking = elim (exit_of-cases o.trigger) [
    | inl e ↦ inl e
    | inr (e, q, s) ↦ inr (e, q, inl s)
  ]

  own-await_exit :
      (ticking : Bool) → own (await_exit o ticking).events ≡ wait_exit ∷ ending o.drained true
  unfolding await_exit
  own-await_exit ticking = ap (λ es. wait_exit ∷ es) (own-happened_end true ticking true o.waiting)

  with_idle-StopsBackend : (t : Option ℕ) → StopsBackend (with_idle o t)
  unfolding with_idle await_exit
  with_idle-StopsBackend none = bail_boot-StopsBackend true idle_timeout
  with_idle-StopsBackend (some t) = elim (Bool-cases (ltb 0 t)) [
    | inl e ↦ rw e (
      (
        idle_ticker t ∷ wait_exit ∷ [],
        ap (λ es. idle_ticker t ∷ es) (own-await_exit true),
        (refl, (refl, tt)),
      ),
      inl (t, refl, ground arith),
      await_exit-Exits true,
    )
    | inr e ↦ rw e (
      (wait_exit ∷ [], own-await_exit false, (refl, tt)),
      inr (refl, end_Ticked true true o.waiting),
      await_exit-Exits false,
    )
  ]

  with_model-WindsDown :
      (bin model : Bytes) (id : Option Bytes) → WindsDown (with_model sha256 o bin model id)
  unfolding with_model
  with_model-WindsDown bin model none = bail_boot-WindsDown model_hash
  with_model-WindsDown bin model (some id) =
      let served = after (set_backend id ∷ []) (with_idle o o.idle_timeout) in
      let started = λ (r : Run). after (start_backend bin model ∷ []) r in
      elim (Bool-cases o.starts) [
        | inl e ↦ rw e (
            forget (started served) (
              after-StopsBackend (start_backend bin model ∷ []) served (refl, tt)
                (after-StopsBackend (set_backend id ∷ []) (with_idle o o.idle_timeout) (refl, tt)
                  (with_idle-StopsBackend o.idle_timeout))))
        | inr e ↦ rw e (
            forget (started (bail_boot o false true backend_start)) (
              after-StopsBackend (start_backend bin model ∷ [])
                (bail_boot o false true backend_start) (refl, tt)
                (bail_boot-StopsBackend false backend_start)))
      ]

  with_binaries-WindsDown : (bin model : Bytes) → WindsDown (with_binaries sha256 o bin model)
  unfolding with_binaries
  with_binaries-WindsDown bin model =
      after-WindsDown (_ ∷ hash_model model ∷ [])
        (with_model sha256 o bin model (sha256_file sha256 (o.read_file model))) (refl, (refl, tt))
        (refl, (refl, tt)) (with_model-WindsDown bin model (sha256_file sha256 (o.read_file model)))

  with_bootstrap-WindsDown : (r : Option (Bytes × Bytes)) → WindsDown (with_bootstrap sha256 o r)
  unfolding with_bootstrap
  with_bootstrap-WindsDown none = bail_boot-WindsDown bootstrap_failed
  with_bootstrap-WindsDown (some (bin, model)) = with_binaries-WindsDown _ _

  boot-WindsDown : WindsDown (boot sha256 o)
  unfolding boot
  boot-WindsDown = elim (Bool-cases (is_empty o.llama_server || is_empty o.model)) [
    | inl e ↦ rw e (
        after-WindsDown (_ ∷ bootstrap (is_empty o.llama_server) (is_empty o.model) ∷ [])
          (with_bootstrap sha256 o (o.self_bootstrap (is_empty o.llama_server) (is_empty o.model)))
          (refl, (refl, tt)) (refl, (refl, tt))
          (with_bootstrap-WindsDown
            (o.self_bootstrap (is_empty o.llama_server) (is_empty o.model))))
    | inr e ↦ rw e (with_binaries-WindsDown o.llama_server o.model)
  ]

  -- A run that never listened, and started no backend.
  abbrev pub NeverListened : Run → Type 0
  NeverListened r = All (λ e. is_listen e ≡ false) r.events × Unstarted r.events

  listening-Ends :
      (path : Bytes) → NeverListened (listening sha256 o path) ⊎ WindsDown (listening sha256 o path)
  unfolding listening
  listening-Ends path = elim (Bool-cases o.listens) [
    | inl e ↦ rw e (
        inr (
          after-WindsDown (restore_centroids ∷ listen path ∷ serve_rpcs ∷ watch_socket ∷ [])
            (boot sha256 o) (refl, (refl, (refl, (refl, tt)))) (refl, (refl, (refl, (refl, tt))))
            boot-WindsDown))
    | inr e ↦ rw e (inl ((refl, tt), (refl, tt)))
  ]

  cleared-Ends :
      (path : Bytes) → NeverListened (cleared sha256 o path) ⊎ WindsDown (cleared sha256 o path)
  unfolding cleared
  cleared-Ends path = elim (Bool-cases (o.stale path)) [
    | inl e ↦ elim (Bool-cases o.removed) [
      | inl f ↦ elim (listening-Ends path) [
        | inl (a, b) ↦ rw (e, f) (inl ((refl, a), (refl, b)))
        | inr w ↦
            rw (e, f)
              (inr (
                after-WindsDown (remove_socket path ∷ []) (listening sha256 o path) (refl, tt)
                  (refl, tt) w))
      ]
      | inr f ↦ rw (e, f) (inl (tt, tt))
    ]
    | inr e ↦ rw e (listening-Ends path)
  ]

  unless_running-Ends :
      (path : Bytes)
      → NeverListened (unless_running sha256 o path) ⊎ WindsDown (unless_running sha256 o path)
  unfolding unless_running
  unless_running-Ends path = elim (Bool-cases (another_daemon_reachable (o.dial path))) [
    | inl e ↦ rw e (inl (tt, tt))
    | inr e ↦ rw e (cleared-Ends path)
  ]

  with_dirs-Ends :
      (p : Paths) (q : Result LayoutError (Unit {0}))
      → NeverListened (with_dirs sha256 o p q) ⊎ WindsDown (with_dirs sha256 o p q)
  unfolding with_dirs
  with_dirs-Ends p (err e) = inl (tt, tt)
  with_dirs-Ends p (ok u) = unless_running-Ends _

  with_paths-Ends :
      (q : Result LayoutError Paths)
      → NeverListened (with_paths sha256 o q) ⊎ WindsDown (with_paths sha256 o q)
  unfolding with_paths
  with_paths-Ends (err e) = inl (tt, tt)
  with_paths-Ends (ok p) = with_dirs-Ends p (ensure_dirs o.mkdir_all p)

  -- However the steps of a boot turn out, whatever the other goroutines do meanwhile, and whatever ends
  -- the wait: the acts of the goroutine of a run that listened on its socket end with TriggerShutdown, then
  -- GracefulStop, a forced stop if that is not done in time, and then, if it or a handler started a child,
  -- the stop of the backend, and none of these is among its earlier acts. Before, it may be that the
  -- watchdog or the Shutdown RPC triggers the shutdown, and, only once it runs for a positive timeout, that
  -- the idle ticker stops a child. The error that run returns, if any, is that of Serve, or of a step at
  -- which the daemon had not been evicted. Every other run started no child.
  pub run-ends : NeverListened (run sha256 o) ⊎ WindsDown (run sha256 o)
  unfolding run
  run-ends = with_paths-Ends (resolve o.home_env o.abs o.user_home)
