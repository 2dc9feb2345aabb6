-- ===== src/Client/Session/Spawning/Bounded.antt =====
-- How many daemons a client starts.
use runed.Prelude.{
  ℕ, ◌+◌, ◌≤◌, ◌≡◌, refl, ◌∙◌, arith, Bool, true, false, List, [], Bytes, Option, none, some,
  Result, ok, err, if◌then◌else◌,
}
use runed.Spawn.{System}
use runed.Spawn.Launches.{IsCounter}
use runed.Client.Connect.{
  Options, Connected, ConnectError, probed, dialled, dial_and_probe, kept, spawned, after_dial,
  connect_to, connect, apply_options,
}
use runed.Client.Session.{Stub, Call, close, run_calls, closed, session}
use runed.Client.Session.Spawning.{Grpc, dialer}
use runed.Client.Session.Spawning.Budget.{one_more, with_calls, one_more-lem, with_calls-lem}
use runed.Client.Session.Spawning.Calls.{IsAlone, Within, ensured, run_calls-Within}

module _ {V : Type 0} (S : System) (C : IsCounter S) (grpc : Grpc S) (stub : Stub (dialer S grpc) V)
    (A : IsAlone S C grpc stub) where
  -- What Connect returned, with at most `n` processes started.
  abbrev Returned : Bool → ℕ → Connected (dialer S grpc) → Type 0
  Returned b n (ok c, s) = Within S C grpc stub A b n (c, s)
  Returned b n (err e, s) = C.launches s ≤ n

  probed-same :
      (conn path : Bytes) (r : Bool × S.State)
      → C.launches (probed (dialer S grpc) conn path r).1 ≡ C.launches r.1
  unfolding probed
  probed-same conn path (true, s) = refl
  probed-same conn path (false, s) = A.close conn s

  dialled-same :
      (path : Bytes) (r : Option Bytes × S.State)
      → C.launches (dialled (dialer S grpc) path r).1 ≡ C.launches r.1
  unfolding dialled
  dialled-same path (none, s) = refl
  dialled-same path (some c, s) = probed-same c path _ ∙ A.health c s

  dial_and_probe-same :
      (path : Bytes) (s : S.State)
      → C.launches (dial_and_probe (dialer S grpc) path s).1 ≡ C.launches s
  unfolding dial_and_probe
  dial_and_probe-same path s = dialled-same path _ ∙ A.new_client _ s

  kept-Returned :
      (b : Bool) (n : ℕ) (r : Connected (dialer S grpc))
      → C.launches r.1 ≤ n
      → Returned b n (kept (dialer S grpc) b r)
  unfolding kept
  kept-Returned b n (ok c, s) h = (refl, h)
  kept-Returned b n (err e, s) h = h

  spawned-Returned :
      (o : Options) (path : Bytes) (n : ℕ) (r : Bool × S.State)
      → C.launches r.1 ≤ n
      → Returned o.no_spawn n (spawned (dialer S grpc) o path r)
  unfolding spawned
  spawned-Returned o path n (false, s) h = h
  spawned-Returned o path n (true, s) h =
      kept-Returned o.no_spawn n _ (omega (arith, dial_and_probe-same path s))

  either-Returned :
      (b : Bool) (n : ℕ) (e : ConnectError) (s : S.State) (q : Connected (dialer S grpc))
      → C.launches s ≤ n
      → Returned b (n + 1) q
      → Returned b (one_more b n) (if b then (err e, s) else q)
  either-Returned true n e s q h k = h
  either-Returned false n e s q h k = k

  after_dial-Returned :
      (o : Options) (path : Bytes) (n : ℕ) (r : Connected (dialer S grpc))
      → C.launches r.1 ≤ n
      → Returned o.no_spawn (one_more o.no_spawn n) (after_dial (dialer S grpc) o path r)
  unfolding after_dial
  after_dial-Returned o path n (ok c, s) h =
      kept-Returned o.no_spawn _ (ok c, s) (omega (arith, one_more-lem o.no_spawn n))
  after_dial-Returned o path n (err e, s) h =
      either-Returned o.no_spawn n e s _ h
        (spawned-Returned o path (n + 1) _ (omega (arith, ensured S C grpc stub A path s)))

  connect_to-Returned :
      (o : Options) (p : Result ConnectError Bytes) (s : S.State)
      → Returned o.no_spawn (one_more o.no_spawn (C.launches s)) (connect_to (dialer S grpc) o p s)
  unfolding connect_to
  connect_to-Returned o (err e) s = one_more-lem o.no_spawn _
  connect_to-Returned o (ok path) s =
      after_dial-Returned o path _ _ (omega (arith, dial_and_probe-same path s))

  closed-launches :
      (cs : List Call) (b : Bool) (n : ℕ) (r : Connected (dialer S grpc))
      → Returned b n r
      → C.launches (closed (dialer S grpc) stub cs r) ≤ with_calls b cs n
  unfolding closed close
  closed-launches cs b n (err e, s) h = omega (arith, with_calls-lem b cs n)
  closed-launches cs b n (ok c, s) h =
      let w = run_calls-Within S C grpc stub A cs b n (c, s) h in
      let done = run_calls (dialer S grpc) stub cs (c, s) in
      omega (arith, w.1, A.close done.0.conn done.1)

  connect-Returned :
      (on_windows : Bool) (opts : List (Options → Options)) (home : Option Bytes) (s : S.State)
      → let o = apply_options opts (record { socket_path = []; no_spawn = false }) in
        Returned o.no_spawn
          (one_more o.no_spawn (C.launches s))
          (connect (dialer S grpc) on_windows opts home s)
  unfolding connect
  connect-Returned true opts home s = one_more-lem _ _
  connect-Returned false opts home s =
      connect_to-Returned (apply_options opts (record { socket_path = []; no_spawn = false })) _ s

  -- A client that one goroutine uses, over EnsureDaemon of the spawn package: Connect starts at most one
  -- process, each call of Embed or EmbedBatch at most one more, and Info and Close none; and with
  -- WithNoSpawn none is started at all.
  pub session_launches :
      (on_windows : Bool) (opts : List (Options → Options)) (home : Option Bytes) (cs : List Call)
      (s : S.State)
      → let o = apply_options opts (record { socket_path = []; no_spawn = false }) in
        C.launches (session (dialer S grpc) stub on_windows opts home cs s)
        ≤ with_calls o.no_spawn cs (one_more o.no_spawn (C.launches s))
  unfolding session
  session_launches w opts home cs s = closed-launches cs _ _ _ (connect-Returned w opts home s)
