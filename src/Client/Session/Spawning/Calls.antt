-- ===== src/Client/Session/Spawning/Calls.antt =====
-- The calls of a client start at most one process each.
use runed.Prelude.{
  ℕ, ◌+◌, ◌≤◌, ◌≡◌, refl, arith, Bool, false, List, [], ◌∷◌, Bytes, Option, none, some, Result,
}
use runed.Spawn
use runed.Spawn.{System}
use runed.Spawn.Launches.{IsCounter, ensure_daemon-launches}
use runed.Client.{Code, embed, embed_batch}
use runed.Client.Connect.{Client, reconnected, reconnect_locked}
use runed.Client.Session.{
  Stub, on_conn, Call, call_embed, call_embed_batch, call_info, Held, reconnect_outcome, reconnect,
  ensure, wait_lock, remote, info, run_call, run_calls,
}
use runed.Client.Session.Spawning.{Grpc, no_error, dialer}
use runed.Client.Session.Spawning.Budget.{with_call, with_calls, call-Budgeted}

-- The RPCs start no process, and one goroutine uses the client.
pub record IsAlone {V : Type 0} (S : System) (C : IsCounter S) (grpc : Grpc S)
    (stub : Stub (dialer S grpc) V) : Type 0 where
  pub new_client : (t : Bytes) (s : S.State) → C.launches (grpc.new_client t s).1 ≡ C.launches s
  pub health : (c : Bytes) (s : S.State) → C.launches (grpc.health c s).1 ≡ C.launches s
  pub close : (c : Bytes) (s : S.State) → C.launches (grpc.close c s) ≡ C.launches s
  pub embed : (c t : Bytes) (s : S.State) → C.launches (stub.embed c t s).1 ≡ C.launches s
  pub embed_batch :
      (c : Bytes) (ts : List Bytes) (s : S.State)
      → C.launches (stub.embed_batch c ts s).1 ≡ C.launches s
  pub info : (c : Bytes) (s : S.State) → C.launches (stub.info c s).1 ≡ C.launches s
  pub alone : (s : S.State) → stub.raced s ≡ false

module _ {V : Type 0} (S : System) (C : IsCounter S) (grpc : Grpc S) (stub : Stub (dialer S grpc) V)
    (A : IsAlone S C grpc stub) where
  no_error-same : {E : Type 0} (r : Option E × S.State) → C.launches (no_error r).1 ≡ C.launches r.1
  no_error-same (none, s) = refl
  no_error-same (some e, s) = refl

  pub ensured :
      (path : Bytes) (s : S.State)
      → C.launches ((dialer S grpc).ensure_daemon path s).1 ≤ C.launches s + 1
  ensured path s =
      omega (arith, no_error-same (Spawn.ensure_daemon S path s), ensure_daemon-launches S C path s)

  -- A client that may spawn or not, with at most `n` processes started.
  abbrev pub Within : Bool → ℕ → Held (dialer S grpc) stub → Type 0
  Within b n h = (h.0.no_spawn ≡ b) × (C.launches h.1 ≤ n)

  reconnected-Within :
      (b : Bool) (n : ℕ) (c : Client) (r : Option Bytes × S.State)
      → c.no_spawn ≡ b
      → C.launches r.1 ≤ n
      → Within b n (reconnect_outcome (dialer S grpc) stub c (reconnected (dialer S grpc) c r)).1
  unfolding reconnected reconnect_outcome
  reconnected-Within b n c (none, s) e h = (e, h)
  reconnected-Within b n c (some k, s) e h = (e, h)

  reconnect-Within :
      (b : Bool) (n : ℕ) (h : Held (dialer S grpc) stub)
      → Within b n h
      → Within b n (reconnect (dialer S grpc) stub h).1
  unfolding reconnect reconnect_locked
  reconnect-Within b n (c, s) (e, h) =
      reconnected-Within b n c _ e
        (omega (arith, A.new_client _ (grpc.close c.conn s), A.close c.conn s))

  ensure-Within :
      (b : Bool) (n : ℕ) (h : Held (dialer S grpc) stub)
      → Within b n h
      → Within b (n + 1) (ensure (dialer S grpc) stub h).1
  unfolding ensure
  ensure-Within b n (c, s) (e, h) = (e, omega (arith, ensured c.socket_path s))

  wait_lock-Within :
      (b : Bool) (n : ℕ) (h : Held (dialer S grpc) stub)
      → Within b n h
      → Within b n (wait_lock (dialer S grpc) stub h)
  unfolding wait_lock
  wait_lock-Within b n h w = rw (A.alone h.1) w

  on_conn-Within :
      {B : Type 0} (rpc : Bytes → S.State → Result Code B × S.State)
      → ((c : Bytes) (s : S.State) → C.launches (rpc c s).1 ≡ C.launches s)
      → (b : Bool) (n : ℕ) (h : Held (dialer S grpc) stub) → Within b n h
      → Within b n (on_conn (dialer S grpc) stub rpc h).1
  on_conn-Within rpc same b n h w = (w.0, omega (arith, w.1, same h.0.conn h.1))

  more : (b : Bool) (n : ℕ) (h : Held (dialer S grpc) stub) → Within b n h → Within b (n + 1) h
  more b n h w = (w.0, omega (arith, w.1))

  run_call-Within :
      (call : Call) (b : Bool) (n : ℕ) (h : Held (dialer S grpc) stub)
      → Within b n h
      → Within b (with_call b call n) (run_call (dialer S grpc) stub call h)
  unfolding run_call embed embed_batch info remote
  run_call-Within (call_embed t) b n h w =
      call-Budgeted (remote (dialer S grpc) stub)
        (on_conn (dialer S grpc) stub (λ c. stub.embed c t)) Within more
        (on_conn-Within (λ c. stub.embed c t) (λ c. A.embed c t)) wait_lock-Within ensure-Within
        reconnect-Within b n h h.0.no_spawn w.0 w
  run_call-Within (call_embed_batch ts) b n h w =
      call-Budgeted (remote (dialer S grpc) stub)
        (on_conn (dialer S grpc) stub (λ c. stub.embed_batch c ts)) Within more
        (on_conn-Within (λ c. stub.embed_batch c ts) (λ c. A.embed_batch c ts)) wait_lock-Within
        ensure-Within reconnect-Within b n h h.0.no_spawn w.0 w
  run_call-Within call_info b n h w = on_conn-Within stub.info A.info b n h w

  pub run_calls-Within :
      (cs : List Call) (b : Bool) (n : ℕ) (h : Held (dialer S grpc) stub)
      → Within b n h
      → Within b (with_calls b cs n) (run_calls (dialer S grpc) stub cs h)
  unfolding run_calls
  run_calls-Within [] b n h w = w
  run_calls-Within (c ∷ cs) b n h w = run_calls-Within cs b _ _ (run_call-Within c b n h w)
