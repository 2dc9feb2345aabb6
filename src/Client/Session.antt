-- ===== src/Client/Session.antt =====
-- A client of client/client.go from Connect to Close: the calls of Embed and EmbedBatch, Info and Close on
-- the client's connection, and reconnectLocked in the place of the one it had.
pub mod Closed
pub mod Spawning
use runed.Prelude.{
  ℕ, Bool, true, false, List, [], ◌∷◌, Option, none, some, Bytes, text, Result, ok, err, ltb,
  length, if◌then◌else◌,
}
use runed.Server.Wiring.{InfoResponse}
use runed.Client.{Code, Remote, embed, embed_batch}
use runed.Client.Connect.{
  Dialer, Client, Options, Connected, ConnectError, connect, reconnect_locked,
}

-- The generated stub on a named connection. `raced` says whether another goroutine has respawned the
-- daemon and reconnected when the client gets its mutex.
pub record Stub (D : Dialer) (V : Type 0) : Type 0 where
  pub embed : Bytes → Bytes → D.State → Result Code (List V) × D.State
  pub embed_batch : Bytes → List Bytes → D.State → Result Code (List (List V)) × D.State
  pub info : Bytes → D.State → Result Code InfoResponse × D.State
  pub raced : D.State → Bool

pub data Call : Type 0 where
  call_embed : Bytes → Call
  call_embed_batch : List Bytes → Call
  call_info : Call

module _ {V : Type 0} (D : Dialer) (stub : Stub D V) where
  -- A client and the state of the system.
  abbrev pub Held : Type 0
  Held = Client × D.State

  abbrev pub on_conn :
      {A : Type 0} → (Bytes → D.State → Result Code A × D.State) → Held → Result Code A × Held
  on_conn rpc (c, s) = let r = rpc c.conn s in (r.0, (c, r.1))

  unfoldable pub reconnect_outcome : Client → Result ConnectError Client × D.State → Bool × Held
  reconnect_outcome c (ok c', s) = (true, (c', s))
  reconnect_outcome c (err e, s) = (false, (c, s))

  unfoldable pub reconnect : Held → Bool × Held
  unfolding reconnect_outcome
  reconnect (c, s) = reconnect_outcome c (reconnect_locked D c s)

  unfoldable pub ensure : Held → Bool × Held
  ensure (c, s) = let r = D.ensure_daemon c.socket_path s in (r.0, (c, r.1))

  unfoldable pub wait_lock : Held → Held
  unfolding reconnect ensure
  wait_lock h = if stub.raced h.1 then (reconnect (ensure h).1).1 else h

  unfoldable pub remote : Remote V
  unfolding reconnect ensure wait_lock
  remote = record {
    State = Held;
    embed = λ t. on_conn (λ conn. stub.embed conn t);
    embed_batch = λ ts. on_conn (λ conn. stub.embed_batch conn ts);
    wait_lock = wait_lock;
    ensure_daemon = ensure;
    reconnect = reconnect;
  }

  unfoldable pub info : Held → Result Code InfoResponse × Held
  info = on_conn stub.info

  unfoldable pub close : Held → D.State
  close (c, s) = D.close c.conn s

  unfoldable pub run_call : Call → Held → Held
  unfolding remote info
  run_call (call_embed t) h = (embed remote h.0.no_spawn t h).1
  run_call (call_embed_batch ts) h = (embed_batch remote h.0.no_spawn ts h).1
  run_call call_info h = (info h).1

  unfoldable pub run_calls : List Call → Held → Held
  unfolding run_call
  run_calls [] h = h
  run_calls (c ∷ cs) h = run_calls cs (run_call c h)

  unfoldable pub closed : List Call → Connected D → D.State
  unfolding run_calls close
  closed cs (err e, s) = s
  closed cs (ok c, s) = close (run_calls cs (c, s))

  -- Connect, the calls, and Close.
  unfoldable pub session :
      Bool → List (Options → Options) → Option Bytes → List Call → D.State → D.State
  unfolding closed
  session on_windows opts home cs s = closed cs (connect D on_windows opts home s)
