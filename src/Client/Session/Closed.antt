-- ===== src/Client/Session/Closed.antt =====
-- A client has one connection open, and none after Close.
use runed.Prelude.{
  ◌≡◌, ◌≢◌, ◌⊎◌, inl, inr, arith, Bool, true, false, List, [], ◌∷◌, Option, none, some, Bytes,
  Result, ok, err, if◌then◌else◌, Bool-cases,
}
use runed.Client.{embed, embed_batch}
use runed.Client.Keeps.{call_with_respawn-keeps}
use runed.Client.Connect.{
  Dialer, Client, Options, Connected, ConnectError, probed, dialled, dial_and_probe, kept, spawned,
  after_dial, connect_to, connect, apply_options, reconnected, reconnect_locked,
}
use runed.Client.Session.{
  Stub, on_conn, Call, call_embed, call_embed_batch, call_info, Held, reconnect_outcome, reconnect,
  ensure, wait_lock, remote, info, close, run_call, run_calls, closed, session,
}

-- The connections that are open: NewClient opens one that it returns, Close closes it, and nothing else
-- opens any.
pub record IsLedger {V : Type 0} (D : Dialer) (stub : Stub D V) : Type 0 where
  pub open_at : D.State → Bytes → Bool
  pub new_client :
      (t : Bytes) (s : D.State) (k : Bytes)
      → open_at (D.new_client t s).1 k ≡ true
      → (open_at s k ≡ true) ⊎ ((D.new_client t s).0 ≡ some k)
  pub close :
      (c : Bytes) (s : D.State) (k : Bytes)
      → open_at (D.close c s) k ≡ true
      → (open_at s k ≡ true) × (k ≢ c)
  pub health :
      (c : Bytes) (s : D.State) (k : Bytes) → open_at (D.health c s).1 k ≡ true → open_at s k ≡ true
  pub ensure_daemon :
      (p : Bytes) (s : D.State) (k : Bytes)
      → open_at (D.ensure_daemon p s).1 k ≡ true
      → open_at s k ≡ true
  pub embed :
      (c t : Bytes) (s : D.State) (k : Bytes)
      → open_at (stub.embed c t s).1 k ≡ true
      → open_at s k ≡ true
  pub embed_batch :
      (c : Bytes) (ts : List Bytes) (s : D.State) (k : Bytes)
      → open_at (stub.embed_batch c ts s).1 k ≡ true
      → open_at s k ≡ true
  pub info :
      (c : Bytes) (s : D.State) (k : Bytes)
      → open_at (stub.info c s).1 k ≡ true
      → open_at s k ≡ true

module _ {V : Type 0} (D : Dialer) (stub : Stub D V) (L : IsLedger D stub) where
  -- No connection is open but the client's.
  abbrev pub OnlyOpen : Held D stub → Type 0
  OnlyOpen h = (k : Bytes) → L.open_at h.1 k ≡ true → k ≡ h.0.conn

  abbrev pub NoneOpen : D.State → Type 0
  NoneOpen s = (k : Bytes) → L.open_at s k ≡ false

  none_if : (s : D.State) → ((k : Bytes) → L.open_at s k ≢ true) → NoneOpen s
  none_if s h k = ground (arith, h k)

  close-NoneOpen : (h : Held D stub) → OnlyOpen h → NoneOpen (close D stub h)
  unfolding close
  close-NoneOpen (c, s) h = none_if _ (λ k o. let q = L.close c.conn s k o in q.1 (h k q.0))

  -- What is open after NewClient is what it returned.
  abbrev OnlyNew : Option Bytes × D.State → Type 0
  OnlyNew r = (k : Bytes) → L.open_at r.1 k ≡ true → r.0 ≡ some k

  new_client-OnlyNew : (t : Bytes) (s : D.State) → NoneOpen s → OnlyNew (D.new_client t s)
  new_client-OnlyNew t s h k o = ground (arith, L.new_client t s k o, h k)

  reconnected-OnlyOpen :
      (c : Client) (r : Option Bytes × D.State)
      → OnlyNew r
      → OnlyOpen (reconnect_outcome D stub c (reconnected D c r)).1
  unfolding reconnected reconnect_outcome
  reconnected-OnlyOpen c (none, u) h k o = absurd (ground (arith, h k o))
  reconnected-OnlyOpen c (some n, u) h k o = ground (arith, h k o)

  reconnect-OnlyOpen : (h : Held D stub) → OnlyOpen h → OnlyOpen (reconnect D stub h).1
  unfolding reconnect reconnect_locked close
  reconnect-OnlyOpen (c, s) h =
      reconnected-OnlyOpen c _ (new_client-OnlyNew _ _ (close-NoneOpen (c, s) h))

  ensure-OnlyOpen : (h : Held D stub) → OnlyOpen h → OnlyOpen (ensure D stub h).1
  unfolding ensure
  ensure-OnlyOpen (c, s) h k o = h k (L.ensure_daemon c.socket_path s k o)

  wait_lock-OnlyOpen : (h : Held D stub) → OnlyOpen h → OnlyOpen (wait_lock D stub h)
  unfolding wait_lock
  wait_lock-OnlyOpen h o = elim (Bool-cases (stub.raced h.1)) [
    | inl e ↦ rw e (reconnect-OnlyOpen _ (ensure-OnlyOpen h o))
    | inr e ↦ rw e o
  ]

  run_call-OnlyOpen :
      (call : Call) (h : Held D stub) → OnlyOpen h → OnlyOpen (run_call D stub call h)
  unfolding run_call remote embed embed_batch info
  run_call-OnlyOpen (call_embed t) h o =
      call_with_respawn-keeps (remote D stub) (on_conn D stub (λ c. stub.embed c t)) OnlyOpen
        (λ r p k q. p k (L.embed r.0.conn t r.1 k q)) wait_lock-OnlyOpen ensure-OnlyOpen
        reconnect-OnlyOpen h.0.no_spawn h o
  run_call-OnlyOpen (call_embed_batch ts) h o =
      call_with_respawn-keeps (remote D stub) (on_conn D stub (λ c. stub.embed_batch c ts)) OnlyOpen
        (λ r p k q. p k (L.embed_batch r.0.conn ts r.1 k q)) wait_lock-OnlyOpen ensure-OnlyOpen
        reconnect-OnlyOpen h.0.no_spawn h o
  run_call-OnlyOpen call_info h o = λ k q. o k (L.info h.0.conn h.1 k q)

  run_calls-OnlyOpen :
      (cs : List Call) (h : Held D stub) → OnlyOpen h → OnlyOpen (run_calls D stub cs h)
  unfolding run_calls
  run_calls-OnlyOpen [] h o = o
  run_calls-OnlyOpen (c ∷ cs) h o = run_calls-OnlyOpen cs _ (run_call-OnlyOpen c h o)

  -- A client with the only open connection, or none open after an error.
  abbrev pub Owns : Connected D → Type 0
  Owns (ok c, s) = OnlyOpen (c, s)
  Owns (err e, s) = NoneOpen s

  probed-Owns :
      (conn path : Bytes) (r : Bool × D.State)
      → ((k : Bytes) → L.open_at r.1 k ≡ true → k ≡ conn)
      → Owns (probed D conn path r)
  unfolding probed
  probed-Owns conn path (true, s) h = h
  probed-Owns conn path (false, s) h =
      none_if _ (λ k o. let q = L.close conn s k o in q.1 (h k q.0))

  dialled-Owns : (path : Bytes) (r : Option Bytes × D.State) → OnlyNew r → Owns (dialled D path r)
  unfolding dialled
  dialled-Owns path (none, s) h = none_if s (λ k o. absurd (ground (arith, h k o)))
  dialled-Owns path (some c, s) h =
      probed-Owns c path _ (λ k o. ground (arith, h k (L.health c s k o)))

  dial_and_probe-Owns : (path : Bytes) (s : D.State) → NoneOpen s → Owns (dial_and_probe D path s)
  unfolding dial_and_probe
  dial_and_probe-Owns path s h = dialled-Owns path _ (new_client-OnlyNew _ s h)

  kept-Owns : (b : Bool) (r : Connected D) → Owns r → Owns (kept D b r)
  unfolding kept
  kept-Owns b (ok c, s) h = h
  kept-Owns b (err e, s) h = h

  spawned-Owns :
      (o : Options) (path : Bytes) (r : Bool × D.State) → NoneOpen r.1 → Owns (spawned D o path r)
  unfolding spawned
  spawned-Owns o path (false, s) h = h
  spawned-Owns o path (true, s) h = kept-Owns o.no_spawn _ (dial_and_probe-Owns path s h)

  either-Owns : (b : Bool) (r q : Connected D) → Owns r → Owns q → Owns (if b then r else q)
  either-Owns true r q h k = h
  either-Owns false r q h k = k

  after_dial-Owns :
      (o : Options) (path : Bytes) (r : Connected D) → Owns r → Owns (after_dial D o path r)
  unfolding after_dial
  after_dial-Owns o path (ok c, s) h = kept-Owns o.no_spawn (ok c, s) h
  after_dial-Owns o path (err e, s) h =
      either-Owns o.no_spawn (err e, s) _ h
        (spawned-Owns o path (D.ensure_daemon path s)
          (none_if _ (λ k q. absurd (ground (arith, h k, L.ensure_daemon path s k q)))))

  connect_to-Owns :
      (o : Options) (p : Result ConnectError Bytes) (s : D.State)
      → NoneOpen s
      → Owns (connect_to D o p s)
  unfolding connect_to
  connect_to-Owns o (err e) s h = h
  connect_to-Owns o (ok path) s h = after_dial-Owns o path _ (dial_and_probe-Owns path s h)

  connect-Owns :
      (on_windows : Bool) (opts : List (Options → Options)) (home : Option Bytes) (s : D.State)
      → NoneOpen s
      → Owns (connect D on_windows opts home s)
  unfolding connect
  connect-Owns true opts home s h = h
  connect-Owns false opts home s h =
      connect_to-Owns (apply_options opts (record { socket_path = []; no_spawn = false })) _ s h

  closed-NoneOpen : (cs : List Call) (r : Connected D) → Owns r → NoneOpen (closed D stub cs r)
  unfolding closed
  closed-NoneOpen cs (err e, s) h = h
  closed-NoneOpen cs (ok c, s) h =
      close-NoneOpen (run_calls D stub cs (c, s)) (run_calls-OnlyOpen cs (c, s) h)

  abbrev pub CallsOwn : List Call → Connected D → Type 0
  CallsOwn cs (err e, s) = NoneOpen s
  CallsOwn cs (ok c, s) = OnlyOpen (run_calls D stub cs (c, s))

  calls-Own : (cs : List Call) (r : Connected D) → Owns r → CallsOwn cs r
  calls-Own cs (err e, s) h = h
  calls-Own cs (ok c, s) h = run_calls-OnlyOpen cs (c, s) h

  -- If no connection is open at first, then after Connect has returned a client and after each sequence
  -- of Embed, EmbedBatch and Info on it only the connection that it holds may be open, also after a
  -- respawn and a reconnection, its own or another goroutine's; and none is open after Close, or after
  -- an error of Connect.
  pub session-Closed :
      (on_windows : Bool) (opts : List (Options → Options)) (home : Option Bytes) (cs : List Call)
      (s : D.State)
      → NoneOpen s
      → CallsOwn cs (connect D on_windows opts home s)
        × NoneOpen (session D stub on_windows opts home cs s)
  unfolding session
  session-Closed w opts home cs s h =
      let o = connect-Owns w opts home s h in (calls-Own cs _ o, closed-NoneOpen cs _ o)
