-- ===== src/Client/Connect/Probed.antt =====
-- A client that Connect returns has just answered.
use runed.Prelude.{
  ◌≡◌, ◌⊎◌, inl, inr, refl, arith, Bool, true, false, List, [], Option, none, some, Bytes, Result,
  ok, err, if◌then◌else◌,
}
use runed.Client.Connect.{
  ConnectError, windows, Dialer, Client, Options, apply_options, Connected, probed, dialled,
  dial_and_probe, kept, spawned, after_dial, connect_to, connect,
}

module _ (D : Dialer) where
  -- An error; or a client for the path, whose connection answered Health in the last step.
  abbrev pub Probed : Bool → Connected D → Type 0
  Probed no_spawn r =
      ((e : ConnectError) × (r.0 ≡ err e))
      ⊎ ((c : Client) × (r.0 ≡ ok c)
          × (c.no_spawn ≡ no_spawn)
          × (u : D.State) × (D.health c.conn u ≡ (true, r.1)))

  probed-Probed :
      (conn path : Bytes) (u : D.State) (h : Bool × D.State)
      → D.health conn u ≡ h
      → Probed false (probed D conn path h)
  unfolding probed
  probed-Probed conn path u (true, s) e = inr (_, refl, refl, u, e)
  probed-Probed conn path u (false, s) e = inl (_, refl)

  dialled-Probed : (path : Bytes) (c : Option Bytes × D.State) → Probed false (dialled D path c)
  unfolding dialled
  dialled-Probed path (none, s) = inl (_, refl)
  dialled-Probed path (some conn, s) = probed-Probed conn path s (D.health conn s) refl

  kept-Probed : (n : Bool) (r : Connected D) → Probed false r → Probed n (kept D n r)
  unfolding kept
  kept-Probed n (ok c, s) (inl (e, q)) = absurd (cc)
  kept-Probed n (ok c, s) (inr (b, q, f, u, h)) =
      inr (record c { no_spawn = n }, refl, refl, u, ground arith)
  kept-Probed n (err e, s) h = inl (e, refl)

  spawned-Probed :
      (o : Options) (path : Bytes) (r : Bool × D.State) → Probed o.no_spawn (spawned D o path r)
  unfolding spawned dial_and_probe
  spawned-Probed o path (false, s) = inl (_, refl)
  spawned-Probed o path (true, s) = kept-Probed o.no_spawn _ (dialled-Probed path _)

  unless_spawning-Probed :
      (n : Bool) (e : ConnectError) (s : D.State) (r : Connected D)
      → Probed n r
      → Probed n (if n then (err e, s) else r)
  unless_spawning-Probed true e s r h = inl (e, refl)
  unless_spawning-Probed false e s r h = h

  after_dial-Probed :
      (o : Options) (path : Bytes) (r : Connected D)
      → Probed false r
      → Probed o.no_spawn (after_dial D o path r)
  unfolding after_dial
  after_dial-Probed o path (ok c, s) h = kept-Probed o.no_spawn (ok c, s) h
  after_dial-Probed o path (err e, s) h =
      unless_spawning-Probed o.no_spawn e s _ (spawned-Probed o path (D.ensure_daemon path s))

  connect_to-Probed :
      (o : Options) (p : Result ConnectError Bytes) (s : D.State)
      → Probed o.no_spawn (connect_to D o p s)
  unfolding connect_to dial_and_probe
  connect_to-Probed o (err e) s = inl (e, refl)
  connect_to-Probed o (ok path) s = after_dial-Probed o path _ (dialled-Probed path _)

  -- Connect, with any options, returns an error or a client that carries the caller's WithNoSpawn and
  -- whose Health RPC succeeded in the last step that was taken.
  pub connect-Probed :
      (on_windows : Bool) (opts : List (Options → Options)) (home : Option Bytes) (s : D.State)
      → Probed
          (apply_options opts (record { socket_path = []; no_spawn = false })).no_spawn
          (connect D on_windows opts home s)
  unfolding connect
  connect-Probed true opts home s = inl (windows, refl)
  connect-Probed false opts home s =
      connect_to-Probed (apply_options opts (record { socket_path = []; no_spawn = false })) _ s
