-- ===== src/Client/Connect.antt =====
-- Connect, dialAndProbe and reconnectLocked of client/client.go.
pub mod Probed
use runed.Prelude.{
  ◌≡◌, ◌⊎◌, inl, inr, refl, arith, Bool, true, false, List, [], ◌∷◌, ◌++◌, Option, none, some,
  Bytes, text, is_empty, Result, ok, err, if◌then◌else◌, Bool-cases,
}
use runed.Prelude.FilePath.{join}

pub data ConnectError : Type 0 where
  windows home_failed dial_failed health_failed spawn_failed : ConnectError

-- gRPC, the Health RPC and spawn.EnsureDaemon over the state of the system. `resolve` is
-- ResolveSocketPath, and a connection has a name.
pub record Dialer : Type 1 where
  pub State : Type 0
  pub resolve : Bytes → Bytes
  pub new_client : Bytes → State → Option Bytes × State
  pub health : Bytes → State → Bool × State
  pub close : Bytes → State → State
  pub ensure_daemon : Bytes → State → Bool × State

-- `conn` names the connection.
pub record Client : Type 0 where
  pub conn : Bytes
  pub socket_path : Bytes
  pub no_spawn : Bool

pub record Options : Type 0 where
  pub socket_path : Bytes
  pub no_spawn : Bool

-- WithSocketPath and WithNoSpawn.
abbrev pub with_socket_path : Bytes → Options → Options
with_socket_path p o = record o { socket_path = p }

abbrev pub with_no_spawn : Options → Options
with_no_spawn o = record o { no_spawn = true }

abbrev pub apply_options : List (Options → Options) → Options → Options
apply_options [] o = o
apply_options (f ∷ fs) o = apply_options fs (f o)

unfoldable pub default_path : Bytes → Option Bytes → Result ConnectError Bytes
default_path path home =
    if is_empty path
    then elim home [
      | none ↦ err home_failed
      | some h ↦ ok (join (h ∷ text ".runed" ∷ text "embedding.sock" ∷ []))
    ]
    else ok path

module _ (D : Dialer) where
  abbrev pub Connected : Type 0
  Connected = Result ConnectError Client × D.State

  -- The target of grpc.NewClient.
  abbrev pub target : Bytes → Bytes
  target path = text "unix://" ++ D.resolve path

  unfoldable pub probed : Bytes → Bytes → Bool × D.State → Connected
  probed conn path (true, s) =
      (ok (record { conn = conn; socket_path = path; no_spawn = false }), s)
  probed conn path (false, s) = (err health_failed, D.close conn s)

  unfoldable pub dialled : Bytes → Option Bytes × D.State → Connected
  unfolding probed
  dialled path (none, s) = (err dial_failed, s)
  dialled path (some conn, s) = probed conn path (D.health conn s)

  unfoldable pub dial_and_probe : Bytes → D.State → Connected
  unfolding dialled
  dial_and_probe path s = dialled path (D.new_client (target path) s)

  unfoldable pub kept : Bool → Connected → Connected
  kept no_spawn (ok c, s) = (ok (record c { no_spawn = no_spawn }), s)
  kept no_spawn (err e, s) = (err e, s)

  unfoldable pub spawned : Options → Bytes → Bool × D.State → Connected
  unfolding kept
  spawned o path (false, s) = (err spawn_failed, s)
  spawned o path (true, s) = kept o.no_spawn (dial_and_probe path s)

  unfoldable pub after_dial : Options → Bytes → Connected → Connected
  unfolding kept spawned
  after_dial o path (ok c, s) = kept o.no_spawn (ok c, s)
  after_dial o path (err e, s) =
      if o.no_spawn then (err e, s) else spawned o path (D.ensure_daemon path s)

  unfoldable pub connect_to : Options → Result ConnectError Bytes → D.State → Connected
  unfolding after_dial
  connect_to o (err e) s = (err e, s)
  connect_to o (ok path) s = after_dial o path (dial_and_probe path s)

  unfoldable pub connect : Bool → List (Options → Options) → Option Bytes → D.State → Connected
  unfolding connect_to
  connect on_windows opts home s =
      let o = apply_options opts (record { socket_path = []; no_spawn = false }) in
      if on_windows then (err windows, s) else connect_to o (default_path o.socket_path home) s

  unfoldable pub reconnected :
      Client → Option Bytes × D.State → Result ConnectError Client × D.State
  reconnected c (none, s) = (err dial_failed, s)
  reconnected c (some conn, s) = (ok (record c { conn = conn }), s)

  unfoldable pub reconnect_locked : Client → D.State → Result ConnectError Client × D.State
  unfolding reconnected
  reconnect_locked c s = reconnected c (D.new_client (target c.socket_path) (D.close c.conn s))
