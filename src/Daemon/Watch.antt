-- ===== src/Daemon/Watch.antt =====
-- watchSocketOwnership of cmd/runed/main.go: its loop over the cases that its select takes.
pub mod Evicted
use runed.Prelude.{Bool, true, false, List, [], ◌∷◌}
use runed.Prelude.{if◌then◌else◌}
use runed.Server.Types.{Server}
use runed.Server.Wiring.{trigger_shutdown}

-- `tick` says whether the listener still owns its socket, and whether a shutdown has begun by then.
pub data WatchEvent : Type 0 where
  context_done shutdown_begun : WatchEvent
  tick : Bool → Bool → WatchEvent

pub record Daemon (V : Type 0) : Type 0 where
  pub server : Server V
  pub evicted : Bool
  pub cancelled : Bool

module _ {V : Type 0} where
  unfoldable pub self_evict : Daemon V → Daemon V
  unfolding trigger_shutdown
  self_evict d = record { server = trigger_shutdown d.server; evicted = true; cancelled = true }

  unfoldable pub watch_socket_ownership : List WatchEvent → Daemon V → Daemon V
  unfolding self_evict
  watch_socket_ownership [] d = d
  watch_socket_ownership (context_done ∷ es) d = d
  watch_socket_ownership (shutdown_begun ∷ es) d = d
  watch_socket_ownership (tick true closing ∷ es) d = watch_socket_ownership es d
  watch_socket_ownership (tick false true ∷ es) d = d
  watch_socket_ownership (tick false false ∷ es) d = self_evict d
