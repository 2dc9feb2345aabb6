-- ===== src/Client/Session/Spawning.antt =====
-- The client of client/client.go over spawn.EnsureDaemon of internal/spawn: one system under both.
pub mod Bounded
pub mod Budget
pub mod Calls
use runed.Prelude.{Bool, true, false, Option, none, some, Bytes}
use runed.Spawn
use runed.Spawn.{System}
use runed.Client.Connect.{Dialer}

-- gRPC and the Health RPC, over the state of the system that the daemon is spawned on.
pub record Grpc (S : System) : Type 0 where
  pub new_client : Bytes → S.State → Option Bytes × S.State
  pub health : Bytes → S.State → Bool × S.State
  pub close : Bytes → S.State → S.State

abbrev pub no_error : {A B : Type 0} → Option A × B → Bool × B
no_error (none, s) = (true, s)
no_error (some e, s) = (false, s)

abbrev pub dialer : (S : System) → Grpc S → Dialer
dialer S grpc = record {
  State = S.State;
  resolve = S.resolve;
  new_client = grpc.new_client;
  health = grpc.health;
  close = grpc.close;
  ensure_daemon = λ path s. no_error (Spawn.ensure_daemon S path s);
}
