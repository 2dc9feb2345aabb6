-- ===== src/Client.antt =====
-- client/client.go: Embed and EmbedBatch, with the daemon respawned once when it is unavailable.
pub mod Respawn
pub mod Keeps
pub mod Connect
pub mod Session
pub mod Demo
use runed.Prelude.{ℕ, Bool, true, false, List, map, Option, none, some, Bytes, Result, ok, err}
use runed.Prelude.{if◌then◌else◌}

-- codes.Unavailable and the other codes of an error.
pub data Code : Type 0 where
  unavailable : Code
  other_code : ℕ → Code

pub data ClientError : Type 0 where
  rpc_failed : Code → ClientError
  respawn_failed reconnect_failed : ClientError

-- The gRPC stub (of a response, its vectors), spawn.EnsureDaemon and reconnectLocked, over the state of the system. `wait_lock` is
-- what others do to it while the client waits for its mutex.
pub record Remote (V : Type 0) : Type 1 where
  pub State : Type 0
  pub embed : Bytes → State → Result Code (List V) × State
  pub embed_batch : List Bytes → State → Result Code (List (List V)) × State
  pub wait_lock : State → State
  pub ensure_daemon : State → Bool × State
  pub reconnect : State → Bool × State

module _ {V A : Type 0} (R : Remote V) (rpc : R.State → Result Code A × R.State) where
  unfoldable pub returned : Result Code A × R.State → Result ClientError A × R.State
  returned (ok a, s) = (ok a, s)
  returned (err c, s) = (err (rpc_failed c), s)

  unfoldable pub after_reconnect : Bool × R.State → Result ClientError A × R.State
  unfolding returned
  after_reconnect (false, s) = (err reconnect_failed, s)
  after_reconnect (true, s) = returned (rpc s)

  unfoldable pub after_spawn : Bool × R.State → Result ClientError A × R.State
  unfolding after_reconnect
  after_spawn (false, s) = (err respawn_failed, s)
  after_spawn (true, s) = after_reconnect (R.reconnect s)

  -- The second call, under the lock.
  unfoldable pub under_lock : Result Code A × R.State → Result ClientError A × R.State
  unfolding after_spawn
  under_lock (ok a, s) = (ok a, s)
  under_lock (err (other_code c), s) = (err (rpc_failed (other_code c)), s)
  under_lock (err unavailable, s) = after_spawn (R.ensure_daemon s)

  unfoldable pub first_call : Bool → Result Code A × R.State → Result ClientError A × R.State
  unfolding returned under_lock
  first_call no_spawn (ok a, s) = (ok a, s)
  first_call no_spawn (err (other_code c), s) = (err (rpc_failed (other_code c)), s)
  first_call no_spawn (err unavailable, s) =
      if no_spawn then (err (rpc_failed unavailable), s) else under_lock (rpc (R.wait_lock s))

  unfoldable pub call_with_respawn : Bool → R.State → Result ClientError A × R.State
  unfolding first_call
  call_with_respawn no_spawn s = first_call no_spawn (rpc s)

module _ {V : Type 0} (R : Remote V) where
  unfoldable pub embed : Bool → Bytes → R.State → Result ClientError (List V) × R.State
  unfolding call_with_respawn
  embed no_spawn text s = call_with_respawn R (R.embed text) no_spawn s

  unfoldable pub embed_batch :
      Bool → List Bytes → R.State → Result ClientError (List (List V)) × R.State
  unfolding call_with_respawn
  embed_batch no_spawn texts s = call_with_respawn R (R.embed_batch texts) no_spawn s
