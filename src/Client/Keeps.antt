-- ===== src/Client/Keeps.antt =====
-- What the steps of a call keep, the call keeps; and what holds before EnsureDaemon may be given up there
-- for something weaker.
use runed.Prelude.{Bool, true, false, Result, ok, err}
use runed.Client.{
  Code, unavailable, other_code, Remote, returned, after_reconnect, after_spawn, under_lock,
  first_call, call_with_respawn,
}

-- P until EnsureDaemon has been called, and Q from there on.
module _ {V A : Type 0} (R : Remote V) (rpc : R.State → Result Code A × R.State)
    (P Q : R.State → Type 0) (weaken : (s : R.State) → P s → Q s)
    (rpc_before : (s : R.State) → P s → P (rpc s).1) (rpc_after : (s : R.State) → Q s → Q (rpc s).1)
    (wait_keeps : (s : R.State) → P s → P (R.wait_lock s))
    (ensure_reaches : (s : R.State) → P s → Q (R.ensure_daemon s).1)
    (reconnect_keeps : (s : R.State) → Q s → Q (R.reconnect s).1) where
  returned-keeps :
      (T : R.State → Type 0) (r : Result Code A × R.State) → T r.1 → T (returned R rpc r).1
  unfolding returned
  returned-keeps T (ok a, s) h = h
  returned-keeps T (err c, s) h = h

  after_reconnect-keeps : (r : Bool × R.State) → Q r.1 → Q (after_reconnect R rpc r).1
  unfolding after_reconnect
  after_reconnect-keeps (false, s) h = h
  after_reconnect-keeps (true, s) h = returned-keeps Q (rpc s) (rpc_after s h)

  after_spawn-keeps : (r : Bool × R.State) → Q r.1 → Q (after_spawn R rpc r).1
  unfolding after_spawn
  after_spawn-keeps (false, s) h = h
  after_spawn-keeps (true, s) h = after_reconnect-keeps (R.reconnect s) (reconnect_keeps s h)

  under_lock-reaches : (r : Result Code A × R.State) → P r.1 → Q (under_lock R rpc r).1
  unfolding under_lock
  under_lock-reaches (ok a, s) h = weaken s h
  under_lock-reaches (err (other_code c), s) h = weaken s h
  under_lock-reaches (err unavailable, s) h =
      after_spawn-keeps (R.ensure_daemon s) (ensure_reaches s h)

  first_call-reaches :
      (no_spawn : Bool) (r : Result Code A × R.State) → P r.1 → Q (first_call R rpc no_spawn r).1
  unfolding first_call
  first_call-reaches b (ok a, s) h = weaken s h
  first_call-reaches b (err (other_code c), s) h = weaken s h
  first_call-reaches true (err unavailable, s) h = weaken s h
  first_call-reaches false (err unavailable, s) h =
      under_lock-reaches (rpc (R.wait_lock s)) (rpc_before _ (wait_keeps s h))

  -- The call of a client that may not spawn makes the RPC and nothing else.
  first_call-no_spawn : (r : Result Code A × R.State) → P r.1 → P (first_call R rpc true r).1
  unfolding first_call
  first_call-no_spawn (ok a, s) h = h
  first_call-no_spawn (err (other_code c), s) h = h
  first_call-no_spawn (err unavailable, s) h = h

  pub call_with_respawn-reaches :
      (no_spawn : Bool) (s : R.State) → P s → Q (call_with_respawn R rpc no_spawn s).1
  unfolding call_with_respawn
  call_with_respawn-reaches b s h = first_call-reaches b (rpc s) (rpc_before s h)

  pub call_with_respawn-no_spawn : (s : R.State) → P s → P (call_with_respawn R rpc true s).1
  unfolding call_with_respawn
  call_with_respawn-no_spawn s h = first_call-no_spawn (rpc s) (rpc_before s h)

module _ {V A : Type 0} (R : Remote V) (rpc : R.State → Result Code A × R.State)
    (P : R.State → Type 0) (rpc_keeps : (s : R.State) → P s → P (rpc s).1)
    (wait_keeps : (s : R.State) → P s → P (R.wait_lock s))
    (ensure_keeps : (s : R.State) → P s → P (R.ensure_daemon s).1)
    (reconnect_keeps : (s : R.State) → P s → P (R.reconnect s).1) where
  pub call_with_respawn-keeps :
      (no_spawn : Bool) (s : R.State) → P s → P (call_with_respawn R rpc no_spawn s).1
  call_with_respawn-keeps =
      call_with_respawn-reaches R rpc P P (λ s h. h) rpc_keeps rpc_keeps wait_keeps ensure_keeps
        reconnect_keeps
