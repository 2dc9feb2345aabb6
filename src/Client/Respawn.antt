-- ===== src/Client/Respawn.antt =====
-- When a client's call ends as unavailable, and where a result comes from.
use runed.Prelude.{◌≡◌, refl, ◌↔◌, ◌⊎◌, arith, Bool, true, false, Result, ok, err, ◌∙◌}
use runed.Client.{
  Code, unavailable, other_code, ClientError, rpc_failed, Remote, returned, after_reconnect,
  after_spawn, under_lock, first_call, call_with_respawn,
}

module _ {V A : Type 0} (R : Remote V) (rpc : R.State → Result Code A × R.State) where
  -- A call gives `Unavailable` back exactly if the first RPC was unavailable and the client may not
  -- spawn, or if the RPC was unavailable three times: at first, again under the lock, and once more
  -- over the connection that was made after the daemon had been respawned without an error.
  call_with_respawn-unavailable :
      (no_spawn : Bool) (s : R.State)
      → let one = rpc s in
        let two = rpc (R.wait_lock one.1) in
        let spawned = R.ensure_daemon two.1 in
        let joined = R.reconnect spawned.1 in
        let three = rpc joined.1 in
        ((call_with_respawn R rpc no_spawn s).0 ≡ err (rpc_failed unavailable)) ↔ (
          (one.0 ≡ err unavailable)
          × ((no_spawn ≡ true)
              ⊎ ((two.0 ≡ err unavailable)
                  × (spawned.0 ≡ true)
                  × (joined.0 ≡ true)
                  × (three.0 ≡ err unavailable))))
  unfolding call_with_respawn first_call under_lock after_spawn after_reconnect returned
  call_with_respawn-unavailable no_spawn s = ground arith

  -- The result is what some RPC returned last.
  abbrev ReturnedBy : A → Result ClientError A × R.State → Type 0
  ReturnedBy a r = (u : R.State) × (rpc u ≡ (ok a, r.1))

  returned-ReturnedBy :
      (u : R.State) (r : Result Code A × R.State) (a : A)
      → rpc u ≡ r
      → (returned R rpc r).0 ≡ ok a
      → ReturnedBy a (returned R rpc r)
  unfolding returned
  returned-ReturnedBy u (ok b, t) a e h = (u, e ∙ ground arith)
  returned-ReturnedBy u (err c, t) a e h = cc

  after_reconnect-ReturnedBy :
      (r : Bool × R.State) (a : A)
      → (after_reconnect R rpc r).0 ≡ ok a
      → ReturnedBy a (after_reconnect R rpc r)
  unfolding after_reconnect
  after_reconnect-ReturnedBy (false, t) a h = cc
  after_reconnect-ReturnedBy (true, t) a h = returned-ReturnedBy t (rpc t) a refl h

  after_spawn-ReturnedBy :
      (r : Bool × R.State) (a : A)
      → (after_spawn R rpc r).0 ≡ ok a
      → ReturnedBy a (after_spawn R rpc r)
  unfolding after_spawn
  after_spawn-ReturnedBy (false, t) a h = cc
  after_spawn-ReturnedBy (true, t) a h = after_reconnect-ReturnedBy (R.reconnect t) a h

  under_lock-ReturnedBy :
      (u : R.State) (r : Result Code A × R.State) (a : A)
      → rpc u ≡ r
      → (under_lock R rpc r).0 ≡ ok a
      → ReturnedBy a (under_lock R rpc r)
  unfolding under_lock
  under_lock-ReturnedBy u (ok b, t) a e h = (u, e ∙ ground arith)
  under_lock-ReturnedBy u (err (other_code c), t) a e h = cc
  under_lock-ReturnedBy u (err unavailable, t) a e h =
      after_spawn-ReturnedBy (R.ensure_daemon t) a h

  first_call-ReturnedBy :
      (no_spawn : Bool) (u : R.State) (r : Result Code A × R.State) (a : A)
      → rpc u ≡ r
      → (first_call R rpc no_spawn r).0 ≡ ok a
      → ReturnedBy a (first_call R rpc no_spawn r)
  unfolding first_call
  first_call-ReturnedBy no_spawn u (ok b, t) a e h = (u, e ∙ ground arith)
  first_call-ReturnedBy no_spawn u (err (other_code c), t) a e h = cc
  first_call-ReturnedBy true u (err unavailable, t) a e h = cc
  first_call-ReturnedBy false u (err unavailable, t) a e h =
      under_lock-ReturnedBy (R.wait_lock t) (rpc (R.wait_lock t)) a refl h

  -- A call that succeeds returns what one RPC returned, and this RPC was its last act.
  call_with_respawn-result :
      (no_spawn : Bool) (s : R.State) (a : A)
      → (call_with_respawn R rpc no_spawn s).0 ≡ ok a
      → (u : R.State) × (rpc u ≡ (ok a, (call_with_respawn R rpc no_spawn s).1))
  unfolding call_with_respawn
  call_with_respawn-result no_spawn s a h = first_call-ReturnedBy no_spawn s (rpc s) a refl h
