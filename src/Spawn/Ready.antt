-- ===== src/Spawn/Ready.antt =====
-- EnsureDaemon ends, and if it returns no error a daemon was reached.
use runed.Prelude.{
  ℕ, zero, suc, ◌+◌, ◌*◌, ◌≤◌, ◌<◌, ◌≡◌, refl, ap, sym, ◌≢◌, ◌⊎◌, inl, inr, arith, Bool, true,
  false, Bytes, Option, none, some,
}
use runed.Spawn.{
  DialResult, dial_reachable, dial_absent, dial_hostile, SpawnError, LaunchError, released,
  out_of_rounds, System, Outcome, Config, probe_daemon, probe_found, wait_step, wait_probed,
  wait_for_daemon, after_launch, after_config, recheck, locked, made_home, first_probe,
  ensure_daemon,
}

-- What the clock and the ticker of waitForDaemon guarantee. The clock is not set back. `ticks` counts the
-- ticks that were taken before the deadline: the k-th comes no sooner than k times 200 ms after the ticker
-- was made, which was not before the 10 s to the deadline began. `late` counts those that the select took
-- when the deadline had passed, where it may choose either case: no more than the system's bound.
pub record IsTimely (S : System) : Type 0 where
  pub ticks : S.State → ℕ
  pub late : S.State → ℕ
  pub made :
      (s : S.State)
      → (ticks (S.new_ticker s) ≡ 0)
        × (late (S.new_ticker s) ≡ 0)
        × (S.now s ≤ S.now (S.new_ticker s))
  pub dial_forward :
      (path : Bytes) (s : S.State)
      → (S.now s ≤ S.now (S.dial path s).1)
        × (ticks (S.dial path s).1 ≡ ticks s)
        × (late (S.dial path s).1 ≡ late s)
  pub tick :
      (deadline : ℕ) (s : S.State)
      → (S.select_wait deadline s).0 ≡ true
      → let t = (S.select_wait deadline s).1 in
        ((S.now s < deadline)
          × (ticks t ≡ ticks s + 1)
          × (late t ≡ late s)
          × (deadline + (ticks s + 1) * (200 * 1000000) ≤ S.now t + 10 * 1000000000))
        ⊎ ((late t ≡ late s + 1) × (late t ≤ S.late) × (ticks t ≡ ticks s) × (S.now s ≤ S.now t))

module _ (S : System) (socket_path : Bytes) where
  -- The loop came to its own end, and without an error its last act was a dial that was accepted.
  abbrev Probed : Outcome S → Type 0
  Probed r =
      (r.0 ≢ some out_of_rounds)
      × ((r.0 ≢ none) ⊎ ((u : S.State) × (probe_daemon S socket_path u ≡ (dial_reachable, r.1))))

  -- The same, with the release of the lock as a last act after the probe, if the lock was taken.
  abbrev pub Reached : Outcome S → Type 0
  Reached r =
      (r.0 ≢ some out_of_rounds)
      × ((r.0 ≢ none)
          ⊎ ((u : S.State) × ((probe_daemon S socket_path u).0 ≡ dial_reachable)
              × ((r.1 ≡ (probe_daemon S socket_path u).1)
                  ⊎ (r.1 ≡ S.release_lock (probe_daemon S socket_path u).1))))

  failed : (e : SpawnError) (s : S.State) → e ≢ out_of_rounds → Probed (some e, s)
  failed e s h = (λ q. h cc, inl (λ q. cc))

  Probed-Reached : (r : Outcome S) → Probed r → Reached r
  Probed-Reached r (h, inl e) = (h, inl e)
  Probed-Reached r (h, inr (u, e)) = (h, inr (u, ap (λ x. x.0) e, inl (ap (λ x. x.1) (sym e))))

  released-Reached : (r : Outcome S) → Probed r → Reached (released S r)
  unfolding released
  released-Reached (x, s) (h, inl e) = (h, inl e)
  released-Reached (x, s) (h, inr (u, e)) =
      (h, inr (u, ap (λ x. x.0) e, inr (ap (λ x. S.release_lock x.1) (sym e))))

  step-Probed :
      (again : S.State → Outcome S) (w : Bool × S.State)
      → (w.0 ≡ true → Probed (again w.1))
      → Probed (wait_step S again w)
  unfolding wait_step
  step-Probed again (true, t) h = h refl
  step-Probed again (false, t) h = failed _ t (λ e. cc)

  -- One round, if the rest of the loop is right after a tick.
  round-Probed :
      (deadline : ℕ) (again : S.State → Outcome S) (s : S.State) (r : DialResult × S.State)
      → probe_daemon S socket_path s ≡ r
      → ((S.select_wait deadline r.1).0 ≡ true → Probed (again (S.select_wait deadline r.1).1))
      → Probed (wait_probed S deadline again r)
  unfolding wait_probed
  round-Probed deadline again s (dial_reachable, t) e h = (λ q. cc, inr (s, e))
  round-Probed deadline again s (dial_absent, t) e h =
      step-Probed again (S.select_wait deadline t) h
  round-Probed deadline again s (dial_hostile, t) e h =
      step-Probed again (S.select_wait deadline t) h

module _ (S : System) (T : IsTimely S) (socket_path : Bytes) where
  found_forward :
      (path : Bytes) (b : Bool) (s : S.State)
      → (S.now s ≤ S.now (probe_found S path b s).1)
        × (T.ticks (probe_found S path b s).1 ≡ T.ticks s)
        × (T.late (probe_found S path b s).1 ≡ T.late s)
  unfolding probe_found
  found_forward path true s = (omega arith, refl, refl)
  found_forward path false s = T.dial_forward path s

  probe_forward :
      (s : S.State)
      → let t = (probe_daemon S socket_path s).1 in
        (S.now s ≤ S.now t) × (T.ticks t ≡ T.ticks s) × (T.late t ≡ T.late s)
  unfolding probe_daemon
  probe_forward s = let path = S.resolve socket_path in found_forward path (S.no_socket path s) s

  -- No more ticks are taken than there is time for and may be late, and the rounds are enough for these.
  wait_for_daemon-Probed :
      (rounds deadline : ℕ) (s : S.State)
      → deadline + T.ticks s * (200 * 1000000) ≤ S.now s + 10 * 1000000000
      → T.ticks s ≤ 50
      → T.late s ≤ S.late
      → S.late + 50 ≤ T.ticks s + (T.late s + rounds)
      → Probed S socket_path (wait_for_daemon S socket_path (suc rounds) deadline s)
  unfolding wait_for_daemon
  wait_for_daemon-Probed zero deadline s h b l k =
      let r = probe_daemon S socket_path s in
      round-Probed S socket_path deadline _ s r refl (λ q. elim (T.tick deadline r.1 q) [
        | inl t ↦ absurd (omega (arith, t, probe_forward s))
        | inr t ↦ absurd (omega (arith, t, probe_forward s))
      ])
  wait_for_daemon-Probed (suc rounds) deadline s h b l k =
      let r = probe_daemon S socket_path s in
      let f = probe_forward s in
      round-Probed S socket_path deadline _ s r refl (λ q. elim (T.tick deadline r.1 q) [
        | inl t ↦
            wait_for_daemon-Probed rounds deadline _ (omega (arith, t, f)) (omega (arith, t, f))
              (omega (arith, t, f)) (omega (arith, t, f))
        | inr t ↦
            wait_for_daemon-Probed rounds deadline _ (omega (arith, t, f)) (omega (arith, t, f))
              (omega (arith, t, f)) (omega (arith, t, f))
      ])

  after_launch-Probed :
      (r : Option LaunchError × S.State) → Probed S socket_path (after_launch S socket_path r)
  unfolding after_launch
  after_launch-Probed (some e, s) = failed S socket_path _ s (λ q. cc)
  after_launch-Probed (none, s) =
      let m = T.made s in
      wait_for_daemon-Probed (S.late + 50) _ (S.new_ticker s) (omega (arith, m)) (omega (arith, m))
        (omega (arith, m)) (omega (arith, m))

  after_config-Probed :
      (r : Option Config × S.State) → Probed S socket_path (after_config S socket_path r)
  unfolding after_config
  after_config-Probed (none, s) = failed S socket_path _ s (λ e. cc)
  after_config-Probed (some cfg, s) = after_launch-Probed _

  recheck-Probed :
      (s : S.State) (r : DialResult × S.State)
      → probe_daemon S socket_path s ≡ r
      → Probed S socket_path (recheck S socket_path r)
  unfolding recheck
  recheck-Probed s (dial_reachable, t) e = (λ q. cc, inr (s, e))
  recheck-Probed s (dial_hostile, t) e = failed S socket_path _ t (λ q. cc)
  recheck-Probed s (dial_absent, t) e = after_config-Probed (S.load_config t)

  locked-Reached : (r : Bool × S.State) → Reached S socket_path (locked S socket_path r)
  unfolding locked
  locked-Reached (false, s) = Probed-Reached S socket_path _ (failed S socket_path _ s (λ e. cc))
  locked-Reached (true, s) =
      released-Reached S socket_path _ (recheck-Probed s (probe_daemon S socket_path s) refl)

  made_home-Reached : (r : Bool × S.State) → Reached S socket_path (made_home S socket_path r)
  unfolding made_home
  made_home-Reached (false, s) = Probed-Reached S socket_path _ (failed S socket_path _ s (λ e. cc))
  made_home-Reached (true, s) = locked-Reached _

  first_probe-Reached :
      (s : S.State) (r : DialResult × S.State)
      → probe_daemon S socket_path s ≡ r
      → Reached S socket_path (first_probe S socket_path r)
  unfolding first_probe
  first_probe-Reached s (dial_reachable, t) e =
      Probed-Reached S socket_path (none, t) (λ q. cc, inr (s, e))
  first_probe-Reached s (dial_hostile, t) e =
      Probed-Reached S socket_path _ (failed S socket_path _ t (λ q. cc))
  first_probe-Reached s (dial_absent, t) e = made_home-Reached (S.mkdir_all _ t)

  -- If the clock is not set back, the k-th tick comes k times 200 ms after the ticker was made or later,
  -- and the select, which chooses at random among the cases that are ready, takes no more than some fixed
  -- number of ticks after the deadline: EnsureDaemon ends, with a wait of at most 51 rounds more than this
  -- number. If it returns no error, its last act was a probe that found the daemon reachable, or such a
  -- probe and the release of the lock.
  pub ensure_daemon-Reached : (s : S.State) → Reached S socket_path (ensure_daemon S socket_path s)
  unfolding ensure_daemon
  ensure_daemon-Reached s = first_probe-Reached s (probe_daemon S socket_path s) refl
