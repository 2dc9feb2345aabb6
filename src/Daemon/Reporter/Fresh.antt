-- ===== src/Daemon/Reporter/Fresh.antt =====
-- How old the progress is that Health tells.
use runed.Prelude.{
  ℤ, ℕ, ◌+◌, ◌≤◌, ◌<◌, ◌≡◌, refl, subst, sym, ◌⊎◌, inl, inr, arith, false, List, [], ◌∷◌, Option,
  none, some, Bytes, Bool-cases,
}
use runed.Bootstrap.Progress.{Tick, progress, total_of, complete, too_soon, progress_log_interval}
use runed.Bootstrap.Progress.Throttled.{Forward, final_time}
use runed.Server.Types.{Server, Embedder, BootstrapState}
use runed.Server.Wiring.{set_bootstrap_status}
use runed.Server.Health.{health, status_loading, loading_response, backend_health}
use runed.Daemon.Boot.{stage_phase}
use runed.Daemon.Reporter.{reporter, reported, download_ticks}

-- The status with the progress of this call.
abbrev pub status_of : Bytes → ℤ → Tick → BootstrapState
status_of stage expected u = record {
  phase = (stage_phase stage).0;
  bytes_done = u.downloaded;
  bytes_total = total_of expected u;
  message = (stage_phase stage).1;
}

abbrev pub Among : Tick → List Tick → Type 0
Among u [] = ⊥
Among u (t ∷ ts) = (u ≡ t) ⊎ Among u ts

module _ {V : Type 0} (stage : Bytes) (expected : ℤ) where
  -- The status tells of the call `u`, an interval before `now` at most.
  abbrev Shows : Server V → ℕ → Tick → Type 0
  Shows s now u =
      (s.bootstrap_status ≡ some (status_of stage expected u))
      × (u.now ≤ now)
      × (now < u.now + progress_log_interval)

  abbrev Recent : List Tick → Server V → ℕ → Type 0
  Recent all s now = (u : Tick) × (Among u all × Shows s now u)

  tick-Shows :
      (s : Server V) (u t : Tick)
      → s.bootstrap_status ≡ some (status_of stage expected u)
      → u.now ≤ t.now
      → let r = progress expected (some u.now) t in
        ((r.1 ≡ some u.now) × Shows (reported stage r.0 s) t.now u)
        ⊎ ((r.1 ≡ some t.now) × Shows (reported stage r.0 s) t.now t)
  unfolding progress reported reporter set_bootstrap_status
  tick-Shows s u t e h = elim (Bool-cases (complete expected t)) [
    | inl c ↦ rw c (inr (refl, (refl, omega arith, omega arith)))
    | inr c ↦ rw c (elim (Bool-cases (too_soon (some u.now) t.now)) [
      | inl q ↦ rw q (inl (refl, (e, h, ground arith)))
      | inr q ↦ rw q (inr (refl, (refl, omega arith, omega arith)))
    ])
  ]

  first-Shows :
      (s : Server V) (t : Tick)
      → let r = progress expected none t in
        (r.1 ≡ some t.now) × Shows (reported stage r.0 s) t.now t
  unfolding progress reported reporter set_bootstrap_status
  first-Shows s t = elim (Bool-cases (complete expected t)) [
    | inl c ↦ rw c (refl, (refl, omega arith, omega arith))
    | inr c ↦ rw c (refl, (refl, omega arith, omega arith))
  ]

  -- From a status that tells of a call among `all`, on to the end of the calls.
  ticks-Recent :
      (all ts : List Tick) (s : Server V) (u : Tick) (now : ℕ)
      → Among u all
      → Shows s now u
      → ((t : Tick) → Among t ts → Among t all)
      → Forward now ts
      → Recent all (download_ticks stage expected (some u.now) ts s) (final_time now ts)
  unfolding download_ticks
  ticks-Recent all [] s u now m h sub f = (u, (m, h))
  ticks-Recent all (t ∷ ts) s u now m h sub f =
      let r = progress expected (some u.now) t in
      let next = λ (l : Option ℕ).
        Recent all (download_ticks stage expected l ts (reported stage r.0 s))
          (final_time t.now ts) in
      elim (tick-Shows s u t h.0 (omega (arith, h.1, f.0))) [
        | inl (e, k) ↦
            subst next (sym e) (ticks-Recent all ts _ u t.now m k (λ x i. sub x (inr i)) f.1)
        | inr (e, k) ↦
            subst next (sym e)
              (ticks-Recent all ts _ t t.now (sub t (inl refl)) k (λ x i. sub x (inr i)) f.1)
      ]

  download-Recent :
      (t : Tick) (ts : List Tick) (s : Server V)
      → Forward t.now ts
      → Recent (t ∷ ts) (download_ticks stage expected none (t ∷ ts) s) (final_time t.now ts)
  unfolding download_ticks
  download-Recent t ts s f =
      let r = progress expected none t in
      let next = λ (l : Option ℕ).
        Recent (t ∷ ts) (download_ticks stage expected l ts (reported stage r.0 s))
          (final_time t.now ts) in
      let (e, k) = first-Shows s t in
      subst next (sym e) (ticks-Recent (t ∷ ts) ts _ t t.now (inl refl) k (λ x i. inr i) f)

  reported_kept :
      (r : Option (ℕ × ℤ)) (s : Server V)
      → ((reported stage r s).backend ≡ s.backend)
        × ((reported stage r s).shutdown_closed ≡ s.shutdown_closed)
  unfolding reported reporter set_bootstrap_status
  reported_kept none s = (refl, refl)
  reported_kept (some x) s = (refl, refl)

  pub ticks_kept :
      (last : Option ℕ) (ts : List Tick) (s : Server V)
      → let r = download_ticks stage expected last ts s in
        (r.backend ≡ s.backend) × (r.shutdown_closed ≡ s.shutdown_closed)
  unfolding download_ticks
  ticks_kept last [] s = (refl, refl)
  ticks_kept last (t ∷ ts) s =
      let r = progress expected last t in
      ground (arith, reported_kept r.0 s, ticks_kept r.1 ts (reported stage r.0 s))

module _ {V : Type 0} (E : Embedder V) (stage : Bytes) (expected : ℤ) where
  -- While a first download goes on, after some calls of its ProgressFunc with a clock that is not set
  -- back, and before a backend or a shutdown: Health reports LOADING, with the phase and the message of the
  -- stage and the bytes and the total of one of the calls, less than 2 s older than the last one; this
  -- total is the expected one if that is positive, and else that of the call, which is -1 where the
  -- response tells no length.
  pub download_health :
      (t : Tick) (ts : List Tick) (s : Server V) (w : E.State) (now : ℕ)
      → s.backend ≡ false
      → s.shutdown_closed ≡ false
      → Forward t.now ts
      → let r = (health E now (download_ticks stage expected none (t ∷ ts) s) w).0 in
        (r.status ≡ status_loading)
        × (r.phase ≡ (stage_phase stage).0)
        × (r.message ≡ (stage_phase stage).1)
        × ((u : Tick) × (Among u (t ∷ ts)
              × (r.bytes_done ≡ u.downloaded)
              × (r.bytes_total ≡ total_of expected u)
              × (final_time t.now ts < u.now + progress_log_interval)))
  unfolding health backend_health loading_response
  download_health t ts s w now b c f =
      let (u, (m, (e, l, q))) = download-Recent stage expected t ts s f in
      let kept = ticks_kept stage expected none (t ∷ ts) s in
      (ground arith, ground arith, ground arith, (u, (m, ground arith, ground arith, q)))
