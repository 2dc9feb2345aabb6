-- ===== src/Server/Health/Laws.antt =====
-- The status that Health reports, exactly.
use runed.Prelude.{ℕ, ◌-◌, ◌/◌, ◌≡◌, ◌↔◌, arith, true, false}
use runed.Backend.Types.{ServingState, serving_ok, serving_idle, serving_degraded}
use runed.Server.Types.{Server, Embedder}
use runed.Server.Health.{
  health, status_loading, status_ok, status_idle, status_degraded, status_shutting_down,
}

-- The daemon is up: no shutdown has begun, and the backend is set and in this state.
abbrev pub Up : {V : Type 0} → (E : Embedder V) → Server V → E.State → ServingState → Type 0
Up E s t v = (s.shutdown_closed ≡ false) × (s.backend ≡ true) × ((E.serving t).0 ≡ v)

-- Health reports SHUTTING_DOWN exactly once shutdown has begun, LOADING exactly if it has not and
-- there is no backend, and OK, IDLE or DEGRADED exactly if the daemon is up and the backend says
-- so. The uptime and the number of requests are told in every state.
health_status :
    {V : Type 0} (E : Embedder V) (now : ℕ) (s : Server V) (t : E.State)
    → let r = (health E now s t).0 in
      ((r.status ≡ status_shutting_down) ↔ (s.shutdown_closed ≡ true))
      × ((r.status ≡ status_loading) ↔ ((s.shutdown_closed ≡ false) × (s.backend ≡ false)))
      × ((r.status ≡ status_ok) ↔ Up E s t serving_ok)
      × ((r.status ≡ status_idle) ↔ Up E s t serving_idle)
      × ((r.status ≡ status_degraded) ↔ Up E s t serving_degraded)
      × (r.uptime_seconds ≡ (now - s.started_at) / 1000000000)
      × (r.total_requests ≡ s.requests)
unfolding health
health_status E now s t = ground arith
