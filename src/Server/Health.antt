-- ===== src/Server/Health.antt =====
-- The Health handler.
pub mod Laws
use runed.Prelude.{ℤ, pos, ℕ, ◌-◌, ◌/◌, Bool, true, false, Option, none, some, Bytes, text, []}
use runed.Backend.Types.{ServingState, serving_ok, serving_idle, serving_degraded}
use runed.Server.Types.{Server, Embedder, BootstrapState, Phase, phase_unspecified}

pub data Status : Type 0 where
  status_loading status_ok status_idle status_degraded status_shutting_down : Status

pub record HealthResponse : Type 0 where
  pub status : Status
  pub uptime_seconds : ℕ
  pub total_requests : ℕ
  pub phase : Phase
  pub bytes_done : ℕ
  pub bytes_total : ℤ
  pub message : Bytes

abbrev pub idle_message : Bytes
idle_message =
    text "embedder suspended after idle to free memory; the next request resumes it automatically"

-- `base` has the fields that every response carries.
unfoldable pub loading_response : HealthResponse → Option BootstrapState → HealthResponse
loading_response base none = record base { status = status_loading }
loading_response base (some b) = record base {
  status = status_loading;
  phase = b.phase;
  bytes_done = b.bytes_done;
  bytes_total = b.bytes_total;
  message = b.message;
}

unfoldable pub serving_response : HealthResponse → ServingState → HealthResponse
serving_response base serving_idle = record base { status = status_idle; message = idle_message }
serving_response base serving_degraded = record base { status = status_degraded }
serving_response base serving_ok = record base { status = status_ok }

abbrev base_response : {V : Type 0} → Server V → ℕ → HealthResponse
base_response s now = record {
  status = status_ok;
  uptime_seconds = (now - s.started_at) / 1000000000;
  total_requests = s.requests;
  phase = phase_unspecified;
  bytes_done = 0;
  bytes_total = pos 0;
  message = [];
}

module _ {V : Type 0} (E : Embedder V) where
  unfoldable pub backend_health :
      HealthResponse → Bool → Option BootstrapState → E.State → HealthResponse × E.State
  unfolding loading_response serving_response
  backend_health base false status t = (loading_response base status, t)
  backend_health base true status t = let r = E.serving t in (serving_response base r.0, r.1)

  -- `now` is time.Now() at the call. Health returns no error.
  unfoldable pub health : ℕ → Server V → E.State → HealthResponse × E.State
  unfolding backend_health
  health now s t = elim s.shutdown_closed [
    | true ↦ (record (base_response s now) { status = status_shutting_down }, t)
    | false ↦ backend_health (base_response s now) s.backend s.bootstrap_status t
  ]
