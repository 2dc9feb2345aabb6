-- ===== src/Server/Wiring.antt =====
-- New, SetBackend, SetBootstrapStatus, TriggerShutdown, Shutdown, Info and the activity stamp.
pub mod Order
use runed.Prelude.{ℤ, ℕ, ◌%◌, ◌^◌, Bool, true, false, List, [], ◌∷◌, Option, none, some, Bytes}
use runed.Route.Set.{CentroidSet}
use runed.Server.Types.{Server, Embedder, BootstrapState, Phase, vector_dim, max_batch_size}

pub record InfoResponse : Type 0 where
  pub daemon_version : Bytes
  pub model_identity : Bytes
  pub vector_dim : ℕ
  pub max_text_length : ℕ
  pub max_batch_size : ℕ
  pub centroid_set_version : Bytes

module _ {V : Type 0} where
  -- `now` is time.Now() at the call.
  unfoldable pub new : Bytes → ℕ → Server V
  new version now = record {
    backend = false;
    version = version;
    started_at = now;
    model_identity = [];
    max_text_length = 0;
    bootstrap_status = none;
    centroids = none;
    centroid_cache_dir = [];
    requests = 0;
    shutdown_closed = false;
    last_activity = now;
  }

  -- The three atomic stores of SetBackend, in order. int32(ctx) keeps the low 32 bits.
  abbrev pub set_backend_stores : ℕ → Bytes → List (Server V → Server V)
  set_backend_stores ctx model =
      (λ s. record s { max_text_length = ctx % 2 ^ 32 })
      ∷ (λ s. record s { model_identity = model })
      ∷ (λ s. record s { backend = true })
      ∷ []

  abbrev pub run_stores : List (Server V → Server V) → Server V → Server V
  run_stores [] s = s
  run_stores (f ∷ fs) s = run_stores fs (f s)

  unfoldable pub set_backend : ℕ → Bytes → Server V → Server V
  set_backend ctx model s = run_stores (set_backend_stores ctx model) s

  unfoldable pub set_bootstrap_status : Phase → ℕ → ℤ → Bytes → Server V → Server V
  set_bootstrap_status phase done total message s = record s {
    bootstrap_status =
        some (record { phase = phase; bytes_done = done; bytes_total = total; message = message });
  }

  -- sync.Once: closing a closed channel would panic, and is not done twice.
  unfoldable pub trigger_shutdown : Server V → Server V
  trigger_shutdown s = record s { shutdown_closed = true }

  unfoldable pub shutdown : Server V → Bool × Server V
  unfolding trigger_shutdown
  shutdown s = (true, trigger_shutdown s)

  unfoldable pub stamp_activity : ℕ → Server V → Server V
  stamp_activity now s = record s { last_activity = now }

  abbrev set_version : Option (CentroidSet V) → Bytes
  set_version none = []
  set_version (some cs) = cs.version

  unfoldable pub info : Server V → InfoResponse
  info s = record {
    daemon_version = s.version;
    model_identity = s.model_identity;
    vector_dim = vector_dim;
    max_text_length = s.max_text_length;
    max_batch_size = max_batch_size;
    centroid_set_version = set_version s.centroids;
  }
