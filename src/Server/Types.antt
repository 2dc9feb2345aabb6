-- ===== src/Server/Types.antt =====
-- The state of `Server`, its requests and responses, and the backend as the service uses it.
use runed.Prelude.{ℤ, ℕ, Bool, List, Option, Bytes, Result}
use runed.Backend.Types.{BackendError, ServingState}
use runed.Backend.Embed.{EmbedError}
use runed.Route.Set.{CentroidSet, RouteError}

-- The operations of *backend.LlamaBackend that the service calls, each with the state it leaves.
pub record Embedder (V : Type 0) : Type 1 where
  pub State : Type 0
  pub ctx_size : State → ℕ
  pub ensure_started : State → Option BackendError × State
  pub embed : Bytes → State → Result EmbedError (List V) × State
  pub embed_batch : List Bytes → State → Result EmbedError (List (List V)) × State
  pub serving : State → ServingState × State

abbrev pub vector_dim : ℕ
vector_dim = 1024

abbrev pub max_batch_size : ℕ
max_batch_size = 32

pub data Phase : Type 0 where
  phase_unspecified phase_fetching_llama_server phase_fetching_model : Phase
  phase_starting_llama_server : Phase

pub record BootstrapState : Type 0 where
  pub phase : Phase
  pub bytes_done : ℕ
  pub bytes_total : ℤ
  pub message : Bytes

-- `backend` says whether the pointer is set; the backend's own state is apart. `max_text_length` is
-- the bit pattern of an int32, the counter of requests is not bounded, times are nanoseconds.
pub record Server (V : Type 0) : Type 0 where
  pub backend : Bool
  pub version : Bytes
  pub started_at : ℕ
  pub model_identity : Bytes
  pub max_text_length : ℕ
  pub bootstrap_status : Option BootstrapState
  pub centroids : Option (CentroidSet V)
  pub centroid_cache_dir : Bytes
  pub requests : ℕ
  pub shutdown_closed : Bool
  pub last_activity : ℕ

pub data Reason : Type 0 where
  bootstrapping no_centroid_set : Reason

pub data RpcError : Type 0 where
  -- FAILED_PRECONDITION with its machine-readable reason
  precondition : Reason → RpcError
  backend_not_ready : BackendError → RpcError
  embed_failed : EmbedError → RpcError
  kept_suspending : RpcError
  -- INVALID_ARGUMENT
  duplicate_header batch_before_header header_required : RpcError
  invalid_set : RouteError → RpcError
  recv_failed : RpcError

pub record EmbedResponse (V : Type 0) : Type 0 where
  pub vector : List V
  pub cluster_id : ℕ
  pub centroid_set_version : Bytes
