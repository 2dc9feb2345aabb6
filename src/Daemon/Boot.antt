-- ===== src/Daemon/Boot.antt =====
-- Parts of run(): the context size from the environment, the restored centroid set, the phases of
-- the bootstrap, and the idle timeout.
pub mod Restart
use runed.Prelude.{ℕ, Bool, true, false, Option, none, some, Bytes, text, bytes_eq, Result, ok, err}
use runed.Prelude.{if◌then◌else◌, is_empty, ◌*◌, ◌==◌, List, [], ◌∷◌}
use runed.Route.Floats.{Floats}
use runed.Route.Cache.{Disk, Codec, load}
use runed.Server.Types.{
  Server, Phase, phase_unspecified, phase_fetching_llama_server, phase_fetching_model,
}
use runed.Server.Centroids.{load_centroids}

-- The centroid set of the disk cache, if it can be loaded and fits; both failures leave the server
-- as it is.
unfoldable pub restore_centroids :
    (F : Floats) → (Bytes → Bytes) → Codec F.F32 → Bytes → Disk → Server F.F32 → Server F.F32
restore_centroids F sha256 gob dir d s = elim (load F sha256 gob dir d) [
  | err e ↦ s
  | ok cs ↦ (load_centroids (some cs) s).1
]

-- `atoi` is strconv.Atoi; what is negative is no number here. 0 stands for the backend's default.
unfoldable pub ctx_size_from_env : (Bytes → Option ℕ) → Bytes → ℕ
ctx_size_from_env atoi v = if is_empty v then 0 else elim (atoi v) [ none ↦ 0 | some n ↦ n ]

unfoldable pub stage_phase : Bytes → Phase × Bytes
unfolding bytes_eq
stage_phase stage =
    if bytes_eq stage (text "llama_server")
    then (phase_fetching_llama_server, text "fetching llama-server")
    else if bytes_eq stage (text "model")
    then (phase_fetching_model, text "fetching embedding model")
    else (phase_unspecified, [])

-- `parse_duration` is time.ParseDuration, in nanoseconds.
unfoldable pub parse_idle_timeout : (Bytes → Option ℕ) → Bytes → Option ℕ
parse_idle_timeout parse_duration raw =
    if is_empty raw then some (10 * 60 * 1000000000) else parse_duration raw
