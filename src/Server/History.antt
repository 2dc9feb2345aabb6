-- ===== src/Server/History.antt =====
-- The calls that change the service (internal/server/server.go, centroids.go), one after another, and
-- what can be seen of the service at the end: a specification by the history of the calls alone.
pub mod Seen
use runed.Prelude.{
  ℤ, ℕ, ◌+◌, ◌%◌, ◌^◌, Bool, true, false, List, [], ◌∷◌, Option, none, some, Bytes, text, Result,
  ok, err, not, ◌&&◌, ◌||◌, if◌then◌else◌, is_some,
}
use runed.Route.Floats.{Floats}
use runed.Route.Set.{CentroidSet}
use runed.Route.Cache.{Disk, Codec, PersistCalls}
use runed.Server.Types.{Server, RpcError, Embedder, Phase, BootstrapState}
use runed.Server.Wiring.{
  set_backend, set_bootstrap_status, trigger_shutdown, shutdown, stamp_activity,
}
use runed.Server.Embed.{embed, embed_batch}
use runed.Server.Methods.{intercept}
use runed.Server.Centroids.{Frame, StreamEnd, set_centroids, collect, accept}

-- A call from the daemon or, after the stamp of its time, from the interceptor.
pub data Op (V : Type 0) : Type 0 where
  op_status : Phase → ℕ → ℤ → Bytes → Op V
  op_backend : ℕ → Bytes → Op V
  op_trigger : Op V
  op_shutdown : ℕ → Op V
  op_query : ℕ → Op V  -- Health or Info
  op_embed : ℕ → Bytes → Bool → Op V
  op_embed_batch : ℕ → List Bytes → Bool → Op V
  op_set_centroids : List (Frame V) → StreamEnd → Bytes → PersistCalls → Op V

-- The full paths of the two methods.
abbrev pub embed_method : Bytes
embed_method = text "/runed.v1.RunedService/Embed"

abbrev pub embed_batch_method : Bytes
embed_batch_method = text "/runed.v1.RunedService/EmbedBatch"

module _ (F : Floats) (sha256 : Bytes → Bytes) (gob : Codec F.F32) (E : Embedder F.F32) where
  -- The service, its backend and the disk.
  abbrev pub World : Type 0
  World = Server F.F32 × E.State × Disk

  unfoldable pub run_op : Op F.F32 → World → World
  run_op (op_status phase done total message) (s, t, d) =
      (set_bootstrap_status phase done total message s, t, d)
  run_op (op_backend ctx model) (s, t, d) = (set_backend ctx model s, t, d)
  run_op op_trigger (s, t, d) = (trigger_shutdown s, t, d)
  run_op (op_shutdown now) (s, t, d) = ((shutdown (stamp_activity now s)).1, t, d)
  run_op (op_query now) (s, t, d) = (stamp_activity now s, t, d)
  run_op (op_embed now t with_route) (s, w, d) =
      let r = (intercept now embed_method (embed F E t with_route) s w).0 in (r.1, r.2, d)
  run_op (op_embed_batch now texts with_route) (s, t, d) =
      let r = (intercept now embed_batch_method (embed_batch F E texts with_route) s t).0 in
      (r.1, r.2, d)
  run_op (op_set_centroids frames end suffix calls) (s, t, d) =
      let r = set_centroids F sha256 gob frames end suffix calls s d in (r.1, t, r.2)

  -- The last call first.
  unfoldable pub run_ops : List (Op F.F32) → World → World
  unfolding run_op
  run_ops [] w = w
  run_ops (o ∷ ops) w = run_op o (run_ops ops w)

-- The specification, by the calls alone.
module _ {V : Type 0} where
  -- Has a shutdown been asked for?
  unfoldable pub shutdown_asked : List (Op V) → Bool
  shutdown_asked [] = false
  shutdown_asked (op_trigger ∷ ops) = true
  shutdown_asked (op_shutdown now ∷ ops) = true
  shutdown_asked (_ ∷ ops) = shutdown_asked ops

  -- The context size and the model of the last SetBackend.
  unfoldable pub last_backend : List (Op V) → Option (ℕ × Bytes)
  last_backend [] = none
  last_backend (op_backend ctx model ∷ ops) = some (ctx, model)
  last_backend (_ ∷ ops) = last_backend ops

  unfoldable pub last_status : List (Op V) → Option BootstrapState
  last_status [] = none
  last_status (op_status phase done total message ∷ ops) =
      some (record { phase = phase; bytes_done = done; bytes_total = total; message = message })
  last_status (_ ∷ ops) = last_status ops

  unfoldable pub last_stamp : ℕ → List (Op V) → ℕ
  last_stamp start [] = start
  last_stamp start (op_shutdown now ∷ ops) = now
  last_stamp start (op_query now ∷ ops) = now
  last_stamp start (op_embed now text with_route ∷ ops) = now
  last_stamp start (op_embed_batch now texts with_route ∷ ops) = now
  last_stamp start (_ ∷ ops) = last_stamp start ops

  unfoldable pub newer_set :
      Result RpcError (CentroidSet V) → Option (CentroidSet V) → Option (CentroidSet V)
  newer_set (err e) old = old
  newer_set (ok cs) old = some cs

module _ (F : Floats) (sha256 : Bytes → Bytes) where
  -- The last set that was accepted, or else the one restored from the cache.
  unfoldable pub last_set :
      Option (CentroidSet F.F32) → List (Op F.F32) → Option (CentroidSet F.F32)
  unfolding newer_set
  last_set restored [] = restored
  last_set restored (op_set_centroids frames end suffix calls ∷ ops) =
      newer_set (accept F sha256 (collect none frames end)) (last_set restored ops)
  last_set restored (_ ∷ ops) = last_set restored ops

  -- A request is admitted once a backend was set and, if it wants a route, there is a set.
  unfoldable pub admitted : Option (CentroidSet F.F32) → List (Op F.F32) → Bool → ℕ
  unfolding last_backend last_set
  admitted restored ops with_route =
      if is_some (last_backend ops) && (not with_route || is_some (last_set restored ops))
      then 1
      else 0

  unfoldable pub requests_of : Option (CentroidSet F.F32) → List (Op F.F32) → ℕ
  unfolding admitted
  requests_of restored [] = 0
  requests_of restored (op_embed now text with_route ∷ ops) =
      requests_of restored ops + admitted restored ops with_route
  requests_of restored (op_embed_batch now texts with_route ∷ ops) =
      requests_of restored ops + admitted restored ops with_route
  requests_of restored (_ ∷ ops) = requests_of restored ops
