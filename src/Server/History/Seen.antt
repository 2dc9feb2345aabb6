-- ===== src/Server/History/Seen.antt =====
-- The service after any calls is the one that their history specifies.
use runed.Prelude.{
  ℕ, ◌+◌, ◌%◌, ◌^◌, ◌≡◌, refl, arith, Bool, not, ◌&&◌, ◌||◌, List, [], ◌∷◌, Option, none, some,
  Bytes, Result, ok, err, is_some, if◌then◌else◌, ap, ◌∙◌,
}
use runed.Route.Floats.{Floats}
use runed.Route.Set.{CentroidSet}
use runed.Route.Cache.{Disk, Codec, PersistCalls}
use runed.Backend.Embed.{EmbedError}
use runed.Server.Types.{Server, Embedder, RpcError}
use runed.Server.Wiring.{
  new, set_backend, set_bootstrap_status, trigger_shutdown, shutdown, stamp_activity,
}
use runed.Server.Methods.{intercept}
use runed.Server.Embed.{admit, serve_admitted, embed, embed_batch}
use runed.Server.Centroids.{Frame, StreamEnd, set_centroids, collect, accept, finish, install}
use runed.Server.History.{
  Op, op_status, op_backend, op_trigger, op_shutdown, op_query, op_embed, op_embed_batch,
  op_set_centroids, World, run_ops, shutdown_asked, last_backend, last_status, newer_set, last_set,
  admitted, requests_of, last_stamp,
}

-- The model and the context size that the last SetBackend has left.
abbrev model_of : Option (ℕ × Bytes) → Bytes
model_of none = []
model_of (some (ctx, model)) = model

abbrev length_of : Option (ℕ × Bytes) → ℕ
length_of none = 0
length_of (some (ctx, model)) = ctx % 2 ^ 32

abbrev counted : Bool → ℕ
counted b = if b then 1 else 0

module _ (F : Floats) (E : Embedder F.F32) where
  serve_admitted_server :
      {A B : Type 0} (run : E.State → Result EmbedError A × E.State)
      (reply : Option (CentroidSet F.F32) → A → B) (with_route : Bool) (s : Server F.F32)
      (t : E.State)
      → (serve_admitted F E run reply (admit with_route s) s t).1 ≡ record s {
        requests = s.requests + counted (s.backend && (not with_route || is_some s.centroids));
      }
  unfolding serve_admitted admit
  serve_admitted_server run reply with_route s t = ground arith

module _ (F : Floats) (sha256 : Bytes → Bytes) where
  -- The service as the calls `ops` say, after New, SetCentroidCacheDir and the restored set.
  abbrev pub specified :
      Bytes → ℕ → Bytes → Option (CentroidSet F.F32) → List (Op F.F32) → Server F.F32
  specified version start dir restored ops =
      let b = last_backend ops in
      record {
        backend = is_some b;
        version = version;
        started_at = start;
        model_identity = model_of b;
        max_text_length = length_of b;
        bootstrap_status = last_status ops;
        centroids = last_set F sha256 restored ops;
        centroid_cache_dir = dir;
        requests = requests_of F sha256 restored ops;
        shutdown_closed = shutdown_asked ops;
        last_activity = last_stamp start ops;
      }

-- What a request of Embed or EmbedBatch makes of the service.
abbrev served : {V : Type 0} → ℕ → Bool → Server V → Server V
served now with_route s = record s {
  last_activity = now;
  requests = s.requests + counted (s.backend && (not with_route || is_some s.centroids));
}

module _ (F : Floats) (sha256 : Bytes → Bytes) (gob : Codec F.F32) where
  finish_server :
      (a : Result RpcError (CentroidSet F.F32)) (suffix : Bytes) (calls : PersistCalls)
      (s : Server F.F32) (d : Disk)
      → (finish F sha256 gob a suffix calls s d).1
        ≡ record s { centroids = newer_set a s.centroids }
  unfolding finish install newer_set
  finish_server (err e) suffix calls s d = refl
  finish_server (ok cs) suffix calls s d = ground arith

  set_centroids_server :
      (frames : List (Frame F.F32)) (end : StreamEnd) (suffix : Bytes) (calls : PersistCalls)
      (s : Server F.F32) (d : Disk)
      → (set_centroids F sha256 gob frames end suffix calls s d).1
        ≡ record s { centroids = newer_set (accept F sha256 (collect none frames end)) s.centroids }
  unfolding set_centroids
  set_centroids_server frames end suffix calls s d = finish_server _ suffix calls s d

module _ (F : Floats) (sha256 : Bytes → Bytes) (gob : Codec F.F32) (E : Embedder F.F32)
    (version : Bytes) (start : ℕ) (dir : Bytes) (restored : Option (CentroidSet F.F32))
    (t : E.State) (d : Disk) where
  abbrev pub begin : World F sha256 gob E
  begin = (record (new version start) { centroid_cache_dir = dir; centroids = restored }, t, d)

  -- After any calls, whatever the backend answers and whatever of the cache's files fails, the service is
  -- what the history of the calls says: a shutdown is final; the backend, its model and limit and the
  -- bootstrap status are those of the last call of their kind; the centroid set is the last one that was
  -- accepted, or the restored one; the requests counted are those made when there was a backend and, if
  -- they wanted a route, a set; and the last activity is the last unary RPC, which SetCentroids is not.
  pub run_ops-specified :
      (ops : List (Op F.F32))
      → (run_ops F sha256 gob E ops begin).0 ≡ specified F sha256 version start dir restored ops
  unfolding run_ops new set_bootstrap_status set_backend shutdown stamp_activity intercept embed
      embed_batch admitted requests_of last_stamp shutdown_asked last_status last_backend last_set
  run_ops-specified [] = refl
  run_ops-specified (op_status phase done total message ∷ ops) =
      ap (set_bootstrap_status phase done total message) (run_ops-specified ops)
  run_ops-specified (op_backend ctx model ∷ ops) =
      ap (set_backend ctx model) (run_ops-specified ops)
  run_ops-specified (op_trigger ∷ ops) = ap trigger_shutdown (run_ops-specified ops)
  run_ops-specified (op_shutdown now ∷ ops) =
      ap (λ s. trigger_shutdown (stamp_activity now s)) (run_ops-specified ops)
  run_ops-specified (op_query now ∷ ops) = ap (stamp_activity now) (run_ops-specified ops)
  run_ops-specified (op_embed now text with_route ∷ ops) =
      serve_admitted_server F E _ _ with_route _ _
      ∙ ap (served now with_route) (run_ops-specified ops)
  run_ops-specified (op_embed_batch now texts with_route ∷ ops) =
      serve_admitted_server F E _ _ with_route _ _
      ∙ ap (served now with_route) (run_ops-specified ops)
  run_ops-specified (op_set_centroids frames end suffix calls ∷ ops) =
      set_centroids_server F sha256 gob frames end suffix calls _ _
      ∙ ap
          (λ (s : Server F.F32). record s {
            centroids = newer_set (accept F sha256 (collect none frames end)) s.centroids;
          })
          (run_ops-specified ops)
