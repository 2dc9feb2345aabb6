-- ===== src/Server/Embed.antt =====
-- The Embed and EmbedBatch handlers. The centroid set is read once, before the backend is asked; the
-- router assigns with this snapshot, whatever SetCentroids installs meanwhile.
pub mod Laws
use runed.Prelude.{
  ℕ, zero, suc, ◌+◌, Bool, true, false, List, map, Option, none, some, Bytes, Result,
}
use runed.Prelude.{ok, err, if◌then◌else◌, [], ◌∷◌}
use runed.Route.Floats.{Floats}
use runed.Route.Set.{CentroidSet}
use runed.Route.Assign.{assign}
use runed.Backend.Types.{BackendError}
use runed.Backend.Embed.{EmbedError, not_started}
use runed.Server.Types.{
  Server, Embedder, RpcError, precondition, backend_not_ready, embed_failed, kept_suspending,
  bootstrapping, no_centroid_set, EmbedResponse,
}

abbrev pub embed_max_attempts : ℕ
embed_max_attempts = 2

-- Both guards: the set to route with, if the request wants a route.
unfoldable pub admit : {V : Type 0} → Bool → Server V → Result RpcError (Option (CentroidSet V))
admit with_route s =
    if s.backend
    then (if with_route
        then elim s.centroids [ none ↦ err (precondition no_centroid_set) | some cs ↦ ok (some cs) ]
        else ok none)
    else err (precondition bootstrapping)

module _ (F : Floats) where
  unfoldable pub respond : Option (CentroidSet F.F32) → List F.F32 → EmbedResponse F.F32
  unfolding assign
  respond none vec = record { vector = vec; cluster_id = 0; centroid_set_version = [] }
  respond (some cs) vec = record {
    vector = vec;
    cluster_id = assign F cs vec;
    centroid_set_version = cs.version;
  }

-- The retry loop, over the call of the backend: `attempts` are left.
module _ {V A : Type 0} (E : Embedder V) (run : E.State → Result EmbedError A × E.State) where
  unfoldable pub after_run :
      (E.State → Result RpcError A × E.State)
      → Result EmbedError A × E.State
      → Result RpcError A × E.State
  after_run again (ok a, t) = (ok a, t)
  after_run again (err not_started, t) = again t
  after_run again (err e, t) = (err (embed_failed e), t)

  unfoldable pub after_ensure :
      (E.State → Result RpcError A × E.State)
      → Option BackendError × E.State
      → Result RpcError A × E.State
  unfolding after_run
  after_ensure again (some e, t) = (err (backend_not_ready e), t)
  after_ensure again (none, t) = after_run again (run t)

  unfoldable pub attempt : ℕ → E.State → Result RpcError A × E.State
  unfolding after_ensure
  attempt zero t = (err kept_suspending, t)
  attempt (suc n) t = after_ensure (attempt n) (E.ensure_started t)

module _ (F : Floats) (E : Embedder F.F32) where
  -- The response, and the states of the service and the backend.
  abbrev pub Handled : Type 0 → Type 0
  Handled A = Result RpcError A × Server F.F32 × E.State

  abbrev pub map_result : {A B : Type 0} → (A → B) → Result RpcError A → Result RpcError B
  map_result f (ok a) = ok (f a)
  map_result f (err e) = err e

  abbrev count_request : Server F.F32 → Server F.F32
  count_request s = record s { requests = s.requests + 1 }

  unfoldable pub serve_admitted :
      {A B : Type 0}
      → (E.State → Result EmbedError A × E.State)
      → (Option (CentroidSet F.F32) → A → B)
      → Result RpcError (Option (CentroidSet F.F32))
      → Server F.F32
      → E.State
      → Handled B
  serve_admitted run reply (err e) s t = (err e, s, t)
  serve_admitted run reply (ok route) s t =
      let r = attempt E run embed_max_attempts t in
      (map_result (reply route) r.0, count_request s, r.1)

  unfoldable pub embed : Bytes → Bool → Server F.F32 → E.State → Handled (EmbedResponse F.F32)
  embed text with_route s t = serve_admitted (E.embed text) (respond F) (admit with_route s) s t

  unfoldable pub embed_batch :
      List Bytes → Bool → Server F.F32 → E.State → Handled (List (EmbedResponse F.F32))
  embed_batch texts with_route s t =
      serve_admitted (E.embed_batch texts) (λ route vecs. map (respond F route) vecs)
        (admit with_route s) s t
