-- ===== src/Server/Centroids.antt =====
-- SetCentroids and LoadCentroids. The stream is the list of the frames that Recv returns and how it
-- ends. A header's nlist is only a capacity hint and has no effect on the set.
pub mod Laws
use runed.Prelude.{ℕ, ◌%◌, ◌^◌, Bool, true, false, List, [], ◌∷◌, ◌++◌, Option, none, some, Bytes}
use runed.Prelude.{is_empty, length, if◌then◌else◌, Result, ok, err}
use runed.Route.Floats.{Floats}
use runed.Route.Set.{CentroidSet, RouteError, validate, set_empty}
use runed.Route.Version.{verify_version}
use runed.Route.Cache.{Disk, Codec, PersistCalls, persist}
use runed.Server.Types.{
  Server, RpcError, duplicate_header, batch_before_header, header_required, invalid_set,
  recv_failed, vector_dim,
}

unfoldable pub load_centroids :
    {V : Type 0} → Option (CentroidSet V) → Server V → Result RouteError (Unit {0}) × Server V
load_centroids none s = (err set_empty, s)
load_centroids (some cs) s = elim (validate (some cs) vector_dim) [
  | err e ↦ (err e, s)
  | ok _ ↦ (ok tt, record s { centroids = some cs })
]

-- The payloads of a SetCentroidsRequest; the last is a message with none.
pub data Frame (V : Type 0) : Type 0 where
  header : Bytes → ℕ → Bytes → Frame V
  batch : List (List V) → Frame V
  no_payload : Frame V

pub data StreamEnd : Type 0 where
  eof broken : StreamEnd

pub record SetCentroidsResponse : Type 0 where
  pub version : Bytes
  pub nlist : ℕ

-- The Recv loop, with the set assembled so far.
unfoldable pub collect :
    {V : Type 0}
    → Option (CentroidSet V)
    → List (Frame V)
    → StreamEnd
    → Result RpcError (Option (CentroidSet V))
collect cs [] eof = ok cs
collect cs [] broken = err recv_failed
collect none (header version dim preset ∷ frames) end =
    collect (some (record { version = version; dim = dim; preset = preset; vectors = [] })) frames
      end
collect (some cs) (header version dim preset ∷ frames) end = err duplicate_header
collect none (batch rows ∷ frames) end = err batch_before_header
collect (some cs) (batch rows ∷ frames) end =
    collect (some (record cs { vectors = cs.vectors ++ rows })) frames end
collect cs (no_payload ∷ frames) end = collect cs frames end

module _ (F : Floats) (sha256 : Bytes → Bytes) where
  -- The checks after the loop.
  unfoldable pub accept :
      Result RpcError (Option (CentroidSet F.F32)) → Result RpcError (CentroidSet F.F32)
  accept (err e) = err e
  accept (ok none) = err header_required
  accept (ok (some cs)) = elim (validate (some cs) vector_dim) [
    | err e ↦ err (invalid_set e)
    | ok _ ↦ elim (verify_version F sha256 cs) [ err e ↦ err (invalid_set e) | ok _ ↦ ok cs ]
  ]

module _ (F : Floats) (sha256 : Bytes → Bytes) (gob : Codec F.F32) where
  -- The tail under installMu: the set in memory and its cache on disk. A failure to persist is only
  -- logged.
  unfoldable pub install :
      CentroidSet F.F32 → Bytes → PersistCalls → Server F.F32 → Disk → Server F.F32 × Disk
  install cs suffix calls s d =
      let live = record s { centroids = some cs } in
      if is_empty s.centroid_cache_dir
      then (live, d)
      else (live, (persist gob cs s.centroid_cache_dir suffix calls d).1)

  unfoldable pub finish :
      Result RpcError (CentroidSet F.F32)
      → Bytes
      → PersistCalls
      → Server F.F32
      → Disk
      → Result RpcError SetCentroidsResponse × Server F.F32 × Disk
  finish (err e) suffix calls s d = (err e, s, d)
  finish (ok cs) suffix calls s d =
      let r = install cs suffix calls s d in
      (ok (record { version = cs.version; nlist = length cs.vectors % 2 ^ 32 }), r.0, r.1)

  unfoldable pub set_centroids :
      List (Frame F.F32)
      → StreamEnd
      → Bytes
      → PersistCalls
      → Server F.F32
      → Disk
      → Result RpcError SetCentroidsResponse × Server F.F32 × Disk
  unfolding accept finish
  set_centroids frames end suffix calls s d =
      finish (accept F sha256 (collect none frames end)) suffix calls s d
