-- ===== src/Server/Centroids/Laws.antt =====
-- What SetCentroids accepts, and that a refused push changes nothing.
use runed.Prelude.{ℕ, suc, ◌%◌, ◌^◌, ◌≡◌, arith, List, [], ◌∷◌, ◌++◌}
use runed.Prelude.{Option, none, some, Bytes, length, Result, ok, err}
use runed.Route.Floats.{Floats}
use runed.Route.Set.{CentroidSet, validate}
use runed.Route.Set.Laws.{IsWellFormed}
use runed.Route.Version.{verify_version}
use runed.Route.Cache.{Codec}
use runed.Server.Types.{Server, vector_dim, RpcError}
use runed.Server.Centroids.{Frame, header, batch, no_payload, accept, SetCentroidsResponse}

module _ {V : Type 0} where
  abbrev pub headers : List (Frame V) → ℕ
  headers [] = 0
  headers (header v d p ∷ frames) = suc (headers frames)
  headers (batch rows ∷ frames) = headers frames
  headers (no_payload ∷ frames) = headers frames

  -- The centroids of all batches, in the order of arrival.
  abbrev pub all_rows : List (Frame V) → List (List V)
  all_rows [] = []
  all_rows (header v d p ∷ frames) = all_rows frames
  all_rows (batch rows ∷ frames) = rows ++ all_rows frames
  all_rows (no_payload ∷ frames) = all_rows frames

module _ (F : Floats) (sha256 : Bytes → Bytes) where
  pub accept_ok :
      (r : Result RpcError (Option (CentroidSet F.F32))) (cs : CentroidSet F.F32)
      → accept F sha256 r ≡ ok cs
      → (r ≡ ok (some cs))
        × ((validate (some cs) vector_dim ≡ ok tt) × (verify_version F sha256 cs ≡ ok tt))
  unfolding accept
  accept_ok (err e) cs h = cc
  accept_ok (ok none) cs h = cc
  accept_ok (ok (some s)) cs h = ground arith

module _ (F : Floats) (sha256 : Bytes → Bytes) (gob : Codec F.F32) where
  -- The live set after a successful push.
  pub record Installed (frames : List (Frame F.F32)) (r : SetCentroidsResponse) (s : Server F.F32)
      : Type 0 where
    pub set : CentroidSet F.F32
    pub live : s.centroids ≡ some set
    pub usable : IsWellFormed set vector_dim
    pub verified : verify_version F sha256 set ≡ ok tt
    pub one_header : headers frames ≡ 1
    pub assembled : set.vectors ≡ all_rows frames
    pub version_told : r.version ≡ set.version
    pub count_told : r.nlist ≡ length (all_rows frames) % 2 ^ 32
